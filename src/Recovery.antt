-- ===== src/Recovery.antt =====
-- python/apexquant-disaster-recovery: the scores of readiness and the checks behind them.
pub mod Models
pub mod Floats
pub mod Scoring
pub mod Repository
pub mod Verifier
pub mod Caps
pub mod Assessed
pub mod Readiness
mod Examples
