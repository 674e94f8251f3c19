-- ===== src/Flags.antt =====
-- python/apexquant-flags: flag evaluation, bucketing, and the provider's degradation ladder.
mod Model
mod Evaluator
mod Provider
pub mod Bucketing
pub mod Precedence
pub mod Degradation
pub mod Examples
