-- ===== src/Secrets/Policy.antt =====
-- python/apexquant-secrets/policy.py: the rules and their evaluation.
mod Rules
mod Applies
pub mod Decision
mod Guarantees
pub mod Examples
