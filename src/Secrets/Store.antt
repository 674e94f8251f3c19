-- ===== src/Secrets/Store.antt =====
-- python/apexquant-secrets/store.py: the secrets of the local encrypted store.
mod Names
mod Entries
mod Operations
pub mod Laws
pub mod Saving
pub mod Examples
