-- ===== src/Secrets.antt =====
-- python/apexquant-secrets: the access policy, the encrypted store and its cipher.
mod Models
mod Crypto
pub mod Policy
pub mod Store
pub use Models.*
pub use Crypto.*
