-- ===== src/Rbac.antt =====
-- python/apexquant-auth/src/apexquant_auth/rbac.py: permissions, the forbidden matrix, and the three
-- layers that enforce it.
mod Permissions
mod Checks
pub mod Covering
pub mod Layers
pub mod Examples
