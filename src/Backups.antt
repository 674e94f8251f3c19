-- ===== src/Backups.antt =====
-- python/apexquant-backup-recovery: backup policies, their runs and artifacts, restores and
-- retention, over the repository in memory.
pub mod Models
pub mod Commands
pub mod Redaction
pub mod Repository
pub mod Service
pub mod Outside
pub mod Checking
pub mod Restoring
pub mod Retaining
pub mod Leak
pub mod Binds
pub mod Safety
pub mod Settled
pub mod Oldest
pub mod Bounds
pub mod Examples
