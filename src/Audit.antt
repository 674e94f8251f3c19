-- ===== src/Audit.antt =====
-- python/apexquant-audit: the hash chain of the audit log.
mod Hashing
mod Chain
mod Repository
mod Appends
mod Examples
