-- ===== src/Locks.antt =====
-- python/apexquant-redis/src/apexquant-redis/lock.py: a lock over one key of a Redis server.
pub mod Server
pub mod Client
pub mod System
pub mod Turns
pub mod Contract
pub mod Blocking
pub mod Examples
