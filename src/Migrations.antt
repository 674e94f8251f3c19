-- ===== src/Migrations.antt =====
-- python/apexquant-migrations: the files of a migration tree, the plan, and the two engines that
-- apply it.
pub mod Models
pub mod Planner
pub mod Loop
pub mod Registry
pub mod Postgres
pub mod Recorded
pub mod Planned
pub mod Inserts
pub mod Applied
pub mod Success
pub mod Failure
pub mod Discovery
pub mod Numbering
pub mod Creation
pub mod Trees
pub mod Rediscovery
pub mod Examples
pub mod Statements
pub mod ClickHouse
pub mod Leaks
