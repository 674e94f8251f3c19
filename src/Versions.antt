-- ===== src/Versions.antt =====
-- python/apexquant-service-versioning: semantic versions, their order, compatibility, and the
-- lifecycle of a service's versions.
mod Orders
mod Semver
mod Precedence
mod Compatible
mod Sorted
mod Kept
mod Highest
mod Totality
mod Repository
mod Service
mod Lifecycle
mod Traces
mod Examples
mod Listing
mod Released
mod Compatibility
