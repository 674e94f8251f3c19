-- ===== src/Containers.antt =====
-- python/apexquant-container-policy: the policy that a compose file's managed services must meet.
mod Compose
mod Policy
mod Severities
mod Silence
mod Compliance
mod Texts
mod Checked
mod Report
mod Examples
