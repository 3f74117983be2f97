-- ===== src/Hub.antt =====
-- components/idthw_hub: the hub's application server.
pub mod Input
pub mod Cluster
pub mod Kubectl
pub mod Workflow
pub mod Template
pub mod Permissions
mod Tests
