-- ===== src/Hub/Tests.antt =====
-- Runs of the hub's models (components/idthw_hub) on concrete inputs.
mod Store
mod Workflow
mod Template
mod Permissions
