-- ===== src/Update.antt =====
-- The update notifier: agentimg/archify/scripts/update-contract.mjs and check-update.mjs.
pub mod Semver
pub mod Contract
pub mod State
pub mod Check
pub mod Operations
mod Tests
mod Examples
