-- ===== src/Workflow.antt =====
-- The workflow compiler, agentimg/archify/renderers/workflow/workflow-compiler.mjs.
pub mod Contract
pub mod Search
pub mod Reach
pub mod Paths
pub mod Keys
pub mod Accepts
pub mod Columns
pub mod Solve
pub mod Relaxed
pub mod Solved
pub mod Roomy
pub mod Canonical
pub mod Reordered
pub mod Pins
pub mod Answer
pub mod Migrate
pub mod Target
pub mod Migrated
mod Examples
