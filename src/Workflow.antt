-- ===== src/Workflow.antt =====
-- The workflow domain model of crates/contexide-core/src/workflow (crates/contexide-workflow-core/src
-- is a copy of it, but for its `use` lines).
pub mod Dag
pub mod State
pub mod Policy
pub mod Run
pub mod Retry
pub mod Limits
mod Examples
