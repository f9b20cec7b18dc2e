-- ===== src/Workflow/State.antt =====
-- crates/contexide-core/src/workflow/state.rs: the three status enums, each with its tests and its
-- names in storage.
pub mod DagRunStatus
pub mod TaskStatus
pub mod TaskRunStatus
pub mod Names
