-- ===== src/Executor/Scheduler.antt =====
-- crates/contexide-workflow-executor/src/scheduler.rs: `DbScheduler` over the in-memory repositories,
-- as functions on the store. The repositories do not fail there, so no step returns an error.
pub mod Ready
pub mod Results
