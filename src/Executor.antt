-- ===== src/Executor.antt =====
-- crates/contexide-workflow-executor: planning, scheduling, and the results of workers.
pub mod Domain
pub mod Json
pub mod Store
pub mod Scheduler
pub mod Planner
pub mod RetryLogic
pub mod Messaging
pub mod Runtime
pub mod Samples
mod Examples
