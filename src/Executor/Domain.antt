-- ===== src/Executor/Domain.antt =====
-- crates/contexide-workflow-executor/src/domain.rs: the values that scheduler and messaging exchange,
-- the retry test, and the status of a run as its tasks give it.
pub mod Status
use contexide.Prelude.{ℕ, String, Bool, true, false, Option, List, ltb, any, all, if◌then◌else◌}
use contexide.Workflow.State.DagRunStatus.{DagRunStatus}
use contexide.Workflow.State.TaskStatus.{TaskStatus}

pub record ReadyTask (Value : Type 0) : Type 0 where
  pub tenant_id : ℕ
  pub dag_run_id : ℕ
  pub task_id : ℕ
  pub task_run_id : ℕ
  pub kind : String
  pub payload : Value

-- The ids that both messages carry: tenant, run, task and attempt.
pub record Origin : Type 0 where
  pub tenant_id : ℕ
  pub dag_run_id : ℕ
  pub task_id : ℕ
  pub task_run_id : ℕ

pub data WorkerStatus (Value : Type 0) : Type 0 where
  success : Origin → Option Value → WorkerStatus Value
  failed : Origin → String → Option String → WorkerStatus Value

pub record RetryPolicy : Type 0 where
  pub max_attempts : ℕ

abbrev pub should_retry : RetryPolicy → ℕ → Bool
should_retry policy attempts = ltb attempts policy.max_attempts

abbrev pub is_failed : TaskStatus → Bool
is_failed TaskStatus.failed = true
is_failed _ = false

-- `matches!(s, TaskStatus::Success | TaskStatus::Skipped)`
abbrev pub is_done : TaskStatus → Bool
is_done TaskStatus.success = true
is_done TaskStatus.skipped = true
is_done _ = false

unfoldable pub dag_status_from_tasks : List TaskStatus → DagRunStatus
dag_status_from_tasks statuses =
    if any is_failed statuses
    then DagRunStatus.failed
    else if all is_done statuses
    then DagRunStatus.success
    else DagRunStatus.running

pub is_task_terminal : TaskStatus → Bool
is_task_terminal TaskStatus.success = true
is_task_terminal TaskStatus.failed = true
is_task_terminal TaskStatus.skipped = true
is_task_terminal _ = false
