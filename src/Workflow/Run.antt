-- ===== src/Workflow/Run.antt =====
-- crates/contexide-core/src/workflow/run.rs: runs, tasks and attempts as in-memory objects. An id is
-- the number that its UUID is, and comes from outside; `Value` stands for `serde_json::Value`.
pub mod Lifecycle
use contexide.Prelude.{ℕ, ℤ, String, Bool, true, false, Option, none, some, not, if◌then◌else◌}
use contexide.Workflow.Dag.{TaskKind}
use contexide.Workflow.State.DagRunStatus
use contexide.Workflow.State.DagRunStatus.{DagRunStatus}
use contexide.Workflow.State.TaskStatus.{TaskStatus}
use contexide.Workflow.State.TaskRunStatus.{TaskRunStatus}

pub record DagRun (Value : Type 0) : Type 0 where
  pub id : ℕ
  pub tenant_id : ℕ
  pub dag_name : String
  pub dag_version : ℤ
  pub status : DagRunStatus
  pub params : Value

pub record Task (Value : Type 0) : Type 0 where
  pub id : ℕ
  pub dag_run_id : ℕ
  pub node_key : String
  pub kind : TaskKind
  pub status : TaskStatus
  pub attempt_count : ℕ
  pub params : Value

pub record TaskRun : Type 0 where
  pub id : ℕ
  pub task_id : ℕ
  pub attempt_no : ℕ
  pub status : TaskRunStatus
  pub error : Option String

mark_ready_from : TaskStatus → TaskStatus
mark_ready_from TaskStatus.pending = TaskStatus.ready
mark_ready_from status = status

mark_running_from : TaskStatus → TaskStatus
mark_running_from TaskStatus.ready = TaskStatus.running
mark_running_from TaskStatus.pending = TaskStatus.running
mark_running_from status = status

module _ {Value : Type 0} where
  pub new_dag_run : ℕ → ℕ → String → ℤ → Value → DagRun Value
  new_dag_run id tenant_id dag_name dag_version params = record {
    id = id;
    tenant_id = tenant_id;
    dag_name = dag_name;
    dag_version = dag_version;
    status = DagRunStatus.created;
    params = params;
  }

  -- `DagRun::mark_running`
  pub mark_run_running : DagRun Value → DagRun Value
  mark_run_running run =
      if not (DagRunStatus.is_terminal run.status)
      then record run { status = DagRunStatus.running }
      else run

  -- `DagRun::finish`, as a release build runs it: the `debug_assert!` on `final_status` is compiled out.
  pub finish : DagRun Value → DagRunStatus → DagRun Value
  finish run final_status = record run { status = final_status }

  pub new_task : ℕ → ℕ → String → TaskKind → Value → Task Value
  new_task id dag_run_id node_key kind params = record {
    id = id;
    dag_run_id = dag_run_id;
    node_key = node_key;
    kind = kind;
    status = TaskStatus.pending;
    attempt_count = 0;
    params = params;
  }

  pub mark_ready : Task Value → Task Value
  mark_ready task = record task { status = mark_ready_from task.status }

  pub mark_running : Task Value → Task Value
  mark_running task = record task { status = mark_running_from task.status }

  pub mark_success : Task Value → Task Value
  mark_success task = record task { status = TaskStatus.success }

  pub mark_failed : Task Value → Task Value
  mark_failed task = record task { status = TaskStatus.failed }

  pub mark_skipped : Task Value → Task Value
  mark_skipped task = record task { status = TaskStatus.skipped }

pub new_task_run : ℕ → ℕ → ℕ → TaskRun
new_task_run id task_id attempt_no = record {
  id = id;
  task_id = task_id;
  attempt_no = attempt_no;
  status = TaskRunStatus.created;
  error = none;
}

start_from : TaskRunStatus → TaskRunStatus
start_from TaskRunStatus.created = TaskRunStatus.running
start_from status = status

-- `TaskRun::mark_running`, `mark_success`, `mark_failed` and `mark_aborted`.
pub mark_attempt_running : TaskRun → TaskRun
mark_attempt_running run = record run { status = start_from run.status }

pub mark_attempt_success : TaskRun → TaskRun
mark_attempt_success run = record run { status = TaskRunStatus.success; error = none }

pub mark_attempt_failed : TaskRun → String → TaskRun
mark_attempt_failed run msg = record run { status = TaskRunStatus.failed; error = some msg }

pub mark_attempt_aborted : TaskRun → String → TaskRun
mark_attempt_aborted run msg = record run { status = TaskRunStatus.aborted; error = some msg }
