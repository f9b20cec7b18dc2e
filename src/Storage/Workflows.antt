-- ===== src/Storage/Workflows.antt =====
-- crates/contexide-storage-pg/src/workflows.rs: runs, tasks and attempts as they are stored. An id is
-- the number that its UUID is; `Value` stands for `serde_json::Value`, which is not of this repository.
pub mod Mem
use contexide.Prelude.{ℕ, ℤ, String, Bool, Option}
use contexide.Workflow.Policy.{ExecutionPolicy}
use contexide.Workflow.State.DagRunStatus.{DagRunStatus}
use contexide.Workflow.State.TaskStatus.{TaskStatus}
use contexide.Workflow.State.TaskRunStatus.{TaskRunStatus}

pub record DagRun (Value : Type 0) : Type 0 where
  pub id : ℕ
  pub tenant_id : ℕ
  pub workflow_key : String
  pub status : DagRunStatus
  pub params : Value
  pub error : Option String
  pub execution_policy : Option ExecutionPolicy
  pub execution_policy_version : ℤ

pub record Task (Value : Type 0) : Type 0 where
  pub id : ℕ
  pub dag_run_id : ℕ
  pub tenant_id : ℕ
  pub kind : String
  pub status : TaskStatus
  pub payload : Value
  pub result : Option Value
  pub max_attempts : Option ℤ
  pub retry_policy : String
  pub retry_params : Value
  pub priority : ℤ
  pub execution_policy_override : Option ExecutionPolicy

pub record TaskRun : Type 0 where
  pub id : ℕ
  pub task_id : ℕ
  pub tenant_id : ℕ
  pub status : TaskRunStatus
  pub attempt_no : ℤ
  pub error : Option String
  pub worker_label : Option String
  pub error_code : Option String
  pub error_message : Option String
  pub transient_error : Option Bool
