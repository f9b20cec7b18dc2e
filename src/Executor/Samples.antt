-- ===== src/Executor/Samples.antt =====
-- A small store: a run with two tasks, the first of them tried twice.
use mathlib.Core.List.Memᴰ
use contexide.Prelude.{
  ℕ, String, ◌≡◌, refl, inl, inr, true, false, none, some, List, [], ◌∷◌, map, pos, nat_eq, ◌==◌,
  string_eq, arith, if◌then◌else◌,
}
use contexide.HashMap
use contexide.HashMap.{HashMap, values}
use contexide.Workflow.State.DagRunStatus.{DagRunStatus}
use contexide.Workflow.State.TaskStatus.{TaskStatus}
use contexide.Workflow.State.TaskRunStatus
use contexide.Storage.Workflows.{DagRun, Task, TaskRun}
use contexide.Storage.Workflows.Mem.DagRuns
use contexide.Storage.Workflows.Mem.Tasks
use contexide.Storage.Workflows.Mem.TaskRuns
use contexide.Executor.Domain.{Origin, RetryPolicy}
use contexide.Executor.Json.{Json}
use contexide.Executor.Store.{Store}
use contexide.Executor.Store.Filed.{IsFiled}
use contexide.Executor.Runtime.Final.{IsOwned}
use contexide.Executor.Scheduler.Ready.Batch.{IsKeyed}

-- Values that are lists of texts, of which "seven" is an id.
abbrev pub texts : Json
texts = record {
  Value = List String;
  null = [];
  bool = λ b. if b then "true" ∷ [] else [];
  string = λ s. s ∷ [];
  uuid = λ n. "id" ∷ [];
  array = λ l. [];
  object = λ fields. [];
  get = λ v key. some v;
  as_array = λ v. some (map (λ s. s ∷ []) v);
  as_str = λ v. elim v [ [] ↦ none | s ∷ _ ↦ some s ];
  as_u64 = λ v. none;
  parse_uuid = λ s. if s == "seven" then some 7 else none;
}

abbrev pub same : ℕ → ℕ
same n = n

abbrev pub policy : RetryPolicy
policy = record { max_attempts = 3 }

abbrev pub task : ℕ → String → Task (List String)
task id kind = record {
  id = id;
  dag_run_id = 1;
  tenant_id = 2;
  kind = kind;
  status = TaskStatus.pending;
  payload = [];
  result = none;
  max_attempts = some (pos 2);
  retry_policy = "fixed";
  retry_params = [];
  priority = pos 0;
  execution_policy_override = none;
}

abbrev pub dag_run : DagRun (List String)
dag_run = record {
  id = 1;
  tenant_id = 2;
  workflow_key = "default";
  status = DagRunStatus.created;
  params = [];
  error = none;
  execution_policy = none;
  execution_policy_version = pos 1;
}

abbrev pub attempt : ℕ → TaskRunStatus.TaskRunStatus → TaskRun
attempt id status = record {
  id = id;
  task_id = 10;
  tenant_id = 2;
  status = status;
  attempt_no = pos 1;
  error = none;
  worker_label = none;
  error_code = none;
  error_message = none;
  transient_error = some true;
}

-- One attempt that failed, and one that runs.
abbrev pub store : Store (List String)
store = record {
  dag_runs = (1, dag_run) ∷ [];
  tasks = (10, task 10 "extractor") ∷ (11, task 11 "normalizer") ∷ [];
  task_runs = (50, attempt 50 TaskRunStatus.failed) ∷ (51, attempt 51 TaskRunStatus.running) ∷ [];
  issued = 100;
}

abbrev pub from : Origin
from = record { tenant_id = 2; dag_run_id = 1; task_id = 10; task_run_id = 51 }

pub store-IsKeyed : IsKeyed store.tasks
unfolding HashMap.get
store-IsKeyed t m = elim (Memᴰ.cases_cons m) [
  | inl here ↦ rw here refl
  | inr later ↦ elim (Memᴰ.cases_cons later) [
    | inl here ↦ rw here refl
    | inr none_left ↦ absurd (Memᴰ.not-nil none_left)
  ]
]

pub store-IsFiled : IsFiled store.tasks
unfolding HashMap.get
store-IsFiled = (refl, refl, (refl, refl, tt))

pub store-IsOwned : IsOwned same store
unfolding HashMap.get
store-IsOwned = (λ k run found. ground arith, λ n after. ground arith)

pub running-attempt-found :
    TaskRuns.get store.task_runs 51 ≡ some (attempt 51 TaskRunStatus.running)
unfolding HashMap.get
running-attempt-found = refl

pub failed_attempt-found : TaskRuns.get store.task_runs 50 ≡ some (attempt 50 TaskRunStatus.failed)
unfolding HashMap.get
failed_attempt-found = refl

pub over : TaskRunStatus.is_terminal TaskRunStatus.failed ≡ true
unfolding TaskRunStatus.is_terminal
over = refl

pub going : TaskRunStatus.is_terminal TaskRunStatus.running ≡ false
unfolding TaskRunStatus.is_terminal
going = refl

pub task-found : Tasks.get store.tasks 10 ≡ some (task 10 "extractor")
unfolding HashMap.get
task-found = refl

pub run-found : DagRuns.get store.dag_runs 1 ≡ some dag_run
unfolding HashMap.get
run-found = refl
