-- ===== src/Executor/Scheduler/Ready.antt =====
-- `schedule_ready_tasks` of crates/contexide-workflow-executor/src/scheduler.rs, and its helpers.
pub mod Attempts
pub mod Filing
pub mod Upstream
pub mod Ongoing
pub mod Batch
use contexide.Prelude.{
  ℕ, ◌+◌, ◌-◌, ◌^◌, String, Bool, true, false, ◌&&◌, ◌||◌, not, Option, none, some, List, [], ◌∷◌,
  ◌++◌, ◌==◌, nat_eq, string_eq, ltb, eqb, if◌then◌else◌, length, as_i32,
}
use contexide.HashMap
use contexide.HashMap.{HashMap}
use contexide.Workflow.State.DagRunStatus.{DagRunStatus}
use contexide.Workflow.State.TaskStatus.{TaskStatus}
use contexide.Workflow.State.TaskRunStatus
use contexide.Storage.Workflows.{DagRun, Task, TaskRun}
use contexide.Storage.Workflows.Mem.DagRuns
use contexide.Storage.Workflows.Mem.Tasks
use contexide.Storage.Workflows.Mem.TaskRuns
use contexide.Executor.Domain.{ReadyTask, is_done}
use contexide.Executor.Store.{Store}

abbrev pub usize_max : ℕ
usize_max = 2 ^ 64 - 1

unfoldable pub ordering_for_kind : String → ℕ
ordering_for_kind kind =
    if kind == "extractor"
    then 0
    else if kind == "normalizer"
    then 1
    else if kind == "chunker"
    then 2
    else if kind == "embedder"
    then 3
    else if kind == "indexer"
    then 4
    else usize_max

-- `matches!(task.status, TaskStatus::Pending | TaskStatus::Ready)`
abbrev pub is_waiting : TaskStatus → Bool
is_waiting TaskStatus.pending = true
is_waiting TaskStatus.ready = true
is_waiting _ = false

abbrev is_created : DagRunStatus → Bool
is_created DagRunStatus.created = true
is_created _ = false

abbrev siblings_or_none {ℓ} : {A : Type ℓ} → Option (List A) → List A
siblings_or_none none = []
siblings_or_none (some l) = l

-- The variables of the loop in `schedule_ready_tasks`, and the store.
pub record Pump (Value : Type 0) : Type 0 where
  pub store : Store Value
  pub tasks_by_run : HashMap ℕ (List (Task Value))
  pub ready : List (ReadyTask Value)

module _ {Value : Type 0} where
  -- The loop over the siblings in `is_ready`.
  unfoldable pub upstream_done : ℕ → List (Task Value) → Bool
  upstream_done idx [] = true
  upstream_done idx (sib ∷ siblings) =
      let rest = upstream_done idx siblings in
      if ltb (ordering_for_kind sib.kind) idx && not (is_done sib.status) then false else rest

  unfoldable pub is_ready : Task Value → List (Task Value) → Bool
  is_ready task siblings =
      if not (is_waiting task.status)
      then false
      else (let idx = ordering_for_kind task.kind in
          if eqb idx 0 || eqb idx usize_max then true else upstream_done idx siblings)

  pub start_run : DagRun Value → DagRun Value
  start_run run = record run { status = DagRunStatus.running }

  unfoldable pub mark_dag_running : Store Value → ℕ → Store Value
  mark_dag_running store dag_run_id = elim (DagRuns.get store.dag_runs dag_run_id) [
    | some run ↦
        if is_created run.status
        then record store { dag_runs = DagRuns.save store.dag_runs (start_run run) }
        else store
    | none ↦ store
  ]

module _ {Value : Type 0} (uuid : ℕ → ℕ) where
  abbrev pub new_attempt : Store Value → Task Value → TaskRun
  new_attempt store task = record {
    id = uuid store.issued;
    task_id = task.id;
    tenant_id = task.tenant_id;
    status = TaskRunStatus.running;
    attempt_no = as_i32 (length (TaskRuns.list_by_task store.task_runs task.id));
    error = none;
    worker_label = none;
    error_code = none;
    error_message = none;
    transient_error = none;
  }

  abbrev pub ready_task : Task Value → ℕ → ReadyTask Value
  ready_task task task_run_id = record {
    tenant_id = task.tenant_id;
    dag_run_id = task.dag_run_id;
    task_id = task.id;
    task_run_id = task_run_id;
    kind = task.kind;
    payload = task.payload;
  }

  -- The rest of the loop's body for a task that is ready: the attempt, the task, the run.
  unfoldable pub dispatch : Store Value → Task Value → Store Value
  dispatch store task =
      mark_dag_running
        (record store {
          task_runs = TaskRuns.save store.task_runs (new_attempt store task);
          tasks = Tasks.save store.tasks (record task { status = TaskStatus.running });
          issued = store.issued + 1;
        })
        task.dag_run_id

  -- `tasks_by_run.entry(..).or_default()`, filled from the repository while it is empty.
  unfoldable pub siblings_of : Pump Value → Task Value → List (Task Value)
  siblings_of p task = elim (siblings_or_none (HashMap.get task.dag_run_id p.tasks_by_run)) [
    | [] ↦ Tasks.list_by_dag_run p.store.tasks task.dag_run_id
    | t ∷ ts ↦ t ∷ ts
  ]

  unfoldable pub schedule_task : Pump Value → Task Value → Pump Value
  schedule_task p task =
      let siblings = siblings_of p task in
      let cached = HashMap.insert task.dag_run_id siblings p.tasks_by_run in
      if not (is_ready task siblings) then record p { tasks_by_run = cached } else record {
        store = dispatch p.store task;
        tasks_by_run = cached;
        ready = p.ready ++ ready_task task (uuid p.store.issued) ∷ [];
      }

  unfoldable pub schedule_tasks : Pump Value → List (Task Value) → Pump Value
  schedule_tasks p [] = p
  schedule_tasks p (task ∷ tasks) = schedule_tasks (schedule_task p task) tasks

  unfoldable pub schedule_ready_tasks :
      Option ℕ → Store Value → List (ReadyTask Value) × Store Value
  schedule_ready_tasks max_batch store =
      let pump =
        schedule_tasks (record { store = store; tasks_by_run = []; ready = [] })
          (Tasks.list_pending store.tasks max_batch) in
      (pump.ready, pump.store)
