-- ===== src/Executor/Scheduler/Results/Attempts.antt =====
-- What a worker's message does to the attempts in the store.
use contexide.Prelude.{
  ℕ, ◌+◌, ◌≤◌, String, ◌≡◌, refl, ◌∙◌, inl, inr, Option, none, some, List, [], ◌∷◌, nat_eq, arith,
  Option-cases,
}
use contexide.Workflow.State.TaskStatus
use contexide.Workflow.State.TaskRunStatus.{TaskRunStatus}
use contexide.Storage.Workflows.{Task, TaskRun}
use contexide.Storage.Workflows.Mem.Tasks
use contexide.Storage.Workflows.Mem.TaskRuns
use contexide.Executor.Domain.{Origin, WorkerStatus, success, failed, RetryPolicy}
use contexide.Executor.Json.{Json}
use contexide.Executor.Store.{Store, save_all}
use contexide.Executor.Scheduler.Results.{
  refresh_dag_status, embed_tasks, fan_out, fan_out_list, complete_task, handle_success, retry_task,
  handle_failure, handle_attempt, chunk_sets,
}

pub runs-save_all :
    {Value : Type 0} (store : Store Value) (tasks : List (Task Value))
    → ((save_all store tasks).task_runs ≡ store.task_runs)
      × ((save_all store tasks).issued ≡ store.issued)
unfolding save_all
runs-save_all store [] = (refl, refl)
runs-save_all store (task ∷ tasks) =
    runs-save_all (record store { tasks = Tasks.save store.tasks task }) tasks

module _ (json : Json) (uuid : ℕ → ℕ) where
  open json use {Value}

  -- How an attempt ends by a message.
  unfoldable pub closed : WorkerStatus Value → TaskRun → TaskRun
  closed (success from output) run = record run { status = TaskRunStatus.success; error = none }
  closed (failed from error error_kind) run = record run {
    status = TaskRunStatus.failed;
    error = some error;
  }

  pub runs-refresh :
      (store : Store Value) (d : ℕ)
      → ((refresh_dag_status json uuid store d).task_runs ≡ store.task_runs)
        × ((refresh_dag_status json uuid store d).issued ≡ store.issued)
  unfolding refresh_dag_status
  runs-refresh store d = ground arith

  pub issued-embed_tasks :
      (issued d t : ℕ) (list : List Value) → issued ≤ (embed_tasks json uuid issued d t list).1
  unfolding embed_tasks
  issued-embed_tasks issued d t [] = omega arith
  issued-embed_tasks issued d t (cs ∷ list) =
      ground (arith, issued-embed_tasks issued d t list, issued-embed_tasks (issued + 1) d t list)

  runs-fan_out :
      (store : Store Value) (d t : ℕ) (output : Option Value)
      → ((fan_out json uuid store d t output).task_runs ≡ store.task_runs)
        × (store.issued ≤ (fan_out json uuid store d t output).issued)
  unfolding fan_out fan_out_list
  runs-fan_out store d t none = (refl, omega arith)
  runs-fan_out store d t (some output) = elim (Option-cases (chunk_sets json uuid output)) [
    | inl nothing ↦ rw (nothing, fan_out) (refl, omega arith)
    | inr (list, found) ↦
        let (tasks, issued) = embed_tasks json uuid store.issued d t list in
        let (same, kept) = runs-save_all (record store { issued = issued }) tasks in
        rw (found, fan_out) (same, omega (arith, kept, issued-embed_tasks store.issued d t list))
  ]

  runs-complete_task :
      (store : Store Value) (from : Origin) (output : Option Value) (task : Task Value)
      → ((complete_task json uuid store from output task).task_runs ≡ store.task_runs)
        × (store.issued ≤ (complete_task json uuid store from output task).issued)
  unfolding complete_task
  runs-complete_task store from output task =
      let saved : Store Value = record store {
        tasks =
            Tasks.save store.tasks (record task { status = TaskStatus.success; result = output });
      } in
      let grown : Store Value = fan_out json uuid saved from.dag_run_id task.tenant_id output in
      let (same, more) = runs-fan_out saved from.dag_run_id task.tenant_id output in
      let (same', kept) = runs-refresh grown from.dag_run_id in
      (same' ∙ same, omega (arith, kept, more))

  runs-retry_task :
      (policy : RetryPolicy) (store : Store Value) (from : Origin) (error : String)
      (error_kind : Option String)
      → ((retry_task json uuid policy store from error error_kind).task_runs ≡ store.task_runs)
        × ((retry_task json uuid policy store from error error_kind).issued ≡ store.issued)
  unfolding retry_task
  runs-retry_task policy store from error error_kind = ground arith

  runs-handle_success :
      (store : Store Value) (from : Origin) (output : Option Value) (run : TaskRun)
      → ((handle_success json uuid store from output run).task_runs
          ≡ TaskRuns.save store.task_runs (closed (success from output) run))
        × (store.issued ≤ (handle_success json uuid store from output run).issued)
  unfolding handle_success closed
  runs-handle_success store from output run =
      let done : Store Value = record store {
        task_runs = TaskRuns.save store.task_runs (closed (success from output) run);
      } in
      elim (Option-cases (Tasks.get store.tasks from.task_id)) [
        | inl gone ↦ rw (gone, handle_success) (refl, omega arith)
        | inr (task, found) ↦ rw (found, handle_success) (runs-complete_task done from output task)
      ]

  runs-handle_failure :
      (policy : RetryPolicy) (store : Store Value) (from : Origin) (error : String)
      (error_kind : Option String) (run : TaskRun)
      → ((handle_failure json uuid policy store from error error_kind run).task_runs
          ≡ TaskRuns.save store.task_runs (closed (failed from error error_kind) run))
        × (store.issued ≤ (handle_failure json uuid policy store from error error_kind run).issued)
  unfolding handle_failure closed
  runs-handle_failure policy store from error error_kind run =
      let over : Store Value = record store {
        task_runs = TaskRuns.save store.task_runs (closed (failed from error error_kind) run);
      } in
      let (same, kept) = runs-retry_task policy over from error error_kind in
      let (same', kept') =
        runs-refresh (retry_task json uuid policy over from error error_kind) from.dag_run_id in
      (same' ∙ same, omega (arith, kept, kept'))

  -- The message closes its attempt, and touches no other.
  pub runs-handle_attempt :
      (policy : RetryPolicy) (store : Store Value) (status : WorkerStatus Value) (run : TaskRun)
      → ((handle_attempt json uuid policy store status run).task_runs
          ≡ TaskRuns.save store.task_runs (closed status run))
        × (store.issued ≤ (handle_attempt json uuid policy store status run).issued)
  unfolding handle_attempt
  runs-handle_attempt policy store (success from output) run =
      runs-handle_success store from output run
  runs-handle_attempt policy store (failed from error error_kind) run =
      runs-handle_failure policy store from error error_kind run
