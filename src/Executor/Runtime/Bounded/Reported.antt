-- ===== src/Executor/Runtime/Bounded/Reported.antt =====
-- Workers' reports.
use contexide.Prelude.{
  ℕ, ◌+◌, ◌≤◌, ◌<◌, ◌%◌, ◌^◌, ◌≡◌, refl, sym, ap, ◌∙◌, inl, inr, String, Option, none, some, List,
  [], ◌∷◌, nat_eq, arith, Bool-cases, Option-cases, length,
}
use contexide.HashMap.{HashMap}
use contexide.Workflow.State.TaskStatus
use contexide.Workflow.State.TaskRunStatus
use contexide.Storage.Workflows.{Task, TaskRun}
use contexide.Storage.Workflows.Mem.Tasks
use contexide.Storage.Workflows.Mem.TaskRuns
use contexide.Executor.Domain.{Origin, WorkerStatus, success, failed, RetryPolicy, should_retry}
use contexide.Executor.Json.{Json}
use contexide.Executor.Scheduler.Results.{
  refresh_dag_status, embed_tasks, fan_out_list, chunk_sets, chunk_set_of, fan_out, complete_task,
  handle_success, retried, retry_task, handle_failure, handle_attempt, origin, handle_worker_status,
}
use contexide.Executor.Scheduler.Results.Attempts.{
  closed, runs-save_all, runs-refresh, issued-embed_tasks, runs-handle_attempt,
}
use contexide.Executor.Scheduler.Results.Delivery.{handled_of_open}
use contexide.Executor.Scheduler.Results.Filing.{tasks_of-refresh}
use contexide.Executor.Store.{Store}
use contexide.Executor.Store.Filed.{IsFiled, get-own}
use contexide.Executor.Store.Tally.{tally, tally-insert_same, length-list_by_task}
use contexide.Executor.Runtime.Final.{IsFresh, IsOwned}
use contexide.Executor.Runtime.Bounded.{
  limit_of, limit_pos, IsBounded, IsUnused, IsOld-made, Allowed, AllAllowed, ListAllowed,
  AllAllowed-mono, save-AllAllowed, save_all-AllAllowed,
}

module _ (json : Json) (uuid : ℕ → ℕ) (fresh : IsFresh uuid) (limit : ℕ) (some_left : 0 < limit)
    (runs : HashMap ℕ TaskRun) where
  open json use {Value}

  -- What the tasks of a store are, by the attempts `runs`.
  abbrev IsAllowed : Store Value → Type 0
  IsAllowed store = AllAllowed uuid limit store.issued runs store.tasks

  embed_tasks-ListAllowed :
      (issued d t : ℕ) (list : List Value) (last : ℕ)
      → IsUnused uuid issued runs
      → (embed_tasks json uuid issued d t list).1 ≤ last
      → ListAllowed uuid limit last runs (embed_tasks json uuid issued d t list).0
  unfolding embed_tasks
  embed_tasks-ListAllowed issued d t [] last unused le = tt
  embed_tasks-ListAllowed issued d t (cs ∷ list) last unused le =
      elim (Option-cases (chunk_set_of json uuid cs)) [
        | inl bad ↦
            rw (bad, embed_tasks)
              (embed_tasks-ListAllowed issued d t list last unused (rw (bad, embed_tasks) at le))
        | inr (chunk_set_id, good) ↦
            let le' : (embed_tasks json uuid (issued + 1) d t list).1 ≤ last =
              rw (good, embed_tasks) at le in
            rw (good, embed_tasks)
              (
                (
                  λ _. omega (arith, unused issued (omega arith)),
                  IsOld-made uuid fresh issued last
                      (omega (arith, issued-embed_tasks json uuid (issued + 1) d t list)),
                ),
                embed_tasks-ListAllowed (issued + 1) d t list last (λ n h. unused n (omega arith))
                    le',
              )
      ]

  fan_out-IsAllowed :
      (store : Store Value) (d t : ℕ) (output : Option Value)
      → IsUnused uuid store.issued runs
      → IsAllowed store
      → IsAllowed (fan_out json uuid store d t output)
  unfolding fan_out fan_out_list
  fan_out-IsAllowed store d t none unused all = all
  fan_out-IsAllowed store d t (some output) unused all =
      elim (Option-cases (chunk_sets json uuid output)) [
        | inl nothing ↦ rw (nothing, fan_out) all
        | inr (list, found) ↦
            let made = embed_tasks json uuid store.issued d t list in
            let more = issued-embed_tasks json uuid store.issued d t list in
            let wider : Store Value = record store { issued = made.1 } in
            let (same, kept) = runs-save_all wider made.0 in
            rw (found, fan_out)
              (rw kept (
                save_all-AllAllowed uuid limit made.1 runs wider made.0
                  (AllAllowed-mono uuid limit store.issued made.1 runs store.tasks more all)
                  (embed_tasks-ListAllowed store.issued d t list made.1 unused (omega arith))))
      ]

  refresh-IsAllowed :
      (store : Store Value) (d : ℕ)
      → IsAllowed store
      → IsAllowed (refresh_dag_status json uuid store d)
  refresh-IsAllowed store d all =
      rw (tasks_of-refresh json uuid store d, (runs-refresh json uuid store d).1) all

  success-IsAllowed :
      (store : Store Value) (from : Origin) (output : Option Value) (run : TaskRun)
      → IsUnused uuid store.issued runs
      → IsAllowed store
      → IsAllowed (handle_success json uuid store from output run)
  unfolding handle_success complete_task
  success-IsAllowed store from output run unused all =
      elim (Option-cases (Tasks.get store.tasks from.task_id)) [
        | inl gone ↦ rw (gone, handle_success) all
        | inr (task, found) ↦
            let done : Task Value = record task { status = TaskStatus.success; result = output } in
            rw (found, handle_success)
              (refresh-IsAllowed _ from.dag_run_id (
                fan_out-IsAllowed _ from.dag_run_id task.tenant_id output unused (
                  save-AllAllowed uuid limit store.issued runs store.tasks done all
                    (λ h. absurd cc, (all from.task_id task found).1))))
      ]

  module _ (policy : RetryPolicy) (is_limit : limit ≡ limit_of policy)
      (small : policy.max_attempts < 2 ^ 32) (within : (t : ℕ) → tally t runs ≤ limit) where
    retried-Allowed :
        (issued count : ℕ) (error : String) (error_kind : Option String) (task : Task Value)
        → count ≡ tally task.id runs
        → Allowed uuid limit issued runs task
        → Allowed uuid limit issued runs
            (retried json uuid policy (count % 2 ^ 32) error error_kind task)
    unfolding retried
    retried-Allowed issued count error error_kind task counted (waits, old) =
        elim (Bool-cases (should_retry policy (count % 2 ^ 32))) [
          | inl again ↦
              rw (again, retried)
                (λ _. ground (arith, is_limit, small, within task.id, counted, again), old)
          | inr over ↦ rw (over, retried) (λ h. absurd cc, old)
        ]

    retry_task-IsAllowed :
        (store : Store Value) (from : Origin) (error : String) (error_kind : Option String)
        → store.task_runs ≡ runs
        → IsFiled store.tasks
        → IsAllowed store
        → IsAllowed (retry_task json uuid policy store from error error_kind)
    unfolding retry_task
    retry_task-IsAllowed store from error error_kind same filed all =
        elim (Option-cases (Tasks.get store.tasks from.task_id)) [
          | inl gone ↦ rw (gone, retry_task) all
          | inr (task, found) ↦
              let own = get-own store.tasks from.task_id task filed found in
              let count = length (TaskRuns.list_by_task store.task_runs from.task_id) in
              let counted : count ≡ tally task.id runs =
                length-list_by_task store.task_runs from.task_id
                ∙ ap (λ m. tally from.task_id m) same
                ∙ ap (λ i. tally i runs) (sym own) in
              rw (found, retry_task)
                (save-AllAllowed uuid limit store.issued runs store.tasks
                  (retried json uuid policy (count % 2 ^ 32) error error_kind task) all
                  (retried-Allowed store.issued count error error_kind task counted
                    (all from.task_id task found)))
        ]

    attempt-IsAllowed :
        (store : Store Value) (status : WorkerStatus Value) (run : TaskRun)
        → TaskRuns.save store.task_runs (closed json uuid status run) ≡ runs
        → IsUnused uuid store.issued runs
        → IsFiled store.tasks
        → IsAllowed store
        → IsAllowed (handle_attempt json uuid policy store status run)
    unfolding handle_attempt handle_failure closed
    attempt-IsAllowed store (success from output) run same unused filed all =
        success-IsAllowed store from output run unused all
    attempt-IsAllowed store (failed from error error_kind) run same unused filed all =
        refresh-IsAllowed _ from.dag_run_id (
          retry_task-IsAllowed
            (record store {
              task_runs =
                  TaskRuns.save store.task_runs
                    (record run { status = TaskRunStatus.failed; error = some error });
            })
            from error error_kind same filed all)

module _ (json : Json) (uuid : ℕ → ℕ) (fresh : IsFresh uuid) (policy : RetryPolicy)
    (small : policy.max_attempts < 2 ^ 32) where
  open json use {Value}

  closed-task_id :
      (status : WorkerStatus Value) (run : TaskRun)
      → ((closed json uuid status run).task_id ≡ run.task_id)
        × ((closed json uuid status run).id ≡ run.id)
  unfolding closed
  closed-task_id (success from output) run = (refl, refl)
  closed-task_id (failed from error error_kind) run = (refl, refl)

  handled-IsBounded :
      (store : Store Value) (status : WorkerStatus Value) (run : TaskRun)
      → TaskRuns.get store.task_runs (origin json uuid status).task_run_id ≡ some run
      → IsBounded uuid (limit_of policy) store
      → IsOwned uuid (handle_attempt json uuid policy store status run)
      → IsFiled (handle_attempt json uuid policy store status run).tasks
      → IsBounded uuid (limit_of policy) (handle_attempt json uuid policy store status run)
  handled-IsBounded store status run found bounded owned filed =
      let over = closed json uuid status run in
      let runs = TaskRuns.save store.task_runs over in
      let (now, more) = runs-handle_attempt json uuid policy store status run in
      let (of_task, own) = closed-task_id status run in
      let at_id : TaskRuns.get store.task_runs over.id ≡ some run =
        ap (TaskRuns.get store.task_runs)
          (own ∙ bounded.owned.0 (origin json uuid status).task_run_id run found)
        ∙ found in
      let same =
        λ (t : ℕ). tally-insert_same over.id t over run store.task_runs at_id (sym of_task) in
      let within = λ (t : ℕ).
        let le : tally t runs ≤ limit_of policy = omega (arith, same t, bounded.within t) in le in
      let unused : IsUnused uuid store.issued runs = λ n h. same (uuid n) ∙ bounded.unused n h in
      record {
        owned = owned;
        filed = filed;
        within = λ t. rw now (within t);
        unused = λ n h. rw now (unused n (omega (arith, more)));
        allowed = rw now (
            attempt-IsAllowed json uuid fresh (limit_of policy) (limit_pos policy) runs policy refl
              small within store status run refl unused bounded.filed
              (λ k t h.
                let (waits, old) = bounded.allowed k t h in
                (λ w. omega (arith, same t.id, waits w), old)));
      }

  pub handle_worker_status-IsBounded :
      (store : Store Value) (status : WorkerStatus Value)
      → IsBounded uuid (limit_of policy) store
      → IsOwned uuid (handle_worker_status json uuid policy store status)
      → IsFiled (handle_worker_status json uuid policy store status).tasks
      → IsBounded uuid (limit_of policy) (handle_worker_status json uuid policy store status)
  unfolding handle_worker_status
  handle_worker_status-IsBounded store status bounded owned filed =
      elim (Option-cases (TaskRuns.get store.task_runs (origin json uuid status).task_run_id)) [
        | inl gone ↦ rw (gone, handle_worker_status) bounded
        | inr (run, found) ↦ elim (Bool-cases (TaskRunStatus.is_terminal run.status)) [
          | inl over ↦ rw (found, over, handle_worker_status) bounded
          | inr going ↦
              let handled = handled_of_open json uuid policy store status run found going in
              rw (found, going, handle_worker_status)
                (handled-IsBounded store status run found bounded (rw handled at owned)
                  (rw handled at filed))
        ]
      ]
