-- ===== src/Executor/Scheduler/Results/FanOut.antt =====
-- What a worker's success does: the task, the embed tasks of the fan-out, and the run.
use mathlib.Core.List.Memᴰ
use contexide.Prelude.{
  ℕ, ◌+◌, ◌≤◌, ◌≡◌, ◌≢◌, refl, sym, ap, ◌∙◌, inl, inr, false, Option, none, some, List, [], ◌∷◌,
  nat_eq, ==_iff, arith, Option-cases, length, map, Memᴰ,
}
use contexide.HashMap.{get-insert, get-insert_self}
use contexide.Workflow.State.TaskStatus.{TaskStatus}
use contexide.Workflow.State.TaskRunStatus
use contexide.Storage.Workflows.{Task, TaskRun, DagRun}
use contexide.Storage.Workflows.Mem.DagRuns
use contexide.Storage.Workflows.Mem.Tasks
use contexide.Storage.Workflows.Mem.TaskRuns
use contexide.Executor.Domain.{Origin, success, RetryPolicy, dag_status_from_tasks}
use contexide.Executor.Json.{Json}
use contexide.Executor.Store.{Store, save_all}
use contexide.Executor.Scheduler.Results.{
  derived_status, embed_task, embed_tasks, chunk_set_of, chunk_sets, fan_out_list, fan_out,
  complete_task, handle_success, handle_attempt, handle_worker_status,
}
use contexide.Executor.Scheduler.Results.Delivery.{handled_of_open}
use contexide.Executor.Scheduler.Results.Effects.{refresh-status}

save_all-dag_runs :
    {Value : Type 0} (store : Store Value) (tasks : List (Task Value))
    → (save_all store tasks).dag_runs ≡ store.dag_runs
unfolding save_all
save_all-dag_runs store [] = refl
save_all-dag_runs store (task ∷ tasks) =
    save_all-dag_runs (record store { tasks = Tasks.save store.tasks task }) tasks

-- A task whose id none of the saved tasks has stays.
save_all-other :
    {Value : Type 0} (store : Store Value) (tasks : List (Task Value)) (k : ℕ)
    → ((t : Task Value) → Memᴰ t tasks → t.id ≢ k)
    → Tasks.get (save_all store tasks).tasks k ≡ Tasks.get store.tasks k
unfolding save_all
save_all-other store [] k others = refl
save_all-other store (task ∷ tasks) k others =
    save_all-other (record store { tasks = Tasks.save store.tasks task }) tasks k
      (λ t m. others t (Memᴰ.tail m))
    ∙ (let ne = others task (Memᴰ.head refl) in
        ground (arith, get-insert task.id k task store.tasks, ==_iff task.id k))

module _ (json : Json) (uuid : ℕ → ℕ) where
  open json use {Value}

  -- The chunk sets that the fan-out finds in a list of values.
  pub found_chunk_sets : List Value → List ℕ
  found_chunk_sets [] = []
  found_chunk_sets (cs ∷ list) = elim (chunk_set_of json uuid cs) [
    | some id ↦ id ∷ found_chunk_sets list
    | none ↦ found_chunk_sets list
  ]

  -- One embed task for each, with the ids from the `n`-th on.
  pub tasks_for : ℕ → ℕ → ℕ → List ℕ → List (Task Value)
  tasks_for n dag_run_id tenant_id [] = []
  tasks_for n dag_run_id tenant_id (id ∷ ids) =
      embed_task json uuid (uuid n) dag_run_id tenant_id id
      ∷ tasks_for (n + 1) dag_run_id tenant_id ids

  -- The fan-out makes one embed task for each chunk set id of the list that parses, in its order, and
  -- ids for these alone.
  pub embed_tasks-eq :
      (issued dag_run_id tenant_id : ℕ) (list : List Value)
      → embed_tasks json uuid issued dag_run_id tenant_id list ≡ (
        tasks_for issued dag_run_id tenant_id (found_chunk_sets list),
        issued + length (found_chunk_sets list),
      )
  unfolding embed_tasks tasks_for found_chunk_sets
  embed_tasks-eq issued d t [] = ap (λ n. ([], n)) (omega arith)
  embed_tasks-eq issued d t (cs ∷ list) = elim (Option-cases (chunk_set_of json uuid cs)) [
    | inl bad ↦ rw (bad, embed_tasks, found_chunk_sets) (embed_tasks-eq issued d t list)
    | inr (id, good) ↦
        rw (good, embed_tasks, found_chunk_sets, tasks_for)
          (ap (λ r. (embed_task json uuid (uuid issued) d t id ∷ r.0, r.1))
              (embed_tasks-eq (issued + 1) d t list)
            ∙ ap
                (λ n. (
                  embed_task json uuid (uuid issued) d t id
                      ∷ tasks_for (issued + 1) d t (found_chunk_sets list),
                  n,
                ))
                (omega arith))
  ]

  ids-tasks_for :
      (n d t : ℕ) (ids : List ℕ) (task : Task Value)
      → Memᴰ task (tasks_for n d t ids)
      → (j : ℕ) × (n ≤ j) × (task.id ≡ uuid j)
  unfolding tasks_for
  ids-tasks_for n d t [] task m = absurd (Memᴰ.not-nil m)
  ids-tasks_for n d t (id ∷ ids) task m = elim (Memᴰ.cases_cons m) [
    | inl here ↦ (n, omega arith, ap (λ (x : Task Value). x.id) here)
    | inr later ↦ let (j, le, e) = ids-tasks_for (n + 1) d t ids task later in (j, omega arith, e)
  ]

  fan_out_list-keeps :
      (store : Store Value) (d t : ℕ) (list : List Value) (k : ℕ)
      → ((n : ℕ) → store.issued ≤ n → uuid n ≢ k)
      → (Tasks.get (fan_out_list json uuid store d t list).tasks k ≡ Tasks.get store.tasks k)
        × ((fan_out_list json uuid store d t list).dag_runs ≡ store.dag_runs)
  unfolding fan_out_list
  fan_out_list-keeps store d t list k fresh =
      let tasks = (embed_tasks json uuid store.issued d t list).0 in
      let next : Store Value = record store {
        issued = (embed_tasks json uuid store.issued d t list).1;
      } in
      (
        save_all-other next tasks k (λ task m e.
            let m' = rw (ap (λ r. r.0) (embed_tasks-eq store.issued d t list)) at m in
            let (j, le, e') = ids-tasks_for store.issued d t (found_chunk_sets list) task m' in
            fresh j le (sym e' ∙ e)),
        save_all-dag_runs next tasks,
      )

  fan_out-keeps :
      (store : Store Value) (d t : ℕ) (output : Option Value) (k : ℕ)
      → ((n : ℕ) → store.issued ≤ n → uuid n ≢ k)
      → (Tasks.get (fan_out json uuid store d t output).tasks k ≡ Tasks.get store.tasks k)
        × ((fan_out json uuid store d t output).dag_runs ≡ store.dag_runs)
  unfolding fan_out
  fan_out-keeps store d t none k fresh = (refl, refl)
  fan_out-keeps store d t (some output) k fresh =
      elim (Option-cases (chunk_sets json uuid output)) [
        | inl absent ↦ rw (absent, fan_out) (refl, refl)
        | inr (list, found) ↦ rw (found, fan_out) (fan_out_list-keeps store d t list k fresh)
      ]

module _ (json : Json) (uuid : ℕ → ℕ) (policy : RetryPolicy) where
  open json use {Value}

  completes :
      (store : Store Value) (from : Origin) (output : Option Value) (attempt : TaskRun)
      (task : Task Value)
      → Tasks.get store.tasks from.task_id ≡ some task
      → handle_success json uuid store from output attempt
        ≡ complete_task json uuid
            (record store {
              task_runs =
                  TaskRuns.save store.task_runs
                    (record attempt { status = TaskRunStatus.success; error = none });
            })
            from
            output
            task
  unfolding handle_success
  completes store from output attempt task found =
      ap
        (λ (o : Option (Task Value)). elim o [
          | some task ↦
              complete_task json uuid
                (record store {
                  task_runs =
                      TaskRuns.save store.task_runs
                        (record attempt { status = TaskRunStatus.success; error = none });
                })
                from output task
          | none ↦ record store {
            task_runs =
                TaskRuns.save store.task_runs
                  (record attempt { status = TaskRunStatus.success; error = none });
          }
        ])
        found

  -- A report of a success, for an attempt that is not over: the task is a success with the output as
  -- its result, where no id that is still to be made is its own; and the run gets the status that its
  -- tasks then give, those of the fan-out among them.
  pub handle_worker_status-success :
      (store : Store Value) (from : Origin) (output : Option Value) (attempt : TaskRun)
      (task : Task Value) (run : DagRun Value)
      → TaskRuns.get store.task_runs from.task_run_id ≡ some attempt
      → TaskRunStatus.is_terminal attempt.status ≡ false
      → Tasks.get store.tasks from.task_id ≡ some task
      → task.id ≡ from.task_id
      → DagRuns.get store.dag_runs from.dag_run_id ≡ some run
      → run.id ≡ from.dag_run_id
      → ((n : ℕ) → store.issued ≤ n → uuid n ≢ from.task_id)
      → (Tasks.get
            (handle_worker_status json uuid policy store (success from output)).tasks
            from.task_id
          ≡ some (record task { status = TaskStatus.success; result = output }))
        × (DagRuns.get
              (handle_worker_status json uuid policy store (success from output)).dag_runs
              from.dag_run_id
            ≡ some (record run {
              status =
                  derived_status json uuid
                    (handle_worker_status json uuid policy store (success from output))
                    from.dag_run_id;
            }))
  unfolding handle_attempt complete_task
  handle_worker_status-success store from output attempt task run here going there own_task stored
        own_run fresh =
      let d = from.dag_run_id in
      let closed : TaskRun = record attempt { status = TaskRunStatus.success; error = none } in
      let done : Task Value = record task { status = TaskStatus.success; result = output } in
      let s1 : Store Value = record store { task_runs = TaskRuns.save store.task_runs closed } in
      let s2 : Store Value = record s1 { tasks = Tasks.save store.tasks done } in
      let s3 : Store Value = fan_out json uuid s2 d task.tenant_id output in
      let e =
        handled_of_open json uuid policy store (success from output) attempt here going
        ∙ completes store from output attempt task there in
      let (same_task, same_runs) =
        fan_out-keeps json uuid s2 d task.tenant_id output from.task_id fresh in
      let (refreshed, kept) =
        refresh-status json uuid s3 d run (ap (λ m. DagRuns.get m d) same_runs ∙ stored) own_run in
      let tasks' = ap (λ (s : Store Value). s.tasks) e ∙ kept in
      (
        ap (λ m. Tasks.get m from.task_id) tasks'
            ∙ same_task
            ∙ ap (Tasks.get (Tasks.save store.tasks done)) (sym own_task)
            ∙ get-insert_self done.id done store.tasks,
        ap (λ (s : Store Value). DagRuns.get s.dag_runs d) e
            ∙ refreshed
            ∙ ap
                (λ tasks. some (record run {
                  status =
                      dag_status_from_tasks
                        (map (λ (t : Task Value). t.status) (Tasks.list_by_dag_run tasks d));
                }))
                (sym tasks'),
      )
