-- ===== src/Executor/Scheduler/Results/Effects.antt =====
-- What a worker's message does to its task and to its run.
use contexide.Prelude.{
  ℕ, ◌%◌, ◌^◌, String, ◌≡◌, refl, sym, ap, ◌∙◌, inl, inr, true, false, Option, some, List, [], ◌∷◌,
  nat_eq, ◌==◌, arith, ltb, Bool-cases, if◌then◌else◌, length, map, filter, length-sort_by,
}
use contexide.HashMap.{get, insert, values, get-insert_self}
use contexide.Workflow.State.DagRunStatus.{DagRunStatus}
use contexide.Workflow.State.TaskStatus.{TaskStatus}
use contexide.Workflow.State.TaskRunStatus
use contexide.Storage.Workflows.{Task, TaskRun, DagRun}
use contexide.Storage.Workflows.Mem.DagRuns
use contexide.Storage.Workflows.Mem.Tasks
use contexide.Storage.Workflows.Mem.TaskRuns
use contexide.Executor.Domain.{Origin, failed, RetryPolicy, dag_status_from_tasks}
use contexide.Executor.Json.{Json}
use contexide.Executor.Store.{Store}
use contexide.Executor.Scheduler.Results.{
  refresh_dag_status, derived_status, same_status, retried, retry_task, handle_failure,
  handle_attempt, handle_worker_status, error_value,
}
use contexide.Executor.Scheduler.Results.Delivery.{handled_of_open}

same_status_sound : (a b : DagRunStatus) → same_status a b ≡ true → a ≡ b
unfolding same_status
same_status_sound a b h = ground arith

module _ (json : Json) (uuid : ℕ → ℕ) where
  open json use {Value}

  -- A run that is stored has, after the refresh, the status that its tasks give.
  pub refresh-status :
      (store : Store Value) (d : ℕ) (run : DagRun Value)
      → DagRuns.get store.dag_runs d ≡ some run
      → run.id ≡ d
      → (DagRuns.get (refresh_dag_status json uuid store d).dag_runs d
          ≡ some (record run { status = derived_status json uuid store d }))
        × ((refresh_dag_status json uuid store d).tasks ≡ store.tasks)
  unfolding refresh_dag_status
  refresh-status store d run found own =
      elim (Bool-cases (same_status (derived_status json uuid store d) run.status)) [
        | inl same ↦
            let e : refresh_dag_status json uuid store d ≡ store = ground arith in
            let s = same_status_sound (derived_status json uuid store d) run.status same in
            (
              ap (λ (s : Store Value). DagRuns.get s.dag_runs d) e
                  ∙ found
                  ∙ ap (λ (s : DagRunStatus). some (record run { status = s })) (sym s),
              ap (λ (s : Store Value). s.tasks) e,
            )
        | inr other ↦
            let final = record run { status = derived_status json uuid store d } in
            let e : refresh_dag_status json uuid store d
                ≡ record store { dag_runs = DagRuns.save store.dag_runs final } =
              ground arith in
            (
              ap (λ (s : Store Value). DagRuns.get s.dag_runs d) e
                  ∙ ap (λ i. DagRuns.get (DagRuns.save store.dag_runs final) i) (sym own)
                  ∙ get-insert_self run.id final store.dag_runs,
              ap (λ (s : Store Value). s.tasks) e,
            )
      ]

-- The attempts of a task among the entries.
abbrev of_task : ℕ → TaskRuns.MemTaskRunRepo → List TaskRun
of_task t m = filter (λ tr. tr.task_id == t) (values m)

length-of_task :
    (run closed : TaskRun) (t : ℕ) (m : TaskRuns.MemTaskRunRepo)
    → TaskRuns.get m closed.id ≡ some run
    → run.task_id ≡ closed.task_id
    → length (of_task t (TaskRuns.save m closed)) ≡ length (of_task t m)
unfolding get insert
length-of_task run closed t [] found same = absurd cc
length-of_task run closed t ((j, v) ∷ m) found same = elim (Bool-cases (j == closed.id)) [
  | inl here ↦
      let e : some v ≡ some run = ground arith in
      let e' : v ≡ run = cc in
      let f : (v.task_id == t) ≡ (closed.task_id == t) =
        ap (λ (r : TaskRun). r.task_id == t) e' ∙ ap (λ i. i == t) same in
      ground arith
  | inr other ↦ let rest = length-of_task run closed t m (ground arith) same in ground arith
]

-- Closing an attempt does not change how many attempts its task has.
attempts-save :
    (run closed : TaskRun) (t : ℕ) (m : TaskRuns.MemTaskRunRepo)
    → TaskRuns.get m closed.id ≡ some run
    → run.task_id ≡ closed.task_id
    → length (TaskRuns.list_by_task (TaskRuns.save m closed) t) ≡ length (TaskRuns.list_by_task m t)
unfolding TaskRuns.list_by_task
attempts-save run closed t m found same =
    length-sort_by _ _ ∙ length-of_task run closed t m found same ∙ sym (length-sort_by _ _)

module _ (json : Json) (uuid : ℕ → ℕ) (policy : RetryPolicy) where
  open json use {Value}

  -- The task after a failure, given how many attempts it has.
  abbrev pub after_failure : ℕ → String → Option String → Task Value → Task Value
  after_failure attempts error error_kind task =
      if ltb attempts policy.max_attempts
      then record task { status = TaskStatus.pending }
      else record task {
        status = TaskStatus.failed;
        result = some (error_value json uuid error error_kind);
      }

  retry_task-saves :
      (store : Store Value) (from : Origin) (error : String) (error_kind : Option String)
      (task : Task Value)
      → Tasks.get store.tasks from.task_id ≡ some task
      → retry_task json uuid policy store from error error_kind ≡ record store {
        tasks = Tasks.save store.tasks (
            after_failure
              (length (TaskRuns.list_by_task store.task_runs from.task_id) % 2 ^ 32)
              error
              error_kind
              task);
      }
  unfolding retry_task retried
  retry_task-saves store from error error_kind task found = ground arith

  after_failure-id :
      (attempts : ℕ) (error : String) (error_kind : Option String) (task : Task Value)
      → (after_failure attempts error error_kind task).id ≡ task.id
  after_failure-id attempts error error_kind task = ground arith

  -- A report of a failure, for an attempt that is not over: the task is pending again where it has
  -- fewer attempts than `max_attempts`, and failed with the error as its result where not; and the run
  -- gets the status that its tasks then give.
  pub handle_worker_status-failed :
      (store : Store Value) (from : Origin) (error : String) (error_kind : Option String)
      (attempt : TaskRun) (task : Task Value) (run : DagRun Value)
      → TaskRuns.get store.task_runs from.task_run_id ≡ some attempt
      → attempt.id ≡ from.task_run_id
      → TaskRunStatus.is_terminal attempt.status ≡ false
      → Tasks.get store.tasks from.task_id ≡ some task
      → task.id ≡ from.task_id
      → DagRuns.get store.dag_runs from.dag_run_id ≡ some run
      → run.id ≡ from.dag_run_id
      → (Tasks.get
            (handle_worker_status json uuid policy store (failed from error error_kind)).tasks
            from.task_id
          ≡ some (
              after_failure
                (length (TaskRuns.list_by_task store.task_runs from.task_id) % 2 ^ 32)
                error
                error_kind
                task))
        × (DagRuns.get
              (handle_worker_status json uuid policy store (failed from error error_kind)).dag_runs
              from.dag_run_id
            ≡ some (record run {
              status =
                  derived_status json uuid
                    (handle_worker_status json uuid policy store (failed from error error_kind))
                    from.dag_run_id;
            }))
  unfolding handle_attempt handle_failure
  handle_worker_status-failed store from error error_kind attempt task run here own going there
        own_task stored own_run =
      let d = from.dag_run_id in
      let closed : TaskRun = record attempt { status = TaskRunStatus.failed; error = some error } in
      let s1 : Store Value = record store { task_runs = TaskRuns.save store.task_runs closed } in
      let s2 : Store Value = retry_task json uuid policy s1 from error error_kind in
      let e =
        handled_of_open json uuid policy store (failed from error error_kind) attempt here going in
      let saves = retry_task-saves s1 from error error_kind task there in
      let count =
        attempts-save attempt closed from.task_id store.task_runs
          (ap (TaskRuns.get store.task_runs) own ∙ here) refl in
      let next : Task Value =
        after_failure (length (TaskRuns.list_by_task store.task_runs from.task_id) % 2 ^ 32) error
          error_kind task in
      let tasks2 : s2.tasks ≡ Tasks.save store.tasks next =
        ap (λ (s : Store Value). s.tasks) saves
        ∙ ap (λ n. Tasks.save store.tasks (after_failure (n % 2 ^ 32) error error_kind task))
            count in
      let (refreshed, kept) =
        refresh-status json uuid s2 d run
          (ap (λ (s : Store Value). DagRuns.get s.dag_runs d) saves ∙ stored) own_run in
      let tasks' = ap (λ (s : Store Value). s.tasks) e ∙ kept in
      (
        ap (λ m. Tasks.get m from.task_id) (tasks' ∙ tasks2)
            ∙ ap (Tasks.get (Tasks.save store.tasks next))
                (sym own_task ∙ sym (after_failure-id _ error error_kind task))
            ∙ get-insert_self next.id next store.tasks,
        ap (λ (s : Store Value). DagRuns.get s.dag_runs d) e
            ∙ refreshed
            ∙ ap
                (λ tasks. some (record run {
                  status =
                      dag_status_from_tasks
                        (map (λ (t : Task Value). t.status) (Tasks.list_by_dag_run tasks d));
                }))
                (sym tasks'),
      )
