-- ===== src/Executor/Scheduler/Ready/Attempts.antt =====
-- What scheduling does to the attempts in the store.
use contexide.Prelude.{
  ℕ, ◌+◌, ◌≤◌, ◌<◌, ◌≡◌, ◌⊎◌, refl, sym, ap, ◌∙◌, inl, inr, Option, some, List, [], ◌∷◌, nat_eq,
  ◌==◌, ==_iff, arith, Bool-cases, if◌then◌else◌,
}
use contexide.HashMap.{get-insert}
use contexide.Workflow.State.TaskRunStatus.{TaskRunStatus}
use contexide.Storage.Workflows.{Task, TaskRun}
use contexide.Storage.Workflows.Mem.Tasks
use contexide.Storage.Workflows.Mem.TaskRuns
use contexide.Executor.Store.{Store}
use contexide.Executor.Scheduler.Ready.{
  Pump, mark_dag_running, new_attempt, dispatch, siblings_of, is_ready, schedule_task,
  schedule_tasks, schedule_ready_tasks,
}

module _ {Value : Type 0} (uuid : ℕ → ℕ) where
  -- From one store to a later one, each attempt stays as it is or is a new one: stored under an id
  -- made in between, which it has, and running.
  unfoldable pub IsGrown : Store Value → Store Value → Type 0
  IsGrown old new =
      (old.issued ≤ new.issued)
      × ((k : ℕ)
          → (TaskRuns.get new.task_runs k ≡ TaskRuns.get old.task_runs k)
            ⊎ ((n : ℕ) × (run : TaskRun) × (old.issued ≤ n)
                × (n < new.issued)
                × (k ≡ uuid n)
                × (TaskRuns.get new.task_runs k ≡ some run)
                × (run.id ≡ k)
                × (run.status ≡ TaskRunStatus.running)))

  IsGrown-refl : (s : Store Value) → IsGrown s s
  unfolding IsGrown
  IsGrown-refl s = (omega arith, λ k. inl refl)

  IsGrown-trans : (a b c : Store Value) → IsGrown a b → IsGrown b c → IsGrown a c
  unfolding IsGrown
  IsGrown-trans a b c (ab, f) (bc, g) = (
    omega arith,
    λ k. elim (g k) [
      | inl same ↦ elim (f k) [
        | inl old ↦ inl (same ∙ old)
        | inr (n, run, lo, hi, at_k, found, own, runs) ↦
            inr (n, run, lo, omega arith, at_k, same ∙ found, own, runs)
      ]
      | inr (n, run, lo, hi, at_k, found, own, runs) ↦
          inr (n, run, omega arith, hi, at_k, found, own, runs)
    ],
  )

  pub runs-dispatch :
      (store : Store Value) (task : Task Value)
      → ((dispatch uuid store task).task_runs
          ≡ TaskRuns.save store.task_runs (new_attempt uuid store task))
        × ((dispatch uuid store task).issued ≡ store.issued + 1)
  unfolding dispatch mark_dag_running
  runs-dispatch store task = ground arith

  pub dispatch-IsGrown :
      (store : Store Value) (task : Task Value) → IsGrown store (dispatch uuid store task)
  unfolding IsGrown
  dispatch-IsGrown store task =
      let run : TaskRun = new_attempt uuid store task in
      let (runs, made) = runs-dispatch store task in
      let found = λ (k : ℕ).
        ap (λ m. TaskRuns.get m k) runs ∙ get-insert (uuid store.issued) k run store.task_runs in
      (
        omega (arith, made),
        λ k. elim (Bool-cases (uuid store.issued == k)) [
          | inl here ↦ inr (
            store.issued,
            run,
            omega arith,
            omega (arith, made),
            sym ((==_iff (uuid store.issued) k).0 here),
            found k ∙ ap (λ b. if b then some run else TaskRuns.get store.task_runs k) here,
            (==_iff (uuid store.issued) k).0 here,
            refl,
          )
          | inr other ↦
              inl (found k ∙ ap (λ b. if b then some run else TaskRuns.get store.task_runs k) other)
        ],
      )

  schedule_task-IsGrown :
      (p : Pump Value) (task : Task Value) → IsGrown p.store (schedule_task uuid p task).store
  unfolding schedule_task
  schedule_task-IsGrown p task = elim (Bool-cases (is_ready task (siblings_of uuid p task))) [
    | inl ready ↦ rw ready (dispatch-IsGrown p.store task)
    | inr waits ↦ rw waits (IsGrown-refl p.store)
  ]

  schedule_tasks-IsGrown :
      (p : Pump Value) (tasks : List (Task Value))
      → IsGrown p.store (schedule_tasks uuid p tasks).store
  unfolding schedule_tasks
  schedule_tasks-IsGrown p [] = IsGrown-refl p.store
  schedule_tasks-IsGrown p (task ∷ tasks) =
      IsGrown-trans p.store (schedule_task uuid p task).store _ (schedule_task-IsGrown p task)
        (schedule_tasks-IsGrown (schedule_task uuid p task) tasks)

  -- Scheduling leaves every attempt as it is, but for those that it makes: each has an id of its own
  -- making and is running.
  pub schedule_ready_tasks-IsGrown :
      (max_batch : Option ℕ) (store : Store Value)
      → IsGrown store (schedule_ready_tasks uuid max_batch store).1
  unfolding schedule_ready_tasks
  schedule_ready_tasks-IsGrown max_batch store =
      schedule_tasks-IsGrown (record { store = store; tasks_by_run = []; ready = [] })
        (Tasks.list_pending store.tasks max_batch)
