-- ===== src/Executor/Scheduler/Ready/Batch.antt =====
-- What one call of `schedule_ready_tasks` dispatches, as a filter of the store that it starts with.
use mathlib.Core.List.{append_assoc, append-nil}
use contexide.Prelude.{
  ℕ, ◌+◌, ◌≡◌, refl, sym, ◌∙◌, inl, inr, true, false, Option, some, List, [], ◌∷◌, ◌++◌, nat_eq,
  leb, Bool-cases, filter, Memᴰ, Memᴰ-filter, Memᴰ-sort_by, Memᴰ-truncate,
}
use contexide.HashMap
use contexide.HashMap.{HashMap, get-insert, values}
use contexide.Workflow.State.TaskStatus.{TaskStatus}
use contexide.Storage.Workflows.{Task}
use contexide.Storage.Workflows.Mem.Tasks
use contexide.Storage.Workflows.Mem.Tasks.{is_pending}
use contexide.Executor.Domain.{ReadyTask, is_done}
use contexide.Executor.Store.{Store}
use contexide.Executor.Scheduler.Ready.{
  Pump, schedule_task, schedule_tasks, schedule_ready_tasks, ready_task,
}
use contexide.Executor.Scheduler.Ready.Ongoing.{IsOngoing, is_due, waits, goes}

module _ {Value : Type 0} where
  -- Each stored task is what its id gives.
  abbrev pub IsKeyed : HashMap ℕ (Task Value) → Type 0
  IsKeyed m = (t : Task Value) → Memᴰ t (values m) → HashMap.get t.id m ≡ some t

pending-open : (s : TaskStatus) → is_pending s ≡ true → is_done s ≡ false
pending-open TaskStatus.pending h = refl
pending-open TaskStatus.running h = refl
pending-open TaskStatus.ready h = refl
pending-open TaskStatus.success h = cc
pending-open TaskStatus.failed h = refl
pending-open TaskStatus.skipped h = cc

module _ {Value : Type 0} (uuid : ℕ → ℕ) where
  -- The messages for the tasks, with the ids from the `n`-th on.
  pub dispatched : ℕ → List (Task Value) → List (ReadyTask Value)
  dispatched n [] = []
  dispatched n (t ∷ ts) = ready_task uuid t (uuid n) ∷ dispatched (n + 1) ts

  nothing : (d : ℕ) (l : List (Task Value)) → ¬ (HashMap.get d [] ≡ some l)
  unfolding HashMap.get
  nothing d l h = cc

  pub pending_of :
      (max_batch : Option ℕ) (store : Store Value) (t : Task Value)
      → Memᴰ t (Tasks.list_pending store.tasks max_batch)
      → Memᴰ t (values store.tasks) × (is_pending t.status ≡ true)
  unfolding Tasks.list_pending
  pending_of max_batch store t h =
      Memᴰ-filter (λ t. is_pending t.status) (values store.tasks)
        (Memᴰ-sort_by (λ a b. leb a.id b.id) _ (Memᴰ-truncate max_batch _ h))

  module _ (m : HashMap ℕ (Task Value)) where
    schedule_tasks-filter :
        (p : Pump Value) (tasks : List (Task Value))
        → IsOngoing uuid m p tasks
        → (schedule_tasks uuid p tasks).ready
          ≡ p.ready ++ dispatched p.store.issued (filter (is_due m) tasks)
    unfolding schedule_tasks dispatched
    schedule_tasks-filter p [] going = sym (append-nil p.ready)
    schedule_tasks-filter p (task ∷ rest) going = elim (Bool-cases (is_due m task)) [
      | inl due ↦
          let (ready, made, going') = goes uuid m p task rest going due in
          schedule_tasks-filter (schedule_task uuid p task) rest going'
          ∙ rw (ready, made, due) (append_assoc p.ready _ _)
      | inr not_due ↦
          let (ready, made, going') = waits uuid m p task rest going not_due in
          schedule_tasks-filter (schedule_task uuid p task) rest going'
          ∙ rw (ready, made, not_due) refl
    ]

  -- Where tasks are stored under their own ids, a call of `schedule_ready_tasks` dispatches, in order,
  -- exactly those pending tasks of the batch that are ready in the store at its start: what the loop
  -- stores and caches meanwhile does not change the outcome. Attempts have the ids that are made from
  -- there on.
  pub schedule_ready_tasks-filter :
      (max_batch : Option ℕ) (store : Store Value)
      → IsKeyed store.tasks
      → (schedule_ready_tasks uuid max_batch store).0
        ≡ dispatched store.issued
            (filter (is_due store.tasks) (Tasks.list_pending store.tasks max_batch))
  unfolding schedule_ready_tasks
  schedule_ready_tasks-filter max_batch store keyed =
      schedule_tasks-filter store.tasks (record { store = store; tasks_by_run = []; ready = [] })
        (Tasks.list_pending store.tasks max_batch)
        (record {
          current = λ d idx. refl;
          cached = λ d idx l found. absurd (nothing d l found);
          stored = λ t h.
              let (member, p) = pending_of max_batch store t h in
              (t, keyed t member, (refl, refl, pending-open t.status p));
          snapshot = λ t h. keyed t (pending_of max_batch store t h).0;
        })
