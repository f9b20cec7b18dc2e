-- ===== src/Executor/Runtime/Bounded/Polled.antt =====
-- Polls.
use contexide.Prelude.{
  ℕ, ◌+◌, ◌<◌, ◌≡◌, refl, ap, ◌∙◌, inl, inr, true, false, Option, some, List, [], ◌∷◌, map, nat_eq,
  ◌==◌, ==_iff, arith, Bool-cases, Memᴰ,
}
use contexide.HashMap.{get-insert}
use contexide.Workflow.State.TaskStatus.{TaskStatus}
use contexide.Storage.Buckets.{is_distinct}
use contexide.Storage.Workflows.{Task}
use contexide.Storage.Workflows.Mem.Tasks
use contexide.Storage.Workflows.Mem.Tasks.{is_pending}
use contexide.Executor.Scheduler.Ready.{
  Pump, new_attempt, dispatch, siblings_of, is_ready, is_waiting, schedule_task, schedule_tasks,
  schedule_ready_tasks,
}
use contexide.Executor.Scheduler.Ready.Attempts.{dispatch-IsGrown, runs-dispatch}
use contexide.Executor.Scheduler.Ready.Batch.{pending_of}
use contexide.Executor.Scheduler.Ready.Filing.{tasks_of-dispatch}
use contexide.Executor.Scheduler.Ready.Upstream.{running}
use contexide.Executor.Store.{Store}
use contexide.Executor.Store.Filed.{get-own, get-IsFiled, save-IsFiled}
use contexide.Executor.Store.Tally.{tally, tally-insert_new, one_if}
use contexide.Executor.Runtime.Final.{IsFresh, grown-IsOwned}
use contexide.Executor.Runtime.Bounded.{IsBounded, IsOld, IsOld-mono, AllAllowed}
use contexide.Executor.Runtime.Bounded.Batch.{
  id_of, list_pending-is_distinct, contains_ids_of_Memᴰ, apart_of,
}

pending-waits : (s : TaskStatus) → is_pending s ≡ true → is_waiting s ≡ true
pending-waits TaskStatus.pending h = refl
pending-waits s h = ground arith

module _ {Value : Type 0} (uuid : ℕ → ℕ) (fresh : IsFresh uuid) (limit : ℕ) where
  -- A task that may be dispatched.
  abbrev HasRoom : Store Value → Task Value → Type 0
  HasRoom store t = (tally t.id store.task_runs < limit) × IsOld uuid store.issued t.id

  module _ (store : Store Value) (task : Task Value) (bounded : IsBounded uuid limit store) where
    tally-dispatch :
        (t : ℕ)
        → tally t (dispatch uuid store task).task_runs
          ≡ tally t store.task_runs + one_if (task.id == t)
    tally-dispatch t =
        ap (tally t) (runs-dispatch uuid store task).0
        ∙ tally-insert_new (uuid store.issued) t (new_attempt uuid store task) store.task_runs
            (bounded.owned.1 store.issued (omega arith))

    allowed-dispatch :
        HasRoom store task
        → AllAllowed uuid limit
            (store.issued + 1)
            (dispatch uuid store task).task_runs
            (Tasks.save store.tasks (running task))
    allowed-dispatch (room, old) k t found = elim (Bool-cases (task.id == k)) [
      | inl here ↦
          let e : running task ≡ t =
            ground (arith, get-insert task.id k (running task) store.tasks) in
          rw (← e) (
            λ h. absurd cc,
            IsOld-mono uuid store.issued (store.issued + 1) task.id (omega arith) old,
          )
      | inr other ↦
          let there : Tasks.get store.tasks k ≡ some t =
            ground (arith, get-insert task.id k (running task) store.tasks) in
          let own = get-own store.tasks k t bounded.filed there in
          let apart : (task.id == t.id) ≡ false = ap (λ i. task.id == i) own ∙ other in
          let (waits, old_t) = bounded.allowed k t there in
          (
            λ w. let lt = waits w in ground (arith, tally-dispatch t.id),
            IsOld-mono uuid store.issued (store.issued + 1) t.id (omega arith) old_t,
          )
    ]

    dispatch-IsBounded : HasRoom store task → IsBounded uuid limit (dispatch uuid store task)
    dispatch-IsBounded (room, old) =
        let made = (runs-dispatch uuid store task).1 in
        let saved = tasks_of-dispatch uuid store task in
        record {
          owned = grown-IsOwned uuid fresh store _ (dispatch-IsGrown uuid store task) bounded.owned;
          filed = rw saved (save-IsFiled store.tasks (running task) bounded.filed);
          within =
              λ t. let le = bounded.within t in ground (arith, tally-dispatch t, ==_iff task.id t);
          unused = λ n h.
              let zero_before = bounded.unused n (omega (arith, made)) in
              let no = old n (omega (arith, made)) in
              ground (arith, tally-dispatch (uuid n), ==_iff task.id (uuid n));
          allowed = rw (saved, made) (allowed-dispatch (room, old));
        }

    -- The other tasks of the batch keep their room.
    HasRoom-dispatch :
        (t : Task Value)
        → (task.id == t.id) ≡ false
        → HasRoom store t
        → HasRoom (dispatch uuid store task) t
    HasRoom-dispatch t apart (room, old) =
        let made = (runs-dispatch uuid store task).1 in
        (ground (arith, tally-dispatch t.id), λ n h. old n (omega (arith, made)))

  schedule_tasks-IsBounded :
      (p : Pump Value) (ts : List (Task Value))
      → IsBounded uuid limit p.store
      → is_distinct (map id_of ts) ≡ true
      → ((t : Task Value) → Memᴰ t ts → HasRoom p.store t)
      → IsBounded uuid limit (schedule_tasks uuid p ts).store
  unfolding schedule_tasks schedule_task
  schedule_tasks-IsBounded p [] bounded distinct rooms = bounded
  schedule_tasks-IsBounded p (t ∷ ts) bounded distinct rooms =
      elim (Bool-cases (is_ready t (siblings_of uuid p t))) [
        | inr waits ↦
            schedule_tasks-IsBounded (schedule_task uuid p t) ts (rw waits bounded) (ground arith)
              (λ w h. rw waits (rooms w (Memᴰ.tail h)))
        | inl ready ↦
            let here = rooms t (Memᴰ.head refl) in
            schedule_tasks-IsBounded (schedule_task uuid p t) ts
              (rw ready (dispatch-IsBounded p.store t bounded here)) (ground arith)
              (λ w h.
                let within = contains_ids_of_Memᴰ w ts h in
                let apart : (t.id == w.id) ≡ false = apart_of t.id w.id ts distinct within in
                rw ready (HasRoom-dispatch p.store t bounded w apart (rooms w (Memᴰ.tail h))))
      ]

  pub schedule_ready_tasks-IsBounded :
      (max_batch : Option ℕ) (store : Store Value)
      → IsBounded uuid limit store
      → IsBounded uuid limit (schedule_ready_tasks uuid max_batch store).1
  unfolding schedule_ready_tasks
  schedule_ready_tasks-IsBounded max_batch store bounded =
      schedule_tasks-IsBounded _ (Tasks.list_pending store.tasks max_batch) bounded
        (list_pending-is_distinct store.tasks max_batch bounded.filed)
        (λ t h.
          let (member, pending) = pending_of uuid max_batch store t h in
          let (waits, old) =
            bounded.allowed t.id t (get-IsFiled store.tasks bounded.filed t member) in
          (waits (pending-waits t.status pending), old))
