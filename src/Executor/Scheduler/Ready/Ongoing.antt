-- ===== src/Executor/Scheduler/Ready/Ongoing.antt =====
-- What the loop of `schedule_ready_tasks` keeps: whatever it stores and caches, its tests of what is
-- done come out as in the store at its start.
use contexide.Prelude.{
  ℕ, ◌+◌, ◌≡◌, refl, sym, ap, ◌∙◌, inl, inr, Bool, true, false, some, List, [], ◌∷◌, ◌++◌, nat_eq,
  ◌==◌, ==_iff, arith, Bool-cases, if◌then◌else◌, Memᴰ, Option-cases,
}
use contexide.HashMap
use contexide.HashMap.{HashMap, get-insert, values}
use contexide.Storage.Workflows.{Task}
use contexide.Storage.Workflows.Mem.Tasks
use contexide.Storage.Workflows.Mem.Tasks.{is_pending}
use contexide.Executor.Store.{Store}
use contexide.Executor.Scheduler.Ready.{
  Pump, mark_dag_running, dispatch, siblings_of, is_ready, schedule_task, upstream_done, ready_task,
}
use contexide.Executor.Scheduler.Ready.Upstream.{
  running, IsLike, of_run, upstream-save, is_ready_congr,
}

module _ {Value : Type 0} where
  -- The test of the loop, on the tasks `m` at the start.
  abbrev pub is_due : HashMap ℕ (Task Value) → Task Value → Bool
  is_due m t = is_ready t (Tasks.list_by_dag_run m t.dag_run_id)

module _ {Value : Type 0} (uuid : ℕ → ℕ) where
  module _ (m : HashMap ℕ (Task Value)) where
    -- What the loop keeps, at the pump `p` with `rest` to come.
    pub record IsOngoing (p : Pump Value) (rest : List (Task Value)) : Type 0 where
      pub current :
          (d idx : ℕ)
          → upstream_done idx (of_run d (values p.store.tasks))
            ≡ upstream_done idx (of_run d (values m))
      pub cached :
          (d idx : ℕ) (l : List (Task Value))
          → HashMap.get d p.tasks_by_run ≡ some l
          → upstream_done idx l ≡ upstream_done idx (of_run d (values m))
      pub stored :
          (t : Task Value)
          → Memᴰ t rest
          → (w : Task Value) × (HashMap.get t.id p.store.tasks ≡ some w) × IsLike t w
      pub snapshot : (t : Task Value) → Memᴰ t rest → HashMap.get t.id m ≡ some t

    -- The siblings that the loop looks at say what those at the start say.
    siblings-upstream :
        (p : Pump Value) (task : Task Value) (rest : List (Task Value))
        → IsOngoing p rest
        → (idx : ℕ)
        → upstream_done idx (siblings_of uuid p task)
          ≡ upstream_done idx (of_run task.dag_run_id (values m))
    unfolding siblings_of Tasks.list_by_dag_run
    siblings-upstream p task rest going idx =
        elim (Option-cases (HashMap.get task.dag_run_id p.tasks_by_run)) [
          | inl absent ↦ rw (absent, siblings_of) (going.current task.dag_run_id idx)
          | inr ([], empty) ↦ rw (empty, siblings_of) (going.current task.dag_run_id idx)
          | inr (t ∷ ts, found) ↦
              rw (found, siblings_of) (going.cached task.dag_run_id idx (t ∷ ts) found)
        ]

    siblings-is_due :
        (p : Pump Value) (task : Task Value) (rest : List (Task Value))
        → IsOngoing p rest
        → is_ready task (siblings_of uuid p task) ≡ is_due m task
    unfolding Tasks.list_by_dag_run
    siblings-is_due p task rest going =
        is_ready_congr task (siblings_of uuid p task) (of_run task.dag_run_id (values m))
          (siblings-upstream p task rest going)

    -- The cache with the siblings of one more run.
    cached-insert :
        (p : Pump Value) (task : Task Value) (rest : List (Task Value))
        → IsOngoing p rest
        → (d idx : ℕ) (l : List (Task Value))
        → HashMap.get d (HashMap.insert task.dag_run_id (siblings_of uuid p task) p.tasks_by_run)
          ≡ some l
        → upstream_done idx l ≡ upstream_done idx (of_run d (values m))
    cached-insert p task rest going d idx l found =
        let e =
          sym (get-insert task.dag_run_id d (siblings_of uuid p task) p.tasks_by_run) ∙ found in
        elim (Bool-cases (task.dag_run_id == d)) [
          | inl here ↦
              let e' : some (siblings_of uuid p task) ≡ some l =
                ap
                  (λ (b : Bool).
                    if b then some (siblings_of uuid p task) else HashMap.get d p.tasks_by_run)
                  (sym here)
                ∙ e in
              let same : siblings_of uuid p task ≡ l = cc in
              ap (upstream_done idx) (sym same)
              ∙ siblings-upstream p task rest going idx
              ∙ ap (λ i. upstream_done idx (of_run i (values m)))
                  ((==_iff task.dag_run_id d).0 here)
          | inr other ↦ going.cached d idx l (
              ap
                (λ (b : Bool).
                  if b then some (siblings_of uuid p task) else HashMap.get d p.tasks_by_run)
                (sym other)
              ∙ e)
        ]

    pub waits :
        (p : Pump Value) (task : Task Value) (rest : List (Task Value))
        → IsOngoing p (task ∷ rest)
        → is_due m task ≡ false
        → ((schedule_task uuid p task).ready ≡ p.ready)
          × ((schedule_task uuid p task).store.issued ≡ p.store.issued)
          × IsOngoing (schedule_task uuid p task) rest
    unfolding schedule_task
    waits p task rest going not_due =
        let e : is_ready task (siblings_of uuid p task) ≡ false =
          siblings-is_due p task (task ∷ rest) going ∙ not_due in
        rw e (
          refl,
          refl,
          record {
            current = going.current;
            cached = cached-insert p task (task ∷ rest) going;
            stored = λ t h. going.stored t (Memᴰ.tail h);
            snapshot = λ t h. going.snapshot t (Memᴰ.tail h);
          },
        )

    tasks-dispatch :
        (store : Store Value) (task : Task Value)
        → ((dispatch uuid store task).tasks ≡ HashMap.insert task.id (running task) store.tasks)
          × ((dispatch uuid store task).issued ≡ store.issued + 1)
    unfolding dispatch mark_dag_running
    tasks-dispatch store task = ground arith

    stored-dispatch :
        (p : Pump Value) (task : Task Value) (rest : List (Task Value))
        → IsOngoing p (task ∷ rest)
        → (t : Task Value) → Memᴰ t rest
        → (w : Task Value) × (HashMap.get t.id (HashMap.insert task.id (running task) p.store.tasks)
            ≡ some w)
          × IsLike t w
    stored-dispatch p task rest going t member =
        let found = get-insert task.id t.id (running task) p.store.tasks in
        elim (Bool-cases (task.id == t.id)) [
          | inl here ↦
              let a = going.snapshot task (Memᴰ.head refl) in
              let b = going.snapshot t (Memᴰ.tail member) in
              let e : some task ≡ some t =
                sym a ∙ ap (λ i. HashMap.get i m) ((==_iff task.id t.id).0 here) ∙ b in
              let same : task ≡ t = cc in
              (
                running task,
                found
                    ∙ ap
                        (λ (b : Bool).
                          if b then some (running task) else HashMap.get t.id p.store.tasks)
                        here,
                (
                  ap (λ (t : Task Value). t.kind) same,
                  ap (λ (t : Task Value). t.dag_run_id) same,
                  refl,
                ),
              )
          | inr other ↦
              let (w, e, like) = going.stored t (Memᴰ.tail member) in
              (
                w,
                found
                    ∙ ap
                        (λ (b : Bool).
                          if b then some (running task) else HashMap.get t.id p.store.tasks)
                        other
                    ∙ e,
                like,
              )
        ]

    pub goes :
        (p : Pump Value) (task : Task Value) (rest : List (Task Value))
        → IsOngoing p (task ∷ rest)
        → is_due m task ≡ true
        → ((schedule_task uuid p task).ready
            ≡ p.ready ++ ready_task uuid task (uuid p.store.issued) ∷ [])
          × ((schedule_task uuid p task).store.issued ≡ p.store.issued + 1)
          × IsOngoing (schedule_task uuid p task) rest
    unfolding schedule_task
    goes p task rest going due =
        let e : is_ready task (siblings_of uuid p task) ≡ true =
          siblings-is_due p task (task ∷ rest) going ∙ due in
        let (saved, made) = tasks-dispatch p.store task in
        let (w, found, like) = going.stored task (Memᴰ.head refl) in
        rw e (
          refl,
          made,
          record {
            current = λ d idx.
                ap (λ tasks. upstream_done idx (of_run d (values tasks))) saved
                ∙ upstream-save idx d task w p.store.tasks found like
                ∙ going.current d idx;
            cached = cached-insert p task (task ∷ rest) going;
            stored = λ t h.
                let (w', found', like') = stored-dispatch p task rest going t h in
                (w', ap (HashMap.get t.id) saved ∙ found', like');
            snapshot = λ t h. going.snapshot t (Memᴰ.tail h);
          },
        )
