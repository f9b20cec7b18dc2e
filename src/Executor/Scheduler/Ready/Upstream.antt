-- ===== src/Executor/Scheduler/Ready/Upstream.antt =====
-- What `is_ready` reads of the siblings, and that it does not change while tasks are dispatched.
use mathlib.Core.List.Memᴰ
use contexide.Prelude.{
  ℕ, ◌<◌, ◌≡◌, ◌⊎◌, refl, sym, ap, ◌∙◌, inl, inr, Bool, true, false, not, some, List, [], ◌∷◌,
  nat_eq, ◌==◌, arith, Bool-cases, if◌then◌else◌, filter, Memᴰ, ltb, ◌||◌, eqb, ◌<◌, ◌↔◌,
}
use contexide.HashMap
use contexide.HashMap.{HashMap, get-insert, values}
use contexide.Workflow.State.TaskStatus.{TaskStatus}
use contexide.Storage.Workflows.{Task}
use contexide.Executor.Domain.{is_done}
use contexide.Executor.Store.{Store}
use contexide.Executor.Scheduler.Ready.{
  mark_dag_running, is_ready, upstream_done, ordering_for_kind, usize_max, is_waiting,
}

is_waiting_iff :
    (s : TaskStatus) → (is_waiting s ≡ true) ↔ ((s ≡ TaskStatus.pending) ⊎ (s ≡ TaskStatus.ready))
is_waiting_iff TaskStatus.pending = (λ h. inl refl, λ h. refl)
is_waiting_iff TaskStatus.ready = (λ h. inr refl, λ h. refl)
is_waiting_iff s = (λ h. absurd cc, λ h. absurd (ground arith))

module _ {Value : Type 0} where
  abbrev pub running : Task Value → Task Value
  running task = record task { status = TaskStatus.running }

  -- The stored task that a snapshot stands for: of the same run and kind, and not done.
  abbrev pub IsLike : Task Value → Task Value → Type 0
  IsLike t w = (w.kind ≡ t.kind) × (w.dag_run_id ≡ t.dag_run_id) × (is_done w.status ≡ false)

  abbrev pub of_run : ℕ → List (Task Value) → List (Task Value)
  of_run d tasks = filter (λ t. t.dag_run_id == d) tasks

  upstream-head :
      (idx d : ℕ) (a b : Task Value) (xs : List (Task Value))
      → a.kind ≡ b.kind
      → a.dag_run_id ≡ b.dag_run_id
      → is_done a.status ≡ false
      → is_done b.status ≡ false
      → upstream_done idx (of_run d (a ∷ xs)) ≡ upstream_done idx (of_run d (b ∷ xs))
  unfolding upstream_done
  upstream-head idx d a b xs kind run a_open b_open =
      let late : ltb (ordering_for_kind a.kind) idx ≡ ltb (ordering_for_kind b.kind) idx =
        ap (λ k. ltb (ordering_for_kind k) idx) kind in
      let same : (a.dag_run_id == d) ≡ (b.dag_run_id == d) = ap (λ i. i == d) run in ground arith

  upstream-tail :
      (idx d : ℕ) (a : Task Value) (xs ys : List (Task Value))
      → upstream_done idx (of_run d xs) ≡ upstream_done idx (of_run d ys)
      → upstream_done idx (of_run d (a ∷ xs)) ≡ upstream_done idx (of_run d (a ∷ ys))
  unfolding upstream_done
  upstream-tail idx d a xs ys same = ground arith

  -- To dispatch a task that is not done does not change what is done.
  pub upstream-save :
      (idx d : ℕ) (task w : Task Value) (m : HashMap ℕ (Task Value))
      → HashMap.get task.id m ≡ some w
      → IsLike task w
      → upstream_done idx (of_run d (values (HashMap.insert task.id (running task) m)))
        ≡ upstream_done idx (of_run d (values m))
  unfolding HashMap.get HashMap.insert
  upstream-save idx d task w [] found like = absurd cc
  upstream-save idx d task w ((j, v) ∷ m) found (kind, run, done) =
      elim (Bool-cases (j == task.id)) [
        | inl here ↦
            let e : some v ≡ some w = ground arith in
            let e' : v ≡ w = cc in
            rw here (
              upstream-head idx d (running task) v (values m)
                (sym kind ∙ ap (λ (t : Task Value). t.kind) (sym e'))
                (sym run ∙ ap (λ (t : Task Value). t.dag_run_id) (sym e')) refl
                (ap (λ (t : Task Value). is_done t.status) e' ∙ done))
        | inr other ↦ rw other (
            upstream-tail idx d v _ _
              (upstream-save idx d task w m (ground arith) (kind, run, done)))
      ]

  -- `is_ready` reads of the siblings only whether what comes before is done.
  pub is_ready_congr :
      (task : Task Value) (xs ys : List (Task Value))
      → ((idx : ℕ) → upstream_done idx xs ≡ upstream_done idx ys)
      → is_ready task xs ≡ is_ready task ys
  unfolding is_ready
  is_ready_congr task xs ys same =
      ap
        (λ (b : Bool).
          if not (is_waiting task.status)
          then false
          else (let idx = ordering_for_kind task.kind in
              if eqb idx 0 || eqb idx usize_max then true else b))
        (same (ordering_for_kind task.kind))

  pub tasks-mark_dag_running :
      (store : Store Value) (d : ℕ) → (mark_dag_running store d).tasks ≡ store.tasks
  unfolding mark_dag_running
  tasks-mark_dag_running store d = ground arith

  upstream_done_iff :
      (idx : ℕ) (siblings : List (Task Value))
      → (upstream_done idx siblings ≡ true) ↔ (
          (sib : Task Value)
          → Memᴰ sib siblings
          → ordering_for_kind sib.kind < idx
          → is_done sib.status ≡ true)
  unfolding upstream_done
  upstream_done_iff idx [] = (λ h sib m. absurd (Memᴰ.not-nil m), λ h. refl)
  upstream_done_iff idx (x ∷ siblings) = (
    λ h sib m less. elim (Memᴰ.cases_cons m) [
      | inl here ↦
          let l : ordering_for_kind x.kind < idx = rw here at less in
          ap (λ (t : Task Value). is_done t.status) here ∙ ground arith
      | inr later ↦ (upstream_done_iff idx siblings).0 (ground arith) sib later less
    ],
    λ h.
        let rest = (upstream_done_iff idx siblings).1 (λ sib m. h sib (Memᴰ.tail m)) in
        elim (Bool-cases (ltb (ordering_for_kind x.kind) idx)) [
          | inl early ↦ let d = h x (Memᴰ.head refl) (ground arith) in ground arith
          | inr late ↦ ground arith
        ],
  )

  -- A task is ready exactly if it is pending or ready and either its kind is none of the pipeline's
  -- five, or every sibling of an earlier kind is a success or skipped.
  pub is_ready_iff :
      (task : Task Value) (siblings : List (Task Value))
      → (is_ready task siblings ≡ true) ↔ (
          ((task.status ≡ TaskStatus.pending) ⊎ (task.status ≡ TaskStatus.ready))
          × ((ordering_for_kind task.kind ≡ usize_max)
              ⊎ ((sib : Task Value)
                  → Memᴰ sib siblings
                  → ordering_for_kind sib.kind < ordering_for_kind task.kind
                  → is_done sib.status ≡ true)))
  unfolding is_ready
  is_ready_iff task siblings =
      let idx = ordering_for_kind task.kind in
      (
        λ h. (
          (is_waiting_iff task.status).0 (ground arith),
          elim (Bool-cases (eqb idx usize_max)) [
            | inl unknown ↦ inl (ground arith)
            | inr known ↦
                inr (λ sib m less. (upstream_done_iff idx siblings).0 (ground arith) sib m less)
          ],
        ),
        λ (waiting, rest).
            let w = (is_waiting_iff task.status).1 waiting in
            elim rest [
              | inl unknown ↦ ground arith
              | inr done ↦ let u = (upstream_done_iff idx siblings).1 done in ground arith
            ],
      )
