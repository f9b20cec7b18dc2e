-- ===== src/Executor/Domain/Status.antt =====
-- What the status that a run gets from its tasks means.
use mathlib.Core.List.Memᴰ
use contexide.Prelude.{
  ◌≡◌, ◌≢◌, ◌⊎◌, ◌↔◌, refl, sym, ap, ◌∙◌, inl, inr, Bool, true, List, [], ◌∷◌, any, all, Memᴰ,
  Bool-cases, arith,
}
use contexide.Workflow.State.DagRunStatus.{DagRunStatus}
use contexide.Workflow.State.TaskStatus.{TaskStatus}
use contexide.Executor.Domain.{is_failed, is_done, dag_status_from_tasks}

any_iff {ℓ} :
    {A : Type ℓ} (p : A → Bool) (xs : List A)
    → (any p xs ≡ true) ↔ ((x : A) × Memᴰ x xs × (p x ≡ true))
any_iff p [] = (λ h. absurd cc, λ (x, m, e). absurd (Memᴰ.not-nil m))
any_iff p (x ∷ xs) = (
  λ h. elim (Bool-cases (p x)) [
    | inl e ↦ (x, Memᴰ.head refl, e)
    | inr e ↦ let (y, m, f) = (any_iff p xs).0 (rw e at h) in (y, Memᴰ.tail m, f)
  ],
  λ (y, m, f). elim (Memᴰ.cases_cons m) [
    | inl here ↦ rw (sym here, f) refl
    | inr later ↦ let h = (any_iff p xs).1 (y, later, f) in ground arith
  ],
)

all_iff {ℓ} :
    {A : Type ℓ} (p : A → Bool) (xs : List A)
    → (all p xs ≡ true) ↔ ((x : A) → Memᴰ x xs → p x ≡ true)
all_iff p [] = (λ h x m. absurd (Memᴰ.not-nil m), λ f. refl)
all_iff p (x ∷ xs) = (
  λ h y m. elim (Memᴰ.cases_cons m) [
    | inl here ↦ ap p here ∙ ground arith
    | inr later ↦ (all_iff p xs).0 (ground arith) y later
  ],
  λ f.
      let a = f x (Memᴰ.head refl) in
      let b = (all_iff p xs).1 (λ y m. f y (Memᴰ.tail m)) in ground arith,
)

is_failed_iff : (s : TaskStatus) → (is_failed s ≡ true) ↔ (s ≡ TaskStatus.failed)
is_failed_iff s = ground arith

is_done_iff :
    (s : TaskStatus) → (is_done s ≡ true) ↔ ((s ≡ TaskStatus.success) ⊎ (s ≡ TaskStatus.skipped))
is_done_iff TaskStatus.success = (λ h. inl refl, λ h. refl)
is_done_iff TaskStatus.skipped = (λ h. inr refl, λ h. refl)
is_done_iff s = (λ h. absurd cc, λ h. absurd (ground arith))

-- A run is failed exactly where one of its tasks is, and success exactly where each of its tasks is
-- success or skipped, as when it has none; else it is running.
pub dag_status_from_tasks_iff :
    (statuses : List TaskStatus)
    → ((dag_status_from_tasks statuses ≡ DagRunStatus.failed) ↔ Memᴰ TaskStatus.failed statuses)
      × ((dag_status_from_tasks statuses ≡ DagRunStatus.success) ↔ (
          (s : TaskStatus) → Memᴰ s statuses → (s ≡ TaskStatus.success) ⊎ (s ≡ TaskStatus.skipped)))
      × ((dag_status_from_tasks statuses ≡ DagRunStatus.running) ↔ (
          (dag_status_from_tasks statuses ≢ DagRunStatus.failed)
          × (dag_status_from_tasks statuses ≢ DagRunStatus.success)))
unfolding dag_status_from_tasks
dag_status_from_tasks_iff statuses = (
  (
    λ h.
        let (s, m, e) = (any_iff is_failed statuses).0 (ground arith) in
        rw (sym ((is_failed_iff s).0 e)) m,
    λ m. let h = (any_iff is_failed statuses).1 (TaskStatus.failed, m, refl) in ground arith,
  ),
  (
    λ h s m. (is_done_iff s).0 ((all_iff is_done statuses).0 (ground arith) s m),
    λ f.
        let done = (all_iff is_done statuses).1 (λ s m. (is_done_iff s).1 (f s m)) in
        elim (Bool-cases (any is_failed statuses)) [
          | inl fails ↦
              let (s, m, e) = (any_iff is_failed statuses).0 fails in
              let d = (is_done_iff s).1 (f s m) in
              let i = (is_failed_iff s).0 e in absurd (ground arith)
          | inr none_fails ↦ ground arith
        ],
  ),
  (λ h. (λ e. ground arith, λ e. ground arith), λ (a, b). ground arith),
)
