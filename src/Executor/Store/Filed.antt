-- ===== src/Executor/Store/Filed.antt =====
-- Tasks are filed under their own ids, once.
use mathlib.Core.List.Memᴰ
use contexide.Prelude.{
  ℕ, ◌≡◌, refl, sym, ap, ◌∙◌, inl, inr, true, false, none, some, List, [], ◌∷◌, nat_eq, ◌==◌,
  ==_iff, arith, Memᴰ, Bool-cases,
}
use contexide.HashMap
use contexide.HashMap.{HashMap, values}
use contexide.Storage.Workflows.{Task}
use contexide.Storage.Workflows.Mem.Tasks
use contexide.Executor.Store.{Store, save_all}

apart : (j k : ℕ) → (j == k) ≡ false → (k == j) ≡ false
apart j k h = ground (arith, ==_iff j k, ==_iff k j)

module _ {Value : Type 0} where
  abbrev pub IsFiled : HashMap ℕ (Task Value) → Type 0
  IsFiled [] = Unit
  IsFiled ((j, t) ∷ m) = (j ≡ t.id) × (HashMap.get j m ≡ none) × IsFiled m

  pub save-IsFiled :
      (m : HashMap ℕ (Task Value)) (task : Task Value) → IsFiled m → IsFiled (Tasks.save m task)
  unfolding HashMap.insert
  save-IsFiled [] task filed = (refl, unfold HashMap.get in refl, tt)
  save-IsFiled ((j, t) ∷ m) task (own, once, filed) = elim (Bool-cases (j == task.id)) [
    | inl here ↦
        rw here (refl, ap (λ i. HashMap.get i m) (sym ((==_iff j task.id).0 here)) ∙ once, filed)
    | inr other ↦ rw other (
      own,
      HashMap.get-insert task.id j task m ∙ rw (apart j task.id other) once,
      save-IsFiled m task filed,
    )
  ]

  -- So each stored task is what its id gives.
  pub get-IsFiled :
      (m : HashMap ℕ (Task Value))
      → IsFiled m
      → (t : Task Value) → Memᴰ t (values m)
      → HashMap.get t.id m ≡ some t
  unfolding HashMap.get
  get-IsFiled [] filed t member = absurd (Memᴰ.not-nil member)
  get-IsFiled ((j, w) ∷ m) (own, once, filed) t member = elim (Memᴰ.cases_cons member) [
    | inl here ↦
        let e : (j == t.id) ≡ true = (==_iff j t.id).1 (own ∙ ap (λ x. x.id) (sym here)) in
        rw e (ap some (sym here))
    | inr later ↦
        let found = get-IsFiled m filed t later in
        elim (Bool-cases (j == t.id)) [
          | inl same ↦
              let e : none ≡ some t =
                sym once ∙ ap (λ i. HashMap.get i m) ((==_iff j t.id).0 same) ∙ found in
              absurd cc
          | inr other ↦ rw other found
        ]
  ]

  pub save_all-IsFiled :
      (store : Store Value) (tasks : List (Task Value))
      → IsFiled store.tasks
      → IsFiled (save_all store tasks).tasks
  unfolding save_all
  save_all-IsFiled store [] filed = filed
  save_all-IsFiled store (task ∷ tasks) filed =
      save_all-IsFiled (record store { tasks = Tasks.save store.tasks task }) tasks
        (save-IsFiled store.tasks task filed)

  pub get-own :
      (m : HashMap ℕ (Task Value)) (k : ℕ) (t : Task Value)
      → IsFiled m
      → HashMap.get k m ≡ some t
      → t.id ≡ k
  unfolding HashMap.get
  get-own [] k t filed found = absurd cc
  get-own ((j, w) ∷ m) k t (own, once, filed) found =
      ground (arith, ==_iff j k, get-own m k t filed)
