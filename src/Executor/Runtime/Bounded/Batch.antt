-- ===== src/Executor/Runtime/Bounded/Batch.antt =====
-- The tasks of a batch are apart.
use mathlib.Core.List.Memᴰ
use contexide.Prelude.{
  ℕ, suc, zero, ◌≡◌, refl, sym, ap, inl, inr, Bool, true, false, Option, none, some, List, [], ◌∷◌,
  map, nat_eq, ◌==◌, ==_iff, arith, Bool-cases, Memᴰ, filter, sort_by, truncate, take, leb,
}
use contexide.HashMap
use contexide.HashMap.{HashMap, values, get-insert}
use contexide.Storage.Buckets.{contains, is_distinct, sort_by-is_distinct}
use contexide.Storage.Workflows.{Task}
use contexide.Storage.Workflows.Mem.Tasks
use contexide.Storage.Workflows.Mem.Tasks.{is_pending}
use contexide.Executor.Store.Filed.{IsFiled}

module _ {Value : Type 0} where
  abbrev pub id_of : Task Value → ℕ
  id_of t = t.id

  contains_ids-filter :
      (p : Task Value → Bool) (k : ℕ) (ts : List (Task Value))
      → contains k (map id_of ts) ≡ false
      → contains k (map id_of (filter p ts)) ≡ false
  contains_ids-filter p k [] h = refl
  contains_ids-filter p k (t ∷ ts) h = ground (arith, contains_ids-filter p k ts)

  filter-is_distinct :
      (p : Task Value → Bool) (ts : List (Task Value))
      → is_distinct (map id_of ts) ≡ true
      → is_distinct (map id_of (filter p ts)) ≡ true
  filter-is_distinct p [] h = refl
  filter-is_distinct p (t ∷ ts) h =
      ground (arith, contains_ids-filter p t.id ts, filter-is_distinct p ts)

  contains_ids-take :
      (n k : ℕ) (ts : List (Task Value))
      → contains k (map id_of ts) ≡ false
      → contains k (map id_of (take n ts)) ≡ false
  contains_ids-take zero k ts h = refl
  contains_ids-take (suc n) k [] h = refl
  contains_ids-take (suc n) k (t ∷ ts) h = ground (arith, contains_ids-take n k ts)

  take-is_distinct :
      (n : ℕ) (ts : List (Task Value))
      → is_distinct (map id_of ts) ≡ true
      → is_distinct (map id_of (take n ts)) ≡ true
  take-is_distinct zero ts h = refl
  take-is_distinct (suc n) [] h = refl
  take-is_distinct (suc n) (t ∷ ts) h =
      ground (arith, contains_ids-take n t.id ts, take-is_distinct n ts)

  truncate-is_distinct :
      (limit : Option ℕ) (ts : List (Task Value))
      → is_distinct (map id_of ts) ≡ true
      → is_distinct (map id_of (truncate limit ts)) ≡ true
  truncate-is_distinct none ts h = h
  truncate-is_distinct (some n) ts h = take-is_distinct n ts h

  contains_ids-values :
      (k : ℕ) (m : HashMap ℕ (Task Value))
      → IsFiled m
      → HashMap.get k m ≡ none
      → contains k (map id_of (values m)) ≡ false
  unfolding HashMap.get
  contains_ids-values k [] filed absent = refl
  contains_ids-values k ((j, t) ∷ m) (own, once, filed) absent =
      ground (arith, ==_iff j k, ==_iff t.id k, contains_ids-values k m filed)

  values-is_distinct :
      (m : HashMap ℕ (Task Value)) → IsFiled m → is_distinct (map id_of (values m)) ≡ true
  values-is_distinct [] filed = refl
  values-is_distinct ((j, t) ∷ m) (own, once, filed) =
      ground (arith, contains_ids-values j m filed once, values-is_distinct m filed)

  pub list_pending-is_distinct :
      (m : HashMap ℕ (Task Value)) (limit : Option ℕ)
      → IsFiled m
      → is_distinct (map id_of (Tasks.list_pending m limit)) ≡ true
  unfolding Tasks.list_pending
  list_pending-is_distinct m limit filed =
      truncate-is_distinct limit
        (sort_by (λ a b. leb a.id b.id) (filter (λ t. is_pending t.status) (values m)))
        (sort_by-is_distinct id_of (λ a b. leb a.id b.id)
          (filter (λ t. is_pending t.status) (values m))
          (filter-is_distinct (λ t. is_pending t.status) (values m) (values-is_distinct m filed)))

  pub contains_ids_of_Memᴰ :
      (t : Task Value) (ts : List (Task Value)) → Memᴰ t ts → contains t.id (map id_of ts) ≡ true
  contains_ids_of_Memᴰ t [] h = absurd (Memᴰ.not-nil h)
  contains_ids_of_Memᴰ t (w ∷ ts) h = elim (Memᴰ.cases_cons h) [
    | inl here ↦ let e : w.id ≡ t.id = ap id_of (sym here) in ground (arith, ==_iff w.id t.id)
    | inr later ↦ ground (arith, contains_ids_of_Memᴰ t ts later)
  ]

module _ {Value : Type 0} where
  -- The ids of a batch are apart.
  pub apart_of :
      (i j : ℕ) (ts : List (Task Value))
      → is_distinct (i ∷ map id_of ts) ≡ true
      → contains j (map id_of ts) ≡ true
      → (i == j) ≡ false
  apart_of i j ts distinct within = elim (Bool-cases (i == j)) [
    | inr other ↦ other
    | inl here ↦ let e = ap (λ k. contains k (map id_of ts)) ((==_iff i j).0 here) in ground arith
  ]
