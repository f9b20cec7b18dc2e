-- ===== src/Workflow/Dag/Positions.antt =====
-- Where a place stands in the order, and that sources of edges stand before targets.
use contexide.Prelude.{
  ℕ, zero, suc, ◌+◌, ◌≤◌, ◌<◌, ◌≡◌, inl, inr, some, List, [], ◌∷◌, ◌++◌, arith, eqb, if◌then◌else◌,
  length, get_elem?, count, count-append, Bool-cases,
}
use mathlib.Core.List.{append_assoc}
use contexide.Workflow.Dag.Rounds.{weight}
use contexide.Workflow.Dag.Finish.{Follows}

-- Where a place first stands in a list.
abbrev pub position : ℕ → List ℕ → ℕ
position a [] = 0
position a (x ∷ xs) = let rest = position a xs in if eqb x a then 0 else suc rest

position-append_left : (a : ℕ) (xs ys : List ℕ) → 0 < count a xs → position a (xs ++ ys) < length xs
position-append_left a [] ys h = elim h [ ]
position-append_left a (x ∷ xs) ys h = ground (arith, position-append_left a xs ys)

position-append_right :
    (a : ℕ) (xs ys : List ℕ) → count a xs ≡ 0 → position a (xs ++ ys) ≡ length xs + position a ys
position-append_right a [] ys h = omega arith
position-append_right a (x ∷ xs) ys h = ground (arith, position-append_right a xs ys)

pub count-pos_of_get_elem? :
    (xs : List ℕ) (i : ℕ) (a : ℕ) → get_elem? xs i ≡ some a → 0 < count a xs
count-pos_of_get_elem? [] i a h = cc
count-pos_of_get_elem? (x ∷ xs) zero a h = ground arith
count-pos_of_get_elem? (x ∷ xs) (suc i) a h = ground (arith, count-pos_of_get_elem? xs i a)

-- In a list without repetitions, the only place of an item is the first.
pub position_of_get_elem? :
    (xs : List ℕ) (i : ℕ) (a : ℕ) → count a xs ≤ 1 → get_elem? xs i ≡ some a → position a xs ≡ i
position_of_get_elem? [] i a once h = cc
position_of_get_elem? (x ∷ xs) zero a once h = ground arith
position_of_get_elem? (x ∷ xs) (suc i) a once h =
    ground (arith, position_of_get_elem? xs i a, count-pos_of_get_elem? xs i a)

pub get_elem?-position :
    (xs : List ℕ) (a : ℕ) → 0 < count a xs → get_elem? xs (position a xs) ≡ some a
get_elem?-position [] a h = elim h [ ]
get_elem?-position (x ∷ xs) a h = ground (arith, get_elem?-position xs a)

pub Follows-position :
    (n : ℕ) (adj : List (List ℕ)) (seen us : List ℕ) (u v : ℕ)
    → Follows n adj seen us
    → u < n
    → 0 < weight n adj v u
    → count v seen ≡ 0
    → 0 < count v us
    → position u (seen ++ us) < position v (seen ++ us)
Follows-position n adj seen [] u v h l w new there = elim there [ ]
Follows-position n adj seen (x ∷ us) u v h l w new there = elim (Bool-cases (eqb x v)) [
  | inl here ↦
      let e : x ≡ v = ground arith in
      omega (
        arith,
        position-append_left u seen (x ∷ us) (h.0 u l (rw e w)),
        position-append_right v seen (x ∷ us) new,
      )
  | inr later ↦ rw append_assoc at (
      Follows-position n adj (seen ++ x ∷ []) us u v h.1 l w
        (ground (arith, count-append v seen (x ∷ []))) (ground arith))
]
