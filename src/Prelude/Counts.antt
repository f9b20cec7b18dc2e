-- ===== src/Prelude/Counts.antt =====
-- Occurrences in lists of numbers, and sums over such lists and over `0 .. n`.
use Prim.Native.Nat.{ℕ, zero, suc, ◌+◌, ◌≤◌, ◌<◌}
use mathlib.Core.Path.{◌≡◌, refl, ap}
use mathlib.Core.List.{List, [], ◌∷◌, ◌++◌}
use native.Mathlib.Omega.{arith}
use contexide.Prelude.Tests.{ltb, eqb, if◌then◌else◌}
use contexide.Prelude.Lists.{length}

abbrev pub count : ℕ → List ℕ → ℕ
count a [] = 0
count a (x ∷ xs) = let rest = count a xs in if eqb x a then suc rest else rest

abbrev pub sum_of : (ℕ → ℕ) → List ℕ → ℕ
sum_of f [] = 0
sum_of f (x ∷ xs) = f x + sum_of f xs

-- f 0 + … + f (n - 1)
abbrev pub sum_below : (ℕ → ℕ) → ℕ → ℕ
sum_below f zero = 0
sum_below f (suc n) = f n + sum_below f n

pub count-append : (a : ℕ) (xs ys : List ℕ) → count a (xs ++ ys) ≡ count a xs + count a ys
count-append a [] ys = omega arith
count-append a (x ∷ xs) ys = ground (arith, count-append a xs ys)

pub sum_of-append : (f : ℕ → ℕ) (xs ys : List ℕ) → sum_of f (xs ++ ys) ≡ sum_of f xs + sum_of f ys
sum_of-append f [] ys = omega arith
sum_of-append f (x ∷ xs) ys = omega (arith, sum_of-append f xs ys)

pub sum_below-eq :
    (f g : ℕ → ℕ) (n : ℕ) → ((u : ℕ) → u < n → f u ≡ g u) → sum_below f n ≡ sum_below g n
sum_below-eq f g zero h = refl
sum_below-eq f g (suc n) h =
    omega (arith, h n (omega arith), sum_below-eq f g n (λ u l. h u (omega arith)))

pub sum_below-le :
    (f g : ℕ → ℕ) (n : ℕ) → ((u : ℕ) → u < n → f u ≤ g u) → sum_below f n ≤ sum_below g n
sum_below-le f g zero h = omega arith
sum_below-le f g (suc n) h =
    omega (arith, h n (omega arith), sum_below-le f g n (λ u l. h u (omega arith)))

pub sum_below-zero : (n : ℕ) → sum_below (λ u. 0) n ≡ 0
sum_below-zero zero = refl
sum_below-zero (suc n) = omega (arith, sum_below-zero n)

pub sum_below-one : (n : ℕ) → sum_below (λ u. 1) n ≡ n
sum_below-one zero = refl
sum_below-one (suc n) = omega (arith, sum_below-one n)

-- Two functions that differ at one point.
pub sum_below-bump :
    (f g : ℕ → ℕ) (x c n : ℕ)
    → ((u : ℕ) → g u ≡ f u + (if eqb x u then c else 0))
    → sum_below g n ≡ sum_below f n + (if ltb x n then c else 0)
sum_below-bump f g x c zero h = ground arith
sum_below-bump f g x c (suc n) h = ground (arith, h n, sum_below-bump f g x c n h)

-- A sum over a list without repetitions is the part of the sum over `0 .. n` that it covers.
abbrev pub missing : (ℕ → ℕ) → List ℕ → ℕ → ℕ
missing f xs u = if eqb (count u xs) 0 then f u else 0

pub sum_of-add-missing :
    (f : ℕ → ℕ) (n : ℕ) (xs : List ℕ)
    → ((u : ℕ) → count u xs ≤ 1)
    → ((u : ℕ) → n ≤ u → count u xs ≡ 0)
    → sum_of f xs + sum_below (missing f xs) n ≡ sum_below f n
sum_of-add-missing f n [] once inside = omega arith
sum_of-add-missing f n (x ∷ xs) once inside = ground (
  arith,
  sum_of-add-missing f n xs (λ u. ground (arith, once u)) (λ u l. ground (arith, inside u l)),
  sum_below-bump (missing f (x ∷ xs)) (missing f xs) x (f x) n (λ u. ground (arith, once u)),
  inside x,
)

pub sum_of-le-sum_below :
    (f : ℕ → ℕ) (n : ℕ) (xs : List ℕ)
    → ((u : ℕ) → count u xs ≤ 1)
    → ((u : ℕ) → n ≤ u → count u xs ≡ 0)
    → sum_of f xs ≤ sum_below f n
sum_of-le-sum_below f n xs once inside = omega (arith, sum_of-add-missing f n xs once inside)

pub sum_below-ge : (f : ℕ → ℕ) (n u : ℕ) → u < n → f u ≤ sum_below f n
sum_below-ge f zero u h = elim h [ ]
sum_below-ge f (suc n) u h = ground (arith, sum_below-ge f n u, ap f)

-- If such a list reaches the whole sum, then it holds every place with a positive weight.
pub covered :
    (f : ℕ → ℕ) (n : ℕ) (xs : List ℕ)
    → ((u : ℕ) → count u xs ≤ 1)
    → ((u : ℕ) → n ≤ u → count u xs ≡ 0)
    → sum_of f xs ≡ sum_below f n
    → (u : ℕ) → u < n
    → 0 < f u
    → 0 < count u xs
covered f n xs once inside whole u l positive =
    ground (arith, sum_of-add-missing f n xs once inside, sum_below-ge (missing f xs) n u l)

pub sum_below-count :
    (n : ℕ) (xs : List ℕ)
    → ((u : ℕ) → n ≤ u → count u xs ≡ 0)
    → sum_below (λ u. count u xs) n ≡ length xs
sum_below-count n [] inside = sum_below-zero n
sum_below-count n (x ∷ xs) inside = ground (
  arith,
  sum_below-bump (λ u. count u xs) (λ u. count u (x ∷ xs)) x 1 n (λ u. ground arith),
  sum_below-count n xs (λ u l. ground (arith, inside u l)),
  inside x,
)

pub sum_of-one : (xs : List ℕ) → sum_of (λ u. 1) xs ≡ length xs
sum_of-one [] = refl
sum_of-one (x ∷ xs) = omega (arith, sum_of-one xs)

-- And a list that holds every place with a positive weight reaches the whole sum.
pub sum_of-eq-sum_below :
    (f : ℕ → ℕ) (n : ℕ) (xs : List ℕ)
    → ((u : ℕ) → count u xs ≤ 1)
    → ((u : ℕ) → n ≤ u → count u xs ≡ 0)
    → ((u : ℕ) → u < n → 0 < f u → 0 < count u xs)
    → sum_of f xs ≡ sum_below f n
sum_of-eq-sum_below f n xs once inside all = omega (
  arith,
  sum_of-add-missing f n xs once inside,
  sum_below-eq (missing f xs) (λ u. 0) n (λ u l. ground (arith, all u l)),
  sum_below-zero n,
)
