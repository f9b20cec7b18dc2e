-- ===== src/Workflow/Dag/Rounds.antt =====
-- The loop of `topo_order`: what holds before and after each round.
use contexide.Prelude.{
  ℕ, ◌+◌, ◌-◌, ◌≤◌, ◌<◌, ◌≡◌, List, [], ◌∷◌, arith, eqb, if◌then◌else◌, length, length-set, get_or,
  get_or-set, count, count-append, sum_of, sum_below, sum_of-le-sum_below,
}
use contexide.Workflow.Dag.{Kahn, release, release_all}

module _ (n : ℕ) (adj : List (List ℕ)) where
  -- How many edges go from `u` to `v`, into `v` from the places of a list, and into `v` in all.
  abbrev pub weight : ℕ → ℕ → ℕ
  weight v u = count v (get_or adj u [])

  abbrev pub into : ℕ → List ℕ → ℕ
  into v xs = sum_of (weight v) xs

  abbrev pub total : ℕ → ℕ
  total v = sum_below (weight v) n

  -- The state in the middle of a round that still has to release `vs`: the indegree of a place is
  -- the number of edges into it from places not in `order`, and a place is queued or ordered, once,
  -- exactly if its indegree is zero.
  pub record Released (vs : List ℕ) (s : Kahn) : Type 0 where
    pub size : length s.indegree ≡ n
    pub degrees : (v : ℕ) → v < n → get_or s.indegree v 0 + into v s.order ≡ total v + count v vs
    pub placed :
        (v : ℕ)
        → v < n
        → count v s.order + count v s.queue ≡ (if eqb (get_or s.indegree v 0) 0 then 1 else 0)
    pub inside : (v : ℕ) → n ≤ v → count v s.order + count v s.queue ≡ 0
    pub targets : (v : ℕ) → n ≤ v → count v vs ≡ 0

module _ {n : ℕ} {adj : List (List ℕ)} where
  pub Released-once :
      {vs : List ℕ} {s : Kahn}
      → Released n adj vs s
      → (v : ℕ) → count v s.order + count v s.queue ≤ 1
  Released-once {s = s} h v = ground (arith, h.placed v, h.inside v)

  into-le-total :
      {vs : List ℕ} {s : Kahn}
      → Released n adj vs s
      → (v : ℕ) → into n adj v s.order ≤ total n adj v
  into-le-total {s = s} h v =
      sum_of-le-sum_below (weight n adj v) n s.order (λ u. omega (arith, Released-once h u))
        (λ u l. omega (arith, h.inside u l))

  module _ (v : ℕ) (vs : List ℕ) (s : Kahn) (h : Released n adj (v ∷ vs) s) where
    target-lt : v < n
    target-lt = ground (arith, h.targets v)

    -- `indegree[v] -= 1` never goes below zero.
    pub indegree-pos : 0 < get_or s.indegree v 0
    indegree-pos = ground (arith, h.degrees v target-lt, into-le-total h v)

    Released-release : Released n adj vs (release s v)
    unfolding release
    Released-release = record {
      size = ground (arith, h.size, length-set s.indegree v (get_or s.indegree v 0 - 1));
      degrees = λ u l. ground (
        arith,
        h.size,
        h.degrees u l,
        indegree-pos,
        target-lt,
        get_or-set s.indegree v u (get_or s.indegree v 0 - 1) 0,
      );
      placed = λ u l. ground (
        arith,
        h.size,
        h.placed u l,
        indegree-pos,
        target-lt,
        get_or-set s.indegree v u (get_or s.indegree v 0 - 1) 0,
        count-append u s.queue (v ∷ []),
      );
      inside = λ u l. ground (arith, h.inside u l, target-lt, count-append u s.queue (v ∷ []));
      targets = λ u l. ground (arith, h.targets u l);
    }

  pub Released-release_all :
      (vs : List ℕ) (s : Kahn) → Released n adj vs s → Released n adj [] (release_all s vs)
  unfolding release_all
  Released-release_all [] s h = h
  Released-release_all (v ∷ vs) s h =
      Released-release_all vs (release s v) (Released-release v vs s h)
