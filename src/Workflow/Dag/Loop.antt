-- ===== src/Workflow/Dag/Loop.antt =====
-- The `while` loop of `topo_order` from its first to its last round.
use contexide.Prelude.{
  ℕ, ◌+◌, ◌≤◌, ◌<◌, ◌≡◌, refl, List, [], ◌∷◌, arith, eqb, leb, ltb, if◌then◌else◌, ◌&&◌, ◌-◌, ap,
  length, get_or, count, count-append, sum_of-append, covered,
}
use contexide.Workflow.Dag.{Kahn, Graph, initial_queue, round, start}
use contexide.Workflow.Dag.Rounds.{weight, total, Released, Released-once, Released-release_all}

-- A graph on the places `0 .. n` whose counters are right.
pub record IsGraph (n : ℕ) (g : Graph) : Type 0 where
  pub size : length g.indegree ≡ n
  pub counted : (v : ℕ) → v < n → get_or g.indegree v 0 ≡ total n g.adj v
  pub targets : (u v : ℕ) → n ≤ v → weight n g.adj v u ≡ 0

count-initial_queue :
    (v i : ℕ) (ds : List ℕ)
    → count v (initial_queue i ds)
      ≡ (if leb i v && (ltb v (i + length ds) && eqb (get_or ds (v - i) 0) 0) then 1 else 0)
unfolding initial_queue
count-initial_queue v i [] = ground arith
count-initial_queue v i (d ∷ ds) = ground (arith, count-initial_queue v (i + 1) ds)

module _ (n : ℕ) (g : Graph) (wf : IsGraph n g) where
  pub Released-start : Released n g.adj [] (start g)
  Released-start = record {
    size = wf.size;
    degrees = λ v l. omega (arith, wf.counted v l);
    placed = λ v l. ground (arith, wf.size, count-initial_queue v 0 g.indegree);
    inside = λ v l. ground (arith, wf.size, count-initial_queue v 0 g.indegree);
    targets = λ v l. refl;
  }

  module _ (s : Kahn) (u : ℕ) (rest : List ℕ) (popped : s.queue ≡ u ∷ rest)
      (h : Released n g.adj [] s) where
    queued-lt : u < n
    queued-lt = ground (arith, h.inside u)

    pub Released-round : Released n g.adj [] (round g.adj s u rest)
    unfolding round
    Released-round = Released-release_all (get_or g.adj u []) _ (record {
      size = h.size;
      degrees =
          λ v l. ground (arith, h.degrees v l, sum_of-append (weight n g.adj v) s.order (u ∷ []));
      placed =
          λ v l. ground (arith, h.placed v l, count-append v s.order (u ∷ []), ap (count v) popped);
      inside =
          λ v l. ground (arith, h.inside v l, count-append v s.order (u ∷ []), ap (count v) popped);
      targets = λ v l. wf.targets u v l;
    })

    -- All the sources of edges into the popped place were ordered before.
    pub sources-ordered : (w : ℕ) → w < n → 0 < weight n g.adj u w → 0 < count w s.order
    sources-ordered =
        covered (weight n g.adj u) n s.order (λ v. omega (arith, Released-once h v))
          (λ v l. omega (arith, h.inside v l))
          (ground (arith, h.degrees u queued-lt, h.placed u queued-lt, ap (count u) popped))
