-- ===== src/Workflow/Dag/Validate.antt =====
-- `validate` against `topo_order`, and against the graphs that it is meant to accept.
use contexide.Prelude.{
  ℕ, zero, suc, ◌+◌, ◌≡◌, refl, ap, inl, inr, List, [], ◌∷◌, ◌++◌, arith, Result-cases, ok, ◌>>=◌,
  length, length-append, get_or, List-cases,
}
use contexide.Workflow.Dag.{
  Dag, Kahn, Sweep, release, release_all, round, kahn, start, relax, relax_all, sweep, build_graph,
  topo_order, validate,
}

-- The sweep that stands for a state of the other loop: it keeps only the length of the order.
abbrev counting : Kahn → Sweep
counting s = record { indegree = s.indegree; queue = s.queue; seen = length s.order }

relax-counting : (s : Kahn) (v : ℕ) → relax (counting s) v ≡ counting (release s v)
unfolding relax release
relax-counting s v = refl

relax_all-counting :
    (s : Kahn) (vs : List ℕ) → relax_all (counting s) vs ≡ counting (release_all s vs)
unfolding relax_all release_all
relax_all-counting s [] = refl
relax_all-counting s (v ∷ vs) = rw (relax-counting s v) (relax_all-counting (release s v) vs)

counting-round :
    (adj : List (List ℕ)) (s : Kahn) (u : ℕ) (rest : List ℕ)
    → relax_all
        (record { indegree = s.indegree; queue = rest; seen = length s.order + 1 })
        (get_or adj u [])
      ≡ counting (round adj s u rest)
unfolding round
counting-round adj s u rest =
    let longer : length s.order + 1 ≡ length (s.order ++ u ∷ []) =
      omega (arith, length-append s.order (u ∷ [])) in
    rw longer
      (relax_all-counting (record s { queue = rest; order = s.order ++ u ∷ [] }) (get_or adj u []))

sweep-counting :
    (fuel : ℕ) (adj : List (List ℕ)) (s : Kahn)
    → sweep fuel adj (counting s) ≡ counting (kahn fuel adj s)
unfolding sweep kahn
sweep-counting zero adj s = refl
sweep-counting (suc fuel) adj s = elim (List-cases s.queue) [
  | inl empty ↦ rw (empty, sweep, kahn)
  | inr (u, rest, e) ↦
      rw (e, sweep, kahn)
        (rw (counting-round adj s u rest) (sweep-counting fuel adj (round adj s u rest)))
]

-- `validate` accepts exactly what `topo_order` orders, and refuses the rest with the same error.
pub validate-eq-topo_order : (dag : Dag) → validate dag ≡ (topo_order dag >>= λ _. ok tt)
unfolding validate topo_order
validate-eq-topo_order dag = elim (List-cases dag.nodes) [
  | inl empty ↦ rw (empty, validate, topo_order)
  | inr (node, rest, e) ↦
      rw (e, validate, topo_order)
        (elim (Result-cases (build_graph dag)) [
          | inl (g, built) ↦ rw built (
              ground (
                arith,
                ap (λ (x : Sweep). x.seen) (sweep-counting (length dag.nodes) g.adj (start g)),
              ))
          | inr (x, failed) ↦ rw failed
        ])
]
