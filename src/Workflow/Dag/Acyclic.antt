-- ===== src/Workflow/Dag/Acyclic.antt =====
-- The DAGs that `validate` accepts: distinct keys, edges between them, and no cycle.
use contexide.Prelude.{
  ℕ, suc, ◌<◌, String, ◌≡◌, ◌↔◌, ◌⊎◌, refl, ap, ◌∙◌, inl, inr, none, some, List, [], ◌∷◌, map, Memᴰ,
  arith, Result-cases, ok, err, ◌>>=◌, length, length-map, get_elem?-lt, List-cases,
  Memᴰ_of_get_elem?, get_elem?_of_Memᴰ, string_eq, count, sum_below-eq, sum_below-one,
  sum_below-count,
}
use contexide.HashMap
use contexide.HashMap.{HashMap}
use contexide.Workflow.Dag.{
  DagNode, DagEdge, Dag, Graph, kahn, start, unlinked, build_graph, add_edge, add_edges, connect,
  topo_order, validate, key_at,
}
use contexide.Workflow.Dag.Keys.{
  keys, IsDistinct, Indexes, Indexes-IsDistinct, Indexes-build_index, build_index-iff-IsDistinct,
}
use contexide.Workflow.Dag.Rounds.{weight}
use contexide.Workflow.Dag.Edges.{
  Built, build_graph-Built, IsLinked-IsGraph, arcs-pos_of_edge, edge_of_arcs-pos,
}
use contexide.Workflow.Dag.Finish.{final, Sound-final, ordered_of_rank}
use contexide.Workflow.Dag.Outcome.{Ordered, topo_order-Ordered, key_at-keys, position-lt}
use contexide.Workflow.Dag.Positions.{position}
use contexide.Workflow.Dag.Validate.{validate-eq-topo_order}

-- No key stands twice, and the ends of every edge are keys.
pub record IsWellFormed (dag : Dag) : Type 0 where
  pub distinct : IsDistinct (keys dag.nodes)
  pub from_known : (edge : DagEdge) → Memᴰ edge dag.edges → Memᴰ edge.from (keys dag.nodes)
  pub to_known : (edge : DagEdge) → Memᴰ edge dag.edges → Memᴰ edge.to (keys dag.nodes)

-- Every edge goes from a lower to a higher rank, so no path along edges comes back.
abbrev pub IsRanked : (String → ℕ) → Dag → Type 0
IsRanked rank dag = (edge : DagEdge) → Memᴰ edge dag.edges → rank edge.from < rank edge.to

module _ (idx : HashMap String ℕ) where
  abbrev rank_of : List ℕ → String → ℕ
  rank_of order k = elim (HashMap.get k idx) [ none ↦ 0 | some u ↦ position u order ]

  add_edges-total :
      (edges : List DagEdge) (g : Graph)
      → ((edge : DagEdge)
          → Memᴰ edge edges
          → (a : ℕ) × (b : ℕ) × (HashMap.get edge.from idx ≡ some a)
            × (HashMap.get edge.to idx ≡ some b))
      → (g' : Graph) × (add_edges idx g edges ≡ ok g')
  unfolding add_edges add_edge
  add_edges-total [] g h = (g, refl)
  add_edges-total (edge ∷ rest) g h =
      let (a, b, ea, eb) = h edge (Memᴰ.head refl) in
      rw (ea, eb) (add_edges-total rest (connect g a b) (λ e m. h e (Memᴰ.tail m)))

module _ (dag : Dag) where
  abbrev n : ℕ
  n = length dag.nodes

  place_of_key :
      (idx : HashMap String ℕ)
      → Indexes idx (keys dag.nodes)
      → (k : String) → Memᴰ k (keys dag.nodes)
      → (a : ℕ) × (HashMap.get k idx ≡ some a)
  place_of_key idx indexes k m =
      let (a, e) = get_elem?_of_Memᴰ (keys dag.nodes) m in (a, (indexes k a).1 e)

  build_graph-total : IsWellFormed dag → (g : Graph) × (build_graph dag ≡ ok g)
  unfolding build_graph
  build_graph-total w =
      let (idx, e) = (build_index-iff-IsDistinct dag).1 w.distinct in
      let place = place_of_key idx (Indexes-build_index dag idx e) in
      rw e (
        add_edges-total idx dag.edges (unlinked n) λ edge m.
          let (a, ea) = place edge.from (w.from_known edge m) in
          let (b, eb) = place edge.to (w.to_known edge m) in (a, b, ea, eb))

  module _ (rank : String → ℕ) (ranked : IsRanked rank dag) (g : Graph) (built : Built dag g) where
    key_of_get : (k : String) (u : ℕ) → HashMap.get k built.idx ≡ some u → key_at dag.nodes u ≡ k
    key_of_get k u e =
        let there = (built.indexes k u).0 e in
        let u_lt : u < n = omega (
          arith,
          get_elem?-lt (keys dag.nodes) u there,
          length-map dag.nodes (λ (x : DagNode). x.key),
        ) in
        cc (key_at-keys dag.nodes u u_lt)

    climbs :
        (u v : ℕ)
        → u < n
        → v < n
        → 0 < weight n g.adj v u
        → rank (key_at dag.nodes u) < rank (key_at dag.nodes v)
    climbs u v u_lt v_lt w =
        let (edge, m, a, b) =
          edge_of_arcs-pos built.idx u v dag.edges (omega (arith, built.weights u v)) in
        rw (key_of_get edge.from u a, key_of_get edge.to v b) (ranked edge m)

    length-order : length (final n g (IsLinked-IsGraph built.linked)).order ≡ n
    length-order =
        let wf = IsLinked-IsGraph built.linked in
        omega (
          arith,
          sum_below-count n (final n g wf).order
              (λ v l. omega (arith, (Sound-final n g wf).released.inside v l)),
          sum_below-eq (λ v. count v (final n g wf).order) (λ v. 1) n
              (λ v l.
                ordered_of_rank n g wf (λ u. rank (key_at dag.nodes u)) climbs
                  (suc (rank (key_at dag.nodes v))) v l (omega arith)),
          sum_below-one n,
        )

topo_order_of_graph :
    (dag : Dag) (g : Graph)
    → build_graph dag ≡ ok g
    → length (kahn (length dag.nodes) g.adj (start g)).order ≡ length dag.nodes
    → (ks : List String) × (topo_order dag ≡ ok ks)
unfolding topo_order
topo_order_of_graph dag g built full = elim (List-cases dag.nodes) [
  | inl empty ↦ ([], rw (empty, topo_order))
  | inr (node, rest, e) ↦ (
    map (key_at dag.nodes) (kahn (length dag.nodes) g.adj (start g)).order,
    rw (e, topo_order) (rw built (ground arith)),
  )
]

module _ (dag : Dag) (ks : List String) (o : Ordered dag ks) where
  IsWellFormed-of_Ordered : IsWellFormed dag
  IsWellFormed-of_Ordered = record {
    distinct = Indexes-IsDistinct o.built.idx (keys dag.nodes) o.built.indexes;
    from_known = λ edge m.
        let (a, b, ea, eb) = o.built.resolved edge m in
        Memᴰ_of_get_elem? (keys dag.nodes) a ((o.built.indexes edge.from a).0 ea);
    to_known = λ edge m.
        let (a, b, ea, eb) = o.built.resolved edge m in
        Memᴰ_of_get_elem? (keys dag.nodes) b ((o.built.indexes edge.to b).0 eb);
  }

  place-lt : (k : String) (u : ℕ) → HashMap.get k o.built.idx ≡ some u → u < length dag.nodes
  place-lt k u e = omega (
    arith,
    get_elem?-lt (keys dag.nodes) u ((o.built.indexes k u).0 e),
    length-map dag.nodes (λ (x : DagNode). x.key),
  )

  IsRanked-of_Ordered : IsRanked (rank_of o.built.idx o.order) dag
  IsRanked-of_Ordered edge m =
      let (a, b, ea, eb) = o.built.resolved edge m in
      rw (ea, eb, rank_of)
        (position-lt dag ks o a b (place-lt edge.from a ea) (place-lt edge.to b eb) (
          omega
            (arith, o.built.weights a b, arcs-pos_of_edge o.built.idx a b dag.edges edge m ea eb)))

abbrev pub IsAcceptable : Dag → Type 0
IsAcceptable dag = (dag.nodes ≡ []) ⊎ (IsWellFormed dag × ((rank : String → ℕ) × IsRanked rank dag))

IsAcceptable-of_order : (dag : Dag) (ks : List String) → topo_order dag ≡ ok ks → IsAcceptable dag
IsAcceptable-of_order dag ks h = elim (topo_order-Ordered dag ks h) [
  | inl (empty, _) ↦ inl empty
  | inr o ↦ inr (
    IsWellFormed-of_Ordered dag ks o,
    (rank_of o.built.idx o.order, IsRanked-of_Ordered dag ks o),
  )
]

order_of_acceptable : (dag : Dag) → IsAcceptable dag → (ks : List String) × (topo_order dag ≡ ok ks)
unfolding topo_order
order_of_acceptable dag (inl empty) = ([], rw (empty, topo_order))
order_of_acceptable dag (inr (w, (rank, ranked))) =
    let (g, built) = build_graph-total dag w in
    topo_order_of_graph dag g built (length-order dag rank ranked g (build_graph-Built dag g built))

-- A DAG with at least one node is accepted exactly if its keys are distinct, its edges join nodes,
-- and some ranking of the keys rises along every edge; a DAG with no node is accepted, whatever its
-- edges are.
pub validate-iff-IsAcceptable : (dag : Dag) → (validate dag ≡ ok tt) ↔ IsAcceptable dag
validate-iff-IsAcceptable dag = (
  λ h. elim (Result-cases (topo_order dag)) [
    | inl (ks, e) ↦ IsAcceptable-of_order dag ks e
    | inr (x, e) ↦
        let refused : validate dag ≡ err x =
          validate-eq-topo_order dag ∙ ap (λ r. r >>= λ _. ok tt) e in
        cc
  ],
  λ a. let (ks, e) = order_of_acceptable dag a in rw (validate-eq-topo_order dag, e),
)
