-- ===== src/Workflow/Dag/Order.antt =====
-- What an `ok` of `topo_order` promises.
use contexide.Prelude.{
  ℕ, ◌<◌, String, ◌≡◌, ◌↔◌, refl, sym, ap, ◌∙◌, inl, inr, none, some, List, Memᴰ, arith, ok, length,
  length-map, get_elem?, Memᴰ_of_get_elem?, get_elem?_of_Memᴰ, string_eq,
}
use contexide.Workflow.Dag.{DagEdge, Dag, topo_order}
use contexide.Workflow.Dag.Keys.{keys, IsDistinct, Indexes-IsDistinct}
use contexide.Workflow.Dag.Edges.{arcs-pos_of_edge}
use contexide.Workflow.Dag.Outcome.{
  Ordered, topo_order-Ordered, key_of_place, place_of_key, position-lt,
}

module _ (dag : Dag) (ks : List String) (o : Ordered dag ks) where
  IsDistinct-of_Ordered : IsDistinct ks
  IsDistinct-of_Ordered i j k a b =
      let (u, _, _, at_u, pos_u) = key_of_place dag ks o i k a in
      let (v, _, _, at_v, pos_v) = key_of_place dag ks o j k b in
      let same : u ≡ v =
        Indexes-IsDistinct o.built.idx (keys dag.nodes) o.built.indexes u v k at_u at_v in
      cc

  same_of_Ordered : (k : String) → Memᴰ k ks ↔ Memᴰ k (keys dag.nodes)
  same_of_Ordered k = (
    λ m.
        let (i, e) = get_elem?_of_Memᴰ ks m in
        let (u, _, _, at_u, _) = key_of_place dag ks o i k e in
        Memᴰ_of_get_elem? (keys dag.nodes) u at_u,
    λ m.
        let (u, e) = get_elem?_of_Memᴰ (keys dag.nodes) m in
        Memᴰ_of_get_elem? ks _ (place_of_key dag ks o u k e),
  )

  before_of_Ordered :
      (edge : DagEdge)
      → Memᴰ edge dag.edges
      → (i j : ℕ) → get_elem? ks i ≡ some edge.from
      → get_elem? ks j ≡ some edge.to
      → i < j
  before_of_Ordered edge m i j a b =
      let (u, _, u_lt, at_u, pos_u) = key_of_place dag ks o i edge.from a in
      let (v, _, v_lt, at_v, pos_v) = key_of_place dag ks o j edge.to b in
      omega (
        arith,
        position-lt dag ks o u v u_lt v_lt (
            omega (
              arith,
              o.built.weights u v,
              arcs-pos_of_edge o.built.idx u v dag.edges edge m
                  ((o.built.indexes edge.from u).1 at_u) ((o.built.indexes edge.to v).1 at_v),
            )),
      )

-- If `topo_order` returns `ks`, then `ks` is as long as the node list, holds no key twice, and
-- holds exactly the keys of the nodes.
pub topo_order_complete :
    (dag : Dag) (ks : List String)
    → topo_order dag ≡ ok ks
    → (length ks ≡ length dag.nodes)
      × IsDistinct ks
      × ((k : String) → Memᴰ k ks ↔ Memᴰ k (keys dag.nodes))
topo_order_complete dag ks h = elim (topo_order-Ordered dag ks h) [
  | inl (no_nodes, no_keys) ↦ rw (no_nodes, no_keys) (refl, λ i j k a b. cc, λ k. (λ m. m, λ m. m))
  | inr o ↦ (
    ap length o.named ∙ length-map o.order _ ∙ o.full,
    IsDistinct-of_Ordered dag ks o,
    same_of_Ordered dag ks o,
  )
]

-- If `topo_order` returns `ks`, then wherever the source and the target of an edge stand in `ks`, the
-- source stands first.
pub topo_order-before :
    (dag : Dag) (ks : List String) (edge : DagEdge) (i j : ℕ)
    → topo_order dag ≡ ok ks
    → Memᴰ edge dag.edges
    → get_elem? ks i ≡ some edge.from
    → get_elem? ks j ≡ some edge.to
    → i < j
topo_order-before dag ks edge i j h m a b = elim (topo_order-Ordered dag ks h) [
  | inl (_, no_keys) ↦
      let none_at : none ≡ some edge.from =
        ap (λ (l : List String). get_elem? l i) (sym no_keys) ∙ a in
      cc
  | inr o ↦ before_of_Ordered dag ks o edge m i j a b
]
