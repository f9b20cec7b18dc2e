-- ===== src/Workflow/Dag/Outcome.antt =====
-- `topo_order` taken apart: what an `ok` means for the places, and what each error means.
use contexide.Prelude.{
  ℕ, zero, suc, ◌≤◌, ◌<◌, String, ◌≡◌, refl, sym, ap, ◌∙◌, ◌⊎◌, inl, inr, some, List, [], ◌∷◌, map,
  arith, ok, >>=-eq-ok, length, length-map, get_elem?, get_elem?-map, get_elem?-map_inv,
  get_elem?-lt, count,
}
use contexide.Workflow.Dag.{
  DagNode, Dag, Graph, build_graph, start, kahn, key_at, keys_in_order, topo_order,
}
use contexide.Workflow.Dag.Keys.{keys}
use contexide.Workflow.Dag.Rounds.{weight}
use contexide.Workflow.Dag.Loop.{IsGraph}
use contexide.Workflow.Dag.Edges.{Built, build_graph-Built, IsLinked-IsGraph}
use contexide.Workflow.Dag.Finish.{Sound-final, count-order_of_full}
use contexide.Workflow.Dag.Positions.{
  position, Follows-position, get_elem?-position, position_of_get_elem?, count-pos_of_get_elem?,
}

-- The run of Kahn's algorithm that an `ok` comes from.
pub record Ordered (dag : Dag) (ks : List String) : Type 0 where
  pub graph : Graph
  pub built : Built dag graph
  pub order : List ℕ
  pub ran : order ≡ (kahn (length dag.nodes) graph.adj (start graph)).order
  pub full : length order ≡ length dag.nodes
  pub named : ks ≡ map (key_at dag.nodes) order

Ordered-of_keys :
    (dag : Dag) (ks : List String) (g : Graph)
    → build_graph dag ≡ ok g
    → keys_in_order dag (kahn (length dag.nodes) g.adj (start g)).order ≡ ok ks
    → Ordered dag ks
Ordered-of_keys dag ks g built h = record {
  graph = g;
  built = build_graph-Built dag g built;
  order = (kahn (length dag.nodes) g.adj (start g)).order;
  ran = refl;
  full = ground arith;
  named = ground arith;
}

pub topo_order-Ordered :
    (dag : Dag) (ks : List String)
    → topo_order dag ≡ ok ks
    → ((dag.nodes ≡ []) × (ks ≡ [])) ⊎ Ordered dag ks
unfolding topo_order
topo_order-Ordered dag ks h = by_nodes dag.nodes refl
  where
    by_nodes :
        (nodes : List DagNode) → dag.nodes ≡ nodes → ((dag.nodes ≡ []) × (ks ≡ [])) ⊎ Ordered dag ks
    by_nodes [] e = inl (e, ground arith)
    by_nodes (node ∷ rest) e =
        let (g, built, k) = >>=-eq-ok (build_graph dag) _ (rw (e, topo_order) at h) in
        inr (Ordered-of_keys dag ks g built k)

pub key_at-keys :
    (nodes : List DagNode) (u : ℕ)
    → u < length nodes
    → get_elem? (keys nodes) u ≡ some (key_at nodes u)
key_at-keys [] u h = elim h [ ]
key_at-keys (node ∷ nodes) zero h = refl
key_at-keys (node ∷ nodes) (suc u) h = key_at-keys nodes u (omega arith)

module _ (dag : Dag) (ks : List String) (o : Ordered dag ks) where
  wf : IsGraph (length dag.nodes) o.graph
  wf = IsLinked-IsGraph o.built.linked

  pub count-order : (v : ℕ) → v < length dag.nodes → count v o.order ≡ 1
  count-order v l =
      rw o.ran (count-order_of_full (length dag.nodes) o.graph wf (rw o.ran at o.full) v l)

  pub count-order_outside : (v : ℕ) → length dag.nodes ≤ v → count v o.order ≡ 0
  count-order_outside v l =
      rw o.ran (omega (arith, (Sound-final (length dag.nodes) o.graph wf).released.inside v l))

  -- What stands at place `i` of the order, and the key that it gives to `ks`.
  pub key_of_place :
      (i : ℕ) (k : String)
      → get_elem? ks i ≡ some k
      → (u : ℕ) × (get_elem? o.order i ≡ some u)
        × (u < length dag.nodes)
        × (get_elem? (keys dag.nodes) u ≡ some k)
        × (position u o.order ≡ i)
  key_of_place i k h =
      let (u, at_i, named) = get_elem?-map_inv (key_at dag.nodes) o.order i (rw o.named at h) in
      let there = count-pos_of_get_elem? o.order i u at_i in
      let u_lt : u < length dag.nodes = ground (arith, count-order_outside u) in
      (
        u,
        at_i,
        u_lt,
        key_at-keys dag.nodes u u_lt ∙ ap some (sym named),
        position_of_get_elem? o.order i u (omega (arith, count-order u u_lt)) at_i,
      )

  pub place_of_key :
      (u : ℕ) (k : String)
      → get_elem? (keys dag.nodes) u ≡ some k
      → get_elem? ks (position u o.order) ≡ some k
  place_of_key u k h =
      let u_lt : u < length dag.nodes =
        omega (
          arith,
          get_elem?-lt (keys dag.nodes) u h,
          length-map dag.nodes (λ (x : DagNode). x.key),
        ) in
      rw o.named (
        get_elem?-map (key_at dag.nodes) o.order (position u o.order)
          (get_elem?-position o.order u (omega (arith, count-order u u_lt)))
        ∙ sym (key_at-keys dag.nodes u u_lt)
        ∙ h)

  -- Sources of edges stand before their targets.
  pub position-lt :
      (u v : ℕ)
      → u < length dag.nodes
      → v < length dag.nodes
      → 0 < weight (length dag.nodes) o.graph.adj v u
      → position u o.order < position v o.order
  position-lt u v u_lt v_lt w = rw o.ran (
      Follows-position (length dag.nodes) o.graph.adj []
        (kahn (length dag.nodes) o.graph.adj (start o.graph)).order u v
        (Sound-final (length dag.nodes) o.graph wf).follows u_lt w refl
        (rw (← o.ran) (omega (arith, count-order v v_lt))))
