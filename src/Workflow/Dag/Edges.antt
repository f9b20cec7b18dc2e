-- ===== src/Workflow/Dag/Edges.antt =====
-- `build_graph`: the adjacency lists hold one entry for each edge, and the indegrees count them.
use contexide.Prelude.{
  Bool-cases, ℕ, ◌+◌, ◌≤◌, ◌<◌, String, ◌≡◌, refl, ap, inl, inr, Bool, false, ◌&&◌, none, some,
  List, [], ◌∷◌, ◌++◌, Memᴰ, arith, ok, ok_or-eq-ok, >>=-eq-ok, eqb, if◌then◌else◌, length,
  length-set, length-map, get_elem?-lt, length-replicate, get_or, get_or-set, get_or-replicate,
  count-append, sum_below-bump, sum_below-zero, sum_below-eq, string_eq,
}
use mathlib.Core.Path.{subst}
use mathlib.Core.List.Memᴰ
use contexide.HashMap
use contexide.HashMap.{HashMap}
use contexide.Workflow.Dag.{
  DagNode, DagEdge, Dag, missing_node, Graph, connect, endpoint, add_edge, add_edges, unlinked,
  build_graph, build_index,
}
use contexide.Workflow.Dag.Keys.{keys, Indexes, Indexes-build_index}
use contexide.Workflow.Dag.Rounds.{weight, total}
use contexide.Workflow.Dag.Loop.{IsGraph}

pub record IsLinked (n : ℕ) (g : Graph) : Type 0 where
  pub adj_size : length g.adj ≡ n
  pub size : length g.indegree ≡ n
  pub counted : (v : ℕ) → v < n → get_or g.indegree v 0 ≡ total n g.adj v
  pub targets : (u v : ℕ) → n ≤ v → weight n g.adj v u ≡ 0

pub IsLinked-IsGraph : {n : ℕ} {g : Graph} → IsLinked n g → IsGraph n g
IsLinked-IsGraph h = record { size = h.size; counted = h.counted; targets = h.targets }

module _ (n : ℕ) where
  weight-unlinked : (u v : ℕ) → weight n (unlinked n).adj v u ≡ 0
  weight-unlinked u v = rw (get_or-replicate {A = List ℕ} n u [])

  IsLinked-unlinked : IsLinked n (unlinked n)
  IsLinked-unlinked = record {
    adj_size = length-replicate {A = List ℕ} n [];
    size = length-replicate {A = ℕ} n 0;
    counted = λ v l. omega (
      arith,
      get_or-replicate {A = ℕ} n v 0,
      sum_below-zero n,
      sum_below-eq (weight n (unlinked n).adj v) (λ u. 0) n (λ u m. weight-unlinked u v),
    );
    targets = λ u v l. weight-unlinked u v;
  }

  module _ (g : Graph) (a b : ℕ) (h : IsLinked n g) (a_lt : a < n) (b_lt : b < n) where
    weight-connect :
        (u v : ℕ)
        → weight n (connect g a b).adj v u
          ≡ weight n g.adj v u + (if eqb a u && eqb b v then 1 else 0)
    weight-connect u v = ground (
      arith,
      h.adj_size,
      get_or-set g.adj a u (get_or g.adj a [] ++ b ∷ []) [],
      count-append v (get_or g.adj a []) (b ∷ []),
    )

    IsLinked-connect : IsLinked n (connect g a b)
    IsLinked-connect = record {
      adj_size = ground (arith, h.adj_size, length-set g.adj a (get_or g.adj a [] ++ b ∷ []));
      size = ground (arith, h.size, length-set g.indegree b (get_or g.indegree b 0 + 1));
      counted = λ v l. ground (
        arith,
        h.size,
        h.counted v l,
        get_or-set g.indegree b v (get_or g.indegree b 0 + 1) 0,
        sum_below-bump (weight n g.adj v) (weight n (connect g a b).adj v) a
            (if eqb b v then 1 else 0) n (λ u. ground (arith, weight-connect u v)),
      );
      targets = λ u v l. ground (arith, weight-connect u v, h.targets u v l);
    }

-- How many of the edges go from place `u` to place `v`.
abbrev pub stands_at : HashMap String ℕ → String → ℕ → Bool
stands_at idx key u = elim (HashMap.get key idx) [ none ↦ false | some i ↦ eqb i u ]

abbrev pub joins : HashMap String ℕ → ℕ → ℕ → DagEdge → Bool
joins idx u v edge = stands_at idx edge.from u && stands_at idx edge.to v

abbrev pub arcs : HashMap String ℕ → ℕ → ℕ → List DagEdge → ℕ
arcs idx u v [] = 0
arcs idx u v (edge ∷ rest) = (if joins idx u v edge then 1 else 0) + arcs idx u v rest

pub add_edge-eq-ok :
    (idx : HashMap String ℕ) (g g' : Graph) (edge : DagEdge)
    → add_edge idx g edge ≡ ok g'
    → (a : ℕ) × (b : ℕ) × (HashMap.get edge.from idx ≡ some a)
      × (HashMap.get edge.to idx ≡ some b)
      × (g' ≡ connect g a b)
unfolding add_edge
add_edge-eq-ok idx g g' edge h =
    let (a, ea, k) = >>=-eq-ok (endpoint idx edge edge.from) _ h in
    let (b, eb, l) = >>=-eq-ok (endpoint idx edge edge.to) _ k in
    (
      a,
      b,
      ok_or-eq-ok (missing_node edge.from edge.to) (HashMap.get edge.from idx) ea,
      ok_or-eq-ok (missing_node edge.from edge.to) (HashMap.get edge.to idx) eb,
      cc,
    )

module _ (n : ℕ) (idx : HashMap String ℕ)
    (bounded : (k : String) (i : ℕ) → HashMap.get k idx ≡ some i → i < n) where
  add_edges-IsLinked :
      (edges : List DagEdge) (g g' : Graph)
      → IsLinked n g
      → add_edges idx g edges ≡ ok g'
      → IsLinked n g' × ((u v : ℕ) → weight n g'.adj v u ≡ weight n g.adj v u + arcs idx u v edges)
  unfolding add_edges
  add_edges-IsLinked [] g g' h e =
      let same : g ≡ g' = cc in
      (subst (IsLinked n) same h, λ u v. omega (arith, ap (λ (x : Graph). weight n x.adj v u) same))
  add_edges-IsLinked (edge ∷ rest) g g' h e =
      let (g₁, e₁, e₂) = >>=-eq-ok (add_edge idx g edge) _ e in
      let (a, b, ea, eb, made) = add_edge-eq-ok idx g g₁ edge e₁ in
      let linked = IsLinked-connect n g a b h (bounded edge.from a ea) (bounded edge.to b eb) in
      let (linked', weights) = add_edges-IsLinked rest g₁ g' (rw made linked) e₂ in
      (
        linked',
        λ u v. ground (
          arith,
          weights u v,
          ap (λ (x : Graph). weight n x.adj v u) made,
          weight-connect n g a b h (bounded edge.from a ea) (bounded edge.to b eb) u v,
        ),
      )

-- What `build_graph` returns: the index, and the graph of the edges.
pub record Built (dag : Dag) (g : Graph) : Type 0 where
  pub idx : HashMap String ℕ
  pub indexes : Indexes idx (keys dag.nodes)
  pub linked : IsLinked (length dag.nodes) g
  pub weights : (u v : ℕ) → weight (length dag.nodes) g.adj v u ≡ arcs idx u v dag.edges
  pub resolved :
      (edge : DagEdge)
      → Memᴰ edge dag.edges
      → (a : ℕ) × (b : ℕ) × (HashMap.get edge.from idx ≡ some a)
        × (HashMap.get edge.to idx ≡ some b)

add_edges-resolved :
    (n : ℕ) (idx : HashMap String ℕ) (edges : List DagEdge) (g g' : Graph)
    → add_edges idx g edges ≡ ok g'
    → (edge : DagEdge) → Memᴰ edge edges
    → (a : ℕ) × (b : ℕ) × (HashMap.get edge.from idx ≡ some a) × (HashMap.get edge.to idx ≡ some b)
unfolding add_edges
add_edges-resolved n idx [] g g' e edge m = absurd (Memᴰ.not-nil m)
add_edges-resolved n idx (x ∷ rest) g g' e edge m =
    let (g₁, e₁, e₂) = >>=-eq-ok (add_edge idx g x) _ e in
    elim (Memᴰ.cases_cons m) [
      | inl same ↦ let (a, b, ea, eb, _) = add_edge-eq-ok idx g g₁ x e₁ in rw same (a, b, ea, eb)
      | inr later ↦ add_edges-resolved n idx rest g₁ g' e₂ edge later
    ]

pub build_graph-Built : (dag : Dag) (g : Graph) → build_graph dag ≡ ok g → Built dag g
unfolding build_graph
build_graph-Built dag g e =
    let (idx, e₁, e₂) = >>=-eq-ok (build_index dag) _ e in
    let n = length dag.nodes in
    let indexes = Indexes-build_index dag idx e₁ in
    let bounded : (k : String) (i : ℕ) → HashMap.get k idx ≡ some i → i < length dag.nodes =
      λ k i p. omega (
        arith,
        get_elem?-lt (keys dag.nodes) i ((indexes k i).0 p),
        length-map dag.nodes (λ (x : DagNode). x.key),
      ) in
    let (linked, weights) =
      add_edges-IsLinked n idx bounded dag.edges (unlinked n) g (IsLinked-unlinked n) e₂ in
    record {
      idx = idx;
      indexes = indexes;
      linked = linked;
      weights = λ u v. omega (arith, weights u v, weight-unlinked n u v);
      resolved = add_edges-resolved n idx dag.edges (unlinked n) g e₂;
    }

pub arcs-pos_of_edge :
    (idx : HashMap String ℕ) (u v : ℕ) (edges : List DagEdge) (edge : DagEdge)
    → Memᴰ edge edges
    → HashMap.get edge.from idx ≡ some u
    → HashMap.get edge.to idx ≡ some v
    → 0 < arcs idx u v edges
arcs-pos_of_edge idx u v [] edge m a b = absurd (Memᴰ.not-nil m)
arcs-pos_of_edge idx u v (x ∷ rest) edge m a b = elim (Memᴰ.cases_cons m) [
  | inl same ↦
      let p : HashMap.get x.from idx ≡ some u = rw (← same) a in
      let q : HashMap.get x.to idx ≡ some v = rw (← same) b in ground arith
  | inr later ↦ omega (arith, arcs-pos_of_edge idx u v rest edge later a b)
]

pub edge_of_arcs-pos :
    (idx : HashMap String ℕ) (u v : ℕ) (edges : List DagEdge)
    → 0 < arcs idx u v edges
    → (edge : DagEdge) × Memᴰ edge edges
      × (HashMap.get edge.from idx ≡ some u)
      × (HashMap.get edge.to idx ≡ some v)
edge_of_arcs-pos idx u v [] h = elim h [ ]
edge_of_arcs-pos idx u v (x ∷ rest) h = elim (Bool-cases (joins idx u v x)) [
  | inl yes_it ↦ (x, Memᴰ.head refl, ground arith, ground arith)
  | inr not_it ↦
      let (edge, m, a, b) = edge_of_arcs-pos idx u v rest (ground arith) in
      (edge, Memᴰ.tail m, a, b)
]
