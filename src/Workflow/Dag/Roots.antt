-- ===== src/Workflow/Dag/Roots.antt =====
-- `roots`: the nodes that no edge enters.
use mathlib.Core.List.Memᴰ
use contexide.Prelude.{
  ℕ, zero, suc, string_eq, Result-cases, ◌<◌, String, ◌≡◌, ◌≢◌, ◌↔◌, ◌⊎◌, refl, sym, ap, ◌∙◌, inl,
  inr, Bool, true, false, some, List, [], ◌∷◌, arith, ok, err, length, get_elem?, get_or, replicate,
  get_or-set, get_or-replicate, length-set, length-replicate, Bool-cases, Option-cases, Memᴰ,
  get_elem?-map, get_elem?-map_inv, get_elem?-lt, get_elem?_of_Memᴰ, Memᴰ_of_get_elem?,
}
use contexide.HashMap
use contexide.HashMap.{HashMap}
use contexide.Workflow.Dag.{
  DagNode, DagEdge, Dag, DagValidationError, build_index, mark_edge, mark_edges, unmarked, roots,
}
use contexide.Workflow.Dag.Keys.{keys, IsDistinct, Indexes-build_index, build_index-iff-IsDistinct}

length-mark_edge :
    (idx : HashMap String ℕ) (flags : List Bool) (edge : DagEdge)
    → length (mark_edge idx flags edge) ≡ length flags
unfolding mark_edge
length-mark_edge idx flags edge = elim (Option-cases (HashMap.get edge.to idx)) [
  | inl absent ↦ rw (absent, mark_edge) refl
  | inr (i, found) ↦ rw (found, mark_edge) (length-set flags i true)
]

mark_edge_iff :
    (idx : HashMap String ℕ) (flags : List Bool) (edge : DagEdge) (j : ℕ)
    → j < length flags
    → (get_or (mark_edge idx flags edge) j false ≡ true)
      ↔ ((get_or flags j false ≡ true) ⊎ (HashMap.get edge.to idx ≡ some j))
unfolding mark_edge
mark_edge_iff idx flags edge j inside = elim (Option-cases (HashMap.get edge.to idx)) [
  | inl absent ↦ rw (absent, mark_edge) (λ h. inl h, λ h. ground arith)
  | inr (i, found) ↦
      let e = get_or-set flags i j true false in
      rw (found, mark_edge) (λ h. ground arith, λ h. ground arith)
]

mark_edges_iff :
    (idx : HashMap String ℕ) (edges : List DagEdge) (flags : List Bool) (j : ℕ)
    → j < length flags
    → (get_or (mark_edges idx flags edges) j false ≡ true) ↔ (
        (get_or flags j false ≡ true)
        ⊎ ((edge : DagEdge) × Memᴰ edge edges × (HashMap.get edge.to idx ≡ some j)))
unfolding mark_edges
mark_edges_iff idx [] flags j inside =
    (λ h. inl h, λ h. elim h [ inl e ↦ e | inr (edge, m, _) ↦ absurd (Memᴰ.not-nil m) ])
mark_edges_iff idx (edge ∷ edges) flags j inside =
    let (a, b) = mark_edge_iff idx flags edge j inside in
    let (c, d) =
      mark_edges_iff idx edges (mark_edge idx flags edge) j
        (omega (arith, length-mark_edge idx flags edge)) in
    (
      λ h. elim (c h) [
        | inl here ↦ elim (a here) [ inl old ↦ inl old | inr hit ↦ inr (edge, Memᴰ.head refl, hit) ]
        | inr (e, m, hit) ↦ inr (e, Memᴰ.tail m, hit)
      ],
      λ h. elim h [
        | inl old ↦ d (inl (b (inl old)))
        | inr (e, m, hit) ↦ elim (Memᴰ.cases_cons m) [
          | inl here ↦
              d (inl (b (inr (ap (λ (x : DagEdge). HashMap.get x.to idx) (sym here) ∙ hit))))
          | inr later ↦ d (inr (e, later, hit))
        ]
      ],
    )

length-mark_edges :
    (idx : HashMap String ℕ) (edges : List DagEdge) (flags : List Bool)
    → length (mark_edges idx flags edges) ≡ length flags
unfolding mark_edges
length-mark_edges idx [] flags = refl
length-mark_edges idx (edge ∷ edges) flags =
    length-mark_edges idx edges (mark_edge idx flags edge) ∙ length-mark_edge idx flags edge

Memᴰ-unmarked :
    (nodes : List DagNode) (flags : List Bool) (node : DagNode)
    → length flags ≡ length nodes
    → Memᴰ node (unmarked nodes flags)
    → (j : ℕ) × (get_elem? nodes j ≡ some node) × (get_or flags j false ≡ false)
unfolding unmarked
Memᴰ-unmarked [] flags node size m = absurd (Memᴰ.not-nil m)
Memᴰ-unmarked (n ∷ nodes) [] node size m = absurd (omega arith)
Memᴰ-unmarked (n ∷ nodes) (true ∷ flags) node size m =
    let (j, e, f) = Memᴰ-unmarked nodes flags node (omega arith) m in (suc j, e, f)
Memᴰ-unmarked (n ∷ nodes) (false ∷ flags) node size m = elim (Memᴰ.cases_cons m) [
  | inl here ↦ (0, ap some (sym here), refl)
  | inr later ↦ let (j, e, f) = Memᴰ-unmarked nodes flags node (omega arith) later in (suc j, e, f)
]

unmarked-Memᴰ :
    (nodes : List DagNode) (flags : List Bool) (node : DagNode)
    → length flags ≡ length nodes
    → (j : ℕ) → get_elem? nodes j ≡ some node
    → get_or flags j false ≡ false
    → Memᴰ node (unmarked nodes flags)
unfolding unmarked
unmarked-Memᴰ [] flags node size j e f = absurd cc
unmarked-Memᴰ (n ∷ nodes) [] node size j e f = absurd (omega arith)
unmarked-Memᴰ (n ∷ nodes) (true ∷ flags) node size zero e f = absurd cc
unmarked-Memᴰ (n ∷ nodes) (true ∷ flags) node size (suc j) e f =
    unmarked-Memᴰ nodes flags node (omega arith) j e f
unmarked-Memᴰ (n ∷ nodes) (false ∷ flags) node size zero e f =
    let same : node ≡ n = cc in Memᴰ.head same
unmarked-Memᴰ (n ∷ nodes) (false ∷ flags) node size (suc j) e f =
    Memᴰ.tail (unmarked-Memᴰ nodes flags node (omega arith) j e f)

-- With the index at hand: a node is a root exactly if no edge has its key as target.
roots_iff_of_index :
    (dag : Dag) (idx : HashMap String ℕ) (node : DagNode)
    → build_index dag ≡ ok idx
    → Memᴰ node (roots dag)
      ↔ (Memᴰ node dag.nodes × ((edge : DagEdge) → Memᴰ edge dag.edges → edge.to ≢ node.key))
unfolding roots
roots_iff_of_index dag idx node built =
    let flags = mark_edges idx (replicate (length dag.nodes) false) dag.edges in
    let indexes = Indexes-build_index dag idx built in
    let size : length flags ≡ length dag.nodes =
      length-mark_edges idx dag.edges (replicate (length dag.nodes) false)
      ∙ length-replicate (length dag.nodes) false in
    rw (built, roots)
      (
        λ m.
            let (j, e, f) = Memᴰ-unmarked dag.nodes flags node size m in
            (
              Memᴰ_of_get_elem? dag.nodes j e,
              λ edge member hit.
                  let at_j : HashMap.get edge.to idx ≡ some j =
                    (indexes edge.to j).1
                      (get_elem?-map (λ (n : DagNode). n.key) dag.nodes j e ∙ ap some (sym hit)) in
                  let t =
                    (mark_edges_iff idx dag.edges (replicate (length dag.nodes) false) j (
                        omega (
                          arith,
                          get_elem?-lt dag.nodes j e,
                          length-replicate (length dag.nodes) false,
                        ))).1
                      (inr (edge, member, at_j)) in
                  absurd cc,
            ),
        λ (member, clear).
            let (j, e) = get_elem?_of_Memᴰ dag.nodes member in
            unmarked-Memᴰ dag.nodes flags node size j e (elim (Bool-cases (get_or flags j false)) [
              | inl marked ↦
                  absurd
                    (elim ((mark_edges_iff idx dag.edges (replicate (length dag.nodes) false) j (
                        omega (
                          arith,
                          get_elem?-lt dag.nodes j e,
                          length-replicate (length dag.nodes) false,
                        ))).0
                      marked) [
                        | inl begun ↦
                            let z = get_or-replicate (length dag.nodes) j false in absurd cc
                        | inr (edge, m, hit) ↦
                            let (n, at_j, k) =
                              get_elem?-map_inv (λ (n : DagNode). n.key) dag.nodes j
                                ((indexes edge.to j).0 hit) in
                            let same : n ≡ node = cc in
                            clear edge m (k ∙ ap (λ (n : DagNode). n.key) same)
                      ])
              | inr free ↦ free
            ]),
      )

no_root :
    (dag : Dag) (node : DagNode) (e : DagValidationError)
    → build_index dag ≡ err e
    → ¬ Memᴰ node (roots dag)
unfolding roots
no_root dag node e refused m = Memᴰ.not-nil (rw (refused, roots) at m)

-- Where no key is repeated, `roots` gives exactly the nodes that are the target of no edge; where one
-- is, it gives none.
pub roots_iff :
    (dag : Dag) (node : DagNode)
    → Memᴰ node (roots dag) ↔ (
        IsDistinct (keys dag.nodes)
        × Memᴰ node dag.nodes
        × ((edge : DagEdge) → Memᴰ edge dag.edges → edge.to ≢ node.key))
unfolding roots
roots_iff dag node = elim (Result-cases (build_index dag)) [
  | inl (idx, built) ↦
      let (a, b) = roots_iff_of_index dag idx node built in
      (
        λ m.
            let (member, clear) = a m in
            ((build_index-iff-IsDistinct dag).0 (idx, built), member, clear),
        λ (_, member, clear). b (member, clear),
      )
  | inr (e, refused) ↦ (
    λ m. absurd (no_root dag node e refused m),
    λ (distinct, member, clear).
        absurd (let (idx, built) = (build_index-iff-IsDistinct dag).1 distinct in cc),
  )
]
