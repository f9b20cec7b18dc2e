-- ===== src/Workflow/Dag/Keys.antt =====
-- `build_index` maps each node key to its place, and fails exactly on a repeated key.
use contexide.Prelude.{
  ℕ, ◌+◌, ◌<◌, String, ◌≡◌, ◌↔◌, refl, sym, ◌∙◌, inl, inr, none, some, List, [], ◌∷◌, ◌++◌, map,
  arith, Result, ok, err, ==_iff, string_eq, length, get_elem?, get_elem?-concat, get_elem?-lt,
  Option-cases, length-append, get_elem?-append_left, get_elem?-append_length,
}
use mathlib.Core.List.{append-nil, append_assoc}
use contexide.HashMap
use contexide.HashMap.{HashMap, get-insert}
use contexide.Workflow.Dag.{
  DagNode, Dag, DagValidationError, duplicate_node_key, build_index, build_index_from,
}

abbrev pub keys : List DagNode → List String
keys = map (λ node. node.key)

-- The map takes a key to the place where it stands.
abbrev pub Indexes : HashMap String ℕ → List String → Type 0
Indexes idx ks = (k : String) (j : ℕ) → (HashMap.get k idx ≡ some j) ↔ (get_elem? ks j ≡ some k)

-- No two places hold the same key.
abbrev pub IsDistinct : List String → Type 0
IsDistinct ks = (i j : ℕ) (k : String) → get_elem? ks i ≡ some k → get_elem? ks j ≡ some k → i ≡ j

pub Indexes-IsDistinct :
    (idx : HashMap String ℕ) (ks : List String) → Indexes idx ks → IsDistinct ks
Indexes-IsDistinct idx ks h i j k a b = ground (arith, (h k i).1 a, (h k j).1 b)

Indexes-insert :
    (idx : HashMap String ℕ) (ks : List String) (key : String)
    → Indexes idx ks
    → HashMap.get key idx ≡ none
    → Indexes (HashMap.insert key (length ks) idx) (ks ++ key ∷ [])
Indexes-insert idx ks key h new k j = (
  λ e. ground (
    arith,
    get-insert key k (length ks) idx,
    get_elem?-concat ks key j,
    ==_iff key k,
    (h k j).0,
    get_elem?-lt ks j {a = k},
  ),
  λ e.
      ground (
        arith,
        get-insert key k (length ks) idx,
        get_elem?-concat ks key j,
        ==_iff key k,
        (h k j).1,
      ),
)

-- What is known of the loop's result, with `ks` the keys of all nodes.
abbrev pub Indexed : List String → Result DagValidationError (HashMap String ℕ) → Type 0
Indexed ks (ok idx) = Indexes idx ks
Indexed ks (err e) =
    (key : String) × (e ≡ duplicate_node_key key)
    × (i : ℕ) × (j : ℕ) × (i < j)
    × (get_elem? ks i ≡ some key)
    × (get_elem? ks j ≡ some key)

-- `ks` are the keys that are already in the map.
build_index_from-Indexed :
    (nodes : List DagNode) (ks all : List String) (n : ℕ) (idx : HashMap String ℕ)
    → all ≡ ks ++ keys nodes
    → n ≡ length ks
    → Indexes idx ks
    → Indexed all (build_index_from n idx nodes)
unfolding build_index_from
build_index_from-Indexed [] ks all n idx split size h = rw (split, append-nil) h
build_index_from-Indexed (node ∷ rest) ks all n idx split size h =
    elim (Option-cases (HashMap.get node.key idx)) [
      | inl new ↦
          rw (new, build_index_from)
            (build_index_from-Indexed rest (ks ++ node.key ∷ []) all (n + 1)
              (HashMap.insert node.key n idx)
              (split ∙ sym (append_assoc ks (node.key ∷ []) (keys rest)))
              (omega (arith, length-append ks (node.key ∷ [])))
              (rw size (Indexes-insert idx ks node.key h new)))
      | inr (prev, old) ↦
          rw (old, build_index_from, split)
            (
              node.key,
              refl,
              prev,
              length ks,
              get_elem?-lt ks prev ((h node.key prev).0 old),
              get_elem?-append_left ks (keys (node ∷ rest)) prev ((h node.key prev).0 old),
              get_elem?-append_length ks (keys rest) node.key,
            )
    ]

pub build_index-Indexed : (dag : Dag) → Indexed (keys dag.nodes) (build_index dag)
unfolding build_index
build_index-Indexed dag =
    build_index_from-Indexed dag.nodes [] (keys dag.nodes) 0 [] refl refl
      (λ k j. unfold HashMap.get in (λ e. cc, λ e. cc))

pub Indexes-build_index :
    (dag : Dag) (idx : HashMap String ℕ) → build_index dag ≡ ok idx → Indexes idx (keys dag.nodes)
Indexes-build_index dag idx e = rw e at (build_index-Indexed dag)

-- `build_index` succeeds exactly if no key is repeated.
pub build_index-iff-IsDistinct :
    (dag : Dag)
    → ((idx : HashMap String ℕ) × (build_index dag ≡ ok idx)) ↔ IsDistinct (keys dag.nodes)
build_index-iff-IsDistinct dag = (
  λ (idx, e). Indexes-IsDistinct idx (keys dag.nodes) (Indexes-build_index dag idx e),
  λ distinct. from_result (build_index dag) refl (build_index-Indexed dag) distinct,
)
  where
    from_result :
        (r : Result DagValidationError (HashMap String ℕ))
        → build_index dag ≡ r
        → Indexed (keys dag.nodes) r
        → IsDistinct (keys dag.nodes)
        → (idx : HashMap String ℕ) × (build_index dag ≡ ok idx)
    from_result (ok idx) e h distinct = (idx, e)
    from_result (err x) e (key, _, i, j, below, a, b) distinct =
        absurd (omega (arith, distinct i j key a b))
