-- ===== src/Workflow/Dag.antt =====
-- crates/contexide-core/src/workflow/dag.rs: the DAG of a workflow, its validation and its order.
-- `usize` counters are plain numbers: none passes the number of nodes or edges of a DAG in memory.
mod Samples
mod Rounds
mod Loop
mod Finish
mod Keys
mod Edges
mod Positions
mod Outcome
pub mod Order
pub mod Validate
pub mod Acyclic
pub mod Roots
use contexide.Prelude.{
  ℕ, ℤ, zero, suc, ◌+◌, ◌-◌, String, Bool, true, false, Option, none, some, List, [], ◌∷◌, ◌++◌,
  map, Result, ok, err, ok_or, ◌>>=◌, ◌>>◌, if◌then◌else◌, eqb, string_eq, length, get_elem?,
  get_or, set, replicate,
}
use contexide.HashMap
use contexide.HashMap.{HashMap}

pub data TaskKind : Type 0 where
  ingest parse normalize chunk embed index : TaskKind

pub record DagNode : Type 0 where
  pub key : String
  pub kind : TaskKind
  pub label : Option String

pub record DagEdge : Type 0 where
  pub from : String
  pub to : String

pub record Dag : Type 0 where
  pub name : String
  pub version : ℤ
  pub nodes : List DagNode
  pub edges : List DagEdge

pub data DagValidationError : Type 0 where
  duplicate_node_key : String → DagValidationError
  missing_node : String → String → DagValidationError
  cycle : DagValidationError

abbrev pub Checked : Type 0 → Type 0
Checked = Result DagValidationError

-- The loop of `build_index`, from the node at place `i` on. The key is in the map before the
-- `insert` exactly if `insert` returns a previous value.
pub build_index_from : ℕ → HashMap String ℕ → List DagNode → Checked (HashMap String ℕ)
build_index_from i idx [] = ok idx
build_index_from i idx (node ∷ rest) = elim (HashMap.get node.key idx) [
  | some prev ↦ err (duplicate_node_key node.key)
  | none ↦ build_index_from (i + 1) (HashMap.insert node.key i idx) rest
]

pub build_index : Dag → Checked (HashMap String ℕ)
build_index dag = build_index_from 0 [] dag.nodes

-- `adj` and `indegree`.
pub record Graph : Type 0 where
  pub adj : List (List ℕ)
  pub indegree : List ℕ

abbrev pub endpoint : HashMap String ℕ → DagEdge → String → Checked ℕ
endpoint idx edge key = ok_or (missing_node edge.from edge.to) (HashMap.get key idx)

abbrev pub connect : Graph → ℕ → ℕ → Graph
connect g from_ix to_ix = record {
  adj = set g.adj from_ix (get_or g.adj from_ix [] ++ to_ix ∷ []);
  indegree = set g.indegree to_ix (get_or g.indegree to_ix 0 + 1);
}

pub add_edge : HashMap String ℕ → Graph → DagEdge → Checked Graph
add_edge idx g edge = do
  from_ix ← endpoint idx edge edge.from
  to_ix ← endpoint idx edge edge.to
  ok (connect g from_ix to_ix)

pub add_edges : HashMap String ℕ → Graph → List DagEdge → Checked Graph
add_edges idx g [] = ok g
add_edges idx g (edge ∷ rest) = do g' ← add_edge idx g edge; add_edges idx g' rest

abbrev pub unlinked : ℕ → Graph
unlinked n = record { adj = replicate n []; indegree = replicate n 0 }

-- The adjacency lists and the indegrees, as `validate` and `topo_order` both build them.
pub build_graph : Dag → Checked Graph
build_graph dag = do idx ← build_index dag; add_edges idx (unlinked (length dag.nodes)) dag.edges

-- The places from `i` on whose indegree is zero.
pub initial_queue : ℕ → List ℕ → List ℕ
initial_queue i [] = []
initial_queue i (deg ∷ rest) =
    let later = initial_queue (i + 1) rest in if eqb deg 0 then i ∷ later else later

-- The variables of the `while` loop of `topo_order`.
pub record Kahn : Type 0 where
  pub indegree : List ℕ
  pub queue : List ℕ
  pub order : List ℕ

-- The body of `for &v in &adj[u]`.
pub release : Kahn → ℕ → Kahn
release s v =
    let deg = get_or s.indegree v 0 - 1 in
    record s {
      indegree = set s.indegree v deg;
      queue = if eqb deg 0 then s.queue ++ v ∷ [] else s.queue;
    }

pub release_all : Kahn → List ℕ → Kahn
release_all s [] = s
release_all s (v ∷ vs) = release_all (release s v) vs

-- One round, after `u` left the front of the queue.
pub round : List (List ℕ) → Kahn → ℕ → List ℕ → Kahn
round adj s u rest =
    release_all (record s { queue = rest; order = s.order ++ u ∷ [] }) (get_or adj u [])

-- `while let Some(u) = q.pop_front()`, for at most `fuel` rounds.
pub kahn : ℕ → List (List ℕ) → Kahn → Kahn
kahn zero adj s = s
kahn (suc fuel) adj s = elim s.queue [ [] ↦ s | u ∷ rest ↦ kahn fuel adj (round adj s u rest) ]

abbrev pub start : Graph → Kahn
start g = record { indegree = g.indegree; queue = initial_queue 0 g.indegree; order = [] }

abbrev pub key_at : List DagNode → ℕ → String
key_at nodes i = elim (get_elem? nodes i) [ some node ↦ node.key | none ↦ "" ]

-- What follows the loop of `topo_order`.
abbrev pub keys_in_order : Dag → List ℕ → Checked (List String)
keys_in_order dag order_ix =
    if eqb (length order_ix) (length dag.nodes)
    then ok (map (key_at dag.nodes) order_ix)
    else err cycle

pub topo_order : Dag → Checked (List String)
topo_order dag = elim dag.nodes [
  | [] ↦ ok []
  | _ ∷ _ ↦ do
    g ← build_graph dag
    keys_in_order dag (kahn (length dag.nodes) g.adj (start g)).order
]

-- The variables of the `while` loop of `validate`, which counts and keeps no order.
pub record Sweep : Type 0 where
  pub indegree : List ℕ
  pub queue : List ℕ
  pub seen : ℕ

relax : Sweep → ℕ → Sweep
relax s v =
    let deg = get_or s.indegree v 0 - 1 in
    record s {
      indegree = set s.indegree v deg;
      queue = if eqb deg 0 then s.queue ++ v ∷ [] else s.queue;
    }

relax_all : Sweep → List ℕ → Sweep
relax_all s [] = s
relax_all s (v ∷ vs) = relax_all (relax s v) vs

sweep : ℕ → List (List ℕ) → Sweep → Sweep
sweep zero adj s = s
sweep (suc fuel) adj s = elim s.queue [
  | [] ↦ s
  | u ∷ rest ↦
      sweep fuel adj (relax_all (record s { queue = rest; seen = s.seen + 1 }) (get_or adj u []))
]

pub validate : Dag → Checked (Unit {0})
validate dag = elim dag.nodes [
  | [] ↦ ok tt
  | _ ∷ _ ↦ do
    g ← build_graph dag
    let n = length dag.nodes
    let begin : Sweep = record {
      indegree = g.indegree;
      queue = initial_queue 0 g.indegree;
      seen = 0;
    }
    if eqb (sweep n g.adj begin).seen n then ok tt else err cycle
]

mark_edge : HashMap String ℕ → List Bool → DagEdge → List Bool
mark_edge idx incoming edge = elim (HashMap.get edge.to idx) [
  | some to_ix ↦ set incoming to_ix true
  | none ↦ incoming
]

mark_edges : HashMap String ℕ → List Bool → List DagEdge → List Bool
mark_edges idx incoming [] = incoming
mark_edges idx incoming (edge ∷ rest) = mark_edges idx (mark_edge idx incoming edge) rest

-- The `filter_map` over `nodes` with the flags beside them.
unmarked : List DagNode → List Bool → List DagNode
unmarked [] flags = []
unmarked (node ∷ nodes) [] = []
unmarked (node ∷ nodes) (flag ∷ flags) =
    let rest = unmarked nodes flags in if flag then rest else node ∷ rest

pub roots : Dag → List DagNode
roots dag = elim (build_index dag) [
  | ok idx ↦ unmarked dag.nodes (mark_edges idx (replicate (length dag.nodes) false) dag.edges)
  | err _ ↦ []
]
