-- ===== src/Workflow/Dag/Samples.antt =====
-- Small DAGs, as in the tests of dag.rs, and what the code does on them.
use contexide.Prelude.{
  ◌≡◌, ◌≢◌, ◌↔◌, ◌<◌, refl, String, none, List, [], ◌∷◌, Memᴰ, pos, ok, err, ◌>>=◌, length,
}
use contexide.HashMap.{get, insert}
use contexide.Workflow.Dag.{
  DagNode, DagEdge, Dag, TaskKind, ingest, parse, chunk, cycle, topo_order, validate, roots,
  build_index, build_index_from, build_graph, add_edge, add_edges, initial_queue, release,
  release_all, round, kahn, relax, relax_all, sweep, mark_edge, mark_edges, unmarked,
}
use contexide.Workflow.Dag.Keys.{keys, IsDistinct}
use contexide.Workflow.Dag.Order.{topo_order_complete, topo_order-before}
use contexide.Workflow.Dag.Validate.{validate-eq-topo_order}
use contexide.Workflow.Dag.Roots.{roots_iff}
use contexide.Workflow.Dag.Acyclic.{IsAcceptable, validate-iff-IsAcceptable}

abbrev pub node : String → TaskKind → DagNode
node key kind = record { key = key; kind = kind; label = none }

abbrev pub edge : String → String → DagEdge
edge from to = record { from = from; to = to }

abbrev pub dag_of : List DagNode → List DagEdge → Dag
dag_of nodes edges = record { name = "sample"; version = pos 1; nodes = nodes; edges = edges }

abbrev pub simple : Dag
simple =
    dag_of (node "chunk" chunk ∷ node "ingest" ingest ∷ node "parse" parse ∷ [])
      (edge "ingest" "parse" ∷ edge "parse" "chunk" ∷ [])

abbrev pub looped : Dag
looped = dag_of (node "a" ingest ∷ node "b" parse ∷ []) (edge "a" "b" ∷ edge "b" "a" ∷ [])

-- A line that unfolds `program` unfolds all that a run calls.
program : Unit {0}
unfolding get insert build_index build_index_from build_graph add_edge add_edges initial_queue
    release release_all round kahn relax relax_all sweep mark_edge mark_edges unmarked topo_order
    validate roots
program = tt

pub topo_order-simple : topo_order simple ≡ ok ("ingest" ∷ "parse" ∷ "chunk" ∷ [])
unfolding program
topo_order-simple = refl

-- The theorems at these DAGs.
abbrev ordered : List String
ordered = "ingest" ∷ "parse" ∷ "chunk" ∷ []

topo_order_complete_example :
    (length ordered ≡ length simple.nodes)
    × IsDistinct ordered
    × ((k : String) → Memᴰ k ordered ↔ Memᴰ k (keys simple.nodes))
topo_order_complete_example = topo_order_complete simple ordered topo_order-simple

topo_order-before_example : 1 < 2
topo_order-before_example =
    topo_order-before simple ordered (edge "parse" "chunk") 1 2 topo_order-simple
      (Memᴰ.tail (Memᴰ.head refl)) refl refl

validate-iff-IsAcceptable_example : (validate looped ≡ ok tt) ↔ IsAcceptable looped
validate-iff-IsAcceptable_example = validate-iff-IsAcceptable looped

validate-eq-topo_order_example : validate looped ≡ (topo_order looped >>= λ _. ok tt)
validate-eq-topo_order_example = validate-eq-topo_order looped

topo_order-looped : topo_order looped ≡ err cycle
unfolding program
topo_order-looped = refl

validate-simple : validate simple ≡ ok tt
unfolding program
validate-simple = refl

roots-simple : roots simple ≡ node "ingest" ingest ∷ []
unfolding program
roots-simple = refl

roots_iff_example : Memᴰ (node "ingest" ingest) (roots simple) ↔ (
    IsDistinct (keys simple.nodes)
    × Memᴰ (node "ingest" ingest) simple.nodes
    × ((e : DagEdge) → Memᴰ e simple.edges → e.to ≢ "ingest"))
roots_iff_example = roots_iff simple (node "ingest" ingest)
