-- ===== src/Metrics/Tests.antt =====
-- Runs of services/integration/diagnostics/graph_metrics.py, and its theorems at concrete inputs.
use vision_virtual_intellige.Prelude.{
  ◌≡◌, refl, String, List, true, some, [], ◌∷◌, contains, sorted,
}
use vision_virtual_intellige.Metrics.{
  Edge, start_node, end_node, neighbours, append_to, add_edges, build_adjacency, offer, bfs_loop,
  bfs_reachable, touched, isolated_nodes, dead_end_count,
}
use vision_virtual_intellige.Metrics.Reach.{Reachable, bfs_reachable-exact}

abbrev nodes : List String
nodes = start_node ∷ "plan" ∷ "build" ∷ "orphan" ∷ end_node ∷ []

abbrev edges : List Edge
edges = (start_node, "plan") ∷ ("plan", "build") ∷ ("build", "plan") ∷ ("build", end_node) ∷ []

program : Unit {0}
unfolding build_adjacency add_edges append_to neighbours bfs_reachable bfs_loop offer isolated_nodes
    touched sorted dead_end_count
program = tt

bfs_run :
    bfs_reachable (build_adjacency edges).0 start_node
    ≡ some (end_node ∷ "build" ∷ "plan" ∷ start_node ∷ [])
unfolding program
bfs_run = refl

isolated_run : isolated_nodes nodes edges ≡ "orphan" ∷ []
unfolding program
isolated_run = refl

dead_end_run : dead_end_count nodes edges end_node ≡ 1
unfolding program
dead_end_run = refl

abbrev graph : List (String × List String)
graph = ("a", "b" ∷ "c" ∷ []) ∷ ("b", "a" ∷ []) ∷ ("d", "a" ∷ []) ∷ []

bfs_reachable-exact_example :
    (found : List String) × (bfs_reachable graph "a" ≡ some found)
    × ((x : String) → (contains x found ≡ true → Reachable graph "a" x))
    × ((x : String) → (Reachable graph "a" x → contains x found ≡ true))
bfs_reachable-exact_example = bfs_reachable-exact graph "a"
