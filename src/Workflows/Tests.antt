-- ===== src/Workflows/Tests.antt =====
-- services/integration/lifecycle.py: a graph with a node that only a `Send` reaches.
use vision_virtual_intellige.Prelude.{
  ◌≡◌, refl, String, true, false, ◌↔◌, none, some, List, [], ◌∷◌, contains, sorted,
}
use vision_virtual_intellige.Metrics.{
  start_node, end_node, Edge, neighbours, append_to, add_edges, build_adjacency, offer, bfs_loop,
  bfs_reachable,
}
use vision_virtual_intellige.Metrics.Reach.{Reachable}
use vision_virtual_intellige.Workflows.{
  Inspected, is_likely_send_target, reach_from, analyze_graph, validate_all_workflows,
}
use vision_virtual_intellige.Workflows.Passed.{is_likely, analyze_graph-passed}

abbrev nodes : List String
nodes = start_node ∷ "plan" ∷ "worker" ∷ end_node ∷ []

abbrev edges : List Edge
edges = (start_node, "plan") ∷ ("plan", end_node) ∷ ("worker", end_node) ∷ []

abbrev sends : String
sends = "return [Send(\"worker\", state)]"

program : Unit {0}
unfolding analyze_graph is_likely_send_target reach_from build_adjacency add_edges append_to
    neighbours bfs_reachable bfs_loop offer sorted validate_all_workflows
program = tt

unreached :
    (analyze_graph "w" (Inspected.inspected nodes edges) none).unreachable_nodes ≡ "worker" ∷ []
unfolding program
unreached = refl

sent : (analyze_graph "w" (Inspected.inspected nodes edges) (some sends)).passed ≡ true
unfolding program
sent = refl

not_imported :
    validate_all_workflows
      (record { name = "w"; builder = none; source = none; import_error = none } ∷ [])
    ≡ (
      "w",
      record {
        name = "w";
        built = false;
        error = some "unknown import error";
        node_count = 0;
        edge_count = 0;
        unreachable_nodes = [];
        dead_end_nodes = [];
        likely_dynamic_dispatch_nodes = [];
        end_reachable = false;
        passed = false;
      },
    )
      ∷ []
unfolding program
not_imported = refl

analyze_graph-passed_example :
    let adj = (build_adjacency edges).0 in
    ((analyze_graph "w" (Inspected.inspected nodes edges) (some sends)).passed ≡ true) ↔ (
      (contains start_node nodes ≡ true)
      × (contains end_node nodes ≡ true)
      × Reachable adj start_node end_node
      × ((n : String)
          → contains n nodes ≡ true
          → is_likely (some sends) n ≡ false
          → Reachable adj start_node n × Reachable adj n end_node))
analyze_graph-passed_example = analyze_graph-passed "w" nodes edges (some sends)
