-- ===== src/Workflows/Analysis.antt =====
-- services/integration/lifecycle.py. A set of nodes is a list, read by membership. What building and
-- inspecting a graph gives is an argument, as is the source text of its module: none where there is
-- no module, "" where its source cannot be read.
use Prim.Native.String.{◌++◌ as str_append}
use vision_virtual_intellige.Prelude.{
  ℕ, String, starts_with, Bool, true, false, not, ◌&&◌, ◌||◌, Option, none, some, List, [], ◌∷◌,
  ◌++◌, if◌then◌else◌, or_default, length, is_empty, keep_if, contains, to_set, difference, sorted,
  Dict, insert,
}
use vision_virtual_intellige.Metrics.{start_node, end_node, Edge, build_adjacency, bfs_reachable}

pub record GraphAnalysis : Type 0 where
  pub name : String
  pub built : Bool
  pub error : Option String
  pub node_count : ℕ
  pub edge_count : ℕ
  pub unreachable_nodes : List String
  pub dead_end_nodes : List String
  pub likely_dynamic_dispatch_nodes : List String
  pub end_reachable : Bool
  pub passed : Bool

-- What `builder(…)` and `compiled.get_graph()` come to: either raises, or there are nodes and edges.
pub data Inspected : Type 0 where
  build_error introspection_error : String → Inspected
  inspected : List String → List Edge → Inspected

-- `needle in s`
abbrev pub occurs : String → String → Bool
occurs needle String.[] = starts_with String.[] needle
occurs needle (String.◌∷◌ c s) = starts_with (String.◌∷◌ c s) needle || occurs needle s

-- The name between two quotes.
abbrev quoted : String → String → String
quoted quote name = str_append quote (str_append name quote)

unfoldable pub is_likely_send_target : String → String → Bool
is_likely_send_target node source =
    if not (occurs "Send(" source)
    then false
    else occurs (quoted "\"" node) source
      || occurs (quoted "'" node) source
      || occurs (quoted "\"" (str_append node "_node")) source
      || occurs (quoted "'" (str_append node "_node")) source

-- `_bfs(adj, start) if start in nodes else set()`; the search is the one of graph_metrics.py.
unfoldable pub reach_from : Dict (List String) → String → List String → List String
reach_from adj start nodes =
    if contains start nodes then or_default (bfs_reachable adj start) [] else []

-- The nodes that a `Send` may reach, among the candidates.
abbrev pub likely_among : Option String → List String → List String
likely_among none candidates = []
likely_among (some source) candidates =
    sorted (keep_if (λ n. is_likely_send_target n source) candidates)

abbrev failed_analysis : String → Bool → String → GraphAnalysis
failed_analysis name built error = record {
  name = name;
  built = built;
  error = some error;
  node_count = 0;
  edge_count = 0;
  unreachable_nodes = [];
  dead_end_nodes = [];
  likely_dynamic_dispatch_nodes = [];
  end_reachable = false;
  passed = false;
}

unfoldable pub analyze_graph : String → Inspected → Option String → GraphAnalysis
unfolding reach_from
analyze_graph name (Inspected.build_error error) source = failed_analysis name false error
analyze_graph name (Inspected.introspection_error error) source =
    failed_analysis name true (str_append "graph introspection failed: " error)
analyze_graph name (Inspected.inspected nodes edges) source =
    let (adj, radj) = build_adjacency edges in
    let reach_from_start = reach_from adj start_node nodes in
    let can_reach_end = reach_from radj end_node nodes in
    let unreachable = difference nodes reach_from_start in
    let dead_end = difference (difference nodes (end_node ∷ [])) can_reach_end in
    let likely_dynamic = likely_among source (to_set (unreachable ++ dead_end)) in
    let real_unreachable = sorted (difference unreachable likely_dynamic) in
    let real_dead_end = sorted (difference dead_end likely_dynamic) in
    record {
      name = name;
      built = true;
      error = none;
      node_count = length (to_set nodes);
      edge_count = length edges;
      unreachable_nodes = real_unreachable;
      dead_end_nodes = real_dead_end;
      likely_dynamic_dispatch_nodes = likely_dynamic;
      end_reachable = contains end_node reach_from_start;
      passed =
          is_empty real_unreachable
          && (is_empty real_dead_end
              && (contains end_node nodes
                  && (contains end_node reach_from_start || is_empty nodes)));
    }

-- An entry of the registry: none for a builder that could not be imported.
pub record RegistryEntry : Type 0 where
  pub name : String
  pub builder : Option Inspected
  pub source : Option String
  pub import_error : Option String

abbrev entry_analysis : RegistryEntry → Option Inspected → GraphAnalysis
entry_analysis entry none =
    failed_analysis entry.name false (or_default entry.import_error "unknown import error")
entry_analysis entry (some graph) = analyze_graph entry.name graph entry.source

-- The loop over the registry, on `results`.
abbrev analyze_entries : List RegistryEntry → Dict GraphAnalysis → Dict GraphAnalysis
analyze_entries [] results = results
analyze_entries (entry ∷ entries) results =
    analyze_entries entries (insert entry.name (entry_analysis entry entry.builder) results)

unfoldable pub validate_all_workflows : List RegistryEntry → Dict GraphAnalysis
validate_all_workflows entries = analyze_entries entries []
