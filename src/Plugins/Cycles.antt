-- ===== src/Plugins/Cycles.antt =====
-- services/integration/plugin_sdk/plugin_validator.py: `_find_cycles`, the whole of
-- `build_dependency_graph`, and `validate_all`. The set `on_path` has the nodes of `path`, and a set of
-- sorted cycles is searched in place of a set of tuples.
use vision_virtual_intellige.Prelude.{
  ℕ, zero, suc, String, ◌==◌, Bool, true, false, not, ◌&&◌, Option, none, some, List, [], ◌∷◌, ◌++◌,
  if◌then◌else◌, ltb, length, or_default, any, contains, difference, sorted, Dict, lookup, insert,
}
use vision_virtual_intellige.Metrics.{neighbours}
use vision_virtual_intellige.Plugins.Models.{PluginManifest}
use vision_virtual_intellige.Plugins.Validator.{
  ValidationIssue, ValidationResult, error_of, is_error, validate_manifest, validate_duplicate_ids,
}
use vision_virtual_intellige.Plugins.LoadOrder.{ids_of, dependency_graph, load_order}

-- What the search changes: `visited` and `cycles`.
pub record CycleSearch : Type 0 where
  pub visited : List String
  pub cycles : List (List String)

-- `path[path.index(node):]`
abbrev pub suffix_from : String → List String → List String
suffix_from node [] = []
suffix_from node (x ∷ path) = if node == x then x ∷ path else suffix_from node path

abbrev same_texts : List String → List String → Bool
same_texts [] [] = true
same_texts (x ∷ xs) (y ∷ ys) = x == y && same_texts xs ys
same_texts xs ys = false

abbrev pub is_reported : List String → List (List String) → Bool
is_reported cycle cycles = any (λ c. same_texts (sorted c) (sorted cycle)) cycles

-- A cycle is reported once, whichever of its nodes it starts with.
abbrev pub report_cycle : List String → CycleSearch → CycleSearch
report_cycle cycle s =
    if is_reported cycle s.cycles then s else record s { cycles = s.cycles ++ cycle ∷ [] }

-- One visit after another.
abbrev pub and_then : Option CycleSearch → (CycleSearch → Option CycleSearch) → Option CycleSearch
and_then none visit = none
and_then (some s) visit = visit s

-- The `for neighbor in …` loop; `none` means that the fuel ran out.
unfoldable pub visit_each :
    (String → CycleSearch → Option CycleSearch)
    → List String
    → List String
    → CycleSearch
    → Option CycleSearch
visit_each visit unresolved [] s = some s
visit_each visit unresolved (neighbor ∷ neighbors) s =
    if contains neighbor unresolved
    then and_then (visit neighbor s) (visit_each visit unresolved neighbors)
    else visit_each visit unresolved neighbors s

unfoldable pub dfs :
    ℕ → List String → Dict (List String) → String → List String → CycleSearch → Option CycleSearch
unfolding visit_each
dfs zero unresolved edges node path s = none
dfs (suc fuel) unresolved edges node path s =
    let deeper =
      visit_each (λ neighbor. dfs fuel unresolved edges neighbor (path ++ node ∷ [])) unresolved
        (sorted (neighbours edges node)) (record s { visited = s.visited ++ node ∷ [] }) in
    if contains node path
    then some (report_cycle (suffix_from node path) s)
    else if contains node s.visited
    then some s
    else deeper

-- The last loop; each node is visited at most once below it.
unfoldable pub search_from :
    ℕ → List String → Dict (List String) → List String → CycleSearch → Option CycleSearch
unfolding dfs
search_from fuel unresolved edges [] s = some s
search_from fuel unresolved edges (node ∷ nodes) s =
    if contains node s.visited
    then search_from fuel unresolved edges nodes s
    else and_then (dfs fuel unresolved edges node [] s) (search_from fuel unresolved edges nodes)

unfoldable pub find_cycles : List String → Dict (List String) → Option CycleSearch
unfolding search_from
find_cycles unresolved edges =
    search_from (suc (length unresolved)) unresolved edges (sorted unresolved)
      (record { visited = []; cycles = [] })

pub record DependencyGraphResult : Type 0 where
  pub order : List String
  pub cycles : List (List String)
  pub missing_dependencies : Dict (List String)

-- `cycles`, or none where the search runs out of fuel.
abbrev pub cycles_of : Option CycleSearch → Option (List (List String))
cycles_of none = none
cycles_of (some s) = some s.cycles

abbrev pub graph_result :
    List String → Dict (List String) → Option (List (List String)) → Option DependencyGraphResult
graph_result order missing none = none
graph_result order missing (some cycles) =
    some (record { order = order; cycles = cycles; missing_dependencies = missing })

-- After the loop that makes the order: the cycles are searched if it is short.
abbrev pub with_cycles : List PluginManifest → Option (List String) → Option DependencyGraphResult
with_cycles manifests none = none
with_cycles manifests (some order) =
    let g = dependency_graph manifests in
    graph_result order g.missing (
      if ltb (length order) (length manifests)
      then cycles_of (find_cycles (sorted (difference (ids_of manifests) order)) g.edges)
      else some [])

unfoldable pub build_dependency_graph : List PluginManifest → Option DependencyGraphResult
unfolding find_cycles
build_dependency_graph manifests = with_cycles manifests (load_order manifests)

-- An error for each missing dependency.
abbrev pub missing_issues : String → List String → List ValidationIssue
missing_issues plugin_id [] = []
missing_issues plugin_id (dep ∷ deps) =
    error_of "PLUGIN-MISSING-DEPENDENCY" plugin_id ∷ missing_issues plugin_id deps

-- An error for each cycle that the plugin is on.
abbrev pub cycle_issues : String → List (List String) → List ValidationIssue
cycle_issues plugin_id [] = []
cycle_issues plugin_id (cycle ∷ cycles) =
    let rest = cycle_issues plugin_id cycles in
    if contains plugin_id cycle then error_of "PLUGIN-CYCLIC-DEPENDENCY" plugin_id ∷ rest else rest

-- The result of one manifest, from its own issues.
abbrev pub result_of :
    Dict (List ValidationIssue)
    → DependencyGraphResult
    → String
    → List ValidationIssue
    → ValidationResult
result_of duplicate_issues graph id own =
    let issues =
      own
      ++ (or_default (lookup id duplicate_issues) []
          ++ (missing_issues id (neighbours graph.missing_dependencies id)
              ++ cycle_issues id graph.cycles)) in
    record { plugin_id = id; valid = not (any is_error issues); issues = issues }

-- The loop over the manifests, on `results`.
unfoldable pub validate_each :
    String
    → Dict (List ValidationIssue)
    → DependencyGraphResult
    → List PluginManifest
    → Dict ValidationResult
    → Dict ValidationResult
validate_each platform_api_version duplicate_issues graph [] results = results
validate_each platform_api_version duplicate_issues graph (m ∷ ms) results =
    validate_each platform_api_version duplicate_issues graph ms (
      insert m.id
        (result_of duplicate_issues graph m.id (validate_manifest m platform_api_version).issues)
        results)

abbrev pub validate_with :
    List PluginManifest → String → Option DependencyGraphResult → Option (Dict ValidationResult)
validate_with manifests platform_api_version none = none
validate_with manifests platform_api_version (some graph) =
    some (validate_each platform_api_version (validate_duplicate_ids manifests) graph manifests [])

unfoldable pub validate_all : List PluginManifest → String → Option (Dict ValidationResult)
unfolding validate_each
validate_all manifests platform_api_version =
    validate_with manifests platform_api_version (build_dependency_graph manifests)
