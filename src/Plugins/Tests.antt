-- ===== src/Plugins/Tests.antt =====
-- services/integration/plugin_sdk: a small registry and a small manifest.
use vision_virtual_intellige.Prelude.{
  ◌≤◌, any, has_key, lookup, Dict, IsDistinct, Option, sorted, some, [], ◌∷◌, contains, String,
  List, false, true, refl, if◌then◌else◌, ◌-◌, nat_eq, inl, suc, ℕ, ◌≡◌, ◌&&◌, none,
}
use vision_virtual_intellige.Metrics.{neighbours, append_to}
use vision_virtual_intellige.Plugins.{
  split_dots, parse_version, PluginSourceType, PluginManifest, PluginRecord, new_record, install,
  list_hooks, PluginContext, HookFunction, ids_of, find_cycles, dfs, search_from, visit_each,
  CycleSearch, DependencyGraphResult, ValidationResult, build_dependency_graph, validate_all,
  dependency_graph, load_order, order_loop, order_round, release, PluginDependency, dispatch_hook,
  Permission, ExecutionPolicy, build_policy, is_allowed,
}
use vision_virtual_intellige.Plugins.Keyed.{Step, Reached}
use vision_virtual_intellige.Plugins.Discovery.{declares, test_of, list_hooks-declares}
use vision_virtual_intellige.Plugins.Dispatched.{dispatch_hook-publisher}
use vision_virtual_intellige.Plugins.LoadOrder.Edges.{depends}
use vision_virtual_intellige.Plugins.LoadOrder.Ordered.{LoadsAfter, load_order_lem}
use vision_virtual_intellige.Plugins.Validated.{occurrences}
use vision_virtual_intellige.Plugins.Cyclic.{AreCycles}
use vision_virtual_intellige.Plugins.AllValid.{build_dependency_graph-AreCycles, validate_all_lem}
use vision_virtual_intellige.Plugins.DefaultDeny.{can_grant, names, build_policy-is_allowed}

abbrev manifest : PluginManifest
manifest = record {
  id = "metrics";
  name = "Metrics";
  version = "1.0.0";
  author = "team";
  description = "";
  entrypoint = "metrics:main";
  api_version = "1.0.0";
  permissions = "read" ∷ "events" ∷ [];
  dependencies = [];
  hooks = "startup" ∷ "after_workflow" ∷ [];
}

abbrev row : PluginRecord
row = new_record "1" "1" manifest PluginSourceType.editable none true

abbrev plugins : Dict PluginRecord
plugins = ("metrics", row) ∷ []

one_plugin : Reached plugins
unfolding install
one_plugin =
    Reached.after Reached.created
      (Step.installed "1" "1" manifest PluginSourceType.editable none true {r = row} refl)

list_hooks-declares_example :
    contains "metrics" (neighbours (list_hooks true plugins) "startup")
    ≡ test_of (declares (λ m. m.hooks) true "startup") (lookup "metrics" plugins)
list_hooks-declares_example = list_hooks-declares true "metrics" "startup" one_plugin

abbrev no_plugins : Dict PluginRecord
no_plugins = []

abbrev as_is : String → String
as_is raw = raw

build_policy-is_allowed_example :
    is_allowed {L = ℕ}
      (build_policy as_is 10 "1" "metrics" ("read" ∷ "network" ∷ []) ExecutionPolicy.process none)
      Permission.network
    ≡ (can_grant ExecutionPolicy.process Permission.network
        && names as_is Permission.network ("read" ∷ "network" ∷ []))
build_policy-is_allowed_example =
    build_policy-is_allowed as_is 10 "1" "metrics" ("read" ∷ "network" ∷ []) ExecutionPolicy.process
      none Permission.network

parsed : (parse_version "12.3-rc1" ≡ (12, 31, 0)) × (parse_version "v2" ≡ (2, 0, 0))
unfolding parse_version split_dots
parsed = (refl, refl)

-- A module is a number; the hook function of module 1 raises, the others have none.
abbrev attribute : ℕ → String → Option (HookFunction ℕ ℕ ℕ ℕ ℕ ℕ ℕ ℕ)
attribute loaded hook =
    if nat_eq loaded 1 then some (λ context world. (suc world, inl "boom")) else none

abbrev clock : ℕ → ℕ → ℕ × String
clock before after = (after - before, "now")

abbrev context : PluginContext ℕ ℕ ℕ ℕ ℕ ℕ
context = record {
  logger = 0;
  config = [];
  repository = some 1;
  artifact_manager = some 2;
  event_publisher = some 3;
  runtime = none;
  settings = [];
}

abbrev row_of : String → PluginRecord
row_of id = record row { manifest = record manifest { id = id; permissions = "read" ∷ [] } }

abbrev rows : List PluginRecord
rows = row_of "a" ∷ row_of "b" ∷ row_of "c" ∷ []

abbrev modules : Dict ℕ
modules = ("a", 1) ∷ ("b", 2) ∷ ("c", 1) ∷ []

dispatch_hook-publisher_example :
    dispatch_hook attribute clock "startup" rows modules
      (record context { event_publisher = none })
      0
    ≡ dispatch_hook attribute clock "startup" rows modules context 0
dispatch_hook-publisher_example =
    dispatch_hook-publisher attribute clock "startup" modules rows context none 0 refl

abbrev needs : List String → List PluginDependency
needs [] = []
needs (id ∷ ids) = record { plugin_id = id; version_constraint = none } ∷ needs ids

abbrev needing : String → List String → PluginManifest
needing id ids = record manifest { id = id; dependencies = needs ids }

-- Two plugins in order, and two that wait for each other.
abbrev plugin_set : List PluginManifest
plugin_set =
    needing "ui" ("core" ∷ "theme" ∷ [])
    ∷ needing "core" []
    ∷ needing "x" ("y" ∷ [])
    ∷ needing "y" ("x" ∷ [])
    ∷ []

core_first : load_order plugin_set ≡ some ("core" ∷ "ui" ∷ [])
unfolding load_order dependency_graph order_loop order_round release sorted append_to neighbours
core_first = refl

load_order_lem_example :
    (order : List String) × (load_order plugin_set ≡ some order)
    × IsDistinct order
    × ((v : String) → contains v order ≡ true → contains v (ids_of plugin_set) ≡ true)
    × LoadsAfter plugin_set [] order
    × ((v : String)
        → contains v (ids_of plugin_set) ≡ true
        → contains v order ≡ false
        → (u : String) × (depends v u plugin_set ≡ true)
          × (contains u (ids_of plugin_set) ≡ true)
          × (contains u order ≡ false))
load_order_lem_example = load_order_lem plugin_set

abbrev cycles_found : Option CycleSearch → List (List String)
cycles_found none = []
cycles_found (some found) = found.cycles

two_wait :
    cycles_found (find_cycles ("x" ∷ "y" ∷ []) (("x", "y" ∷ []) ∷ ("y", "x" ∷ []) ∷ []))
    ≡ ("x" ∷ "y" ∷ []) ∷ []
unfolding find_cycles search_from dfs visit_each neighbours sorted
two_wait = refl

build_dependency_graph-AreCycles_example :
    (g : DependencyGraphResult) × (build_dependency_graph plugin_set ≡ some g)
    × (load_order plugin_set ≡ some g.order)
    × (g.missing_dependencies ≡ (dependency_graph plugin_set).missing)
    × AreCycles (dependency_graph plugin_set).edges g.cycles
build_dependency_graph-AreCycles_example = build_dependency_graph-AreCycles plugin_set

validate_all_lem_example :
    (g : DependencyGraphResult) × (results : Dict ValidationResult) × (build_dependency_graph
        plugin_set
      ≡ some g)
    × (validate_all plugin_set "1.0.0" ≡ some results)
    × ((id : String) → has_key id results ≡ contains id (ids_of plugin_set))
    × ((id : String) (r : ValidationResult)
        → lookup id results ≡ some r
        → r.valid ≡ true
        → (occurrences id plugin_set ≤ 1)
          × ((u : String) → depends id u plugin_set ≡ true → contains u (ids_of plugin_set) ≡ true)
          × (any (contains id) g.cycles ≡ false))
validate_all_lem_example = validate_all_lem plugin_set "1.0.0"
