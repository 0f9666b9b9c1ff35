-- ===== src/Plugins/LoadOrder/Missing.antt =====
-- services/integration/plugin_sdk/plugin_validator.py: the dependencies that are reported as missing.
use vision_virtual_intellige.Prelude.{
  ◌≡◌, String, ◌==◌, eq_iff, not, ◌&&◌, ◌||◌, List, [], ◌∷◌, arith, contains,
}
use vision_virtual_intellige.Metrics.{neighbours}
use vision_virtual_intellige.Metrics.Adjacency.{contains-append_to}
use vision_virtual_intellige.Plugins.Models.{PluginDependency, PluginManifest}
use vision_virtual_intellige.Plugins.LoadOrder.{
  DependencyGraph, ids_of, for_each_id, add_dependency, add_dependencies, add_manifests,
  dependency_graph,
}
use vision_virtual_intellige.Plugins.LoadOrder.Edges.{names, depends}

dependencies-missing :
    (known : List String) (id x u : String) (deps : List PluginDependency) (g : DependencyGraph)
    → contains u (neighbours (add_dependencies known id deps g).missing x) ≡ (
        not (contains u known) && (x == id && contains u (names deps))
        || contains u (neighbours g.missing x))
dependencies-missing known id x u [] g = ground arith
dependencies-missing known id x u (dep ∷ deps) g = ground (
  arith,
  dependencies-missing known id x u deps (add_dependency known id dep g),
  contains-append_to u x id dep.plugin_id g.missing,
  eq_iff u dep.plugin_id,
)

manifests-missing :
    (known : List String) (x u : String) (ms : List PluginManifest) (g : DependencyGraph)
    → contains u (neighbours (add_manifests known ms g).missing x)
      ≡ (not (contains u known) && depends x u ms || contains u (neighbours g.missing x))
manifests-missing known x u [] g = ground arith
manifests-missing known x u (m ∷ ms) g = ground (
  arith,
  manifests-missing known x u ms (add_dependencies known m.id m.dependencies g),
  dependencies-missing known m.id x u m.dependencies g,
  eq_iff x m.id,
  eq_iff m.id x,
)

-- The missing dependencies of a plugin are the ones that it declares and that no manifest has as its
-- id.
pub dependency_graph-missing :
    (ms : List PluginManifest) (x u : String)
    → contains u (neighbours (dependency_graph ms).missing x)
      ≡ (not (contains u (ids_of ms)) && depends x u ms)
unfolding dependency_graph neighbours
dependency_graph-missing ms x u = ground (
  arith,
  manifests-missing (ids_of ms) x u ms
      (record { missing = []; edges = for_each_id [] ms []; in_degree = for_each_id 0 ms [] }),
)
