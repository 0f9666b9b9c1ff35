-- ===== src/Plugins/LoadOrder/Edges.antt =====
-- services/integration/plugin_sdk/plugin_validator.py: an edge for each dependency that is installed, and
-- a degree for each plugin.
use vision_virtual_intellige.Prelude.{
  ℕ, ◌+◌, ◌<◌, ◌≡◌, refl, sym, ◌∙◌, String, ◌==◌, eq_iff, Bool, true, false, ◌&&◌, ◌||◌, List, [],
  ◌∷◌, ◌++◌, arith, ltb, any, contains, IsDistinct, keys, has_key, Dict, has_key-insert, IsSubset,
  Bool-cases, inl, inr,
}
use vision_virtual_intellige.Metrics.{neighbours, append_to}
use vision_virtual_intellige.Metrics.Adjacency.{contains-append_to}
use vision_virtual_intellige.Plugins.Models.{PluginDependency, PluginManifest}
use vision_virtual_intellige.Plugins.LoadOrder.{
  DependencyGraph, degree, ids_of, for_each_id, add_dependency, add_dependencies, add_manifests,
  dependency_graph,
}
use vision_virtual_intellige.Plugins.LoadOrder.Pending.{pending, pending-append_to, pending-source}
use vision_virtual_intellige.Plugins.LoadOrder.Released.{degree-insert}
use vision_virtual_intellige.Plugins.LoadOrder.Built.{
  insert-IsDistinct, for_each_id-IsDistinct, has_key-for_each_id, degree-for_each_id,
  fresh_dependents,
}

abbrev pub names : List PluginDependency → List String
names [] = []
names (dep ∷ deps) = dep.plugin_id ∷ names deps

-- A manifest of the plugin `x` names `u` among its dependencies.
abbrev pub depends : String → String → List PluginManifest → Bool
depends x u ms = any (λ m. m.id == x && contains u (names m.dependencies)) ms

-- What holds of the graph while dependencies are added.
pub record IsCounted (known : List String) (g : DependencyGraph) : Type 0 where
  pub once : IsDistinct (keys g.edges)
  pub sources : (u : String) → has_key u g.edges ≡ contains u known
  pub targets_known : (v : String) → 0 < pending g.edges [] v → contains v known ≡ true
  pub degrees : (v : String) → degree g.in_degree v ≡ pending g.edges [] v
  pub rows_once : IsDistinct (keys g.in_degree)
  pub rows : (v : String) → has_key v g.in_degree ≡ contains v known

add_dependency-IsCounted :
    (known : List String) (id : String) (dep : PluginDependency) (g : DependencyGraph)
    → contains id known ≡ true
    → IsCounted known g
    → IsCounted known (add_dependency known id dep g)
unfolding append_to
add_dependency-IsCounted known id dep g at counted =
    elim (Bool-cases (contains dep.plugin_id known)) [
      | inr absent ↦ rw absent (record {
        once = counted.once;
        sources = counted.sources;
        targets_known = counted.targets_known;
        degrees = counted.degrees;
        rows_once = counted.rows_once;
        rows = counted.rows;
      })
      | inl there ↦ rw there (record {
        once = insert-IsDistinct dep.plugin_id _ g.edges counted.once;
        sources = λ u. ground (
          arith,
          has_key-insert u dep.plugin_id (neighbours g.edges dep.plugin_id ++ id ∷ []) g.edges,
          counted.sources u,
          eq_iff u dep.plugin_id,
        );
        targets_known = λ v p. ground (
          arith,
          pending-append_to dep.plugin_id id v g.edges,
          counted.targets_known v,
          eq_iff v id,
        );
        degrees = λ v. ground (
          arith,
          pending-append_to dep.plugin_id id v g.edges,
          counted.degrees v,
          counted.degrees id,
          eq_iff v id,
          degree-insert v id (degree g.in_degree id + 1) g.in_degree,
        );
        rows_once = insert-IsDistinct id _ g.in_degree counted.rows_once;
        rows = λ v. ground (
          arith,
          has_key-insert v id (degree g.in_degree id + 1) g.in_degree,
          counted.rows v,
          eq_iff v id,
        );
      })
    ]

add_dependencies-IsCounted :
    (known : List String) (id : String) (deps : List PluginDependency) (g : DependencyGraph)
    → contains id known ≡ true
    → IsCounted known g
    → IsCounted known (add_dependencies known id deps g)
add_dependencies-IsCounted known id [] g at counted = counted
add_dependencies-IsCounted known id (dep ∷ deps) g at counted =
    add_dependencies-IsCounted known id deps (add_dependency known id dep g) at
      (add_dependency-IsCounted known id dep g at counted)

add_manifests-IsCounted :
    (known : List String) (ms : List PluginManifest) (g : DependencyGraph)
    → IsSubset (ids_of ms) known
    → IsCounted known g
    → IsCounted known (add_manifests known ms g)
add_manifests-IsCounted known [] g all counted = counted
add_manifests-IsCounted known (m ∷ ms) g all counted =
    add_manifests-IsCounted known ms (add_dependencies known m.id m.dependencies g)
      (λ x at. all x (ground arith))
      (add_dependencies-IsCounted known m.id m.dependencies g
        (all m.id (ground (arith, eq_iff m.id m.id))) counted)

no_neighbours : (u x : String) → contains x (neighbours [] u) ≡ false
unfolding neighbours
no_neighbours u x = refl

fresh-pending :
    (es : Dict (List String))
    → IsDistinct (keys es)
    → ((u x : String) → contains x (neighbours es u) ≡ false)
    → (v : String) → pending es [] v ≡ 0
fresh-pending es once none_there v = elim (Bool-cases (ltb 0 (pending es [] v))) [
  | inr no_edge ↦ ground arith
  | inl some_edge ↦
      let (u, at, apart, there) = pending-source v es [] once (ground arith) in
      ground (arith, at, none_there u v)
]

pub dependency_graph-IsCounted :
    (ms : List PluginManifest) → IsCounted (ids_of ms) (dependency_graph ms)
unfolding dependency_graph
dependency_graph-IsCounted ms =
    let edges = for_each_id [] ms [] in
    let once = for_each_id-IsDistinct {V = List String} [] ms [] tt in
    let no_edges = fresh-pending edges once (fresh_dependents ms [] no_neighbours) in
    add_manifests-IsCounted (ids_of ms) ms _ (λ x at. at)
      (record {
        once = once;
        sources = λ u. ground (arith, has_key-for_each_id {V = List String} u [] ms []);
        targets_known = λ v p. ground (arith, no_edges v);
        degrees = λ v. degree-for_each_id v ms [] (λ u. refl) ∙ sym (no_edges v);
        rows_once = for_each_id-IsDistinct 0 ms [] tt;
        rows = λ v. ground (arith, has_key-for_each_id {V = ℕ} v 0 ms []);
      })

-- The edges after the dependencies of one plugin.
dependencies-edges :
    (known : List String) (id x u : String) (deps : List PluginDependency) (g : DependencyGraph)
    → contains x (neighbours (add_dependencies known id deps g).edges u) ≡ (
        contains u known && (x == id && contains u (names deps))
        || contains x (neighbours g.edges u))
dependencies-edges known id x u [] g = ground arith
dependencies-edges known id x u (dep ∷ deps) g = ground (
  arith,
  dependencies-edges known id x u deps (add_dependency known id dep g),
  contains-append_to x u dep.plugin_id id g.edges,
  eq_iff u dep.plugin_id,
)

manifests-edges :
    (known : List String) (x u : String) (ms : List PluginManifest) (g : DependencyGraph)
    → contains x (neighbours (add_manifests known ms g).edges u)
      ≡ (contains u known && depends x u ms || contains x (neighbours g.edges u))
manifests-edges known x u [] g = ground arith
manifests-edges known x u (m ∷ ms) g = ground (
  arith,
  manifests-edges known x u ms (add_dependencies known m.id m.dependencies g),
  dependencies-edges known m.id x u m.dependencies g,
  eq_iff x m.id,
  eq_iff m.id x,
)

-- The edges of the graph are the dependencies that are installed.
pub dependency_graph-edges :
    (ms : List PluginManifest) (x u : String)
    → contains x (neighbours (dependency_graph ms).edges u)
      ≡ (contains u (ids_of ms) && depends x u ms)
unfolding dependency_graph
dependency_graph-edges ms x u = ground (
  arith,
  manifests-edges (ids_of ms) x u ms
      (record { missing = []; edges = for_each_id [] ms []; in_degree = for_each_id 0 ms [] }),
  fresh_dependents ms [] no_neighbours u x,
)
