-- ===== src/Plugins/LoadOrder/Ordered.antt =====
-- services/integration/plugin_sdk/plugin_validator.py: what the order of `build_dependency_graph` says.
use vision_virtual_intellige.Prelude.{
  suc, ◌≤◌, ◌≡◌, refl, ap, String, eq_iff, true, false, not, some, List, [], ◌∷◌, ◌++◌, arith,
  contains, sorted, IsDistinct, length, length-keep_if,
}
use vision_virtual_intellige.Plugins.Models.{PluginManifest}
use vision_virtual_intellige.Plugins.LoadOrder.{
  ids_of, dependency_graph, no_dependencies, load_order,
}
use vision_virtual_intellige.Plugins.LoadOrder.Counts.{count, contains-count, count-sorted}
use vision_virtual_intellige.Plugins.LoadOrder.Pending.{pending-source}
use vision_virtual_intellige.Plugins.LoadOrder.Built.{count-no_dependencies}
use vision_virtual_intellige.Plugins.LoadOrder.Edges.{
  depends, dependency_graph-IsCounted, dependency_graph-edges,
}
use vision_virtual_intellige.Plugins.LoadOrder.Rounds.{IsOrdered, IsGraph, Inv, order_loop-ends}

-- Each plugin comes after its installed dependencies, with those in `done` before the first.
abbrev pub LoadsAfter : List PluginManifest → List String → List String → Type 0
LoadsAfter ms done [] = Unit
LoadsAfter ms done (x ∷ xs) =
    ((u : String) → depends x u ms ≡ true → contains u (ids_of ms) ≡ true → contains u done ≡ true)
    × LoadsAfter ms (done ++ x ∷ []) xs

ordered-LoadsAfter :
    (ms : List PluginManifest) (done xs : List String)
    → IsOrdered (dependency_graph ms).edges done xs
    → LoadsAfter ms done xs
ordered-LoadsAfter ms done [] h = tt
ordered-LoadsAfter ms done (x ∷ xs) h = (
  λ u needs there. h.0 u (ground (arith, dependency_graph-edges ms x u)),
  ordered-LoadsAfter ms (done ++ x ∷ []) xs h.1,
)

counted_once : (xs : List String) → ((v : String) → count v xs ≤ 1) → IsDistinct xs
counted_once [] h = tt
counted_once (x ∷ xs) h = (
  ground (arith, h x, contains-count x xs, eq_iff x x),
  counted_once xs (λ v. ground (arith, h v)),
)

length-ids_of : (ms : List PluginManifest) → length (ids_of ms) ≡ length ms
length-ids_of [] = refl
length-ids_of (m ∷ ms) = ap suc (length-ids_of ms)

graph-IsGraph : (ms : List PluginManifest) → IsGraph (ids_of ms) (dependency_graph ms).edges
graph-IsGraph ms =
    let counted = dependency_graph-IsCounted ms in
    record {
      distinct = counted.once;
      sources = λ u h. ground (arith, counted.sources u);
      targets_known = counted.targets_known;
    }

start-Inv :
    (ms : List PluginManifest)
    → let g = dependency_graph ms in
      Inv
        (ids_of ms)
        g.edges
        (graph-IsGraph ms)
        g.in_degree
        (sorted (no_dependencies g.in_degree))
        []
start-Inv ms =
    let g = dependency_graph ms in
    let counted = dependency_graph-IsCounted ms in
    record {
      degrees = counted.degrees;
      placed = λ v. ground (
        arith,
        count-sorted v (no_dependencies g.in_degree),
        count-no_dependencies v g.in_degree counted.rows_once,
        counted.rows v,
        counted.degrees v,
      );
      ordered = tt;
    }

-- The computation of the load order ends. The order has installed plugins only, each once and each
-- after all of its dependencies that are installed. A plugin is left out only if one of its installed
-- dependencies is left out as well.
pub load_order_lem :
    (ms : List PluginManifest)
    → (order : List String) × (load_order ms ≡ some order)
      × IsDistinct order
      × ((v : String) → contains v order ≡ true → contains v (ids_of ms) ≡ true)
      × LoadsAfter ms [] order
      × ((v : String)
          → contains v (ids_of ms) ≡ true
          → contains v order ≡ false
          → (u : String) × (depends v u ms ≡ true)
            × (contains u (ids_of ms) ≡ true)
            × (contains u order ≡ false))
unfolding load_order
load_order_lem ms =
    let g = dependency_graph ms in
    let ids = ids_of ms in
    let few = length-keep_if (λ (x : String). not (contains x [])) ids in
    let (order, e, placed, ordered) =
      order_loop-ends ids g.edges (graph-IsGraph ms) (suc (length ms)) g.in_degree
        (sorted (no_dependencies g.in_degree)) [] (start-Inv ms)
        (omega (arith, few, length-ids_of ms)) in
    (
      order,
      e,
      counted_once order (λ v. ground (arith, placed v)),
      λ v at. ground (arith, placed v, contains-count v order),
      ordered-LoadsAfter ms [] order ordered,
      λ v known absent.
          let (u, edge, not_yet, there) =
            pending-source v g.edges order (graph-IsGraph ms).distinct
              (ground (arith, placed v, known, absent, contains-count v order)) in
          let needs = dependency_graph-edges ms v u in
          (u, ground (arith, edge, needs), ground (arith, edge, needs), not_yet),
    )
