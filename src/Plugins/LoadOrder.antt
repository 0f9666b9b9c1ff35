-- ===== src/Plugins/LoadOrder.antt =====
-- services/integration/plugin_sdk/plugin_validator.py: the order of `build_dependency_graph`, by Kahn's
-- algorithm. The cycles that it reports besides are left out.
pub mod Counts
mod Pending
mod Released
mod Built
pub mod Edges
pub mod Rounds
pub mod Ordered
pub mod Missing
use vision_virtual_intellige.Prelude.{
  ℕ, zero, suc, ◌+◌, String, not, Option, none, some, List, [], ◌∷◌, ◌++◌, if◌then◌else◌, length,
  or_default, contains, sorted, Dict, lookup, insert,
}
use vision_virtual_intellige.Metrics.{neighbours, append_to}
use vision_virtual_intellige.Plugins.Models.{PluginDependency, PluginManifest}

abbrev pub ids_of : List PluginManifest → List String
ids_of [] = []
ids_of (m ∷ ms) = m.id ∷ ids_of ms

pub record DependencyGraph : Type 0 where
  pub missing : Dict (List String)
  pub edges : Dict (List String)
  pub in_degree : Dict ℕ

-- `d[k]`, for a key that is there
abbrev pub degree : Dict ℕ → String → ℕ
degree d k = or_default (lookup k d) 0

-- `{m.id: v for m in manifests}`
abbrev pub for_each_id {ℓ} : {V : Type ℓ} → V → List PluginManifest → Dict V → Dict V
for_each_id v [] d = d
for_each_id v (m ∷ ms) d = for_each_id v ms (insert m.id v d)

-- The body of the loop over `m.dependencies`; `known` are the keys of `by_id`.
abbrev pub add_dependency :
    List String → String → PluginDependency → DependencyGraph → DependencyGraph
add_dependency known id dep g =
    if not (contains dep.plugin_id known)
    then record g { missing = append_to id dep.plugin_id g.missing }
    else record g {
      edges = append_to dep.plugin_id id g.edges;
      in_degree = insert id (degree g.in_degree id + 1) g.in_degree;
    }

abbrev pub add_dependencies :
    List String → String → List PluginDependency → DependencyGraph → DependencyGraph
add_dependencies known id [] g = g
add_dependencies known id (dep ∷ deps) g =
    add_dependencies known id deps (add_dependency known id dep g)

abbrev pub add_manifests : List String → List PluginManifest → DependencyGraph → DependencyGraph
add_manifests known [] g = g
add_manifests known (m ∷ ms) g =
    add_manifests known ms (add_dependencies known m.id m.dependencies g)

unfoldable pub dependency_graph : List PluginManifest → DependencyGraph
dependency_graph manifests = add_manifests (ids_of manifests) manifests (record {
  missing = [];
  edges = for_each_id [] manifests [];
  in_degree = for_each_id 0 manifests [];
})

-- `[pid for pid, deg in in_degree.items() if deg == 0]`
abbrev pub no_dependencies : Dict ℕ → List String
no_dependencies [] = []
no_dependencies ((pid, zero) ∷ d) = pid ∷ no_dependencies d
no_dependencies ((pid, suc n) ∷ d) = no_dependencies d

-- `remaining[dependent] -= 1`, and the queue if that is zero then. A number below zero, which would
-- never come to zero again, is kept as zero.
abbrev pub release_one : String → ℕ → Dict ℕ × List String → Dict ℕ × List String
release_one dependent zero (remaining, q) = (remaining, q)
release_one dependent (suc zero) (remaining, q) =
    (insert dependent 0 remaining, q ++ dependent ∷ [])
release_one dependent (suc (suc n)) (remaining, q) = (insert dependent (suc n) remaining, q)

-- The `for dependent in …` loop, on the remaining degrees and the queue.
unfoldable pub release : List String → Dict ℕ × List String → Dict ℕ × List String
release [] (remaining, q) = (remaining, q)
release (dependent ∷ dependents) (remaining, q) =
    release dependents (release_one dependent (degree remaining dependent) (remaining, q))

-- The body of the `while queue` loop on the sorted queue, and then the `loop`.
unfoldable pub order_round :
    (Dict ℕ → List String → List String → Option (List String))
    → Dict (List String)
    → Dict ℕ
    → List String
    → List String
    → Option (List String)
unfolding release
order_round loop edges remaining order [] = some order
order_round loop edges remaining order (node ∷ rest) =
    let (remaining', q') = release (sorted (neighbours edges node)) (remaining, rest) in
    loop remaining' q' (order ++ node ∷ [])

-- The `while queue` loop; `none` means that the fuel ran out. The queue is sorted before each round.
unfoldable pub order_loop :
    ℕ → Dict (List String) → Dict ℕ → List String → List String → Option (List String)
unfolding order_round
order_loop zero edges remaining q order = none
order_loop (suc fuel) edges remaining q order =
    order_round (order_loop fuel edges) edges remaining order (sorted q)

-- Each round takes one plugin, and one more round sees the empty queue.
unfoldable pub load_order : List PluginManifest → Option (List String)
unfolding dependency_graph order_loop
load_order manifests =
    let g = dependency_graph manifests in
    order_loop (suc (length manifests)) g.edges g.in_degree (sorted (no_dependencies g.in_degree))
      []
