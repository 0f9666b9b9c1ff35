-- ===== src/Plugins/AllValid.antt =====
-- services/integration/plugin_sdk/plugin_validator.py: what `build_dependency_graph` and `validate_all`
-- return.
use vision_virtual_intellige.Prelude.{
  ℕ, ◌≡◌, refl, sym, ap, ◌∙◌, String, ◌==◌, eq_iff, true, false, not, ◌||◌, some, List, [], ◌∷◌,
  ◌++◌, arith, ltb, length, is_empty, any, any-append, contains, difference, sorted, or_default,
  Dict, lookup, has_key, insert, lookup-insert, has_key-insert, subst, ◌≤◌, contains-is_empty,
  Bool-cases, inl, inr,
}
use vision_virtual_intellige.Metrics.{neighbours}
use vision_virtual_intellige.Plugins.{
  PluginManifest, ValidationIssue, ValidationResult, is_error, validate_manifest,
  validate_duplicate_ids, count_ids, duplicate_issues, ids_of, dependency_graph, load_order,
  DependencyGraphResult, with_cycles, build_dependency_graph, missing_issues, cycle_issues,
  result_of, validate_each, validate_with, validate_all,
}
use vision_virtual_intellige.Plugins.LoadOrder.Ordered.{load_order_lem}
use vision_virtual_intellige.Plugins.LoadOrder.Edges.{depends}
use vision_virtual_intellige.Plugins.LoadOrder.Missing.{dependency_graph-missing}
use vision_virtual_intellige.Plugins.Validated.{occurrences, validate_duplicate_ids_lem}
use vision_virtual_intellige.Plugins.Cyclic.{AreCycles, find_cycles-AreCycles}

-- The dependency graph is always computed: its order is the load order, its missing dependencies are
-- those of the graph, and each of its cycles is one in the graph's edges.
pub build_dependency_graph-AreCycles :
    (ms : List PluginManifest)
    → (g : DependencyGraphResult) × (build_dependency_graph ms ≡ some g)
      × (load_order ms ≡ some g.order)
      × (g.missing_dependencies ≡ (dependency_graph ms).missing)
      × AreCycles (dependency_graph ms).edges g.cycles
unfolding build_dependency_graph
build_dependency_graph-AreCycles ms =
    let g = dependency_graph ms in
    let (order, ordered, once, known, after, stuck) = load_order_lem ms in
    let unresolved = sorted (difference (ids_of ms) order) in
    let (found, e, cyclic) = find_cycles-AreCycles unresolved g.edges in
    elim (Bool-cases (ltb (length order) (length ms))) [
      | inl short ↦ (
        record { order = order; cycles = found.cycles; missing_dependencies = g.missing },
        ap (with_cycles ms) ordered ∙ rw (short, e) refl,
        ordered,
        refl,
        cyclic,
      )
      | inr whole ↦ (
        record { order = order; cycles = []; missing_dependencies = g.missing },
        ap (with_cycles ms) ordered ∙ rw whole refl,
        ordered,
        refl,
        tt,
      )
    ]

any_missing :
    (id : String) (deps : List String) → any is_error (missing_issues id deps) ≡ not (is_empty deps)
any_missing id [] = refl
any_missing id (dep ∷ deps) = refl

any_cycle :
    (id : String) (cycles : List (List String))
    → any is_error (cycle_issues id cycles) ≡ any (contains id) cycles
any_cycle id [] = refl
any_cycle id (c ∷ cs) = ground (arith, any_cycle id cs)

any_duplicate :
    (id : String) (seen : Dict ℕ)
    → any is_error (or_default (lookup id (duplicate_issues seen)) [])
      ≡ has_key id (duplicate_issues seen)
unfolding duplicate_issues
any_duplicate id [] = refl
any_duplicate id ((k, n) ∷ seen) = ground (arith, any_duplicate id seen)

-- The result lists no error that concerns other manifests.
abbrev pub IsAlone : List PluginManifest → DependencyGraphResult → String → Type 0
IsAlone ms g id =
    (is_empty (neighbours g.missing_dependencies id) ≡ true)
    × (any (contains id) g.cycles ≡ false)
    × (has_key id (validate_duplicate_ids ms) ≡ false)

result_of-IsAlone :
    (ms : List PluginManifest) (g : DependencyGraphResult) (id : String)
    (own : List ValidationIssue)
    → (result_of (validate_duplicate_ids ms) g id own).valid ≡ true
    → (any is_error own ≡ false) × IsAlone ms g id
unfolding validate_duplicate_ids
result_of-IsAlone ms g id own h =
    let duplicates = or_default (lookup id (validate_duplicate_ids ms)) [] in
    let missing = missing_issues id (neighbours g.missing_dependencies id) in
    let cyclic = cycle_issues id g.cycles in
    let split = any-append is_error own (duplicates ++ (missing ++ cyclic)) in
    let split' = any-append is_error duplicates (missing ++ cyclic) in
    let split'' = any-append is_error missing cyclic in
    let a = any_duplicate id (count_ids ms []) in
    let b = any_missing id (neighbours g.missing_dependencies id) in
    let c = any_cycle id g.cycles in (ground arith, (ground arith, ground arith, ground arith))

-- Only results of plugins that are alone in this sense say valid.
abbrev AllAlone : List PluginManifest → DependencyGraphResult → Dict ValidationResult → Type 0
AllAlone ms g results =
    (id : String) (r : ValidationResult)
    → lookup id results ≡ some r
    → r.valid ≡ true
    → IsAlone ms g id

validate_each_lem :
    (api : String) (all : List PluginManifest) (g : DependencyGraphResult)
    (ms : List PluginManifest) (results : Dict ValidationResult)
    → AllAlone all g results
    → let after = validate_each api (validate_duplicate_ids all) g ms results in
      AllAlone all g after
      × ((id : String) → has_key id after ≡ (contains id (ids_of ms) || has_key id results))
unfolding validate_each
validate_each_lem api all g [] results alone = (alone, λ id. refl)
validate_each_lem api all g (m ∷ ms) results alone =
    let own = (validate_manifest m api).issues in
    let result = result_of (validate_duplicate_ids all) g m.id own in
    let (then_alone, there) =
      validate_each_lem api all g ms (insert m.id result results) (λ id r at valid.
        elim (Bool-cases (id == m.id)) [
          | inl this ↦
              let is : result ≡ r =
                ground (arith, at, this, lookup-insert id m.id result results) in
              let equal : m.id ≡ id = ground (arith, eq_iff id m.id) in
              subst (IsAlone all g) equal
                (result_of-IsAlone all g m.id own (ap (λ x. x.valid) is ∙ valid)).1
          | inr other ↦
              alone id r (ground (arith, at, other, lookup-insert id m.id result results)) valid
        ]) in
    (then_alone, λ id. ground (arith, there id, has_key-insert id m.id result results))

-- `validate_all` returns a result for each id of the manifests and for no other. If the result of an id
-- says valid, then only one manifest has the id, every dependency that it declares is the id of a
-- manifest, and it is on no cycle that the dependency graph reports.
pub validate_all_lem :
    (ms : List PluginManifest) (api : String)
    → (g : DependencyGraphResult) × (results : Dict ValidationResult) × (build_dependency_graph ms
        ≡ some g)
      × (validate_all ms api ≡ some results)
      × ((id : String) → has_key id results ≡ contains id (ids_of ms))
      × ((id : String) (r : ValidationResult)
          → lookup id results ≡ some r
          → r.valid ≡ true
          → (occurrences id ms ≤ 1)
            × ((u : String) → depends id u ms ≡ true → contains u (ids_of ms) ≡ true)
            × (any (contains id) g.cycles ≡ false))
unfolding validate_all
validate_all_lem ms api =
    let (g, made, ordered, missing, cyclic) = build_dependency_graph-AreCycles ms in
    let (alone, there) = validate_each_lem api ms g ms [] (λ id r at valid. cc) in
    (
      g,
      validate_each api (validate_duplicate_ids ms) g ms [],
      made,
      ap (validate_with ms api) made,
      λ id. ground (arith, there id),
      λ id r at valid.
          let (no_missing, no_cycle, no_duplicate) = alone id r at valid in
          (
            ground (arith, no_duplicate, (validate_duplicate_ids_lem id ms).1),
            λ u needs. ground (
              arith,
              needs,
              dependency_graph-missing ms id u,
              contains-is_empty u (neighbours (dependency_graph ms).missing id)
                  (ap (λ d. is_empty (neighbours d id)) (sym missing) ∙ no_missing),
            ),
            no_cycle,
          ),
    )
