-- ===== src/Metrics/Counts.antt =====
-- services/integration/diagnostics/graph_metrics.py: what the isolated nodes and the dead ends are.
use vision_virtual_intellige.Prelude.{
  ◌≡◌, ◌≢◌, ◌↔◌, ◌⊎◌, inl, inr, String, ◌==◌, eq_iff, true, false, not, ◌&&◌, List, [], ◌∷◌, arith,
  keep_if, is_empty, contains, contains-keep_if, keep_if-none, keep_if-none_of, contains-sorted,
  contains-is_empty, not_contains-is_empty, Bool-cases,
}
use vision_virtual_intellige.Metrics.{
  Edge, neighbours, build_adjacency, isolated_nodes, dead_end_count, touched, start_node, end_node,
}
use vision_virtual_intellige.Metrics.Adjacency.{has_edge, build_adjacency-edges}

touched-of_edge :
    (s t : String) (edges : List Edge)
    → has_edge s t edges ≡ true
    → (contains s (touched edges) ≡ true) × (contains t (touched edges) ≡ true)
unfolding touched
touched-of_edge s t [] h = cc
touched-of_edge s t ((a, b) ∷ edges) h = ground (arith, touched-of_edge s t edges)

isolated-none :
    (n x : String) (edges : List Edge)
    → contains n (touched edges) ≡ false
    → (has_edge n x edges ≡ false) × (has_edge x n edges ≡ false)
isolated-none n x edges h = ground (arith, touched-of_edge n x edges, touched-of_edge x n edges)

contains-isolated_nodes :
    (n : String) (nodes : List String) (edges : List Edge)
    → contains n (isolated_nodes nodes edges) ≡ (
        not (contains n (touched edges))
        && not (contains n (start_node ∷ end_node ∷ []))
        && contains n nodes)
unfolding isolated_nodes
contains-isolated_nodes n nodes edges =
    let test = λ (m : String).
      not (contains m (touched edges)) && not (contains m (start_node ∷ end_node ∷ [])) in
    ground (arith, contains-sorted n (keep_if test nodes), contains-keep_if n test nodes)

touched_by_edge :
    (n : String) (edges : List Edge)
    → contains n (touched edges) ≡ true
    → (x : String) × ((has_edge n x edges ≡ true) ⊎ (has_edge x n edges ≡ true))
unfolding touched
touched_by_edge n [] h = cc
touched_by_edge n ((a, b) ∷ edges) h = elim (Bool-cases (n == a)) [
  | inl first ↦ (b, inl (ground (arith, eq_iff b b)))
  | inr not_first ↦ elim (Bool-cases (n == b)) [
    | inl second ↦ (a, inr (ground (arith, eq_iff a a)))
    | inr not_second ↦ let (x, e) = touched_by_edge n edges (ground arith) in (x, ground arith)
  ]
]

-- A node is reported as isolated exactly when it is one of the nodes, neither START nor END, and no
-- edge leaves or enters it.
pub isolated_nodes_lem :
    (n : String) (nodes : List String) (edges : List Edge)
    → (contains n (isolated_nodes nodes edges) ≡ true) ↔ (
        (contains n nodes ≡ true)
        × (n ≢ start_node)
        × (n ≢ end_node)
        × ((x : String) → (has_edge n x edges ≡ false) × (has_edge x n edges ≡ false)))
isolated_nodes_lem n nodes edges =
    let e = contains-isolated_nodes n nodes edges in
    (
      λ h. (
        ground arith,
        ground (arith, eq_iff n start_node),
        ground (arith, eq_iff n end_node),
        λ x. isolated-none n x edges (ground arith),
      ),
      λ (m, not_start, not_end, free). elim (Bool-cases (contains n (touched edges))) [
        | inl touching ↦
            let (x, edge) = touched_by_edge n edges touching in absurd (ground (arith, free x))
        | inr untouched ↦ ground (arith, eq_iff n start_node, eq_iff n end_node)
      ],
    )

no_neighbours :
    (n : String) (edges : List Edge)
    → (is_empty (neighbours (build_adjacency edges).0 n) ≡ true)
      ↔ ((x : String) → has_edge n x edges ≡ false)
no_neighbours n edges =
    let ns = neighbours (build_adjacency edges).0 n in
    (
      λ h x. ground (arith, build_adjacency-edges x n edges, contains-is_empty x ns h),
      λ h. not_contains-is_empty ns λ x. ground (arith, build_adjacency-edges x n edges, h x),
    )

-- The dead-end count is 0 exactly when every node but `end` has an edge that leaves it.
pub dead_end_count_lem :
    (nodes : List String) (edges : List Edge) (end : String)
    → (dead_end_count nodes edges end ≡ 0) ↔ (
        (n : String)
        → contains n nodes ≡ true
        → n ≢ end
        → ¬ ((x : String) → has_edge n x edges ≡ false))
unfolding dead_end_count
dead_end_count_lem nodes edges end =
    let test =
      λ (n : String). not (n == end) && is_empty (neighbours (build_adjacency edges).0 n) in
    (
      λ h n m other stuck.
          ground
            (arith, keep_if-none test nodes n h m, eq_iff n end, (no_neighbours n edges).1 stuck),
      λ h. keep_if-none_of test nodes λ n m. elim (Bool-cases (test n)) [
        | inl dead ↦
            absurd (h n m (ground (arith, eq_iff n end)) ((no_neighbours n edges).0 (ground arith)))
        | inr live ↦ live
      ],
    )
