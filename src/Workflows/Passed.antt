-- ===== src/Workflows/Passed.antt =====
-- services/integration/lifecycle.py: what a passed analysis says of the graph.
use vision_virtual_intellige.Prelude.{
  ◌≡◌, refl, sym, subst, ◌∙◌, String, ◌==◌, eq_iff, Bool, true, false, not, ◌&&◌, ◌||◌, ◌↔◌, inl,
  inr, Option, none, some, List, [], ◌∷◌, ◌++◌, arith, is_empty, keep_if, contains, to_set,
  difference, sorted, contains-is_empty, Bool-cases, contains-append, contains-keep_if,
  contains-to_set, contains-sorted, contains-difference, difference-is_empty, Dict,
}
use vision_virtual_intellige.Metrics.{start_node, end_node, Edge, build_adjacency}
use vision_virtual_intellige.Metrics.Reach.{Reachable}
use vision_virtual_intellige.Workflows.{
  Inspected, is_likely_send_target, reach_from, likely_among, analyze_graph,
}
use vision_virtual_intellige.Workflows.Reversed.{reversed, unreversed, reach_from-Reachable}

-- The module's source, if there is one, makes the node look like the target of a `Send`.
abbrev pub is_likely : Option String → String → Bool
is_likely none n = false
is_likely (some source) n = is_likely_send_target n source

contains-likely_among :
    (source : Option String) (candidates : List String) (n : String)
    → contains n (likely_among source candidates) ≡ (is_likely source n && contains n candidates)
contains-likely_among none candidates n = refl
contains-likely_among (some source) candidates n =
    contains-sorted n (keep_if (λ m. is_likely_send_target m source) candidates)
    ∙ contains-keep_if n (λ m. is_likely_send_target m source) candidates

module _ (nodes reach leads : List String) (source : Option String) where
  abbrev unreachable : List String
  unreachable = difference nodes reach

  abbrev dead_end : List String
  dead_end = difference (difference nodes (end_node ∷ [])) leads

  abbrev likely : List String
  likely = likely_among source (to_set (unreachable ++ dead_end))

  contains-unreachable :
      (n : String) → contains n unreachable ≡ (not (contains n reach) && contains n nodes)
  contains-unreachable n = contains-difference n nodes reach

  contains-dead_end :
      (n : String)
      → contains n dead_end ≡ (not (contains n leads) && (not (n == end_node) && contains n nodes))
  contains-dead_end n = ground (
    arith,
    contains-difference n (difference nodes (end_node ∷ [])) leads,
    contains-difference n nodes (end_node ∷ []),
  )

  contains-likely :
      (n : String)
      → contains n likely ≡ (is_likely source n && (contains n unreachable || contains n dead_end))
  contains-likely n = ground (
    arith,
    contains-likely_among source (to_set (unreachable ++ dead_end)) n,
    contains-to_set n (unreachable ++ dead_end),
    contains-append n unreachable dead_end,
  )

  -- Each node is a likely target, or is found from the start and leads to the end.
  abbrev pub IsPlaced : Type 0
  IsPlaced =
      (n : String)
      → contains n nodes ≡ true
      → is_likely source n ≡ false
      → (contains n reach ≡ true) × ((n == end_node || contains n leads) ≡ true)

  pub no_nodes_left :
      (is_empty (sorted (difference unreachable likely)) ≡ true)
        × (is_empty (sorted (difference dead_end likely)) ≡ true)
      ↔ IsPlaced
  no_nodes_left = (
    λ (u, d) n m new. (
      ground (
        arith,
        (difference-is_empty unreachable likely).0 u n,
        contains-unreachable n,
        contains-likely n,
      ),
      ground (
        arith,
        (difference-is_empty dead_end likely).0 d n,
        contains-dead_end n,
        contains-likely n,
      ),
    ),
    λ placed. (
      (difference-is_empty unreachable likely).1
          (λ n m. ground (arith, placed n, contains-unreachable n, contains-likely n)),
      (difference-is_empty dead_end likely).1
          (λ n m. ground (arith, placed n, contains-dead_end n, contains-likely n)),
    ),
  )

reach_from-start :
    (adj : Dict (List String)) (start x : String) (nodes : List String)
    → contains x (reach_from adj start nodes) ≡ true
    → contains start nodes ≡ true
unfolding reach_from
reach_from-start adj start x nodes h = ground (arith, h)

-- An analysis of a graph that was built and inspected passes exactly when its nodes have a start and an
-- end, a walk along the edges leads from the one to the other, and each node lies on such walks: one
-- leads from the start to it, and one from it to the end. A node that the module's source makes look
-- like the target of a `Send` is excepted.
pub analyze_graph-passed :
    (name : String) (nodes : List String) (edges : List Edge) (source : Option String)
    → let adj = (build_adjacency edges).0 in
      ((analyze_graph name (Inspected.inspected nodes edges) source).passed ≡ true) ↔ (
        (contains start_node nodes ≡ true)
        × (contains end_node nodes ≡ true)
        × Reachable adj start_node end_node
        × ((n : String)
            → contains n nodes ≡ true
            → is_likely source n ≡ false
            → Reachable adj start_node n × Reachable adj n end_node))
unfolding analyze_graph
analyze_graph-passed name nodes edges source =
    let (adj, radj) = build_adjacency edges in
    let reach = reach_from adj start_node nodes in
    let leads = reach_from radj end_node nodes in
    let from_start = reach_from-Reachable adj start_node nodes in
    let to_end = reach_from-Reachable radj end_node nodes in
    (
      λ h.
          let finish : contains end_node nodes ≡ true = ground (arith, h) in
          let found : contains end_node reach ≡ true =
            ground (arith, h, contains-is_empty end_node nodes) in
          let start = reach_from-start adj start_node end_node nodes found in
          let placed =
            (no_nodes_left nodes reach leads source).0 (ground (arith, h), ground (arith, h)) in
          (
            start,
            finish,
            (from_start end_node start).0 found,
            λ n m new.
                let (p, q) = placed n m new in
                (
                  (from_start n start).0 p,
                  elim (Bool-cases (n == end_node)) [
                    | inl last ↦
                        subst (λ x. Reachable adj x end_node)
                          (sym (ground (arith, eq_iff n end_node))) Reachable.here
                    | inr other ↦ reversed edges ((to_end n finish).0 (ground (arith, q, other)))
                  ],
                ),
          ),
      λ (start, finish, walk, all).
          let placed : IsPlaced nodes reach leads source = λ n m new.
            let (p, q) = all n m new in
            ((from_start n start).1 p, ground (arith, (to_end n finish).1 (unreversed edges q))) in
          let none_left = (no_nodes_left nodes reach leads source).1 placed in
          ground (arith, none_left.0, none_left.1, (from_start end_node start).1 walk, finish),
    )
