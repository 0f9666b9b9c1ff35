-- ===== src/Plugins/Cyclic.antt =====
-- services/integration/plugin_sdk/plugin_validator.py: the search for cycles ends, and what it reports are
-- cycles.
use vision_virtual_intellige.Prelude.{
  ℕ, zero, suc, ◌≤◌, ◌<◌, ◌≡◌, refl, ap, ◌∙◌, subst, String, ◌==◌, eq_iff, true, not, inl, inr,
  Option, some, List, [], ◌∷◌, ◌++◌, arith, length, length-keep_if, contains, contains-sorted,
  IsSubset, sorted, Dict, Bool-cases,
}
use vision_virtual_intellige.Metrics.{neighbours}
use vision_virtual_intellige.Plugins.{
  CycleSearch, suffix_from, is_reported, report_cycle, visit_each, and_then, dfs, search_from,
  find_cycles,
}
use vision_virtual_intellige.Plugins.LoadOrder.Counts.{left, left-lt}

-- Each text is a neighbour of the one before it.
abbrev pub IsWalk : Dict (List String) → List String → Type 0
IsWalk edges [] = Unit
IsWalk edges (x ∷ []) = Unit
IsWalk edges (x ∷ y ∷ walk) = (contains y (neighbours edges x) ≡ true) × IsWalk edges (y ∷ walk)

-- The cycle can be walked, back to its first text.
abbrev pub IsCycle : Dict (List String) → List String → Type 0
IsCycle edges cycle =
    (first : String) × (rest : List String) × (cycle ≡ first ∷ rest)
    × IsWalk edges (cycle ++ first ∷ [])

abbrev pub AreCycles : Dict (List String) → List (List String) → Type 0
AreCycles edges [] = Unit
AreCycles edges (c ∷ cs) = IsCycle edges c × AreCycles edges cs

concat-AreCycles :
    (edges : Dict (List String)) (cs : List (List String)) (c : List String)
    → AreCycles edges cs
    → IsCycle edges c
    → AreCycles edges (cs ++ c ∷ [])
concat-AreCycles edges [] c all is = (is, tt)
concat-AreCycles edges (d ∷ cs) c all is = (all.0, concat-AreCycles edges cs c all.1 is)

concat-IsWalk :
    (edges : Dict (List String)) (path : List String) (x y : String)
    → IsWalk edges (path ++ x ∷ [])
    → contains y (neighbours edges x) ≡ true
    → IsWalk edges ((path ++ x ∷ []) ++ y ∷ [])
concat-IsWalk edges [] x y walk edge = (edge, tt)
concat-IsWalk edges (a ∷ []) x y walk edge = (walk.0, (edge, tt))
concat-IsWalk edges (a ∷ b ∷ path) x y walk edge =
    (walk.0, concat-IsWalk edges (b ∷ path) x y walk.1 edge)

shorter :
    (edges : Dict (List String)) (x : String) (path : List String) (node : String)
    → IsWalk edges ((x ∷ path) ++ node ∷ [])
    → IsWalk edges (path ++ node ∷ [])
shorter edges x [] node walk = tt
shorter edges x (y ∷ path) node walk = walk.1

suffix_from-IsCycle :
    (edges : Dict (List String)) (node : String) (path : List String)
    → contains node path ≡ true
    → IsWalk edges (path ++ node ∷ [])
    → IsCycle edges (suffix_from node path)
suffix_from-IsCycle edges node [] m walk = cc
suffix_from-IsCycle edges node (x ∷ path) m walk = elim (Bool-cases (node == x)) [
  | inl same ↦
      let equal : node ≡ x = ground (arith, eq_iff node x) in
      rw same (x, path, refl, subst (λ n. IsWalk edges ((x ∷ path) ++ n ∷ [])) equal walk)
  | inr apart ↦ rw apart (
      suffix_from-IsCycle edges node path (ground (arith, m, apart))
        (shorter edges x path node walk))
]

module _ (unresolved : List String) (edges : Dict (List String)) where
  -- The search goes on from `s` with a result that has visited as much, and only cycles if it had so.
  abbrev pub GoesOn : Option CycleSearch → CycleSearch → Type 0
  GoesOn result s =
      (after : CycleSearch) × (result ≡ some after)
      × (left after.visited unresolved ≤ left s.visited unresolved)
      × (AreCycles edges s.cycles → AreCycles edges after.cycles)

  and_then-GoesOn :
      (first : Option CycleSearch) (visit : CycleSearch → Option CycleSearch) (s : CycleSearch)
      → GoesOn first s
      → ((after : CycleSearch)
          → left after.visited unresolved ≤ left s.visited unresolved
          → GoesOn (visit after) after)
      → GoesOn (and_then first visit) s
  and_then-GoesOn first visit s (after, e, fewer, cyclic) goes =
      let (last, e', fewer', cyclic') = goes after fewer in
      (
        last,
        ap (λ o. and_then o visit) e ∙ e',
        omega (arith, fewer, fewer'),
        λ h. cyclic' (cyclic h),
      )

  visit_each-GoesOn :
      (visit : String → CycleSearch → Option CycleSearch) (neighbors : List String) (k : ℕ)
      → ((n : String) (s : CycleSearch)
          → contains n neighbors ≡ true
          → contains n unresolved ≡ true
          → left s.visited unresolved < k
          → GoesOn (visit n s) s)
      → (s : CycleSearch) → left s.visited unresolved < k
      → GoesOn (visit_each visit unresolved neighbors s) s
  unfolding visit_each
  visit_each-GoesOn visit [] k goes s enough = (s, refl, omega arith, λ h. h)
  visit_each-GoesOn visit (n ∷ neighbors) k goes s enough =
      let rest = visit_each-GoesOn visit neighbors k (λ m t at. goes m t (ground (arith, at))) in
      elim (Bool-cases (contains n unresolved)) [
        | inr elsewhere ↦ rw elsewhere (rest s enough)
        | inl here ↦ rw here (
            and_then-GoesOn (visit n s) (visit_each visit unresolved neighbors) s
              (goes n s (ground (arith, eq_iff n n)) here enough)
              (λ after fewer. rest after (omega (arith, fewer, enough))))
      ]

  report_cycle-AreCycles :
      (cycle : List String) (s : CycleSearch)
      → IsCycle edges cycle
      → AreCycles edges s.cycles
      → AreCycles edges (report_cycle cycle s).cycles
  report_cycle-AreCycles cycle s is all = elim (Bool-cases (is_reported cycle s.cycles)) [
    | inl old ↦ rw old all
    | inr new ↦ rw new (concat-AreCycles edges s.cycles cycle all is)
  ]

  report_cycle-visited :
      (cycle : List String) (s : CycleSearch) → (report_cycle cycle s).visited ≡ s.visited
  report_cycle-visited cycle s = elim (Bool-cases (is_reported cycle s.cycles)) [
    | inl old ↦ rw old refl
    | inr new ↦ rw new refl
  ]

  dfs-GoesOn :
      (fuel : ℕ) (node : String) (path : List String) (s : CycleSearch)
      → contains node unresolved ≡ true
      → left s.visited unresolved < fuel
      → IsWalk edges (path ++ node ∷ [])
      → GoesOn (dfs fuel unresolved edges node path s) s
  unfolding dfs
  dfs-GoesOn zero node path s known enough walk = elim enough [ ]
  dfs-GoesOn (suc fuel) node path s known enough walk =
      let visiting : CycleSearch = record s { visited = s.visited ++ node ∷ [] } in
      let next : String → CycleSearch → Option CycleSearch =
        λ neighbor. dfs fuel unresolved edges neighbor (path ++ node ∷ []) in
      elim (Bool-cases (contains node path)) [
        | inl back ↦ rw back (
          report_cycle (suffix_from node path) s,
          refl,
          omega
              (arith, ap (λ v. left v unresolved) (report_cycle-visited (suffix_from node path) s)),
          report_cycle-AreCycles (suffix_from node path) s
              (suffix_from-IsCycle edges node path back walk),
        )
        | inr off ↦ rw off (elim (Bool-cases (contains node s.visited)) [
          | inl seen ↦ rw seen (s, refl, omega arith, λ h. h)
          | inr new ↦
              let fewer = left-lt node s.visited unresolved known new in
              let (after, e, kept, cyclic) =
                visit_each-GoesOn next (sorted (neighbours edges node)) fuel
                  (λ n t at inside low. dfs-GoesOn fuel n (path ++ node ∷ []) t inside low (
                    concat-IsWalk edges path node n walk
                      (ground (arith, at, contains-sorted n (neighbours edges node)))))
                  visiting (omega (arith, fewer, enough)) in
              rw new (after, e, omega (arith, fewer, kept), cyclic)
        ])
      ]

  search_from-GoesOn :
      (fuel : ℕ) (nodes : List String)
      → IsSubset nodes unresolved
      → (s : CycleSearch) → left s.visited unresolved < fuel
      → GoesOn (search_from fuel unresolved edges nodes s) s
  unfolding search_from
  search_from-GoesOn fuel [] inside s enough = (s, refl, omega arith, λ h. h)
  search_from-GoesOn fuel (node ∷ nodes) inside s enough =
      let rest = search_from-GoesOn fuel nodes (λ x at. inside x (ground (arith, at))) in
      elim (Bool-cases (contains node s.visited)) [
        | inl seen ↦ rw seen (rest s enough)
        | inr new ↦ rw new (
            and_then-GoesOn (dfs fuel unresolved edges node [] s)
              (search_from fuel unresolved edges nodes) s
              (dfs-GoesOn fuel node [] s (inside node (ground (arith, eq_iff node node))) enough tt)
              (λ after fewer. rest after (omega (arith, fewer, enough))))
      ]

  -- The search for cycles ends, and each cycle that it reports is one: every plugin of it is a
  -- dependent of the one before it, and the first one of the last.
  pub find_cycles-AreCycles :
      (result : CycleSearch) × (find_cycles unresolved edges ≡ some result)
      × AreCycles edges result.cycles
  unfolding find_cycles
  find_cycles-AreCycles =
      let start : CycleSearch = record { visited = []; cycles = [] } in
      let (result, e, fewer, cyclic) =
        search_from-GoesOn (suc (length unresolved)) (sorted unresolved)
          (λ x at. ground (arith, at, contains-sorted x unresolved)) start
          (omega (arith, length-keep_if (λ (x : String). not (contains x [])) unresolved)) in
      (result, e, cyclic tt)
