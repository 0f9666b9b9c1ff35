-- ===== src/Pipeline/Kahn.antt =====
-- services/integration/dependency_graph.py: `has_cycle`, Kahn's algorithm.
use vision_virtual_intellige.Prelude.{
  ℕ, zero, suc, ◌+◌, ◌-◌, String, Bool, not, Option, none, some, List, [], ◌∷◌, ◌++◌, nat_eq,
  if◌then◌else◌, length, init, last?, Dict, lookup, insert,
}
use vision_virtual_intellige.Pipeline.Defs.{department_dependencies}

-- `for d, deps in …: for _dep in deps: indegree[d] += 1`
abbrev indegrees : Dict (List String) → Dict ℕ
indegrees [] = []
indegrees ((d, deps) ∷ rest) = (d, length deps) ∷ indegrees rest

abbrev empty_lists : Dict (List String) → Dict (List String)
empty_lists [] = []
empty_lists ((d, deps) ∷ rest) = (d, []) ∷ empty_lists rest

-- `forward.setdefault(dep, []).append(d)`
append_to : String → String → Dict (List String) → Dict (List String)
append_to dep d forward = elim (lookup dep forward) [
  | none ↦ insert dep (d ∷ []) forward
  | some ds ↦ insert dep (ds ++ d ∷ []) forward
]

add_dependent : String → List String → Dict (List String) → Dict (List String)
unfolding append_to
add_dependent d [] forward = forward
add_dependent d (dep ∷ deps) forward = add_dependent d deps (append_to dep d forward)

add_dependents : Dict (List String) → Dict (List String) → Dict (List String)
unfolding add_dependent
add_dependents [] forward = forward
add_dependents ((d, deps) ∷ rest) forward = add_dependents rest (add_dependent d deps forward)

zero_degrees : Dict ℕ → List String
zero_degrees [] = []
zero_degrees ((d, deg) ∷ rest) = if nat_eq deg 0 then d ∷ zero_degrees rest else zero_degrees rest

-- The `for nxt in forward.get(n, [])` loop, on the degrees and the queue. The source decrements a
-- degree that it has counted up for this very edge, so the subtraction does not stop at 0.
release : List String → Dict ℕ → List String → Dict ℕ × List String
release [] degrees queue = (degrees, queue)
release (nxt ∷ rest) degrees queue = elim (lookup nxt degrees) [
  | none ↦ release rest degrees queue
  | some deg ↦
      release rest (insert nxt (deg - 1) degrees)
        (if nat_eq (deg - 1) 0 then queue ++ nxt ∷ [] else queue)
]

-- The `while queue` loop; `none` means that the fuel ran out. `queue.pop()` takes the last.
visit_all : ℕ → Dict (List String) → Dict ℕ → List String → ℕ → Option ℕ
unfolding release
visit_all zero forward degrees queue visited = none
visit_all (suc fuel) forward degrees queue visited = elim (last? queue) [
  | none ↦ some visited
  | some n ↦
      let nexts : List String = elim (lookup n forward) [ none ↦ [] | some ns ↦ ns ] in
      let (degrees', queue') = release nexts degrees (init queue) in
      visit_all fuel forward degrees' queue' (visited + 1)
]

-- The graph has at most one visit for each department; one more round sees the empty queue.
pub has_cycle_in : Dict (List String) → Option Bool
unfolding add_dependents zero_degrees visit_all
has_cycle_in graph =
    elim (visit_all (length graph + 1) (add_dependents graph (empty_lists graph)) (indegrees graph)
      (zero_degrees (indegrees graph)) 0) [
        | none ↦ none
        | some visited ↦ some (not (nat_eq visited (length graph)))
      ]

unfoldable pub has_cycle : Option Bool
unfolding has_cycle_in
has_cycle = has_cycle_in department_dependencies
