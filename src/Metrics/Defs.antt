-- ===== src/Metrics/Defs.antt =====
-- services/integration/diagnostics/graph_metrics.py: adjacency, reachability and the counts. A set of
-- nodes is a list, read by membership; `sorted(nodes)` of a set lists each node once.
use vision_virtual_intellige.Prelude.{
  ℕ, zero, suc, ◌+◌, String, ◌==◌, Bool, not, ◌&&◌, Option, none, some, List, [], ◌∷◌, ◌++◌,
  if◌then◌else◌, length, is_empty, keep_if, contains, to_set, sorted, Dict, lookup, insert,
}

abbrev pub start_node : String
start_node = "__start__"

abbrev pub end_node : String
end_node = "__end__"

abbrev pub Edge : Type 0
Edge = String × String

-- `adj.get(n, [])`
unfoldable pub neighbours : Dict (List String) → String → List String
neighbours adj n = elim (lookup n adj) [ none ↦ [] | some ts ↦ ts ]

-- `adj[s].append(t)` on a defaultdict of lists
unfoldable pub append_to : String → String → Dict (List String) → Dict (List String)
unfolding neighbours
append_to s t adj = insert s (neighbours adj s ++ t ∷ []) adj

-- The `for s, t in edges` loop.
unfoldable pub add_edges :
    List Edge → Dict (List String) × Dict (List String) → Dict (List String) × Dict (List String)
add_edges [] maps = maps
add_edges ((s, t) ∷ edges) (adj, radj) = add_edges edges (append_to s t adj, append_to t s radj)

unfoldable pub build_adjacency : List Edge → Dict (List String) × Dict (List String)
build_adjacency edges = add_edges edges ([], [])

-- The `for nxt in adj.get(n, [])` loop, on the seen set and the queue.
unfoldable pub offer : List String → List String → List String → List String × List String
offer [] seen q = (seen, q)
offer (nxt ∷ rest) seen q =
    if not (contains nxt seen) then offer rest (nxt ∷ seen) (q ++ nxt ∷ []) else offer rest seen q

-- The `while q` loop; `none` means that the fuel ran out.
unfoldable pub bfs_loop : ℕ → Dict (List String) → List String → List String → Option (List String)
bfs_loop fuel adj seen [] = some seen
bfs_loop zero adj seen (n ∷ q) = none
bfs_loop (suc fuel) adj seen (n ∷ q) =
    let (seen', q') = offer (neighbours adj n) seen q in bfs_loop fuel adj seen' q'

abbrev pub targets_of : Dict (List String) → List String
targets_of [] = []
targets_of ((s, ts) ∷ adj) = ts ++ targets_of adj

-- Each round takes a node from the queue, and a node joins the queue only when it is first seen.
unfoldable pub bfs_reachable : Dict (List String) → String → Option (List String)
bfs_reachable adj start = bfs_loop (length (targets_of adj) + 1) adj (start ∷ []) (start ∷ [])

unfoldable pub touched : List Edge → List String
touched [] = []
touched ((s, t) ∷ edges) = s ∷ t ∷ touched edges

unfoldable pub isolated_nodes : List String → List Edge → List String
isolated_nodes nodes edges = sorted (
    keep_if (λ n. not (contains n (touched edges)) && not (contains n (start_node ∷ end_node ∷ [])))
      nodes)

unfoldable pub dead_end_count : List String → List Edge → String → ℕ
dead_end_count nodes edges end =
    let adj = (build_adjacency edges).0 in
    length (keep_if (λ n. not (n == end) && is_empty (neighbours adj n)) nodes)

conditional_sources : List (String × String × Bool) → List String
conditional_sources [] = []
conditional_sources ((s, t, cond) ∷ edges) =
    if cond then s ∷ conditional_sources edges else conditional_sources edges

unfoldable pub conditional_node_count : List (String × String × Bool) → ℕ
unfolding conditional_sources
conditional_node_count edges = length (to_set (conditional_sources edges))
