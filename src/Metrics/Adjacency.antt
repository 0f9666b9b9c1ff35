-- ===== src/Metrics/Adjacency.antt =====
-- services/integration/diagnostics/graph_metrics.py: the adjacency maps hold exactly the edges.
use vision_virtual_intellige.Prelude.{
  ◌≡◌, refl, String, ◌==◌, eq_iff, Bool, false, ◌&&◌, ◌||◌, List, [], ◌∷◌, ◌++◌, arith,
  if◌then◌else◌, contains, contains-append, Dict, lookup-insert,
}
use vision_virtual_intellige.Metrics.{Edge, neighbours, append_to, add_edges, build_adjacency}

-- `(s, t)` is one of the edges.
abbrev pub has_edge : String → String → List Edge → Bool
has_edge s t [] = false
has_edge s t ((a, b) ∷ edges) = s == a && t == b || has_edge s t edges

neighbours-append_to :
    (n s t : String) (adj : Dict (List String))
    → neighbours (append_to s t adj) n
      ≡ (if n == s then neighbours adj s ++ t ∷ [] else neighbours adj n)
unfolding append_to
neighbours-append_to n s t adj = ground (arith, lookup-insert n s (neighbours adj s ++ t ∷ []) adj)

pub contains-append_to :
    (x n s t : String) (adj : Dict (List String))
    → contains x (neighbours (append_to s t adj) n)
      ≡ (n == s && x == t || contains x (neighbours adj n))
contains-append_to x n s t adj = ground (
  arith,
  neighbours-append_to n s t adj,
  contains-append x (neighbours adj s) (t ∷ []),
  eq_iff n s,
)

add_edges-contains :
    (x n : String) (edges : List Edge) (adj radj : Dict (List String))
    → (contains x (neighbours (add_edges edges (adj, radj)).0 n)
        ≡ (has_edge n x edges || contains x (neighbours adj n)))
      × (contains x (neighbours (add_edges edges (adj, radj)).1 n)
          ≡ (has_edge x n edges || contains x (neighbours radj n)))
unfolding add_edges
add_edges-contains x n [] adj radj = (refl, refl)
add_edges-contains x n ((s, t) ∷ edges) adj radj =
    let (forward, backward) =
      add_edges-contains x n edges (append_to s t adj) (append_to t s radj) in
    ground
      (arith, forward, backward, contains-append_to x n s t adj, contains-append_to x n t s radj)

-- The forward map lists exactly the targets of each node, the reverse map exactly the sources.
pub build_adjacency-edges :
    (x n : String) (edges : List Edge)
    → (contains x (neighbours (build_adjacency edges).0 n) ≡ has_edge n x edges)
      × (contains x (neighbours (build_adjacency edges).1 n) ≡ has_edge x n edges)
unfolding build_adjacency neighbours
build_adjacency-edges x n edges = ground (arith, add_edges-contains x n edges [] [])
