-- ===== src/Workflows/Reversed.antt =====
-- services/integration/lifecycle.py: a search along the reversed edges finds what leads to its start.
use vision_virtual_intellige.Prelude.{◌≡◌, ◌∙◌, sym, String, true, ◌↔◌, List, contains, Dict}
use vision_virtual_intellige.Metrics.{Edge, neighbours, build_adjacency}
use vision_virtual_intellige.Metrics.Adjacency.{build_adjacency-edges}
use vision_virtual_intellige.Metrics.Reach.{Reachable, bfs_reachable-exact}
use vision_virtual_intellige.Workflows.{reach_from}

prepend :
    {adj : Dict (List String)} {a b c : String}
    → contains b (neighbours adj a) ≡ true
    → Reachable adj b c
    → Reachable adj a c
prepend edge Reachable.here = Reachable.next _ Reachable.here edge
prepend edge (Reachable.next m walk step) = Reachable.next m (prepend edge walk) step

-- A walk along the reversed edges is a walk along the edges, the other way.
pub reversed :
    (edges : List Edge) {a b : String}
    → Reachable (build_adjacency edges).1 a b
    → Reachable (build_adjacency edges).0 b a
reversed edges Reachable.here = Reachable.here
reversed edges (Reachable.next {n} m walk step) =
    prepend ((build_adjacency-edges n m edges).0 ∙ sym (build_adjacency-edges m n edges).1 ∙ step)
      (reversed edges walk)

pub unreversed :
    (edges : List Edge) {a b : String}
    → Reachable (build_adjacency edges).0 a b
    → Reachable (build_adjacency edges).1 b a
unreversed edges Reachable.here = Reachable.here
unreversed edges (Reachable.next {n} m walk step) =
    prepend ((build_adjacency-edges n m edges).1 ∙ sym (build_adjacency-edges m n edges).0 ∙ step)
      (unreversed edges walk)

pub reach_from-Reachable :
    (adj : Dict (List String)) (start : String) (nodes : List String) (x : String)
    → contains start nodes ≡ true
    → (contains x (reach_from adj start nodes) ≡ true) ↔ Reachable adj start x
unfolding reach_from
reach_from-Reachable adj start nodes x h =
    let (found, e, sound, complete) = bfs_reachable-exact adj start in
    rw (h, e) (sound x, complete x)
