-- ===== src/Metrics/Search.antt =====
-- services/integration/diagnostics/graph_metrics.py: one round of the breadth-first search, and why
-- its loop ends.
use vision_virtual_intellige.Prelude.{
  ℕ, zero, suc, ◌+◌, ◌≤◌, ◌<◌, ◌≡◌, ◌≢◌, refl, String, eq_iff, true, false, not, ◌&&◌, ◌||◌, none,
  List, [], ◌∷◌, ◌++◌, arith, length, length-append, length-keep_if, keep_if, contains,
  contains-append, Dict, IsSubset,
}
use vision_virtual_intellige.Metrics.{neighbours, offer, bfs_loop, bfs_reachable, targets_of}

-- What a round adds to the seen set: all that it is offered.
pub contains-offer-seen :
    (x : String) (rest seen q : List String)
    → contains x (offer rest seen q).0 ≡ (contains x rest || contains x seen)
unfolding offer
contains-offer-seen x [] seen q = refl
contains-offer-seen x (y ∷ rest) seen q = ground (
  arith,
  eq_iff x y,
  contains-offer-seen x rest seen q,
  contains-offer-seen x rest (y ∷ seen) (q ++ y ∷ []),
)

-- What a round adds to the queue: what it is offered and has not seen.
pub contains-offer-queue :
    (x : String) (rest seen q : List String)
    → contains x (offer rest seen q).1 ≡ (contains x q || contains x rest && not (contains x seen))
unfolding offer
contains-offer-queue x [] seen q = ground arith
contains-offer-queue x (y ∷ rest) seen q = ground (
  arith,
  eq_iff x y,
  contains-append x q (y ∷ []),
  contains-offer-queue x rest seen q,
  contains-offer-queue x rest (y ∷ seen) (q ++ y ∷ []),
)

-- How many entries of `ts` have not been seen.
abbrev unseen : List String → List String → ℕ
unseen seen ts = length (keep_if (λ t. not (contains t seen)) ts)

unseen_mono : (y : String) (seen ts : List String) → unseen (y ∷ seen) ts ≤ unseen seen ts
unseen_mono y seen [] = omega arith
unseen_mono y seen (t ∷ ts) = ground (arith, unseen_mono y seen ts)

unseen-lt :
    (y : String) (seen ts : List String)
    → contains y ts ≡ true
    → contains y seen ≡ false
    → unseen (y ∷ seen) ts < unseen seen ts
unseen-lt y seen [] m fresh = cc
unseen-lt y seen (t ∷ ts) m fresh =
    ground (arith, eq_iff y t, eq_iff t y, unseen_mono y seen ts, unseen-lt y seen ts)

-- A node that joins the queue is seen from then on, so a round does not raise the sum of both.
offer-measure :
    (ts rest seen q : List String)
    → IsSubset rest ts
    → unseen (offer rest seen q).0 ts + length (offer rest seen q).1 ≤ unseen seen ts + length q
unfolding offer
offer-measure ts [] seen q h = omega arith
offer-measure ts (y ∷ rest) seen q h =
    let h' : IsSubset rest ts = λ x m. h x (ground arith) in
    ground (
      arith,
      h y,
      eq_iff y y,
      unseen-lt y seen ts,
      length-append q (y ∷ []),
      offer-measure ts rest seen q h',
      offer-measure ts rest (y ∷ seen) (q ++ y ∷ []) h',
    )

neighbours-IsSubset :
    (adj : Dict (List String)) (n : String) → IsSubset (neighbours adj n) (targets_of adj)
unfolding neighbours
neighbours-IsSubset [] n x m = m
neighbours-IsSubset ((s, ts) ∷ adj) n x m =
    ground (arith, contains-append x ts (targets_of adj), neighbours-IsSubset adj n x)

bfs_loop-ne-none :
    (fuel : ℕ) (adj : Dict (List String)) (seen q : List String)
    → unseen seen (targets_of adj) + length q ≤ fuel
    → bfs_loop fuel adj seen q ≢ none
unfolding bfs_loop
bfs_loop-ne-none fuel adj seen [] h = cc
bfs_loop-ne-none zero adj seen (n ∷ q) h = absurd (omega arith)
bfs_loop-ne-none (suc fuel) adj seen (n ∷ q) h =
    bfs_loop-ne-none fuel adj (offer (neighbours adj n) seen q).0
      (offer (neighbours adj n) seen q).1
      (omega (
        arith,
        offer-measure (targets_of adj) (neighbours adj n) seen q (neighbours-IsSubset adj n),
      ))

-- The search ends on every graph: one round for each target of an edge, and one for the start, is
-- enough.
pub bfs_reachable-ne-none :
    (adj : Dict (List String)) (start : String) → bfs_reachable adj start ≢ none
unfolding bfs_reachable
bfs_reachable-ne-none adj start =
    bfs_loop-ne-none _ adj (start ∷ []) (start ∷ []) (
      omega
        (arith, length-keep_if (λ (t : String). not (contains t (start ∷ []))) (targets_of adj)))
