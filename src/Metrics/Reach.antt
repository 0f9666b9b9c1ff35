-- ===== src/Metrics/Reach.antt =====
-- services/integration/diagnostics/graph_metrics.py: the search finds exactly the reachable nodes.
use vision_virtual_intellige.Prelude.{
  ℕ, zero, suc, ◌≡◌, refl, subst, String, eq_iff, Bool-cases, true, false, inl, inr, some, List, [],
  ◌∷◌, arith, contains, Dict, Option-cases,
}
use vision_virtual_intellige.Metrics.{neighbours, offer, bfs_loop, bfs_reachable}
use vision_virtual_intellige.Metrics.Search.{
  contains-offer-seen, contains-offer-queue, bfs_reachable-ne-none,
}

-- The nodes that a walk along the adjacency map leads to.
pub data Reachable (adj : Dict (List String)) (start : String) : String → Type 0 where
  here : Reachable adj start start
  next :
      {n : String} (m : String)
      → Reachable adj start n
      → contains m (neighbours adj n) ≡ true
      → Reachable adj start m

record Inv (adj : Dict (List String)) (start : String) (seen q : List String) : Type 0 where
  begun : contains start seen ≡ true
  sound : (x : String) → contains x seen ≡ true → Reachable adj start x
  queued : (x : String) → contains x q ≡ true → contains x seen ≡ true
  closed :
      (x y : String)
      → contains x seen ≡ true
      → contains x q ≡ false
      → contains y (neighbours adj x) ≡ true
      → contains y seen ≡ true

module _ (adj : Dict (List String)) (start : String) where
  abbrev after : List String → List String → String → List String × List String
  after seen q n = offer (neighbours adj n) seen q

  offer_sound :
      (n : String) (seen q : List String)
      → Inv adj start seen (n ∷ q)
      → (x : String) → contains x (after seen q n).0 ≡ true
      → Reachable adj start x
  offer_sound n seen q inv x m = elim (Bool-cases (contains x seen)) [
    | inl old ↦ inv.sound x old
    | inr new ↦
        Reachable.next x (inv.sound n (inv.queued n (ground (arith, eq_iff n n))))
          (ground (arith, contains-offer-seen x (neighbours adj n) seen q))
  ]

  offer-closed :
      (n : String) (seen q : List String)
      → Inv adj start seen (n ∷ q)
      → (x y : String) → contains x (after seen q n).0 ≡ true
      → contains x (after seen q n).1 ≡ false
      → contains y (neighbours adj x) ≡ true
      → contains y (after seen q n).0 ≡ true
  offer-closed n seen q inv x y m out edge = ground (
    arith,
    eq_iff x n,
    inv.closed x y,
    contains-offer-seen x (neighbours adj n) seen q,
    contains-offer-queue x (neighbours adj n) seen q,
    contains-offer-seen y (neighbours adj n) seen q,
  )

  offer-Inv :
      (n : String) (seen q : List String)
      → Inv adj start seen (n ∷ q)
      → Inv adj start (after seen q n).0 (after seen q n).1
  offer-Inv n seen q inv = record {
    begun = ground (arith, inv.begun, contains-offer-seen start (neighbours adj n) seen q);
    sound = offer_sound n seen q inv;
    queued = λ x m. ground (
      arith,
      inv.queued x,
      contains-offer-seen x (neighbours adj n) seen q,
      contains-offer-queue x (neighbours adj n) seen q,
    );
    closed = offer-closed n seen q inv;
  }

  closed_complete :
      (seen : List String)
      → Inv adj start seen []
      → (x : String) → Reachable adj start x
      → contains x seen ≡ true
  closed_complete seen inv x Reachable.here = inv.begun
  closed_complete seen inv x (Reachable.next {n = n} m r e) =
      inv.closed n m (closed_complete seen inv n r) refl e

  bfs_loop-exact :
      (fuel : ℕ) (seen q found : List String)
      → Inv adj start seen q
      → bfs_loop fuel adj seen q ≡ some found
      → Inv adj start found []
  unfolding bfs_loop
  bfs_loop-exact fuel seen [] found inv h = subst (λ l. Inv adj start l []) (cc) inv
  bfs_loop-exact zero seen (n ∷ q) found inv h = cc
  bfs_loop-exact (suc fuel) seen (n ∷ q) found inv h =
      bfs_loop-exact fuel (after seen q n).0 (after seen q n).1 found (offer-Inv n seen q inv) h

start-Inv : (adj : Dict (List String)) (start : String) → Inv adj start (start ∷ []) (start ∷ [])
start-Inv adj start = record {
  begun = ground (arith, eq_iff start start);
  sound = λ x m. subst (Reachable adj start) (ground (arith, eq_iff x start)) Reachable.here;
  queued = λ x m. m;
  closed = λ x y m out edge. absurd (ground arith);
}

-- The search returns a set, and a node is in it exactly when a walk from the start leads to it.
pub bfs_reachable-exact :
    (adj : Dict (List String)) (start : String)
    → (found : List String) × (bfs_reachable adj start ≡ some found)
      × ((x : String) → (contains x found ≡ true → Reachable adj start x))
      × ((x : String) → (Reachable adj start x → contains x found ≡ true))
unfolding bfs_reachable
bfs_reachable-exact adj start = elim (Option-cases (bfs_reachable adj start)) [
  | inl ran_out ↦ absurd (bfs_reachable-ne-none adj start ran_out)
  | inr (found, e) ↦
      let inv = bfs_loop-exact adj start _ _ _ found (start-Inv adj start) e in
      (found, e, inv.sound, closed_complete adj start found inv)
]
