-- ===== src/Plugins/LoadOrder/Rounds.antt =====
-- Kahn's algorithm: what holds before each round, and that the rounds end.
use vision_virtual_intellige.Prelude.{
  ℕ, zero, suc, ◌+◌, ◌<◌, ◌≡◌, sym, ap, ◌∙◌, subst, String, eq_iff, true, false, ◌&&◌, inl, inr,
  some, List, [], ◌∷◌, ◌++◌, arith, ltb, nat_eq, contains, append_assoc, append-nil, sorted,
  List-cases, IsDistinct, keys, has_key, Dict,
}
use vision_virtual_intellige.Metrics.{neighbours}
use vision_virtual_intellige.Plugins.LoadOrder.{degree, release, order_round, order_loop}
use vision_virtual_intellige.Plugins.LoadOrder.Counts.{
  count, count-append, count-sorted, contains-count, left, left-lt,
}
use vision_virtual_intellige.Plugins.LoadOrder.Pending.{
  pending, pending-append, pending-zero, pending_mono,
}
use vision_virtual_intellige.Plugins.LoadOrder.Released.{one_if, release_lem}

-- Each plugin comes after the sources of all edges into it, with those in `done` before the first.
abbrev pub IsOrdered : Dict (List String) → List String → List String → Type 0
IsOrdered edges done [] = Unit
IsOrdered edges done (x ∷ xs) =
    ((u : String) → contains x (neighbours edges u) ≡ true → contains u done ≡ true)
    × IsOrdered edges (done ++ x ∷ []) xs

concat-IsOrdered :
    (edges : Dict (List String)) (done xs : List String) (y : String)
    → IsOrdered edges done xs
    → ((u : String) → contains y (neighbours edges u) ≡ true → contains u (done ++ xs) ≡ true)
    → IsOrdered edges done (xs ++ y ∷ [])
concat-IsOrdered edges done [] y h last =
    ((λ u m. subst (λ zs. contains u zs ≡ true) (append-nil done) (last u m)), tt)
concat-IsOrdered edges done (x ∷ xs) y h last = (
  h.0,
  concat-IsOrdered edges (done ++ x ∷ []) xs y h.1
      (λ u m. subst (λ zs. contains u zs ≡ true) (sym (append_assoc done (x ∷ []) xs)) (last u m)),
)

-- The keys are plugins, each once, and so are the targets.
pub record IsGraph (ids : List String) (edges : Dict (List String)) : Type 0 where
  pub distinct : IsDistinct (keys edges)
  pub sources : (u : String) → has_key u edges ≡ true → contains u ids ≡ true
  pub targets_known : (v : String) → 0 < pending edges [] v → contains v ids ≡ true

-- The plugins with no edge pending, and no other, are ordered or queued, once.
abbrev pub IsPlaced : List String → Dict (List String) → List String → List String → Type 0
IsPlaced ids edges q order =
    (v : String)
    → count v order + count v q ≡ one_if (contains v ids && nat_eq (pending edges order v) 0)

module _ (ids : List String) (edges : Dict (List String)) (graph : IsGraph ids edges) where
  pub record Inv (remaining : Dict ℕ) (q order : List String) : Type 0 where
    pub degrees : (v : String) → degree remaining v ≡ pending edges order v
    pub placed : IsPlaced ids edges q order
    pub ordered : IsOrdered edges [] order

  module _ (remaining : Dict ℕ) (node : String) (rest q order : List String)
      (inv : Inv remaining q order) (head : sorted q ≡ node ∷ rest) where
    queued : (v : String) → count v q ≡ count v (node ∷ rest)
    queued v = sym (count-sorted v q) ∙ ap (count v) head

    node_ready :
        (contains node ids ≡ true) × (contains node order ≡ false) × (pending edges order node ≡ 0)
    node_ready =
        let at = inv.placed node in
        let one = queued node in
        (
          ground (arith, at, one, eq_iff node node),
          ground (arith, at, one, eq_iff node node, contains-count node order),
          ground (arith, at, one, eq_iff node node),
        )

    abbrev dependents : List String
    dependents = sorted (neighbours edges node)

    abbrev next : Dict ℕ × List String
    next = release dependents (remaining, rest)

    taken :
        (v : String)
        → pending edges order v ≡ pending edges (order ++ node ∷ []) v + count v dependents
    taken v =
        pending-append node v edges order graph.distinct node_ready.1
        ∙ ap (λ k. pending edges (order ++ node ∷ []) v + k)
            (sym (count-sorted v (neighbours edges node)))

    released :
        (v : String)
        → (degree next.0 v + count v dependents ≡ degree remaining v)
          × (count v next.1
              ≡ count v rest + one_if (ltb 0 (count v dependents) && nat_eq (degree next.0 v) 0))
    released = release_lem dependents remaining rest (λ v. omega (arith, inv.degrees v, taken v))

    next_degrees : (v : String) → degree next.0 v ≡ pending edges (order ++ node ∷ []) v
    next_degrees v = omega (arith, (released v).0, inv.degrees v, taken v)

    next-IsPlaced : IsPlaced ids edges next.1 (order ++ node ∷ [])
    next-IsPlaced v = ground (
      arith,
      (released v).1,
      next_degrees v,
      taken v,
      inv.placed v,
      queued v,
      count-append v order (node ∷ []),
      graph.targets_known v,
      pending_mono edges order v,
    )

    next-Inv : Inv next.0 next.1 (order ++ node ∷ [])
    next-Inv = record {
      degrees = next_degrees;
      placed = next-IsPlaced;
      ordered =
          concat-IsOrdered edges [] order node inv.ordered
            (λ u m. pending-zero u node edges order node_ready.2 m);
    }

  -- The loop ends, and what it ends with is placed and ordered.
  pub order_loop-ends :
      (fuel : ℕ) (remaining : Dict ℕ) (q order : List String)
      → Inv remaining q order
      → left order ids < fuel
      → (result : List String) × (order_loop fuel edges remaining q order ≡ some result)
        × IsPlaced ids edges [] result
        × IsOrdered edges [] result
  unfolding order_loop order_round
  order_loop-ends zero remaining q order inv enough = elim enough [ ]
  order_loop-ends (suc fuel) remaining q order inv enough = elim (List-cases (sorted q)) [
    | inl empty ↦ (
      order,
      ap (order_round (order_loop fuel edges) edges remaining order) empty,
      λ v.
          let gone : count v q ≡ 0 = sym (count-sorted v q) ∙ ap (count v) empty in
          omega (arith, inv.placed v, gone),
      inv.ordered,
    )
    | inr (node, rest, head) ↦
        let (known, new, none_left) = node_ready remaining node rest q order inv head in
        let (remaining', q') = release (sorted (neighbours edges node)) (remaining, rest) in
        let (result, e, placed, ordered) =
          order_loop-ends fuel remaining' q' (order ++ node ∷ [])
            (next-Inv remaining node rest q order inv head)
            (omega (arith, left-lt node order ids known new)) in
        (
          result,
          ap (order_round (order_loop fuel edges) edges remaining order) head ∙ e,
          placed,
          ordered,
        )
  ]
