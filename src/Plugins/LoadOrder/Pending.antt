-- ===== src/Plugins/LoadOrder/Pending.antt =====
-- The edges into a plugin whose sources are not ordered yet.
use vision_virtual_intellige.Prelude.{
  ℕ, ◌+◌, ◌≤◌, ◌<◌, ◌≡◌, refl, subst, String, ◌==◌, eq_iff, true, false, inl, inr, List, [], ◌∷◌,
  ◌++◌, arith, if◌then◌else◌, contains, contains-append, Dict, has_key, insert, keys, IsDistinct,
  contains-keys, Bool-cases,
}
use vision_virtual_intellige.Metrics.{neighbours, append_to}
use vision_virtual_intellige.Plugins.LoadOrder.Counts.{count, count-append, contains-count}

abbrev pub pending : Dict (List String) → List String → String → ℕ
pending [] order v = 0
pending ((u, vs) ∷ es) order v =
    if contains u order then pending es order v else count v vs + pending es order v

-- A key that is not there has no neighbours, and its order is of no effect.
no_key-pending :
    (node v : String) (es : Dict (List String)) (order : List String)
    → has_key node es ≡ false
    → pending es (order ++ node ∷ []) v ≡ pending es order v
no_key-pending node v [] order h = refl
no_key-pending node v ((u, vs) ∷ es) order h = ground (
  arith,
  eq_iff u node,
  eq_iff node u,
  contains-append u order (node ∷ []),
  no_key-pending node v es order,
)

-- Ordering a plugin takes its edges away.
pub pending-append :
    (node v : String) (es : Dict (List String)) (order : List String)
    → IsDistinct (keys es)
    → contains node order ≡ false
    → pending es order v ≡ pending es (order ++ node ∷ []) v + count v (neighbours es node)
unfolding neighbours
pending-append node v [] order d new = omega arith
pending-append node v ((u, vs) ∷ es) order d new = ground (
  arith,
  eq_iff u node,
  eq_iff node u,
  contains-append u order (node ∷ []),
  contains-keys u es,
  d.0,
  no_key-pending node v es order,
  pending-append node v es order d.1,
)

-- If none is pending, the sources of all edges into the plugin are ordered.
pub pending-zero :
    (u v : String) (es : Dict (List String)) (order : List String)
    → pending es order v ≡ 0
    → contains v (neighbours es u) ≡ true
    → contains u order ≡ true
unfolding neighbours
pending-zero u v [] order z m = cc
pending-zero u v ((w, vs) ∷ es) order z m =
    ground (arith, eq_iff u w, contains-count v vs, pending-zero u v es order)

-- The entry of another key does not hide an edge.
other_key :
    (u w v : String) (vs : List String) (es : Dict (List String))
    → contains v (neighbours es u) ≡ true
    → has_key u es ≡ true
    → has_key w es ≡ false
    → contains v (neighbours ((w, vs) ∷ es) u) ≡ true
unfolding neighbours
other_key u w v vs es at there other = elim (Bool-cases (u == w)) [
  | inl same ↦
      let equal : u ≡ w = ground (arith, eq_iff u w) in
      let wrong = subst (λ x. has_key x es ≡ true) equal there in cc
  | inr apart ↦ ground (arith, apart, at)
]

-- If one is pending, it has a source that is not ordered.
pub pending-source :
    (v : String) (es : Dict (List String)) (order : List String)
    → IsDistinct (keys es)
    → 0 < pending es order v
    → (u : String) × (contains v (neighbours es u) ≡ true)
      × (contains u order ≡ false)
      × (has_key u es ≡ true)
unfolding neighbours
pending-source v [] order d p = absurd (omega arith)
pending-source v ((w, vs) ∷ es) order d p = elim (Bool-cases (contains w order)) [
  | inl done ↦
      let (u, at, not_yet, there) = pending-source v es order d.1 (ground (arith, p, done)) in
      (
        u,
        other_key u w v vs es at there (ground (arith, d.0, contains-keys w es)),
        not_yet,
        ground (arith, there),
      )
  | inr free ↦ elim (Bool-cases (contains v vs)) [
    | inl here ↦ (w, ground (arith, eq_iff w w), free, ground (arith, eq_iff w w))
    | inr elsewhere ↦
        let none_here : count v vs ≡ 0 = ground (arith, contains-count v vs, elsewhere) in
        let (u, at, not_yet, there) =
          pending-source v es order d.1 (ground (arith, p, free, none_here)) in
        (
          u,
          other_key u w v vs es at there (ground (arith, d.0, contains-keys w es)),
          not_yet,
          ground (arith, there),
        )
  ]
]

pending-insert :
    (s v : String) (ws : List String) (es : Dict (List String))
    → pending (insert s ws es) [] v + count v (neighbours es s) ≡ pending es [] v + count v ws
unfolding neighbours
pending-insert s v ws [] = omega arith
pending-insert s v ws ((w, vs) ∷ es) = ground (arith, pending-insert s v ws es)

-- A further edge.
pub pending-append_to :
    (s t v : String) (es : Dict (List String))
    → pending (append_to s t es) [] v ≡ pending es [] v + count v (t ∷ [])
unfolding append_to
pending-append_to s t v es = omega (
  arith,
  pending-insert s v (neighbours es s ++ t ∷ []) es,
  count-append v (neighbours es s) (t ∷ []),
)

pub pending_mono :
    (es : Dict (List String)) (order : List String) (v : String)
    → pending es order v ≤ pending es [] v
pending_mono [] order v = omega arith
pending_mono ((u, vs) ∷ es) order v = ground (arith, pending_mono es order v)
