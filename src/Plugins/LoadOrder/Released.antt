-- ===== src/Plugins/LoadOrder/Released.antt =====
-- One round of Kahn's algorithm: what releasing the dependents of a plugin does.
use vision_virtual_intellige.Prelude.{
  ℕ, zero, suc, ◌+◌, ◌≤◌, ◌<◌, ◌≡◌, refl, sym, ap, ◌∙◌, subst, String, ◌==◌, eq_iff, Bool, true,
  false, ◌&&◌, List, [], ◌∷◌, arith, if◌then◌else◌, ltb, nat_eq, Dict, insert, lookup-insert,
}
use vision_virtual_intellige.Plugins.LoadOrder.{degree, release_one, release}
use vision_virtual_intellige.Plugins.LoadOrder.Counts.{count, count-append}

-- One, if the test holds.
abbrev pub one_if : Bool → ℕ
one_if b = if b then 1 else 0

pub degree-insert :
    (v k : String) (n : ℕ) (d : Dict ℕ)
    → degree (insert k n d) v ≡ (if v == k then n else degree d v)
degree-insert v k n d = ground (arith, lookup-insert v k n d)

-- A dependent with an edge left.
release_one_lem :
    (x v : String) (n : ℕ) (remaining : Dict ℕ) (q : List String)
    → degree remaining x ≡ suc n
    → let (remaining', q') = release_one x (suc n) (remaining, q) in
      (degree remaining' v + count v (x ∷ []) ≡ degree remaining v)
      × (count v q' ≡ count v q + one_if (v == x && nat_eq n 0))
release_one_lem x v zero remaining q e = (
  ground (arith, degree-insert v x 0 remaining, eq_iff v x),
  ground (arith, count-append v q (x ∷ [])),
)
release_one_lem x v (suc n) remaining q e =
    (ground (arith, degree-insert v x (suc n) remaining, eq_iff v x), ground arith)

predecessor : (n : ℕ) → 0 < n → (m : ℕ) × (n ≡ suc m)
predecessor zero h = elim h [ ]
predecessor (suc m) h = (m, refl)

-- The numbers of one plugin: `same` if the released one is it.
joined_once :
    (same : Bool) (cq cs cf cv d s r n : ℕ)
    → cf ≡ cs + one_if (ltb 0 cv && nat_eq d 0)
    → cs ≡ cq + one_if (same && nat_eq n 0)
    → d + cv ≡ s
    → s + one_if same ≡ r
    → (same ≡ true → r ≡ suc n)
    → cf ≡ cq + one_if (ltb 0 (one_if same + cv) && nat_eq d 0)
joined_once true cq cs cf cv d s r n f c l o e = ground (arith, e refl)
joined_once false cq cs cf cv d s r n f c l o e = ground arith

count-cons : (v x : String) (vs : List String) → count v (x ∷ vs) ≡ one_if (v == x) + count v vs
count-cons v x vs = ground arith

-- What one more released edge says of a plugin, from what the later ones say.
after_one :
    (x v : String) (vs : List String) (n : ℕ) (remaining : Dict ℕ) (q : List String) (d c : ℕ)
    → degree remaining x ≡ suc n
    → d + count v vs ≡ degree (release_one x (suc n) (remaining, q)).0 v
    → c
      ≡ count v (release_one x (suc n) (remaining, q)).1 + one_if (ltb 0 (count v vs) && nat_eq d 0)
    → (d + count v (x ∷ vs) ≡ degree remaining v)
      × (c ≡ count v q + one_if (ltb 0 (count v (x ∷ vs)) && nat_eq d 0))
after_one x v vs n remaining q d c e lost joined =
    let (lost_one, joined_one) = release_one_lem x v n remaining q e in
    let one : count v (x ∷ []) ≡ one_if (v == x) = ground arith in
    (
      ground (arith, lost, lost_one),
      joined_once (v == x) (count v q) _ c (count v vs) d _ (degree remaining v) n joined joined_one
            lost
            (ap (λ k. degree (release_one x (suc n) (remaining, q)).0 v + k) (sym one) ∙ lost_one)
            (λ same. ap (degree remaining) (ground (arith, eq_iff v x)) ∙ e)
          ∙ ap (λ k. count v q + one_if (ltb 0 k && nat_eq d 0)) (sym (count-cons v x vs)),
    )

-- If no plugin has more edges among the released ones than are left for it, each loses its edges,
-- and those join the queue, once, that lose their last ones.
pub release_lem :
    (vs : List String) (remaining : Dict ℕ) (q : List String)
    → ((v : String) → count v vs ≤ degree remaining v)
    → (v : String)
    → let (remaining', q') = release vs (remaining, q) in
      (degree remaining' v + count v vs ≡ degree remaining v)
      × (count v q' ≡ count v q + one_if (ltb 0 (count v vs) && nat_eq (degree remaining' v) 0))
unfolding release
release_lem [] remaining q enough v = (omega arith, ground arith)
release_lem (x ∷ vs) remaining q enough v =
    let (n, e) = predecessor (degree remaining x) (ground (arith, enough x, eq_iff x x)) in
    let step = release_one x (suc n) (remaining, q) in
    let enough' : (u : String) → count u vs ≤ degree step.0 u =
      λ u. ground (arith, enough u, (release_one_lem x u n remaining q e).0) in
    let (lost, joined) = release_lem vs step.0 step.1 enough' v in
    subst
      (λ k.
        let (remaining', q') = release vs (release_one x k (remaining, q)) in
        (degree remaining' v + count v (x ∷ vs) ≡ degree remaining v)
        × (count v q'
            ≡ count v q + one_if (ltb 0 (count v (x ∷ vs)) && nat_eq (degree remaining' v) 0)))
      (sym e) (after_one x v vs n remaining q _ _ e lost joined)
