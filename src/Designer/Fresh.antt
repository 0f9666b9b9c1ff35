-- ===== src/Designer/Fresh.antt =====
-- services/integration/workflow_designer/canvas_state.py: the search of `paste` for an id that is
-- free ends, and its id is free.
use Prim.Native.String.{◌++◌ as str_append}
use text.Mathlib.TextLemmas.{append_cancel_left}
use vision_virtual_intellige.Prelude.{
  decimal, decimal-injective, ℕ, zero, suc, ◌+◌, ◌≤◌, ◌<◌, ◌≡◌, ◌≢◌, refl, String, ◌==◌, eq_iff,
  true, false, none, some, List, [], ◌∷◌, arith, if◌then◌else◌, length, contains, Bool-cases, inl,
  inr,
}
use vision_virtual_intellige.Designer.{fresh_from, fresh_id}

remove : String → List String → List String
remove x [] = []
remove x (y ∷ ys) = if x == y then ys else y ∷ remove x ys

length-remove :
    (x : String) (xs : List String) → contains x xs ≡ true → length (remove x xs) + 1 ≡ length xs
unfolding remove
length-remove x [] h = cc
length-remove x (y ∷ ys) h = ground (arith, length-remove x ys)

contains-remove_ne :
    (x y : String) (xs : List String) → y ≢ x → contains y (remove x xs) ≡ contains y xs
unfolding remove
contains-remove_ne x y [] h = refl
contains-remove_ne x y (z ∷ xs) h =
    ground (arith, eq_iff x z, eq_iff y z, contains-remove_ne x y xs)

abbrev numbered : String → ℕ → String
numbered base k = str_append base (decimal k)

numbered-injective : (base : String) (j k : ℕ) → numbered base j ≡ numbered base k → j ≡ k
numbered-injective base j k h =
    decimal-injective j k (append_cancel_left base (decimal j) (decimal k) h)

-- `left` holds those of the taken ids that the search may still meet.
fresh_from-ne-none :
    (fuel : ℕ) (taken left : List String) (base : String) (k : ℕ)
    → ((j : ℕ)
        → k ≤ j
        → contains (numbered base j) taken ≡ true
        → contains (numbered base j) left ≡ true)
    → length left < fuel
    → fresh_from fuel taken base (numbered base k) k ≢ none
unfolding fresh_from
fresh_from-ne-none zero taken left base k h lt = absurd (omega arith)
fresh_from-ne-none (suc fuel) taken left base k h lt =
    elim (Bool-cases (contains (numbered base k) taken)) [
      | inl hit ↦ rw hit (
          fresh_from-ne-none fuel taken (remove (numbered base k) left) base (k + 1)
            (λ j later m. ground (
              arith,
              h j,
              numbered-injective base j k,
              contains-remove_ne (numbered base k) (numbered base j) left,
            ))
            (omega (arith, length-remove (numbered base k) left (h k (omega arith) hit))))
      | inr free ↦ rw free (cc)
    ]

-- An id is always found.
pub fresh_id-ne-none : (taken : List String) (base : String) → fresh_id taken base ≢ none
unfolding fresh_id fresh_from
fresh_id-ne-none taken base = elim (Bool-cases (contains base taken)) [
  | inl hit ↦
      rw hit
        (fresh_from-ne-none (length taken + 1) taken taken base 2 (λ j later m. m) (omega arith))
  | inr free ↦ rw free (cc)
]

fresh_from-free :
    (fuel : ℕ) (taken : List String) (base new_id : String) (k : ℕ) {found : String}
    → fresh_from fuel taken base new_id k ≡ some found
    → contains found taken ≡ false
unfolding fresh_from
fresh_from-free zero taken base new_id k h = cc
fresh_from-free (suc fuel) taken base new_id k h = elim (Bool-cases (contains new_id taken)) [
  | inl hit ↦ fresh_from-free fuel taken base (numbered base (k + 1)) (k + 1) (rw hit at h)
  | inr free ↦ ground arith
]

-- The id that is found is not taken.
pub fresh_id-free :
    (taken : List String) (base : String) {found : String}
    → fresh_id taken base ≡ some found
    → contains found taken ≡ false
unfolding fresh_id
fresh_id-free taken base h = fresh_from-free (suc (length taken + 1)) taken base base 1 h
