-- ===== src/Plugins/LoadOrder/Counts.antt =====
-- How often a text is in a list.
use vision_virtual_intellige.Prelude.{
  ℕ, ◌+◌, ◌≤◌, ◌<◌, ◌≡◌, refl, String, ◌==◌, eq_iff, true, false, not, List, [], ◌∷◌, ◌++◌, arith,
  if◌then◌else◌, ltb, length, keep_if, contains, contains-append, sorted, insert_sorted,
}

abbrev pub count : String → List String → ℕ
count x [] = 0
count x (y ∷ ys) = if x == y then 1 + count x ys else count x ys

pub count-append : (x : String) (xs ys : List String) → count x (xs ++ ys) ≡ count x xs + count x ys
count-append x [] ys = omega arith
count-append x (z ∷ xs) ys = ground (arith, count-append x xs ys)

pub contains-count : (x : String) (xs : List String) → contains x xs ≡ ltb 0 (count x xs)
contains-count x [] = ground arith
contains-count x (y ∷ ys) = ground (arith, contains-count x ys)

count-insert_sorted :
    (x y : String) (ys : List String) → count x (insert_sorted y ys) ≡ count x (y ∷ ys)
unfolding insert_sorted
count-insert_sorted x y [] = refl
count-insert_sorted x y (z ∷ ys) = ground (arith, count-insert_sorted x y ys)

pub count-sorted : (x : String) (xs : List String) → count x (sorted xs) ≡ count x xs
unfolding sorted
count-sorted x [] = refl
count-sorted x (y ∷ xs) = ground (arith, count-sorted x xs, count-insert_sorted x y (sorted xs))

-- How many entries of `xs` are not in `order`.
abbrev pub left : List String → List String → ℕ
left order xs = length (keep_if (λ x. not (contains x order)) xs)

left_mono : (y : String) (order xs : List String) → left (order ++ y ∷ []) xs ≤ left order xs
left_mono y order [] = omega arith
left_mono y order (x ∷ xs) = ground (arith, left_mono y order xs, contains-append x order (y ∷ []))

-- Adding a new one of them leaves fewer.
pub left-lt :
    (y : String) (order xs : List String)
    → contains y xs ≡ true
    → contains y order ≡ false
    → left (order ++ y ∷ []) xs < left order xs
left-lt y order [] m new = cc
left-lt y order (x ∷ xs) m new = ground (
  arith,
  eq_iff y x,
  eq_iff x y,
  left_mono y order xs,
  left-lt y order xs,
  contains-append x order (y ∷ []),
)
