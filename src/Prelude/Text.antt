-- ===== src/Prelude/Text.antt =====
-- Lists of texts as the source's sets and dictionaries use them: membership, `set`, `sorted`, and
-- an insertion-ordered dictionary keyed by texts.
use Prim.Native.Nat.{ℕ}
use Prim.Native.Char.{code}
use Prim.Native.String.{String}
use text.Mathlib.Text.{◌==◌}
use text.Mathlib.TextEquality.{eq_iff}
use mathlib.Core.Path.{◌≡◌, refl}
use mathlib.Core.Logic.{◌↔◌}
use mathlib.Core.Bool.{Bool, true, false, not, ◌&&◌, ◌||◌}
use mathlib.Core.Option.{Option, none, some}
use mathlib.Core.List.{List, [], ◌∷◌, ◌++◌}
use native.Mathlib.Omega.{arith}
use vision_virtual_intellige.Prelude.Tests.{ltb, if◌then◌else◌, is_some}
use vision_virtual_intellige.Prelude.Lists.{length, keep_if, is_empty}

-- `x in xs`
abbrev pub contains : String → List String → Bool
contains x [] = false
contains x (y ∷ ys) = x == y || contains x ys

pub contains-append :
    (x : String) (xs ys : List String) → contains x (xs ++ ys) ≡ (contains x xs || contains x ys)
contains-append x [] ys = refl
contains-append x (y ∷ xs) ys = ground (arith, contains-append x xs ys)

pub contains-keep_if :
    (x : String) (p : String → Bool) (xs : List String)
    → contains x (keep_if p xs) ≡ (p x && contains x xs)
contains-keep_if x p [] = ground arith
contains-keep_if x p (y ∷ xs) = ground (arith, contains-keep_if x p xs, eq_iff x y)

pub keep_if-none :
    (p : String → Bool) (xs : List String) (n : String)
    → length (keep_if p xs) ≡ 0
    → contains n xs ≡ true
    → p n ≡ false
keep_if-none p [] n h m = cc
keep_if-none p (x ∷ xs) n h m = ground (arith, eq_iff n x, keep_if-none p xs n)

pub keep_if-none_of :
    (p : String → Bool) (xs : List String)
    → ((n : String) → contains n xs ≡ true → p n ≡ false)
    → length (keep_if p xs) ≡ 0
keep_if-none_of p [] h = refl
keep_if-none_of p (x ∷ xs) h =
    ground (arith, h x, eq_iff x x, keep_if-none_of p xs (λ n m. h n (ground arith)))

-- `set(xs)`: each element once.
abbrev pub to_set : List String → List String
to_set [] = []
to_set (x ∷ xs) = let rest = to_set xs in if contains x rest then rest else x ∷ rest

pub contains-to_set : (x : String) (xs : List String) → contains x (to_set xs) ≡ contains x xs
contains-to_set x [] = refl
contains-to_set x (y ∷ xs) = ground (arith, contains-to_set x xs, contains-to_set y xs, eq_iff x y)

-- The elements of `xs` that are not in `ys`, `set(xs) - set(ys)`.
abbrev pub difference : List String → List String → List String
difference xs ys = keep_if (λ x. not (contains x ys)) (to_set xs)

pub contains-difference :
    (x : String) (xs ys : List String)
    → contains x (difference xs ys) ≡ (not (contains x ys) && contains x xs)
contains-difference x xs ys = ground (
  arith,
  contains-keep_if x (λ (z : String). not (contains z ys)) (to_set xs),
  contains-to_set x xs,
)

-- Every element of `xs` is in `ys`.
abbrev pub IsSubset : List String → List String → Type 0
IsSubset xs ys = (x : String) → contains x xs ≡ true → contains x ys ≡ true

pub not_contains-is_empty :
    (xs : List String) → ((x : String) → contains x xs ≡ false) → is_empty xs ≡ true
not_contains-is_empty [] h = refl
not_contains-is_empty (y ∷ ys) h = ground (arith, h y, eq_iff y y)

pub contains-is_empty : (x : String) (xs : List String) → is_empty xs ≡ true → contains x xs ≡ false
contains-is_empty x [] h = refl
contains-is_empty x (y ∷ ys) h = cc

-- No text occurs twice.
abbrev pub IsDistinct : List String → Type 0
IsDistinct [] = Unit
IsDistinct (x ∷ xs) = (contains x xs ≡ false) × IsDistinct xs

pub append-IsDistinct :
    (xs ys : List String)
    → IsDistinct xs
    → IsDistinct ys
    → ((y : String) → contains y ys ≡ true → contains y xs ≡ false)
    → IsDistinct (xs ++ ys)
append-IsDistinct [] ys dx dy apart = dy
append-IsDistinct (x ∷ xs) ys dx dy apart = (
  ground (arith, contains-append x xs ys, apart x, eq_iff x x),
  append-IsDistinct xs ys dx.1 dy (λ y m. ground (arith, apart y)),
)

-- Texts compare by their code points, the first difference deciding.
abbrev pub codes : String → List ℕ
codes String.[] = []
codes (String.◌∷◌ c s) = code c ∷ codes s

abbrev codes_le : List ℕ → List ℕ → Bool
codes_le [] ys = true
codes_le (x ∷ xs) [] = false
codes_le (x ∷ xs) (y ∷ ys) = if ltb x y then true else if ltb y x then false else codes_le xs ys

pub str_le : String → String → Bool
str_le s t = codes_le (codes s) (codes t)

unfoldable pub insert_sorted : String → List String → List String
insert_sorted x [] = x ∷ []
insert_sorted x (y ∷ ys) = if str_le x y then x ∷ y ∷ ys else y ∷ insert_sorted x ys

-- `sorted(xs)`
unfoldable pub sorted : List String → List String
unfolding insert_sorted str_le
sorted [] = []
sorted (x ∷ xs) = insert_sorted x (sorted xs)

contains-insert_sorted :
    (x y : String) (ys : List String) → contains x (insert_sorted y ys) ≡ (x == y || contains x ys)
unfolding insert_sorted
contains-insert_sorted x y [] = refl
contains-insert_sorted x y (z ∷ ys) = ground (arith, contains-insert_sorted x y ys)

pub contains-sorted : (x : String) (xs : List String) → contains x (sorted xs) ≡ contains x xs
unfolding sorted
contains-sorted x [] = refl
contains-sorted x (y ∷ xs) =
    ground (arith, contains-sorted x xs, contains-insert_sorted x y (sorted xs))

-- A difference is empty exactly when it has nothing to remove from a subset.
pub difference-is_empty :
    (xs ys : List String) → (is_empty (sorted (difference xs ys)) ≡ true) ↔ IsSubset xs ys
difference-is_empty xs ys = (
  λ h x m. ground (
    arith,
    contains-is_empty x (sorted (difference xs ys)) h,
    contains-sorted x (difference xs ys),
    contains-difference x xs ys,
  ),
  λ h.
      not_contains-is_empty (sorted (difference xs ys))
        λ x. ground (arith, contains-sorted x (difference xs ys), contains-difference x xs ys, h x),
)

abbrev pub Dict {ℓ} : Type ℓ → Type ℓ
Dict V = List (String × V)

module _ {ℓ} {V : Type ℓ} where
  -- `d.get(k)`
  abbrev pub lookup : String → Dict V → Option V
  lookup k [] = none
  lookup k ((j, v) ∷ d) = if k == j then some v else lookup k d

  -- `k in d`
  abbrev pub has_key : String → Dict V → Bool
  has_key k [] = false
  has_key k ((j, v) ∷ d) = k == j || has_key k d

  -- `d[k] = v`
  abbrev pub insert : String → V → Dict V → Dict V
  insert k v [] = (k, v) ∷ []
  insert k v ((j, w) ∷ d) = if k == j then (k, v) ∷ d else (j, w) ∷ insert k v d

  -- `del d[k]`
  abbrev pub erase : String → Dict V → Dict V
  erase k [] = []
  erase k ((j, w) ∷ d) = if k == j then d else (j, w) ∷ erase k d

  abbrev pub keys : Dict V → List String
  keys [] = []
  keys ((j, w) ∷ d) = j ∷ keys d

  abbrev pub values : Dict V → List V
  values [] = []
  values ((k, v) ∷ d) = v ∷ values d

  pub lookup-insert :
      (j k : String) (v : V) (d : Dict V)
      → lookup j (insert k v d) ≡ (if j == k then some v else lookup j d)
  lookup-insert j k v [] = refl
  lookup-insert j k v ((i, w) ∷ d) =
      ground (arith, eq_iff k j, eq_iff j k, eq_iff k i, eq_iff j i, lookup-insert j k v d)

  pub has_key-lookup : (k : String) (d : Dict V) → has_key k d ≡ is_some (lookup k d)
  has_key-lookup k [] = refl
  has_key-lookup k ((j, v) ∷ d) = ground (arith, has_key-lookup k d)

  pub has_key-insert :
      (j k : String) (v : V) (d : Dict V) → has_key j (insert k v d) ≡ (j == k || has_key j d)
  has_key-insert j k v [] = refl
  has_key-insert j k v ((i, w) ∷ d) =
      ground (arith, eq_iff k j, eq_iff j k, eq_iff k i, eq_iff j i, has_key-insert j k v d)

  pub contains-keys : (k : String) (d : Dict V) → contains k (keys d) ≡ has_key k d
  contains-keys k [] = refl
  contains-keys k ((j, w) ∷ d) = ground (arith, contains-keys k d)

  pub lookup-erase-other :
      (j k : String) (d : Dict V) → j == k ≡ false → lookup j (erase k d) ≡ lookup j d
  lookup-erase-other j k [] n = refl
  lookup-erase-other j k ((i, w) ∷ d) n =
      ground (arith, eq_iff j k, eq_iff k i, eq_iff j i, lookup-erase-other j k d)

  pub has_key-erase :
      (j k : String) (d : Dict V) → has_key j (erase k d) ≡ true → has_key j d ≡ true
  has_key-erase j k [] h = h
  has_key-erase j k ((i, w) ∷ d) h = ground (arith, has_key-erase j k d)
