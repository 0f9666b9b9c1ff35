-- ===== src/Replay/Total.antt =====
-- services/integration/replay/state_diff.py: a walk has enough fuel in the height of its first value.
use vision_virtual_intellige.Prelude.{
  ℕ, zero, suc, ◌≤◌, ◌≡◌, ◌≢◌, String, ◌==◌, Option, none, some, List, [], ◌∷◌, arith, Bool-cases,
  inl, inr, decimal, subst, refl, max, Bool,
}
use vision_virtual_intellige.Replay.{
  Value, Entries, Items, FieldChange, Walk, entry_at, chain, walk_pair, walk_keys, walk_items,
  walk_value, walk_leaf, sub_path, all_keys, height, entries_height, items_height,
}

entry_at-height :
    {L : Type 0} (key : String) (es : Entries L) (v : Value L)
    → entry_at key es ≡ some v
    → height v ≤ entries_height es
unfolding height
entry_at-height key Entries.no_entries v e = cc
entry_at-height key (Entries.entry k w es) v e = elim (Bool-cases (key == k)) [
  | inl this ↦
      let same : w ≡ v = ground (arith, e, this) in
      subst (λ x. height x ≤ max (height w) (entries_height es)) same (omega arith)
  | inr other ↦ omega (arith, entry_at-height key es v (ground (arith, e, other)))
]

height_positive : {L : Type 0} (v : Value L) → 1 ≤ height v
unfolding height
height_positive (Value.leaf x) = omega arith
height_positive (Value.dict es) = omega arith
height_positive (Value.seq vs) = omega arith

module _ {L : Type 0} (null : L) (same : L → L → Bool) where
  -- The walk of every first value up to this height comes to an end.
  abbrev pub IsTotal : ℕ → Walk L → Type 0
  IsTotal n walk = (b a : Value L) (path : String) → height b ≤ n → walk b a path ≢ none

  low_one :
      (n : ℕ) (b : Value L) (k : ℕ)
      → max (height b) k ≤ n
      → (v : Value L) → some b ≡ some v
      → height v ≤ n
  low_one n b k low v e = let same : b ≡ v = cc in subst (λ x. height x ≤ n) same (omega arith)

  chain-ne-none :
      (first rest : Option (List (FieldChange L)))
      → first ≢ none
      → rest ≢ none
      → chain first rest ≢ none
  chain-ne-none none rest f r e = f e
  chain-ne-none (some xs) none f r e = r e
  chain-ne-none (some xs) (some ys) f r e = cc

  walk_pair-ne-none :
      (n : ℕ) (walk : Walk L)
      → IsTotal n walk
      → (b a : Option (Value L)) (path : String) → ((v : Value L) → b ≡ some v → height v ≤ n)
      → walk_pair null walk b a path ≢ none
  unfolding walk_pair
  walk_pair-ne-none n walk total (some b) (some a) path low = total b a path (low b refl)
  walk_pair-ne-none n walk total none a path low = λ e. cc
  walk_pair-ne-none n walk total (some b) none path low = λ e. cc

  pub walk_keys-ne-none :
      (n : ℕ) (walk : Walk L)
      → IsTotal n walk
      → (keys : List String) (b a : Entries L) (path : String) → entries_height b ≤ n
      → walk_keys null walk keys b a path ≢ none
  unfolding walk_keys
  walk_keys-ne-none n walk total [] b a path low = λ e. cc
  walk_keys-ne-none n walk total (k ∷ keys) b a path low =
      chain-ne-none _ _
        (walk_pair-ne-none n walk total (entry_at k b) (entry_at k a) (sub_path path k)
          (λ v e. omega (arith, entry_at-height k b v e)))
        (walk_keys-ne-none n walk total keys b a path low)

  walk_items-ne-none :
      (n : ℕ) (walk : Walk L)
      → IsTotal n walk
      → (i : ℕ) (b a : Items L) (path : String) → items_height b ≤ n
      → walk_items null walk i b a path ≢ none
  unfolding walk_items height
  walk_items-ne-none n walk total i Items.no_items Items.no_items path low = λ e. cc
  walk_items-ne-none n walk total i Items.no_items (Items.item a rest) path low =
      chain-ne-none _ _
        (walk_pair-ne-none n walk total none (some a) (sub_path path (decimal i)) (λ v e. cc))
        (walk_items-ne-none n walk total (suc i) Items.no_items rest path low)
  walk_items-ne-none n walk total i (Items.item b bs) Items.no_items path low =
      chain-ne-none _ _
        (walk_pair-ne-none n walk total (some b) none (sub_path path (decimal i))
          (low_one n b (items_height bs) low))
        (walk_items-ne-none n walk total (suc i) bs Items.no_items path (omega arith))
  walk_items-ne-none n walk total i (Items.item b bs) (Items.item a rest) path low =
      chain-ne-none _ _
        (walk_pair-ne-none n walk total (some b) (some a) (sub_path path (decimal i))
          (low_one n b (items_height bs) low))
        (walk_items-ne-none n walk total (suc i) bs rest path (omega arith))

  walk_leaf-ne-none : (b a : Value L) (path : String) → walk_leaf same b a path ≢ none
  walk_leaf-ne-none b a path e = ground (arith, e)

  pub walk_value-IsTotal : (fuel : ℕ) → IsTotal fuel (walk_value null same fuel)
  unfolding walk_value height
  walk_value-IsTotal zero b a path low = omega (arith, height_positive b)
  walk_value-IsTotal (suc fuel) (Value.dict b) (Value.dict a) path low =
      walk_keys-ne-none fuel (walk_value null same fuel) (walk_value-IsTotal fuel) (all_keys b a) b
        a path (omega arith)
  walk_value-IsTotal (suc fuel) (Value.seq b) (Value.seq a) path low =
      walk_items-ne-none fuel (walk_value null same fuel) (walk_value-IsTotal fuel) 0 b a path
        (omega arith)
  walk_value-IsTotal (suc fuel) (Value.leaf b) a path low = walk_leaf-ne-none (Value.leaf b) a path
  walk_value-IsTotal (suc fuel) (Value.dict b) (Value.leaf a) path low =
      walk_leaf-ne-none (Value.dict b) (Value.leaf a) path
  walk_value-IsTotal (suc fuel) (Value.dict b) (Value.seq a) path low =
      walk_leaf-ne-none (Value.dict b) (Value.seq a) path
  walk_value-IsTotal (suc fuel) (Value.seq b) (Value.leaf a) path low =
      walk_leaf-ne-none (Value.seq b) (Value.leaf a) path
  walk_value-IsTotal (suc fuel) (Value.seq b) (Value.dict a) path low =
      walk_leaf-ne-none (Value.seq b) (Value.dict a) path
