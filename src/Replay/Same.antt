-- ===== src/Replay/Same.antt =====
-- services/integration/replay/state_diff.py: two values that a diff should call identical.
use vision_virtual_intellige.Prelude.{
  ℕ, suc, ◌≡◌, ◌≢◌, refl, sym, ap, subst, String, ◌==◌, eq_iff, Bool, true, ◌↔◌, ◌||◌, inl, inr,
  Option, none, some, List, [], ◌∷◌, ◌++◌, arith, is_empty, contains, Bool-cases, is_some, decimal,
}
use vision_virtual_intellige.Replay.{
  Value, Entries, Items, FieldChange, Walk, entry_at, chain, sub_path, walk_pair, walk_keys,
  walk_items,
}

mutual
  -- Equal leaves, dictionaries with the same keys and the same values at them in any order, and lists
  -- with the same values at each position.
  pub data Same {L : Type 0} (same : L → L → Bool) : Value L → Value L → Type 0 where
    leaves : {b a : L} → same b a ≡ true → Same same (Value.leaf b) (Value.leaf a)
    dicts :
        {b a : Entries L}
        → ((key : String) → SameAt same (entry_at key b) (entry_at key a))
        → Same same (Value.dict b) (Value.dict a)
    seqs : {b a : Items L} → SameItems same b a → Same same (Value.seq b) (Value.seq a)

  pub data SameAt {L : Type 0} (same : L → L → Bool)
      : Option (Value L) → Option (Value L) → Type 0 where
    absent : SameAt same none none
    present : {b a : Value L} → Same same b a → SameAt same (some b) (some a)

  pub data SameItems {L : Type 0} (same : L → L → Bool) : Items L → Items L → Type 0 where
    ended : SameItems same Items.no_items Items.no_items
    also :
        {b a : Value L} {bs rest : Items L}
        → Same same b a
        → SameItems same bs rest
        → SameItems same (Items.item b bs) (Items.item a rest)

module _ {L : Type 0} (null : L) (same : L → L → Bool) where
  -- The walk finds no change exactly at values that are the same.
  abbrev pub IsExact : Walk L → Type 0
  IsExact walk =
      (b a : Value L) (path : String) (changes : List (FieldChange L))
      → walk b a path ≡ some changes
      → (is_empty changes ≡ true) ↔ Same same b a

  chain-some :
      (first rest : Option (List (FieldChange L))) (changes : List (FieldChange L))
      → chain first rest ≡ some changes
      → (xs : List (FieldChange L)) × (ys : List (FieldChange L)) × (first ≡ some xs)
        × (rest ≡ some ys)
        × (changes ≡ xs ++ ys)
  chain-some none rest changes e = cc
  chain-some (some xs) none changes e = cc
  chain-some (some xs) (some ys) changes e = (xs, ys, refl, refl, cc)

  is_empty-append :
      (xs ys : List (FieldChange L))
      → (is_empty (xs ++ ys) ≡ true) ↔ ((is_empty xs ≡ true) × (is_empty ys ≡ true))
  is_empty-append [] ys = (λ h. (refl, h), λ h. h.1)
  is_empty-append (x ∷ xs) ys = (λ h. cc, λ h. h.0)

  one_change :
      (change : FieldChange L) (changes : List (FieldChange L))
      → is_empty changes ≡ true
      → some (change ∷ []) ≢ some changes
  one_change change [] h e = cc
  one_change change (c ∷ changes) h e = cc

  walk_pair-exact :
      (walk : Walk L)
      → IsExact walk
      → (b a : Option (Value L)) (path : String) (changes : List (FieldChange L))
      → ((is_some b || is_some a) ≡ true)
      → walk_pair null walk b a path ≡ some changes
      → (is_empty changes ≡ true) ↔ SameAt same b a
  unfolding walk_pair
  walk_pair-exact walk exact (some b) (some a) path changes one e = (
    λ h. SameAt.present ((exact b a path changes e).0 h),
    λ h. elim h [ SameAt.present s ↦ (exact b a path changes e).1 s ],
  )
  walk_pair-exact walk exact none none path changes one e = cc
  walk_pair-exact walk exact none (some a) path changes one e =
      (λ h. elim (one_change _ changes h e) [ ], λ s. elim s [ ])
  walk_pair-exact walk exact (some b) none path changes one e =
      (λ h. elim (one_change _ changes h e) [ ], λ s. elim s [ ])

  -- At the keys of the loop.
  abbrev pub SameKeys : List String → Entries L → Entries L → Type 0
  SameKeys keys b a =
      (key : String) → contains key keys ≡ true → SameAt same (entry_at key b) (entry_at key a)

  chain-exact :
      {P Q : Type 0} (first rest : Option (List (FieldChange L))) (changes : List (FieldChange L))
      → chain first rest ≡ some changes
      → ((xs : List (FieldChange L)) → first ≡ some xs → (is_empty xs ≡ true) ↔ P)
      → ((ys : List (FieldChange L)) → rest ≡ some ys → (is_empty ys ≡ true) ↔ Q)
      → (is_empty changes ≡ true) ↔ (P × Q)
  chain-exact first rest changes e p q =
      let (xs, ys, ex, ey, split) = chain-some first rest changes e in
      let (both, back) = is_empty-append xs ys in
      (
        λ h.
            let (hx, hy) = both (subst (λ cs. is_empty cs ≡ true) split h) in
            ((p xs ex).0 hx, (q ys ey).0 hy),
        λ (sp, sq).
            subst (λ cs. is_empty cs ≡ true) (sym split) (back ((p xs ex).1 sp, (q ys ey).1 sq)),
      )

  pub walk_keys-exact :
      (walk : Walk L)
      → IsExact walk
      → (keys : List String) (b a : Entries L) (path : String) (changes : List (FieldChange L))
      → ((key : String)
          → contains key keys ≡ true
          → (is_some (entry_at key b) || is_some (entry_at key a)) ≡ true)
      → walk_keys null walk keys b a path ≡ some changes
      → (is_empty changes ≡ true) ↔ SameKeys keys b a
  unfolding walk_keys
  walk_keys-exact walk exact [] b a path changes there e =
      (λ h key m. cc, λ h. let none_found : [] ≡ changes = cc in ap is_empty (sym none_found))
  walk_keys-exact walk exact (k ∷ keys) b a path changes there e =
      let split =
        chain-exact _ _ changes e
          (λ xs.
            walk_pair-exact walk exact (entry_at k b) (entry_at k a) (sub_path path k) xs
              (there k (ground (arith, eq_iff k k))))
          (λ ys. walk_keys-exact walk exact keys b a path ys (λ key m. there key (ground arith))) in
      (
        λ h key m. elim (Bool-cases (key == k)) [
          | inl this ↦
              subst (λ j. SameAt same (entry_at j b) (entry_at j a))
                (sym (ground (arith, eq_iff key k))) (split.0 h).0
          | inr other ↦ (split.0 h).1 key (ground arith)
        ],
        λ h. split.1 (h k (ground (arith, eq_iff k k)), λ key m. h key (ground arith)),
      )

  pub walk_items-exact :
      (walk : Walk L)
      → IsExact walk
      → (i : ℕ) (b a : Items L) (path : String) (changes : List (FieldChange L))
      → walk_items null walk i b a path ≡ some changes
      → (is_empty changes ≡ true) ↔ SameItems same b a
  unfolding walk_items
  walk_items-exact walk exact i Items.no_items Items.no_items path changes e = (
    λ h. SameItems.ended,
    λ s. let none_found : [] ≡ changes = cc in ap is_empty (sym none_found),
  )
  walk_items-exact walk exact i Items.no_items (Items.item a rest) path changes e =
      let split =
        chain-exact _ _ changes e
          (λ xs. walk_pair-exact walk exact none (some a) (sub_path path (decimal i)) xs refl)
          (λ ys. walk_items-exact walk exact (suc i) Items.no_items rest path ys) in
      (λ h. elim (split.0 h).0 [ ], λ s. elim s [ ])
  walk_items-exact walk exact i (Items.item b bs) Items.no_items path changes e =
      let split =
        chain-exact _ _ changes e
          (λ xs. walk_pair-exact walk exact (some b) none (sub_path path (decimal i)) xs refl)
          (λ ys. walk_items-exact walk exact (suc i) bs Items.no_items path ys) in
      (λ h. elim (split.0 h).0 [ ], λ s. elim s [ ])
  walk_items-exact walk exact i (Items.item b bs) (Items.item a rest) path changes e =
      let split =
        chain-exact _ _ changes e
          (λ xs. walk_pair-exact walk exact (some b) (some a) (sub_path path (decimal i)) xs refl)
          (λ ys. walk_items-exact walk exact (suc i) bs rest path ys) in
      (
        λ h. elim (split.0 h).0 [ SameAt.present s ↦ SameItems.also s (split.0 h).1 ],
        λ s. elim s [ SameItems.also first others ↦ split.1 (SameAt.present first, others) ],
      )
