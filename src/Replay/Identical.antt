-- ===== src/Replay/Identical.antt =====
-- services/integration/replay/state_diff.py: a diff is made, and says identical exactly of states that
-- are the same.
use vision_virtual_intellige.Prelude.{
  Option-cases, IsSubset, difference-is_empty, contains-keep_if, keep_if, ◌&&◌, is_some, inl, inr,
  ℕ, zero, suc, ◌≡◌, refl, String, Bool, true, false, ◌↔◌, ◌||◌, inl, inr, Option, none, some, List,
  ◌++◌, arith, is_empty, contains, contains-append, contains-to_set, contains-sorted, to_set,
  Bool-cases, is_some,
}
use vision_virtual_intellige.Replay.{
  state_diff, StateDiff, entries_height, walk_keys, common_keys, as_dict, diff_states, Value,
  Entries, FieldChange, entry_at, entry_keys, walk_value, walk_leaf, all_keys, equal_leaf,
}
use vision_virtual_intellige.Replay.Total.{walk_keys-ne-none, walk_value-IsTotal}
use vision_virtual_intellige.Replay.Same.{
  SameKeys, Same, SameAt, IsExact, walk_keys-exact, walk_items-exact,
}

contains-entry_keys :
    {L : Type 0} (key : String) (es : Entries L)
    → contains key (entry_keys es) ≡ is_some (entry_at key es)
contains-entry_keys key Entries.no_entries = refl
contains-entry_keys key (Entries.entry k v es) = ground (arith, contains-entry_keys key es)

contains-all_keys :
    {L : Type 0} (key : String) (b a : Entries L)
    → contains key (all_keys b a) ≡ (is_some (entry_at key b) || is_some (entry_at key a))
contains-all_keys key b a = ground (
  arith,
  contains-sorted key (to_set (entry_keys b ++ entry_keys a)),
  contains-to_set key (entry_keys b ++ entry_keys a),
  contains-append key (entry_keys b) (entry_keys a),
  contains-entry_keys key b,
  contains-entry_keys key a,
)

-- Two absent entries are the same.
absent_same :
    {L : Type 0} (same : L → L → Bool) (b a : Option (Value L))
    → (is_some b || is_some a) ≡ false
    → SameAt same b a
absent_same same none none h = SameAt.absent
absent_same same none (some a) h = cc
absent_same same (some b) a h = cc

module _ {L : Type 0} (null : L) (same : L → L → Bool) where
  walk_leaf-exact :
      (b a : Value L) (path : String) (changes : List (FieldChange L))
      → walk_leaf same b a path ≡ some changes
      → (is_empty changes ≡ true) ↔ (equal_leaf same b a ≡ true)
  walk_leaf-exact b a path changes e = elim (Bool-cases (equal_leaf same b a)) [
    | inl equal ↦ (λ h. equal, λ h. ground (arith, e, equal))
    | inr apart ↦ (λ h. ground (arith, e, apart, h), λ h. cc)
  ]

  -- Values of different kinds are neither equal leaves nor the same.
  apart : {P Q : Type 0} → (P → false ≡ true) → P → Q
  apart unequal p = let wrong = unequal p in cc

  walk_value-IsExact : (fuel : ℕ) → IsExact null same (walk_value null same fuel)
  unfolding walk_value
  walk_value-IsExact zero b a path changes e = cc
  walk_value-IsExact (suc fuel) (Value.dict b) (Value.dict a) path changes e =
      let (there, back) =
        walk_keys-exact null same (walk_value null same fuel) (walk_value-IsExact fuel)
          (all_keys b a) b a path changes (λ key m. ground (arith, contains-all_keys key b a)) e in
      (
        λ h. Same.dicts {b = b} {a = a} (λ key. elim (Bool-cases (contains key (all_keys b a))) [
          | inl one ↦ there h key one
          | inr out ↦
              absent_same same (entry_at key b) (entry_at key a)
                (ground (arith, contains-all_keys key b a))
        ]),
        λ s. elim s [ Same.dicts at ↦ back (λ key m. at key) ],
      )
  walk_value-IsExact (suc fuel) (Value.seq b) (Value.seq a) path changes e =
      let (there, back) =
        walk_items-exact null same (walk_value null same fuel) (walk_value-IsExact fuel) 0 b a path
          changes e in
      (λ h. Same.seqs (there h), λ s. elim s [ Same.seqs items ↦ back items ])
  walk_value-IsExact (suc fuel) (Value.leaf b) (Value.leaf a) path changes e =
      let (there, back) = walk_leaf-exact (Value.leaf b) (Value.leaf a) path changes e in
      (λ h. Same.leaves (there h), λ s. elim s [ Same.leaves equal ↦ back equal ])
  walk_value-IsExact (suc fuel) (Value.leaf b) (Value.dict a) path changes e = (
    λ h. apart (walk_leaf-exact (Value.leaf b) (Value.dict a) path changes e).0 h,
    λ s. elim s [ ],
  )
  walk_value-IsExact (suc fuel) (Value.leaf b) (Value.seq a) path changes e = (
    λ h. apart (walk_leaf-exact (Value.leaf b) (Value.seq a) path changes e).0 h,
    λ s. elim s [ ],
  )
  walk_value-IsExact (suc fuel) (Value.dict b) (Value.leaf a) path changes e = (
    λ h. apart (walk_leaf-exact (Value.dict b) (Value.leaf a) path changes e).0 h,
    λ s. elim s [ ],
  )
  walk_value-IsExact (suc fuel) (Value.dict b) (Value.seq a) path changes e = (
    λ h. apart (walk_leaf-exact (Value.dict b) (Value.seq a) path changes e).0 h,
    λ s. elim s [ ],
  )
  walk_value-IsExact (suc fuel) (Value.seq b) (Value.leaf a) path changes e = (
    λ h. apart (walk_leaf-exact (Value.seq b) (Value.leaf a) path changes e).0 h,
    λ s. elim s [ ],
  )
  walk_value-IsExact (suc fuel) (Value.seq b) (Value.dict a) path changes e = (
    λ h. apart (walk_leaf-exact (Value.seq b) (Value.dict a) path changes e).0 h,
    λ s. elim s [ ],
  )

contains-common_keys :
    {L : Type 0} (key : String) (b a : Entries L)
    → contains key (common_keys b a) ≡ (is_some (entry_at key b) && is_some (entry_at key a))
contains-common_keys key b a = ground (
  arith,
  contains-sorted key (keep_if (λ k. contains k (entry_keys a)) (to_set (entry_keys b))),
  contains-keep_if key (λ k. contains k (entry_keys a)) (to_set (entry_keys b)),
  contains-to_set key (entry_keys b),
  contains-entry_keys key b,
  contains-entry_keys key a,
)

subset_some :
    {L : Type 0} (b a : Entries L)
    → IsSubset (entry_keys b) (entry_keys a)
    → (key : String) → is_some (entry_at key b) ≡ true
    → is_some (entry_at key a) ≡ true
subset_some b a sub key h =
    ground (arith, sub key, contains-entry_keys key b, contains-entry_keys key a)

some_subset :
    {L : Type 0} (b a : Entries L)
    → ((key : String) → is_some (entry_at key b) ≡ true → is_some (entry_at key a) ≡ true)
    → IsSubset (entry_keys b) (entry_keys a)
some_subset b a h key m =
    ground (arith, h key, contains-entry_keys key b, contains-entry_keys key a)

SameAt-some :
    {L : Type 0} {same : L → L → Bool} {b a : Option (Value L)}
    → SameAt same b a
    → is_some b ≡ is_some a
SameAt-some SameAt.absent = refl
SameAt-some (SameAt.present s) = refl

-- Both differences of the keys are empty, and so are the changes at the common ones.
identical-Same :
    {L : Type 0} (null : L) (same : L → L → Bool) (b a : Entries L) (changes : List (FieldChange L))
    → ((is_empty changes ≡ true) ↔ SameKeys null same (common_keys b a) b a)
    → ((state_diff b a changes).identical ≡ true) ↔ Same same (Value.dict b) (Value.dict a)
identical-Same null same b a changes (there, back) =
    let added = difference-is_empty (entry_keys a) (entry_keys b) in
    let removed = difference-is_empty (entry_keys b) (entry_keys a) in
    (
      λ h.
          let fewer = subset_some b a (removed.0 (ground (arith, h))) in
          let more = subset_some a b (added.0 (ground (arith, h))) in
          let at = there (ground (arith, h)) in
          Same.dicts {b = b} {a = a} (λ key. elim (Bool-cases (contains key (common_keys b a))) [
            | inl one ↦ at key one
            | inr out ↦
                absent_same same (entry_at key b) (entry_at key a)
                  (ground (arith, contains-common_keys key b a, fewer key, more key))
          ]),
      λ s. elim s [
        | Same.dicts at ↦ ground (
          arith,
          removed.1 (some_subset b a (λ key m. ground (arith, m, SameAt-some (at key)))),
          added.1 (some_subset a b (λ key m. ground (arith, m, SameAt-some (at key)))),
          back (λ key m. at key),
        )
      ],
    )

-- A diff of two states ends with a result, and the result says identical exactly when the states are
-- the same: they have the same keys, in any order, and at each key equal leaves, dictionaries that
-- are the same in this sense, or lists that are, position by position. A state that is no dictionary
-- counts as the empty one.
pub diff_states-identical :
    {L : Type 0} (null : L) (same : L → L → Bool) (before after : Value L)
    → (d : StateDiff L) × (diff_states null same before after ≡ some d)
      × ((d.identical ≡ true)
          ↔ Same same (Value.dict (as_dict before)) (Value.dict (as_dict after)))
unfolding diff_states
diff_states-identical {L} null same before after =
    let b = as_dict before in
    let a = as_dict after in
    let walk = walk_value null same (entries_height b) in
    let walked = walk_keys null walk (common_keys b a) b a "" in
    elim (Option-cases walked) [
      | inl stopped ↦
          elim (walk_keys-ne-none null same (entries_height b) walk
            (walk_value-IsTotal null same (entries_height b)) (common_keys b a) b a "" (omega arith)
            stopped) [ ]
      | inr (changes, e) ↦ (
        state_diff b a changes,
        rw e refl,
        identical-Same null same b a changes (
            walk_keys-exact null same walk (walk_value-IsExact null same (entries_height b))
              (common_keys b a) b a "" changes
              (λ key m. ground (arith, contains-common_keys key b a)) e),
      )
    ]
