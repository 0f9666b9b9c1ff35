-- ===== src/Replay/Diff.antt =====
-- services/integration/replay/state_diff.py. A value is a dictionary, a list or a leaf of a type L, whose
-- `==` is `same` and whose None is `null`. The recursion is on fuel: the values get less high.
use Prim.Native.String.{◌++◌ as str_append}
use vision_virtual_intellige.Prelude.{
  ℕ, zero, suc, max, String, ◌==◌, Bool, false, ◌&&◌, Option, none, some, List, [], ◌∷◌, ◌++◌,
  if◌then◌else◌, is_empty, keep_if, contains, to_set, difference, sorted, decimal,
}

mutual
  pub data Value (L : Type 0) : Type 0 where
    leaf : L → Value L
    dict : Entries L → Value L
    seq : Items L → Value L

  pub data Entries (L : Type 0) : Type 0 where
    no_entries : Entries L
    entry : String → Value L → Entries L → Entries L

  pub data Items (L : Type 0) : Type 0 where
    no_items : Items L
    item : Value L → Items L → Items L

pub record FieldChange (L : Type 0) : Type 0 where
  pub path : String
  pub before : Value L
  pub after : Value L

pub record StateDiff (L : Type 0) : Type 0 where
  pub keys_added : List String
  pub keys_removed : List String
  pub changed : List (FieldChange L)
  pub identical : Bool

-- `f"{path}.{key}" if path else key`
abbrev pub sub_path : String → String → String
sub_path path key = if path == "" then key else str_append path (str_append "." key)

-- A walk of two values at a path, and the changes that it appends.
abbrev pub Walk : (L : Type 0) → Type 0
Walk L = Value L → Value L → String → Option (List (FieldChange L))

module _ {L : Type 0} where
  -- `d.get(key)`, none for a key that is not there
  abbrev pub entry_at : String → Entries L → Option (Value L)
  entry_at key Entries.no_entries = none
  entry_at key (Entries.entry k v es) = if key == k then some v else entry_at key es

  abbrev pub entry_keys : Entries L → List String
  entry_keys Entries.no_entries = []
  entry_keys (Entries.entry k v es) = k ∷ entry_keys es

  -- The changes of the first part before those of the second.
  abbrev pub chain :
      Option (List (FieldChange L)) → Option (List (FieldChange L)) → Option (List (FieldChange L))
  chain none rest = none
  chain (some changes) none = none
  chain (some changes) (some more) = some (changes ++ more)

  -- A side that is missing is written as None.
  abbrev pub or_null : L → Option (Value L) → Value L
  or_null null none = Value.leaf null
  or_null null (some v) = v

  -- One round of either loop: a missing side is a change, two values are walked.
  unfoldable pub walk_pair :
      L → Walk L → Option (Value L) → Option (Value L) → String → Option (List (FieldChange L))
  walk_pair null walk (some b) (some a) path = walk b a path
  walk_pair null walk none a path =
      some (record { path = path; before = Value.leaf null; after = or_null null a } ∷ [])
  walk_pair null walk (some b) none path =
      some (record { path = path; before = b; after = Value.leaf null } ∷ [])

  -- The loop over the keys of two dictionaries.
  unfoldable pub walk_keys :
      L → Walk L → List String → Entries L → Entries L → String → Option (List (FieldChange L))
  unfolding walk_pair
  walk_keys null walk [] before after path = some []
  walk_keys null walk (key ∷ keys) before after path =
      chain (walk_pair null walk (entry_at key before) (entry_at key after) (sub_path path key))
        (walk_keys null walk keys before after path)

  -- The loop over the positions of two lists, from position `i`.
  unfoldable pub walk_items :
      L → Walk L → ℕ → Items L → Items L → String → Option (List (FieldChange L))
  unfolding walk_pair
  walk_items null walk i Items.no_items Items.no_items path = some []
  walk_items null walk i Items.no_items (Items.item a rest) path =
      chain (walk_pair null walk none (some a) (sub_path path (decimal i)))
        (walk_items null walk (suc i) Items.no_items rest path)
  walk_items null walk i (Items.item b bs) Items.no_items path =
      chain (walk_pair null walk (some b) none (sub_path path (decimal i)))
        (walk_items null walk (suc i) bs Items.no_items path)
  walk_items null walk i (Items.item b bs) (Items.item a rest) path =
      chain (walk_pair null walk (some b) (some a) (sub_path path (decimal i)))
        (walk_items null walk (suc i) bs rest path)

  -- `sorted(set(before) | set(after))`
  abbrev pub all_keys : Entries L → Entries L → List String
  all_keys before after = sorted (to_set (entry_keys before ++ entry_keys after))

  -- `_equal_leaf`: values of different kinds are not equal.
  abbrev pub equal_leaf : (L → L → Bool) → Value L → Value L → Bool
  equal_leaf same (Value.leaf b) (Value.leaf a) = same b a
  equal_leaf same b a = false

  -- The last test of `_walk`.
  abbrev pub walk_leaf : (L → L → Bool) → Walk L
  walk_leaf same before after path =
      if equal_leaf same before after
      then some []
      else some
          (record { path = if path == "" then "$" else path; before = before; after = after } ∷ [])

  unfoldable pub walk_value : L → (L → L → Bool) → ℕ → Walk L
  unfolding walk_keys walk_items
  walk_value null same zero before after path = none
  walk_value null same (suc fuel) (Value.dict before) (Value.dict after) path =
      walk_keys null (walk_value null same fuel) (all_keys before after) before after path
  walk_value null same (suc fuel) (Value.seq before) (Value.seq after) path =
      walk_items null (walk_value null same fuel) 0 before after path
  walk_value null same (suc fuel) before after path = walk_leaf same before after path

unfoldable mutual
  -- Values nest less deep than this; the fuel of a walk.
  pub height : {L : Type 0} → Value L → ℕ
  height (Value.leaf x) = 1
  height (Value.dict es) = suc (entries_height es)
  height (Value.seq vs) = suc (items_height vs)

  pub entries_height : {L : Type 0} → Entries L → ℕ
  entries_height Entries.no_entries = 1
  entries_height (Entries.entry k v es) = max (height v) (entries_height es)

  pub items_height : {L : Type 0} → Items L → ℕ
  items_height Items.no_items = 1
  items_height (Items.item v vs) = max (height v) (items_height vs)

module _ {L : Type 0} where
  -- `before if isinstance(before, dict) else {}`
  abbrev pub as_dict : Value L → Entries L
  as_dict (Value.dict es) = es
  as_dict v = Entries.no_entries

  -- `sorted(set(before) & set(after))`
  abbrev pub common_keys : Entries L → Entries L → List String
  common_keys before after =
      sorted (keep_if (λ key. contains key (entry_keys after)) (to_set (entry_keys before)))

  abbrev pub state_diff : Entries L → Entries L → List (FieldChange L) → StateDiff L
  state_diff before after changed =
      let keys_added = sorted (difference (entry_keys after) (entry_keys before)) in
      let keys_removed = sorted (difference (entry_keys before) (entry_keys after)) in
      record {
        keys_added = keys_added;
        keys_removed = keys_removed;
        changed = changed;
        identical = is_empty keys_added && (is_empty keys_removed && is_empty changed);
      }

  abbrev pub diff_result :
      Entries L → Entries L → Option (List (FieldChange L)) → Option (StateDiff L)
  diff_result before after none = none
  diff_result before after (some changed) = some (state_diff before after changed)

  -- The top level loop walks the common keys with their names as paths.
  unfoldable pub diff_states : L → (L → L → Bool) → Value L → Value L → Option (StateDiff L)
  unfolding walk_value
  diff_states null same before after =
      let b = as_dict before in
      let a = as_dict after in
      diff_result b a
        (walk_keys null (walk_value null same (entries_height b)) (common_keys b a) b a "")
