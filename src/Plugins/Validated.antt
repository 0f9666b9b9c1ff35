-- ===== src/Plugins/Validated.antt =====
-- services/integration/plugin_sdk/plugin_validator.py: what a valid manifest and a duplicate id are.
use vision_virtual_intellige.Prelude.{
  Bool-cases, inl, inr, ℕ, ◌+◌, ◌<◌, ◌≡◌, refl, String, ◌==◌, eq_iff, Bool, true, false, not, ◌&&◌,
  ◌↔◌, Option, none, some, List, [], ◌∷◌, ◌++◌, arith, any, any-append, contains, contains-keys,
  IsSubset, IsDistinct, ltb, if◌then◌else◌, Dict, lookup, has_key, has_key-insert, lookup-insert,
  insert, keys,
}
use vision_virtual_intellige.Plugins.{
  PluginManifest, is_error, unknown_names, known_permissions, known_hooks, is_known_permission,
  is_known_hook, parse_version, is_compatible, validate_permissions, validate_hooks,
  validate_version_compatibility, validate_manifest, count_ids, duplicate_issues,
  validate_duplicate_ids,
}

any-unknown_names :
    (known : String → Bool) (rule id : String) (names : List String)
    → any is_error (unknown_names known rule id names) ≡ any (λ n. not (known n)) names
any-unknown_names known rule id [] = refl
any-unknown_names known rule id (n ∷ names) = ground (arith, any-unknown_names known rule id names)

none_unknown :
    (names vocabulary : List String)
    → (any (λ n. not (contains n vocabulary)) names ≡ false) ↔ IsSubset names vocabulary
none_unknown [] vocabulary = (λ h x m. absurd (ground arith), λ h. refl)
none_unknown (n ∷ names) vocabulary =
    let (there, back) = none_unknown names vocabulary in
    (
      λ h x m. ground (arith, there (ground arith) x, eq_iff x n),
      λ h. ground (arith, h n, eq_iff n n, back (λ x m. h x (ground arith))),
    )

-- The issues of a manifest are none exactly when each check finds none.
valid_checks :
    (m : PluginManifest) (platform : String)
    → (validate_manifest m platform).valid ≡ (
        not (any (λ n. not (is_known_permission n)) m.permissions)
        && (not (any (λ n. not (is_known_hook n)) m.hooks) && is_compatible m.api_version platform))
unfolding validate_manifest validate_permissions validate_hooks validate_version_compatibility
valid_checks m platform = ground (
  arith,
  any-append is_error (validate_permissions m)
      (validate_hooks m ++ validate_version_compatibility m platform),
  any-append is_error (validate_hooks m) (validate_version_compatibility m platform),
  any-unknown_names is_known_permission "PLUGIN-UNKNOWN-PERMISSION" m.id m.permissions,
  any-unknown_names is_known_hook "PLUGIN-UNKNOWN-HOOK" m.id m.hooks,
)

-- A manifest is valid exactly when its permissions and its hooks are all of the two vocabularies, and
-- the first number of its API version is the platform's.
pub validate_manifest_lem :
    (m : PluginManifest) (platform : String)
    → ((validate_manifest m platform).valid ≡ true) ↔ (
        IsSubset m.permissions (keys known_permissions)
        × IsSubset m.hooks known_hooks
        × ((parse_version m.api_version).0 ≡ (parse_version platform).0))
unfolding is_compatible
validate_manifest_lem m platform =
    let valid = valid_checks m platform in
    let permissions = none_unknown m.permissions (keys known_permissions) in
    let hooks = none_unknown m.hooks known_hooks in
    (
      λ h. (
        permissions.0 (ground (arith, valid)),
        hooks.0 (ground (arith, valid)),
        ground (arith, valid),
      ),
      λ (p, q, same). ground (arith, valid, permissions.1 p, hooks.1 q, same),
    )

-- How many manifests have the id.
abbrev pub occurrences : String → List PluginManifest → ℕ
occurrences id [] = 0
occurrences id (m ∷ ms) = if id == m.id then 1 + occurrences id ms else occurrences id ms

abbrev count_of : Option ℕ → ℕ
count_of none = 0
count_of (some n) = n

count_ids-occurrences :
    (id : String) (ms : List PluginManifest) (seen : Dict ℕ)
    → count_of (lookup id (count_ids ms seen)) ≡ count_of (lookup id seen) + occurrences id ms
unfolding count_ids
count_ids-occurrences id [] seen = omega arith
count_ids-occurrences id (m ∷ ms) seen = ground (
  arith,
  count_ids-occurrences id ms (insert m.id (count_of (lookup m.id seen) + 1) seen),
  lookup-insert id m.id (count_of (lookup m.id seen) + 1) seen,
  eq_iff id m.id,
)

insert-IsDistinct :
    (k : String) (n : ℕ) (d : Dict ℕ) → IsDistinct (keys d) → IsDistinct (keys (insert k n d))
insert-IsDistinct k n [] h = (refl, tt)
insert-IsDistinct k n ((j, v) ∷ d) h = elim (Bool-cases (k == j)) [
  | inl same ↦ rw same (ground (arith, h.0, eq_iff k j), h.1)
  | inr other ↦ rw other (
    ground (
      arith,
      h.0,
      contains-keys j (insert k n d),
      has_key-insert j k n d,
      contains-keys j d,
      eq_iff j k,
      eq_iff k j,
    ),
    insert-IsDistinct k n d h.1,
  )
]

count_ids-IsDistinct :
    (ms : List PluginManifest) (seen : Dict ℕ)
    → IsDistinct (keys seen)
    → IsDistinct (keys (count_ids ms seen))
unfolding count_ids
count_ids-IsDistinct [] seen h = h
count_ids-IsDistinct (m ∷ ms) seen h = count_ids-IsDistinct ms _ (insert-IsDistinct m.id _ seen h)

has_key-duplicate_issues :
    (id : String) (d : Dict ℕ) → has_key id (duplicate_issues d) ≡ true → has_key id d ≡ true
unfolding duplicate_issues
has_key-duplicate_issues id [] h = h
has_key-duplicate_issues id ((k, n) ∷ d) h = ground (arith, has_key-duplicate_issues id d)

duplicate_issues-count :
    (id : String) (d : Dict ℕ)
    → IsDistinct (keys d)
    → has_key id (duplicate_issues d) ≡ ltb 1 (count_of (lookup id d))
unfolding duplicate_issues
duplicate_issues-count id [] h = ground arith
duplicate_issues-count id ((k, n) ∷ d) h = ground (
  arith,
  duplicate_issues-count id d h.1,
  has_key-duplicate_issues id d,
  contains-keys k d,
  h.0,
  eq_iff id k,
)

-- An id is reported as a duplicate exactly when more than one manifest has it.
pub validate_duplicate_ids_lem :
    (id : String) (ms : List PluginManifest)
    → (has_key id (validate_duplicate_ids ms) ≡ true) ↔ (1 < occurrences id ms)
unfolding validate_duplicate_ids
validate_duplicate_ids_lem id ms =
    let counted = count_ids-occurrences id ms [] in
    let reported = duplicate_issues-count id (count_ids ms []) (count_ids-IsDistinct ms [] tt) in
    (λ h. ground (arith, counted, reported), λ h. ground (arith, counted, reported))
