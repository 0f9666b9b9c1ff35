-- ===== src/Versions/Ascending.antt =====
-- services/integration/versioning/version_registry.py: the versions of a workflow ascend.
use vision_virtual_intellige.Prelude.{
  ℕ, ◌≡◌, refl, sym, subst, ap, ◌∙◌, String, ◌==◌, Bool, true, false, not, ◌&&◌, ◌||◌, inl, inr,
  Option, none, some, List, [], ◌∷◌, ◌++◌, arith, ltb, nat_eq, is_empty, last?, last?-none,
  difference, sorted, Dict, decimal, Option-cases, Bool-cases, parse_int-decimal,
  split_on_dot-append, split_on_dot-digits, all_digits-decimal,
}
use vision_virtual_intellige.Versions.{
  WorkflowVersionRecord, History, version_text, major_minor, numbers_of, bumped, list_versions,
  next_record, register,
}
use vision_virtual_intellige.Versions.Appended.{register-cases}

-- The numbers of a version that the registry prints are read back.
pub major_minor-version_text : (n : ℕ × ℕ) → major_minor (version_text n) ≡ n
unfolding major_minor numbers_of
major_minor-version_text (major, minor) =
    ap numbers_of (
      split_on_dot-append (decimal major) (decimal minor) (decimal minor) []
        (all_digits-decimal major) (split_on_dot-digits (decimal minor) (all_digits-decimal minor)))
    ∙ rw (parse_int-decimal major, parse_int-decimal minor) refl

-- The order of versions: by the major number, then by the minor one.
abbrev pub precedes : ℕ × ℕ → ℕ × ℕ → Bool
precedes (a, b) (c, d) = ltb a c || nat_eq a c && ltb b d

precedes-bumped : (is_breaking : Bool) (n : ℕ × ℕ) → precedes n (bumped is_breaking n) ≡ true
precedes-bumped true (a, b) = ground arith
precedes-bumped false (a, b) = ground arith

precedes_trans : (x y z : ℕ × ℕ) → precedes x y ≡ true → precedes y z ≡ true → precedes x z ≡ true
precedes_trans (a, b) (c, d) (e, f) h k = ground arith

pub precedes_irrefl : (x : ℕ × ℕ) → precedes x x ≡ false
precedes_irrefl (a, b) = ground arith

module _ {E R : Type 0} where
  -- The version is above all versions of the history.
  abbrev pub is_above : ℕ × ℕ → History E R → Bool
  is_above n [] = true
  is_above n (r ∷ history) = precedes (major_minor r.version) n && is_above n history

  -- Each version of the history is above the ones before it.
  abbrev pub is_below : ℕ × ℕ → History E R → Bool
  is_below n [] = true
  is_below n (r ∷ history) = precedes n (major_minor r.version) && is_below n history

  abbrev pub IsAscending : History E R → Type 0
  IsAscending [] = Unit
  IsAscending (r ∷ history) =
      (is_below (major_minor r.version) history ≡ true) × IsAscending history

  is_below-append :
      (n : ℕ × ℕ) (history : History E R) (r : WorkflowVersionRecord E R)
      → is_below n history ≡ true
      → precedes n (major_minor r.version) ≡ true
      → is_below n (history ++ r ∷ []) ≡ true
  is_below-append n [] r h p = ground arith
  is_below-append n (s ∷ history) r h p = ground (arith, is_below-append n history r)

  append-IsAscending :
      (history : History E R) (r : WorkflowVersionRecord E R)
      → IsAscending history
      → is_above (major_minor r.version) history ≡ true
      → IsAscending (history ++ r ∷ [])
  append-IsAscending [] r h a = (refl, tt)
  append-IsAscending (s ∷ history) r h a = (
    is_below-append (major_minor s.version) history r h.0 (ground arith),
    append-IsAscending history r h.1 (ground arith),
  )

  -- What is above the latest version is above all of them.
  last?-is_above :
      (history : History E R) (latest : WorkflowVersionRecord E R) (n : ℕ × ℕ)
      → IsAscending history
      → last? history ≡ some latest
      → precedes (major_minor latest.version) n ≡ true
      → is_above n history ≡ true
  last?-is_above [] latest n h e p = refl
  last?-is_above (r ∷ []) latest n h e p =
      let same : latest ≡ r = cc in subst (λ x. is_above n (x ∷ []) ≡ true) same (ground arith)
  last?-is_above (r ∷ s ∷ history) latest n h e p =
      let rest = last?-is_above (s ∷ history) latest n h.1 e p in
      ground (arith, precedes_trans (major_minor r.version) (major_minor s.version) n, h.0)

  none-is_above :
      (history : History E R) (n : ℕ × ℕ) → last? history ≡ none → is_above n history ≡ true
  none-is_above history n e = subst (λ xs. is_above n xs ≡ true) (sym (last?-none history e)) refl

  next_record-is_above :
      (history : History E R) (workflow signature : String) (nodes : List String) (edges : List E)
      (routes : Dict R) (notes : Option String)
      → IsAscending history
      → is_above
          (major_minor
            (next_record (last? history) workflow signature nodes edges routes notes).version)
          history
        ≡ true
  unfolding next_record
  next_record-is_above history workflow signature nodes edges routes notes h =
      elim (Option-cases (last? history)) [
        | inl none_yet ↦ none-is_above history _ none_yet
        | inr (latest, e) ↦
            let breaking = not (is_empty (sorted (difference latest.nodes nodes))) in
            let n = bumped breaking (major_minor latest.version) in
            rw (e, major_minor-version_text n)
              (last?-is_above history latest n h e
                (precedes-bumped breaking (major_minor latest.version)))
      ]

  -- In every history of the registry the versions ascend.
  abbrev pub IsVersioned : Dict (History E R) → Type 0
  IsVersioned registry = (workflow : String) → IsAscending (list_versions registry workflow)

  register-IsVersioned :
      (signature_of : String → List String → List String → String) (registry : Dict (History E R))
      (workflow : String) (nodes : List String) (edges : List E) (routes : Dict R)
      (notes : Option String)
      → IsVersioned registry
      → IsVersioned (register signature_of registry workflow nodes edges routes notes).0
  register-IsVersioned signature_of registry workflow nodes edges routes notes h other =
      elim (register-cases signature_of registry workflow nodes edges routes notes) [
        | inl (latest, at, same, is, others) ↦
            subst (λ xs. IsAscending xs) (sym (others other)) (h other)
        | inr (new, is, others) ↦
            subst (λ xs. IsAscending xs) (sym (others other))
              (elim (Bool-cases (other == workflow)) [
                | inl this ↦
                    rw (this, is)
                      (append-IsAscending (list_versions registry workflow) _ (h workflow) (
                        next_record-is_above (list_versions registry workflow) workflow _ nodes
                          edges routes notes (h workflow)))
                | inr apart ↦ rw apart (h other)
              ])
      ]

-- The registries that calls of `register` fill, from the empty one.
pub data Filled {E R : Type 0} (signature_of : String → List String → List String → String)
    : Dict (History E R) → Type 0 where
  created : Filled signature_of []
  registering :
      {registry : Dict (History E R)} (workflow : String) (nodes : List String) (edges : List E)
      (routes : Dict R) (notes : Option String)
      → Filled signature_of registry
      → Filled signature_of (register signature_of registry workflow nodes edges routes notes).0

-- In a registry that registrations have filled, the versions in the history of each workflow ascend
-- strictly, major number first, as the registry itself reads them back.
pub Filled-IsVersioned :
    {E R : Type 0} {signature_of : String → List String → List String → String}
    {registry : Dict (History E R)}
    → Filled signature_of registry
    → IsVersioned registry
Filled-IsVersioned Filled.created = λ workflow. tt
Filled-IsVersioned (Filled.registering workflow nodes edges routes notes filled) =
    register-IsVersioned _ _ workflow nodes edges routes notes (Filled-IsVersioned filled)
