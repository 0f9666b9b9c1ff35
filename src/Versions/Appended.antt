-- ===== src/Versions/Appended.antt =====
-- services/integration/versioning/version_registry.py: what a registration does to the histories.
use vision_virtual_intellige.Prelude.{
  ◌≡◌, sym, ap, subst, ◌∙◌, String, ◌==◌, eq_iff, true, false, ◌≢◌, ◌⊎◌, inl, inr, Option, some,
  List, [], ◌∷◌, ◌++◌, arith, if◌then◌else◌, last?, sorted, Dict, insert, keys, lookup-insert,
  Option-cases, Bool-cases,
}
use vision_virtual_intellige.Versions.{
  WorkflowVersionRecord, History, list_versions, next_record, register,
}

list_versions-insert :
    {E R : Type 0} (other workflow : String) (history : History E R) (registry : Dict (History E R))
    → list_versions (insert workflow history registry) other
      ≡ (if other == workflow then history else list_versions registry other)
list_versions-insert other workflow history registry =
    ground (arith, lookup-insert other workflow history registry)

module _ {E R : Type 0} (signature_of : String → List String → List String → String)
    (registry : Dict (History E R)) (workflow : String) (nodes : List String) (edges : List E)
    (routes : Dict R) (notes : Option String) where
  abbrev signature : String
  signature = signature_of workflow (sorted nodes) (sorted (keys routes))

  abbrev pub registered : Dict (History E R) × WorkflowVersionRecord E R
  registered = register signature_of registry workflow nodes edges routes notes

  -- The latest record has the signature: it is returned, and every history is as before.
  abbrev pub IsKept : Type 0
  IsKept =
      (latest : WorkflowVersionRecord E R) × (last? (list_versions registry workflow) ≡ some latest)
      × (latest.signature ≡ signature)
      × (registered.1 ≡ latest)
      × ((other : String) → list_versions registered.0 other ≡ list_versions registry other)

  -- No latest record has the signature: the next record ends the workflow's history, and the other
  -- histories are as before.
  abbrev pub IsAppended : Type 0
  IsAppended =
      ((latest : WorkflowVersionRecord E R)
        → last? (list_versions registry workflow) ≡ some latest
        → latest.signature ≢ signature)
      × (registered.1
          ≡ next_record (last? (list_versions registry workflow)) workflow signature nodes edges
              routes notes)
      × ((other : String)
          → list_versions registered.0 other ≡ (
              if other == workflow
              then list_versions registry workflow ++ registered.1 ∷ []
              else list_versions registry other))

  abbrev history : History E R
  history = list_versions registry workflow

  abbrev record_after : Option (WorkflowVersionRecord E R) → WorkflowVersionRecord E R
  record_after latest = next_record latest workflow signature nodes edges routes notes

  kept :
      (old : WorkflowVersionRecord E R)
      → last? history ≡ some old
      → old.signature == signature ≡ true
      → registered ≡ (insert workflow history registry, old)
  unfolding register
  kept old e same = ground (arith, e, same)

  appended :
      ((old : WorkflowVersionRecord E R)
        → last? history ≡ some old
        → old.signature == signature ≡ false)
      → registered ≡ (
        insert workflow (history ++ record_after (last? history) ∷ []) registry,
        record_after (last? history),
      )
  unfolding register
  appended new = elim (Option-cases (last? history)) [
    | inl empty ↦ ground (arith, empty)
    | inr (old, e) ↦ ground (arith, e, new old e)
  ]

  kept-IsKept :
      (old : WorkflowVersionRecord E R)
      → last? history ≡ some old
      → old.signature == signature ≡ true
      → IsKept
  kept-IsKept old e same = (
    old,
    e,
    ground (arith, eq_iff old.signature signature),
    ap (λ p. p.1) (kept old e same),
    λ other.
        ap (λ p. list_versions p.0 other) (kept old e same)
        ∙ list_versions-insert other workflow history registry
        ∙ ground (arith, eq_iff other workflow),
  )

  appended-IsAppended :
      ((old : WorkflowVersionRecord E R)
        → last? history ≡ some old
        → old.signature == signature ≡ false)
      → IsAppended
  appended-IsAppended new = (
    λ old e same. ground (arith, new old e, eq_iff old.signature signature),
    ap (λ p. p.1) (appended new),
    λ other.
        ap (λ p. list_versions p.0 other) (appended new)
        ∙ list_versions-insert other workflow _ registry
        ∙ ap (λ r. if other == workflow then history ++ r ∷ [] else list_versions registry other)
            (sym (ap (λ p. p.1) (appended new))),
  )

  pub register-cases : IsKept ⊎ IsAppended
  register-cases = elim (Option-cases (last? history)) [
    | inl empty ↦ inr (appended-IsAppended (λ old e. cc))
    | inr (old, e) ↦ elim (Bool-cases (old.signature == signature)) [
      | inl same ↦ inl (kept-IsKept old e same)
      | inr new ↦ inr (
          appended-IsAppended (λ other at.
            let this : old ≡ other = cc in subst (λ r. r.signature == signature ≡ false) this new))
    ]
  ]
