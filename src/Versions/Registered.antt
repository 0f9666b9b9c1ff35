-- ===== src/Versions/Registered.antt =====
-- services/integration/versioning/version_registry.py: what a caller of `register` may rely on.
use vision_virtual_intellige.Prelude.{
  ℕ, ◌≡◌, ◌≢◌, refl, sym, ap, subst, ◌∙◌, String, ◌==◌, eq_iff, eq_refl, true, false, ◌↔◌, inl, inr,
  Option, none, some, List, [], ◌∷◌, ◌++◌, arith, last?, last?-concat, difference-is_empty,
  IsSubset, sorted, Dict, keys, Bool-cases,
}
use vision_virtual_intellige.Versions.{
  WorkflowVersionRecord, History, major_minor, bumped, list_versions, find_version, get,
  next_record, register,
}
use vision_virtual_intellige.Versions.Appended.{register-cases}
use vision_virtual_intellige.Versions.Ascending.{
  precedes, precedes_irrefl, is_below, IsAscending, Filled, Filled-IsVersioned,
  major_minor-version_text,
}

module _ {E R : Type 0} where
  is_below-last? :
      (n : ℕ × ℕ) (history : History E R) (latest : WorkflowVersionRecord E R)
      → is_below n history ≡ true
      → last? history ≡ some latest
      → precedes n (major_minor latest.version) ≡ true
  is_below-last? n [] latest h e = cc
  is_below-last? n (r ∷ []) latest h e =
      let same : r ≡ latest = cc in
      subst (λ x. precedes n (major_minor x.version) ≡ true) same (ground arith)
  is_below-last? n (r ∷ s ∷ history) latest h e =
      is_below-last? n (s ∷ history) latest (ground arith) e

  -- The latest record is found under its version.
  find_version-last? :
      (history : History E R) (latest : WorkflowVersionRecord E R)
      → IsAscending history
      → last? history ≡ some latest
      → find_version latest.version history ≡ some latest
  find_version-last? [] latest h e = cc
  find_version-last? (r ∷ []) latest h e =
      let same : r ≡ latest = cc in
      subst (λ x. find_version x.version (r ∷ []) ≡ some x) same (rw (eq_refl r.version) refl)
  find_version-last? (r ∷ s ∷ history) latest h e =
      let rest = find_version-last? (s ∷ history) latest h.1 e in
      let before = is_below-last? (major_minor r.version) (s ∷ history) latest h.0 e in
      elim (Bool-cases (r.version == latest.version)) [
        | inl same ↦
            let equal : r.version ≡ latest.version =
              ground (arith, eq_iff r.version latest.version) in
            let below : precedes (major_minor latest.version) (major_minor latest.version) ≡ true =
              subst (λ v. precedes (major_minor v) (major_minor latest.version) ≡ true) equal
                before in
            ground (arith, precedes_irrefl (major_minor latest.version))
        | inr apart ↦ rw apart rest
      ]

  find_version-append :
      (version : String) (history : History E R) (rec found : WorkflowVersionRecord E R)
      → find_version version history ≡ some found
      → find_version version (history ++ rec ∷ []) ≡ some found
  find_version-append version [] rec found e = cc
  find_version-append version (r ∷ history) rec found e =
      ground (arith, find_version-append version history rec found)

  next_record-signature :
      (latest : Option (WorkflowVersionRecord E R)) (workflow signature : String)
      (nodes : List String) (edges : List E) (routes : Dict R) (notes : Option String)
      → (next_record latest workflow signature nodes edges routes notes).signature ≡ signature
  unfolding next_record
  next_record-signature none workflow signature nodes edges routes notes = refl
  next_record-signature (some latest) workflow signature nodes edges routes notes = refl

  -- The record that is returned is the latest one of the workflow, and has the signature.
  register-last? :
      (signature_of : String → List String → List String → String) (registry : Dict (History E R))
      (workflow : String) (nodes : List String) (edges : List E) (routes : Dict R)
      (notes : Option String)
      → let (after, rec) = register signature_of registry workflow nodes edges routes notes in
        (last? (list_versions after workflow) ≡ some rec)
        × (rec.signature ≡ signature_of workflow (sorted nodes) (sorted (keys routes)))
  register-last? signature_of registry workflow nodes edges routes notes =
      elim (register-cases signature_of registry workflow nodes edges routes notes) [
        | inl (latest, at, same, is, others) ↦
            (ap last? (others workflow) ∙ at ∙ ap some (sym is), ap (λ r. r.signature) is ∙ same)
        | inr (new, is, others) ↦ (
          ap last? (others workflow)
              ∙ rw (eq_refl workflow) (last?-concat (list_versions registry workflow) _),
          ap (λ r. r.signature) is ∙ next_record-signature _ workflow _ nodes edges routes notes,
        )
      ]

-- In a registry that registrations have filled, the record that a further registration returns is the
-- one that `get` finds under its workflow and version.
pub get-register :
    {E R : Type 0} {signature_of : String → List String → List String → String}
    {registry : Dict (History E R)} (workflow : String) (nodes : List String) (edges : List E)
    (routes : Dict R) (notes : Option String)
    → Filled signature_of registry
    → let (after, rec) = register signature_of registry workflow nodes edges routes notes in
      get after workflow rec.version ≡ some rec
unfolding get
get-register {signature_of} {registry} workflow nodes edges routes notes filled =
    find_version-last? _ _
      (Filled-IsVersioned (Filled.registering workflow nodes edges routes notes filled) workflow)
      (register-last? signature_of registry workflow nodes edges routes notes).0

-- A registration loses no version of any workflow: what `get` found before, it finds after.
pub get-register-kept :
    {E R : Type 0} (signature_of : String → List String → List String → String)
    (registry : Dict (History E R)) (workflow : String) (nodes : List String) (edges : List E)
    (routes : Dict R) (notes : Option String) (other version : String)
    (found : WorkflowVersionRecord E R)
    → get registry other version ≡ some found
    → get (register signature_of registry workflow nodes edges routes notes).0 other version
      ≡ some found
unfolding get
get-register-kept signature_of registry workflow nodes edges routes notes other version found e =
    elim (register-cases signature_of registry workflow nodes edges routes notes) [
      | inl (latest, at, same, is, others) ↦ ap (find_version version) (others other) ∙ e
      | inr (new, is, others) ↦
          ap (find_version version) (others other) ∙ elim (Bool-cases (other == workflow)) [
            | inl this ↦
                let equal : other ≡ workflow = ground (arith, eq_iff other workflow) in
                rw this (
                  find_version-append version (list_versions registry workflow) _ found
                    (subst (λ w. get registry w version ≡ some found) equal e))
            | inr apart ↦ rw apart e
          ]
    ]

-- Registering a workflow a second time with the same nodes and the same route keys, whatever its
-- edges, its notes and the targets of its routes are then, returns the first record, and leaves
-- every history as it was.
pub register-register :
    {E R : Type 0} (signature_of : String → List String → List String → String)
    (registry : Dict (History E R)) (workflow : String) (nodes : List String)
    (edges edges' : List E) (routes routes' : Dict R) (notes notes' : Option String)
    → sorted (keys routes') ≡ sorted (keys routes)
    → let (after, rec) = register signature_of registry workflow nodes edges routes notes in
      let again = register signature_of after workflow nodes edges' routes' notes' in
      (again.1 ≡ rec) × ((other : String) → list_versions again.0 other ≡ list_versions after other)
register-register signature_of registry workflow nodes edges edges' routes routes' notes notes'
      keys_same =
    let (after, rec) = register signature_of registry workflow nodes edges routes notes in
    let (at, has) = register-last? signature_of registry workflow nodes edges routes notes in
    elim (register-cases signature_of after workflow nodes edges' routes' notes') [
      | inl (latest, at', same, is, others) ↦ (cc, others)
      | inr (new, is, others) ↦
          elim (new rec at (has ∙ ap (signature_of workflow (sorted nodes)) (sym keys_same))) [ ]
    ]

-- A registration with another signature than the latest record's is marked as breaking exactly when
-- a node of the latest record is gone; its version is then the next major one, and otherwise the
-- next minor one.
pub register-breaking :
    {E R : Type 0} (signature_of : String → List String → List String → String)
    (registry : Dict (History E R)) (workflow : String) (nodes : List String) (edges : List E)
    (routes : Dict R) (notes : Option String) (latest : WorkflowVersionRecord E R)
    → last? (list_versions registry workflow) ≡ some latest
    → latest.signature ≢ signature_of workflow (sorted nodes) (sorted (keys routes))
    → let rec = (register signature_of registry workflow nodes edges routes notes).1 in
      ((rec.is_breaking_from_previous ≡ false) ↔ IsSubset latest.nodes nodes)
      × (major_minor rec.version
          ≡ bumped rec.is_breaking_from_previous (major_minor latest.version))
unfolding next_record
register-breaking signature_of registry workflow nodes edges routes notes latest at new =
    let subset = difference-is_empty latest.nodes nodes in
    elim (register-cases signature_of registry workflow nodes edges routes notes) [
      | inl (old, at', same, is, others) ↦
          let equal : latest ≡ old = cc in elim (new (ap (λ r. r.signature) equal ∙ same)) [ ]
      | inr (new, is, others) ↦
          rw (is, at)
            (
              (λ h. subset.0 (ground arith), λ h. ground (arith, subset.1 h)),
              major_minor-version_text _,
            )
    ]
