-- ===== src/Repository/Named.antt =====
-- services/repository/managers/__init__.py: what the naming policy gives.
use Prim.Native.String.append.{nil as append_nil, cons as append_cons}
use Prim.Native.String.{◌++◌ as str_append}
use Prim.Native.Char.{code}
use vision_virtual_intellige.Prelude.{
  String, ◌≡◌, ◌≢◌, Bool, true, false, refl, ap, ◌∙◌, ◌++◌, ◌∷◌, Option, any, any-append, contains,
  nat_eq, codes, arith, eq_iff, sym,
}
use vision_virtual_intellige.Repository.Names.{
  Result, ok, raised, ◌>>=◌, under, text, validate_slug, validate_task_id, task_branch,
  hotfix_branch, integration_branch, build_branch_name, protected_branches, assert_not_protected,
}

codes-append : (s t : String) → codes (str_append s t) ≡ codes s ++ codes t
codes-append String.[] t = ap codes (append_nil t)
codes-append (String.◌∷◌ c s) t =
    ap codes (append_cons c s t) ∙ ap (◌∷◌ (code c)) (codes-append s t)

has_slash : String → Bool
has_slash s = any (nat_eq 47) (codes s)

has_slash-append : (s t : String) → has_slash t ≡ true → has_slash (str_append s t) ≡ true
unfolding has_slash
has_slash-append s t h =
    ap (any (nat_eq 47)) (codes-append s t)
    ∙ any-append (nat_eq 47) (codes s) (codes t)
    ∙ ground arith

has_slash-under : (branch_type rest : String) → has_slash (under branch_type rest) ≡ true
unfolding has_slash
has_slash-under branch_type rest =
    has_slash-append branch_type (str_append "/" rest)
      (ap (any (nat_eq 47)) (codes-append "/" rest))

slash-contains : (s : String) → has_slash s ≡ true → contains s protected_branches ≡ false
unfolding has_slash
slash-contains s h =
    let ne : s ≢ "main" = λ e. let bad = rw e at h in cc in
    let ne' : s ≢ "develop" = λ e. let bad = rw e at h in cc in
    ground (arith, eq_iff s "main", eq_iff s "develop")

-- A name that is given has a slash.
abbrev slashed : Result String → Bool
slashed (ok name) = has_slash name
slashed (raised kind) = true

slashed-then :
    (checked : Result Unit) (rest : Result String)
    → slashed rest ≡ true
    → slashed (checked >>= λ _. rest) ≡ true
slashed-then (ok u) rest h = h
slashed-then (raised kind) rest h = refl

slashed-build_branch_name :
    (branch_type : String) (task_id incident_id slug : Option String)
    → slashed (build_branch_name branch_type task_id incident_id slug) ≡ true
unfolding build_branch_name task_branch hotfix_branch integration_branch
slashed-build_branch_name branch_type task_id incident_id slug =
    let name = str_append (text task_id) (str_append "-" (text slug)) in
    let by_slug = slashed-then (validate_slug (text slug)) in
    ground (
      arith,
      slashed-then (validate_task_id (text task_id))
          (validate_slug (text slug) >>= λ _. ok (under branch_type name))
          (by_slug (ok (under branch_type name)) (has_slash-under branch_type name)),
      slashed-then (validate_task_id (text incident_id)) (ok (under "hotfix" (text incident_id)))
          (has_slash-under "hotfix" (text incident_id)),
      by_slug (ok (under "integration" (text slug))) (has_slash-under "integration" (text slug)),
    )

-- Every name that the policy gives is one that the guard of protected branches lets through.
pub build_branch_name-assert_not_protected :
    (branch_type : String) (task_id incident_id slug : Option String) (name : String)
    → build_branch_name branch_type task_id incident_id slug ≡ ok name
    → assert_not_protected name ≡ ok tt
unfolding assert_not_protected
build_branch_name-assert_not_protected branch_type task_id incident_id slug name h =
    let given : has_slash name ≡ true =
      ap slashed (sym h) ∙ slashed-build_branch_name branch_type task_id incident_id slug in
    rw (slash-contains name given) refl
