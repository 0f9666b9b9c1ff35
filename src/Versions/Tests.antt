-- ===== src/Versions/Tests.antt =====
-- services/integration/versioning: one workflow with three versions.
use Prim.Native.String.{◌++◌ as str_append}
use vision_virtual_intellige.Prelude.{
  ℕ, ◌≡◌, ◌≢◌, refl, String, true, false, ◌↔◌, ◌⊎◌, none, some, List, [], ◌∷◌, eq_iff, arith, last?,
  sorted, Dict, decimal, parse_int, split_on_dot,
}
use vision_virtual_intellige.Versions.{
  WorkflowVersionRecord, History, major_minor, list_versions, get, register, check_compatibility,
  register_current_version,
}
use vision_virtual_intellige.Versions.Ascending.{IsVersioned, Filled, Filled-IsVersioned}
use vision_virtual_intellige.Versions.Registered.{register-register}
use vision_virtual_intellige.Versions.Compatible.{IsTarget, check_compatibility_lem}

abbrev joined : List String → String
joined [] = ""
joined (s ∷ ss) = str_append s (str_append "," (joined ss))

abbrev text_signature : String → List String → List String → String
text_signature workflow nodes routes =
    str_append workflow (str_append (joined nodes) (str_append ";" (joined routes)))

abbrev no_registry : Dict (History ℕ ℕ)
no_registry = []

abbrev add : Dict (History ℕ ℕ) → List String → Dict (History ℕ ℕ) × WorkflowVersionRecord ℕ ℕ
add registry nodes = register text_signature registry "qa" nodes [] [] none

abbrev one_version : Dict (History ℕ ℕ)
one_version = (add no_registry ("a" ∷ "b" ∷ [])).0

abbrev two_versions : Dict (History ℕ ℕ)
two_versions = (add one_version ("b" ∷ "a" ∷ "c" ∷ [])).0

abbrev versions_of : List (WorkflowVersionRecord ℕ ℕ) → List String
versions_of [] = []
versions_of (r ∷ rs) = r.version ∷ versions_of rs

three_versions :
    versions_of (list_versions (add two_versions ("b" ∷ [])).0 "qa") ≡ "1.0" ∷ "1.1" ∷ "2.0" ∷ []
unfolding register major_minor sorted decimal parse_int split_on_dot
three_versions = refl

unknown_workflow : register_current_version {E = ℕ} text_signature one_version "qa" none none ≡ none
unfolding register_current_version
unknown_workflow = refl

one_version-Filled : Filled text_signature one_version
one_version-Filled = Filled.registering "qa" ("a" ∷ "b" ∷ []) [] [] none Filled.created

Filled-IsVersioned_example : IsVersioned one_version
Filled-IsVersioned_example = Filled-IsVersioned one_version-Filled

abbrev first_record : WorkflowVersionRecord ℕ ℕ
first_record = record {
  workflow = "qa";
  version = "1.0";
  signature = "qaa,b,;";
  nodes = "a" ∷ "b" ∷ [];
  edges = [];
  routes = [];
  is_breaking_from_previous = false;
  diff_from_previous = none;
  notes = none;
}

found_first : get one_version "qa" "1.0" ≡ some first_record
unfolding get register sorted
found_first = refl

register-register_example :
    let again = register text_signature one_version "qa" ("a" ∷ "b" ∷ []) (7 ∷ []) [] none in
    (again.1 ≡ (add no_registry ("a" ∷ "b" ∷ [])).1)
    × ((other : String) → list_versions again.0 other ≡ list_versions one_version other)
register-register_example =
    register-register text_signature no_registry "qa" ("a" ∷ "b" ∷ []) [] (7 ∷ []) [] [] none none
      refl

latest_first : last? (list_versions one_version "qa") ≡ some first_record
unfolding register sorted
latest_first = refl

new_signature : first_record.signature ≢ text_signature "qa" (sorted ("b" ∷ [])) (sorted [])
unfolding sorted
new_signature e = ground (arith, eq_iff "qaa,b,;" "qab,;")

check_compatibility_lem_example :
    ((check_compatibility two_versions "qa" "1.0" "1.1" (some "b")).compatible ≡ true) ↔ (
      (rec_from : WorkflowVersionRecord ℕ ℕ) × (rec_to : WorkflowVersionRecord ℕ ℕ) × (get
          two_versions "qa" "1.0"
        ≡ some rec_from)
      × (get two_versions "qa" "1.1" ≡ some rec_to)
      × ((◌≡◌ {A = String} "1.0" "1.1") ⊎ IsTarget (some "b") rec_from.nodes rec_to.nodes))
check_compatibility_lem_example = check_compatibility_lem two_versions "qa" "1.0" "1.1" (some "b")
