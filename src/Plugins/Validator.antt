-- ===== src/Plugins/Validator.antt =====
-- services/integration/plugin_sdk/plugin_validator.py: the checks of one manifest, and of a set of them
-- for duplicate ids. A digit is one of 0 to 9. The texts of the messages are left out.
use vision_virtual_intellige.Prelude.{
  ℕ, ◌+◌, ◌-◌, ◌*◌, String, ◌==◌, Bool, not, ◌&&◌, none, some, List, [], ◌∷◌, ◌++◌, nat_eq, leb,
  ltb, if◌then◌else◌, any, keep_if, contains, codes, Dict, lookup, insert, keys,
}
use vision_virtual_intellige.Plugins.Models.{PluginManifest}
use vision_virtual_intellige.Plugins.Sandbox.{known_permissions}

pub record ValidationIssue : Type 0 where
  pub rule_id : String
  pub severity : String
  pub plugin_id : String

pub record ValidationResult : Type 0 where
  pub plugin_id : String
  pub valid : Bool
  pub issues : List ValidationIssue

abbrev pub error_of : String → String → ValidationIssue
error_of rule_id plugin_id = record { rule_id = rule_id; severity = "error"; plugin_id = plugin_id }

-- The values of `HookType`.
abbrev pub known_hooks : List String
known_hooks =
    "before_agent_run" ∷ "after_agent_run" ∷ "before_workflow" ∷ "after_workflow"
    ∷ "artifact_created" ∷ "deployment_completed" ∷ "incident_created" ∷ "security_scan_finished"
    ∷ "dashboard_section" ∷ "startup" ∷ "shutdown" ∷ []

-- `version.split(".")`, on code points
unfoldable pub split_dots : List ℕ → List (List ℕ)
split_dots [] = [] ∷ []
split_dots (c ∷ cs) = elim (split_dots cs) [
  | [] ↦ []
  | part ∷ parts ↦ if nat_eq c 46 then [] ∷ part ∷ parts else (c ∷ part) ∷ parts
]

abbrev is_digit : ℕ → Bool
is_digit c = leb 48 c && leb c 57

abbrev decimal_value : ℕ → List ℕ → ℕ
decimal_value n [] = n
decimal_value n (c ∷ cs) = decimal_value (10 * n + (c - 48)) cs

-- `int(digits) if digits else 0`
abbrev part_value : List ℕ → ℕ
part_value part = decimal_value 0 (keep_if is_digit part)

-- The first three of the parts, padded by zeros.
abbrev first_three : List (List ℕ) → ℕ × ℕ × ℕ
first_three [] = (0, 0, 0)
first_three (a ∷ []) = (part_value a, 0, 0)
first_three (a ∷ b ∷ []) = (part_value a, part_value b, 0)
first_three (a ∷ b ∷ c ∷ rest) = (part_value a, part_value b, part_value c)

unfoldable pub parse_version : String → ℕ × ℕ × ℕ
unfolding split_dots
parse_version version = first_three (split_dots (codes version))

unfoldable pub is_compatible : String → String → Bool
is_compatible manifest_api_version platform_api_version =
    nat_eq (parse_version manifest_api_version).0 (parse_version platform_api_version).0

-- An error for each name that is not known.
abbrev pub unknown_names : (String → Bool) → String → String → List String → List ValidationIssue
unknown_names known rule_id plugin_id [] = []
unknown_names known rule_id plugin_id (name ∷ names) =
    let rest = unknown_names known rule_id plugin_id names in
    if not (known name) then error_of rule_id plugin_id ∷ rest else rest

abbrev pub is_known_permission : String → Bool
is_known_permission name = contains name (keys known_permissions)

abbrev pub is_known_hook : String → Bool
is_known_hook name = contains name known_hooks

unfoldable pub validate_permissions : PluginManifest → List ValidationIssue
validate_permissions manifest =
    unknown_names is_known_permission "PLUGIN-UNKNOWN-PERMISSION" manifest.id manifest.permissions

unfoldable pub validate_hooks : PluginManifest → List ValidationIssue
validate_hooks manifest =
    unknown_names is_known_hook "PLUGIN-UNKNOWN-HOOK" manifest.id manifest.hooks

unfoldable pub validate_version_compatibility : PluginManifest → String → List ValidationIssue
validate_version_compatibility manifest platform_api_version =
    if is_compatible manifest.api_version platform_api_version
    then []
    else error_of "PLUGIN-API-VERSION-INCOMPATIBLE" manifest.id ∷ []

abbrev pub is_error : ValidationIssue → Bool
is_error i = i.severity == "error"

unfoldable pub validate_manifest : PluginManifest → String → ValidationResult
validate_manifest manifest platform_api_version =
    let issues =
      validate_permissions manifest
      ++ (validate_hooks manifest
          ++ validate_version_compatibility manifest platform_api_version) in
    record { plugin_id = manifest.id; valid = not (any is_error issues); issues = issues }

-- `seen[m.id] = seen.get(m.id, 0) + 1`, for each manifest
unfoldable pub count_ids : List PluginManifest → Dict ℕ → Dict ℕ
count_ids [] seen = seen
count_ids (m ∷ ms) seen =
    count_ids ms (insert m.id (elim (lookup m.id seen) [ none ↦ 0 | some n ↦ n ] + 1) seen)

-- The loop over `seen.items()`.
unfoldable pub duplicate_issues : Dict ℕ → Dict (List ValidationIssue)
duplicate_issues [] = []
duplicate_issues ((plugin_id, count) ∷ seen) =
    let rest = duplicate_issues seen in
    if ltb 1 count then (plugin_id, error_of "PLUGIN-DUPLICATE-ID" plugin_id ∷ []) ∷ rest else rest

unfoldable pub validate_duplicate_ids : List PluginManifest → Dict (List ValidationIssue)
validate_duplicate_ids manifests = duplicate_issues (count_ids manifests [])
