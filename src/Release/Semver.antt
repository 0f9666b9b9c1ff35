-- ===== src/Release/Semver.antt =====
-- services/integration/production/release_manager.py: semantic versions and the checklists. A text is given
-- without blanks around it. A digit is one of 0 to 9. The detail texts of the steps are left out.
use Prim.Native.String.{◌++◌ as str_append}
use Prim.Native.Char.{Char, code}
use vision_virtual_intellige.Prelude.{
  ℕ, ◌+◌, String, ◌==◌, Bool, true, false, not, ◌&&◌, ◌||◌, Option, none, some, List, [], ◌∷◌,
  if◌then◌else◌, leb, ltb, nat_eq, decimal, parse_int, is_digit_char,
}

pub record SemanticVersion : Type 0 where
  pub major : ℕ
  pub minor : ℕ
  pub patch : ℕ
  pub prerelease : Option String

pub record ChecklistStep : Type 0 where
  pub step : String
  pub required : Bool

-- `f"{major}.{minor}.{patch}"`, and the prerelease after a dash unless it is None or empty
unfoldable pub semver_text : SemanticVersion → String
semver_text v =
    let base =
      str_append (decimal v.major)
        (String.◌∷◌ "." (str_append (decimal v.minor) (String.◌∷◌ "." (decimal v.patch)))) in
    elim (v.prerelease) [
      | none ↦ base
      | some pre ↦ if pre == "" then base else str_append base (String.◌∷◌ "-" pre)
    ]

-- The digits that a text starts with, and the rest.
unfoldable pub span_digits : String → String × String
span_digits String.[] = (String.[], String.[])
span_digits (String.◌∷◌ c s) =
    let rest = span_digits s in
    if is_digit_char c then (String.◌∷◌ c rest.0, rest.1) else (String.[], String.◌∷◌ c s)

-- The rest after this character, if the text starts with it.
abbrev pub after_char : ℕ → String → Option String
after_char k String.[] = none
after_char k (String.◌∷◌ c s) = if nat_eq (code c) k then some s else none

infixl 5 ◌>>=◌
abbrev pub ◌>>=◌ : {A B : Type 0} → Option A → (A → Option B) → Option B
none >>= f = none
some a >>= f = f a

-- A number and the rest.
unfoldable pub leading_number : String → Option (ℕ × String)
unfolding span_digits
leading_number s = let (digits, rest) = span_digits s in parse_int digits >>= λ n. some (n, rest)

-- `[0-9A-Za-z.-]`
abbrev is_prerelease_char : Char → Bool
is_prerelease_char c =
    is_digit_char c
    || (leb b'A' (code c) && leb (code c) b'Z')
    || (leb b'a' (code c) && leb (code c) b'z')
    || (nat_eq (code c) b'.' || nat_eq (code c) b'-')

abbrev pub is_prerelease : String → Bool
is_prerelease String.[] = true
is_prerelease (String.◌∷◌ c s) = is_prerelease_char c && is_prerelease s

-- `(?:-(?P<prerelease>…+))?$`
unfoldable pub prerelease_of : String → Option (Option String)
prerelease_of String.[] = some none
prerelease_of (String.◌∷◌ c s) =
    if nat_eq (code c) b'-' && (not (s == "") && is_prerelease s) then some (some s) else none

-- The groups of the pattern, one after another.
unfoldable pub with_patch : ℕ → ℕ → ℕ × String → Option SemanticVersion
unfolding prerelease_of
with_patch major minor (patch, u) = prerelease_of u >>= λ prerelease.
    some (record { major = major; minor = minor; patch = patch; prerelease = prerelease })

unfoldable pub with_minor : ℕ → ℕ × String → Option SemanticVersion
unfolding leading_number with_patch
with_minor major (minor, t) = (after_char b'.' t >>= leading_number) >>= with_patch major minor

unfoldable pub with_major : ℕ × String → Option SemanticVersion
unfolding leading_number with_minor
with_major (major, s) = (after_char b'.' s >>= leading_number) >>= with_minor major

-- `none` stands for the ValueError.
unfoldable pub parse_semver : String → Option SemanticVersion
unfolding leading_number with_major
parse_semver version = leading_number version >>= with_major

-- The three branches of `bump_version`; `none` stands for the ValueError of another part.
abbrev pub bumped_part : SemanticVersion → String → Option SemanticVersion
bumped_part semver part =
    if part == "major"
    then some (record { major = semver.major + 1; minor = 0; patch = 0; prerelease = none })
    else if part == "minor"
    then some
        (record { major = semver.major; minor = semver.minor + 1; patch = 0; prerelease = none })
    else if part == "patch"
    then some (record {
      major = semver.major;
      minor = semver.minor;
      patch = semver.patch + 1;
      prerelease = none;
    })
    else none

unfoldable pub bump_version : String → String → Option String
unfolding parse_semver semver_text
bump_version version part =
    parse_semver version >>= λ semver. bumped_part semver part >>= λ next. some (semver_text next)

unfoldable pub is_breaking_upgrade : String → String → Option Bool
unfolding parse_semver
is_breaking_upgrade previous_version next_version = parse_semver next_version >>= λ next.
    parse_semver previous_version >>= λ previous. some (ltb previous.major next.major)

abbrev required_step : String → ChecklistStep
required_step step = record { step = step; required = true }

-- `if previous_version and …`: None and "" are no previous version.
abbrev breaking_after : Option String → String → Option Bool
breaking_after none next_version = some false
breaking_after (some previous) next_version =
    if previous == "" then some false else is_breaking_upgrade previous next_version

unfoldable pub build_upgrade_checklist : Option String → String → Option (List ChecklistStep)
unfolding is_breaking_upgrade
build_upgrade_checklist previous_version next_version =
    let steps =
      required_step "backup"
      ∷ required_step "run_migrations"
      ∷ required_step "validate_environment"
      ∷ required_step "validate_deployment_assets"
      ∷ required_step "smoke_test"
      ∷ [] in
    breaking_after previous_version next_version >>= λ breaking.
    some (if breaking then required_step "review_breaking_changes" ∷ steps else steps)

unfoldable pub build_rollback_plan : Option String → String → List ChecklistStep
build_rollback_plan none next_version = record { step = "no_prior_release"; required = false } ∷ []
build_rollback_plan (some previous) next_version =
    required_step "stop_traffic"
    ∷ required_step "restore_backup"
    ∷ required_step "downgrade_migrations"
    ∷ required_step "redeploy_previous_artifacts"
    ∷ required_step "verify_health"
    ∷ []
