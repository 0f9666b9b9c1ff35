-- ===== src/Release/Bumped.antt =====
-- services/integration/production/release_manager.py: a bumped version is read back.
use Prim.Native.String.{◌++◌ as str_append}
use Prim.Native.String.append.{nil as append_nil, cons as append_cons}
use Prim.Native.Char.{Char}
use vision_virtual_intellige.Prelude.{
  ℕ, ◌+◌, ◌≡◌, refl, sym, ap, ◌∙◌, subst, String, ◌==◌, Bool, true, false, ◌&&◌, ◌||◌, Option, none,
  some, arith, ltb, nat_eq, decimal, parse_int, parse_int-decimal, is_digit_char, all_digits,
  all_digits-decimal, Bool-cases, inl, inr,
}
use vision_virtual_intellige.Release.{
  SemanticVersion, semver_text, span_digits, ◌>>=◌, leading_number, with_patch, with_minor,
  with_major, parse_semver, bumped_part, bump_version, is_breaking_upgrade,
}

-- Digits before another character are the ones that are taken.
span_digits-append :
    (s : String) (c : Char) (t : String)
    → all_digits s ≡ true
    → is_digit_char c ≡ false
    → span_digits (str_append s (String.◌∷◌ c t)) ≡ (s, String.◌∷◌ c t)
unfolding span_digits all_digits
span_digits-append String.[] c t d n =
    let first : span_digits (String.◌∷◌ c t) ≡ (String.[], String.◌∷◌ c t) = rw n refl in
    ap span_digits (append_nil (String.◌∷◌ c t)) ∙ first
span_digits-append (String.◌∷◌ b s) c t d n =
    let rest = span_digits-append s c t (ground arith) n in
    let digit : is_digit_char b ≡ true = ground arith in
    ap span_digits (append_cons b s (String.◌∷◌ c t))
    ∙ rw digit (ap (λ p. (String.◌∷◌ b p.0, p.1)) rest)

span_digits-all : (s : String) → all_digits s ≡ true → span_digits s ≡ (s, String.[])
unfolding span_digits all_digits
span_digits-all String.[] d = refl
span_digits-all (String.◌∷◌ b s) d =
    let digit : is_digit_char b ≡ true = ground arith in
    rw digit (ap (λ p. (String.◌∷◌ b p.0, p.1)) (span_digits-all s (ground arith)))

number_of : String × String → Option (ℕ × String)
number_of (digits, rest) = parse_int digits >>= λ n. some (n, rest)

leading_number-dot :
    (n : ℕ) (t : String)
    → leading_number (str_append (decimal n) (String.◌∷◌ "." t)) ≡ some (n, String.◌∷◌ "." t)
unfolding leading_number number_of
leading_number-dot n t =
    ap number_of (span_digits-append (decimal n) "." t (all_digits-decimal n) refl)
    ∙ ap (λ m. m >>= λ k. some (k, String.◌∷◌ "." t)) (parse_int-decimal n)

leading_number-end : (n : ℕ) → leading_number (decimal n) ≡ some (n, String.[])
unfolding leading_number number_of
leading_number-end n =
    ap number_of (span_digits-all (decimal n) (all_digits-decimal n))
    ∙ ap (λ m. m >>= λ k. some (k, String.[])) (parse_int-decimal n)

-- A version with no prerelease.
abbrev pub release : ℕ → ℕ → ℕ → SemanticVersion
release major minor patch = record {
  major = major;
  minor = minor;
  patch = patch;
  prerelease = none;
}

-- The text of a version with no prerelease is read back.
parse_semver-semver_text :
    (major minor patch : ℕ)
    → parse_semver (semver_text (release major minor patch)) ≡ some (release major minor patch)
unfolding parse_semver semver_text
parse_semver-semver_text major minor patch =
    ap (λ r. r >>= with_major)
      (leading_number-dot major (str_append (decimal minor) (String.◌∷◌ "." (decimal patch))))
    ∙ ap (λ r. r >>= with_minor major) (leading_number-dot minor (decimal patch))
    ∙ ap (λ r. r >>= with_patch major minor) (leading_number-end patch)

-- The order of versions without their prereleases.
abbrev pub precedes : SemanticVersion → SemanticVersion → Bool
precedes v w =
    ltb v.major w.major
    || nat_eq v.major w.major
      && (ltb v.minor w.minor || nat_eq v.minor w.minor && ltb v.patch w.patch)

-- What a bump does to the numbers.
IsBump : SemanticVersion → String → SemanticVersion → Type 0
IsBump v part next =
    (next ≡ release next.major next.minor next.patch)
    × (precedes v next ≡ true)
    × (ltb v.major next.major ≡ (part == "major"))

bumped_part-IsBump :
    (v next : SemanticVersion) (part : String) → bumped_part v part ≡ some next → IsBump v part next
unfolding IsBump
bumped_part-IsBump v next part e = elim (Bool-cases (part == "major")) [
  | inl major ↦
      let is : release (v.major + 1) 0 0 ≡ next = ground (arith, e, major) in
      subst (IsBump v part) is (refl, ground arith, ground (arith, major))
  | inr other ↦ elim (Bool-cases (part == "minor")) [
    | inl minor ↦
        let is : release v.major (v.minor + 1) 0 ≡ next = ground (arith, e, other, minor) in
        subst (IsBump v part) is (refl, ground arith, ground (arith, other))
    | inr neither ↦ elim (Bool-cases (part == "patch")) [
      | inl patch ↦
          let is : release v.major v.minor (v.patch + 1) ≡ next =
            ground (arith, e, other, neither, patch) in
          subst (IsBump v part) is (refl, ground arith, ground (arith, other))
      | inr unknown ↦ ground (arith, e, other, neither, unknown)
    ]
  ]
]

-- If a version can be read and the part is one of the three, the bumped version has a text that is
-- read back as it, it is above the old version, prereleases aside, and an upgrade to it is breaking
-- exactly when the part is "major".
pub bump_version_lem :
    (version part : String) (v next : SemanticVersion)
    → parse_semver version ≡ some v
    → bumped_part v part ≡ some next
    → (text : String) × (bump_version version part ≡ some text)
      × (parse_semver text ≡ some next)
      × (precedes v next ≡ true)
      × (is_breaking_upgrade version text ≡ some (part == "major"))
unfolding bump_version is_breaking_upgrade IsBump
bump_version_lem version part v next e b =
    let (plain, above, breaking) = bumped_part-IsBump v next part b in
    let read : parse_semver (semver_text next) ≡ some next =
      ap (λ w. parse_semver (semver_text w)) plain
      ∙ parse_semver-semver_text next.major next.minor next.patch
      ∙ ap some (sym plain) in
    (
      semver_text next,
      ap (λ r. r >>= λ semver. bumped_part semver part >>= λ w. some (semver_text w)) e
          ∙ ap (λ r. r >>= λ w. some (semver_text w)) b,
      read,
      above,
      ap (λ r. r >>= λ w. parse_semver version >>= λ u. some (ltb u.major w.major)) read
          ∙ ap (λ r. r >>= λ u. some (ltb u.major next.major)) e
          ∙ ap some breaking,
    )
