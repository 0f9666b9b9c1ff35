-- ===== src/Release/Tests.antt =====
-- services/integration/production/release_manager.py: versions of a release.
use vision_virtual_intellige.Prelude.{
  ◌≡◌, refl, String, true, none, some, ◌==◌, decimal, parse_int, all_digits,
}
use vision_virtual_intellige.Release.{
  SemanticVersion, parse_semver, bump_version, is_breaking_upgrade, build_upgrade_checklist,
}
use vision_virtual_intellige.Release.Bumped.{release, precedes, bump_version_lem}

abbrev candidate : SemanticVersion
candidate = record { major = 1; minor = 9; patch = 3; prerelease = some "rc.1" }

program : Unit {0}
unfolding bump_version parse_int all_digits decimal build_upgrade_checklist
program = tt

candidate_read : parse_semver "1.9.3-rc.1" ≡ some candidate
unfolding program
candidate_read = refl

not_read : parse_semver "1.9" ≡ none
unfolding program
not_read = refl

not_compared : build_upgrade_checklist (some "old") "2.0.0" ≡ none
unfolding program
not_compared = refl

bump_version_lem_example :
    (text : String) × (bump_version "1.9.3-rc.1" "minor" ≡ some text)
    × (parse_semver text ≡ some (release 1 10 0))
    × (precedes candidate (release 1 10 0) ≡ true)
    × (is_breaking_upgrade "1.9.3-rc.1" text ≡ some ("minor" == "major"))
bump_version_lem_example =
    bump_version_lem "1.9.3-rc.1" "minor" candidate (release 1 10 0) candidate_read refl
