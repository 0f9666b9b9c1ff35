-- ===== src/Pipeline/Tests.antt =====
-- Runs of services/integration/dependency_graph.py, and its theorems at concrete inputs.
use vision_virtual_intellige.Prelude.{ℕ, suc, ◌≡◌, refl, true, false, some, [], ◌∷◌, sorted}
use vision_virtual_intellige.Pipeline.{
  validate_dependency, dependency_check, validate_transition, transition_check, has_cycle,
  has_cycle_in,
}
use vision_virtual_intellige.Pipeline.Checks.{tier_of, validate_transition-tiers}

has_cycle_run : has_cycle ≡ some false
unfolding has_cycle
has_cycle_run = refl

cyclic_run : has_cycle_in (("a", "b" ∷ []) ∷ ("b", "a" ∷ []) ∷ ("c", []) ∷ []) ≡ some true
unfolding has_cycle
cyclic_run = refl

accepted : (validate_transition (some "qa") "devops").passed ≡ true
unfolding validate_transition transition_check
accepted = refl

devops_may_run : (validate_dependency "devops" ("qa" ∷ "security" ∷ [])).passed ≡ true
unfolding validate_dependency dependency_check sorted
devops_may_run = refl

validate_transition-tiers_example :
    (n : ℕ) × (tier_of "qa" ≡ some n) × (tier_of "devops" ≡ some (suc n))
validate_transition-tiers_example = validate_transition-tiers "qa" "devops" accepted
