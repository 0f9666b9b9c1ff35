-- ===== src/Pipeline/Checks.antt =====
-- services/integration/dependency_graph.py: what the dependency and transition checks decide.
use vision_virtual_intellige.Prelude.{
  ℕ, suc, ◌≡◌, refl, sym, ◌∙◌, String, eq_iff, true, not, ◌&&◌, ◌⊎◌, ◌↔◌, inl, inr, Option, none,
  some, List, [], ◌∷◌, arith, if◌then◌else◌, is_empty, contains, contains-difference,
  contains-is_empty, difference-is_empty, IsSubset, has_key-lookup, is_some, contains-sorted,
  difference, sorted, lookup, has_key, Bool-cases,
}
use mathlib.Core.Bool.{false≢true}
use vision_virtual_intellige.Pipeline.{
  department_dependencies, phase_tiers, required_dependencies_for, validate_dependency,
  dependency_check, validate_transition, transition_check,
}

abbrev listed : Option (List String) → List String
listed none = []
listed (some required) = required

dependency_check_lem :
    (d : String) (completed : List String) (entry : Option (List String))
    → ((dependency_check d completed entry).passed ≡ true)
      ↔ ((is_some entry ≡ true) × IsSubset (listed entry) completed)
unfolding dependency_check
dependency_check_lem d completed none = (λ h. absurd (false≢true h), λ h. absurd (false≢true h.0))
dependency_check_lem d completed (some required) =
    let (sound, complete) = difference-is_empty required completed in
    elim (Bool-cases (is_empty (sorted (difference required completed)))) [
      | inl none_missing ↦ rw none_missing (λ _. (refl, sound none_missing), λ _. refl)
      | inr missing ↦
          rw missing
            (λ h. absurd (false≢true h), λ h. absurd (false≢true (sym missing ∙ complete h.1)))
    ]

dependency_check-missing :
    (x d : String) (completed : List String) (entry : Option (List String))
    → contains x (dependency_check d completed entry).missing
      ≡ (not (contains x completed) && contains x (listed entry))
unfolding dependency_check
dependency_check-missing x d completed none = ground arith
dependency_check-missing x d completed (some required) = ground (
  arith,
  contains-is_empty x (sorted (difference required completed)),
  contains-sorted x (difference required completed),
  contains-difference x required completed,
)

required-listed :
    (d : String) → required_dependencies_for d ≡ listed (lookup d department_dependencies)
unfolding required_dependencies_for
required-listed d = ground arith

-- A department may run exactly when it is of the pipeline and each of its dependencies has
-- completed.
pub validate_dependency-passed :
    (d : String) (completed : List String)
    → ((validate_dependency d completed).passed ≡ true) ↔ (
        (has_key d department_dependencies ≡ true)
        × IsSubset (required_dependencies_for d) completed)
unfolding validate_dependency
validate_dependency-passed d completed =
    rw (has_key-lookup d department_dependencies, required-listed d)
      (dependency_check_lem d completed (lookup d department_dependencies))

-- The reported missing dependencies are exactly the required ones that have not completed.
pub validate_dependency-missing :
    (x d : String) (completed : List String)
    → contains x (validate_dependency d completed).missing
      ≡ (not (contains x completed) && contains x (required_dependencies_for d))
unfolding validate_dependency
validate_dependency-missing x d completed =
    rw (required-listed d)
      (dependency_check-missing x d completed (lookup d department_dependencies))

-- The position in `PHASE_TIERS` of the tier that holds a department.
abbrev tier_from : ℕ → List (List String) → String → Option ℕ
tier_from n [] d = none
tier_from n (tier ∷ tiers) d = if contains d tier then some n else tier_from (suc n) tiers d

abbrev pub tier_of : String → Option ℕ
tier_of = tier_from 0 phase_tiers

abbrev IsAccepted : String → String → Type 0
IsAccepted from to =
    (from ≡ "product") × (to ≡ "architecture")
    ⊎ (from ≡ "architecture") × (to ≡ "engineering")
    ⊎ (from ≡ "engineering") × (to ≡ "qa")
    ⊎ (from ≡ "engineering") × (to ≡ "security")
    ⊎ (from ≡ "qa") × (to ≡ "devops")
    ⊎ (from ≡ "security") × (to ≡ "devops")
    ⊎ (from ≡ "devops") × (to ≡ "monitoring")
    ⊎ (from ≡ "monitoring") × (to ≡ "incident_response")

transition_pairs :
    (from to : String) → (validate_transition (some from) to).passed ≡ true → IsAccepted from to
unfolding validate_transition transition_check
transition_pairs from to h = ground (
  arith,
  eq_iff from "product",
  eq_iff from "architecture",
  eq_iff from "engineering",
  eq_iff from "qa",
  eq_iff from "security",
  eq_iff from "devops",
  eq_iff from "monitoring",
  eq_iff to "architecture",
  eq_iff to "engineering",
  eq_iff to "qa",
  eq_iff to "security",
  eq_iff to "devops",
  eq_iff to "monitoring",
  eq_iff to "incident_response",
)

-- An accepted transition goes from a department to one of the very next tier of the pipeline: no
-- phase is skipped or repeated.
pub validate_transition-tiers :
    (from to : String)
    → (validate_transition (some from) to).passed ≡ true
    → (n : ℕ) × (tier_of from ≡ some n) × (tier_of to ≡ some (suc n))
validate_transition-tiers from to h = go (transition_pairs from to h)
  where
    go : IsAccepted from to → (n : ℕ) × (tier_of from ≡ some n) × (tier_of to ≡ some (suc n))
    go (inl (f, t)) = (0, rw f, rw t)
    go (inr (inl (f, t))) = (1, rw f, rw t)
    go (inr (inr (inl (f, t)))) = (2, rw f, rw t)
    go (inr (inr (inr (inl (f, t))))) = (2, rw f, rw t)
    go (inr (inr (inr (inr (inl (f, t)))))) = (3, rw f, rw t)
    go (inr (inr (inr (inr (inr (inl (f, t))))))) = (3, rw f, rw t)
    go (inr (inr (inr (inr (inr (inr (inl (f, t)))))))) = (4, rw f, rw t)
    go (inr (inr (inr (inr (inr (inr (inr (f, t)))))))) = (5, rw f, rw t)

transition_check-completed :
    (from to : String) (completed : List String) (entry : Option (List String))
    → (transition_check (some from) to entry).passed ≡ true
    → contains from (listed entry) ≡ true
unfolding transition_check
transition_check-completed from to completed none h = cc
transition_check-completed from to completed (some required) h = ground arith

-- A transition into a department that may run comes from a completed department.
pub validate_transition-completed :
    (from to : String) (completed : List String)
    → (validate_transition (some from) to).passed ≡ true
    → (validate_dependency to completed).passed ≡ true
    → contains from completed ≡ true
unfolding validate_transition validate_dependency
validate_transition-completed from to completed h k =
    let entry = lookup to department_dependencies in
    ((dependency_check_lem to completed entry).0 k).1 from
      (transition_check-completed from to completed entry h)
