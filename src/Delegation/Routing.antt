-- ===== src/Delegation/Routing.antt =====
-- services/manager/graphs/delegation.py: where the declared edges lead after a validation and
-- after a retry.
use vision_virtual_intellige.Prelude.{
  ◌≤◌, ◌<◌, ◌≡◌, ◌≢◌, refl, true, false, ◌⊎◌, inl, inr, arith, some, none, ◌∷◌, [], String, sym,
  ◌∙◌, eq_iff, List, contains, map, Option-cases, is_empty, Option, Dict, lookup,
}
use mathlib.Core.Bool.{false≢true}
use vision_virtual_intellige.Delegation.{
  DelegationState, Value, Update, field_of, merge, Node, select_agent_node, escalate_task_node,
  validate_completion_node, route_escalation, targets, Member,
}
use vision_virtual_intellige.Delegation.Retry.{
  route_after_validation_cases, validate_completion-keeps,
}

abbrev pub written : Update → List String
written u = map field_of u

route_escalation_cases :
    (s : DelegationState)
    → (s.escalation_level < 4) × (route_escalation s ≡ "escalate")
      ⊎ (4 ≤ s.escalation_level) × (route_escalation s ≡ "dead_letter")
unfolding route_escalation
route_escalation_cases s = ground arith

-- After a retry the declared edges lead to `select_agent`, and at once to `escalate_task` (escalation
-- level below 4) or to `dead_letter` (otherwise). In the first case both nodes write
-- `selected_agent`, the one an agent and the other None.
pub handle_retry-targets :
    (s : DelegationState)
    → Member Node.select_agent (targets Node.handle_retry s)
      × ((s.escalation_level < 4)
            × Member Node.escalate_task (targets Node.handle_retry s)
            × (contains "selected_agent" (written (select_agent_node s)) ≡ true)
            × (contains "selected_agent" (written (escalate_task_node s)) ≡ true)
            × ((merge s (select_agent_node s)).selected_agent ≢ none)
            × ((merge s (escalate_task_node s)).selected_agent ≡ none)
          ⊎ (4 ≤ s.escalation_level) × Member Node.dead_letter (targets Node.handle_retry s))
unfolding targets select_agent_node escalate_task_node
handle_retry-targets s = elim (route_escalation_cases s) [
  | inl (low, e) ↦ rw e (refl, inl (low, refl, refl, refl, (λ h. cc), refl))
  | inr (high, e) ↦ rw e (refl, inr (high, refl))
]

-- The agent left an output, and it does not say that it failed.
abbrev pub Succeeded : Option (Dict Value) → Type 0
Succeeded none = ⊥
Succeeded (some output) =
    (is_empty output ≡ false) × (lookup "status" output ≢ some (Value.text "failed"))

validate_completion-Succeeded :
    (s : DelegationState)
    → ((merge s (validate_completion_node s)).validation_passed ≡ true) × Succeeded s.task_output
      ⊎ ((merge s (validate_completion_node s)).validation_passed ≡ false)
        × ¬ Succeeded s.task_output
unfolding validate_completion_node
validate_completion-Succeeded s = elim (Option-cases s.task_output) [
  | inl absent ↦ rw absent (inr (refl, λ h. h))
  | inr (output, present) ↦ rw present (elim (Option-cases (lookup "status" output)) [
    | inl e ↦ ground arith
    | inr (Value.text v, e) ↦ ground (arith, eq_iff v "failed")
    | inr (Value.other, e) ↦ ground arith
  ])
]

route_targets :
    (t : DelegationState)
    → (t.validation_passed ≡ true) × (targets Node.validate_completion t ≡ Node.task_complete ∷ [])
      ⊎ (t.validation_passed ≡ false)
        × ((t.retry_count < t.max_retries)
              × (targets Node.validate_completion t ≡ Node.handle_retry ∷ [])
            ⊎ (t.max_retries ≤ t.retry_count)
              × (targets Node.validate_completion t ≡ Node.dead_letter ∷ []))
unfolding targets
route_targets t = elim (route_after_validation_cases t) [
  | inl (passed, e) ↦ rw e (inl (passed, refl))
  | inr (inl (failed, none_left, e)) ↦ rw e (inr (failed, inr (none_left, refl)))
  | inr (inr (failed, some_left, e)) ↦ rw e (inr (failed, inl (some_left, refl)))
]

-- A task completes exactly when its agent left a non-empty output whose status is not "failed".
-- Without one it is retried while a retry is left, and dead-lettered after that.
pub validation-targets :
    (s : DelegationState)
    → let ns = targets Node.validate_completion (merge s (validate_completion_node s)) in
      Succeeded s.task_output × (ns ≡ Node.task_complete ∷ [])
      ⊎ ¬ Succeeded s.task_output
        × ((s.retry_count < s.max_retries) × (ns ≡ Node.handle_retry ∷ [])
            ⊎ (s.max_retries ≤ s.retry_count) × (ns ≡ Node.dead_letter ∷ []))
validation-targets s =
    let t = merge s (validate_completion_node s) in
    let (r, m, _) = validate_completion-keeps s in
    elim (validate_completion-Succeeded s) [
      | inl (passed, good) ↦ elim (route_targets t) [
        | inl (_, e) ↦ inl (good, e)
        | inr (failed, _) ↦ absurd (false≢true (sym failed ∙ passed))
      ]
      | inr (failed, bad) ↦ elim (route_targets t) [
        | inl (passed, _) ↦ absurd (false≢true (sym failed ∙ passed))
        | inr (_, inl (left, e)) ↦ inr (bad, inl (omega arith, e))
        | inr (_, inr (spent, e)) ↦ inr (bad, inr (omega arith, e))
      ]
    ]
