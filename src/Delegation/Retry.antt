-- ===== src/Delegation/Retry.antt =====
-- services/manager/graphs/delegation.py: bounds on retries and escalation, and on the length of
-- every run along the declared edges.
use vision_virtual_intellige.Prelude.{
  ℕ, ◌+◌, ◌-◌, ◌*◌, ◌≤◌, ◌<◌, ◌≡◌, refl, ◌∙◌, ◌⊎◌, true, false, String, arith, Option-cases, inl,
  inr,
}
use vision_virtual_intellige.Router.{Settings}
use vision_virtual_intellige.Delegation.{
  DelegationState, merge, route_after_validation, route_escalation, Node, validate_completion_node,
  run_node, targets, Member, Walk,
}

abbrev at_retry : Node → ℕ
at_retry Node.handle_retry = 1
at_retry _ = 0

-- Retries and escalation are within their limits; where a retry is about to be counted, there is
-- room for it.
abbrev pub IsWithin : Node → DelegationState → Type 0
IsWithin n s = (s.escalation_level ≤ 4) × (s.retry_count + at_retry n ≤ s.max_retries)

-- How many nodes a run may still pass before it next counts a retry or ends.
abbrev pub rank : Node → ℕ
rank Node.select_department = 9
rank Node.select_agent = 8
rank Node.select_model = 7
rank Node.assign_task = 6
rank Node.monitor_progress = 5
rank Node.collect_results = 4
rank Node.validate_completion = 3
rank Node.handle_retry = 2
rank Node.escalate_task = 9
rank Node.dead_letter = 1
rank Node.task_complete = 1
rank Node.finish = 0

abbrev pub remaining : Node → DelegationState → ℕ
remaining n s = 10 * (s.max_retries - s.retry_count) + rank n

abbrev Advances : Node → DelegationState → Node → DelegationState → Type 0
Advances n s next t =
    IsWithin next t × (remaining next t < remaining n s) × (t.max_retries ≡ s.max_retries)

-- Validation leaves the counters alone.
pub validate_completion-keeps :
    (s : DelegationState)
    → let t = merge s (validate_completion_node s) in
      (t.retry_count ≡ s.retry_count)
      × (t.max_retries ≡ s.max_retries)
      × (t.escalation_level ≡ s.escalation_level)
unfolding validate_completion_node
validate_completion-keeps s = elim (Option-cases s.task_output) [
  | inl absent ↦ rw absent (refl, refl, refl)
  | inr (output, present) ↦ rw present (ground arith)
]

pub route_after_validation_cases :
    (s : DelegationState)
    → (s.validation_passed ≡ true) × (route_after_validation s ≡ "complete")
      ⊎ ((s.validation_passed ≡ false)
            × (s.max_retries ≤ s.retry_count)
            × (route_after_validation s ≡ "dead_letter")
          ⊎ (s.validation_passed ≡ false)
            × (s.retry_count < s.max_retries)
            × (route_after_validation s ≡ "retry"))
unfolding route_after_validation
route_after_validation_cases s = ground arith

-- The routing after validation counts a retry only where one is left.
route_after_validation-Advances :
    (s t : DelegationState) (next : Node)
    → IsWithin Node.validate_completion t
    → Member next (targets Node.validate_completion t)
    → IsWithin next t × (remaining next t < remaining Node.validate_completion t)
unfolding targets
route_after_validation-Advances s t next w m = elim (route_after_validation_cases t) [
  | inl (passed, e) ↦ let m' = rw e at m in ground arith
  | inr (inl (failed, none_left, e)) ↦ let m' = rw e at m in ground arith
  | inr (inr (failed, some_left, e)) ↦ let m' = rw e at m in ground arith
]

module _ (settings : Settings) (run_id : String) where
  step-Advances :
      (n : Node) (s : DelegationState) (next : Node)
      → IsWithin n s
      → Member next (targets n (merge s (run_node settings run_id n s)))
      → Advances n s next (merge s (run_node settings run_id n s))
  unfolding run_node targets route_escalation
  step-Advances Node.select_department s next w m = ground arith
  step-Advances Node.select_model s next w m = ground arith
  step-Advances Node.validate_completion s next w m =
      let t = merge s (validate_completion_node s) in
      ground (arith, validate_completion-keeps s, route_after_validation-Advances s t next)
  step-Advances Node.handle_retry s next w m = ground arith
  step-Advances _ s next w m = ground arith

Walk-Advances :
    (settings : Settings) {k : ℕ} {n : Node} {s : DelegationState} {m : Node} {t : DelegationState}
    → IsWithin n s
    → Walk settings k n s m t
    → IsWithin m t × (k + remaining m t ≤ remaining n s) × (t.max_retries ≡ s.max_retries)
Walk-Advances settings w (Walk.here n s) = (w, omega arith, refl)
Walk-Advances settings w (Walk.step {m = m} {t = t} run_id next r e) =
    let (inv, bound, same) = Walk-Advances settings w r in
    let (inv', less, same') = step-Advances settings run_id m t next inv e in
    (inv', omega arith, same' ∙ same)
Walk-Advances settings w (Walk.output value r) = Walk-Advances settings w r

-- Every walk along the declared edges that starts at the entry point with its retries and its
-- escalation level within their limits passes at most 10 * (max_retries - retry_count) + 9 nodes,
-- and keeps the retries at most max_retries and the escalation level at most 4.
pub Walk-bounded :
    (settings : Settings) {k : ℕ} {s : DelegationState} {m : Node} {t : DelegationState}
    → s.escalation_level ≤ 4
    → s.retry_count ≤ s.max_retries
    → Walk settings k Node.select_department s m t
    → (k ≤ 10 * (s.max_retries - s.retry_count) + 9)
      × (t.retry_count ≤ s.max_retries)
      × (t.escalation_level ≤ 4)
Walk-bounded settings e r w =
    let (inv, bound, same) = Walk-Advances settings (e, omega arith) w in
    (omega arith, omega arith, inv.0)
