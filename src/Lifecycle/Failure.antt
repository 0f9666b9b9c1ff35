-- ===== src/Lifecycle/Failure.antt =====
-- services/manager/graphs/lifecycle.py: which failures the graph sees, and which it repeats.
use vision_virtual_intellige.Prelude.{
  ℕ, zero, suc, ◌*◌, ◌≡◌, ◌≢◌, refl, ap, ◌∙◌, eq_iff, ◌==◌, true, false, ◌⊎◌, inl, inr, Option,
  none, some, arith, Bool-cases,
}
use vision_virtual_intellige.Lifecycle.{
  LifecycleState, has_type, Node, Next, next, run_node, validation_phase_node,
  engineering_rework_node, implementation_phase_node, execute_deployment_phase_node,
}
use vision_virtual_intellige.Lifecycle.Gates.{
  next-implementation_phase, next-validation_phase, next-execute_deployment,
}

module _ {F : Type 0} where
  -- `implementation_phase` and `execute_deployment` set the phase status to "running" just before
  -- their routers look for "failed". So without a write in between neither leads to `handle_failure`:
  -- the one goes on to the validation (or stops at an exceeded budget), the other to the monitoring.
  pub failure_unseen :
      (s : LifecycleState F)
      → let built = run_node Node.implementation_phase s in
        let deployed = run_node Node.execute_deployment s in
        ((s.budget_status ≡ "exceeded")
            × (next Node.implementation_phase built ≡ Next.to Node.budget_exceeded_handler)
          ⊎ (s.budget_status ≢ "exceeded")
            × (next Node.implementation_phase built ≡ Next.to Node.validation_phase))
        × (next Node.execute_deployment deployed ≡ Next.to Node.monitoring_phase)
  unfolding run_node implementation_phase_node execute_deployment_phase_node
  failure_unseen s =
      let built = implementation_phase_node s in
      (
        elim (Bool-cases (s.budget_status == "exceeded")) [
          | inl spent ↦ inl (
            ground (arith, eq_iff s.budget_status "exceeded"),
            ground (arith, next-implementation_phase built),
          )
          | inr left ↦ inr (
            ground (arith, eq_iff s.budget_status "exceeded"),
            ground (arith, next-implementation_phase built),
          )
        ],
        ground (arith, next-execute_deployment (execute_deployment_phase_node s)),
      )

  -- `count` nodes, with no write in between.
  abbrev pub moves : ℕ → Node → LifecycleState F → Option (Node × LifecycleState F)
  moves zero n s = some (n, s)
  moves (suc count) n s = elim (next n (run_node n s)) [
    | Next.to m ↦ moves count m (run_node n s)
    | _ ↦ none
  ]

  -- A QA failure is among the failed tasks, no security block is, and the budget is not exceeded.
  abbrev pub IsQaFailed : LifecycleState F → Type 0
  IsQaFailed s =
      (s.budget_status ≢ "exceeded")
      × (has_type "security_block" s.failed_tasks ≡ false)
      × (has_type "qa_failure" s.failed_tasks ≡ true)

  moves-next :
      (count : ℕ) (n m : Node) (s : LifecycleState F)
      → next n (run_node n s) ≡ Next.to m
      → moves (suc count) n s ≡ moves count m (run_node n s)
  moves-next count n m s e =
      ap
        (λ (x : Next). elim x as (λ _. Option (Node × LifecycleState F)) [
          | Next.to m ↦ moves count m (run_node n s)
          | _ ↦ none
        ])
        e

  abbrev round : LifecycleState F → LifecycleState F
  round s =
      run_node Node.implementation_phase
        (run_node Node.engineering_rework (run_node Node.validation_phase s))

  moves-round :
      (count : ℕ) (s : LifecycleState F)
      → IsQaFailed s
      → (moves (suc (suc (suc count))) Node.validation_phase s
          ≡ moves count Node.validation_phase (round s))
        × ((round s).failed_tasks ≡ s.failed_tasks)
        × IsQaFailed (round s)
  unfolding run_node next implementation_phase_node engineering_rework_node validation_phase_node
  moves-round count s (b, security, qa) =
      let validated = run_node Node.validation_phase s in
      let reworked = run_node Node.engineering_rework validated in
      (
        moves-next (suc (suc count)) Node.validation_phase Node.engineering_rework s
              (ground (arith, next-validation_phase validated, eq_iff s.budget_status "exceeded"))
            ∙ moves-next (suc count) Node.engineering_rework Node.implementation_phase validated
                refl
            ∙ moves-next count Node.implementation_phase Node.validation_phase reworked (
                ground
                  (arith, next-implementation_phase (round s), eq_iff s.budget_status "exceeded")),
        refl,
        (b, security, qa),
      )

  -- Take a state with a QA failure and no security block among the failed tasks, and with a budget
  -- that is not exceeded. With no write in between, a run from the validation is back at it after every
  -- third node, however often, with the same failed tasks.
  pub qa_failure_repeats :
      (rounds : ℕ) (s : LifecycleState F)
      → IsQaFailed s
      → (t : LifecycleState F) × (moves (3 * rounds) Node.validation_phase s
          ≡ some (Node.validation_phase, t))
        × (t.failed_tasks ≡ s.failed_tasks)
  qa_failure_repeats zero s h = (s, refl, refl)
  qa_failure_repeats (suc rounds) s h =
      let (e, same, again) = moves-round (3 * rounds) s h in
      let (t, rest, kept) = qa_failure_repeats rounds (round s) again in
      let three : 3 * suc rounds ≡ suc (suc (suc (3 * rounds))) = omega arith in
      (t, ap (λ c. moves c Node.validation_phase s) three ∙ e ∙ rest, kept ∙ same)
