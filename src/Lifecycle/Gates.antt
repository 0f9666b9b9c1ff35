-- ===== src/Lifecycle/Gates.antt =====
-- services/manager/graphs/lifecycle.py: where each conditional edge leads, as a choice of nodes.
use vision_virtual_intellige.Prelude.{
  ◌<◌, ◌≢◌, ◌↔◌, eq_iff, arith, Option, none, some, ◌≡◌, refl, String, ◌==◌, Bool, true, false, leb,
  if◌then◌else◌, Dict,
}
use vision_virtual_intellige.Lifecycle.{
  LifecycleState, status_is, has_type, route_requirements_approval, route_architecture_approval,
  route_after_implementation, route_validation, route_deployment_approval, route_after_deployment,
  Node, Next, next, follow,
}

follow-if :
    (table : Dict Node) (b : Bool) (x y : String)
    → follow table (if b then x else y) ≡ (if b then follow table x else follow table y)
follow-if table true x y = refl
follow-if table false x y = refl

status_is_lem :
    (status : Option String) (expected : String)
    → (status_is status expected ≡ true) ↔ (status ≡ some expected)
status_is_lem none expected = (λ h. cc, λ h. cc)
status_is_lem (some status) expected =
    (λ h. ground (arith, eq_iff status expected), λ h. ground (arith, eq_iff status expected))

module _ {F : Type 0} (t : LifecycleState F) where
  pub next-requirements_approval_gate : next Node.requirements_approval_gate t ≡ (
      if t.budget_status == "exceeded"
      then Next.to Node.budget_exceeded_handler
      else if leb 5 t.revision_round
      then Next.to Node.max_revisions
      else if status_is t.approval_status "approved"
      then Next.to Node.architecture_phase
      else if status_is t.approval_status "rejected"
      then Next.to Node.requirements_revision
      else Next.to Node.requirements_approval_gate)
  unfolding next route_requirements_approval
  next-requirements_approval_gate = simp follow-if

  pub next-architecture_approval_gate : next Node.architecture_approval_gate t ≡ (
      if t.budget_status == "exceeded"
      then Next.to Node.budget_exceeded_handler
      else if leb 5 t.revision_round
      then Next.to Node.max_revisions
      else if status_is t.approval_status "approved"
      then Next.to Node.project_structure
      else if status_is t.approval_status "rejected"
      then Next.to Node.architecture_revision
      else Next.to Node.architecture_approval_gate)
  unfolding next route_architecture_approval
  next-architecture_approval_gate = simp follow-if

  pub next-implementation_phase : next Node.implementation_phase t ≡ (
      if t.budget_status == "exceeded"
      then Next.to Node.budget_exceeded_handler
      else if t.phase_status == "failed"
      then Next.to Node.handle_failure
      else Next.to Node.validation_phase)
  unfolding next route_after_implementation
  next-implementation_phase = simp follow-if

  pub next-validation_phase : next Node.validation_phase t ≡ (
      if t.budget_status == "exceeded"
      then Next.to Node.budget_exceeded_handler
      else if has_type "security_block" t.failed_tasks
      then Next.to Node.handle_failure
      else if has_type "qa_failure" t.failed_tasks
      then Next.to Node.engineering_rework
      else Next.to Node.deployment_phase)
  unfolding next route_validation
  next-validation_phase = simp follow-if

  pub next-deployment_approval_gate : next Node.deployment_approval_gate t ≡ (
      if t.budget_status == "exceeded"
      then Next.to Node.budget_exceeded_handler
      else if status_is t.approval_status "approved"
      then Next.to Node.execute_deployment
      else if status_is t.approval_status "rejected"
      then Next.to Node.deployment_phase
      else Next.to Node.deployment_approval_gate)
  unfolding next route_deployment_approval
  next-deployment_approval_gate = simp follow-if

  pub next-execute_deployment : next Node.execute_deployment t ≡ (
      if t.phase_status == "failed"
      then Next.to Node.handle_failure
      else Next.to Node.monitoring_phase)
  unfolding next route_after_deployment
  next-execute_deployment = simp follow-if

  -- Every answer of a router is in the table of its edge, so no node is left without a successor by
  -- mistake.
  pub next_mapped : (n : Node) → next n t ≢ Next.unmapped
  unfolding next
  next_mapped n = ground (
    arith, next-requirements_approval_gate, next-architecture_approval_gate,
    next-implementation_phase, next-validation_phase, next-deployment_approval_gate,
    next-execute_deployment,
  )

  -- The two revision gates let a run through exactly when it is approved, within the budget, and has
  -- seen fewer than five revisions: after the fifth not even an approval helps.
  pub revision_gates :
      ((next Node.requirements_approval_gate t ≡ Next.to Node.architecture_phase) ↔ (
        (t.approval_status ≡ some "approved")
        × (t.budget_status ≢ "exceeded")
        × (t.revision_round < 5)))
      × ((next Node.architecture_approval_gate t ≡ Next.to Node.project_structure) ↔ (
          (t.approval_status ≡ some "approved")
          × (t.budget_status ≢ "exceeded")
          × (t.revision_round < 5)))
  revision_gates =
      let approved = status_is_lem t.approval_status "approved" in
      let spent = eq_iff t.budget_status "exceeded" in
      (
        (
          λ h. ground (arith, next-requirements_approval_gate, approved, spent),
          λ h. ground (arith, next-requirements_approval_gate, approved, spent),
        ),
        (
          λ h. ground (arith, next-architecture_approval_gate, approved, spent),
          λ h. ground (arith, next-architecture_approval_gate, approved, spent),
        ),
      )
