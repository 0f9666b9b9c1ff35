-- ===== src/Lifecycle/Approval.antt =====
-- services/manager/graphs/lifecycle.py: what the approval gates behind a node have seen.
use vision_virtual_intellige.Prelude.{
  ℕ, zero, suc, ◌≡◌, subst, sym, ◌≤◌, ◌<◌, ◌==◌, Bool, true, false, not, ◌&&◌, ◌⊎◌, inl, inr, List,
  arith, leb, any,
}
use vision_virtual_intellige.Lifecycle.Gates.{
  next-requirements_approval_gate, next-architecture_approval_gate, next-implementation_phase,
  next-validation_phase, next-deployment_approval_gate, next-execute_deployment,
}
use vision_virtual_intellige.Lifecycle.{LifecycleState, status_is, Node, Next, next, run_node, Run}

-- How many of the three gates are behind a node.
abbrev pub stage : Node → ℕ
stage Node.architecture_phase = 1
stage Node.architecture_approval_gate = 1
stage Node.architecture_revision = 1
stage Node.project_structure = 2
stage Node.implementation_phase = 2
stage Node.validation_phase = 2
stage Node.engineering_rework = 2
stage Node.deployment_phase = 2
stage Node.deployment_approval_gate = 2
stage Node.execute_deployment = 3
stage Node.monitoring_phase = 3
stage Node.project_complete = 3
stage _ = 0

lt-cases : (k n : ℕ) → k < suc n → (k < n) ⊎ (k ≡ n)
lt-cases k n h = ground arith

module _ {F : Type 0} where
  -- The state is approved and within the budget.
  abbrev pub is_approved : LifecycleState F → Bool
  is_approved t = status_is t.approval_status "approved" && not (t.budget_status == "exceeded")

  -- Fewer than five revisions have been asked for.
  abbrev pub is_revisable : LifecycleState F → Bool
  is_revisable t = not (leb 5 t.revision_round)

  -- The node is the gate of the stage, and it saw an approved state.
  abbrev pub passed : ℕ → Node × LifecycleState F → Bool
  passed zero (Node.requirements_approval_gate, t) = is_approved t && is_revisable t
  passed (suc zero) (Node.architecture_approval_gate, t) = is_approved t && is_revisable t
  passed (suc (suc zero)) (Node.deployment_approval_gate, t) = is_approved t
  passed _ _ = false

  next-stage :
      (n m : Node) (t : LifecycleState F)
      → next n t ≡ Next.to m
      → (stage m ≤ stage n) ⊎ (stage m ≡ suc (stage n)) × (passed (stage n) (n, t) ≡ true)
  unfolding next
  next-stage n m t e = ground (
    arith,
    next-requirements_approval_gate t,
    next-architecture_approval_gate t,
    next-implementation_phase t,
    next-validation_phase t,
    next-deployment_approval_gate t,
    next-execute_deployment t,
  )

  -- A run that stands at a node has been through each gate that is behind the node. Each of those gates
  -- saw, at one of its turns, a state whose approval status was approved and whose budget was not
  -- exceeded, and with fewer than five revisions if it is one of the first two, whatever is written into
  -- the state between two nodes.
  pub Run-passed :
      {past : List (Node × LifecycleState F)} {n : Node} {s : LifecycleState F} (k : ℕ)
      → Run past n s
      → k < stage n
      → any (passed k) past ≡ true
  Run-passed k (Run.entry s) below = absurd (omega (arith, below))
  Run-passed k (Run.updated t r) below = Run-passed k r below
  Run-passed k (Run.stepped {past} {n} {s} m r e) below = elim (next-stage n m (run_node n s) e) [
    | inl lower ↦ let before = Run-passed k r (omega arith) in ground arith
    | inr (higher, gate) ↦ elim (lt-cases k (stage n) (omega arith)) [
      | inl deeper ↦ let before = Run-passed k r deeper in ground arith
      | inr here ↦
          let at_gate = subst (λ j. passed j (n, run_node n s) ≡ true) (sym here) gate in
          ground arith
    ]
  ]
