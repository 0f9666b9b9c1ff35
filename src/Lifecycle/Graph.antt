-- ===== src/Lifecycle/Graph.antt =====
-- services/manager/graphs/lifecycle.py: `build_lifecycle_graph`, and the runs of the graph.
use vision_virtual_intellige.Prelude.{◌≡◌, String, none, some, List, [], ◌∷◌, Dict, lookup}
use vision_virtual_intellige.Lifecycle.State.{
  LifecycleState, route_requirements_approval, route_architecture_approval,
  route_after_implementation, route_validation, route_deployment_approval, route_after_deployment,
}
use vision_virtual_intellige.Lifecycle.Phases.{
  project_intake_node, requirements_phase_node, requirements_approval_gate_node,
  requirements_revision_node, architecture_phase_node, architecture_approval_gate_node,
  architecture_revision_node, project_structure_node, implementation_phase_node,
}
use vision_virtual_intellige.Lifecycle.Nodes.{
  validation_phase_node, engineering_rework_node, deployment_phase_node,
  deployment_approval_gate_node, execute_deployment_phase_node, monitoring_phase_node,
  budget_exceeded_handler_node, handle_failure_node, project_complete_node, max_revisions_node,
}

pub data Node : Type 0 where
  project_intake requirements_phase requirements_approval_gate requirements_revision : Node
  architecture_phase architecture_approval_gate architecture_revision project_structure : Node
  implementation_phase validation_phase engineering_rework deployment_phase : Node
  deployment_approval_gate execute_deployment monitoring_phase budget_exceeded_handler : Node
  handle_failure project_complete max_revisions : Node

-- Where an edge leads; `unmapped` is a router's answer that its table does not list.
pub data Next : Type 0 where
  to : Node → Next
  ended unmapped : Next

abbrev pub follow : Dict Node → String → Next
follow table answer = elim (lookup answer table) [ none ↦ Next.unmapped | some n ↦ Next.to n ]

abbrev pub requirements_targets : Dict Node
requirements_targets =
    ("approved", Node.architecture_phase)
    ∷ ("rejected", Node.requirements_revision)
    ∷ ("max_revisions", Node.max_revisions)
    ∷ ("budget_exceeded", Node.budget_exceeded_handler)
    ∷ ("pending", Node.requirements_approval_gate)
    ∷ []

abbrev pub architecture_targets : Dict Node
architecture_targets =
    ("approved", Node.project_structure)
    ∷ ("rejected", Node.architecture_revision)
    ∷ ("max_revisions", Node.max_revisions)
    ∷ ("budget_exceeded", Node.budget_exceeded_handler)
    ∷ ("pending", Node.architecture_approval_gate)
    ∷ []

abbrev pub implementation_targets : Dict Node
implementation_targets =
    ("complete", Node.validation_phase)
    ∷ ("failed", Node.handle_failure)
    ∷ ("budget_exceeded", Node.budget_exceeded_handler)
    ∷ []

abbrev pub validation_targets : Dict Node
validation_targets =
    ("all_passed", Node.deployment_phase)
    ∷ ("qa_failed", Node.engineering_rework)
    ∷ ("security_blocked", Node.handle_failure)
    ∷ ("budget_exceeded", Node.budget_exceeded_handler)
    ∷ []

abbrev pub deployment_targets : Dict Node
deployment_targets =
    ("approved", Node.execute_deployment)
    ∷ ("rejected", Node.deployment_phase)
    ∷ ("budget_exceeded", Node.budget_exceeded_handler)
    ∷ ("pending", Node.deployment_approval_gate)
    ∷ []

abbrev pub execution_targets : Dict Node
execution_targets = ("success", Node.monitoring_phase) ∷ ("failed", Node.handle_failure) ∷ []

module _ {F : Type 0} where
  -- The edges: each node has one plain edge, or one conditional edge and its table.
  unfoldable pub next : Node → LifecycleState F → Next
  next Node.project_intake s = Next.to Node.requirements_phase
  next Node.requirements_phase s = Next.to Node.requirements_approval_gate
  next Node.requirements_approval_gate s =
      follow requirements_targets (route_requirements_approval s)
  next Node.requirements_revision s = Next.to Node.requirements_phase
  next Node.architecture_phase s = Next.to Node.architecture_approval_gate
  next Node.architecture_approval_gate s =
      follow architecture_targets (route_architecture_approval s)
  next Node.architecture_revision s = Next.to Node.architecture_phase
  next Node.project_structure s = Next.to Node.implementation_phase
  next Node.implementation_phase s = follow implementation_targets (route_after_implementation s)
  next Node.validation_phase s = follow validation_targets (route_validation s)
  next Node.engineering_rework s = Next.to Node.implementation_phase
  next Node.deployment_phase s = Next.to Node.deployment_approval_gate
  next Node.deployment_approval_gate s = follow deployment_targets (route_deployment_approval s)
  next Node.execute_deployment s = follow execution_targets (route_after_deployment s)
  next Node.monitoring_phase s = Next.to Node.project_complete
  next Node.budget_exceeded_handler s = Next.ended
  next Node.handle_failure s = Next.ended
  next Node.project_complete s = Next.ended
  next Node.max_revisions s = Next.to Node.handle_failure

  unfoldable pub run_node : Node → LifecycleState F → LifecycleState F
  run_node Node.project_intake = project_intake_node
  run_node Node.requirements_phase = requirements_phase_node
  run_node Node.requirements_approval_gate = requirements_approval_gate_node
  run_node Node.requirements_revision = requirements_revision_node
  run_node Node.architecture_phase = architecture_phase_node
  run_node Node.architecture_approval_gate = architecture_approval_gate_node
  run_node Node.architecture_revision = architecture_revision_node
  run_node Node.project_structure = project_structure_node
  run_node Node.implementation_phase = implementation_phase_node
  run_node Node.validation_phase = validation_phase_node
  run_node Node.engineering_rework = engineering_rework_node
  run_node Node.deployment_phase = deployment_phase_node
  run_node Node.deployment_approval_gate = deployment_approval_gate_node
  run_node Node.execute_deployment = execute_deployment_phase_node
  run_node Node.monitoring_phase = monitoring_phase_node
  run_node Node.budget_exceeded_handler = budget_exceeded_handler_node
  run_node Node.handle_failure = handle_failure_node
  run_node Node.project_complete = project_complete_node
  run_node Node.max_revisions = max_revisions_node

  -- A run from the entry point: the nodes that have run, the last first, each with the state that its
  -- router saw; then the next node, and its state. Whoever resumes the graph or hears of an event may
  -- write any state between two nodes (`update_state`).
  pub data Run : List (Node × LifecycleState F) → Node → LifecycleState F → Type 0 where
    entry : (s : LifecycleState F) → Run [] Node.project_intake s
    updated :
        {past : List (Node × LifecycleState F)} {n : Node} {s : LifecycleState F}
        (t : LifecycleState F)
        → Run past n s
        → Run past n t
    stepped :
        {past : List (Node × LifecycleState F)} {n : Node} {s : LifecycleState F} (m : Node)
        → Run past n s
        → next n (run_node n s) ≡ Next.to m
        → Run ((n, run_node n s) ∷ past) m (run_node n s)
