-- ===== src/Lifecycle/Tests.antt =====
-- services/manager/graphs/lifecycle.py: a run to the architecture phase, and a failed validation.
use vision_virtual_intellige.Prelude.{
  ℕ, ◌*◌, ◌≡◌, ◌≢◌, ◌⊎◌, refl, arith, true, false, any, none, some, List, [], ◌∷◌,
}
use vision_virtual_intellige.Lifecycle.{
  project_intake_node, requirements_phase_node, requirements_approval_gate_node,
  architecture_phase_node, architecture_approval_gate_node, project_structure_node,
  implementation_phase_node, validation_phase_node, deployment_phase_node,
  deployment_approval_gate_node, execute_deployment_phase_node, monitoring_phase_node,
  route_requirements_approval, route_architecture_approval, route_after_implementation,
  route_validation, route_deployment_approval, route_after_deployment, LifecycleState, Node, Next,
  next, run_node, Run,
}
use vision_virtual_intellige.Lifecycle.Approval.{passed, Run-passed}
use vision_virtual_intellige.Lifecycle.Failure.{failure_unseen, moves, qa_failure_repeats}

abbrev start : LifecycleState ℕ
start = record {
  project_id = "p";
  workflow_id = "w";
  owner_id = "o";
  current_phase = 0;
  phase_status = "pending";
  active_tasks = [];
  completed_tasks = [];
  failed_tasks = (("type", "qa_failure") ∷ []) ∷ [];
  artifacts = [];
  awaiting_approval = false;
  approval_artifact_type = none;
  approval_status = none;
  approval_feedback = none;
  revision_round = 0;
  budget_limit_usd = none;
  total_spend_usd = 0;
  budget_status = "active";
  retry_count = 0;
  failure_reason = none;
  escalation_required = false;
  nats_events_queue = [];
  websocket_events_queue = [];
}

-- One approval, written at the start.
abbrev approved : LifecycleState ℕ
approved = record start { approval_status = some "approved"; failed_tasks = [] }

program : Unit {0}
unfolding next run_node project_intake_node requirements_phase_node requirements_approval_gate_node
    architecture_phase_node architecture_approval_gate_node project_structure_node
    implementation_phase_node validation_phase_node deployment_phase_node
    deployment_approval_gate_node execute_deployment_phase_node monitoring_phase_node
    route_requirements_approval route_architecture_approval route_after_implementation
    route_validation route_deployment_approval route_after_deployment
program = tt

record Arrived (n : Node) : Type 0 where
  past : List (Node × LifecycleState ℕ)
  state : LifecycleState ℕ
  run : Run past n state

abbrev onward : (n m : Node) (r : Arrived n) → next n (run_node n r.state) ≡ Next.to m → Arrived m
onward n m r e = record {
  past = (n, run_node n r.state) ∷ r.past;
  state = run_node n r.state;
  run = Run.stepped m r.run e;
}

abbrev begun : Arrived Node.project_intake
begun = record { past = []; state = approved; run = Run.entry approved }

abbrev at_requirements_phase : Arrived Node.requirements_phase
unfolding program
at_requirements_phase = onward Node.project_intake Node.requirements_phase begun refl

abbrev at_requirements_approval_gate : Arrived Node.requirements_approval_gate
unfolding program
at_requirements_approval_gate =
    onward Node.requirements_phase Node.requirements_approval_gate at_requirements_phase refl

abbrev at_architecture_phase : Arrived Node.architecture_phase
unfolding program
at_architecture_phase =
    onward Node.requirements_approval_gate Node.architecture_phase at_requirements_approval_gate
      refl

abbrev at_architecture_approval_gate : Arrived Node.architecture_approval_gate
unfolding program
at_architecture_approval_gate =
    onward Node.architecture_phase Node.architecture_approval_gate at_architecture_phase refl

abbrev at_project_structure : Arrived Node.project_structure
unfolding program
at_project_structure =
    onward Node.architecture_approval_gate Node.project_structure at_architecture_approval_gate refl

abbrev at_implementation_phase : Arrived Node.implementation_phase
unfolding program
at_implementation_phase =
    onward Node.project_structure Node.implementation_phase at_project_structure refl

abbrev at_validation_phase : Arrived Node.validation_phase
unfolding program
at_validation_phase =
    onward Node.implementation_phase Node.validation_phase at_implementation_phase refl

abbrev at_deployment_phase : Arrived Node.deployment_phase
unfolding program
at_deployment_phase = onward Node.validation_phase Node.deployment_phase at_validation_phase refl

abbrev at_deployment_approval_gate : Arrived Node.deployment_approval_gate
unfolding program
at_deployment_approval_gate =
    onward Node.deployment_phase Node.deployment_approval_gate at_deployment_phase refl

abbrev at_execute_deployment : Arrived Node.execute_deployment
unfolding program
at_execute_deployment =
    onward Node.deployment_approval_gate Node.execute_deployment at_deployment_approval_gate refl

abbrev at_monitoring_phase : Arrived Node.monitoring_phase
unfolding program
at_monitoring_phase =
    onward Node.execute_deployment Node.monitoring_phase at_execute_deployment refl

abbrev at_project_complete : Arrived Node.project_complete
unfolding program
at_project_complete = onward Node.monitoring_phase Node.project_complete at_monitoring_phase refl

Run-passed_example : any (passed 2) at_project_complete.past ≡ true
Run-passed_example = Run-passed 2 at_project_complete.run (omega arith)

failure_unseen_example :
    let built = run_node Node.implementation_phase start in
    let deployed = run_node Node.execute_deployment start in
    ((start.budget_status ≡ "exceeded")
        × (next Node.implementation_phase built ≡ Next.to Node.budget_exceeded_handler)
      ⊎ (start.budget_status ≢ "exceeded")
        × (next Node.implementation_phase built ≡ Next.to Node.validation_phase))
    × (next Node.execute_deployment deployed ≡ Next.to Node.monitoring_phase)
failure_unseen_example = failure_unseen start

qa_failure_repeats_example :
    (t : LifecycleState ℕ) × (moves (3 * 2) Node.validation_phase start
      ≡ some (Node.validation_phase, t))
    × (t.failed_tasks ≡ start.failed_tasks)
qa_failure_repeats_example = qa_failure_repeats 2 start ((λ h. cc), refl, refl)
