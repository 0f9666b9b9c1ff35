-- ===== src/Lifecycle/Nodes.antt =====
-- services/manager/graphs/lifecycle.py: the nodes from the validation on.
use vision_virtual_intellige.Prelude.{decimal, true, some, [], ◌∷◌}
use vision_virtual_intellige.Lifecycle.State.{Value, LifecycleState}
use vision_virtual_intellige.Lifecycle.Phases.{event}
use Prim.Native.String.{◌++◌ as str_append}

module _ {F : Type 0} where
  unfoldable pub validation_phase_node : LifecycleState F → LifecycleState F
  validation_phase_node s = record s {
    current_phase = 6;
    phase_status = "running";
    websocket_events_queue = event s "phase_started" (
        ("phase", Value.number 6)
        ∷ ("phase_name", Value.text "Testing + Security (parallel)")
        ∷ []);
  }

  unfoldable pub engineering_rework_node : LifecycleState F → LifecycleState F
  engineering_rework_node s = record s {
    phase_status = "running";
    nats_events_queue =
        record {
          subject = "manager.task.assigned";
          payload =
              ("project_id", Value.text s.project_id)
              ∷ ("department", Value.text "engineering")
              ∷ ("task_type", Value.text "rework")
              ∷ ("failed_tasks", Value.tasks s.failed_tasks)
              ∷ [];
        }
        ∷ [];
  }

  unfoldable pub deployment_phase_node : LifecycleState F → LifecycleState F
  deployment_phase_node s = record s {
    current_phase = 8;
    phase_status = "running";
    nats_events_queue =
        record {
          subject = "manager.task.assigned";
          payload =
              ("project_id", Value.text s.project_id) ∷ ("department", Value.text "devops") ∷ [];
        }
        ∷ [];
  }

  unfoldable pub deployment_approval_gate_node : LifecycleState F → LifecycleState F
  deployment_approval_gate_node s = record s {
    phase_status = "awaiting_approval";
    awaiting_approval = true;
    approval_artifact_type = some "deployment_plan";
    websocket_events_queue = event s "approval_required" (
        ("artifact_type", Value.text "deployment_plan")
        ∷ ("message", Value.text "Deployment plan ready — please review before we deploy")
        ∷ []);
  }

  unfoldable pub execute_deployment_phase_node : LifecycleState F → LifecycleState F
  execute_deployment_phase_node s = record s { phase_status = "running"; current_phase = 8 }

  unfoldable pub monitoring_phase_node : LifecycleState F → LifecycleState F
  monitoring_phase_node s = record s {
    current_phase = 9;
    phase_status = "running";
    websocket_events_queue =
        event s "phase_started"
          (("phase", Value.number 9) ∷ ("phase_name", Value.text "Production Monitoring") ∷ []);
  }

  unfoldable pub budget_exceeded_handler_node : LifecycleState F → LifecycleState F
  budget_exceeded_handler_node s = record s {
    phase_status = "paused";
    nats_events_queue =
        record {
          subject = "manager.budget.exceeded";
          payload =
              ("project_id", Value.text s.project_id)
              ∷ ("spend", Value.spend s.total_spend_usd)
              ∷ ("limit", Value.limit s.budget_limit_usd)
              ∷ [];
        }
        ∷ [];
    websocket_events_queue = event s "budget_exceeded" (
        ("spend", Value.spend s.total_spend_usd)
        ∷ ("limit", Value.limit s.budget_limit_usd)
        ∷ ("message", Value.text "Project paused — budget limit reached")
        ∷ []);
  }

  unfoldable pub handle_failure_node : LifecycleState F → LifecycleState F
  handle_failure_node s = record s {
    phase_status = "failed";
    nats_events_queue =
        record {
          subject = "manager.project.failed";
          payload =
              ("project_id", Value.text s.project_id)
              ∷ ("reason", Value.optional s.failure_reason)
              ∷ [];
        }
        ∷ [];
    websocket_events_queue =
        event s "project_failed" (("reason", Value.optional s.failure_reason) ∷ []);
  }

  unfoldable pub project_complete_node : LifecycleState F → LifecycleState F
  project_complete_node s = record s {
    current_phase = 10;
    phase_status = "completed";
    nats_events_queue =
        record {
          subject = "manager.project.completed";
          payload = ("project_id", Value.text s.project_id) ∷ [];
        }
        ∷ [];
    websocket_events_queue = event s "project_completed" (
        ("message", Value.text "Project completed successfully!")
        ∷ ("artifacts", Value.artifacts s.artifacts)
        ∷ []);
  }

  unfoldable pub max_revisions_node : LifecycleState F → LifecycleState F
  max_revisions_node s = record s {
    failure_reason = some (
        str_append "Maximum revision rounds reached (" (str_append (decimal s.revision_round) ")"));
    phase_status = "failed";
  }
