-- ===== src/Lifecycle/Phases.antt =====
-- services/manager/graphs/lifecycle.py: the nodes up to the implementation. A node takes the state to the
-- state that its partial dict is merged into; a key that it does not return stays as it was.
use vision_virtual_intellige.Prelude.{◌+◌, String, true, false, none, some, List, [], ◌∷◌, Dict}
use vision_virtual_intellige.Lifecycle.State.{Value, WebsocketEvent, LifecycleState}

module _ {F : Type 0} where
  abbrev pub event : LifecycleState F → String → Dict (Value F) → List (WebsocketEvent F)
  event s event_type payload =
      record { project_id = s.project_id; event_type = event_type; payload = payload } ∷ []

  unfoldable pub project_intake_node : LifecycleState F → LifecycleState F
  project_intake_node s = record s {
    current_phase = 1;
    phase_status = "completed";
    retry_count = 0;
    revision_round = 0;
    budget_status = "active";
    awaiting_approval = false;
    nats_events_queue =
        record {
          subject = "manager.project.created";
          payload = ("project_id", Value.text s.project_id) ∷ ("phase", Value.number 1) ∷ [];
        }
        ∷ [];
    websocket_events_queue = event s "phase_changed" (
        ("from_phase", Value.number 0)
        ∷ ("to_phase", Value.number 1)
        ∷ ("status", Value.text "Project created")
        ∷ []);
  }

  unfoldable pub requirements_phase_node : LifecycleState F → LifecycleState F
  requirements_phase_node s = record s {
    current_phase = 2;
    phase_status = "running";
    nats_events_queue =
        record {
          subject = "manager.task.assigned";
          payload =
              ("project_id", Value.text s.project_id)
              ∷ ("department", Value.text "product")
              ∷ ("task_type", Value.text "run_product_pipeline")
              ∷ [];
        }
        ∷ [];
    websocket_events_queue =
        event s "phase_started"
          (("phase", Value.number 2) ∷ ("phase_name", Value.text "Requirements Analysis") ∷ []);
  }

  unfoldable pub requirements_approval_gate_node : LifecycleState F → LifecycleState F
  requirements_approval_gate_node s = record s {
    phase_status = "awaiting_approval";
    awaiting_approval = true;
    approval_artifact_type = some "requirements";
    websocket_events_queue = event s "approval_required" (
        ("artifact_type", Value.text "requirements")
        ∷ ("message", Value.text "Requirements package ready for your review and approval")
        ∷ ("revision_round", Value.number s.revision_round)
        ∷ []);
  }

  unfoldable pub requirements_revision_node : LifecycleState F → LifecycleState F
  requirements_revision_node s = record s {
    revision_round = s.revision_round + 1;
    approval_status = none;
    awaiting_approval = false;
    phase_status = "running";
    nats_events_queue =
        record {
          subject = "manager.approval.rejected";
          payload =
              ("project_id", Value.text s.project_id)
              ∷ ("artifact_type", Value.text "requirements")
              ∷ ("revision_feedback", Value.optional s.approval_feedback)
              ∷ ("revision_round", Value.number (s.revision_round + 1))
              ∷ [];
        }
        ∷ [];
    websocket_events_queue = event s "revision_requested" (
        ("round", Value.number (s.revision_round + 1))
        ∷ ("feedback", Value.optional s.approval_feedback)
        ∷ []);
  }

  unfoldable pub architecture_phase_node : LifecycleState F → LifecycleState F
  architecture_phase_node s = record s {
    current_phase = 3;
    phase_status = "running";
    nats_events_queue =
        record {
          subject = "manager.task.assigned";
          payload =
              ("project_id", Value.text s.project_id)
              ∷ ("department", Value.text "architecture")
              ∷ [];
        }
        ∷ [];
    websocket_events_queue =
        event s "phase_started"
          (("phase", Value.number 3) ∷ ("phase_name", Value.text "Architecture Design") ∷ []);
  }

  unfoldable pub architecture_approval_gate_node : LifecycleState F → LifecycleState F
  architecture_approval_gate_node s = record s {
    phase_status = "awaiting_approval";
    awaiting_approval = true;
    approval_artifact_type = some "architecture";
    websocket_events_queue = event s "approval_required" (
        ("artifact_type", Value.text "architecture")
        ∷ ("message", Value.text "Architecture blueprint ready for your review")
        ∷ []);
  }

  unfoldable pub architecture_revision_node : LifecycleState F → LifecycleState F
  architecture_revision_node s = record s {
    revision_round = s.revision_round + 1;
    approval_status = none;
    awaiting_approval = false;
    phase_status = "running";
    nats_events_queue =
        record {
          subject = "manager.approval.rejected";
          payload =
              ("project_id", Value.text s.project_id)
              ∷ ("artifact_type", Value.text "architecture")
              ∷ ("revision_feedback", Value.optional s.approval_feedback)
              ∷ ("revision_round", Value.number (s.revision_round + 1))
              ∷ [];
        }
        ∷ [];
  }

  unfoldable pub project_structure_node : LifecycleState F → LifecycleState F
  project_structure_node s = record s {
    current_phase = 4;
    phase_status = "completed";
    websocket_events_queue = event s "phase_started" (
        ("phase", Value.number 4) ∷ ("phase_name", Value.text "Project Structure Generation") ∷ []);
  }

  unfoldable pub implementation_phase_node : LifecycleState F → LifecycleState F
  implementation_phase_node s = record s {
    current_phase = 5;
    phase_status = "running";
    nats_events_queue =
        record {
          subject = "manager.task.assigned";
          payload =
              ("project_id", Value.text s.project_id)
              ∷ ("department", Value.text "engineering")
              ∷ [];
        }
        ∷ [];
    websocket_events_queue =
        event s "phase_started"
          (("phase", Value.number 5) ∷ ("phase_name", Value.text "Implementation") ∷ []);
  }
