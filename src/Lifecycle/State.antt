-- ===== src/Lifecycle/State.antt =====
-- services/manager/graphs/lifecycle.py: the state of the lifecycle graph and its routers. `F` stands for
-- the floats of the budget, which the graph only passes on.
use vision_virtual_intellige.Prelude.{
  ℕ, String, ◌==◌, Bool, false, Option, none, some, List, if◌then◌else◌, any, leb, Dict, lookup,
}

-- A task, by its texts.
abbrev pub Task : Type 0
Task = Dict String

-- The values of an event's payload.
pub data Value (F : Type 0) : Type 0 where
  text : String → Value F
  number : ℕ → Value F
  optional : Option String → Value F
  spend : F → Value F
  limit : Option F → Value F
  tasks : List Task → Value F
  artifacts : Dict String → Value F

-- An entry of the NATS queue.
pub record NatsEvent (F : Type 0) : Type 0 where
  pub subject : String
  pub payload : Dict (Value F)

-- An entry of the WebSocket queue.
pub record WebsocketEvent (F : Type 0) : Type 0 where
  pub project_id : String
  pub event_type : String
  pub payload : Dict (Value F)

pub record LifecycleState (F : Type 0) : Type 0 where
  pub project_id : String
  pub workflow_id : String
  pub owner_id : String
  pub current_phase : ℕ
  pub phase_status : String
  pub active_tasks : List Task
  pub completed_tasks : List Task
  pub failed_tasks : List Task
  pub artifacts : Dict String
  pub awaiting_approval : Bool
  pub approval_artifact_type : Option String
  pub approval_status : Option String
  pub approval_feedback : Option String
  pub revision_round : ℕ
  pub budget_limit_usd : Option F
  pub total_spend_usd : F
  pub budget_status : String
  pub retry_count : ℕ
  pub failure_reason : Option String
  pub escalation_required : Bool
  pub nats_events_queue : List (NatsEvent F)
  pub websocket_events_queue : List (WebsocketEvent F)

-- `status == expected`, for a status that may be None
abbrev pub status_is : Option String → String → Bool
status_is none expected = false
status_is (some status) expected = status == expected

-- `any(t.get("type") == expected for t in tasks)`
abbrev pub has_type : String → List Task → Bool
has_type expected ts = any (λ t. status_is (lookup "type" t) expected) ts

module _ {F : Type 0} where
  unfoldable pub route_requirements_approval : LifecycleState F → String
  route_requirements_approval state =
      if state.budget_status == "exceeded"
      then "budget_exceeded"
      else if leb 5 state.revision_round
      then "max_revisions"
      else if status_is state.approval_status "approved"
      then "approved"
      else if status_is state.approval_status "rejected"
      then "rejected"
      else "pending"

  unfoldable pub route_architecture_approval : LifecycleState F → String
  route_architecture_approval state =
      if state.budget_status == "exceeded"
      then "budget_exceeded"
      else if leb 5 state.revision_round
      then "max_revisions"
      else if status_is state.approval_status "approved"
      then "approved"
      else if status_is state.approval_status "rejected"
      then "rejected"
      else "pending"

  unfoldable pub route_after_implementation : LifecycleState F → String
  route_after_implementation state =
      if state.budget_status == "exceeded"
      then "budget_exceeded"
      else if state.phase_status == "failed"
      then "failed"
      else "complete"

  unfoldable pub route_validation : LifecycleState F → String
  route_validation state =
      if state.budget_status == "exceeded"
      then "budget_exceeded"
      else if has_type "security_block" state.failed_tasks
      then "security_blocked"
      else if has_type "qa_failure" state.failed_tasks
      then "qa_failed"
      else "all_passed"

  unfoldable pub route_deployment_approval : LifecycleState F → String
  route_deployment_approval state =
      if state.budget_status == "exceeded"
      then "budget_exceeded"
      else if status_is state.approval_status "approved"
      then "approved"
      else if status_is state.approval_status "rejected"
      then "rejected"
      else "pending"

  unfoldable pub route_after_deployment : LifecycleState F → String
  route_after_deployment state = if state.phase_status == "failed" then "failed" else "success"
