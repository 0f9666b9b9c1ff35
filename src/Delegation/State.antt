-- ===== src/Delegation/State.antt =====
-- services/manager/graphs/delegation.py: the state, and the partial updates that nodes return.
use vision_virtual_intellige.Prelude.{ℕ, String, Bool, Option, List, [], ◌∷◌, Dict}

-- A value in a task's context or output: a text, or one of another type, which equals no text.
pub data Value : Type 0 where
  text : String → Value
  other : Value

pub record DelegationState : Type 0 where
  pub project_id : String
  pub task_id : String
  pub task_type : String
  pub task_description : String
  pub task_context : Dict Value
  pub task_priority : ℕ
  pub department : Option String
  pub selected_agent : Option String
  pub selected_provider : Option String
  pub selected_model : Option String
  pub agent_run_id : Option String
  pub task_status : String
  pub task_output : Option (Dict Value)
  pub validation_passed : Bool
  pub retry_count : ℕ
  pub max_retries : ℕ
  pub escalation_level : ℕ
  pub dead_lettered : Bool
  pub failure_reason : Option String

-- One entry of the dictionary that a node returns.
pub data Write : Type 0 where
  department selected_agent selected_provider selected_model agent_run_id : Option String → Write
  task_status : String → Write
  task_output : Option (Dict Value) → Write
  validation_passed dead_lettered : Bool → Write
  retry_count escalation_level : ℕ → Write
  failure_reason : Option String → Write

abbrev pub Update : Type 0
Update = List Write

abbrev pub field_of : Write → String
field_of (Write.department v) = "department"
field_of (Write.selected_agent v) = "selected_agent"
field_of (Write.selected_provider v) = "selected_provider"
field_of (Write.selected_model v) = "selected_model"
field_of (Write.agent_run_id v) = "agent_run_id"
field_of (Write.task_status v) = "task_status"
field_of (Write.task_output v) = "task_output"
field_of (Write.validation_passed v) = "validation_passed"
field_of (Write.dead_lettered v) = "dead_lettered"
field_of (Write.retry_count v) = "retry_count"
field_of (Write.escalation_level v) = "escalation_level"
field_of (Write.failure_reason v) = "failure_reason"

abbrev pub write : DelegationState → Write → DelegationState
write s (Write.department v) = record s { department = v }
write s (Write.selected_agent v) = record s { selected_agent = v }
write s (Write.selected_provider v) = record s { selected_provider = v }
write s (Write.selected_model v) = record s { selected_model = v }
write s (Write.agent_run_id v) = record s { agent_run_id = v }
write s (Write.task_status v) = record s { task_status = v }
write s (Write.task_output v) = record s { task_output = v }
write s (Write.validation_passed v) = record s { validation_passed = v }
write s (Write.dead_lettered v) = record s { dead_lettered = v }
write s (Write.retry_count v) = record s { retry_count = v }
write s (Write.escalation_level v) = record s { escalation_level = v }
write s (Write.failure_reason v) = record s { failure_reason = v }

-- The state after a node's update: the fields that it names are replaced.
abbrev pub merge : DelegationState → Update → DelegationState
merge s [] = s
merge s (w ∷ ws) = merge (write s w) ws
