-- ===== src/Delegation/Nodes.antt =====
-- services/manager/graphs/delegation.py: the tables, the routing functions and the nodes.
use Prim.Native.Char.{code}
use Prim.Native.String.{◌++◌ as str_append}
use vision_virtual_intellige.Prelude.{
  ◌+◌, min, String, ◌==◌, starts_with, Bool, true, false, not, Option, none, some, [], ◌∷◌, nat_eq,
  leb, if◌then◌else◌, is_empty, Dict, lookup,
}
use vision_virtual_intellige.Router.{Settings, select_provider_and_model}
use vision_virtual_intellige.Delegation.State.{DelegationState, Value, Write, Update}

abbrev pub task_department_map : Dict String
task_department_map =
    ("run_product_pipeline", "product")
    ∷ ("generate_features", "product")
    ∷ ("generate_requirements", "product")
    ∷ ("generate_user_stories", "product")
    ∷ ("generate_acceptance_criteria", "product")
    ∷ ("review_requirements", "product")
    ∷ ("run_architecture_pipeline", "architecture")
    ∷ ("design_system", "architecture")
    ∷ ("design_api", "architecture")
    ∷ ("design_database", "architecture")
    ∷ ("plan_infrastructure", "architecture")
    ∷ ("run_engineering_pipeline", "engineering")
    ∷ ("implement_backend", "engineering")
    ∷ ("implement_frontend", "engineering")
    ∷ ("review_code", "engineering")
    ∷ ("run_qa_pipeline", "qa")
    ∷ ("write_unit_tests", "qa")
    ∷ ("run_integration_tests", "qa")
    ∷ ("analyze_coverage", "qa")
    ∷ ("run_security_scan", "security")
    ∷ ("scan_dependencies", "security")
    ∷ ("check_owasp", "security")
    ∷ ("run_devops_pipeline", "devops")
    ∷ ("generate_dockerfiles", "devops")
    ∷ ("generate_cicd", "devops")
    ∷ ("deploy", "devops")
    ∷ ("execute_deployment", "devops")
    ∷ ("generate_docs", "docs")
    ∷ ("generate_readme", "docs")
    ∷ ("generate_changelog", "docs")
    ∷ []

abbrev pub department_head_map : Dict String
department_head_map =
    ("product", "product_head")
    ∷ ("architecture", "architecture_head")
    ∷ ("engineering", "engineering_head")
    ∷ ("qa", "qa_head")
    ∷ ("security", "security_head")
    ∷ ("devops", "devops_head")
    ∷ ("docs", "docs_head")
    ∷ []

unfoldable pub route_after_validation : DelegationState → String
route_after_validation state =
    if state.validation_passed
    then "complete"
    else (if leb state.max_retries state.retry_count then "dead_letter" else "retry")

unfoldable pub route_escalation : DelegationState → String
route_escalation state = if leb 4 state.escalation_level then "dead_letter" else "escalate"

-- `key.split("_")[0]`
unfoldable pub first_word : String → String
first_word String.[] = String.[]
first_word (String.◌∷◌ c s) =
    let rest = first_word s in if nat_eq (code c) b'_' then String.[] else String.◌∷◌ c rest

-- The `for key, val in TASK_DEPARTMENT_MAP.items()` loop.
unfoldable pub department_by_prefix : Dict String → String → Option String
department_by_prefix [] task_type = none
department_by_prefix ((key, val) ∷ rest) task_type =
    if starts_with task_type (first_word key) then some val else department_by_prefix rest task_type

unfoldable pub department_in : Dict String → String → Option String
department_in table task_type = elim (lookup task_type table) [
  | some dept ↦ some dept
  | none ↦ department_by_prefix table task_type
]

unfoldable pub department_of : String → Option String
department_of task_type = department_in task_department_map task_type

unfoldable pub no_department_reason : String → String
no_department_reason task_type =
    str_append "No department mapping for task_type='" (str_append task_type "'")

unfoldable pub select_department_node : DelegationState → Update
select_department_node state = elim (department_of state.task_type) [
  | none ↦
      Write.task_status "failed"
      ∷ Write.failure_reason (some (no_department_reason state.task_type))
      ∷ []
  | some dept ↦ Write.department (some dept) ∷ Write.task_status "assigned" ∷ []
]

-- The f-string shows an absent department as "None".
unfoldable pub head_of : Option String → String
head_of none = "None_head"
head_of (some dept) = elim (lookup dept department_head_map) [
  | some head ↦ head
  | none ↦ str_append dept "_head"
]

unfoldable pub select_agent_node : DelegationState → Update
select_agent_node state =
    Write.selected_agent
      (some (if leb 2 state.escalation_level then "manager_agent" else head_of state.department))
    ∷ []

-- An exception of the router is caught: the defaults of the settings are used.
unfoldable pub select_model_node : Settings → DelegationState → Update
select_model_node settings state =
    elim (select_provider_and_model settings settings.default_llm_provider "head" state.task_type
      state.escalation_level false none) [
        | some (provider, model) ↦
            Write.selected_provider (some provider) ∷ Write.selected_model (some model) ∷ []
        | none ↦
            Write.selected_provider (some settings.default_llm_provider)
            ∷ Write.selected_model (some settings.default_llm_model)
            ∷ []
      ]

-- `run_id` is the fresh UUID.
unfoldable pub assign_task_node : String → DelegationState → Update
assign_task_node run_id state = Write.agent_run_id (some run_id) ∷ Write.task_status "running" ∷ []

unfoldable pub monitor_progress_node : DelegationState → Update
monitor_progress_node state = Write.task_status "running" ∷ []

unfoldable pub collect_results_node : DelegationState → Update
collect_results_node state = []

-- `value == text`
abbrev pub is_text : String → Value → Bool
is_text t (Value.text v) = v == t
is_text t Value.other = false

-- `output.get("status") != "failed"`
abbrev status_ok : Dict Value → Bool
status_ok output = elim (lookup "status" output) [ none ↦ true | some v ↦ not (is_text "failed" v) ]

unfoldable pub validate_completion_node : DelegationState → Update
validate_completion_node state = elim state.task_output [
  | none ↦
      Write.validation_passed false ∷ Write.failure_reason (some "No output produced by agent") ∷ []
  | some output ↦
      if is_empty output
      then Write.validation_passed false
        ∷ Write.failure_reason (some "No output produced by agent")
        ∷ []
      else Write.validation_passed (status_ok output) ∷ []
]

unfoldable pub handle_retry_node : DelegationState → Update
handle_retry_node state =
    let retry = state.retry_count + 1 in
    let escalation =
      if leb 2 retry then min (state.escalation_level + 1) 4 else state.escalation_level in
    Write.retry_count retry
    ∷ Write.escalation_level escalation
    ∷ Write.task_status "pending"
    ∷ Write.agent_run_id none
    ∷ Write.task_output none
    ∷ Write.validation_passed false
    ∷ []

unfoldable pub escalate_task_node : DelegationState → Update
escalate_task_node state =
    Write.escalation_level (min (state.escalation_level + 1) 4)
    ∷ Write.task_status "escalated"
    ∷ Write.selected_agent none
    ∷ Write.agent_run_id none
    ∷ []

unfoldable pub dead_letter_node : DelegationState → Update
dead_letter_node state = Write.dead_lettered true ∷ Write.task_status "dead_lettered" ∷ []

unfoldable pub task_complete_node : DelegationState → Update
task_complete_node state = Write.task_status "completed" ∷ []
