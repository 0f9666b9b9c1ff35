-- ===== src/Delegation/Tests.antt =====
-- Runs of services/manager/graphs/delegation.py, and its theorems at concrete inputs.
use vision_virtual_intellige.Prelude.{
  leb, if◌then◌else◌, ◌+◌, ◌-◌, ◌*◌, ◌≤◌, ◌<◌, ◌≡◌, ◌≢◌, refl, ◌⊎◌, false, true, none, some, [],
  ◌∷◌, arith, contains,
}
use vision_virtual_intellige.Router.{Settings}
use vision_virtual_intellige.Delegation.{
  DelegationState, Value, merge, Node, run_node, targets, Member, Walk, select_agent_node,
  escalate_task_node, validate_completion_node, department_of, department_in, department_by_prefix,
  first_word,
}
use vision_virtual_intellige.Delegation.Routing.{
  Succeeded, written, handle_retry-targets, validation-targets,
}
use vision_virtual_intellige.Delegation.Department.{unmapped_runs}
use vision_virtual_intellige.Delegation.Retry.{Walk-bounded}

abbrev settings : Settings
settings = record {
  anthropic_api_key = "sk-test";
  openai_api_key = "";
  gemini_api_key = "";
  openrouter_api_key = "";
  default_llm_provider = "anthropic";
  default_llm_model = "claude-sonnet-4-6";
}

abbrev task : DelegationState
task = record {
  project_id = "p";
  task_id = "t";
  task_type = "translate_page";
  task_description = "";
  task_context = [];
  task_priority = 1;
  department = none;
  selected_agent = none;
  selected_provider = none;
  selected_model = none;
  agent_run_id = none;
  task_status = "pending";
  task_output = some (("status", Value.text "ok") ∷ []);
  validation_passed = false;
  retry_count = 1;
  max_retries = 3;
  escalation_level = 0;
  dead_lettered = false;
  failure_reason = none;
}

abbrev after_first : DelegationState
after_first = merge task (run_node settings "r" Node.select_department task)

abbrev after_second : DelegationState
after_second = merge after_first (run_node settings "r" Node.select_agent after_first)

two_nodes : Walk settings 2 Node.select_department task Node.select_model after_second
unfolding run_node targets
two_nodes =
    Walk.step "r" Node.select_model
      (Walk.step "r" Node.select_agent (Walk.here Node.select_department task) refl) refl

Walk-bounded_example :
    (2 ≤ 10 * (task.max_retries - task.retry_count) + 9)
    × (after_second.retry_count ≤ task.max_retries)
    × (after_second.escalation_level ≤ 4)
Walk-bounded_example = Walk-bounded settings (omega arith) (omega arith) two_nodes

handle_retry-targets_example :
    Member Node.select_agent (targets Node.handle_retry task)
    × ((task.escalation_level < 4)
          × Member Node.escalate_task (targets Node.handle_retry task)
          × (contains "selected_agent" (written (select_agent_node task)) ≡ true)
          × (contains "selected_agent" (written (escalate_task_node task)) ≡ true)
          × ((merge task (select_agent_node task)).selected_agent ≢ none)
          × ((merge task (escalate_task_node task)).selected_agent ≡ none)
        ⊎ (4 ≤ task.escalation_level) × Member Node.dead_letter (targets Node.handle_retry task))
handle_retry-targets_example = handle_retry-targets task

validation-targets_example :
    let ns = targets Node.validate_completion (merge task (validate_completion_node task)) in
    Succeeded task.task_output × (ns ≡ Node.task_complete ∷ [])
    ⊎ ¬ Succeeded task.task_output
      × ((task.retry_count < task.max_retries) × (ns ≡ Node.handle_retry ∷ [])
          ⊎ (task.max_retries ≤ task.retry_count) × (ns ≡ Node.dead_letter ∷ []))
validation-targets_example = validation-targets task

unmapped : department_of "translate_page" ≡ none
unfolding department_of department_in department_by_prefix first_word
unmapped = refl

unmapped_runs_example :
    let failed = merge task (run_node settings "r" Node.select_department task) in
    let chosen = merge failed (run_node settings "r" Node.select_agent failed) in
    let routed = merge chosen (run_node settings "r" Node.select_model chosen) in
    let assigned = merge routed (run_node settings "r" Node.assign_task routed) in
    (targets Node.select_department failed ≡ Node.select_agent ∷ [])
    × (targets Node.select_agent chosen ≡ Node.select_model ∷ [])
    × (targets Node.select_model routed ≡ Node.assign_task ∷ [])
    × (failed.task_status ≡ "failed")
    × (assigned.task_status ≡ "running")
    × (assigned.selected_agent
        ≡ some (if leb 2 task.escalation_level then "manager_agent" else "None_head"))
unmapped_runs_example = unmapped_runs settings "r" task unmapped refl
