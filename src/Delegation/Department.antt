-- ===== src/Delegation/Department.antt =====
-- services/manager/graphs/delegation.py: how a task finds its department.
use vision_virtual_intellige.Prelude.{
  ◌≡◌, refl, ◌∙◌, Bool-cases, String, starts_with, true, ◌⊎◌, inl, inr, arith, some, none, ◌∷◌, leb,
  if◌then◌else◌, [], lookup, Dict,
}
use vision_virtual_intellige.Router.{Settings}
use vision_virtual_intellige.Delegation.{
  DelegationState, Write, merge, task_department_map, department_of, no_department_reason,
  department_in, department_by_prefix, first_word, select_department_node, select_agent_node,
  select_model_node, assign_task_node, head_of, Node, run_node, targets,
}

department_in-by_prefix :
    (table : Dict String) (task_type : String)
    → lookup task_type table ≡ none
    → department_in table task_type ≡ department_by_prefix table task_type
unfolding department_in
department_in-by_prefix table task_type h = ground arith

by_prefix-product :
    (task_type : String)
    → (starts_with task_type "run" ≡ true) ⊎ (starts_with task_type "generate" ≡ true)
    → department_by_prefix task_department_map task_type ≡ some "product"
unfolding department_by_prefix first_word
by_prefix-product task_type (inl h) = rw h
by_prefix-product task_type (inr h) =
    rw h (elim (Bool-cases (starts_with task_type "run")) [ inl e ↦ rw e | inr e ↦ rw e ])

-- A task type that the table does not list, and that begins with "run" or with "generate", goes to
-- the product department, whatever follows.
pub department_of-product :
    (task_type : String)
    → lookup task_type task_department_map ≡ none
    → (starts_with task_type "run" ≡ true) ⊎ (starts_with task_type "generate" ≡ true)
    → department_of task_type ≡ some "product"
unfolding department_of
department_of-product task_type unlisted h =
    department_in-by_prefix task_department_map task_type unlisted ∙ by_prefix-product task_type h

unmapped-Update :
    (s : DelegationState)
    → department_of s.task_type ≡ none
    → select_department_node s
      ≡ Write.task_status "failed"
        ∷ Write.failure_reason (some (no_department_reason s.task_type))
        ∷ []
unfolding select_department_node
unmapped-Update s h = ground arith

-- For a task that has no department yet and whose type gives none, each node from the selection of a
-- department to the assignment is followed by the next of them and by no other. The first marks the
-- task failed. After the last its status is "running", and its agent is "None_head", or from
-- escalation level 2 on the manager's.
pub unmapped_runs :
    (settings : Settings) (run_id : String) (s : DelegationState)
    → department_of s.task_type ≡ none
    → s.department ≡ none
    → let failed = merge s (run_node settings run_id Node.select_department s) in
      let chosen = merge failed (run_node settings run_id Node.select_agent failed) in
      let routed = merge chosen (run_node settings run_id Node.select_model chosen) in
      let assigned = merge routed (run_node settings run_id Node.assign_task routed) in
      (targets Node.select_department failed ≡ Node.select_agent ∷ [])
      × (targets Node.select_agent chosen ≡ Node.select_model ∷ [])
      × (targets Node.select_model routed ≡ Node.assign_task ∷ [])
      × (failed.task_status ≡ "failed")
      × (assigned.task_status ≡ "running")
      × (assigned.selected_agent
          ≡ some (if leb 2 s.escalation_level then "manager_agent" else "None_head"))
unfolding run_node targets select_agent_node select_model_node assign_task_node head_of
unmapped_runs settings run_id s h d =
    rw (unmapped-Update s h) (refl, refl, refl, refl, refl, ground arith)
