-- ===== src/Delegation/Graph.antt =====
-- services/manager/graphs/delegation.py: the nodes and edges that `build_delegation_graph`
-- declares, and the walks along them.
use vision_virtual_intellige.Prelude.{
  ℕ, suc, ◌≡◌, String, Bool, true, false, ◌||◌, Option, none, some, List, [], ◌∷◌, ◌++◌, nat_eq,
  if◌then◌else◌, Dict, lookup,
}
use vision_virtual_intellige.Router.{Settings}
use vision_virtual_intellige.Delegation.State.{DelegationState, Value, Update, merge}
use vision_virtual_intellige.Delegation.Nodes.{
  route_after_validation, route_escalation, select_department_node, select_agent_node,
  select_model_node, assign_task_node, monitor_progress_node, collect_results_node,
  validate_completion_node, handle_retry_node, escalate_task_node, dead_letter_node,
  task_complete_node,
}

-- `finish` is LangGraph's END.
pub data Node : Type 0 where
  select_department select_agent select_model assign_task monitor_progress : Node
  collect_results validate_completion handle_retry escalate_task dead_letter : Node
  task_complete finish : Node

abbrev pub node_index : Node → ℕ
node_index Node.select_department = 0
node_index Node.select_agent = 1
node_index Node.select_model = 2
node_index Node.assign_task = 3
node_index Node.monitor_progress = 4
node_index Node.collect_results = 5
node_index Node.validate_completion = 6
node_index Node.handle_retry = 7
node_index Node.escalate_task = 8
node_index Node.dead_letter = 9
node_index Node.task_complete = 10
node_index Node.finish = 11

-- The function that `add_node` registers under each name.
unfoldable pub run_node : Settings → String → Node → DelegationState → Update
unfolding select_department_node select_agent_node select_model_node assign_task_node
    monitor_progress_node collect_results_node validate_completion_node handle_retry_node
    escalate_task_node dead_letter_node task_complete_node
run_node settings run_id Node.select_department s = select_department_node s
run_node settings run_id Node.select_agent s = select_agent_node s
run_node settings run_id Node.select_model s = select_model_node settings s
run_node settings run_id Node.assign_task s = assign_task_node run_id s
run_node settings run_id Node.monitor_progress s = monitor_progress_node s
run_node settings run_id Node.collect_results s = collect_results_node s
run_node settings run_id Node.validate_completion s = validate_completion_node s
run_node settings run_id Node.handle_retry s = handle_retry_node s
run_node settings run_id Node.escalate_task s = escalate_task_node s
run_node settings run_id Node.dead_letter s = dead_letter_node s
run_node settings run_id Node.task_complete s = task_complete_node s
run_node settings run_id Node.finish s = []

-- The calls of `add_edge`.
abbrev pub edges : List (Node × Node)
edges =
    (Node.select_department, Node.select_agent)
    ∷ (Node.select_agent, Node.select_model)
    ∷ (Node.select_model, Node.assign_task)
    ∷ (Node.assign_task, Node.monitor_progress)
    ∷ (Node.monitor_progress, Node.collect_results)
    ∷ (Node.collect_results, Node.validate_completion)
    ∷ (Node.handle_retry, Node.select_agent)
    ∷ (Node.escalate_task, Node.select_agent)
    ∷ (Node.dead_letter, Node.finish)
    ∷ (Node.task_complete, Node.finish)
    ∷ []

-- The calls of `add_conditional_edges`: the routing function and its table of outcomes.
abbrev pub conditional_edges : List (Node × (DelegationState → String) × Dict Node)
conditional_edges =
    (
      Node.validate_completion,
      route_after_validation,
      ("complete", Node.task_complete)
          ∷ ("retry", Node.handle_retry)
          ∷ ("dead_letter", Node.dead_letter)
          ∷ [],
    )
    ∷ (
      Node.handle_retry,
      route_escalation,
      ("escalate", Node.escalate_task) ∷ ("dead_letter", Node.dead_letter) ∷ [],
    )
    ∷ []

plain_targets : Node → List (Node × Node) → List Node
plain_targets n [] = []
plain_targets n ((a, b) ∷ rest) =
    if nat_eq (node_index n) (node_index a) then b ∷ plain_targets n rest else plain_targets n rest

outcome_targets : Option Node → List Node
outcome_targets none = []
outcome_targets (some m) = m ∷ []

conditional_targets :
    Node → DelegationState → List (Node × (DelegationState → String) × Dict Node) → List Node
unfolding outcome_targets
conditional_targets n s [] = []
conditional_targets n s ((a, route, table) ∷ rest) =
    if nat_eq (node_index n) (node_index a)
    then outcome_targets (lookup (route s) table) ++ conditional_targets n s rest
    else conditional_targets n s rest

-- Every node that the declared edges lead to from `n`, with the state after `n`.
unfoldable pub targets : Node → DelegationState → List Node
unfolding plain_targets conditional_targets
targets n s = plain_targets n edges ++ conditional_targets n s conditional_edges

abbrev pub Member : Node → List Node → Type 0
Member n ns = has n ns ≡ true
  where
    has : Node → List Node → Bool
    has n [] = false
    has n (m ∷ ms) = nat_eq (node_index n) (node_index m) || has n ms

-- A walk of `k` nodes along the declared edges. Where two nodes follow one, which the graph library
-- runs together, a walk follows one of them, without the other's writes. Between nodes the caller may set the task's output,
-- as `collect_results_node` expects.
pub data Walk (settings : Settings)
    : ℕ → Node → DelegationState → Node → DelegationState → Type 0 where
  here : (n : Node) (s : DelegationState) → Walk settings 0 n s n s
  step :
      {k : ℕ} {n : Node} {s : DelegationState} {m : Node} {t : DelegationState} (run_id : String)
      (next : Node)
      → Walk settings k n s m t
      → Member next (targets m (merge t (run_node settings run_id m t)))
      → Walk settings (suc k) n s next (merge t (run_node settings run_id m t))
  output :
      {k : ℕ} {n : Node} {s : DelegationState} {m : Node} {t : DelegationState}
      (value : Option (Dict Value))
      → Walk settings k n s m t
      → Walk settings k n s m (record t { task_output = value })
