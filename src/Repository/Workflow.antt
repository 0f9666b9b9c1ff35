-- ===== src/Repository/Workflow.antt =====
-- services/repository/workflows/repository_graph.py: the nodes, the routing after each, and the
-- declared edges.
use vision_virtual_intellige.Prelude.{
  ℕ, ◌+◌, String, ◌==◌, ◌≡◌, Bool, true, false, Option, none, some, List, [], ◌∷◌, or_default,
  if◌then◌else◌, ltb,
}
use vision_virtual_intellige.Repository.Store.{Branch, PullRequest, World, RepositoryDeps, Action}
use vision_virtual_intellige.Repository.State.{RepositoryState, Write, merge, retries, limit}
use vision_virtual_intellige.Repository.Graph.{
  after, validate, start_branch, commit, open_pr, approve_and_merge, release,
}

pub data Node : Type 0 where
  validate_node create_branch_node commit_node open_pr_node approval_node merge_node : Node
  release_node publish_events_node retry_node escalate_node dead_letter_node finish : Node

abbrev no_updates : {A : Type 0} → A → List Write
no_updates made = []

abbrev branch_updates : Branch → List Write
branch_updates branch = Write.branch_name branch.name ∷ []

abbrev commit_updates : String → List Write
commit_updates sha = Write.commit_sha sha ∷ []

abbrev pr_updates : PullRequest → List Write
pr_updates pr =
    Write.pull_request_id pr.id
    ∷ Write.provider_pr_number pr.provider_pr_number
    ∷ Write.awaiting_approval true
    ∷ []

abbrev merge_updates : PullRequest → List Write
merge_updates merged = Write.merge_sha merged.merge_sha ∷ Write.awaiting_approval false ∷ []

-- A node's update of the state, and what its manager has done.
abbrev pub node : {A : Type 0} → String → (A → List Write) → Action A → World → List Write × World
node step updates body w = let (result, w') = body w in (after step updates result, w')

unfoldable pub run_node : RepositoryDeps → Node → RepositoryState → World → List Write × World
unfolding validate start_branch commit open_pr approve_and_merge release
run_node deps Node.validate_node s = node "validate" no_updates (validate deps s)
run_node deps Node.create_branch_node s = node "create_branch" branch_updates (start_branch deps s)
run_node deps Node.commit_node s = node "commit" commit_updates (commit deps s)
run_node deps Node.open_pr_node s = node "open_pr" pr_updates (open_pr deps s)
run_node deps Node.approval_node s = λ w. (Write.awaiting_approval true ∷ [], w)
run_node deps Node.merge_node s = node "merge" merge_updates (approve_and_merge deps s)
run_node deps Node.release_node s = node "release" no_updates (release deps s)
run_node deps Node.publish_events_node s = λ w. (Write.phase_status "completed" ∷ [], w)
run_node deps Node.retry_node s =
    λ w. (Write.retry_count (retries s + 1) ∷ Write.phase_status "running" ∷ [], w)
run_node deps Node.escalate_node s = λ w. (Write.phase_status "escalated" ∷ [], w)
run_node deps Node.dead_letter_node s = λ w. (Write.phase_status "dead_lettered" ∷ [], w)
run_node deps Node.finish s = λ w. ([], w)

-- `_route_after_action`, which every action but `merge` uses, and `route_after_merge` repeats.
unfoldable pub route_after_action : RepositoryState → Node → Node
route_after_action s success_target =
    if s.phase_status == "failed"
    then (if or_default s.retryable true
        then (if ltb (retries s) (limit s) then Node.retry_node else Node.escalate_node)
        else Node.dead_letter_node)
    else success_target

unfoldable pub route_approval_gate : RepositoryState → Node
route_approval_gate s =
    if or_default s.approval_status "" == "approved"
    then Node.merge_node
    else if or_default s.approval_status "" == "rejected"
    then Node.publish_events_node
    else Node.approval_node

-- `route_after_retry` with its edges; a name without an edge stops the run.
unfoldable pub route_after_retry : RepositoryState → Option Node
route_after_retry s =
    let step = or_default s.failed_step "validate" in
    if step == "validate"
    then some Node.validate_node
    else if step == "create_branch"
    then some Node.create_branch_node
    else if step == "commit"
    then some Node.commit_node
    else if step == "open_pr"
    then some Node.open_pr_node
    else if step == "merge"
    then some Node.merge_node
    else if step == "release"
    then some Node.release_node
    else none

-- The node after a node, once its update is merged.
unfoldable pub route : Node → RepositoryState → Option Node
unfolding route_after_action route_approval_gate route_after_retry
route Node.validate_node s = some (route_after_action s Node.create_branch_node)
route Node.create_branch_node s = some (route_after_action s Node.commit_node)
route Node.commit_node s = some (route_after_action s Node.open_pr_node)
route Node.open_pr_node s = some (route_after_action s Node.approval_node)
route Node.approval_node s = some (route_approval_gate s)
route Node.merge_node s = some (
    route_after_action s (if s.create_release then Node.release_node else Node.publish_events_node))
route Node.release_node s = some (route_after_action s Node.publish_events_node)
route Node.publish_events_node s = some Node.finish
route Node.retry_node s = route_after_retry s
route Node.escalate_node s = some Node.finish
route Node.dead_letter_node s = some Node.finish
route Node.finish s = none

-- How many nodes a visit counts: the pause at the approval is not counted.
abbrev pub cost : Node → ℕ
cost Node.approval_node = 0
cost _ = 1

abbrev pub stepped : Bool → RepositoryDeps → Node → RepositoryState → World → RepositoryState
stepped keeps deps n s w = merge keeps s (run_node deps n s w).0

-- Runs of the workflow, each node with a provider's answers of its own. While it pauses at the
-- approval, whoever decides may set the status and the feedback.
pub data Walk (keeps : Bool) (n : Node) (s : RepositoryState) (w : World)
    : ℕ → Node → RepositoryState → World → Type 0 where
  here : Walk keeps n s w 0 n s w
  step :
      {k : ℕ} {m : Node} {t : RepositoryState} {u : World} (deps : RepositoryDeps) (next : Node)
      → Walk keeps n s w k m t u
      → route m (stepped keeps deps m t u) ≡ some next
      → Walk keeps n s w (cost m + k) next (stepped keeps deps m t u) (run_node deps m t u).1
  decide :
      {k : ℕ} {t : RepositoryState} {u : World} (status feedback : Option String)
      → Walk keeps n s w k Node.approval_node t u
      → Walk keeps n s w k Node.approval_node
          (record t { approval_status = status; approval_feedback = feedback })
          u
