-- ===== src/Repository/Retried.antt =====
-- services/repository/workflows/repository_graph.py: what a retry meets.
use vision_virtual_intellige.Prelude.{
  ℕ, String, ◌≡◌, refl, ◌∙◌, Bool, true, false, Option, none, some, List, [], ◌∷◌, contains, eq_iff,
  Bool-cases, inl, inr, arith,
}
use vision_virtual_intellige.Repository.Names.{
  Result, ok, raised, Kind, protected_branches, assert_not_protected,
}
use vision_virtual_intellige.Repository.Requests.{ApprovePullRequestRequest}
use vision_virtual_intellige.Repository.Store.{
  World, RepositoryDeps, Action, PullRequest, PullRequestStatus, or_raise, and_then,
}
use vision_virtual_intellige.Repository.Tables.{
  has_id, pull_request_by_id, set_pull_requests, with_status,
}
use vision_virtual_intellige.Repository.Managers.{
  is_open, require, approve_pull_request, commit_files,
}
use vision_virtual_intellige.Repository.Frame.{followed, or_raise-stay, audit-kept}
use vision_virtual_intellige.Repository.Moves.{Moves, Kept, Kept-Frame, find-update_where}
use vision_virtual_intellige.Repository.Moving.{step-Moves}
use vision_virtual_intellige.Repository.Service.{Method, step, Run}
use vision_virtual_intellige.Repository.State.{RepositoryState, Write, write, merge}
use vision_virtual_intellige.Repository.Graph.{can_commit, approver, approve_and_merge, commit}
use vision_virtual_intellige.Repository.Workflow.{
  Node, run_node, route, route_after_action, route_after_retry, stepped, Walk,
}

-- A pull request that is there and no longer open.
Closed : String → World → Type 0
Closed id w = (pr : PullRequest) × (pull_request_by_id id w ≡ some pr) × (is_open pr.status ≡ false)

-- What holds after a part that succeeds, and after one that either succeeds or raises.
module _ (P : World → Type 0) where
  ok_then :
      {A B : Type 0} (k : A → Action B) (a : A) (u : World)
      → P (k a u).1
      → P (and_then k (ok a, u)).1
  unfolding and_then
  ok_then k a u h = h

  found_then :
      {A B : Type 0} (found : Option A) (kind : Kind) (k : A → Action B) (w : World) (a : A)
      → found ≡ some a
      → P (k a w).1
      → P (and_then k (or_raise found kind w)).1
  unfolding and_then
  found_then found kind k w a e h = rw e h

  required_then :
      {B : Type 0} (c : Bool) (kind : Kind) (k : Unit → Action B) (w : World)
      → c ≡ true
      → P (k tt w).1
      → P (and_then k (require c kind w)).1
  unfolding and_then
  required_then c kind k w e h = rw e h

  either_then :
      {A B : Type 0} (k : A → Action B) (done : Result A × World)
      → P done.1
      → ((a : A) (v : World) → P v → P (k a v).1)
      → P (and_then k done).1
  unfolding and_then
  either_then k (ok a, v) h hk = hk a v h
  either_then k (raised kind, v) h hk = h

Moves-is_open :
    {pr pr' : PullRequest} → Moves pr pr' → is_open pr.status ≡ false → is_open pr'.status ≡ false
Moves-is_open (Moves.stays pr) h = h
Moves-is_open (Moves.approves pr is) h = refl
Moves-is_open (Moves.merges pr sha is) h = refl
Moves-is_open (Moves.conflicts pr is) h = refl

step-Closed :
    (deps : RepositoryDeps) (method : Method) (id : String) (w : World)
    → Closed id w
    → Closed id (step deps method w)
unfolding Closed
step-Closed deps method id w (pr, found, n) =
    let (pr', found', move) = step-Moves deps method w id pr found in
    (pr', found', Moves-is_open move n)

Run-Closed : (id : String) {u v : World} → Run u v → Closed id u → Closed id v
Run-Closed id Run.here h = h
Run-Closed id (Run.next deps method r) h = step-Closed deps method id _ (Run-Closed id r h)

Kept-Closed : (id : String) (u v : World) → Kept u v → Closed id u → Closed id v
unfolding Closed Kept
Kept-Closed id u v k (pr, found, n) = (pr, k id pr found, n)

marked-Closed :
    (id : String) (pr : PullRequest) (w : World)
    → pull_request_by_id id w ≡ some pr
    → Closed id (set_pull_requests pr.id (with_status PullRequestStatus.approved) w)
unfolding Closed
marked-Closed id pr w found =
    let mark = with_status PullRequestStatus.approved in
    let own : has_id pr.id pr ≡ true = (eq_iff pr.id pr.id).1 refl in
    (
      mark pr,
      find-update_where pr.id id mark w.pull_requests pr (λ x. refl) found ∙ (rw own refl),
      refl,
    )

approved-Closed :
    (deps : RepositoryDeps) (req : ApprovePullRequestRequest) (pr : PullRequest) (w : World)
    → pull_request_by_id req.pull_request_id w ≡ some pr
    → is_open pr.status ≡ true
    → Closed req.pull_request_id (approve_pull_request deps req w).1
unfolding approve_pull_request
approved-Closed deps req pr w found is =
    let P = Closed req.pull_request_id in
    let u = set_pull_requests pr.id (with_status PullRequestStatus.approved) w in
    ok_then P _ _ w (
      found_then P _ _ _ w pr found (
        required_then P _ _ _ w is (
          ok_then P _ _ u (
            ok_then P _ _ u (
              Kept-Closed req.pull_request_id u _
                (followed Kept Kept-Frame _ u _ (audit-kept Kept Kept-Frame deps _ _ _ _ _ _ u)
                  (λ _ v. or_raise-stay Kept Kept-Frame (pull_request_by_id pr.id u) _ v))
                (marked-Closed req.pull_request_id pr w found))))))

approve_pull_request-Closed :
    (deps : RepositoryDeps) (req : ApprovePullRequestRequest) (pr : PullRequest) (w : World)
    → pull_request_by_id req.pull_request_id w ≡ some pr
    → Closed req.pull_request_id (approve_pull_request deps req w).1
unfolding Closed step
approve_pull_request-Closed deps req pr w found = elim (Bool-cases (is_open pr.status)) [
  | inl is ↦ approved-Closed deps req pr w found is
  | inr n ↦ step-Closed deps (Method.approves_pull_request req) req.pull_request_id w (pr, found, n)
]

-- The approval of a pull request that is not open.
approve_pull_request-refused :
    (deps : RepositoryDeps) (req : ApprovePullRequestRequest) (w : World)
    → Closed req.pull_request_id w
    → approve_pull_request deps req w ≡ (raised Kind.repository_service, w)
unfolding Closed approve_pull_request and_then
approve_pull_request-refused deps req w (pr, found, n) = rw found (rw n refl)

-- The merge node has run on the pull request.
merge_node-Closed :
    (deps : RepositoryDeps) (s : RepositoryState) (w : World) (id : String) (pr : PullRequest)
    → s.pull_request_id ≡ some id
    → pull_request_by_id id w ≡ some pr
    → Closed id (run_node deps Node.merge_node s w).1
unfolding run_node approve_and_merge step
merge_node-Closed deps s w id pr e found = found_then (Closed id) s.pull_request_id _ _ w id e (
    either_then (Closed id) _ _ (approve_pull_request-Closed deps _ pr w found)
      (λ _ v closed. step-Closed deps (Method.merges_pull_request _) id v closed))

-- Once the merge node has run on a pull request, whatever came of it and whatever methods of the
-- managers have run since, with any requests and any answers of the provider, the node does not succeed
-- on it: it fails, retryably, at the approval, and neither calls the provider nor changes the state.
pub merge_node-repeated :
    (deps deps' : RepositoryDeps) (s s' : RepositoryState) (w v : World) (id : String)
    (pr : PullRequest)
    → s.pull_request_id ≡ some id
    → s'.pull_request_id ≡ some id
    → pull_request_by_id id w ≡ some pr
    → Run (run_node deps Node.merge_node s w).1 v
    → run_node deps' Node.merge_node s' v ≡ (
      Write.phase_status "failed"
          ∷ Write.failure_reason (some Kind.repository_service)
          ∷ Write.retryable true
          ∷ Write.failed_step "merge"
          ∷ [],
      v,
    )
unfolding run_node approve_and_merge and_then
merge_node-repeated deps deps' s s' w v id pr e e' found since =
    let refused =
      approve_pull_request-refused deps'
        (record { project_id = s'.project_id; pull_request_id = id; approved_by = approver s' }) v
        (Run-Closed id since (merge_node-Closed deps s w id pr e found)) in
    rw e' (rw refused refl)

-- Where the commit's request can be made, that is where each file has a path and a content, and no value
-- of these or of its mode that is not a text, the message and the workflow's identifier are there and the
-- task's is not None, committing to a protected branch fails at once: nothing is called or changed, and
-- whatever retries are left, the run goes to the dead letters.
pub commit_node-protected :
    (keeps : Bool) (deps : RepositoryDeps) (s : RepositoryState) (w : World) (name : String)
    → s.branch_name ≡ some name
    → can_commit s ≡ true
    → contains name protected_branches ≡ true
    → ((run_node deps Node.commit_node s w).1 ≡ w)
      × (route Node.commit_node (stepped keeps deps Node.commit_node s w)
          ≡ some Node.dead_letter_node)
unfolding run_node commit commit_files assert_not_protected and_then route route_after_action
commit_node-protected true deps s w name e task hit =
    (rw e (rw task (rw hit refl)), rw e (rw task (rw hit refl)))
commit_node-protected false deps s w name e task hit =
    (rw e (rw task (rw hit refl)), rw e (rw task (rw hit refl)))

write-failed_step :
    (s : RepositoryState) (v : Write) → (write false s v).failed_step ≡ s.failed_step
write-failed_step s v = ground arith

merge-failed_step :
    (s : RepositoryState) (vs : List Write) → (merge false s vs).failed_step ≡ s.failed_step
merge-failed_step s [] = refl
merge-failed_step s (v ∷ vs) = merge-failed_step (write false s v) vs ∙ write-failed_step s v

Walk-failed_step :
    {n : Node} {s : RepositoryState} {w : World} {k : ℕ} {m : Node} {t : RepositoryState}
    {u : World}
    → Walk false n s w k m t u
    → t.failed_step ≡ s.failed_step
Walk-failed_step Walk.here = refl
Walk-failed_step (Walk.step {m = m} {t = t} {u = u} deps next r e) =
    merge-failed_step t (run_node deps m t u).0 ∙ Walk-failed_step r
Walk-failed_step (Walk.decide status feedback r) = Walk-failed_step r

-- Where the workflow library drops the key that the state does not declare, each retry of a run that
-- starts without it goes back to the first node, whichever node failed.
pub Walk-retries :
    {n : Node} {s : RepositoryState} {w : World} {k : ℕ} {m : Node} {t : RepositoryState}
    {u : World}
    → s.failed_step ≡ none
    → Walk false n s w k m t u
    → route Node.retry_node t ≡ some Node.validate_node
unfolding route route_after_retry
Walk-retries h r = rw (Walk-failed_step r) (rw h refl)
