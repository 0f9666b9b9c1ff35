-- ===== src/Repository/Moving.antt =====
-- services/repository/managers: each method against the abstract machine of pull requests.
use vision_virtual_intellige.Prelude.{
  String, ◌≡◌, true, Bool-cases, contains, Option, some, none, refl, ap, ◌∙◌, arith, inl, inr,
}
use vision_virtual_intellige.Repository.Names.{Result, ok, raised, Kind, protected_branches}
use vision_virtual_intellige.Repository.Requests.{
  ApprovePullRequestRequest, MergePullRequestRequest,
}
use vision_virtual_intellige.Repository.Store.{
  World, Branch, PullRequest, PullRequestStatus, Repository, RepositoryDeps,
}
use vision_virtual_intellige.Repository.Tables.{
  pull_request_by_id, set_pull_requests, with_status, with_merge,
}
use vision_virtual_intellige.Repository.Managers.{
  approve_pull_request, merge_pull_request, settle, retire_source, is_open, is_approved,
}
use vision_virtual_intellige.Repository.Frame.{
  followed, or_raise-stay, audit-kept, record_and_publish-kept, given_then, or_raise_then,
  require_then,
}
use vision_virtual_intellige.Repository.Respects.{
  create_branch-kept, delete_branch-kept, commit_files-kept, create_pull_request-kept,
  create_release-kept, rollback_release-kept, create_repository-kept,
}
use vision_virtual_intellige.Repository.Service.{Method, step, Run}
use vision_virtual_intellige.Repository.Moves.{
  Moves, Moved, Kept, Kept-Frame, Kept-Provisions, Moved-stay, Kept-Moved, marked-Moved, Moved-Kept,
}

is_open-eq : (s : PullRequestStatus) → is_open s ≡ true → s ≡ PullRequestStatus.open_
is_open-eq s h = ground arith

is_approved-eq : (s : PullRequestStatus) → is_approved s ≡ true → s ≡ PullRequestStatus.approved
is_approved-eq s h = ground arith

approve_pull_request-Moved :
    (deps : RepositoryDeps) (req : ApprovePullRequestRequest) (w : World)
    → Moved w (approve_pull_request deps req w).1
unfolding approve_pull_request
approve_pull_request-Moved deps req w = given_then Moved Moved-stay _ _ w w (
    or_raise_then Moved Moved-stay _ _ _ w (λ pr found. require_then Moved Moved-stay _ _ _ w (λ is.
      let marked =
        marked-Moved w req.pull_request_id pr (with_status PullRequestStatus.approved) found
          (λ x. refl) (Moves.approves pr (is_open-eq pr.status is)) in
      let u = set_pull_requests pr.id (with_status PullRequestStatus.approved) w in
      given_then Moved Moved-stay _ _ w u (
        given_then Moved Moved-stay _ _ w u (
          Moved-Kept w u _ marked (
            followed Kept Kept-Frame _ u _ (audit-kept Kept Kept-Frame deps _ _ _ _ _ _ u)
              (λ _ w. or_raise-stay Kept Kept-Frame (pull_request_by_id pr.id u) _ w)))))))

retire_source-Kept :
    (row : Option Branch) (name : String) (w : World) → Kept w (retire_source row name w).1
unfolding retire_source
retire_source-Kept none name w = Kept-Frame.stay w
retire_source-Kept (some row) name w = elim (Bool-cases (contains name protected_branches)) [
  | inl hit ↦ rw hit (Kept-Frame.stay w)
  | inr safe ↦ rw safe (Kept-Frame.sets_branches _ w.issued w)
]

settle-Moved :
    (deps : RepositoryDeps) (project_id id : String) (pr : PullRequest) (repo : Repository)
    (answer : Result String) (w : World)
    → pull_request_by_id id w ≡ some pr
    → pr.status ≡ PullRequestStatus.approved
    → Moved w (settle deps project_id pr repo answer w).1
unfolding settle
settle-Moved deps project_id id pr repo (ok sha) w found is =
    let marked = marked-Moved w id pr (with_merge sha) found (λ x. refl) (Moves.merges pr sha is) in
    let u = set_pull_requests pr.id (with_merge sha) w in
    given_then Moved Moved-stay _ _ w u (
      given_then Moved Moved-stay _ _ w u (
        given_then Moved Moved-stay _ _ w u (
          Moved-Kept w u _ marked (
            followed Kept Kept-Frame _ u _ (retire_source-Kept _ pr.source_branch u) (λ _ v.
              followed Kept Kept-Frame _ v _ (audit-kept Kept Kept-Frame deps _ _ _ _ _ _ v)
                (λ _ w. or_raise-stay Kept Kept-Frame (pull_request_by_id pr.id u) _ w))))))
settle-Moved deps project_id id pr repo (raised Kind.merge_conflict) w found is =
    let marked =
      marked-Moved w id pr (with_status PullRequestStatus.conflicted) found (λ x. refl)
        (Moves.conflicts pr is) in
    let u = set_pull_requests pr.id (with_status PullRequestStatus.conflicted) w in
    given_then Moved Moved-stay _ _ w u
      (Moved-Kept w u _ marked (record_and_publish-kept Kept Kept-Frame deps _ _ _ _ _ _ _ u))
settle-Moved deps project_id id pr repo (raised _) w found is = Moved-stay w

merge_pull_request-Moved :
    (deps : RepositoryDeps) (req : MergePullRequestRequest) (w : World)
    → Moved w (merge_pull_request deps req w).1
unfolding merge_pull_request Moved
merge_pull_request-Moved deps req w = given_then Moved Moved-stay _ _ w w (
    or_raise_then Moved Moved-stay _ _ _ w (λ pr found. require_then Moved Moved-stay _ _ _ w (λ is.
      given_then Moved Moved-stay _ _ w w (
        or_raise_then Moved Moved-stay _ _ _ w (λ repo here. given_then Moved Moved-stay _ _ w _ (
          settle-Moved deps req.project_id req.pull_request_id pr repo _ _ found
            (is_approved-eq pr.status is)))))))

step-Moved : (deps : RepositoryDeps) (method : Method) (w : World) → Moved w (step deps method w)
unfolding step
step-Moved deps (Method.creates_repository req) w =
    Kept-Moved w _ (create_repository-kept Kept Kept-Frame Kept-Provisions deps req w)
step-Moved deps (Method.creates_branch req) w =
    Kept-Moved w _ (create_branch-kept Kept Kept-Frame deps req w)
step-Moved deps (Method.deletes_branch project_id name) w =
    Kept-Moved w _ (delete_branch-kept Kept Kept-Frame deps project_id name w)
step-Moved deps (Method.commits_files req) w =
    Kept-Moved w _ (commit_files-kept Kept Kept-Frame deps req w)
step-Moved deps (Method.creates_pull_request req) w =
    Kept-Moved w _ (create_pull_request-kept Kept Kept-Frame deps req w)
step-Moved deps (Method.approves_pull_request req) w = approve_pull_request-Moved deps req w
step-Moved deps (Method.merges_pull_request req) w = merge_pull_request-Moved deps req w
step-Moved deps (Method.creates_release req) w =
    Kept-Moved w _ (create_release-kept Kept Kept-Frame deps req w)
step-Moved deps (Method.rolls_back_release req) w =
    Kept-Moved w _ (rollback_release-kept Kept Kept-Frame deps req w)

-- Whatever the provider answers, a pull request that the table has is there after any method, and
-- the method has left it alone, or approved it where it was open, or merged it or found that it
-- conflicts where it was approved; nothing else of it changes.
pub step-Moves :
    (deps : RepositoryDeps) (method : Method) (w : World) (id : String) (pr : PullRequest)
    → pull_request_by_id id w ≡ some pr
    → (pr' : PullRequest) × (pull_request_by_id id (step deps method w) ≡ some pr') × Moves pr pr'
unfolding Moved
step-Moves deps method w id pr found = step-Moved deps method w id pr found

merged-Moves :
    {pr pr' : PullRequest} → Moves pr pr' → pr.status ≡ PullRequestStatus.merged → pr' ≡ pr
merged-Moves (Moves.stays pr) e = refl
merged-Moves (Moves.approves pr is) e = ground (arith, is, e)
merged-Moves (Moves.merges pr sha is) e = ground (arith, is, e)
merged-Moves (Moves.conflicts pr is) e = ground (arith, is, e)

-- A pull request that is merged stays as it is, with its commit, through any run of the methods.
pub Run-merged :
    {w u : World} (id : String) (pr : PullRequest)
    → pull_request_by_id id w ≡ some pr
    → pr.status ≡ PullRequestStatus.merged
    → Run w u
    → pull_request_by_id id u ≡ some pr
Run-merged id pr found is Run.here = found
Run-merged id pr found is (Run.next {u = u} deps method r) =
    let (pr', found', move) = step-Moves deps method u id pr (Run-merged id pr found is r) in
    found' ∙ ap some (merged-Moves move is)
