-- ===== src/Repository/Gated.antt =====
-- services/repository/managers/pull_request_manager.py: every run of the methods stands behind the
-- approval gate.
use vision_virtual_intellige.Prelude.{
  String, ◌≡◌, false, Option, none, some, [], arith, refl, contains, Bool-cases, inl, inr,
}
use vision_virtual_intellige.Repository.Names.{Result, ok, raised, Kind, protected_branches}
use vision_virtual_intellige.Repository.Store.{
  PullRequest, PullRequestStatus, Repository, World, RepositoryDeps, Branch,
}
use vision_virtual_intellige.Repository.Tables.{
  set_pull_requests, pull_request_by_id, with_status, with_merge,
}
use vision_virtual_intellige.Repository.Requests.{
  ApprovePullRequestRequest, MergePullRequestRequest,
}
use vision_virtual_intellige.Repository.Managers.{
  approve_pull_request, merge_pull_request, settle, retire_source, is_open,
}
use vision_virtual_intellige.Repository.Frame.{
  followed, or_raise-stay, audit-kept, audit-then, record_and_publish-kept, given_then,
  or_raise_then, require_then,
}
use vision_virtual_intellige.Repository.Respects.{
  create_branch-kept, delete_branch-kept, commit_files-kept, create_pull_request-kept,
  create_release-kept, rollback_release-kept, create_repository-kept,
}
use vision_virtual_intellige.Repository.Gate.{IsGated, IsApproved, Gated}
use vision_virtual_intellige.Repository.Service.{Method, step, Run}
use vision_virtual_intellige.Repository.Gates.{
  Gates, Gates-Frame, Gates-Provisions, marked-Gates, approved-Gates, merge-Gates,
}

approve_pull_request-Gates :
    (deps : RepositoryDeps) (req : ApprovePullRequestRequest) (w : World)
    → Gates w (approve_pull_request deps req w).1
unfolding approve_pull_request
approve_pull_request-Gates deps req w =
    let stay = Gates-Frame.stay in
    given_then Gates stay _ _ w w (
      or_raise_then Gates stay _ _ _ w (λ pr found. require_then Gates stay _ _ _ w (λ is.
        let u = set_pull_requests pr.id (with_status PullRequestStatus.approved) w in
        given_then Gates stay _ _ w u (
          given_then Gates stay _ _ w u (
            audit-then Gates Gates-Frame _ deps
              (record {
                event_type = "repository.pr.approved";
                repository_id = pr.repository_id;
                project_id = req.project_id;
                entity_type = "pull_request";
                entity_id = pr.id;
                actor = req.approved_by;
              })
              w u (approved-Gates w pr _ refl refl)
              (λ v. or_raise-stay Gates Gates-Frame (pull_request_by_id pr.id u) _ v))))))

retire_source-Gates :
    (row : Option Branch) (name : String) (w : World) → Gates w (retire_source row name w).1
unfolding retire_source
retire_source-Gates none name w = Gates-Frame.stay w
retire_source-Gates (some row) name w = elim (Bool-cases (contains name protected_branches)) [
  | inl hit ↦ rw hit (Gates-Frame.stay w)
  | inr safe ↦ rw safe (Gates-Frame.sets_branches _ w.issued w)
]

settle-Gates :
    (deps : RepositoryDeps) (project_id id : String) (pr : PullRequest) (repo : Repository)
    (answer : Result String) (w : World)
    → pull_request_by_id id w ≡ some pr
    → is_open pr.status ≡ false
    → Gates w (settle deps project_id pr repo answer w).1
unfolding settle
settle-Gates deps project_id id pr repo (ok sha) w found n =
    let marked =
      marked-Gates w id pr (with_merge sha) (λ x. refl) (λ x. refl) (λ x. refl) found n in
    followed Gates Gates-Frame _ w _ marked (λ _ u.
      followed Gates Gates-Frame _ u _ (Gates-Frame.stay u) (λ updated u.
        followed Gates Gates-Frame _ u _ (Gates-Frame.stay u) (λ row u.
          followed Gates Gates-Frame _ u _ (retire_source-Gates row pr.source_branch u) (λ _ v.
            followed Gates Gates-Frame _ v _ (audit-kept Gates Gates-Frame deps _ _ _ _ _ _ v)
              (λ _ w. or_raise-stay Gates Gates-Frame updated _ w)))))
settle-Gates deps project_id id pr repo (raised Kind.merge_conflict) w found n =
    let marked =
      marked-Gates w id pr (with_status PullRequestStatus.conflicted) (λ x. refl) (λ x. refl)
        (λ x. refl) found n in
    followed Gates Gates-Frame _ w _ marked
      (λ _ u. record_and_publish-kept Gates Gates-Frame deps _ _ _ _ _ _ _ u)
settle-Gates deps project_id id pr repo (raised _) w found n = Gates-Frame.stay w

merge_pull_request-Gates :
    (deps : RepositoryDeps) (req : MergePullRequestRequest) (w : World)
    → Gates w (merge_pull_request deps req w).1
unfolding merge_pull_request
merge_pull_request-Gates deps req w =
    let stay = Gates-Frame.stay in
    given_then Gates stay _ _ w w (
      or_raise_then Gates stay _ _ _ w (λ pr found. require_then Gates stay _ _ _ w (λ is.
        let n : is_open pr.status ≡ false = ground arith in
        given_then Gates stay _ _ w w (
          or_raise_then Gates stay _ _ _ w (λ repo here. given_then Gates stay _ _ w _ (
            Gates-Frame.also w _ _ (merge-Gates w req.pull_request_id pr repo _ found n here)
              (settle-Gates deps req.project_id req.pull_request_id pr repo _ _ found n)))))))

step-Gates : (deps : RepositoryDeps) (method : Method) (w : World) → Gates w (step deps method w)
unfolding step
step-Gates deps (Method.creates_repository req) w =
    create_repository-kept Gates Gates-Frame Gates-Provisions deps req w
step-Gates deps (Method.creates_branch req) w = create_branch-kept Gates Gates-Frame deps req w
step-Gates deps (Method.deletes_branch project_id name) w =
    delete_branch-kept Gates Gates-Frame deps project_id name w
step-Gates deps (Method.commits_files req) w = commit_files-kept Gates Gates-Frame deps req w
step-Gates deps (Method.creates_pull_request req) w =
    create_pull_request-kept Gates Gates-Frame deps req w
step-Gates deps (Method.approves_pull_request req) w = approve_pull_request-Gates deps req w
step-Gates deps (Method.merges_pull_request req) w = merge_pull_request-Gates deps req w
step-Gates deps (Method.creates_release req) w = create_release-kept Gates Gates-Frame deps req w
step-Gates deps (Method.rolls_back_release req) w =
    rollback_release-kept Gates Gates-Frame deps req w

empty-Gated : (w : World) → w.pull_requests ≡ [] → w.log ≡ [] → Gated w
unfolding IsGated IsApproved
empty-Gated w e e' = rw e (rw e' (tt, tt))

Run-Gated : {w u : World} → Gated w → Run w u → Gated u
unfolding Gates
Run-Gated g Run.here = g
Run-Gated g (Run.next {u = u} deps method r) = step-Gates deps method u (Run-Gated g r)

-- From a state without pull requests and without a log, whatever the methods and whatever the
-- provider answers to each, the log before each call that merges a number of a repository records
-- the approval of a pull request that has this number in this repository.
pub Run-IsGated :
    {w u : World}
    → w.pull_requests ≡ []
    → w.log ≡ []
    → Run w u
    → IsGated u.repositories u.pull_requests u.log
Run-IsGated {w = w} none_yet quiet r = (Run-Gated (empty-Gated w none_yet quiet) r).0
