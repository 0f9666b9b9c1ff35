-- ===== src/Repository/Gates.antt =====
-- services/repository/managers/pull_request_manager.py: the steps that keep the approval gate.
use vision_virtual_intellige.Prelude.{String, ◌≡◌, false, some, [], ◌∷◌, arith, eq_iff, refl}
use vision_virtual_intellige.Repository.Store.{
  PullRequest, PullRequestStatus, Repository, World, Effect, RepositoryEvent, Call, log_effect,
}
use vision_virtual_intellige.Repository.Tables.{
  set_pull_requests, pull_request_by_id, with_status, repository_by_id,
}
use vision_virtual_intellige.Repository.Managers.{is_open}
use vision_virtual_intellige.Repository.Frame.{is_merge, Frame}
use vision_virtual_intellige.Repository.Respects.{Provisions}
use vision_virtual_intellige.Repository.Gate.{
  approval_recorded, IsGated, Gated, repositories-IsGated, pull_requests-IsGated, update-IsGated,
}
use vision_virtual_intellige.Repository.Approved.{
  effect-IsApproved, append-IsApproved, update-IsApproved, find-IsApproved, find-number_approved,
}

-- A step that keeps the gate.
unfoldable pub Gates : World → World → Type 0
Gates w u = Gated w → Gated u

called-Gates :
    (c : Call) (w : World) → is_merge c ≡ false → Gates w (log_effect (Effect.called c) w)
unfolding Gates IsGated
called-Gates (Call.merge_pull_request owner repo number message) w m h = ground (arith, m)
called-Gates _ w m h = (h.0, effect-IsApproved _ w.log w.pull_requests h.1)

pub Gates-Frame : Frame Gates
unfolding Gates IsGated
Gates-Frame = record {
  stay = λ w h. h;
  also = λ u v w h k g. k (h g);
  calls = λ c w h k. called-Gates c w k;
  records = λ e w h. (h.0, effect-IsApproved _ w.log w.pull_requests h.1);
  publishes = λ s w h. (h.0, effect-IsApproved _ w.log w.pull_requests h.1);
  sets_branches = λ rows issued w h. h;
  adds_pull_request = λ row w new h. (
    pull_requests-IsGated w.repositories w.pull_requests (row ∷ []) w.log h.0,
    append-IsApproved w.log w.pull_requests row new h.1,
  );
}

pub Gates-Provisions : Provisions Gates
unfolding Gates
Gates-Provisions = record {
  calls_any = called-Gates;
  adds_repository =
      λ row w h. (repositories-IsGated w.repositories (row ∷ []) w.pull_requests w.log h.0, h.1);
}

-- An update of a pull request whose approval is recorded.
pub marked-Gates :
    (w : World) (id : String) (pr : PullRequest) (f : PullRequest → PullRequest)
    → ((x : PullRequest) → (f x).id ≡ x.id)
    → ((x : PullRequest) → (f x).repository_id ≡ x.repository_id)
    → ((x : PullRequest) → (f x).provider_pr_number ≡ x.provider_pr_number)
    → pull_request_by_id id w ≡ some pr
    → is_open pr.status ≡ false
    → Gates w (set_pull_requests pr.id f w)
unfolding Gates
marked-Gates w id pr f same same' same'' found n h = (
  update-IsGated w.repositories pr.id f w.pull_requests w.log same same' same'' h.0,
  update-IsApproved w.log pr.id f w.pull_requests same
      (find-IsApproved w.log id w.pull_requests pr found n h.1) h.1,
)

-- An approval that is recorded when its pull request has been marked.
pub approved-Gates :
    (w : World) (pr : PullRequest) (e : RepositoryEvent)
    → e.event_type ≡ "repository.pr.approved"
    → e.entity_id ≡ pr.id
    → Gates w (
        log_effect
          (Effect.recorded e)
          (set_pull_requests pr.id (with_status PullRequestStatus.approved) w))
unfolding Gates IsGated approval_recorded
approved-Gates w pr e t i h = (
  update-IsGated w.repositories pr.id _ w.pull_requests w.log (λ x. refl) (λ x. refl) (λ x. refl)
      h.0,
  update-IsApproved (Effect.recorded e ∷ w.log) pr.id _ w.pull_requests (λ x. refl)
      (ground (arith, t, i, eq_iff e.event_type "repository.pr.approved", eq_iff e.entity_id pr.id))
      (effect-IsApproved _ w.log w.pull_requests h.1),
)

-- The call of a merge, for an approved pull request of a repository that is there.
pub merge-Gates :
    (w : World) (id : String) (pr : PullRequest) (repo : Repository) (message : String)
    → pull_request_by_id id w ≡ some pr
    → is_open pr.status ≡ false
    → repository_by_id pr.repository_id w ≡ some repo
    → Gates w (
        log_effect
          (Effect.called
            (Call.merge_pull_request repo.owner repo.name pr.provider_pr_number message))
          w)
unfolding Gates IsGated
merge-Gates w id pr repo message found n here h =
    let known = find-IsApproved w.log id w.pull_requests pr found n h.1 in
    (
      (find-number_approved w.repositories w.pull_requests w.log id pr repo found here known, h.0),
      effect-IsApproved _ w.log w.pull_requests h.1,
    )
