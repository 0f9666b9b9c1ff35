-- ===== src/Repository/Guarded.antt =====
-- services/repository/managers: which methods write to the protected branches.
use vision_virtual_intellige.Prelude.{
  String, ◌≡◌, Bool, true, false, List, [], ◌∷◌, refl, ◌∙◌, Option, some, none, if◌then◌else◌,
  arith, contains, Bool-cases, inl, inr,
}
use vision_virtual_intellige.Repository.Names.{Result, ok, raised, Kind, protected_branches}
use vision_virtual_intellige.Repository.Requests.{
  ApprovePullRequestRequest, MergePullRequestRequest,
}
use vision_virtual_intellige.Repository.Store.{
  World, Effect, Call, RepositoryDeps, PullRequest, Repository, Branch,
}
use vision_virtual_intellige.Repository.Managers.{
  require, approve_pull_request, merge_pull_request, settle, retire_source, is_open, is_approved,
}
use vision_virtual_intellige.Repository.Frame.{
  writes_protected, Frame, followed, or_raise-stay, audit-kept, record_and_publish-kept,
}
use vision_virtual_intellige.Repository.Respects.{
  create_branch-kept, delete_branch-kept, commit_files-kept, create_pull_request-kept,
  create_release-kept, rollback_release-kept,
}
use vision_virtual_intellige.Repository.Service.{Method, step}

-- The calls in a log that write to a protected branch.
pub protected_writes : List Effect → List Call
protected_writes [] = []
protected_writes (Effect.called c ∷ log) =
    let rest = protected_writes log in if writes_protected c then c ∷ rest else rest
protected_writes (_ ∷ log) = protected_writes log

Same : World → World → Type 0
unfolding protected_writes
Same w u = protected_writes u.log ≡ protected_writes w.log

Same-Frame : Frame Same
unfolding Same
Same-Frame = record {
  stay = λ w. refl;
  also = λ u v w h k. k ∙ h;
  calls = λ c w h k. rw h refl;
  records = λ e w. refl;
  publishes = λ s w. refl;
  sets_branches = λ rows issued w. refl;
  adds_pull_request = λ row w h. refl;
}

require-Same : (c : Bool) (kind : Kind) (w : World) → Same w (require c kind w).1
unfolding Same
require-Same true kind w = refl
require-Same false kind w = refl

approve_pull_request-Same :
    (deps : RepositoryDeps) (req : ApprovePullRequestRequest) (w : World)
    → Same w (approve_pull_request deps req w).1
unfolding approve_pull_request Same
approve_pull_request-Same deps req w =
    followed Same Same-Frame _ w _ (Same-Frame.stay w) (λ found w.
      followed Same Same-Frame _ w _ (or_raise-stay Same Same-Frame found _ w) (λ pr w.
        followed Same Same-Frame _ w _ (require-Same (is_open pr.status) _ w) (λ _ w.
          followed Same Same-Frame _ w _ refl (λ _ w.
            followed Same Same-Frame _ w _ (Same-Frame.stay w) (λ updated w.
              followed Same Same-Frame _ w _ (audit-kept Same Same-Frame deps _ _ _ _ _ _ w)
                (λ _ w. or_raise-stay Same Same-Frame updated _ w))))))

retire_source-Same :
    (row : Option Branch) (name : String) (w : World) → Same w (retire_source row name w).1
unfolding Same retire_source
retire_source-Same none name w = refl
retire_source-Same (some row) name w = elim (Bool-cases (contains name protected_branches)) [
  | inl hit ↦ rw hit refl
  | inr safe ↦ rw safe refl
]

settle-Same :
    (deps : RepositoryDeps) (project_id : String) (pr : PullRequest) (repo : Repository)
    (answer : Result String) (w : World)
    → Same w (settle deps project_id pr repo answer w).1
unfolding settle Same
settle-Same deps project_id pr repo (ok sha) w = followed Same Same-Frame _ w _ refl (λ _ w.
    followed Same Same-Frame _ w _ (Same-Frame.stay w) (λ updated w.
      followed Same Same-Frame _ w _ (Same-Frame.stay w) (λ row w.
        followed Same Same-Frame _ w _ (retire_source-Same row pr.source_branch w) (λ _ w.
          followed Same Same-Frame _ w _ (audit-kept Same Same-Frame deps _ _ _ _ _ _ w)
            (λ _ w. or_raise-stay Same Same-Frame updated _ w)))))
settle-Same deps project_id pr repo (raised Kind.merge_conflict) w =
    followed Same Same-Frame _ w _ refl
      (λ _ w. record_and_publish-kept Same Same-Frame deps _ _ _ _ _ _ _ w)
settle-Same deps project_id pr repo (raised _) w = refl

merge_pull_request-Same :
    (deps : RepositoryDeps) (req : MergePullRequestRequest) (w : World)
    → Same w (merge_pull_request deps req w).1
unfolding merge_pull_request Same
merge_pull_request-Same deps req w = followed Same Same-Frame _ w _ (Same-Frame.stay w) (λ found w.
    followed Same Same-Frame _ w _ (or_raise-stay Same Same-Frame found _ w) (λ pr w.
      followed Same Same-Frame _ w _ (require-Same (is_approved pr.status) _ w) (λ _ w.
        followed Same Same-Frame _ w _ (Same-Frame.stay w) (λ row w.
          followed Same Same-Frame _ w _ (or_raise-stay Same Same-Frame row _ w) (λ repo w.
            followed Same Same-Frame _ w _ refl
              (λ answer w. settle-Same deps req.project_id pr repo answer w))))))

-- The methods but `create_repository`.
abbrev pub is_provisioning : Method → Bool
is_provisioning (Method.creates_repository req) = true
is_provisioning _ = false

-- Whatever the provider answers, no method but `create_repository` calls it to create, delete or
-- commit to `main` or `develop`.
pub step-protected_writes :
    (deps : RepositoryDeps) (method : Method) (w : World)
    → is_provisioning method ≡ false
    → protected_writes (step deps method w).log ≡ protected_writes w.log
unfolding step Same
step-protected_writes deps (Method.creates_branch req) w h =
    create_branch-kept Same Same-Frame deps req w
step-protected_writes deps (Method.deletes_branch project_id name) w h =
    delete_branch-kept Same Same-Frame deps project_id name w
step-protected_writes deps (Method.commits_files req) w h =
    commit_files-kept Same Same-Frame deps req w
step-protected_writes deps (Method.creates_pull_request req) w h =
    create_pull_request-kept Same Same-Frame deps req w
step-protected_writes deps (Method.approves_pull_request req) w h =
    approve_pull_request-Same deps req w
step-protected_writes deps (Method.merges_pull_request req) w h = merge_pull_request-Same deps req w
step-protected_writes deps (Method.creates_release req) w h =
    create_release-kept Same Same-Frame deps req w
step-protected_writes deps (Method.rolls_back_release req) w h =
    rollback_release-kept Same Same-Frame deps req w
step-protected_writes deps (Method.creates_repository req) w h = ground arith
