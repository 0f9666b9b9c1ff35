-- ===== src/Repository/Respects.antt =====
-- services/repository/managers: the methods that neither approve nor merge, part by part.
use vision_virtual_intellige.Prelude.{
  not, contains, ◌==◌, ◌&&◌, suc, false, String, ◌≡◌, refl, Option, some, none, ◌||◌, [], ◌∷◌, ◌++◌,
  Bool-cases, inl, inr, any,
}
use vision_virtual_intellige.Repository.Requests.{
  value, CreateRepositoryRequest, CreateBranchRequest, CommitFilesRequest, CreatePullRequestRequest,
  CreateReleaseRequest, RollbackReleaseRequest,
}
use vision_virtual_intellige.Repository.Names.{is_absent, text}
use vision_virtual_intellige.Repository.Store.{
  World, Branch, Repository, Effect, log_effect, RepositoryDeps, Call,
}
use vision_virtual_intellige.Repository.Tables.{
  add_branch, branch_types, add_pull_request, add_repository,
}
use vision_virtual_intellige.Repository.Service.{create_repository, unless_existing, provision}
use vision_virtual_intellige.Repository.Managers.{
  or_text, create_branch, delete_branch, commit_files, create_pull_request, create_release,
  rollback_release, forget,
}
use vision_virtual_intellige.Repository.Frame.{
  is_merge, Frame, followed, or_raise-stay, get_repository_row-stay, guarded,
  record_and_publish-kept, publish-kept,
}

module _ (R : World → World → Type 0) (frame : Frame R) where
  pub create_release-kept :
      (deps : RepositoryDeps) (req : CreateReleaseRequest) (w : World)
      → R w (create_release deps req w).1
  unfolding create_release
  create_release-kept deps req w =
      followed R frame _ w _ (get_repository_row-stay R frame req.project_id w) (λ repo u.
        followed R frame _ u _ (frame.calls _ u refl refl)
          (λ tag v. record_and_publish-kept R frame deps _ _ _ _ _ _ _ v))

  pub rollback_release-kept :
      (deps : RepositoryDeps) (req : RollbackReleaseRequest) (w : World)
      → R w (rollback_release deps req w).1
  unfolding rollback_release
  rollback_release-kept deps req w =
      followed R frame _ w _ (get_repository_row-stay R frame req.project_id w) (λ repo u.
        followed R frame _ u _ (frame.calls _ u refl refl) (λ gone v.
          followed R frame _ v _ (frame.records _ v) (λ _ x. publish-kept R frame deps.nats _ x)))

  pub create_pull_request-kept :
      (deps : RepositoryDeps) (req : CreatePullRequestRequest) (w : World)
      → R w (create_pull_request deps req w).1
  unfolding create_pull_request add_pull_request
  create_pull_request-kept deps req w =
      followed R frame _ w _ (get_repository_row-stay R frame req.project_id w) (λ repo u.
        followed R frame _ u _ (frame.calls _ u refl refl) (λ number v.
          followed R frame _ v _ (frame.adds_pull_request _ v refl)
            (λ row x. record_and_publish-kept R frame deps _ _ _ _ _ _ _ x)))

  pub commit_files-kept :
      (deps : RepositoryDeps) (req : CommitFilesRequest) (w : World)
      → R w (commit_files deps req w).1
  unfolding commit_files
  commit_files-kept deps req w = guarded R frame req.branch_name _ w (λ safe.
      followed R frame _ w _ (get_repository_row-stay R frame req.project_id w) (λ repo u.
        followed R frame _ u _ (frame.stay u) (λ found u.
          followed R frame _ u _ (or_raise-stay R frame found _ u) (λ branch u.
            followed R frame _ u _ (frame.calls _ u safe refl) (λ sha v.
              followed R frame _ v _ (frame.sets_branches _ v.issued v)
                (λ _ x. record_and_publish-kept R frame deps _ _ _ _ _ _ _ x))))))

  forget-kept : (row : Option Branch) (w : World) → R w (forget row w).1
  forget-kept none w = frame.stay w
  forget-kept (some row) w = frame.sets_branches _ w.issued w

  pub delete_branch-kept :
      (deps : RepositoryDeps) (project_id branch_name : String) (w : World)
      → R w (delete_branch deps project_id branch_name w).1
  unfolding delete_branch
  delete_branch-kept deps project_id branch_name w = guarded R frame branch_name _ w (λ safe.
      followed R frame _ w _ (get_repository_row-stay R frame project_id w) (λ repo u.
        followed R frame _ u _ (frame.calls _ u safe refl)
          (λ _ v. followed R frame _ v _ (frame.stay v) (λ row x. forget-kept row x))))

  add_branch-kept :
      (id name branch_type : String) (task_id : Option String) (base sha : String) (w : World)
      → R w (add_branch id name branch_type task_id base sha w).1
  unfolding add_branch
  add_branch-kept id name branch_type task_id base sha w =
      elim (Bool-cases (
        not (contains branch_type branch_types)
        || any (λ (b : Branch). b.repository_id == id && b.name == name) w.branches)) [
          | inl taken ↦ rw taken (frame.stay w)
          | inr fresh ↦ rw fresh (frame.sets_branches _ (suc w.issued) w)
        ]

  pub create_branch-kept :
      (deps : RepositoryDeps) (req : CreateBranchRequest) (w : World)
      → R w (create_branch deps req w).1
  unfolding create_branch
  create_branch-kept deps req w =
      followed R frame _ w _ (get_repository_row-stay R frame req.project_id w) (λ repo u.
        followed R frame _ u _ (frame.stay u) (λ name u. guarded R frame name _ u (λ safe.
          followed R frame _ u _ (frame.calls _ u safe refl) (λ result v.
            followed R frame _ v _
              (add_branch-kept repo.id result.name (value req.branch_type)
                (or_text req.task_id req.incident_id) _ result.head_sha v)
              (λ row x. record_and_publish-kept R frame deps _ _ _ _ _ _ _ x)))))

-- What a new repository needs beside.
pub record Provisions (R : World → World → Type 0) : Type 0 where
  pub calls_any : (c : Call) (w : World) → is_merge c ≡ false → R w (log_effect (Effect.called c) w)
  pub adds_repository :
      (row : Repository) (w : World)
      → R w (record w { repositories = w.repositories ++ row ∷ []; issued = suc w.issued })

module _ (R : World → World → Type 0) (frame : Frame R) (provisions : Provisions R) where
  add_repository-kept :
      (project_id owner name default_branch : String) (w : World)
      → R w (add_repository project_id owner name default_branch w).1
  unfolding add_repository
  add_repository-kept project_id owner name default_branch w =
      elim (Bool-cases (
        any (λ (r : Repository). r.project_id == project_id || r.owner == owner && r.name == name)
          w.repositories)) [
            | inl taken ↦ rw taken (frame.stay w)
            | inr fresh ↦ rw fresh (provisions.adds_repository _ w)
          ]

  provision-kept :
      (deps : RepositoryDeps) (req : CreateRepositoryRequest) (owner : String)
      (existing : Option Repository) (w : World)
      → R w (unless_existing deps req owner existing w).1
  unfolding unless_existing provision
  provision-kept deps req owner (some existing) w = frame.stay w
  provision-kept deps req owner none w =
      followed R frame _ w _ (provisions.calls_any _ w refl) (λ made u.
        followed R frame _ u _ (provisions.calls_any _ u refl) (λ _ v.
          followed R frame _ v _ (provisions.calls_any _ v refl) (λ _ x.
            followed R frame _ x _ (add_repository-kept _ _ _ _ x)
              (λ row y. record_and_publish-kept R frame deps _ _ _ _ _ _ _ y))))

  pub create_repository-kept :
      (deps : RepositoryDeps) (req : CreateRepositoryRequest) (w : World)
      → R w (create_repository deps req w).1
  unfolding create_repository
  create_repository-kept deps req w =
      let owner = or_text (or_text req.owner deps.default_owner) deps.github_default_owner in
      elim (Bool-cases (is_absent owner)) [
        | inl nobody ↦ rw nobody (frame.stay w)
        | inr somebody ↦ rw somebody (
            followed R frame _ w _ (frame.stay w)
              (λ existing u. provision-kept deps req (text owner) existing u))
      ]
