-- ===== src/Repository/Service.antt =====
-- services/repository: RepositoryManager.create_repository, and the manager's methods that change the
-- state as one step, with the runs that they make.
use vision_virtual_intellige.Prelude.{String, Option, some, none, if◌then◌else◌}
use vision_virtual_intellige.Repository.Names.{repository_service, is_absent, text}
use vision_virtual_intellige.Repository.Slug.{slugify}
use vision_virtual_intellige.Repository.Requests.{
  CreateRepositoryRequest, CreateBranchRequest, CommitFilesRequest, CreatePullRequestRequest,
  ApprovePullRequestRequest, MergePullRequestRequest, CreateReleaseRequest, RollbackReleaseRequest,
}
use vision_virtual_intellige.Repository.Store.{
  Repository, World, RepositoryDeps, Action, Call, pure, raise, gets, call, ◌>>=◌,
}
use vision_virtual_intellige.Repository.Tables.{add_repository, repository_by_project}
use vision_virtual_intellige.Repository.Managers.{
  or_text, bot, record_and_publish, create_branch, delete_branch, commit_files, create_pull_request,
  approve_pull_request, merge_pull_request, create_release, rollback_release,
}

-- The calls and rows of a project that has no repository yet.
unfoldable pub provision : RepositoryDeps → CreateRepositoryRequest → String → Action Repository
unfolding add_repository slugify
provision deps req owner = do
  made ←
      call deps (Call.create_repository owner (slugify deps.lower req.project_name) req.visibility)
  _ ← call deps (Call.create_branch made.owner made.name "develop" made.default_branch)
  _ ← call deps (Call.commit_files made.owner made.name "develop")
  row ← add_repository req.project_id made.owner made.name made.default_branch
  _ ← record_and_publish deps "repository.created" row.id req.project_id "repository" row.id bot
  pure row

unfoldable pub unless_existing :
    RepositoryDeps → CreateRepositoryRequest → String → Option Repository → Action Repository
unfolding provision
unless_existing deps req owner (some existing) = pure existing
unless_existing deps req owner none = provision deps req owner

unfoldable pub create_repository : RepositoryDeps → CreateRepositoryRequest → Action Repository
unfolding unless_existing
create_repository deps req = if is_absent owner then raise repository_service else do
  existing ← gets (repository_by_project req.project_id)
  unless_existing deps req (text owner) existing
  where
    owner : Option String
    owner = or_text (or_text req.owner deps.default_owner) deps.github_default_owner

-- One method with its request.
pub data Method : Type 0 where
  creates_repository : CreateRepositoryRequest → Method
  creates_branch : CreateBranchRequest → Method
  deletes_branch : (project_id branch_name : String) → Method
  commits_files : CommitFilesRequest → Method
  creates_pull_request : CreatePullRequestRequest → Method
  approves_pull_request : ApprovePullRequestRequest → Method
  merges_pull_request : MergePullRequestRequest → Method
  creates_release : CreateReleaseRequest → Method
  rolls_back_release : RollbackReleaseRequest → Method

-- The state after a method, whether it returned or raised.
unfoldable pub step : RepositoryDeps → Method → World → World
unfolding create_repository create_branch delete_branch commit_files create_pull_request
    approve_pull_request merge_pull_request create_release rollback_release
step deps (Method.creates_repository req) w = (create_repository deps req w).1
step deps (Method.creates_branch req) w = (create_branch deps req w).1
step deps (Method.deletes_branch project_id name) w = (delete_branch deps project_id name w).1
step deps (Method.commits_files req) w = (commit_files deps req w).1
step deps (Method.creates_pull_request req) w = (create_pull_request deps req w).1
step deps (Method.approves_pull_request req) w = (approve_pull_request deps req w).1
step deps (Method.merges_pull_request req) w = (merge_pull_request deps req w).1
step deps (Method.creates_release req) w = (create_release deps req w).1
step deps (Method.rolls_back_release req) w = (rollback_release deps req w).1

-- What the methods make of a state, each with a provider's answers of its own.
pub data Run (w : World) : World → Type 0 where
  here : Run w w
  next :
      {u : World} (deps : RepositoryDeps) (method : Method) → Run w u → Run w (step deps method u)
