-- ===== src/Repository/Managers.antt =====
-- services/repository/managers: the methods of AuditManager, RepositoryManager, BranchManager,
-- CommitManager, PullRequestManager and ReleaseManager that change the state.
use Prim.Native.String.{◌++◌ as str_append}
use vision_virtual_intellige.Prelude.{
  String, ◌==◌, Bool, true, false, Option, some, none, contains, if◌then◌else◌, decimal,
}
use vision_virtual_intellige.Repository.Names.{
  Kind, Result, ok, raised, protected_branches, is_absent, text, build_branch_name,
  assert_not_protected,
}
use vision_virtual_intellige.Repository.Names.Kind.{
  repository_service, permission_denied, attribute, merge_conflict, invalid_request,
}
use vision_virtual_intellige.Repository.Requests.{
  value, CreateBranchRequest, CommitFilesRequest, CreatePullRequestRequest,
  ApprovePullRequestRequest, MergePullRequestRequest, CreateReleaseRequest, RollbackReleaseRequest,
}
use vision_virtual_intellige.Repository.Store.{
  Repository, Branch, PullRequest, PullRequestStatus, RepositoryDeps, Action, Call, pure, raise,
  lift, or_raise, attempt, gets, modify, call, log_effect, ◌>>=◌,
}
use vision_virtual_intellige.Repository.Store.Effect.{published}
use vision_virtual_intellige.Repository.Tables.{
  repository_by_id, repository_by_project, add_branch, branch_by_name, update_head,
  mark_branch_merged, mark_branch_deleted, add_pull_request, pull_request_by_id, mark_approved,
  mark_merged, mark_conflicted, record_event,
}

-- `a or b`, for texts that may be absent
abbrev pub or_text : Option String → Option String → Option String
or_text a b = if is_absent a then b else a

abbrev pub publish : Bool → String → Action Unit
publish true event_type = modify (log_effect (published event_type))
publish false event_type = pure tt

abbrev pub bot : String
bot = "VISION Bot"

-- A message that cannot be published is logged and dropped.
abbrev pub record_and_publish :
    RepositoryDeps
    → (event_type repository_id project_id entity_type entity_id actor : String) → Action Unit
record_and_publish deps event_type repository_id project_id entity_type entity_id actor = do
  _ ← record_event (record {
    event_type = event_type;
    repository_id = repository_id;
    project_id = project_id;
    entity_type = entity_type;
    entity_id = entity_id;
    actor = actor;
  })
  publish deps.nats event_type

-- `_get_repository_row`
abbrev pub get_repository_row : String → Action Repository
get_repository_row project_id = do
  repo ← gets (repository_by_project project_id)
  or_raise repo repository_service

-- The base of a branch when the request names none.
abbrev pub default_base : String → Repository → String
default_base branch_type repo = if branch_type == "hotfix" then repo.default_branch else "develop"

unfoldable pub create_branch : RepositoryDeps → CreateBranchRequest → Action Branch
create_branch deps req = do
  repo ← get_repository_row req.project_id
  branch_name ←
      lift (build_branch_name (value req.branch_type) req.task_id req.incident_id req.slug)
  _ ← lift (assert_not_protected branch_name)
  let base = text (or_text req.base_branch (some (default_base (value req.branch_type) repo)))
  result ← call deps (Call.create_branch repo.owner repo.name branch_name base)
  row ←
      add_branch repo.id result.name (value req.branch_type) (or_text req.task_id req.incident_id)
        base result.head_sha
  _ ← record_and_publish deps "repository.branch.created" repo.id req.project_id "branch" row.id bot
  pure row

-- The row of a deleted branch, if it has one.
abbrev pub forget : Option Branch → Action Unit
forget none = pure tt
forget (some row) = mark_branch_deleted row.id

unfoldable pub delete_branch : RepositoryDeps → String → String → Action Unit
delete_branch deps project_id branch_name = do
  _ ← lift (assert_not_protected branch_name)
  repo ← get_repository_row project_id
  _ ← call deps (Call.delete_branch repo.owner repo.name branch_name)
  row ← gets (branch_by_name repo.id branch_name)
  forget row

unfoldable pub commit_files : RepositoryDeps → CommitFilesRequest → Action String
commit_files deps req = do
  _ ← lift (assert_not_protected req.branch_name)
  repo ← get_repository_row req.project_id
  found ← gets (branch_by_name repo.id req.branch_name)
  branch ← or_raise found repository_service
  sha ← call deps (Call.commit_files repo.owner repo.name req.branch_name)
  _ ← update_head branch.id sha
  _ ← record_and_publish deps "repository.commit.created" repo.id req.project_id "commit" sha bot
  pure sha

unfoldable pub create_pull_request : RepositoryDeps → CreatePullRequestRequest → Action PullRequest
create_pull_request deps req = do
  repo ← get_repository_row req.project_id
  let target = text (or_text req.target_branch (some "develop"))
  number ←
      call deps (Call.create_pull_request repo.owner repo.name req.title req.source_branch target)
  row ← add_pull_request repo.id req.title req.source_branch target number
  _ ←
      record_and_publish deps "repository.pr.created" repo.id req.project_id "pull_request" row.id
        bot
  pure row

abbrev pub is_open : PullRequestStatus → Bool
is_open PullRequestStatus.open_ = true
is_open _ = false

abbrev pub is_approved : PullRequestStatus → Bool
is_approved PullRequestStatus.approved = true
is_approved _ = false

-- `if not condition: raise`
abbrev pub require : Bool → Kind → Action Unit
require true kind = pure tt
require false kind = raise kind

unfoldable pub approve_pull_request :
    RepositoryDeps → ApprovePullRequestRequest → Action PullRequest
approve_pull_request deps req = do
  found ← gets (pull_request_by_id req.pull_request_id)
  pr ← or_raise found repository_service
  _ ← require (is_open pr.status) repository_service
  _ ← mark_approved pr.id
  updated ← gets (pull_request_by_id pr.id)
  _ ←
      record_and_publish deps "repository.pr.approved" pr.repository_id req.project_id
        "pull_request" pr.id req.approved_by
  or_raise updated invalid_request

-- The housekeeping after a merge.
unfoldable pub retire_source : Option Branch → String → Action Unit
retire_source none source_branch = pure tt
retire_source (some row) source_branch =
    if contains source_branch protected_branches then pure tt else mark_branch_merged row.id

-- What follows the provider's answer to a merge.
unfoldable pub settle :
    RepositoryDeps → String → PullRequest → Repository → Result String → Action PullRequest
unfolding retire_source
settle deps project_id pr repo (ok merge_sha) = do
  _ ← mark_merged pr.id merge_sha
  updated ← gets (pull_request_by_id pr.id)
  branch_row ← gets (branch_by_name repo.id pr.source_branch)
  _ ← retire_source branch_row pr.source_branch
  _ ←
      record_and_publish deps "repository.pr.merged" pr.repository_id project_id "pull_request"
        pr.id bot
  or_raise updated invalid_request
settle deps project_id pr repo (raised merge_conflict) = do
  _ ← mark_conflicted pr.id
  _ ←
      record_and_publish deps "pr.merge_conflict" pr.repository_id project_id "pull_request" pr.id
        bot
  raise merge_conflict
settle deps project_id pr repo (raised kind) = raise kind

unfoldable pub merge_pull_request : RepositoryDeps → MergePullRequestRequest → Action PullRequest
unfolding settle
merge_pull_request deps req = do
  found ← gets (pull_request_by_id req.pull_request_id)
  pr ← or_raise found repository_service
  _ ← require (is_approved pr.status) permission_denied
  row ← gets (repository_by_id pr.repository_id)
  repo ← or_raise row attribute
  answer ← attempt (
      call deps (
        Call.merge_pull_request repo.owner repo.name pr.provider_pr_number (
          str_append pr.title (str_append " (#" (str_append (decimal pr.provider_pr_number) ")")))))
  settle deps req.project_id pr repo answer

unfoldable pub create_release : RepositoryDeps → CreateReleaseRequest → Action String
create_release deps req = do
  repo ← get_repository_row req.project_id
  let target = text (or_text req.target_branch (some repo.default_branch))
  tag_name ← call deps (Call.create_release repo.owner repo.name req.tag_name target)
  _ ←
      record_and_publish deps "repository.release.created" repo.id req.project_id "release"
        req.tag_name bot
  pure tag_name

unfoldable pub rollback_release : RepositoryDeps → RollbackReleaseRequest → Action Unit
rollback_release deps req = do
  repo ← get_repository_row req.project_id
  _ ← call deps (Call.delete_release repo.owner repo.name req.tag_name)
  record_and_publish deps "repository.release.rollback" repo.id req.project_id "release"
      req.tag_name bot
