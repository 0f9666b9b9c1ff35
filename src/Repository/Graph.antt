-- ===== src/Repository/Graph.antt =====
-- services/repository/workflows/repository_graph.py: the nodes over the managers, the routing after
-- each, and the declared edges. A node catches every exception, of its manager and of a key that is
-- absent. What reaches only the provider is left out with the messages for the queues: a commit's files,
-- message and metadata, once they are known to be there, and a pull request's reviewers.
use vision_virtual_intellige.Prelude.{
  is_some, or_default, String, ◌==◌, Bool, true, false, Option, none, some, List, [], ◌∷◌,
  if◌then◌else◌, ◌&&◌, any, not, Dict, lookup,
}
use vision_virtual_intellige.Repository.Names.{Kind, Result, ok, raised, is_absent, text}
use vision_virtual_intellige.Repository.Names.Kind.{invalid_request, protected_branch_violation}
use vision_virtual_intellige.Repository.Requests.{BranchType}
use vision_virtual_intellige.Repository.Store.{
  Repository, Branch, PullRequest, RepositoryDeps, Action, pure, gets, or_raise, ◌>>=◌,
}
use vision_virtual_intellige.Repository.Tables.{repository_by_project}
use vision_virtual_intellige.Repository.Managers.{
  require, create_branch, commit_files, create_pull_request, approve_pull_request,
  merge_pull_request, create_release,
}
use vision_virtual_intellige.Repository.Service.{create_repository}
use vision_virtual_intellige.Repository.State.{RepositoryState, Write}

abbrev pub is_retryable : Kind → Bool
is_retryable protected_branch_violation = false
is_retryable _ = true

-- `_ok` and `_failed`, with the step that both name; `updates` are those of what was made.
abbrev pub after : {A : Type 0} → String → (A → List Write) → Result A → List Write
after step updates (ok made) =
    Write.phase_status "running" ∷ Write.failure_reason none ∷ Write.failed_step step ∷ updates made
after step updates (raised kind) =
    Write.phase_status "failed"
    ∷ Write.failure_reason (some kind)
    ∷ Write.retryable (is_retryable kind)
    ∷ Write.failed_step step
    ∷ []

ensure_repository : RepositoryDeps → String → Option Repository → Action Unit
ensure_repository deps project_id (some repo) = pure tt
ensure_repository deps project_id none = do
  _ ← create_repository deps (record {
    project_id = project_id;
    project_name = project_id;
    owner = none;
    visibility = "private";
  })
  pure tt

-- `BranchType(value)`
abbrev parse_branch_type : String → Option BranchType
parse_branch_type value =
    if value == "protected"
    then some BranchType.protected
    else if value == "feature"
    then some BranchType.feature
    else if value == "fix"
    then some BranchType.fix
    else if value == "hotfix"
    then some BranchType.hotfix
    else if value == "integration"
    then some BranchType.integration
    else none

unfoldable pub validate : RepositoryDeps → RepositoryState → Action Unit
unfolding ensure_repository
validate deps s = do
  repo ← gets (repository_by_project s.project_id)
  ensure_repository deps s.project_id repo

unfoldable pub start_branch : RepositoryDeps → RepositoryState → Action Branch
start_branch deps s = do
  value ← or_raise s.branch_type invalid_request
  branch_type ← or_raise (parse_branch_type value) invalid_request
  create_branch deps (record {
    project_id = s.project_id;
    branch_type = branch_type;
    task_id = or_default s.task_id none;
    incident_id = s.incident_id;
    slug = s.slug;
    base_branch = s.base_branch;
  })

-- Whether `state.get("task_id", "unknown")` is a text, as CommitMetadata asks.
abbrev pub has_task : RepositoryState → Bool
has_task s = is_some (or_default s.task_id (some "unknown"))

-- `FileChange(**f)`: the path and the content are there, and they and the mode are texts.
abbrev pub is_file_change : Dict (Option String) → Bool
is_file_change f =
    is_some (or_default (lookup "path" f) none)
    && (is_some (or_default (lookup "content" f) none)
        && is_some (or_default (lookup "mode" f) (some "100644")))

-- Whether the request can be made of the state but for the branch.
abbrev pub can_commit : RepositoryState → Bool
can_commit s =
    not (any (λ f. not (is_file_change f)) s.files)
    && (is_some s.commit_message && (is_some s.workflow_id && has_task s))

unfoldable pub commit : RepositoryDeps → RepositoryState → Action String
commit deps s = do
  branch_name ← or_raise s.branch_name invalid_request
  _ ← require (can_commit s) invalid_request
  commit_files deps (record { project_id = s.project_id; branch_name = branch_name })

unfoldable pub open_pr : RepositoryDeps → RepositoryState → Action PullRequest
open_pr deps s = do
  branch_name ← or_raise s.branch_name invalid_request
  title ← or_raise s.title invalid_request
  create_pull_request deps (record {
    project_id = s.project_id;
    source_branch = branch_name;
    target_branch = none;
    title = title;
  })

-- `state.get("approval_feedback") or "manager-service"`
abbrev pub approver : RepositoryState → String
approver s = if is_absent s.approval_feedback then "manager-service" else text s.approval_feedback

unfoldable pub approve_and_merge : RepositoryDeps → RepositoryState → Action PullRequest
approve_and_merge deps s = do
  id ← or_raise s.pull_request_id invalid_request
  _ ←
      approve_pull_request deps
        (record { project_id = s.project_id; pull_request_id = id; approved_by = approver s })
  merge_pull_request deps (record { project_id = s.project_id; pull_request_id = id })

unfoldable pub release : RepositoryDeps → RepositoryState → Action String
release deps s = do
  tag ← or_raise s.release_tag invalid_request
  create_release deps (record { project_id = s.project_id; tag_name = tag; target_branch = none })
