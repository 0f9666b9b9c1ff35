-- ===== src/Repository/Tables.antt =====
-- infrastructure/database/repositories/__init__.py: the classes RepositoryRepository,
-- BranchRepository, PullRequestRepository and RepositoryEventRepository.
use vision_virtual_intellige.Prelude.{
  not, List, contains, suc, String, ◌==◌, Bool, ◌&&◌, ◌||◌, Option, some, none, [], ◌∷◌, ◌++◌, any,
  ℕ, if◌then◌else◌,
}
use vision_virtual_intellige.Repository.Names.{integrity}
use vision_virtual_intellige.Repository.Store.{
  Repository, Branch, BranchStatus, PullRequest, PullRequestStatus, World, Action, RepositoryEvent,
  pure, raise, modify, find, update_where, log_effect,
}
use vision_virtual_intellige.Repository.Store.BranchStatus.{active}
use vision_virtual_intellige.Repository.Store.Effect.{recorded}

-- `_uuid()`
abbrev pub next_id : World → String
next_id w = w.uuid w.issued

abbrev clashing_repository : Repository → Repository → Bool
clashing_repository row r =
    r.project_id == row.project_id || r.owner == row.owner && r.name == row.name

abbrev clashing_branch : Branch → Branch → Bool
clashing_branch row b = b.repository_id == row.repository_id && b.name == row.name

unfoldable pub add_repository : (project_id owner name default_branch : String) → Action Repository
add_repository project_id owner name default_branch w =
    if any (clashing_repository row) w.repositories
    then raise integrity w
    else pure row (record w { repositories = w.repositories ++ row ∷ []; issued = suc w.issued })
  where
    row : Repository
    row = record {
      id = next_id w;
      project_id = project_id;
      owner = owner;
      name = name;
      default_branch = default_branch;
    }

abbrev pub repository_by_id : String → World → Option Repository
repository_by_id id w = find (λ r. r.id == id) w.repositories

abbrev pub repository_by_project : String → World → Option Repository
repository_by_project project_id w = find (λ r. r.project_id == project_id) w.repositories

-- `ck_branches_type`
abbrev pub branch_types : List String
branch_types = "protected" ∷ "feature" ∷ "fix" ∷ "hotfix" ∷ []

unfoldable pub add_branch :
    (repository_id name branch_type : String)
    → Option String
    → (base_branch head_sha : String) → Action Branch
add_branch repository_id name branch_type task_id base_branch head_sha w =
    if not (contains branch_type branch_types) || any (clashing_branch row) w.branches
    then raise integrity w
    else pure row (record w { branches = w.branches ++ row ∷ []; issued = suc w.issued })
  where
    row : Branch
    row = record {
      id = next_id w;
      repository_id = repository_id;
      name = name;
      branch_type = branch_type;
      task_id = task_id;
      base_branch = base_branch;
      head_sha = head_sha;
      status = active;
    }

abbrev pub branch_by_name : String → String → World → Option Branch
branch_by_name repository_id name w =
    find (λ b. b.repository_id == repository_id && b.name == name) w.branches

abbrev set_branch : String → (Branch → Branch) → Action Unit
set_branch id f = modify (λ w. record w { branches = update_where (λ b. b.id == id) f w.branches })

abbrev pub update_head : String → String → Action Unit
update_head id sha = set_branch id (λ b. record b { head_sha = sha })

abbrev pub mark_branch_merged : String → Action Unit
mark_branch_merged id = set_branch id (λ b. record b { status = BranchStatus.merged })

abbrev pub mark_branch_deleted : String → Action Unit
mark_branch_deleted id = set_branch id (λ b. record b { status = BranchStatus.deleted })

unfoldable pub add_pull_request :
    (repository_id title source_branch target_branch : String) → ℕ → Action PullRequest
add_pull_request repository_id title source_branch target_branch number w =
    pure row (record w { pull_requests = w.pull_requests ++ row ∷ []; issued = suc w.issued })
  where
    row : PullRequest
    row = record {
      id = next_id w;
      repository_id = repository_id;
      title = title;
      source_branch = source_branch;
      target_branch = target_branch;
      provider_pr_number = number;
      status = PullRequestStatus.open_;
      merge_sha = none;
    }

abbrev pub has_id : String → PullRequest → Bool
has_id id pr = pr.id == id

abbrev pub pull_request_by_id : String → World → Option PullRequest
pull_request_by_id id w = find (has_id id) w.pull_requests

abbrev pub with_status : PullRequestStatus → PullRequest → PullRequest
with_status status pr = record pr { status = status }

abbrev pub with_merge : String → PullRequest → PullRequest
with_merge sha pr = record pr { status = PullRequestStatus.merged; merge_sha = some sha }

-- The table after an update of the rows with an identifier.
abbrev pub set_pull_requests : String → (PullRequest → PullRequest) → World → World
set_pull_requests id f w = record w { pull_requests = update_where (has_id id) f w.pull_requests }

abbrev pub mark_approved : String → Action Unit
mark_approved id = modify (set_pull_requests id (with_status PullRequestStatus.approved))

abbrev pub mark_merged : String → String → Action Unit
mark_merged id sha = modify (set_pull_requests id (with_merge sha))

abbrev pub mark_conflicted : String → Action Unit
mark_conflicted id = modify (set_pull_requests id (with_status PullRequestStatus.conflicted))

-- `RepositoryEventRepository.record`
abbrev pub record_event : RepositoryEvent → Action Unit
record_event e = modify (log_effect (recorded e))
