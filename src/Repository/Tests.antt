-- ===== src/Repository/Tests.antt =====
-- services/repository: one project with a pull request, and a provider that answers everything.
use vision_virtual_intellige.Prelude.{
  ◌+◌, ◌-◌, ◌*◌, ◌≤◌, ◌≡◌, refl, String, true, false, Option, none, some, List, [], ◌∷◌, arith,
  decimal,
}
use Prim.Native.String.{◌++◌ as str_append}
use vision_virtual_intellige.Repository.Names.{
  Result, ok, raised, Kind, build_branch_name, validate_slug,
}
use vision_virtual_intellige.Repository.Slug.{slugify, validate_slug-slugify}
use vision_virtual_intellige.Repository.Store.{
  World, Call, Answer, Repository, PullRequest, PullRequestStatus, RepositoryDeps, and_then,
}
use vision_virtual_intellige.Repository.Tables.{
  pull_request_by_id, add_repository, add_pull_request,
}
use vision_virtual_intellige.Repository.Managers.{
  create_branch, create_pull_request, approve_pull_request, merge_pull_request, settle,
  retire_source,
}
use vision_virtual_intellige.Repository.Service.{
  create_repository, unless_existing, provision, Method, step, Run,
}
use vision_virtual_intellige.Repository.Requests.{BranchType, CreateBranchRequest}
use vision_virtual_intellige.Repository.Integration.{create_branch-integration}
use vision_virtual_intellige.Repository.Guarded.{protected_writes, step-protected_writes}
use vision_virtual_intellige.Repository.Moves.{Moves}
use vision_virtual_intellige.Repository.Moving.{step-Moves}
use vision_virtual_intellige.Repository.Gate.{IsGated}
use vision_virtual_intellige.Repository.Gated.{Run-IsGated}
use vision_virtual_intellige.Repository.State.{RepositoryState, Write, retries, limit}
use vision_virtual_intellige.Repository.Graph.{validate}
use vision_virtual_intellige.Repository.Workflow.{
  route_after_action, Node, run_node, route, stepped, Walk,
}
use vision_virtual_intellige.Repository.Bounded.{Walk-limited}
use vision_virtual_intellige.Repository.Retried.{merge_node-repeated, commit_node-protected}

abbrev answers : (c : Call) → Result (Answer c)
answers (Call.create_repository owner name visibility) =
    ok (record { owner = owner; name = name; default_branch = "main" })
answers (Call.create_branch owner repo name base) = ok (record { name = name; head_sha = "sha0" })
answers (Call.delete_branch owner repo name) = ok tt
answers (Call.commit_files owner repo name) = ok "sha1"
answers (Call.create_pull_request owner repo title head base) = ok 7
answers (Call.merge_pull_request owner repo number message) = ok "sha2"
answers (Call.create_release owner repo tag target) = ok tag
answers (Call.delete_release owner repo tag) = ok tt

abbrev deps : RepositoryDeps
deps = record {
  provider = answers;
  nats = true;
  default_owner = none;
  github_default_owner = some "vision";
  lower = λ s. s;
}

abbrev empty : World
empty = record {
  repositories = [];
  branches = [];
  pull_requests = [];
  log = [];
  issued = 0;
  uuid = λ n. str_append "id" (decimal n);
}

abbrev repo : Repository
repo = record { id = "r"; project_id = "p"; owner = "vision"; name = "p"; default_branch = "main" }

abbrev pr : PullRequest
pr = record {
  id = "pr";
  repository_id = "r";
  title = "t";
  source_branch = "feature/T1-a";
  target_branch = "develop";
  provider_pr_number = 7;
  status = PullRequestStatus.open_;
  merge_sha = none;
}

abbrev opened : World
opened = record {
  repositories = repo ∷ [];
  branches = [];
  pull_requests = pr ∷ [];
  log = [];
  issued = 0;
  uuid = λ n. str_append "id" (decimal n);
}

abbrev state : Option String → RepositoryState
state branch_name = record {
  project_id = "p";
  workflow_id = some "w";
  task_id = some (some "T1");
  branch_type = some "feature";
  incident_id = none;
  slug = some "a";
  base_branch = none;
  title = some "t";
  files = (("path", some "a.txt") ∷ ("content", some "a") ∷ []) ∷ [];
  commit_message = some "m";
  create_release = false;
  release_tag = none;
  branch_name = branch_name;
  commit_sha = none;
  pull_request_id = some "pr";
  provider_pr_number = none;
  merge_sha = none;
  awaiting_approval = false;
  approval_status = none;
  approval_feedback = none;
  retry_count = none;
  max_retries = none;
  phase_status = "pending";
  failure_reason = none;
  retryable = none;
  failed_step = none;
}

abbrev statuses : List PullRequest → List PullRequestStatus
statuses [] = []
statuses (p ∷ ps) = p.status ∷ statuses ps

not_merged_unless_approved :
    (merge_pull_request deps (record { project_id = "p"; pull_request_id = "pr" }) opened).0
    ≡ raised Kind.permission_denied
unfolding merge_pull_request and_then
not_merged_unless_approved = refl

a_slug : slugify (λ s. s) "--my  repo_1-" ≡ "my-repo-1"
unfolding slugify
a_slug = refl

named : build_branch_name "feature" (some "T.1") none (some "a-b") ≡ ok "feature/T.1-a-b"
unfolding build_branch_name
named = refl

a_last_newline : validate_slug "a-b\n" ≡ ok tt
unfolding validate_slug
a_last_newline = refl

abbrev provisioning : Method
provisioning =
    Method.creates_repository
      (record { project_id = "p"; project_name = "P1"; owner = none; visibility = "private" })

abbrev opening : Method
opening =
    Method.creates_pull_request
      (record { project_id = "p"; source_branch = "feature/a"; target_branch = none; title = "t" })

abbrev approves : String → Method
approves id =
    Method.approves_pull_request
      (record { project_id = "p"; pull_request_id = id; approved_by = "lead" })

abbrev merges : String → Method
merges id = Method.merges_pull_request (record { project_id = "p"; pull_request_id = id })

abbrev with_pr : World
with_pr = step deps opening (step deps provisioning empty)

abbrev merged : World
merged = step deps (merges "id1") (step deps (approves "id1") with_pr)

merged_at_last : statuses merged.pull_requests ≡ PullRequestStatus.merged ∷ []
unfolding step create_repository unless_existing provision add_repository slugify
    create_pull_request add_pull_request approve_pull_request merge_pull_request settle
    retire_source and_then decimal
merged_at_last = refl

Run-IsGated_example : IsGated merged.repositories merged.pull_requests merged.log
Run-IsGated_example = Run-IsGated {w = empty} refl refl (
    Run.next deps (merges "id1") (
      Run.next deps (approves "id1") (Run.next deps opening (Run.next deps provisioning Run.here))))

step-Moves_example :
    (pr' : PullRequest) × (pull_request_by_id "pr" (step deps (approves "pr") opened) ≡ some pr')
    × Moves pr pr'
step-Moves_example = step-Moves deps (approves "pr") opened "pr" pr refl

step-protected_writes_example :
    protected_writes (step deps (merges "pr") opened).log ≡ protected_writes []
step-protected_writes_example = step-protected_writes deps (merges "pr") opened refl

starts :
    route Node.validate_node (stepped true deps Node.validate_node (state none) opened)
    ≡ some Node.create_branch_node
unfolding run_node validate route route_after_action and_then
starts = refl

Walk-limited_example :
    (1 ≤ 10 * (limit (state none) - retries (state none)) + 8)
    × (retries (stepped true deps Node.validate_node (state none) opened) ≤ limit (state none))
Walk-limited_example =
    Walk-limited {keeps = true} {s = state none} {w = opened} (omega arith)
      (Walk.step deps Node.create_branch_node Walk.here starts)

abbrev merged_once : World
merged_once = (run_node deps Node.merge_node (state none) opened).1

-- Another approval and another merge are tried in between.
abbrev tried_again : World
tried_again = step deps (merges "pr") (step deps (approves "pr") merged_once)

merge_node-repeated_example : run_node deps Node.merge_node (state none) tried_again ≡ (
  Write.phase_status "failed"
      ∷ Write.failure_reason (some Kind.repository_service)
      ∷ Write.retryable true
      ∷ Write.failed_step "merge"
      ∷ [],
  tried_again,
)
merge_node-repeated_example =
    merge_node-repeated deps deps (state none) (state none) opened tried_again "pr" pr refl refl
      refl (Run.next deps (merges "pr") (Run.next deps (approves "pr") Run.here))

commit_node-protected_example :
    ((run_node deps Node.commit_node (state (some "main")) opened).1 ≡ opened)
    × (route Node.commit_node (stepped true deps Node.commit_node (state (some "main")) opened)
        ≡ some Node.dead_letter_node)
commit_node-protected_example =
    commit_node-protected true deps (state (some "main")) opened "main" refl refl refl

validate_slug-slugify_example : validate_slug (slugify (λ s. s) "My Repo!") ≡ ok tt
validate_slug-slugify_example = validate_slug-slugify (λ s. s) "My Repo!"

abbrev payments_branch : CreateBranchRequest
payments_branch = record {
  project_id = "p";
  branch_type = BranchType.integration;
  task_id = none;
  incident_id = none;
  slug = some "payments";
  base_branch = none;
}

create_branch-integration_example :
    (kind : Kind) × ((create_branch deps payments_branch opened).0 ≡ raised kind)
    × ((create_branch deps payments_branch opened).1.branches ≡ [])
create_branch-integration_example = create_branch-integration deps payments_branch opened refl
