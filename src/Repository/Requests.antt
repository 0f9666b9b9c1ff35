-- ===== src/Repository/Requests.antt =====
-- services/repository/schemas/__init__.py: the requests that the managers answer. What goes only into
-- the provider's call or into a payload is left out where the call leaves it out.
use vision_virtual_intellige.Prelude.{String, Option}

pub data BranchType : Type 0 where
  protected feature fix hotfix integration : BranchType

abbrev pub value : BranchType → String
value BranchType.protected = "protected"
value BranchType.feature = "feature"
value BranchType.fix = "fix"
value BranchType.hotfix = "hotfix"
value BranchType.integration = "integration"

pub record CreateRepositoryRequest : Type 0 where
  pub project_id : String
  pub project_name : String
  pub owner : Option String
  pub visibility : String

pub record CreateBranchRequest : Type 0 where
  pub project_id : String
  pub branch_type : BranchType
  pub task_id : Option String
  pub incident_id : Option String
  pub slug : Option String
  pub base_branch : Option String

pub record CommitFilesRequest : Type 0 where
  pub project_id : String
  pub branch_name : String

pub record CreatePullRequestRequest : Type 0 where
  pub project_id : String
  pub source_branch : String
  pub target_branch : Option String
  pub title : String

pub record ApprovePullRequestRequest : Type 0 where
  pub project_id : String
  pub pull_request_id : String
  pub approved_by : String

pub record MergePullRequestRequest : Type 0 where
  pub project_id : String
  pub pull_request_id : String

pub record CreateReleaseRequest : Type 0 where
  pub project_id : String
  pub tag_name : String
  pub target_branch : Option String

pub record RollbackReleaseRequest : Type 0 where
  pub project_id : String
  pub tag_name : String
