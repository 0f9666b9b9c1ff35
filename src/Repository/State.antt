-- ===== src/Repository/State.antt =====
-- services/repository/workflows/repository_graph.py: the workflow's state and the updates that its
-- nodes return. The workflow library keeps the keys that the state declares; whether it also keeps
-- `_failed_step`, which the state does not declare, is a parameter. The messages for the queues are
-- left out; a failure's reason is its exception. Any key but the project's identifier, which each node
-- reads before it calls a manager, may be absent; the task's identifier may also be there and None. The
-- value of a file's key is none where it is not a text.
use vision_virtual_intellige.Prelude.{
  ℕ, String, Bool, true, false, Option, some, List, [], ◌∷◌, or_default, Dict,
}
use vision_virtual_intellige.Repository.Names.{Kind}

pub record RepositoryState : Type 0 where
  pub project_id : String
  pub workflow_id : Option String
  pub task_id : Option (Option String)
  pub branch_type : Option String
  pub incident_id : Option String
  pub slug : Option String
  pub base_branch : Option String
  pub title : Option String
  pub files : List (Dict (Option String))
  pub commit_message : Option String
  pub create_release : Bool
  pub release_tag : Option String
  pub branch_name : Option String
  pub commit_sha : Option String
  pub pull_request_id : Option String
  pub provider_pr_number : Option ℕ
  pub merge_sha : Option String
  pub awaiting_approval : Bool
  pub approval_status : Option String
  pub approval_feedback : Option String
  pub retry_count : Option ℕ
  pub max_retries : Option ℕ
  pub phase_status : String
  pub failure_reason : Option Kind
  pub retryable : Option Bool
  pub failed_step : Option String

-- One entry of the dictionary that a node returns.
pub data Write : Type 0 where
  phase_status failed_step : String → Write
  failure_reason : Option Kind → Write
  retryable awaiting_approval : Bool → Write
  branch_name commit_sha pull_request_id : String → Write
  merge_sha : Option String → Write
  provider_pr_number retry_count : ℕ → Write

abbrev pub write : Bool → RepositoryState → Write → RepositoryState
write keeps s (Write.phase_status v) = record s { phase_status = v }
write true s (Write.failed_step v) = record s { failed_step = some v }
write false s (Write.failed_step v) = s
write keeps s (Write.failure_reason v) = record s { failure_reason = v }
write keeps s (Write.retryable v) = record s { retryable = some v }
write keeps s (Write.awaiting_approval v) = record s { awaiting_approval = v }
write keeps s (Write.branch_name v) = record s { branch_name = some v }
write keeps s (Write.commit_sha v) = record s { commit_sha = some v }
write keeps s (Write.pull_request_id v) = record s { pull_request_id = some v }
write keeps s (Write.merge_sha v) = record s { merge_sha = v }
write keeps s (Write.provider_pr_number v) = record s { provider_pr_number = some v }
write keeps s (Write.retry_count v) = record s { retry_count = some v }

-- The state after a node's update.
abbrev pub merge : Bool → RepositoryState → List Write → RepositoryState
merge keeps s [] = s
merge keeps s (w ∷ ws) = merge keeps (write keeps s w) ws

abbrev pub retries : RepositoryState → ℕ
retries s = or_default s.retry_count 0

abbrev pub limit : RepositoryState → ℕ
limit s = or_default s.max_retries 3
