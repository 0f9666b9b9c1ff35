-- ===== src/Repository/Store.antt =====
-- services/repository: the rows of infrastructure/database, the calls of a provider
-- (providers/base_provider.py), and the state that a manager's method reads and changes. An exception
-- leaves what was written before it. The database answers, and refuses a row that breaks a unique
-- constraint of database/models.py or a branch type that it does not list; its other constraints and
-- times are left out.
use vision_virtual_intellige.Prelude.{
  ℕ, String, Bool, Option, none, some, List, [], ◌∷◌, if◌then◌else◌,
}
use vision_virtual_intellige.Repository.Names.{Kind, Result, ok, raised}

pub data PullRequestStatus : Type 0 where
  open_ approved merged closed conflicted : PullRequestStatus

pub data BranchStatus : Type 0 where
  active merged deleted : BranchStatus

pub record Repository : Type 0 where
  pub id : String
  pub project_id : String
  pub owner : String
  pub name : String
  pub default_branch : String

pub record Branch : Type 0 where
  pub id : String
  pub repository_id : String
  pub name : String
  pub branch_type : String
  pub task_id : Option String
  pub base_branch : String
  pub head_sha : String
  pub status : BranchStatus

pub record PullRequest : Type 0 where
  pub id : String
  pub repository_id : String
  pub title : String
  pub source_branch : String
  pub target_branch : String
  pub provider_pr_number : ℕ
  pub status : PullRequestStatus
  pub merge_sha : Option String

-- An audit event, without its payload.
pub record RepositoryEvent : Type 0 where
  pub event_type : String
  pub repository_id : String
  pub project_id : String
  pub entity_type : String
  pub entity_id : String
  pub actor : String

-- A call of the provider that a method makes; a commit's message and files are left out.
pub data Call : Type 0 where
  create_repository : (owner name visibility : String) → Call
  create_branch : (owner repo branch_name base_branch : String) → Call
  delete_branch : (owner repo branch_name : String) → Call
  commit_files : (owner repo branch_name : String) → Call
  create_pull_request : (owner repo title head base : String) → Call
  merge_pull_request : (owner repo : String) → ℕ → (commit_message : String) → Call
  create_release : (owner repo tag_name target_commitish : String) → Call
  delete_release : (owner repo tag_name : String) → Call

pub record ProviderRepoResult : Type 0 where
  pub owner : String
  pub name : String
  pub default_branch : String

pub record ProviderBranchResult : Type 0 where
  pub name : String
  pub head_sha : String

-- What a call returns: a pull request its number, a merge its commit's hash.
abbrev pub Answer : Call → Type 0
Answer (create_repository owner name visibility) = ProviderRepoResult
Answer (create_branch owner repo branch_name base_branch) = ProviderBranchResult
Answer (delete_branch owner repo branch_name) = Unit
Answer (commit_files owner repo branch_name) = String
Answer (create_pull_request owner repo title head base) = ℕ
Answer (merge_pull_request owner repo number commit_message) = String
Answer (create_release owner repo tag_name target_commitish) = String
Answer (delete_release owner repo tag_name) = Unit

-- One thing done that others see: a provider's call, an audit event, a message handed to the client.
pub data Effect : Type 0 where
  called : Call → Effect
  recorded : RepositoryEvent → Effect
  published : String → Effect

-- The tables, what has been done, the latest first, and the identifiers that `uuid4` issues.
pub record World : Type 0 where
  pub repositories : List Repository
  pub branches : List Branch
  pub pull_requests : List PullRequest
  pub log : List Effect
  pub issued : ℕ
  pub uuid : ℕ → String

-- What the managers are given: the provider, whether there is a message client, the owners, and
-- `str.lower`.
pub record RepositoryDeps : Type 0 where
  pub provider : (c : Call) → Result (Answer c)
  pub nats : Bool
  pub default_owner : Option String
  pub github_default_owner : Option String
  pub lower : String → String

abbrev pub Action : Type 0 → Type 0
Action A = World → Result A × World

module _ {A : Type 0} where
  abbrev pub pure : A → Action A
  pure a w = (ok a, w)

  abbrev pub raise : Kind → Action A
  raise kind w = (raised kind, w)

  abbrev pub lift : Result A → Action A
  lift r w = (r, w)

  abbrev pub or_raise : Option A → Kind → Action A
  or_raise none kind = raise kind
  or_raise (some a) kind = pure a

  -- The body of a `try`: the exception as a value.
  abbrev pub attempt : Action A → Action (Result A)
  attempt m w = let (r, w') = m w in (ok r, w')

abbrev pub gets : {A : Type 0} → (World → A) → Action A
gets f w = (ok (f w), w)

abbrev pub modify : (World → World) → Action Unit
modify f w = (ok tt, f w)

unfoldable pub and_then : {A B : Type 0} → (A → Action B) → Result A × World → Result B × World
and_then k (ok a, w) = k a w
and_then k (raised kind, w) = (raised kind, w)

infixl 5 ◌>>=◌
abbrev pub ◌>>=◌ : {A B : Type 0} → Action A → (A → Action B) → Action B
◌>>=◌ m k w = and_then k (m w)

abbrev pub log_effect : Effect → World → World
log_effect e w = record w { log = e ∷ w.log }

abbrev pub call : RepositoryDeps → (c : Call) → Action (Answer c)
call deps c w = (deps.provider c, log_effect (called c) w)

-- The first row that a query finds; the unique constraints leave at most one.
abbrev pub find : {A : Type 0} → (A → Bool) → List A → Option A
find p [] = none
find p (x ∷ xs) = if p x then some x else find p xs

-- `update(...).where(p).values(f)`
abbrev pub update_where : {A : Type 0} → (A → Bool) → (A → A) → List A → List A
update_where p f [] = []
update_where p f (x ∷ xs) = (if p x then f x else x) ∷ update_where p f xs
