-- ===== src/Repository/Names.antt =====
-- services/repository/managers/__init__.py: the naming policy of branches, over the errors of
-- schemas/__init__.py. A regular expression is the automaton that it denotes; `$` also matches
-- before a last newline.
use Prim.Native.String.{◌++◌ as str_append}
use vision_virtual_intellige.Prelude.{
  ℕ, String, ◌==◌, Bool, true, false, ◌&&◌, ◌||◌, Option, none, some, List, [], ◌∷◌, foldl,
  if◌then◌else◌, nat_eq, leb, codes, contains,
}

-- The exceptions that a manager's caller may see. The last three are the database's refusal of a row
-- that breaks a constraint, a request or a state without a value that it needs, and the
-- attribute of a row that is not there. Their messages are left out: an exception stands for its text.
pub data Kind : Type 0 where
  repository_service provider_unavailable invalid_branch_name protected_branch_violation : Kind
  merge_conflict duplicate_tag permission_denied integrity invalid_request attribute : Kind

pub data Result (A : Type 0) : Type 0 where
  ok : A → Result A
  raised : Kind → Result A

infixl 5 ◌>>=◌
abbrev pub ◌>>=◌ : {A B : Type 0} → Result A → (A → Result B) → Result B
ok a >>= f = f a
raised e >>= f = raised e

abbrev pub protected_branches : List String
protected_branches = "main" ∷ "develop" ∷ []

-- How far a segment pattern has matched: nothing yet, after a hyphen, inside, after a last newline,
-- or not at all.
pub data Scan : Type 0 where
  start inside newline stuck : Scan

abbrev is_between : ℕ → ℕ → ℕ → Bool
is_between low high c = leb low c && leb c high

abbrev pub slug_char : ℕ → Bool
slug_char c = is_between 97 122 c || is_between 48 57 c

abbrev pub scan_slug : Scan → ℕ → Scan
scan_slug start c = if slug_char c then inside else stuck
scan_slug inside c =
    if slug_char c
    then inside
    else if nat_eq c 45
    then start
    else if nat_eq c 10
    then newline
    else stuck
scan_slug newline c = stuck
scan_slug stuck c = stuck

abbrev task_char : ℕ → Bool
task_char c =
    is_between 65 90 c
    || is_between 97 122 c
    || is_between 48 57 c
    || nat_eq c 95
    || nat_eq c 46
    || nat_eq c 45

abbrev pub scan_task : Scan → ℕ → Scan
scan_task start c = if task_char c then inside else stuck
scan_task inside c = if task_char c then inside else if nat_eq c 10 then newline else stuck
scan_task newline c = stuck
scan_task stuck c = stuck

abbrev pub accepted : Scan → Bool
accepted inside = true
accepted newline = true
accepted _ = false

-- `_SLUG_RE.match(slug)` and `_TASK_ID_RE.match(task_id)`; neither matches the empty text.
unfoldable pub matches_slug : String → Bool
matches_slug slug = accepted (foldl scan_slug start (codes slug))

unfoldable pub matches_task_id : String → Bool
matches_task_id task_id = accepted (foldl scan_task start (codes task_id))

unfoldable pub validate_slug : String → Result Unit
unfolding matches_slug
validate_slug slug = if matches_slug slug then ok tt else raised invalid_branch_name

unfoldable pub validate_task_id : String → Result Unit
unfolding matches_task_id
validate_task_id task_id = if matches_task_id task_id then ok tt else raised invalid_branch_name

-- `not x`, for an optional text
abbrev pub is_absent : Option String → Bool
is_absent none = true
is_absent (some x) = x == ""

abbrev pub text : Option String → String
text none = ""
text (some x) = x

-- `f"{branch_type}/{rest}"`
abbrev pub under : String → String → String
under branch_type rest = str_append branch_type (str_append "/" rest)

unfoldable pub task_branch : String → Option String → Option String → Result String
unfolding validate_slug validate_task_id
task_branch branch_type task_id slug =
    if is_absent task_id || is_absent slug then raised invalid_branch_name else do
      _ ← validate_task_id (text task_id)
      _ ← validate_slug (text slug)
      ok (under branch_type (str_append (text task_id) (str_append "-" (text slug))))

unfoldable pub hotfix_branch : Option String → Result String
unfolding validate_task_id
hotfix_branch incident_id =
    if is_absent incident_id
    then raised invalid_branch_name
    else do _ ← validate_task_id (text incident_id); ok (under "hotfix" (text incident_id))

unfoldable pub integration_branch : Option String → Result String
unfolding validate_slug
integration_branch slug =
    if is_absent slug
    then raised invalid_branch_name
    else do _ ← validate_slug (text slug); ok (under "integration" (text slug))

unfoldable pub build_branch_name :
    String → Option String → Option String → Option String → Result String
unfolding task_branch hotfix_branch integration_branch
build_branch_name branch_type task_id incident_id slug =
    if branch_type == "feature" || branch_type == "fix"
    then task_branch branch_type task_id slug
    else if branch_type == "hotfix"
    then hotfix_branch incident_id
    else if branch_type == "integration"
    then integration_branch slug
    else raised invalid_branch_name

unfoldable pub assert_not_protected : String → Result Unit
assert_not_protected branch_name =
    if contains branch_name protected_branches then raised protected_branch_violation else ok tt
