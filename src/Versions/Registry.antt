-- ===== src/Versions/Registry.antt =====
-- services/integration/versioning/version_registry.py. The registry is its `_history`; an edge and the
-- target of a route are of any types E and R. `signature_of` stands for the SHA-256 digest of the
-- text of the workflow, the sorted nodes and the sorted route keys.
use Prim.Native.String.{◌++◌ as str_append}
use vision_virtual_intellige.Prelude.{
  ℕ, ◌+◌, String, ◌==◌, Bool, false, not, Option, none, some, List, [], ◌∷◌, ◌++◌, if◌then◌else◌,
  or_default, is_empty, last?, difference, sorted, Dict, lookup, insert, keys, decimal, parse_int,
  split_on_dot,
}

pub record VersionDiff : Type 0 where
  pub from_version : String
  pub to_version : String
  pub added_nodes : List String
  pub removed_nodes : List String
  pub is_breaking : Bool

pub record WorkflowVersionRecord (E R : Type 0) : Type 0 where
  pub workflow : String
  pub version : String
  pub signature : String
  pub nodes : List String
  pub edges : List E
  pub routes : Dict R
  pub is_breaking_from_previous : Bool
  pub diff_from_previous : Option VersionDiff
  pub notes : Option String

abbrev pub History : Type 0 → Type 0 → Type 0
History E R = List (WorkflowVersionRecord E R)

-- `f"{major}.{minor}"`
abbrev pub version_text : ℕ × ℕ → String
version_text (major, minor) = str_append (decimal major) (String.◌∷◌ "." (decimal minor))

-- The two conversions of the `try` block; (1, 0) is what its handler sets.
abbrev pub numbers_or_default : Option ℕ → Option ℕ → ℕ × ℕ
numbers_or_default none minor = (1, 0)
numbers_or_default (some major) none = (1, 0)
numbers_or_default (some major) (some minor) = (major, minor)

unfoldable pub numbers_of : List String → ℕ × ℕ
numbers_of [] = (1, 0)
numbers_of (part ∷ []) = numbers_or_default (parse_int part) (some 0)
numbers_of (part ∷ next ∷ rest) = numbers_or_default (parse_int part) (parse_int next)

unfoldable pub major_minor : String → ℕ × ℕ
unfolding numbers_of
major_minor version = numbers_of (split_on_dot version)

-- `f"{major + 1}.0"` or `f"{major}.{minor + 1}"`
abbrev pub bumped : Bool → ℕ × ℕ → ℕ × ℕ
bumped is_breaking (major, minor) = if is_breaking then (major + 1, 0) else (major, minor + 1)

-- The added and the removed nodes between two lists of nodes.
abbrev pub diff_between : String → String → List String → List String → VersionDiff
diff_between from_version to_version from_nodes to_nodes =
    let removed = sorted (difference from_nodes to_nodes) in
    record {
      from_version = from_version;
      to_version = to_version;
      added_nodes = sorted (difference to_nodes from_nodes);
      removed_nodes = removed;
      is_breaking = not (is_empty removed);
    }

module _ {E R : Type 0} where
  -- `self._history.get(workflow, [])`
  abbrev pub list_versions : Dict (History E R) → String → History E R
  list_versions registry workflow = or_default (lookup workflow registry) []

  -- The `for rec in …` loop of `get`.
  abbrev pub find_version : String → History E R → Option (WorkflowVersionRecord E R)
  find_version version [] = none
  find_version version (rec ∷ history) =
      if rec.version == version then some rec else find_version version history

  unfoldable pub get : Dict (History E R) → String → String → Option (WorkflowVersionRecord E R)
  get registry workflow version = find_version version (list_versions registry workflow)

  unfoldable pub diff_versions : Dict (History E R) → String → String → String → Option VersionDiff
  unfolding get
  diff_versions registry workflow from_version to_version =
      elim (get registry workflow from_version) [
        | none ↦ none
        | some v_from ↦ elim (get registry workflow to_version) [
          | none ↦ none
          | some v_to ↦ some (diff_between from_version to_version v_from.nodes v_to.nodes)
        ]
      ]

  -- The record that is appended, after the latest one if there is one.
  unfoldable pub next_record :
      Option (WorkflowVersionRecord E R)
      → String
      → String
      → List String
      → List E
      → Dict R
      → Option String
      → WorkflowVersionRecord E R
  next_record none workflow signature nodes edges routes notes = record {
    workflow = workflow;
    version = "1.0";
    signature = signature;
    nodes = nodes;
    edges = edges;
    routes = routes;
    is_breaking_from_previous = false;
    diff_from_previous = none;
    notes = notes;
  }
  next_record (some latest) workflow signature nodes edges routes notes =
      let is_breaking = not (is_empty (sorted (difference latest.nodes nodes))) in
      let version = version_text (bumped is_breaking (major_minor latest.version)) in
      record {
        workflow = workflow;
        version = version;
        signature = signature;
        nodes = nodes;
        edges = edges;
        routes = routes;
        is_breaking_from_previous = is_breaking;
        diff_from_previous = some (diff_between latest.version version latest.nodes nodes);
        notes = notes;
      }

  -- The registry after the call and the record that it returns. An absent history is set to the empty
  -- one first (`setdefault`).
  unfoldable pub register :
      (String → List String → List String → String)
      → Dict (History E R)
      → String
      → List String
      → List E
      → Dict R
      → Option String
      → Dict (History E R) × WorkflowVersionRecord E R
  unfolding next_record
  register signature_of registry workflow nodes edges routes notes =
      let signature = signature_of workflow (sorted nodes) (sorted (keys routes)) in
      let history = list_versions registry workflow in
      let latest = last? history in
      let rec = next_record latest workflow signature nodes edges routes notes in
      let appended : Dict (History E R) × WorkflowVersionRecord E R =
        (insert workflow (history ++ rec ∷ []) registry, rec) in
      elim latest [
        | none ↦ appended
        | some old ↦
            if old.signature == signature then (insert workflow history registry, old) else appended
      ]

-- What `register_current_version` reads of a conditional route, and of a report.
pub record RouteReport (R : Type 0) : Type 0 where
  pub source : String
  pub outcomes : R

pub record WorkflowReport (R : Type 0) : Type 0 where
  pub reachable_nodes : List String
  pub conditional_routes : List (RouteReport R)

-- `{r.source: r.outcomes for r in report.conditional_routes}`, after the entries of `routes`
abbrev pub route_outcomes : {R : Type 0} → List (RouteReport R) → Dict R → Dict R
route_outcomes [] routes = routes
route_outcomes (r ∷ rs) routes = route_outcomes rs (insert r.source r.outcomes routes)

-- `report` is the workflow's report; `none` stands for the ValueError of an unknown workflow.
unfoldable pub register_current_version :
    {E R : Type 0}
    → (String → List String → List String → String)
    → Dict (History E R)
    → String
    → Option (WorkflowReport R)
    → Option String
    → Option (Dict (History E R) × WorkflowVersionRecord E R)
unfolding register
register_current_version signature_of registry workflow none notes = none
register_current_version signature_of registry workflow (some report) notes = some (
    register signature_of registry workflow report.reachable_nodes []
      (route_outcomes report.conditional_routes []) notes)
