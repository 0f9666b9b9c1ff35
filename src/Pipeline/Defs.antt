-- ===== src/Pipeline/Defs.antt =====
-- services/integration/dependency_graph.py: the tables and the checks. The wording of a `reason` is
-- kept as its kind.
use vision_virtual_intellige.Prelude.{
  String, Bool, true, false, not, Option, none, some, List, [], ◌∷◌, ◌++◌, if◌then◌else◌, is_empty,
  contains, difference, sorted, Dict, lookup,
}

abbrev pub phase_tiers : List (List String)
phase_tiers =
    ("product" ∷ [])
    ∷ ("architecture" ∷ [])
    ∷ ("engineering" ∷ [])
    ∷ ("qa" ∷ "security" ∷ [])
    ∷ ("devops" ∷ [])
    ∷ ("monitoring" ∷ [])
    ∷ ("incident_response" ∷ [])
    ∷ []

abbrev pub department_dependencies : Dict (List String)
department_dependencies =
    ("product", [])
    ∷ ("architecture", "product" ∷ [])
    ∷ ("engineering", "architecture" ∷ [])
    ∷ ("qa", "engineering" ∷ [])
    ∷ ("security", "engineering" ∷ [])
    ∷ ("devops", "qa" ∷ "security" ∷ [])
    ∷ ("monitoring", "devops" ∷ [])
    ∷ ("incident_response", "monitoring" ∷ [])
    ∷ []

abbrev flatten_tiers : List (List String) → List String
flatten_tiers [] = []
flatten_tiers (tier ∷ tiers) = tier ++ flatten_tiers tiers

abbrev pub all_pipeline_departments : List String
all_pipeline_departments = flatten_tiers phase_tiers

pub data Reason : Type 0 where
  empty unknown_department missing_dependencies entry_phase_only skipped_transition : Reason

pub record DependencyCheckResult : Type 0 where
  pub department : String
  pub passed : Bool
  pub missing : List String
  pub reason : Reason

pub record TransitionCheckResult : Type 0 where
  pub from_department : Option String
  pub to_department : String
  pub passed : Bool
  pub reason : Reason

unfoldable pub required_dependencies_for : String → List String
required_dependencies_for department = elim (lookup department department_dependencies) [
  | none ↦ []
  | some required ↦ required
]

-- The check of a department, given its entry of the table.
unfoldable pub dependency_check :
    String → List String → Option (List String) → DependencyCheckResult
dependency_check department completed none = record {
  department = department;
  passed = false;
  missing = [];
  reason = unknown_department;
}
dependency_check department completed (some required) =
    let missing = sorted (difference required completed) in
    if not (is_empty missing)
    then record {
      department = department;
      passed = false;
      missing = missing;
      reason = missing_dependencies;
    }
    else record { department = department; passed = true; missing = []; reason = empty }

unfoldable pub validate_dependency : String → List String → DependencyCheckResult
validate_dependency department completed =
    dependency_check department completed (lookup department department_dependencies)

-- `from_department in required`: None is in no list.
abbrev is_required : Option String → List String → Bool
is_required none required = false
is_required (some d) required = contains d required

abbrev check : Option String → String → Bool → Reason → TransitionCheckResult
check from_department to_department passed reason = record {
  from_department = from_department;
  to_department = to_department;
  passed = passed;
  reason = reason;
}

unfoldable pub transition_check :
    Option String → String → Option (List String) → TransitionCheckResult
transition_check from_department to_department none =
    check from_department to_department false unknown_department
transition_check from_department to_department (some required) =
    if is_empty required
    then elim from_department [
      | some d ↦ check (some d) to_department false entry_phase_only
      | none ↦ check none to_department true empty
    ]
    else if not (is_required from_department required)
    then check from_department to_department false skipped_transition
    else check from_department to_department true empty

unfoldable pub validate_transition : Option String → String → TransitionCheckResult
validate_transition from_department to_department =
    transition_check from_department to_department (lookup to_department department_dependencies)

unfoldable pub topological_order : List String
topological_order = all_pipeline_departments

report_on : List String → List String → Dict DependencyCheckResult
report_on [] completed = []
report_on (d ∷ ds) completed = (d, validate_dependency d completed) ∷ report_on ds completed

-- The pipeline names each department once, so the comprehension's keys are distinct.
unfoldable pub full_lifecycle_report : List String → Dict DependencyCheckResult
unfolding report_on
full_lifecycle_report completed = report_on all_pipeline_departments completed
