-- ===== src/Versions/Compatibility.antt =====
-- services/integration/versioning/compatibility_checker.py. A reason is a constructor with what its
-- text names.
use vision_virtual_intellige.Prelude.{
  String, ◌==◌, Bool, true, false, not, Option, none, some, List, [], ◌∷◌, ◌++◌, if◌then◌else◌,
  contains, Dict,
}
use vision_virtual_intellige.Versions.Registry.{
  VersionDiff, WorkflowVersionRecord, History, get, diff_versions,
}

pub data Reason : Type 0 where
  versions_not_found : List String → Reason
  identical_versions : Reason
  checkpoint_absent checkpoint_preserved : String → String → Reason
  breaking_change : String → String → List String → Reason

pub record CompatibilityResult : Type 0 where
  pub workflow : String
  pub from_version : String
  pub to_version : String
  pub compatible : Bool
  pub checkpoint_node : Option String
  pub reasons : List Reason

-- `[version]` where the record is None
abbrev missing_version : {A : Type 0} → String → Option A → List String
missing_version version none = version ∷ []
missing_version version (some rec) = []

-- What the checkpoint says of the target's nodes: `compatible` and the reasons.
abbrev pub check_checkpoint : Option String → String → List String → Bool × List Reason
check_checkpoint none to_version nodes = (true, [])
check_checkpoint (some node) to_version nodes =
    if not (contains node nodes)
    then (false, Reason.checkpoint_absent node to_version ∷ [])
    else (true, Reason.checkpoint_preserved node to_version ∷ [])

-- `if diff and diff.is_breaking`, on `compatible` and the reasons.
abbrev pub check_diff :
    Option String → String → String → Option VersionDiff → Bool × List Reason → Bool × List Reason
check_diff checkpoint from_version to_version none (compatible, reasons) = (compatible, reasons)
check_diff checkpoint from_version to_version (some diff) (compatible, reasons) =
    if diff.is_breaking
    then (
      elim checkpoint [ none ↦ false | some node ↦ compatible ],
      reasons ++ Reason.breaking_change from_version to_version diff.removed_nodes ∷ [],
    )
    else (compatible, reasons)

-- `compatible` and `reasons` of the result, given the two records.
abbrev pub compare_records :
    {E R : Type 0}
    → Dict (History E R)
    → String
    → String
    → String
    → Option String
    → Option (WorkflowVersionRecord E R)
    → Option (WorkflowVersionRecord E R)
    → Bool × List Reason
compare_records registry workflow from_version to_version checkpoint none rec_to =
    (false, Reason.versions_not_found (from_version ∷ missing_version to_version rec_to) ∷ [])
compare_records registry workflow from_version to_version checkpoint (some rec_from) none =
    (false, Reason.versions_not_found (to_version ∷ []) ∷ [])
compare_records registry workflow from_version to_version checkpoint (some rec_from) (some rec_to) =
    if from_version == to_version
    then (true, Reason.identical_versions ∷ [])
    else check_diff checkpoint from_version to_version
        (diff_versions registry workflow from_version to_version)
        (check_checkpoint checkpoint to_version rec_to.nodes)

unfoldable pub check_compatibility :
    {E R : Type 0}
    → Dict (History E R)
    → String
    → String
    → String
    → Option String
    → CompatibilityResult
check_compatibility registry workflow from_version to_version checkpoint_node =
    let (compatible, reasons) =
      compare_records registry workflow from_version to_version checkpoint_node
        (get registry workflow from_version) (get registry workflow to_version) in
    record {
      workflow = workflow;
      from_version = from_version;
      to_version = to_version;
      compatible = compatible;
      checkpoint_node = checkpoint_node;
      reasons = reasons;
    }
