-- ===== src/Versions/Compatible.antt =====
-- services/integration/versioning/compatibility_checker.py: when two versions are compatible.
use vision_virtual_intellige.Prelude.{
  ◌≡◌, refl, String, ◌==◌, eq_iff, true, ◌↔◌, ◌⊎◌, inl, inr, Option, none, some, List, arith,
  contains, IsSubset, difference-is_empty, Dict, Bool-cases, Option-cases,
}
use vision_virtual_intellige.Versions.{
  WorkflowVersionRecord, History, get, diff_versions, diff_between, check_checkpoint, check_diff,
  check_compatibility,
}

-- What makes a version a target for a run: its checkpoint is a node there or, for a run with no
-- checkpoint, no node is gone.
abbrev pub IsTarget : Option String → List String → List String → Type 0
IsTarget none from_nodes to_nodes = IsSubset from_nodes to_nodes
IsTarget (some node) from_nodes to_nodes = contains node to_nodes ≡ true

check_diff-IsTarget :
    (checkpoint : Option String) (from_version to_version : String)
    (from_nodes to_nodes : List String)
    → ((check_diff checkpoint from_version to_version
          (some (diff_between from_version to_version from_nodes to_nodes))
          (check_checkpoint checkpoint to_version to_nodes)).0
        ≡ true)
      ↔ IsTarget checkpoint from_nodes to_nodes
check_diff-IsTarget none from_version to_version from_nodes to_nodes =
    let subset = difference-is_empty from_nodes to_nodes in
    (λ h. subset.0 (ground arith), λ h. ground (arith, subset.1 h))
check_diff-IsTarget (some node) from_version to_version from_nodes to_nodes =
    (λ h. ground arith, λ h. ground arith)

module _ {E R : Type 0} where
  diff_versions-some :
      (registry : Dict (History E R)) (workflow from_version to_version : String)
      (rec_from rec_to : WorkflowVersionRecord E R)
      → get registry workflow from_version ≡ some rec_from
      → get registry workflow to_version ≡ some rec_to
      → diff_versions registry workflow from_version to_version
        ≡ some (diff_between from_version to_version rec_from.nodes rec_to.nodes)
  unfolding diff_versions
  diff_versions-some registry workflow from_version to_version rec_from rec_to f t =
      ground (arith, f, t)

  -- Of two versions that are registered.
  compatible_found :
      (registry : Dict (History E R)) (workflow from_version to_version : String)
      (checkpoint : Option String) (rec_from rec_to : WorkflowVersionRecord E R)
      → get registry workflow from_version ≡ some rec_from
      → get registry workflow to_version ≡ some rec_to
      → ((check_compatibility registry workflow from_version to_version checkpoint).compatible
          ≡ true)
        ↔ ((from_version ≡ to_version) ⊎ IsTarget checkpoint rec_from.nodes rec_to.nodes)
  unfolding check_compatibility
  compatible_found registry workflow from_version to_version checkpoint rec_from rec_to f t =
      let target =
        check_diff-IsTarget checkpoint from_version to_version rec_from.nodes rec_to.nodes in
      rw (f, t, diff_versions-some registry workflow from_version to_version rec_from rec_to f t)
        (elim (Bool-cases (from_version == to_version)) [
          | inl same ↦
              rw same (λ h. inl (ground (arith, eq_iff from_version to_version)), λ h. refl)
          | inr apart ↦ rw apart (
            λ h. inr (target.0 h),
            λ h. elim h [
              | inl same ↦ ground (arith, eq_iff from_version to_version)
              | inr at ↦ target.1 at
            ],
          )
        ])

  -- `check_compatibility` says compatible exactly when both versions are registered and they are
  -- the same one, or the checkpoint is a node of the target version or, when no checkpoint is given,
  -- every node of the one version is a node of the other.
  pub check_compatibility_lem :
      (registry : Dict (History E R)) (workflow from_version to_version : String)
      (checkpoint : Option String)
      → ((check_compatibility registry workflow from_version to_version checkpoint).compatible
          ≡ true)
        ↔ ((rec_from : WorkflowVersionRecord E R) × (rec_to : WorkflowVersionRecord E R) × (get
                registry workflow from_version
              ≡ some rec_from)
            × (get registry workflow to_version ≡ some rec_to)
            × ((from_version ≡ to_version) ⊎ IsTarget checkpoint rec_from.nodes rec_to.nodes))
  unfolding check_compatibility
  check_compatibility_lem registry workflow from_version to_version checkpoint = (
    λ h. elim (Option-cases (get registry workflow from_version)) [
      | inl no_from ↦ ground (arith, no_from)
      | inr (rec_from, f) ↦ elim (Option-cases (get registry workflow to_version)) [
        | inl no_to ↦ ground (arith, f, no_to)
        | inr (rec_to, t) ↦ (
          rec_from,
          rec_to,
          f,
          t,
          (compatible_found registry workflow from_version to_version checkpoint rec_from rec_to f
                t).0
              h,
        )
      ]
    ],
    λ (rec_from, rec_to, f, t, at).
        (compatible_found registry workflow from_version to_version checkpoint rec_from rec_to f
            t).1
          at,
  )
