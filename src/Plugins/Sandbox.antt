-- ===== src/Plugins/Sandbox.antt =====
-- services/integration/plugin_sdk/sandbox/sandbox_policy.py (and `Permission` of plugin_models.py, the
-- policy of sandbox_models.py): the permissions that a plugin gets. `normalize` stands for
-- `raw.strip().lower()`, and the limits, which this module only passes on, are a type `L`.
use vision_virtual_intellige.Prelude.{
  ℕ, String, Bool, Option, none, some, List, [], ◌∷◌, ◌++◌, nat_eq, or_default, if◌then◌else◌,
  keep_if, any, not, Dict, lookup,
}

pub data Permission : Type 0 where
  read write events artifacts network filesystem shell : Permission

pub data ExecutionPolicy : Type 0 where
  in_process process : ExecutionPolicy

abbrev pub permission_value : Permission → String
permission_value read = "read"
permission_value write = "write"
permission_value events = "events"
permission_value artifacts = "artifacts"
permission_value network = "network"
permission_value filesystem = "filesystem"
permission_value shell = "shell"

abbrev pub permission_index : Permission → ℕ
permission_index read = 0
permission_index write = 1
permission_index events = 2
permission_index artifacts = 3
permission_index network = 4
permission_index filesystem = 5
permission_index shell = 6

-- `p in ps`
abbrev pub has : Permission → List Permission → Bool
has p ps = any (λ q. nat_eq (permission_index p) (permission_index q)) ps

-- `_KNOWN_PERMISSION_VALUES`, with the member that each value stands for.
abbrev pub known_permissions : Dict Permission
known_permissions =
    ("read", read)
    ∷ ("write", write)
    ∷ ("events", events)
    ∷ ("artifacts", artifacts)
    ∷ ("network", network)
    ∷ ("filesystem", filesystem)
    ∷ ("shell", shell)
    ∷ []

abbrev pub process_mode_unavailable : List Permission
process_mode_unavailable = read ∷ write ∷ artifacts ∷ events ∷ []

abbrev pub denied_in_all_modes : List Permission
denied_in_all_modes = network ∷ filesystem ∷ shell ∷ []

pub record SandboxPolicy (L : Type 0) : Type 0 where
  pub plugin_id : String
  pub execution_mode : ExecutionPolicy
  pub allowed_permissions : List Permission
  pub limits : L
  pub updated_at : String

unfoldable pub is_allowed : {L : Type 0} → SandboxPolicy L → Permission → Bool
is_allowed policy permission = has permission policy.allowed_permissions

-- One round of the loop, given the member that the text stands for.
unfoldable pub resolve_one : Option Permission → List Permission → List Permission
resolve_one none resolved = resolved
resolve_one (some p) resolved = if not (has p resolved) then resolved ++ p ∷ [] else resolved

module _ (normalize : String → String) where
  -- The loop over the manifest's permissions, on `resolved`.
  unfoldable pub resolve_from : List String → List Permission → List Permission
  unfolding resolve_one
  resolve_from [] resolved = resolved
  resolve_from (raw ∷ rest) resolved =
      resolve_from rest (resolve_one (lookup (normalize raw) known_permissions) resolved)

  unfoldable pub resolve_permissions : List String → List Permission
  resolve_permissions manifest_permissions = resolve_from manifest_permissions []

  unfoldable pub resolve_permissions_for_mode : List String → ExecutionPolicy → List Permission
  resolve_permissions_for_mode manifest_permissions mode =
      let resolved =
        keep_if (λ p. not (has p denied_in_all_modes)) (resolve_permissions manifest_permissions) in
      elim mode [
        | in_process ↦ resolved
        | process ↦ keep_if (λ p. not (has p process_mode_unavailable)) resolved
      ]

  unfoldable pub build_policy :
      {L : Type 0}
      → L
      → String
      → String
      → List String
      → ExecutionPolicy
      → Option L
      → SandboxPolicy L
  build_policy default_limits now plugin_id manifest_permissions execution_mode limits = record {
    plugin_id = plugin_id;
    execution_mode = execution_mode;
    allowed_permissions = resolve_permissions_for_mode manifest_permissions execution_mode;
    limits = or_default limits default_limits;
    updated_at = now;
  }
