-- ===== src/Plugins/Registry.antt =====
-- services/integration/plugin_sdk/plugin_registry.py: the registry's operations. The dictionary
-- `_plugins` is the state; every mutation holds the lock, so an operation is one step. A time stamp is
-- an argument. An operation that raises leaves the state as it was.
use vision_virtual_intellige.Prelude.{
  String, Bool, true, false, Option, none, some, List, [], ◌∷◌, map, if◌then◌else◌, keep_if,
  contains, sorted, str_le, Dict, lookup, has_key, insert, erase, values,
}
use vision_virtual_intellige.Metrics.{append_to}
use vision_virtual_intellige.Plugins.Models.{
  PluginState, PluginSourceType, PluginManifest, PluginRecord, CapabilityInfo,
}

-- What an operation raises, with the plugin's id, or its new state and the record it returns.
pub data Outcome : Type 0 where
  already_installed : String → Outcome
  not_found : String → Outcome
  done : Dict PluginRecord → PluginRecord → Outcome

abbrev pub new_record :
    String → String → PluginManifest → PluginSourceType → Option String → Bool → PluginRecord
new_record now enabled_now manifest source_type source_path enabled_by_default = record {
  manifest = manifest;
  state = if enabled_by_default then PluginState.enabled else PluginState.installed;
  source_type = source_type;
  source_path = source_path;
  installed_at = now;
  enabled_at = if enabled_by_default then some enabled_now else none;
  disabled_at = none;
  last_error = none;
}

unfoldable pub install :
    (now enabled_now : String)
    → Dict PluginRecord
    → PluginManifest
    → PluginSourceType
    → Option String
    → Bool
    → Outcome
install now enabled_now plugins manifest source_type source_path enabled_by_default =
    if has_key manifest.id plugins
    then Outcome.already_installed manifest.id
    else let installed =
        new_record now enabled_now manifest source_type source_path enabled_by_default in
      Outcome.done (insert manifest.id installed plugins) installed

-- `remove` returns nothing; the record here is the one that it deletes.
unfoldable pub remove : Dict PluginRecord → String → Outcome
remove plugins plugin_id = elim (lookup plugin_id plugins) [
  | none ↦ Outcome.not_found plugin_id
  | some removed ↦ Outcome.done (erase plugin_id plugins) removed
]

-- `_require`, and the change that the caller makes to the record in place.
unfoldable pub change : (PluginRecord → PluginRecord) → Dict PluginRecord → String → Outcome
change f plugins plugin_id = elim (lookup plugin_id plugins) [
  | none ↦ Outcome.not_found plugin_id
  | some found ↦ Outcome.done (insert plugin_id (f found) plugins) (f found)
]

abbrev pub to_enabled : String → PluginRecord → PluginRecord
to_enabled now r = record r {
  state = PluginState.enabled;
  enabled_at = some now;
  disabled_at = none;
}

abbrev pub to_disabled : String → PluginRecord → PluginRecord
to_disabled now r = record r { state = PluginState.disabled; disabled_at = some now }

abbrev pub to_error : String → PluginRecord → PluginRecord
to_error message r = record r { state = PluginState.error; last_error = some message }

unfoldable pub enable : String → Dict PluginRecord → String → Outcome
enable now = change (to_enabled now)

unfoldable pub disable : String → Dict PluginRecord → String → Outcome
disable now = change (to_disabled now)

unfoldable pub mark_error : Dict PluginRecord → String → String → Outcome
mark_error plugins plugin_id message = change (to_error message) plugins plugin_id

-- `sorted(…, key=lambda r: r.manifest.id)`, which keeps the order of records with one id.
unfoldable pub insert_by_id : PluginRecord → List PluginRecord → List PluginRecord
insert_by_id r [] = r ∷ []
insert_by_id r (q ∷ qs) =
    if str_le r.manifest.id q.manifest.id then r ∷ q ∷ qs else q ∷ insert_by_id r qs

unfoldable pub sort_by_id : List PluginRecord → List PluginRecord
sort_by_id [] = []
sort_by_id (r ∷ rs) = insert_by_id r (sort_by_id rs)

unfoldable pub list_all : Dict PluginRecord → List PluginRecord
list_all plugins = sort_by_id (values plugins)

abbrev pub is_enabled : PluginRecord → Bool
is_enabled r = elim (r.state) [ PluginState.enabled ↦ true | _ ↦ false ]

abbrev pub is_disabled : PluginRecord → Bool
is_disabled r = elim (r.state) [ PluginState.disabled ↦ true | _ ↦ false ]

unfoldable pub list_enabled : Dict PluginRecord → List PluginRecord
list_enabled plugins = keep_if is_enabled (list_all plugins)

unfoldable pub list_disabled : Dict PluginRecord → List PluginRecord
list_disabled plugins = keep_if is_disabled (list_all plugins)

-- `self.list_enabled() if enabled_only else self.list_all()`
abbrev pub listed_records : Bool → Dict PluginRecord → List PluginRecord
listed_records enabled_only plugins =
    if enabled_only then list_enabled plugins else list_all plugins

-- `for hook in record.manifest.hooks: out.setdefault(hook, []).append(record.manifest.id)`
unfoldable pub add_names : List String → String → Dict (List String) → Dict (List String)
add_names [] id out = out
add_names (name ∷ names) id out = add_names names id (append_to name id out)

-- The `for record in records` loop over the names that a manifest declares.
unfoldable pub collect :
    (PluginManifest → List String) → List PluginRecord → Dict (List String) → Dict (List String)
collect names_of [] out = out
collect names_of (r ∷ rs) out =
    collect names_of rs (add_names (names_of r.manifest) r.manifest.id out)

abbrev pub sort_entries : Dict (List String) → Dict (List String)
sort_entries [] = []
sort_entries ((name, ids) ∷ out) = (name, sorted ids) ∷ sort_entries out

unfoldable pub list_hooks : Bool → Dict PluginRecord → Dict (List String)
list_hooks enabled_only plugins =
    sort_entries (collect (λ m. m.hooks) (listed_records enabled_only plugins) [])

unfoldable pub list_permissions : Bool → Dict PluginRecord → Dict (List String)
list_permissions enabled_only plugins =
    sort_entries (collect (λ m. m.permissions) (listed_records enabled_only plugins) [])

abbrev capability_of : PluginRecord → CapabilityInfo
capability_of r = record {
  plugin_id = r.manifest.id;
  hooks = r.manifest.hooks;
  permissions = r.manifest.permissions;
}

unfoldable pub list_capabilities : Bool → Dict PluginRecord → List CapabilityInfo
list_capabilities enabled_only plugins = map capability_of (listed_records enabled_only plugins)

unfoldable pub has_permission : Dict PluginRecord → String → String → Bool
has_permission plugins plugin_id permission = elim (lookup plugin_id plugins) [
  | none ↦ false
  | some found ↦ contains permission found.manifest.permissions
]
