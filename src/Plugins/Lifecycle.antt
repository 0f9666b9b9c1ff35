-- ===== src/Plugins/Lifecycle.antt =====
-- services/integration/plugin_sdk/plugin_registry.py: what each operation does to the plugins.
use vision_virtual_intellige.Prelude.{
  ◌≡◌, refl, subst, String, ◌==◌, eq_iff, Bool, true, false, ◌⊎◌, inl, inr, Option, none, some, [],
  ◌∷◌, arith, if◌then◌else◌, Bool-cases, Option-cases, Dict, lookup, has_key, insert, erase,
  lookup-insert, lookup-erase-other, has_key-lookup,
}
use vision_virtual_intellige.Plugins.{
  PluginSourceType, PluginManifest, PluginRecord, Outcome, new_record, install, remove, change,
  enable, disable, mark_error, to_enabled, to_disabled, to_error,
}
use vision_virtual_intellige.Plugins.Keyed.{IsKeyed, Reached, Reached-IsKeyed}

lookup-erase : (k : String) (d : Dict PluginRecord) → IsKeyed d → lookup k (erase k d) ≡ none
lookup-erase k [] h = refl
lookup-erase k ((j, w) ∷ d) h =
    ground (arith, eq_iff k j, has_key-lookup k d, h.1, lookup-erase k d h.2)

-- The operation found the plugin, changed its record by `f` and no other.
abbrev pub IsChanged : (PluginRecord → PluginRecord) → String → Dict PluginRecord → Outcome → Type 0
IsChanged f id plugins outcome =
    (lookup id plugins ≡ none) × (outcome ≡ Outcome.not_found id)
    ⊎ (r : PluginRecord) × (q : Dict PluginRecord) × (lookup id plugins ≡ some r)
      × (outcome ≡ Outcome.done q (f r))
      × ((other : String)
          → lookup other q ≡ (if other == id then some (f r) else lookup other plugins))

change-IsChanged :
    (f : PluginRecord → PluginRecord) (id : String) (plugins : Dict PluginRecord)
    → IsChanged f id plugins (change f plugins id)
unfolding change
change-IsChanged f id plugins = elim (Option-cases (lookup id plugins)) [
  | inl missing ↦ inl (missing, ground arith)
  | inr (r, found) ↦ inr (
    r,
    insert id (f r) plugins,
    found,
    ground arith,
    λ other. lookup-insert other id (f r) plugins,
  )
]

-- `enable`, `disable` and `mark_error` raise exactly when the plugin is not there; otherwise they
-- change its record, each in its own fields, and leave every other plugin as it was.
pub change_lem :
    (now message id : String) (plugins : Dict PluginRecord)
    → IsChanged (to_enabled now) id plugins (enable now plugins id)
      × IsChanged (to_disabled now) id plugins (disable now plugins id)
      × IsChanged (to_error message) id plugins (mark_error plugins id message)
unfolding enable disable mark_error
change_lem now message id plugins = (
  change-IsChanged (to_enabled now) id plugins,
  change-IsChanged (to_disabled now) id plugins,
  change-IsChanged (to_error message) id plugins,
)

-- An installation raises exactly when the id is taken, and otherwise adds this one record.
pub install_lem :
    (now enabled_now : String) (plugins : Dict PluginRecord) (m : PluginManifest)
    (source : PluginSourceType) (path : Option String) (on : Bool)
    → let r = new_record now enabled_now m source path on in
      let outcome = install now enabled_now plugins m source path on in
      (has_key m.id plugins ≡ true) × (outcome ≡ Outcome.already_installed m.id)
      ⊎ (has_key m.id plugins ≡ false)
        × ((q : Dict PluginRecord) × (outcome ≡ Outcome.done q r)
            × ((other : String)
                → lookup other q ≡ (if other == m.id then some r else lookup other plugins)))
unfolding install
install_lem now enabled_now plugins m source path on = elim (Bool-cases (has_key m.id plugins)) [
  | inl taken ↦ rw taken (inl (refl, refl))
  | inr free ↦
      rw free
        (inr (refl, (insert m.id _ plugins, refl, λ other. lookup-insert other m.id _ plugins)))
]

-- In a registry that operations have built, a removed plugin is gone, the others stay, and its id can
-- be installed again.
pub remove-install :
    {plugins q : Dict PluginRecord} {r : PluginRecord} (id now enabled_now : String)
    (m : PluginManifest) (source : PluginSourceType) (path : Option String) (on : Bool)
    → Reached plugins
    → remove plugins id ≡ Outcome.done q r
    → m.id ≡ id
    → (lookup id q ≡ none)
      × ((other : String) → (lookup other q ≡ lookup other plugins) ⊎ (other ≡ id))
      × (install now enabled_now q m source path on
          ≡ Outcome.done
              (insert m.id (new_record now enabled_now m source path on) q)
              (new_record now enabled_now m source path on))
unfolding remove install
remove-install {plugins} {q} id now enabled_now m source path on reached e at =
    elim (Option-cases (lookup id plugins)) [
      | inl missing ↦ cc
      | inr (found, at_id) ↦
          let same : erase id plugins ≡ q = cc in
          let gone : lookup id q ≡ none =
            subst (λ d. lookup id d ≡ none) same
              (lookup-erase id plugins (Reached-IsKeyed reached)) in
          (
            gone,
            λ other. elim (Bool-cases (other == id)) [
              | inl this ↦ inr (ground (arith, eq_iff other id))
              | inr apart ↦ inl (
                  subst (λ d. lookup other d ≡ lookup other plugins) same
                    (lookup-erase-other other id plugins apart))
            ],
            ground (arith, has_key-lookup m.id q, at, gone),
          )
    ]
