-- ===== src/Plugins/Keyed.antt =====
-- services/integration/plugin_sdk/plugin_registry.py: a registry that its operations have built holds
-- each plugin under its own id, once.
use vision_virtual_intellige.Prelude.{
  ◌≡◌, refl, sym, subst, ap, ◌∙◌, String, ◌==◌, eq_iff, Bool, false, Option, some, [], ◌∷◌, arith,
  inl, inr, Bool-cases, Option-cases, Dict, lookup, has_key, insert, erase, has_key-insert,
  has_key-erase,
}
use vision_virtual_intellige.Plugins.{
  PluginSourceType, PluginManifest, PluginRecord, Outcome, install, remove, change, enable, disable,
  mark_error, to_enabled, new_record, to_disabled, to_error,
}

-- One operation that does not raise.
pub data Step : Dict PluginRecord → Dict PluginRecord → Type 0 where
  installed :
      (now enabled_now : String) (m : PluginManifest) (source : PluginSourceType)
      (path : Option String) (on : Bool) {p q : Dict PluginRecord} {r : PluginRecord}
      → install now enabled_now p m source path on ≡ Outcome.done q r
      → Step p q
  removed :
      (id : String) {p q : Dict PluginRecord} {r : PluginRecord}
      → remove p id ≡ Outcome.done q r
      → Step p q
  enabled :
      (now id : String) {p q : Dict PluginRecord} {r : PluginRecord}
      → enable now p id ≡ Outcome.done q r
      → Step p q
  disabled :
      (now id : String) {p q : Dict PluginRecord} {r : PluginRecord}
      → disable now p id ≡ Outcome.done q r
      → Step p q
  failed :
      (id message : String) {p q : Dict PluginRecord} {r : PluginRecord}
      → mark_error p id message ≡ Outcome.done q r
      → Step p q

-- The registries that operations lead to from the empty one.
pub data Reached : Dict PluginRecord → Type 0 where
  created : Reached []
  after : {p q : Dict PluginRecord} → Reached p → Step p q → Reached q

-- Each record stands under its manifest's id, and no id twice.
abbrev pub IsKeyed : Dict PluginRecord → Type 0
IsKeyed [] = Unit
IsKeyed ((k, r) ∷ d) = (k ≡ r.manifest.id) × (has_key k d ≡ false) × IsKeyed d

insert-IsKeyed :
    (k : String) (r : PluginRecord) (d : Dict PluginRecord)
    → k ≡ r.manifest.id
    → IsKeyed d
    → IsKeyed (insert k r d)
insert-IsKeyed k r [] e h = (e, refl, tt)
insert-IsKeyed k r ((j, w) ∷ d) e h = elim (Bool-cases (k == j)) [
  | inl same ↦ rw same (e, ground (arith, eq_iff k j), h.2)
  | inr other ↦ rw other (
    h.0,
    ground (arith, has_key-insert j k r d, eq_iff k j, eq_iff j k),
    insert-IsKeyed k r d e h.2,
  )
]

erase-IsKeyed : (k : String) (d : Dict PluginRecord) → IsKeyed d → IsKeyed (erase k d)
erase-IsKeyed k [] h = tt
erase-IsKeyed k ((j, w) ∷ d) h = elim (Bool-cases (k == j)) [
  | inl same ↦ rw same h.2
  | inr other ↦ rw other (h.0, ground (arith, has_key-erase j k d), erase-IsKeyed k d h.2)
]

pub lookup-IsKeyed :
    (k : String) (d : Dict PluginRecord) {r : PluginRecord}
    → IsKeyed d
    → lookup k d ≡ some r
    → k ≡ r.manifest.id
lookup-IsKeyed k [] h e = cc
lookup-IsKeyed k ((j, w) ∷ d) {r} h e = elim (Bool-cases (k == j)) [
  | inl same ↦ let found : w ≡ r = ground arith in ground (arith, eq_iff k j)
  | inr other ↦ lookup-IsKeyed k d h.2 (rw other at e)
]

change-IsKeyed :
    (f : PluginRecord → PluginRecord) (id : String) (p : Dict PluginRecord) {q : Dict PluginRecord}
    {r : PluginRecord}
    → ((r : PluginRecord) → (f r).manifest ≡ r.manifest)
    → IsKeyed p
    → change f p id ≡ Outcome.done q r
    → IsKeyed q
unfolding change
change-IsKeyed f id p {q} keeps h e = elim (Option-cases (lookup id p)) [
  | inl missing ↦ cc
  | inr (found, at_id) ↦
      let same : insert id (f found) p ≡ q = cc in
      let id_of : id ≡ found.manifest.id = lookup-IsKeyed id p h at_id in
      subst IsKeyed same (
        insert-IsKeyed id (f found) p
          (id_of ∙ ap (λ (m : PluginManifest). m.id) (sym (keeps found))) h)
]

Step-IsKeyed : {p q : Dict PluginRecord} → Step p q → IsKeyed p → IsKeyed q
unfolding install remove enable disable mark_error
Step-IsKeyed {p} {q} (Step.installed now enabled_now m source path on e) h =
    elim (Bool-cases (has_key m.id p)) [
      | inl taken ↦ cc
      | inr free ↦
          let same : insert m.id (new_record now enabled_now m source path on) p ≡ q = cc in
          subst IsKeyed same (insert-IsKeyed m.id _ p refl h)
    ]
Step-IsKeyed {p} {q} (Step.removed id e) h = elim (Option-cases (lookup id p)) [
  | inl missing ↦ cc
  | inr (found, at_id) ↦ let same : erase id p ≡ q = cc in subst IsKeyed same (erase-IsKeyed id p h)
]
Step-IsKeyed (Step.enabled now id e) h = change-IsKeyed (to_enabled now) id _ (λ r. refl) h e
Step-IsKeyed (Step.disabled now id e) h = change-IsKeyed (to_disabled now) id _ (λ r. refl) h e
Step-IsKeyed (Step.failed id message e) h = change-IsKeyed (to_error message) id _ (λ r. refl) h e

-- Whatever operations have built a registry, each record stands under its manifest's id, and no id
-- stands there twice.
pub Reached-IsKeyed : {p : Dict PluginRecord} → Reached p → IsKeyed p
Reached-IsKeyed Reached.created = tt
Reached-IsKeyed (Reached.after r s) = Step-IsKeyed s (Reached-IsKeyed r)
