-- ===== src/Plugins/DefaultDeny.antt =====
-- services/integration/plugin_sdk/sandbox/sandbox_policy.py: the permissions that a policy
-- allows.
use vision_virtual_intellige.Prelude.{
  ◌≡◌, ℕ, zero, suc, Bool-cases, refl, sym, ap, ◌∙◌, String, ◌==◌, eq_iff, Bool, true, false, not,
  ◌&&◌, ◌||◌, inl, inr, Option, none, some, List, [], ◌∷◌, arith, keep_if, any, any-append, lookup,
  nat_eq,
}
use vision_virtual_intellige.Plugins.{
  resolve_one, Permission, ExecutionPolicy, permission_value, permission_index, has,
  known_permissions, process_mode_unavailable, denied_in_all_modes, is_allowed, resolve_from,
  resolve_permissions, resolve_permissions_for_mode, build_policy,
}

abbrev member_at : ℕ → Permission
member_at zero = Permission.read
member_at (suc zero) = Permission.write
member_at (suc (suc zero)) = Permission.events
member_at (suc (suc (suc zero))) = Permission.artifacts
member_at (suc (suc (suc (suc zero)))) = Permission.network
member_at (suc (suc (suc (suc (suc zero))))) = Permission.filesystem
member_at (suc (suc (suc (suc (suc (suc n)))))) = Permission.shell

member_at_index : (p : Permission) → member_at (permission_index p) ≡ p
member_at_index Permission.read = refl
member_at_index Permission.write = refl
member_at_index Permission.events = refl
member_at_index Permission.artifacts = refl
member_at_index Permission.network = refl
member_at_index Permission.filesystem = refl
member_at_index Permission.shell = refl

same_permission : (p q : Permission) → has p (q ∷ []) ≡ true → p ≡ q
same_permission p q h =
    let e : permission_index p ≡ permission_index q = ground arith in
    sym (member_at_index p) ∙ ap member_at e ∙ member_at_index q

has_self : (p : Permission) → has p (p ∷ []) ≡ true
has_self p = ground arith

lookup-value : (p : Permission) → lookup (permission_value p) known_permissions ≡ some p
lookup-value Permission.read = refl
lookup-value Permission.write = refl
lookup-value Permission.events = refl
lookup-value Permission.artifacts = refl
lookup-value Permission.network = refl
lookup-value Permission.filesystem = refl
lookup-value Permission.shell = refl

lookup-known :
    (value : String) {q : Permission}
    → lookup value known_permissions ≡ some q
    → value ≡ permission_value q
lookup-known value {q} h = ground (
  arith,
  eq_iff value "read",
  eq_iff value "write",
  eq_iff value "events",
  eq_iff value "artifacts",
  eq_iff value "network",
  eq_iff value "filesystem",
  eq_iff value "shell",
)

-- The permission is the one that was found, if one was.
abbrev is_found : Permission → Option Permission → Bool
is_found p none = false
is_found p (some q) = has p (q ∷ [])

is_found-true :
    (p : Permission) (found : Option Permission) → is_found p found ≡ true → found ≡ some p
is_found-true p none h = cc
is_found-true p (some q) h = ap some (sym (same_permission p q h))

-- A value names a permission exactly when its entry is that permission.
named-found :
    (value : String) (p : Permission)
    → is_found p (lookup value known_permissions) ≡ (value == permission_value p)
named-found value p = elim (Bool-cases (value == permission_value p)) [
  | inl e ↦
      let same : value ≡ permission_value p = ground (arith, eq_iff value (permission_value p)) in
      let found : lookup value known_permissions ≡ some p =
        ap (λ v. lookup v known_permissions) same ∙ lookup-value p in
      ap (is_found p) found ∙ has_self p ∙ sym e
  | inr n ↦ elim (Bool-cases (is_found p (lookup value known_permissions))) [
    | inl f ↦
        let same : value ≡ permission_value p =
          lookup-known value (is_found-true p (lookup value known_permissions) f) in
        absurd (ground (arith, eq_iff value (permission_value p)))
    | inr f ↦ f ∙ sym n
  ]
]

has-keep_if :
    (p : Permission) (t : Permission → Bool) (ps : List Permission)
    → has p (keep_if t ps) ≡ (t p && has p ps)
has-keep_if p t [] = ground arith
has-keep_if p t (q ∷ ps) = elim (Bool-cases (has p (q ∷ []))) [
  | inl same ↦
      let e : p ≡ q = same_permission p q same in ground (arith, ap t e, has-keep_if p t ps)
  | inr other ↦ ground (arith, has-keep_if p t ps)
]

has-resolve_one :
    (p : Permission) (found : Option Permission) (resolved : List Permission)
    → has p (resolve_one found resolved) ≡ (is_found p found || has p resolved)
unfolding resolve_one
has-resolve_one p none resolved = refl
has-resolve_one p (some q) resolved = elim (Bool-cases (has q resolved)) [
  | inl there ↦ elim (Bool-cases (has p (q ∷ []))) [
    | inl same ↦
        let e : p ≡ q = same_permission p q same in ground (arith, ap (λ r. has r resolved) e)
    | inr other ↦ ground arith
  ]
  | inr absent ↦
      ground (
        arith,
        any-append (λ r. nat_eq (permission_index p) (permission_index r)) resolved (q ∷ []),
      )
]

-- What a mode can grant: in the host's process the four permissions over its services, and in a
-- process of its own nothing.
abbrev pub can_grant : ExecutionPolicy → Permission → Bool
can_grant ExecutionPolicy.in_process Permission.read = true
can_grant ExecutionPolicy.in_process Permission.write = true
can_grant ExecutionPolicy.in_process Permission.events = true
can_grant ExecutionPolicy.in_process Permission.artifacts = true
can_grant _ _ = false

granted-in_process :
    (p : Permission) → not (has p denied_in_all_modes) ≡ can_grant ExecutionPolicy.in_process p
granted-in_process p = ground arith

granted-process :
    (p : Permission)
    → (not (has p denied_in_all_modes) && not (has p process_mode_unavailable)) ≡ false
granted-process p = ground arith

module _ (normalize : String → String) where
  -- The manifest names the permission, up to `normalize`.
  abbrev pub names : Permission → List String → Bool
  names p raws = any (λ raw. normalize raw == permission_value p) raws

  has-resolve_from :
      (p : Permission) (raws : List String) (resolved : List Permission)
      → has p (resolve_from normalize raws resolved) ≡ (names p raws || has p resolved)
  unfolding resolve_from
  has-resolve_from p [] resolved = refl
  has-resolve_from p (raw ∷ raws) resolved = ground (
    arith,
    has-resolve_from p raws (resolve_one (lookup (normalize raw) known_permissions) resolved),
    has-resolve_one p (lookup (normalize raw) known_permissions) resolved,
    named-found (normalize raw) p,
  )

  -- A policy allows a permission exactly when the mode is the host's own process, the permission is
  -- read, write, events or artifacts, and the manifest names it. So an empty manifest, or one of
  -- unknown names, allows nothing, and no mode grants the network, the file system or a shell.
  pub build_policy-is_allowed :
      {L : Type 0} (default_limits : L) (now id : String) (raws : List String)
      (mode : ExecutionPolicy) (limits : Option L) (p : Permission)
      → is_allowed (build_policy normalize default_limits now id raws mode limits) p
        ≡ (can_grant mode p && names p raws)
  unfolding is_allowed build_policy resolve_permissions_for_mode resolve_permissions
  build_policy-is_allowed default_limits now id raws ExecutionPolicy.in_process limits p = ground (
    arith,
    has-keep_if p (λ q. not (has q denied_in_all_modes)) (resolve_from normalize raws []),
    has-resolve_from p raws [],
    granted-in_process p,
  )
  build_policy-is_allowed default_limits now id raws ExecutionPolicy.process limits p = ground (
    arith,
    has-keep_if p (λ q. not (has q process_mode_unavailable))
        (keep_if (λ q. not (has q denied_in_all_modes)) (resolve_from normalize raws [])),
    has-keep_if p (λ q. not (has q denied_in_all_modes)) (resolve_from normalize raws []),
    has-resolve_from p raws [],
    granted-process p,
  )
