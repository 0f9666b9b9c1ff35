-- ===== src/Plugins/Discovery.antt =====
-- services/integration/plugin_sdk/plugin_registry.py: what `list_hooks` and `list_permissions` say of a
-- plugin is what its record says.
use vision_virtual_intellige.Prelude.{
  ◌≡◌, refl, ◌∙◌, String, ◌==◌, eq_iff, Bool, true, false, ◌&&◌, not, ◌||◌, Option, none, some,
  List, [], ◌∷◌, arith, if◌then◌else◌, keep_if, any, contains, contains-sorted, Dict, lookup,
  has_key, values,
}
use vision_virtual_intellige.Metrics.{neighbours, append_to}
use vision_virtual_intellige.Metrics.Adjacency.{contains-append_to}
use vision_virtual_intellige.Plugins.{
  PluginManifest, PluginRecord, insert_by_id, sort_by_id, list_all, list_enabled, is_enabled,
  listed_records, add_names, collect, sort_entries, list_hooks, list_permissions, has_permission,
}
use vision_virtual_intellige.Plugins.Keyed.{IsKeyed, Reached, Reached-IsKeyed}

any-insert_by_id :
    (t : PluginRecord → Bool) (r : PluginRecord) (rs : List PluginRecord)
    → any t (insert_by_id r rs) ≡ (t r || any t rs)
unfolding insert_by_id
any-insert_by_id t r [] = refl
any-insert_by_id t r (q ∷ qs) = ground (arith, any-insert_by_id t r qs)

any-sort_by_id :
    (t : PluginRecord → Bool) (rs : List PluginRecord) → any t (sort_by_id rs) ≡ any t rs
unfolding sort_by_id
any-sort_by_id t [] = refl
any-sort_by_id t (r ∷ rs) =
    ground (arith, any-sort_by_id t rs, any-insert_by_id t r (sort_by_id rs))

any-same :
    (t u : PluginRecord → Bool) (rs : List PluginRecord)
    → ((r : PluginRecord) → t r ≡ u r)
    → any t rs ≡ any u rs
any-same t u [] h = refl
any-same t u (r ∷ rs) h = ground (arith, h r, any-same t u rs h)

any-kept :
    (t u : PluginRecord → Bool) (rs : List PluginRecord)
    → any t (keep_if u rs) ≡ any (λ r. u r && t r) rs
any-kept t u [] = refl
any-kept t u (r ∷ rs) = ground (arith, any-kept t u rs)

any-listed :
    (t : PluginRecord → Bool) (only : Bool) (plugins : Dict PluginRecord)
    → any t (listed_records only plugins)
      ≡ (if only then any (λ r. is_enabled r && t r) (values plugins) else any t (values plugins))
unfolding list_enabled list_all
any-listed t true plugins =
    rw
      (
        any-kept t is_enabled (sort_by_id (values plugins)),
        any-sort_by_id (λ r. is_enabled r && t r) (values plugins),
      )
      refl
any-listed t false plugins = any-sort_by_id t (values plugins)

contains-add_names :
    (x n id : String) (names : List String) (out : Dict (List String))
    → contains x (neighbours (add_names names id out) n)
      ≡ (x == id && contains n names || contains x (neighbours out n))
unfolding add_names
contains-add_names x n id [] out = ground arith
contains-add_names x n id (m ∷ names) out =
    ground
      (arith, contains-add_names x n id names (append_to m id out), contains-append_to x n m id out)

contains-collect :
    (names_of : PluginManifest → List String) (x n : String) (rs : List PluginRecord)
    (out : Dict (List String))
    → contains x (neighbours (collect names_of rs out) n) ≡ (
        any (λ r. x == r.manifest.id && contains n (names_of r.manifest)) rs
        || contains x (neighbours out n))
unfolding collect
contains-collect names_of x n [] out = refl
contains-collect names_of x n (r ∷ rs) out = ground (
  arith,
  contains-collect names_of x n rs (add_names (names_of r.manifest) r.manifest.id out),
  contains-add_names x n r.manifest.id (names_of r.manifest) out,
)

contains-sort_entries :
    (x n : String) (out : Dict (List String))
    → contains x (neighbours (sort_entries out) n) ≡ contains x (neighbours out n)
unfolding neighbours
contains-sort_entries x n [] = refl
contains-sort_entries x n ((m, ids) ∷ out) =
    ground (arith, contains-sort_entries x n out, contains-sorted x ids)

any-absent :
    (t : PluginRecord → Bool) (id : String) (plugins : Dict PluginRecord)
    → IsKeyed plugins
    → has_key id plugins ≡ false
    → any (λ r. id == r.manifest.id && t r) (values plugins) ≡ false
any-absent t id [] h m = refl
any-absent t id ((k, r) ∷ d) h m =
    ground (arith, any-absent t id d h.2, h.0, eq_iff id k, eq_iff id r.manifest.id)

-- A test of the record that a plugin has, if it has one.
abbrev pub test_of : (PluginRecord → Bool) → Option PluginRecord → Bool
test_of t none = false
test_of t (some r) = t r

any-keyed :
    (t : PluginRecord → Bool) (id : String) (plugins : Dict PluginRecord)
    → IsKeyed plugins
    → any (λ r. id == r.manifest.id && t r) (values plugins) ≡ test_of t (lookup id plugins)
any-keyed t id [] h = refl
any-keyed t id ((k, r) ∷ d) h = ground (
  arith,
  any-keyed t id d h.2,
  any-absent t id d h.2,
  h.0,
  h.1,
  eq_iff id k,
  eq_iff id r.manifest.id,
)

-- The plugin's names of a kind, if it is enabled or if disabled ones count too.
abbrev pub declares : (PluginManifest → List String) → Bool → String → PluginRecord → Bool
declares names_of only name r = contains name (names_of r.manifest) && (not only || is_enabled r)

any-declares :
    (names_of : PluginManifest → List String) (only : Bool) (id name : String)
    (plugins : Dict PluginRecord)
    → any
        (λ r. id == r.manifest.id && contains name (names_of r.manifest))
        (listed_records only plugins)
      ≡ any (λ r. id == r.manifest.id && declares names_of only name r) (values plugins)
any-declares names_of true id name plugins =
    any-listed (λ r. id == r.manifest.id && contains name (names_of r.manifest)) true plugins
    ∙ any-same _ _ (values plugins) (λ r. ground arith)
any-declares names_of false id name plugins =
    any-listed (λ r. id == r.manifest.id && contains name (names_of r.manifest)) false plugins
    ∙ any-same _ _ (values plugins) (λ r. ground arith)

contains-listed :
    (names_of : PluginManifest → List String) (only : Bool) (id name : String)
    (plugins : Dict PluginRecord)
    → IsKeyed plugins
    → contains id
        (neighbours (sort_entries (collect names_of (listed_records only plugins) [])) name)
      ≡ test_of (declares names_of only name) (lookup id plugins)
unfolding neighbours
contains-listed names_of only id name plugins h =
    contains-sort_entries id name (collect names_of (listed_records only plugins) [])
    ∙ ground (arith, contains-collect names_of id name (listed_records only plugins) [])
    ∙ any-declares names_of only id name plugins
    ∙ any-keyed (declares names_of only name) id plugins h

-- In a registry that operations have built, `list_hooks` names a plugin under a hook exactly when
-- that plugin is there, declares the hook, and is enabled if only enabled ones are asked for.
pub list_hooks-declares :
    {plugins : Dict PluginRecord} (only : Bool) (id hook : String)
    → Reached plugins
    → contains id (neighbours (list_hooks only plugins) hook)
      ≡ test_of (declares (λ m. m.hooks) only hook) (lookup id plugins)
unfolding list_hooks
list_hooks-declares only id hook reached =
    contains-listed (λ m. m.hooks) only id hook _ (Reached-IsKeyed reached)

-- In a registry that operations have built, `list_permissions` over all plugins and `has_permission`
-- agree on every plugin and permission.
pub list_permissions-has_permission :
    {plugins : Dict PluginRecord} (id permission : String)
    → Reached plugins
    → contains id (neighbours (list_permissions false plugins) permission)
      ≡ has_permission plugins id permission
unfolding list_permissions has_permission
list_permissions-has_permission {plugins} id permission reached =
    contains-listed (λ m. m.permissions) false id permission plugins (Reached-IsKeyed reached)
    ∙ ground arith
