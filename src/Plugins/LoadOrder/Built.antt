-- ===== src/Plugins/LoadOrder/Built.antt =====
-- services/integration/plugin_sdk/plugin_validator.py: the edges and degrees that the manifests give.
use vision_virtual_intellige.Prelude.{
  ℕ, zero, suc, ◌≡◌, refl, String, ◌==◌, eq_iff, false, ◌&&◌, ◌||◌, List, [], ◌∷◌, arith, nat_eq,
  contains, IsDistinct, keys, has_key, Dict, insert, lookup-insert, has_key-insert, has_key-lookup,
  contains-keys, Bool-cases, inl, inr,
}
use vision_virtual_intellige.Metrics.{neighbours}
use vision_virtual_intellige.Plugins.Models.{PluginManifest}
use vision_virtual_intellige.Plugins.LoadOrder.{degree, ids_of, for_each_id, no_dependencies}
use vision_virtual_intellige.Plugins.LoadOrder.Counts.{count}
use vision_virtual_intellige.Plugins.LoadOrder.Released.{one_if, degree-insert}

module _ {V : Type 0} where
  pub insert-IsDistinct :
      (k : String) (v : V) (d : Dict V) → IsDistinct (keys d) → IsDistinct (keys (insert k v d))
  insert-IsDistinct k v [] h = (refl, tt)
  insert-IsDistinct k v ((j, w) ∷ d) h = elim (Bool-cases (k == j)) [
    | inl same ↦ rw same (ground (arith, h.0, same, eq_iff k j), h.1)
    | inr apart ↦ rw apart (
      ground (
        arith,
        h.0,
        contains-keys j (insert k v d),
        has_key-insert j k v d,
        contains-keys j d,
        eq_iff k j,
        eq_iff j k,
        apart,
      ),
      insert-IsDistinct k v d h.1,
    )
  ]

  pub for_each_id-IsDistinct :
      (v : V) (ms : List PluginManifest) (d : Dict V)
      → IsDistinct (keys d)
      → IsDistinct (keys (for_each_id v ms d))
  for_each_id-IsDistinct v [] d h = h
  for_each_id-IsDistinct v (m ∷ ms) d h =
      for_each_id-IsDistinct v ms (insert m.id v d) (insert-IsDistinct m.id v d h)

  pub has_key-for_each_id :
      (k : String) (v : V) (ms : List PluginManifest) (d : Dict V)
      → has_key k (for_each_id v ms d) ≡ (contains k (ids_of ms) || has_key k d)
  has_key-for_each_id k v [] d = refl
  has_key-for_each_id k v (m ∷ ms) d =
      ground (arith, has_key-for_each_id k v ms (insert m.id v d), has_key-insert k m.id v d)

-- A fresh degree is zero, and a fresh plugin has no dependents.
pub degree-for_each_id :
    (v : String) (ms : List PluginManifest) (d : Dict ℕ)
    → ((u : String) → degree d u ≡ 0)
    → degree (for_each_id 0 ms d) v ≡ 0
degree-for_each_id v [] d h = h v
degree-for_each_id v (m ∷ ms) d h =
    degree-for_each_id v ms (insert m.id 0 d) (λ u. ground (arith, degree-insert u m.id 0 d, h u))

pub fresh_dependents :
    (ms : List PluginManifest) (d : Dict (List String))
    → ((u x : String) → contains x (neighbours d u) ≡ false)
    → (u x : String) → contains x (neighbours (for_each_id [] ms d) u) ≡ false
unfolding neighbours
fresh_dependents [] d h = h
fresh_dependents (m ∷ ms) d h =
    fresh_dependents ms (insert m.id [] d) (λ u x. ground (arith, lookup-insert u m.id [] d, h u x))

-- The plugins with no edge into them, each once.
pub count-no_dependencies :
    (v : String) (d : Dict ℕ)
    → IsDistinct (keys d)
    → count v (no_dependencies d) ≡ one_if (has_key v d && nat_eq (degree d v) 0)
count-no_dependencies v [] h = refl
count-no_dependencies v ((k, zero) ∷ d) h = ground (
  arith,
  eq_iff v k,
  contains-keys k d,
  h.0,
  has_key-lookup v d,
  has_key-lookup k d,
  count-no_dependencies v d h.1,
)
count-no_dependencies v ((k, suc n) ∷ d) h = ground (
  arith,
  eq_iff v k,
  contains-keys k d,
  h.0,
  has_key-lookup v d,
  has_key-lookup k d,
  count-no_dependencies v d h.1,
)
