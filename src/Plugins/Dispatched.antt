-- ===== src/Plugins/Dispatched.antt =====
-- services/integration/plugin_sdk/plugin_runtime.py: which plugins a dispatch runs, and what a plugin
-- cannot be given.
use vision_virtual_intellige.Prelude.{
  ◌≡◌, refl, ap, ◌∙◌, String, Bool, false, ◌⊎◌, inl, inr, Option, none, some, List, [], ◌∷◌, ◌++◌,
  map, arith, keep_if, any, contains, is_some, Option-cases, Dict, lookup,
}
use vision_virtual_intellige.Plugins.{
  PluginRecord, PluginContext, HookExecutionResult, HookFunction, implementation, hook_result,
  context_for_plugin, call_hook, dispatch_hook,
}

module _ {L C P A E T M W F V : Type 0}
    (attribute : M → String → Option (HookFunction L C P A E T W V)) (clock : W → W → F × String)
    (hook : String) (modules : Dict M) where
  -- The plugin's module is there and has the hook function.
  abbrev pub implements : PluginRecord → Bool
  implements r = is_some (implementation attribute hook (lookup r.manifest.id modules))

  abbrev pub result_ids : List (HookExecutionResult F V) → List String
  result_ids [] = []
  result_ids (e ∷ es) = e.plugin_id ∷ result_ids es

  result_ids-append :
      (es fs : List (HookExecutionResult F V))
      → result_ids (es ++ fs) ≡ result_ids es ++ result_ids fs
  result_ids-append [] fs = refl
  result_ids-append (e ∷ es) fs = ap (◌∷◌ e.plugin_id) (result_ids-append es fs)

  hook_result_id :
      (id : String) (at : F × String) (outcome : String ⊎ V)
      → (hook_result id hook at outcome).plugin_id ≡ id
  hook_result_id id at (inl e) = refl
  hook_result_id id at (inr v) = refl

  -- Whatever the hook functions raise, a dispatch has one result for each record whose module
  -- implements the hook, in the order of the records.
  pub dispatch_hook-implements :
      (records : List PluginRecord) (base : PluginContext L C P A E T) (world : W)
      → result_ids (dispatch_hook attribute clock hook records modules base world).1
        ≡ map (λ r. r.manifest.id) (keep_if implements records)
  unfolding dispatch_hook
  dispatch_hook-implements [] base world = refl
  dispatch_hook-implements (r ∷ records) base world =
      let hook_fn = implementation attribute hook (lookup r.manifest.id modules) in
      let (after, result) = call_hook clock hook r base hook_fn world in
      result_ids-append result _
      ∙ ap (λ ids. result_ids result ++ ids) (dispatch_hook-implements records base after)
      ∙ elim (Option-cases hook_fn) [
        | inl absent ↦ rw absent refl
        | inr (f, e) ↦ rw e (rw (hook_result_id r.manifest.id _ _) refl)
      ]

  context_for_plugin-publisher :
      (base : PluginContext L C P A E T) (publisher : Option E) (permissions : List String)
      → contains "events" permissions ≡ false
      → context_for_plugin (record base { event_publisher = publisher }) permissions
        ≡ context_for_plugin base permissions
  unfolding context_for_plugin
  context_for_plugin-publisher base publisher permissions h = rw h refl

  call_hook-publisher :
      (r : PluginRecord) (base : PluginContext L C P A E T) (publisher : Option E)
      (f : Option (HookFunction L C P A E T W V)) (world : W)
      → contains "events" r.manifest.permissions ≡ false
      → call_hook {F = F} clock hook r (record base { event_publisher = publisher }) f world
        ≡ call_hook clock hook r base f world
  unfolding call_hook
  call_hook-publisher r base publisher none world h = refl
  call_hook-publisher r base publisher (some f) world h =
      rw (context_for_plugin-publisher base publisher r.manifest.permissions h) refl

  -- If no record declares the permission "events", the event publisher of the platform's context is
  -- of no effect on a dispatch: not on the world that it leaves, nor on its results.
  pub dispatch_hook-publisher :
      (records : List PluginRecord) (base : PluginContext L C P A E T) (publisher : Option E)
      (world : W)
      → any (λ r. contains "events" r.manifest.permissions) records ≡ false
      → dispatch_hook attribute clock hook records modules
          (record base { event_publisher = publisher })
          world
        ≡ dispatch_hook attribute clock hook records modules base world
  unfolding dispatch_hook
  dispatch_hook-publisher [] base publisher world h = refl
  dispatch_hook-publisher (r ∷ records) base publisher world h =
      let hook_fn = implementation attribute hook (lookup r.manifest.id modules) in
      let other = record base { event_publisher = publisher } in
      let (after, result) = call_hook clock hook r base hook_fn world in
      ap
        (λ (called : W × List (HookExecutionResult F V)).
          let rest = dispatch_hook attribute clock hook records modules other called.0 in
          (rest.0, called.1 ++ rest.1))
        (call_hook-publisher r base publisher hook_fn world (ground arith))
      ∙ ap (λ (rest : W × List (HookExecutionResult F V)). (rest.0, result ++ rest.1))
          (dispatch_hook-publisher records base publisher after (ground arith))
