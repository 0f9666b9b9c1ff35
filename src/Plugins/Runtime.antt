-- ===== src/Plugins/Runtime.antt =====
-- services/integration/plugin_sdk/plugin_runtime.py: the context that a plugin gets, the dispatch of a
-- hook, and the health of a plugin. L, C, P, A, E and T are the types of the live objects of a
-- context, M of an imported module, W of everything that a hook function may read or change, F of
-- a duration and V of what a hook returns; an exception is its text.
use vision_virtual_intellige.Prelude.{
  ℕ, ◌-◌, ◌*◌, String, Bool, true, false, not, ◌&&◌, ◌||◌, ◌⊎◌, inl, inr, Option, none, some, List,
  [], ◌∷◌, ◌++◌, if◌then◌else◌, length, keep_if, contains, leb, str_le, Dict, lookup,
}
use vision_virtual_intellige.Plugins.Models.{PluginState, PluginRecord}

pub record PluginContext (L C P A E T : Type 0) : Type 0 where
  pub logger : L
  pub config : Dict C
  pub repository : Option P
  pub artifact_manager : Option A
  pub event_publisher : Option E
  pub runtime : Option T
  pub settings : Dict C

-- A copied dictionary has the entries of the original.
unfoldable pub context_for_plugin :
    {L C P A E T : Type 0} → PluginContext L C P A E T → List String → PluginContext L C P A E T
context_for_plugin base_context permissions = record {
  logger = base_context.logger;
  config = base_context.config;
  repository =
      if contains "read" permissions || contains "write" permissions
      then base_context.repository
      else none;
  artifact_manager =
      if contains "artifacts" permissions then base_context.artifact_manager else none;
  event_publisher = if contains "events" permissions then base_context.event_publisher else none;
  runtime = base_context.runtime;
  settings = base_context.settings;
}

pub record HookExecutionResult (F V : Type 0) : Type 0 where
  pub plugin_id : String
  pub hook : String
  pub success : Bool
  pub duration_ms : F
  pub error : Option String
  pub executed_at : String
  pub result : Option V

-- A hook function changes the world, and raises or returns.
abbrev pub HookFunction : (L C P A E T W V : Type 0) → Type 0
HookFunction L C P A E T W V = PluginContext L C P A E T → W → W × (String ⊎ V)

-- What is appended after a call that raised or returned.
abbrev pub hook_result :
    {F V : Type 0} → String → String → F × String → String ⊎ V → HookExecutionResult F V
hook_result plugin_id hook (duration_ms, executed_at) (inl error) = record {
  plugin_id = plugin_id;
  hook = hook;
  success = false;
  duration_ms = duration_ms;
  error = some error;
  executed_at = executed_at;
  result = none;
}
hook_result plugin_id hook (duration_ms, executed_at) (inr result) = record {
  plugin_id = plugin_id;
  hook = hook;
  success = true;
  duration_ms = duration_ms;
  error = none;
  executed_at = executed_at;
  result = some result;
}

-- `getattr(module, hook.value, None)`, for a module that may be absent; `getattr` is `attribute`.
abbrev pub implementation :
    {L C P A E T M W V : Type 0}
    → (M → String → Option (HookFunction L C P A E T W V))
    → String
    → Option M
    → Option (HookFunction L C P A E T W V)
implementation attribute hook none = none
implementation attribute hook (some loaded) = attribute loaded hook

-- One round of the loop, on the world and the results: a record whose module has no such function is
-- passed over. `clock` gives the duration and the time stamp of a call, from the world before and
-- after it.
unfoldable pub call_hook :
    {L C P A E T W F V : Type 0}
    → (W → W → F × String)
    → String
    → PluginRecord
    → PluginContext L C P A E T
    → Option (HookFunction L C P A E T W V)
    → W
    → W × List (HookExecutionResult F V)
unfolding context_for_plugin
call_hook clock hook r base_context none world = (world, [])
call_hook clock hook r base_context (some hook_fn) world =
    let (after, outcome) = hook_fn (context_for_plugin base_context r.manifest.permissions) world in
    (after, hook_result r.manifest.id hook (clock world after) outcome ∷ [])

unfoldable pub dispatch_hook :
    {L C P A E T M W F V : Type 0}
    → (M → String → Option (HookFunction L C P A E T W V))
    → (W → W → F × String)
    → String
    → List PluginRecord
    → Dict M
    → PluginContext L C P A E T
    → W
    → W × List (HookExecutionResult F V)
unfolding call_hook
dispatch_hook attribute clock hook [] modules base_context world = (world, [])
dispatch_hook attribute clock hook (r ∷ records) modules base_context world =
    let hook_fn = implementation attribute hook (lookup r.manifest.id modules) in
    let (after, result) = call_hook clock hook r base_context hook_fn world in
    let (final, results) = dispatch_hook attribute clock hook records modules base_context after in
    (final, result ++ results)

-- The success rate is a float, and is left out.
pub record PluginHealth : Type 0 where
  pub plugin_id : String
  pub state : PluginState
  pub healthy : Bool
  pub total_executions : ℕ
  pub failed_executions : ℕ
  pub last_execution_at : Option String
  pub last_error : Option String

-- `max(…, key=lambda e: e.executed_at)` of `e` and the rest: the first of the greatest.
abbrev pub latest_of :
    {F V : Type 0}
    → HookExecutionResult F V
    → List (HookExecutionResult F V)
    → HookExecutionResult F V
latest_of e [] = e
latest_of e (x ∷ xs) = latest_of (if str_le x.executed_at e.executed_at then e else x) xs

abbrev pub is_error_state : PluginState → Bool
is_error_state PluginState.error = true
is_error_state _ = false

-- `success_rate >= 0.5` on the numbers of successes and of executions.
abbrev pub at_least_half : ℕ → ℕ → Bool
at_least_half total failed = leb total (2 * (total - failed))

unfoldable pub compute_health :
    {F V : Type 0} → String → PluginState → List (HookExecutionResult F V) → PluginHealth
compute_health plugin_id state [] = record {
  plugin_id = plugin_id;
  state = state;
  healthy = not (is_error_state state);
  total_executions = 0;
  failed_executions = 0;
  last_execution_at = none;
  last_error = none;
}
compute_health plugin_id state (e ∷ executions) =
    let total = length (e ∷ executions) in
    let failed = length (keep_if (λ x. not x.success) (e ∷ executions)) in
    let last = latest_of e executions in
    record {
      plugin_id = plugin_id;
      state = state;
      healthy = not (is_error_state state) && at_least_half total failed;
      total_executions = total;
      failed_executions = failed;
      last_execution_at = some last.executed_at;
      last_error = if last.success then none else last.error;
    }
