-- ===== src/Router.antt =====
-- core/llm/router.py: the provider and the model for a task.
mod Tables
pub mod Choice
pub mod Tier
mod Tests
unfoldable pub use Tables.*
use vision_virtual_intellige.Prelude.{
  ℕ, ◌+◌, ◌-◌, min, String, ◌==◌, Bool, true, false, not, ◌&&◌, Option, none, some, List, [], ◌∷◌,
  ◌++◌, nat_eq, if◌then◌else◌, is_empty, contains, lookup,
}

-- The keys of the settings that `_get_available_providers` reads; an absent or empty key is "".
pub record Settings : Type 0 where
  pub anthropic_api_key : String
  pub openai_api_key : String
  pub gemini_api_key : String
  pub openrouter_api_key : String
  pub default_llm_provider : String
  pub default_llm_model : String

abbrev if_set : String → String → List String
if_set key provider = if key == "" then [] else provider ∷ []

-- `_get_available_providers`
unfoldable pub get_available_providers : Settings → List String
get_available_providers settings =
    if_set settings.anthropic_api_key "anthropic"
    ++ (if_set settings.openai_api_key "openai"
        ++ (if_set settings.gemini_api_key "gemini"
            ++ (if_set settings.openrouter_api_key "openrouter" ++ "ollama" ∷ [])))

-- The index of the selected tier: raised by the escalation, or lowered by one on a tight budget.
unfoldable pub select_tier_idx : ModelTier → ℕ → Bool → ℕ
select_tier_idx base_tier escalation_level budget_tight =
    let tier_idx = min (tier_index base_tier + escalation_level) 3 in
    if budget_tight && nat_eq escalation_level 0 then tier_idx - 1 else tier_idx

unfoldable pub base_tier : String → String → ModelTier
base_tier task_type agent_role = elim (lookup task_type task_tier_overrides) [
  | some tier ↦ tier
  | none ↦ elim (lookup agent_role role_to_tier) [ some tier ↦ tier | none ↦ standard ]
]

-- `models.get(selected_tier, models.get(ModelTier.STANDARD, ""))`
unfoldable pub model_for : String → ModelTier → String
model_for provider tier = elim (lookup provider provider_tier_models) [
  | none ↦ ""
  | some models ↦ elim (lookup_tier tier models) [
    | some model ↦ model
    | none ↦ elim (lookup_tier standard models) [ some model ↦ model | none ↦ "" ]
  ]
]

-- The `for provider in chain` loop; `none` is the RuntimeError below it.
unfoldable pub walk_chain : List String → List String → ModelTier → Option (String × String)
walk_chain [] avail tier = none
walk_chain (provider ∷ chain) avail tier =
    let rest = walk_chain chain avail tier in
    let model = model_for provider tier in
    if contains provider avail && not (model == "") then some (provider, model) else rest

unfoldable pub failover_chain : String → List String
failover_chain preferred_provider = elim (lookup preferred_provider failover_chains) [
  | some chain ↦ chain
  | none ↦ preferred_provider ∷ []
]

-- `available_providers or _get_available_providers()`: an empty override counts as none.
unfoldable pub available : Settings → Option (List String) → List String
available settings none = get_available_providers settings
available settings (some providers) =
    if is_empty providers then get_available_providers settings else providers

unfoldable pub select_provider_and_model :
    Settings → String → String → String → ℕ → Bool → Option (List String) → Option (String × String)
select_provider_and_model settings preferred_provider agent_role task_type escalation_level
      budget_tight available_providers =
    let tier_idx = select_tier_idx (base_tier task_type agent_role) escalation_level budget_tight in
    walk_chain (failover_chain preferred_provider) (available settings available_providers)
      (tier_at tier_idx)
