-- ===== src/Router/Tests.antt =====
-- Runs of core/llm/router.py, and its theorems at concrete inputs.
use vision_virtual_intellige.Prelude.{◌≡◌, refl, false, true, none, some, [], ◌∷◌}
use vision_virtual_intellige.Router.{
  Settings, get_available_providers, available, failover_chain, base_tier, select_tier_idx,
  model_for, walk_chain, select_provider_and_model, tier_at,
}
use vision_virtual_intellige.Router.Choice.{IsFirstChoice, select-IsFirstChoice}

abbrev settings : Settings
settings = record {
  anthropic_api_key = "";
  openai_api_key = "sk-test";
  gemini_api_key = "";
  openrouter_api_key = "";
  default_llm_provider = "anthropic";
  default_llm_model = "claude-sonnet-4-6";
}

program : Unit {0}
unfolding select_provider_and_model available failover_chain base_tier select_tier_idx walk_chain
    model_for get_available_providers
program = tt

-- The first of the chain has no key, so the request goes to the second.
select-failover :
    select_provider_and_model settings "anthropic" "head" "deploy" 0 false none
    ≡ some ("openai", "gpt-4o")
unfolding program
select-failover = refl

-- An override with no provider of the chain raises the RuntimeError.
select-unavailable :
    select_provider_and_model settings "anthropic" "head" "deploy" 1 true (some ("gemini" ∷ []))
    ≡ none
unfolding program
select-unavailable = refl

select-IsFirstChoice_example :
    IsFirstChoice
      (failover_chain "anthropic")
      (available settings none)
      (tier_at (select_tier_idx (base_tier "deploy" "head") 0 false))
      ("openai", "gpt-4o")
select-IsFirstChoice_example =
    select-IsFirstChoice settings "anthropic" "head" "deploy" 0 false none "openai" "gpt-4o"
      select-failover
