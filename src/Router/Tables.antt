-- ===== src/Router/Tables.antt =====
-- core/llm/router.py: the model tiers and the module's tables.
use vision_virtual_intellige.Prelude.{
  ℕ, zero, suc, String, Option, none, some, List, [], ◌∷◌, nat_eq, if◌then◌else◌, Dict,
}

pub data ModelTier : Type 0 where
  economy standard advanced premium : ModelTier

-- `tier_order.index(tier)`
abbrev pub tier_index : ModelTier → ℕ
tier_index economy = 0
tier_index standard = 1
tier_index advanced = 2
tier_index premium = 3

-- `tier_order[idx]`; the source only reads it at 0 to 3.
abbrev pub tier_at : ℕ → ModelTier
tier_at zero = economy
tier_at (suc zero) = standard
tier_at (suc (suc zero)) = advanced
tier_at (suc (suc (suc n))) = premium

abbrev pub lookup_tier : ModelTier → List (ModelTier × String) → Option String
lookup_tier t [] = none
lookup_tier t ((u, m) ∷ rest) =
    if nat_eq (tier_index t) (tier_index u) then some m else lookup_tier t rest

abbrev pub role_to_tier : Dict ModelTier
role_to_tier =
    ("worker", standard) ∷ ("lead", advanced) ∷ ("head", advanced) ∷ ("manager", standard) ∷ []

abbrev pub task_tier_overrides : Dict ModelTier
task_tier_overrides =
    ("security_scan", premium)
    ∷ ("owasp_check", premium)
    ∷ ("architecture_review", premium)
    ∷ ("root_cause_analysis", premium)
    ∷ ("traceability_check", advanced)
    ∷ ("api_design", advanced)
    ∷ ("database_design", advanced)
    ∷ ("generate_changelog", economy)
    ∷ ("generate_readme", economy)
    ∷ ("generate_code_comments", economy)
    ∷ ("generate_env_template", economy)
    ∷ []

abbrev models : String → String → String → String → List (ModelTier × String)
models e s a p = (economy, e) ∷ (standard, s) ∷ (advanced, a) ∷ (premium, p) ∷ []

abbrev pub provider_tier_models : Dict (List (ModelTier × String))
provider_tier_models =
    (
      "anthropic",
      models "claude-haiku-4-5" "claude-sonnet-4-6" "claude-sonnet-4-6" "claude-opus-4-6",
    )
    ∷ ("openai", models "gpt-4o-mini" "gpt-4o" "gpt-4o" "o3")
    ∷ ("gemini", models "gemini-2.0-flash" "gemini-2.0-flash" "gemini-2.5-pro" "gemini-2.5-pro")
    ∷ ("ollama", models "mistral" "llama3.3" "llama3.3" "deepseek-r1")
    ∷ (
      "openrouter",
      models "meta-llama/llama-3.3-70b-instruct" "anthropic/claude-sonnet-4-6"
          "anthropic/claude-sonnet-4-6" "openrouter/auto",
    )
    ∷ []

abbrev pub failover_chains : Dict (List String)
failover_chains =
    ("anthropic", "anthropic" ∷ "openai" ∷ "openrouter" ∷ "ollama" ∷ [])
    ∷ ("openai", "openai" ∷ "anthropic" ∷ "openrouter" ∷ "ollama" ∷ [])
    ∷ ("gemini", "gemini" ∷ "anthropic" ∷ "openai" ∷ "ollama" ∷ [])
    ∷ ("ollama", "ollama" ∷ "openrouter" ∷ "anthropic" ∷ "openai" ∷ [])
    ∷ ("openrouter", "openrouter" ∷ "anthropic" ∷ "openai" ∷ "ollama" ∷ [])
    ∷ []
