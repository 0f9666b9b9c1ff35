-- ===== src/Router/Choice.antt =====
-- core/llm/router.py: which provider the failover chain yields, and that it always yields one.
use vision_virtual_intellige.Prelude.{
  ℕ, ◌≡◌, ◌≢◌, String, ◌==◌, eq_iff, Bool, true, false, ◌⊎◌, inl, inr, not, ◌&&◌, ap, Option, none,
  some, List, [], ◌∷◌, ◌++◌, arith, contains, has_key, Bool-cases,
}
use vision_virtual_intellige.Router.{
  Settings, ModelTier, get_available_providers, available, failover_chain, failover_chains,
  model_for, walk_chain, base_tier, select_tier_idx, select_provider_and_model, tier_at,
}

-- `found` is the first provider of the chain that is available and has a model.
abbrev pub IsFirstChoice : List String → List String → ModelTier → String × String → Type 0
IsFirstChoice chain avail tier (provider, model) =
    (before : List String) × (after : List String) × (chain ≡ before ++ provider ∷ after)
    × (contains provider avail ≡ true)
    × (model ≡ model_for provider tier)
    × (model ≢ "")
    × ((p : String)
        → contains p before ≡ true
        → (contains p avail ≡ false) ⊎ (model_for p tier ≡ ""))

walk_chain-IsFirstChoice :
    (chain avail : List String) (tier : ModelTier) (provider model : String)
    → walk_chain chain avail tier ≡ some (provider, model)
    → IsFirstChoice chain avail tier (provider, model)
unfolding walk_chain
walk_chain-IsFirstChoice [] avail tier provider model h = cc
walk_chain-IsFirstChoice (c ∷ chain) avail tier provider model h =
    elim (Bool-cases (contains c avail && not (model_for c tier == ""))) [
      | inl taken ↦ (
        [],
        chain,
        ground arith,
        ground arith,
        ground arith,
        ground (arith, eq_iff model ""),
        λ p m. absurd (cc),
      )
      | inr passed ↦
          let (before, after, e, a, b, n, skipped) =
            walk_chain-IsFirstChoice chain avail tier provider model (rw passed at h) in
          (
            c ∷ before,
            after,
            ap (◌∷◌ c) e,
            a,
            b,
            n,
            λ p m. ground (arith, eq_iff p c, eq_iff (model_for c tier) "", skipped p),
          )
    ]

-- A selected provider is the first of the failover chain that is available and has a model, and
-- the model is that provider's for the tier which role, task, escalation and budget select.
pub select-IsFirstChoice :
    (settings : Settings) (preferred role task : String) (level : ℕ) (tight : Bool)
    (override : Option (List String)) (provider model : String)
    → select_provider_and_model settings preferred role task level tight override
      ≡ some (provider, model)
    → IsFirstChoice
        (failover_chain preferred)
        (available settings override)
        (tier_at (select_tier_idx (base_tier task role) level tight))
        (provider, model)
unfolding select_provider_and_model
select-IsFirstChoice settings preferred role task level tight override provider model h =
    walk_chain-IsFirstChoice (failover_chain preferred) (available settings override) _ provider
      model h

walk_chain-ne-none :
    (chain avail : List String) (tier : ModelTier) (p : String)
    → contains p chain ≡ true
    → contains p avail ≡ true
    → model_for p tier ≢ ""
    → walk_chain chain avail tier ≢ none
unfolding walk_chain
walk_chain-ne-none [] avail tier p m a n = cc
walk_chain-ne-none (c ∷ chain) avail tier p m a n =
    ground (arith, eq_iff p c, eq_iff (model_for c tier) "", walk_chain-ne-none chain avail tier p)

failover_chain-ollama :
    (preferred : String)
    → has_key preferred failover_chains ≡ true
    → contains "ollama" (failover_chain preferred) ≡ true
unfolding failover_chain
failover_chain-ollama preferred known = ground arith

get_available_providers-ollama :
    (settings : Settings) → contains "ollama" (get_available_providers settings) ≡ true
unfolding get_available_providers
get_available_providers-ollama settings = ground arith

model_for-ollama : (tier : ModelTier) → model_for "ollama" tier ≢ ""
unfolding model_for
model_for-ollama ModelTier.economy = cc
model_for-ollama ModelTier.standard = cc
model_for-ollama ModelTier.advanced = cc
model_for-ollama ModelTier.premium = cc

-- For every preferred provider that has a failover chain, and with no override of the available
-- providers, a provider is selected: the RuntimeError is not raised.
pub select_total :
    (settings : Settings) (preferred role task : String) (level : ℕ) (tight : Bool)
    → has_key preferred failover_chains ≡ true
    → select_provider_and_model settings preferred role task level tight none ≢ none
unfolding select_provider_and_model available
select_total settings preferred role task level tight known =
    walk_chain-ne-none (failover_chain preferred) (get_available_providers settings) _ "ollama"
      (failover_chain-ollama preferred known) (get_available_providers-ollama settings)
      (model_for-ollama _)
