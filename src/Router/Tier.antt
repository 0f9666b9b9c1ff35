-- ===== src/Router/Tier.antt =====
-- core/llm/router.py: what escalation and a tight budget do to the tier.
use vision_virtual_intellige.Prelude.{ℕ, ◌+◌, ◌≤◌, Bool, true, false, arith}
use vision_virtual_intellige.Router.{ModelTier, select_tier_idx}

-- The index stays in the table whatever the escalation, so `tier_order[tier_idx]` never fails. A
-- larger escalation never selects a lower tier, and a tight budget never a higher one.
pub select_tier_idx_bounds :
    (base : ModelTier) (level more : ℕ) (tight : Bool)
    → (select_tier_idx base level tight ≤ 3)
      × (select_tier_idx base level tight ≤ select_tier_idx base (level + more) tight)
      × (select_tier_idx base level true ≤ select_tier_idx base level false)
unfolding select_tier_idx
select_tier_idx_bounds base level more tight = ground arith
