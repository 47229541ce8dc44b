-- ===== src/Auth/Recompute/Tier.antt =====
-- What keeps an account out of the healthy tier.
use qoder2api.Prelude.{ℕ, ◌+◌, ◌*◌, ◌<◌, ◌≡◌, ◌≢◌, arith, true, false, ◌⊎◌}
use qoder2api.Auth.Account.{Account, healthy, risky, banned, hour}
use qoder2api.Auth.Usage.{premium5h_rate_limited}
use qoder2api.Auth.Recompute.{adjust_tier, tier_of, tier_for_score}

-- An account that is not banned is risky while its premium window is used up, whatever its score.
pub tier_of-limited :
    (now : ℕ) (a : Account)
    → a.health_tier ≢ banned
    → premium5h_rate_limited now a ≡ true
    → tier_of now a ≡ risky
unfolding tier_of tier_for_score adjust_tier
tier_of-limited now a p h = ground arith

-- An account that may not skip the warm tier is not healthy if its last failure came after its last
-- success, nor for 24 hours after its token was rejected.
pub tier_of-unhealthy :
    (now : ℕ) (a : Account)
    → a.skip_warm_tier ≡ false
    → (a.last_success_at < a.last_failure_at)
      ⊎ ((0 < a.last_unauthorized_at) × (now < a.last_unauthorized_at + 24 * hour))
    → tier_of now a ≢ healthy
unfolding tier_of tier_for_score adjust_tier
tier_of-unhealthy now a s h = ground arith
