-- ===== src/Auth/Recompute/Idempotent.antt =====
-- `recompute_scheduler` at one time: a second update changes nothing, since the update reads none
-- of the fields that it writes but whether the account is banned, and never lifts or sets a ban.
use qoder2api.Prelude.{ℕ, ◌≡◌, refl, arith}
use qoder2api.Prelude.Int.{ℤ}
use qoder2api.Auth.Account.{
  Account, AccountHealthTier, banned, tier_eq, health_tier_locked, has_dispatch_credential,
  in_cooldown,
}
use qoder2api.Auth.Usage.{premium5h_rate_limited, usage_exhausted, quota_auto_paused}
use qoder2api.Auth.Score.{
  scheduler_breakdown, effective_base_concurrency, dispatch_bonus_eligible, effective_score_bias,
}
use qoder2api.Auth.Recompute.{
  tier_of, dispatch_score_of, urgency_bonus, limit_of, recompute_scheduler,
  premium5h_usage_urgency_bonus, premium7d_usage_urgency_bonus, expiry_urgency_bonus,
}

-- The account with other scheduling fields.
abbrev pub rescored : Account → AccountHealthTier → ℤ → ℤ → ℤ → ℕ → ℕ → Account
rescored a tier score dispatch bias base limit = record a {
  health_tier = tier;
  scheduler_score = score;
  dispatch_score = dispatch;
  score_bias_effective = bias;
  base_concurrency_effective = base;
  dynamic_concurrency_limit = limit;
}

-- A tier is `banned` after the update exactly if it was before.
pub tier_of-banned :
    (now : ℕ) (a : Account) → tier_eq (tier_of now a) banned ≡ tier_eq a.health_tier banned
unfolding tier_of
tier_of-banned now a = ground arith

health_tier_locked-banned :
    (a : Account) → tier_eq (health_tier_locked a) banned ≡ tier_eq a.health_tier banned
unfolding health_tier_locked
health_tier_locked-banned a = ground arith

module _ (now : ℕ) (a : Account) (tier : AccountHealthTier) (score dispatch bias : ℤ)
    (base limit : ℕ) (same : tier_eq tier banned ≡ tier_eq a.health_tier banned) where
  abbrev a' : Account
  a' = rescored a tier score dispatch bias base limit

  breakdown-rescored : scheduler_breakdown now a' ≡ scheduler_breakdown now a
  unfolding scheduler_breakdown premium5h_rate_limited
  breakdown-rescored = refl

  tier_of-rescored : tier_of now a' ≡ tier_of now a
  unfolding tier_of premium5h_rate_limited scheduler_breakdown
  tier_of-rescored = rw same

  eligible-rescored :
      (t : AccountHealthTier) → dispatch_bonus_eligible now t a' ≡ dispatch_bonus_eligible now t a
  unfolding dispatch_bonus_eligible usage_exhausted quota_auto_paused in_cooldown
      has_dispatch_credential
  eligible-rescored t = rw (health_tier_locked-banned a', health_tier_locked-banned a, same)

  bias-rescored :
      (t : AccountHealthTier) → effective_score_bias now t a' ≡ effective_score_bias now t a
  unfolding effective_score_bias
  bias-rescored t = rw (eligible-rescored t)

  bonus5h-rescored : premium5h_usage_urgency_bonus now a' ≡ premium5h_usage_urgency_bonus now a
  unfolding premium5h_usage_urgency_bonus premium5h_rate_limited usage_exhausted in_cooldown
  bonus5h-rescored = rw same

  bonus7d-rescored : premium7d_usage_urgency_bonus now a' ≡ premium7d_usage_urgency_bonus now a
  unfolding premium7d_usage_urgency_bonus in_cooldown
  bonus7d-rescored = rw same

  urgency-rescored : (t : AccountHealthTier) → urgency_bonus now t a' ≡ urgency_bonus now t a
  unfolding urgency_bonus expiry_urgency_bonus
  urgency-rescored t = rw (eligible-rescored t, bonus5h-rescored, bonus7d-rescored)

  dispatch-rescored :
      (t : AccountHealthTier) → dispatch_score_of now t a' ≡ dispatch_score_of now t a
  unfolding dispatch_score_of
  dispatch-rescored t = rw (breakdown-rescored, bias-rescored t, urgency-rescored t)

  limit-rescored : (b : ℕ) (t : AccountHealthTier) → limit_of b now t a' ≡ limit_of b now t a
  unfolding limit_of effective_base_concurrency premium5h_rate_limited
  limit-rescored b t = refl

  base-rescored : (b : ℕ) → effective_base_concurrency b a' ≡ effective_base_concurrency b a
  unfolding effective_base_concurrency
  base-rescored b = refl

-- Updating an account twice at one time is updating it once.
pub recompute_scheduler_idem :
    (b now : ℕ) (a : Account)
    → recompute_scheduler b now (recompute_scheduler b now a) ≡ recompute_scheduler b now a
unfolding recompute_scheduler
recompute_scheduler_idem b now a =
    let same = tier_of-banned now a in
    rw (
      tier_of-rescored now a _ _ _ _ _ _ same,
      breakdown-rescored now a _ _ _ _ _ _ same,
      dispatch-rescored now a _ _ _ _ _ _ same,
      bias-rescored now a _ _ _ _ _ _ same,
      base-rescored now a _ _ _ _ _ _ same,
      limit-rescored now a _ _ _ _ _ _ same,
    )
