-- ===== src/Auth/Recompute.antt =====
-- auth/store.go, lines 708 to 937: the bonuses of an account whose quota resets or whose
-- subscription ends soon, and the update of tier, score and concurrency limit. The clock is read
-- once for each call here.
pub mod Bounds
pub mod Tier
pub mod Idempotent
use qoder2api.Prelude.{
  ℕ, ◌+◌, ◌-◌, ◌*◌, min, Bool, true, false, ◌&&◌, ◌||◌, not, if◌then◌else◌, leb, ltb, ◌==◌,
}
use qoder2api.Prelude.Int.{ℤ, pos, ◌+ℤ◌, scale, ltb_ℤ}
use qoder2api.Prelude.Text.{is, text_eq, to_lower, trim_space}
use qoder2api.Auth.Plan.{is_premium5h_plan, is_plus_or_higher_plan, is_free_plan}
use qoder2api.Auth.Account.{
  Account, AccountHealthTier, unset, healthy, warm, risky, banned, hour, day, full_usage, tier_eq,
  is_error, in_cooldown,
}
use qoder2api.Auth.Usage.{premium5h_rate_limited, usage_exhausted}
use qoder2api.Auth.Score.{
  SchedulerBreakdown, finer, fine, concurrency_limit_for_tier, scheduler_breakdown, score_of,
  effective_base_concurrency, dispatch_bonus_eligible, effective_score_bias,
}

-- 25 * (1 - t/4h) * min(1, q/50): with q in thousandths of a percent, this is
-- 25 * (4h - t) * min(q, 50000) * 18 * 14 / fine.
unfoldable pub premium5h_usage_urgency_bonus : ℕ → Account → ℕ
unfolding text_eq tier_eq is_error
premium5h_usage_urgency_bonus now a =
    if not (is_premium5h_plan a.plan_type)
    then 0
    else if not a.usage_percent_5h_valid || a.reset_5h_at == 0
    then 0
    else if leb full_usage a.usage_percent_5h || premium5h_rate_limited now a
    then 0
    else if is "" a.access_token || is_error a.status || tier_eq a.health_tier banned
    then 0
    else if a.dispatch_paused
    then 0
    else if in_cooldown now a
    then 0
    else if usage_exhausted a
    then 0
    else if leb a.reset_5h_at now || ltb (4 * hour) (a.reset_5h_at - now)
    then 0
    else if leb (full_usage - a.usage_percent_5h) 5_000
    then 0
    else 25
      * ((4 * hour - (a.reset_5h_at - now)) * (min (full_usage - a.usage_percent_5h) 50_000 * 252))

-- 80 * (1 - t/72h) * (0.6 + 0.4 * min(1, q/70)): with q in thousandths of a percent, this is
-- 80 * (72h - t) * (420000 + 4 * min(q, 70000)) / fine.
unfoldable pub premium7d_usage_urgency_bonus : ℕ → Account → ℕ
unfolding text_eq tier_eq is_error
premium7d_usage_urgency_bonus now a =
    if not (is_plus_or_higher_plan a.plan_type)
    then 0
    else if not a.usage_percent_7d_valid || a.reset_7d_at == 0
    then 0
    else if leb full_usage a.usage_percent_7d
    then 0
    else if is "" a.access_token || is_error a.status || tier_eq a.health_tier banned
    then 0
    else if a.dispatch_paused
    then 0
    else if in_cooldown now a
    then 0
    else if leb a.reset_7d_at now || ltb (72 * hour) (a.reset_7d_at - now)
    then 0
    else if leb (full_usage - a.usage_percent_7d) 5_000
    then 0
    else 80
      * ((72 * hour - (a.reset_7d_at - now))
          * (420_000 + 4 * min (full_usage - a.usage_percent_7d) 70_000))

unfoldable pub expiry_urgency_bonus : ℕ → Account → ℕ
unfolding text_eq to_lower trim_space
expiry_urgency_bonus now a =
    let plan = to_lower (trim_space a.plan_type) in
    if a.subscription_expires_at == 0
    then 0
    else if is "" plan || is "free" plan || is "api" plan
    then 0
    else if leb a.subscription_expires_at now
    then 0
    else if leb (a.subscription_expires_at - now) (3 * day)
    then 60 * fine
    else if leb (a.subscription_expires_at - now) (7 * day)
    then 25 * fine
    else 0

-- switch { case score < 60 ... }
unfoldable pub tier_for_score : ℤ → AccountHealthTier
tier_for_score score =
    if ltb_ℤ score (pos (60 * day))
    then risky
    else if ltb_ℤ score (pos (85 * day))
    then warm
    else healthy

-- The corrections of the tier, in the order of the code.
unfoldable pub adjust_tier : ℕ → Account → AccountHealthTier → AccountHealthTier
unfolding tier_eq
adjust_tier now a t0 =
    let t1 =
      if ltb a.last_success_at a.last_failure_at
        && not (a.last_failure_at == 0)
        && tier_eq t0 healthy
      then warm
      else t0 in
    let t2 =
      if not (a.last_unauthorized_at == 0)
        && ltb now (a.last_unauthorized_at + 24 * hour)
        && tier_eq t1 healthy
      then warm
      else t1 in
    let t3 =
      if not (a.credit_enabled && a.credit_skip_usage_window)
        && a.usage_percent_7d_valid
        && is_free_plan a.plan_type
      then (if leb 95_000 a.usage_percent_7d
          then risky
          else if leb 85_000 a.usage_percent_7d && tier_eq t2 healthy
          then warm
          else t2)
      else t2 in
    let t4 = if tier_eq a.health_tier banned then banned else t3 in
    let t5 = if premium5h_rate_limited now a && not (tier_eq t4 banned) then risky else t4 in
    if a.skip_warm_tier && tier_eq t5 warm then healthy else t5

unfoldable pub tier_of : ℕ → Account → AccountHealthTier
unfolding tier_for_score adjust_tier
tier_of now a = adjust_tier now a (tier_for_score (score_of (scheduler_breakdown now a)))

-- The three bonuses, given only to an account that may be dispatched to.
unfoldable pub urgency_bonus : ℕ → AccountHealthTier → Account → ℕ
urgency_bonus now tier a =
    if dispatch_bonus_eligible now tier a
    then premium5h_usage_urgency_bonus now a
      + premium7d_usage_urgency_bonus now a
      + expiry_urgency_bonus now a
    else 0

unfoldable pub dispatch_score_of : ℕ → AccountHealthTier → Account → ℤ
dispatch_score_of now tier a =
    scale finer (score_of (scheduler_breakdown now a))
    +ℤ scale fine (effective_score_bias now tier a)
    +ℤ pos (urgency_bonus now tier a)

unfoldable pub limit_of : ℕ → ℕ → AccountHealthTier → Account → ℕ
limit_of base_limit now tier a =
    let limit = concurrency_limit_for_tier (effective_base_concurrency base_limit a) tier in
    if premium5h_rate_limited now a && ltb 1 limit then 1 else limit

unfoldable pub recompute_scheduler : ℕ → ℕ → Account → Account
recompute_scheduler base_limit now a =
    let tier = tier_of now a in
    record a {
      health_tier = tier;
      scheduler_score = score_of (scheduler_breakdown now a);
      dispatch_score = dispatch_score_of now tier a;
      score_bias_effective = effective_score_bias now tier a;
      base_concurrency_effective = effective_base_concurrency base_limit a;
      dynamic_concurrency_limit = limit_of base_limit now tier a;
    }
