-- ===== src/Auth/Score.antt =====
-- auth/store.go, lines 533 to 930: the score of an account, its tier and its concurrency limit.
-- The floats are exact rationals here: a penalty or a score counts 1/`day` of a point, a dispatch
-- score or a bonus 1/`fine` of a point, and every factor in the code divides one of the two.
-- What float64 rounds is not modelled.
use qoder2api.Prelude.{
  ℕ, ◌+◌, ◌-◌, ◌*◌, ◌/◌, min, Bool, false, ◌&&◌, ◌||◌, not, List, [], ◌∷◌, none, some,
  if◌then◌else◌, leb, ltb, ◌==◌, zero, suc,
}
use qoder2api.Prelude.Int.{ℤ, pos, pos_part, neg_part, sub_ℕ, leb_ℤ}
use qoder2api.Auth.Plan.{is_free_plan, default_score_bias_for_plan}
use qoder2api.Auth.Account.{
  Account, AccountHealthTier, unset, healthy, warm, risky, banned, minute, hour, day, tier_eq,
  is_error, in_cooldown, has_dispatch_credential, health_tier_locked,
}
use qoder2api.Auth.Usage.{premium5h_rate_limited, usage_exhausted, quota_auto_paused}

-- The finer unit is 1 / (72h * 700 * 1000).
abbrev pub finer : ℕ
finer = 2_100_000

abbrev pub fine : ℕ
fine = day * finer

-- if limit <= 0 { limit = 1 }
abbrev pub at_least_one : ℕ → ℕ
at_least_one limit = if limit == 0 then 1 else limit

unfoldable pub concurrency_limit_for_tier : ℕ → AccountHealthTier → ℕ
concurrency_limit_for_tier base_limit healthy = at_least_one base_limit
concurrency_limit_for_tier base_limit warm =
    let half = at_least_one base_limit / 2 in if ltb half 1 then 1 else half
concurrency_limit_for_tier base_limit risky = 1
concurrency_limit_for_tier base_limit banned = 0
concurrency_limit_for_tier base_limit unset = if leb 2 (at_least_one base_limit) then 2 else 1

unfoldable pub tier_priority : AccountHealthTier → ℕ
tier_priority healthy = 3
tier_priority warm = 2
tier_priority risky = 1
tier_priority _ = 0

-- base * max(0, 1 - elapsed/window), counted in 1/day; a window divides the day.
unfoldable pub linear_decay : ℕ → ℤ → ℕ → ℕ
linear_decay base elapsed window =
    if leb_ℤ (pos window) elapsed || window == 0
    then 0
    else base * ((window + neg_part elapsed - pos_part elapsed) * (day / window))

-- linearDecay(base, now.Sub(last), window) for a time that was set, and no penalty if not.
unfoldable pub decay_since : ℕ → ℕ → ℕ → ℕ → ℕ
unfolding linear_decay
decay_since base last now window =
    if last == 0 then 0 else linear_decay base (sub_ℕ now last) window

unfoldable pub sum_first : ℕ → List ℕ → ℕ
sum_first zero l = 0
sum_first (suc n) [] = 0
sum_first (suc n) (x ∷ l) = x + sum_first n l

-- The rate is sum / count, so `rate < 0.5` is `2 * sum < count` and `rate < 0.75` `4 * sum < 3 * count`.
unfoldable pub success_rate_penalty : Account → ℕ
unfolding sum_first
success_rate_penalty a =
    let sum = sum_first a.recent_results_cnt a.recent_results in
    if not (leb 5 a.recent_results_cnt)
    then 0
    else if ltb (2 * sum) a.recent_results_cnt
    then 15 * day
    else if ltb (4 * sum) (3 * a.recent_results_cnt)
    then 8 * day
    else 0

unfoldable pub usage_penalty_7d : Account → ℕ
usage_penalty_7d a =
    if not (a.credit_enabled && a.credit_skip_usage_window)
      && a.usage_percent_7d_valid
      && is_free_plan a.plan_type
    then (if leb 100_000 a.usage_percent_7d
        then 40 * day
        else if leb 95_000 a.usage_percent_7d
        then 30 * day
        else if leb 85_000 a.usage_percent_7d
        then 18 * day
        else if leb 70_000 a.usage_percent_7d
        then 8 * day
        else 0)
    else 0

-- The average is kept in thousandths of a millisecond.
unfoldable pub latency_penalty : Account → ℕ
latency_penalty a =
    if leb 20_000_000 a.latency_ewma
    then 15 * day
    else if leb 10_000_000 a.latency_ewma
    then 8 * day
    else if leb 5_000_000 a.latency_ewma
    then 4 * day
    else 0

pub record SchedulerBreakdown : Type 0 where
  pub unauthorized_penalty : ℕ
  pub rate_limit_penalty : ℕ
  pub timeout_penalty : ℕ
  pub server_penalty : ℕ
  pub failure_penalty : ℕ
  pub success_bonus : ℕ
  pub proven_bonus : ℕ
  pub usage_penalty_7d : ℕ
  pub latency_penalty : ℕ
  pub success_rate_penalty : ℕ

unfoldable pub scheduler_breakdown : ℕ → Account → SchedulerBreakdown
unfolding decay_since usage_penalty_7d latency_penalty success_rate_penalty
scheduler_breakdown now a =
    let premium5h_limited = premium5h_rate_limited now a in
    record {
      unauthorized_penalty = decay_since 50 a.last_unauthorized_at now (24 * hour);
      rate_limit_penalty = decay_since 22 a.last_rate_limited_at now hour;
      timeout_penalty = decay_since 18 a.last_timeout_at now (15 * minute);
      server_penalty = decay_since 12 a.last_server_error_at now (15 * minute);
      failure_penalty = min (a.failure_streak * 6) 24 * day;
      success_bonus = if not premium5h_limited then min (a.success_streak * 2) 12 * day else 0;
      proven_bonus = if not premium5h_limited && ltb 10 a.total_requests then 20 * day else 0;
      usage_penalty_7d = usage_penalty_7d a;
      latency_penalty = latency_penalty a;
      success_rate_penalty = success_rate_penalty a;
    }

unfoldable pub score_of : SchedulerBreakdown → ℤ
score_of b = sub_ℕ (100 * day + b.success_bonus + b.proven_bonus) (
    b.unauthorized_penalty + b.rate_limit_penalty + b.timeout_penalty + b.server_penalty
    + b.failure_penalty + b.usage_penalty_7d + b.latency_penalty + b.success_rate_penalty)

unfoldable pub effective_base_concurrency : ℕ → Account → ℕ
effective_base_concurrency store_base_limit a = elim a.base_concurrency_override [
  | none ↦ at_least_one store_base_limit
  | some n ↦ if ltb 0 n then n else at_least_one store_base_limit
]

unfoldable pub dispatch_bonus_eligible : ℕ → AccountHealthTier → Account → Bool
unfolding tier_eq is_error
dispatch_bonus_eligible now tier a =
    if not (tier_eq tier healthy) && not (tier_eq tier warm)
    then false
    else if is_error a.status
    then false
    else if in_cooldown now a
    then false
    else if tier_eq (health_tier_locked a) banned
    then false
    else if usage_exhausted a
    then false
    else if quota_auto_paused now a
    then false
    else has_dispatch_credential a

unfoldable pub effective_score_bias : ℕ → AccountHealthTier → Account → ℤ
effective_score_bias now tier a =
    if not (dispatch_bonus_eligible now tier a) then pos 0 else (elim a.score_bias_override [
      | none ↦ default_score_bias_for_plan a.plan_type
      | some bias ↦ bias
    ])
