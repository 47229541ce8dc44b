-- ===== src/Auth/Availability.antt =====
-- When an account may be dispatched to: `IsAvailable`, `RuntimeStatus` and `SetCooldownUntil` of
-- auth/store.go, `fastSchedulerSnapshot` and `tryAcquireAccount` of auth/fast_scheduler.go.
pub mod Agreement
pub mod Snapshots
use qoder2api.Prelude.{
  ℕ, suc, ◌+◌, Bool, true, false, ◌&&◌, ◌||◌, not, if◌then◌else◌, leb, ltb, ◌==◌,
}
use qoder2api.Prelude.Int.{ℤ, pos, ◌+ℤ◌, scale}
use qoder2api.Prelude.Text.{Text, is, text_eq}
use qoder2api.Auth.Plan.{is_premium5h_plan, is_plus_or_higher_plan}
use qoder2api.Auth.Account.{
  Account, AccountStatus, AccountHealthTier, ready, cooldown, error, unset, healthy, warm, risky,
  banned, tier_eq, is_error, is_cooldown, in_cooldown, has_dispatch_credential, health_tier_locked,
}
use qoder2api.Auth.Usage.{premium5h_rate_limited, usage_exhausted, quota_auto_paused}
use qoder2api.Auth.Score.{
  finer, fine, concurrency_limit_for_tier, effective_base_concurrency, effective_score_bias,
}
use qoder2api.Auth.Recompute.{recompute_scheduler}

unfoldable pub is_available : ℕ → Account → Bool
unfolding is_error is_cooldown tier_eq
is_available now a =
    if a.disabled
    then false
    else if a.dispatch_paused
    then false
    else if is_error a.status
    then false
    else if tier_eq (health_tier_locked a) banned
    then false
    else if usage_exhausted a
    then false
    else if in_cooldown now a
    then false
    else if premium5h_rate_limited now a
    then false
    else if quota_auto_paused now a
    then false
    else if is_cooldown a.status && not (ltb now a.cooldown_util)
    then has_dispatch_credential a
    else has_dispatch_credential a

-- The strings that `RuntimeStatus` returns; `because` is a cooldown's own reason.
pub data RuntimeStatus : Type 0 where
  unauthorized usage_exhausted' rate_limited error' cooldown' quota_paused active refreshing :
      RuntimeStatus
  because : Text → RuntimeStatus

runtime_status_of : AccountStatus → ℕ → Account → RuntimeStatus
unfolding text_eq
runtime_status_of error now a = error'
runtime_status_of cooldown now a =
    if ltb now a.cooldown_util
    then (if not (is "" a.cooldown_reason) then because a.cooldown_reason else cooldown')
    else if has_dispatch_credential a
    then (if quota_auto_paused now a then quota_paused else active)
    else if not (is "" a.refresh_token)
    then refreshing
    else error'
runtime_status_of ready now a =
    if has_dispatch_credential a && quota_auto_paused now a
    then quota_paused
    else if has_dispatch_credential a
    then active
    else if not (is "" a.refresh_token) && is "" a.error_msg
    then refreshing
    else error'

unfoldable pub runtime_status : ℕ → Account → RuntimeStatus
unfolding runtime_status_of tier_eq
runtime_status now a =
    if tier_eq (health_tier_locked a) banned
    then unauthorized
    else if usage_exhausted a
    then usage_exhausted'
    else if premium5h_rate_limited now a
    then rate_limited
    else runtime_status_of a.status now a

-- switch reason { case "unauthorized" ... case "rate_limited" ... default ... }
unfoldable pub set_cooldown_until : ℕ → Text → Account → Account
unfolding text_eq tier_eq
set_cooldown_until until reason a =
    let cooled = record a { status = cooldown; cooldown_util = until; cooldown_reason = reason } in
    if is "unauthorized" reason
    then record cooled { health_tier = banned }
    else if is "rate_limited" reason
    then record cooled {
      health_tier = if tier_eq (health_tier_locked a) healthy then warm else risky;
    }
    else if tier_eq a.health_tier unset
    then record cooled { health_tier = warm }
    else cooled

-- What the fast scheduler reads of an account.
pub record Snapshot : Type 0 where
  pub tier : AccountHealthTier
  pub score : ℤ
  pub limit : ℕ
  pub proven : Bool
  pub available : Bool

abbrev is_zero : ℤ → Bool
is_zero (pos n) = n == 0
is_zero _ = false

snapshot_score : ℕ → Account → ℤ
unfolding tier_eq is_error
snapshot_score now a =
    let tier = health_tier_locked a in
    let score =
      if is_zero a.dispatch_score && not (is_zero a.scheduler_score)
      then scale finer a.scheduler_score
      else a.dispatch_score in
    if is_zero score
      && not (tier_eq tier banned)
      && has_dispatch_credential a
      && not (is_error a.status)
    then scale fine (pos 100 +ℤ effective_score_bias now tier a)
    else score

snapshot_limit : ℕ → Account → ℕ
snapshot_limit base_limit a =
    if a.dynamic_concurrency_limit == 0
    then concurrency_limit_for_tier
        (if a.base_concurrency_effective == 0
          then effective_base_concurrency base_limit a
          else a.base_concurrency_effective)
        (health_tier_locked a)
    else a.dynamic_concurrency_limit

-- available := ..., and the five conditions that clear it.
unfoldable pub snapshot_available : ℕ → Account → Bool
unfolding tier_eq is_error
snapshot_available now a =
    if usage_exhausted a
    then false
    else if quota_auto_paused now a
    then false
    else if premium5h_rate_limited now a
    then false
    else if in_cooldown now a
    then false
    else if a.dispatch_paused
    then false
    else not (is_error a.status)
      && not (tier_eq (health_tier_locked a) banned)
      && has_dispatch_credential a

unfoldable pub snapshot_of : ℕ → ℕ → Account → Snapshot
unfolding snapshot_score snapshot_limit snapshot_available
snapshot_of base_limit now a = record {
  tier = health_tier_locked a;
  score = snapshot_score now a;
  limit = snapshot_limit base_limit a;
  proven = ltb 10 a.total_requests;
  available = snapshot_available now a;
}

-- The update that the snapshot makes first, for a plan with a valid usage window.
unfoldable pub refreshed : ℕ → ℕ → Account → Account
refreshed base_limit now a =
    if is_premium5h_plan a.plan_type && a.usage_percent_5h_valid
      || is_plus_or_higher_plan a.plan_type && a.usage_percent_7d_valid
    then recompute_scheduler base_limit now a
    else a

unfoldable pub fast_scheduler_snapshot : ℕ → ℕ → Account → Account × Snapshot
unfolding refreshed snapshot_of
fast_scheduler_snapshot base_limit now a =
    let a' = refreshed base_limit now a in (a', snapshot_of base_limit now a')

-- Between the load and the compare-and-swap nothing else happens here; Gate.antt has the threads.
unfoldable pub try_acquire_account : ℕ → ℕ → Account → Account × Bool
try_acquire_account limit now a =
    if limit == 0 then (a, false) else if leb limit a.active_requests then (a, false) else (
      record a {
        active_requests = a.active_requests + 1;
        total_requests = a.total_requests + 1;
        last_used_at = now;
      },
      true,
    )
