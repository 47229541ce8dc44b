-- ===== src/Auth/LifeCycle.antt =====
-- auth/store.go, lines 4300 to 4660 and 5104 to 5129: what the outcome of a request, an error, the
-- administrator or a recovery probe does to an account. The functions here are on the account; Auth.Store.Marks has those of the store.
-- The average latency is in thousandths of a millisecond, rounded down.

pub mod Streaks
pub mod Recovery
pub mod ModelMarks
use qoder2api.Prelude.{
  ℕ, suc, ◌+◌, ◌-◌, ◌*◌, ◌/◌, Bool, true, false, not, ◌&&◌, ◌||◌, List, [], ◌∷◌, if◌then◌else◌, leb,
  ltb, ◌==◌, min, length,
}
use qoder2api.Prelude.Int.{pos}
use qoder2api.Prelude.Text.{Text, is, text_eq, trim_space}
use qoder2api.Auth.Account.{
  Account, ready, error, unset, healthy, warm, risky, banned, hour, tier_eq, is_error, is_cooldown,
  health_tier_locked, AccountHealthTier,
}
use qoder2api.Auth.Usage.{premium5h_rate_limited, usage_exhausted}
use qoder2api.Auth.Recompute.{recompute_scheduler}
use qoder2api.Auth.Availability.{set_cooldown_until}
use qoder2api.Auth.Results.{record_result}

-- The first bytes of a text.
unfoldable pub first_bytes : ℕ → Text → Text
first_bytes n [] = []
first_bytes n (c ∷ s) = let rest = first_bytes (n - 1) s in if n == 0 then [] else c ∷ rest

-- The message, or what is said without one; at most 500 bytes.
unfoldable pub normalize_account_error_message : Text → Text → Text
unfolding trim_space text_eq first_bytes
normalize_account_error_message msg fallback =
    let msg' = if is "" (trim_space msg) then trim_space fallback else trim_space msg in
    if ltb 500 (length msg') then first_bytes 500 msg' else msg'

unfoldable pub record_latency : ℕ → Account → Account
record_latency latency a =
    let ms = latency / 1_000_000 in
    if ms == 0 then a else record a {
      latency_ewma =
          if a.latency_ewma == 0 then ms * 1_000 else (a.latency_ewma * 8 + ms * 2_000) / 10;
    }

-- clampInt(v, 0, 20)
unfoldable pub clamp_streak : ℕ → ℕ
clamp_streak v = min v 20

-- The switch on the reason in `markCooldown`.
unfoldable pub marked_reason : ℕ → Text → Account → Account
unfolding text_eq tier_eq
marked_reason now reason a =
    let failing = record a {
      last_failure_at = now;
      failure_streak = a.failure_streak + 1;
      success_streak = 0;
    } in
    if is "unauthorized" reason
    then record failing { last_unauthorized_at = now; health_tier = banned }
    else if is "rate_limited" reason
    then record failing {
      last_rate_limited_at = now;
      health_tier = if tier_eq (health_tier_locked a) healthy then warm else risky;
    }
    else a

-- An account without authorization cools down for 6 hours, and for 24 if that happened in the last
-- 24 hours.
unfoldable pub cooldown_duration : ℕ → ℕ → Text → Account → ℕ
unfolding text_eq
cooldown_duration now duration reason a =
    if is "unauthorized" reason
    then (if not (a.last_unauthorized_at == 0) && ltb (now - a.last_unauthorized_at) (24 * hour)
        then 24 * hour
        else 6 * hour)
    else duration

unfoldable pub with_error : Text → Account → Account
unfolding text_eq
with_error msg a = if is "" msg then a else record a { error_msg = msg }

-- `markCooldown`, on the account.
unfoldable pub mark_cooldown_account : ℕ → ℕ → ℕ → Text → Text → Account → Account
unfolding marked_reason cooldown_duration with_error set_cooldown_until
mark_cooldown_account max_concurrency now duration reason msg a =
    set_cooldown_until (now + cooldown_duration now duration reason a) reason
      (recompute_scheduler max_concurrency now (with_error msg (marked_reason now reason a)))

-- `MarkError`, on the account.
unfoldable pub mark_error_account : ℕ → ℕ → Text → Account → Account
unfolding tier_eq
mark_error_account max_concurrency now msg a = recompute_scheduler max_concurrency now (record a {
  status = error;
  error_msg = msg;
  cooldown_util = 0;
  cooldown_reason = [];
  last_failure_at = now;
  failure_streak = a.failure_streak + 1;
  success_streak = 0;
  health_tier = if tier_eq a.health_tier banned then banned else risky;
})

-- `ClearCooldown`, on the account.
unfoldable pub clear_cooldown_account : ℕ → ℕ → Account → Account
unfolding tier_eq is_error is_cooldown
clear_cooldown_account max_concurrency now a = recompute_scheduler max_concurrency now (record a {
  disabled = false;
  status = if is_cooldown a.status || is_error a.status then ready else a.status;
  error_msg = [];
  cooldown_util = 0;
  cooldown_reason = [];
  health_tier =
      if is_cooldown a.status && not (premium5h_rate_limited now a)
      then warm
      else if is_error a.status && not (tier_eq a.health_tier banned)
      then warm
      else a.health_tier;
})

-- `RecordManualTestSuccess`, on the account.
unfoldable pub record_manual_test_success_account : ℕ → ℕ → ℕ → Account → Account
unfolding tier_eq is_error is_cooldown record_latency record_result clamp_streak
record_manual_test_success_account max_concurrency now latency a =
    let a' = record_result true (record_latency latency a) in
    recompute_scheduler max_concurrency now (record a' {
      disabled = false;
      status = if is_cooldown a.status || is_error a.status then ready else a.status;
      error_msg = [];
      cooldown_util = 0;
      cooldown_reason = [];
      last_success_at = now;
      success_streak = clamp_streak (a.success_streak + 1);
      failure_streak = 0;
      health_tier =
          if premium5h_rate_limited now a
          then risky
          else if tier_eq a.health_tier banned || (is_cooldown a.status || is_error a.status)
          then warm
          else if tier_eq a.health_tier unset
          then healthy
          else a.health_tier;
    })

-- `ReportRequestSuccess`, on the account.
unfoldable pub report_request_success_account : ℕ → ℕ → ℕ → Account → Account
unfolding tier_eq record_latency record_result clamp_streak
report_request_success_account max_concurrency now latency a =
    let a' = record_result true (record_latency latency a) in
    recompute_scheduler max_concurrency now (record a' {
      last_success_at = now;
      success_streak = clamp_streak (a.success_streak + 1);
      failure_streak = 0;
      health_tier = if tier_eq a.health_tier unset then healthy else a.health_tier;
    })

-- Healthy becomes warm, everything else risky.
unfoldable pub lowered_tier : AccountHealthTier → AccountHealthTier
unfolding tier_eq
lowered_tier t = if tier_eq t healthy then warm else risky

-- The switch on the kind in `ReportRequestFailure`.
unfoldable pub failed_kind : ℕ → Text → Account → Account
unfolding text_eq tier_eq lowered_tier
failed_kind now kind a =
    if is "unauthorized" kind
    then record a { last_unauthorized_at = now; health_tier = banned }
    else if is "timeout" kind
    then record a { last_timeout_at = now; health_tier = lowered_tier a.health_tier }
    else if is "server" kind
    then record a { last_server_error_at = now; health_tier = lowered_tier a.health_tier }
    else if is "transport" kind
    then record a { health_tier = lowered_tier a.health_tier }
    else if is "client" kind
    then record a { health_tier = if tier_eq a.health_tier healthy then warm else a.health_tier }
    else a

-- `ReportRequestFailure`, on the account.
unfoldable pub report_request_failure_account : ℕ → ℕ → Text → ℕ → Account → Account
unfolding failed_kind record_latency record_result clamp_streak
report_request_failure_account max_concurrency now kind latency a =
    let a' = record_result false (record_latency latency a) in
    recompute_scheduler max_concurrency now (
      failed_kind now kind (record a' {
        last_failure_at = now;
        failure_streak = clamp_streak (a.failure_streak + 1);
        success_streak = 0;
      }))

-- What MarkModelCooldown does to the account itself.
unfoldable pub mark_model_account : ℕ → ℕ → Account → Account
unfolding tier_eq clamp_streak
mark_model_account max_concurrency now a = recompute_scheduler max_concurrency now (record a {
  last_rate_limited_at = now;
  last_failure_at = now;
  failure_streak = clamp_streak (a.failure_streak + 1);
  success_streak = 0;
  health_tier =
      if tier_eq (health_tier_locked a) healthy
      then warm
      else if tier_eq a.health_tier banned
      then banned
      else risky;
})

-- What a recovery probe that succeeds does to a banned account.
unfoldable pub revived_account : ℕ → ℕ → Account → Account
unfolding is_cooldown
revived_account max_concurrency now a =
    let was = is_cooldown a.status in
    recompute_scheduler max_concurrency now (record a {
      health_tier = warm;
      scheduler_score = pos 80;
      failure_streak = 0;
      success_streak = 1;
      last_success_at = now;
      status = if was then ready else a.status;
      cooldown_util = if was then 0 else a.cooldown_util;
      cooldown_reason = if was then [] else a.cooldown_reason;
    })

-- A recovery probe that succeeds, on the account; an exhausted account stays as it is.
unfoldable pub recovery_probe_account : ℕ → ℕ → Account → Account
unfolding tier_eq revived_account
recovery_probe_account max_concurrency now a =
    let on = record a { disabled = false } in
    if usage_exhausted a
    then a
    else if tier_eq a.health_tier banned
    then revived_account max_concurrency now on
    else on
