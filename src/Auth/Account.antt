-- ===== src/Auth/Account.antt =====
-- auth/store.go: the runtime state of an account, as far as scheduling reads or writes it.
-- A time is a number of nanoseconds, 0 for Go's zero time. A usage percentage counts thousandths of
-- a percent and an auto-pause threshold hundred-thousandths, so `usage/100 >= threshold` compares
-- the two numbers. Concurrency limits are natural numbers: the code tests them by `<= 0`, which a
-- negative limit passes as 0 does. The four flags that the code keeps as an int32 are Booleans.
use qoder2api.Prelude.{ℕ, Bool, true, false, ◌&&◌, not, List, Option, if◌then◌else◌, ltb}
use qoder2api.Prelude.Int.{ℤ}
use qoder2api.Prelude.Text.{Text, codes, is, trim_space, equal_fold, text_eq}

pub data AccountStatus : Type 0 where
  ready cooldown error : AccountStatus

-- `unset` is the empty string, the zero value of the field.
pub data AccountHealthTier : Type 0 where
  unset healthy warm risky banned : AccountHealthTier

pub record Account : Type 0 where
  pub db_id : ℕ
  pub refresh_token : Text
  pub session_token : Text
  pub access_token : Text
  pub expires_at : ℕ
  pub plan_type : Text
  pub upstream_type : Text
  pub base_url : Text
  pub api_key : Text
  pub status : AccountStatus
  pub cooldown_util : ℕ
  pub cooldown_reason : Text
  pub error_msg : Text
  pub usage_percent_7d : ℕ
  pub usage_percent_7d_valid : Bool
  pub reset_7d_at : ℕ
  pub usage_percent_5h : ℕ
  pub usage_percent_5h_valid : Bool
  pub reset_5h_at : ℕ
  pub usage_updated_at : ℕ
  pub auto_pause_5h_disabled : Bool
  pub auto_pause_7d_disabled : Bool
  pub effective_auto_pause_5h : ℕ
  pub effective_auto_pause_7d : ℕ
  pub health_tier : AccountHealthTier
  pub scheduler_score : ℤ
  pub dispatch_score : ℤ
  pub score_bias_effective : ℤ
  pub base_concurrency_effective : ℕ
  pub dynamic_concurrency_limit : ℕ
  pub latency_ewma : ℕ
  pub success_streak : ℕ
  pub failure_streak : ℕ
  pub last_success_at : ℕ
  pub last_failure_at : ℕ
  pub last_unauthorized_at : ℕ
  pub last_rate_limited_at : ℕ
  pub last_timeout_at : ℕ
  pub last_server_error_at : ℕ
  pub recent_results : List ℕ
  pub recent_results_idx : ℕ
  pub recent_results_cnt : ℕ
  pub active_requests : ℕ
  pub total_requests : ℕ
  pub last_used_at : ℕ
  pub disabled : Bool
  pub dispatch_paused : Bool
  pub score_bias_override : Option ℤ
  pub base_concurrency_override : Option ℕ
  pub credit_enabled : Bool
  pub credit_skip_usage_window : Bool
  pub skip_warm_tier : Bool
  pub allowed_api_key_ids : List ℕ
  pub subscription_expires_at : ℕ

-- Durations, in nanoseconds.
abbrev pub second : ℕ
second = 1_000_000_000

abbrev pub minute : ℕ
minute = 60_000_000_000

abbrev pub hour : ℕ
hour = 3_600_000_000_000

abbrev pub day : ℕ
day = 86_400_000_000_000

-- 100 percent of a usage window.
abbrev pub full_usage : ℕ
full_usage = 100_000

unfoldable pub tier_eq : AccountHealthTier → AccountHealthTier → Bool
tier_eq unset unset = true
tier_eq healthy healthy = true
tier_eq warm warm = true
tier_eq risky risky = true
tier_eq banned banned = true
tier_eq _ _ = false

unfoldable pub is_error : AccountStatus → Bool
is_error error = true
is_error _ = false

unfoldable pub is_cooldown : AccountStatus → Bool
is_cooldown cooldown = true
is_cooldown _ = false

unfoldable pub is_openai_responses_api : Account → Bool
unfolding equal_fold trim_space text_eq
is_openai_responses_api a =
    equal_fold (trim_space a.upstream_type) (codes "openai_responses")
    && not (is "" (trim_space a.base_url))
    && not (is "" (trim_space a.api_key))

unfoldable pub has_dispatch_credential : Account → Bool
unfolding is_openai_responses_api
has_dispatch_credential a =
    if is_openai_responses_api a then true else not (is "" (trim_space a.access_token))

-- The tier that the account is in: an account that was never scored counts as healthy if it can be
-- dispatched to, and as warm if not.
unfoldable pub health_tier_locked : Account → AccountHealthTier
unfolding tier_eq
health_tier_locked a =
    if not (tier_eq a.health_tier unset)
    then a.health_tier
    else if has_dispatch_credential a
    then healthy
    else warm

-- a.Status == StatusCooldown && now.Before(a.CooldownUtil)
unfoldable pub in_cooldown : ℕ → Account → Bool
unfolding is_cooldown
in_cooldown now a = is_cooldown a.status && ltb now a.cooldown_util
