-- ===== src/Auth/Refresh/Tasks.antt =====
-- auth/refresh_scheduler.go: a task, the configuration, and the times and priorities of tasks.
-- The backoff of a retry wraps around at 64 bits, where a number of 2^63 or more stands for a negative
-- one; the other durations are taken to stay below 2^63 ns.
use qoder2api.Prelude.{
  ℕ, ◌+◌, ◌-◌, ◌*◌, ◌/◌, ◌%◌, ◌^◌, Bool, true, false, ◌&&◌, ◌||◌, Option, if◌then◌else◌, leb, ltb,
  ◌==◌,
}
use qoder2api.Prelude.Text.{Text, codes, contains, to_lower}
use qoder2api.Auth.Account.{Account, AccountHealthTier, unset, healthy, warm, risky, banned}

pub data RefreshState : Type 0 where
  refresh_state_pending : RefreshState
  refresh_state_running : RefreshState
  refresh_state_success : RefreshState
  refresh_state_failed : RefreshState
  refresh_state_retrying : RefreshState

-- The account is named by its id in the database, an error by its text.
pub record RefreshTask : Type 0 where
  pub account : ℕ
  pub scheduled_at : ℕ
  pub priority : ℕ
  pub attempts : ℕ
  pub state : RefreshState
  pub last_error : Option Text
  pub next_retry_at : ℕ

-- The share of jitter is in thousandths, and at most 1000.
pub record RefreshConfig : Type 0 where
  pub max_concurrency : ℕ
  pub min_interval : ℕ
  pub pre_expire_window : ℕ
  pub retry_backoff_base : ℕ
  pub retry_max_attempts : ℕ
  pub jitter_percent : ℕ
  pub enable_batch_optimize : Bool
  pub batch_size : ℕ

unfoldable pub millisecond : ℕ
millisecond = 1_000_000

unfoldable pub second : ℕ
unfolding millisecond
second = 1_000 * millisecond

unfoldable pub minute : ℕ
unfolding second
minute = 60 * second

unfoldable pub default_refresh_config : RefreshConfig
unfolding millisecond second minute
default_refresh_config = record {
  max_concurrency = 10;
  min_interval = 100 * millisecond;
  pre_expire_window = 5 * minute;
  retry_backoff_base = 1 * second;
  retry_max_attempts = 3;
  jitter_percent = 100;
  enable_batch_optimize = true;
  batch_size = 5;
}

-- What rand.Float64() gives: num / den, below 1.
pub record Draw : Type 0 where
  pub num : ℕ
  pub den : ℕ

-- base + base * percent * (2 * r - 1), the second part truncated towards 0.
unfoldable pub random_jitter : ℕ → Draw → ℕ → ℕ
random_jitter percent r base =
    if percent == 0
    then base
    else if leb r.den (2 * r.num)
    then base + base * (percent * (2 * r.num - r.den)) / (1_000 * r.den)
    else base - base * (percent * (r.den - 2 * r.num)) / (1_000 * r.den)

-- Time until the expiry < d, also when the expiry has passed.
unfoldable pub expires_within : ℕ → ℕ → ℕ → Bool
expires_within now d expires_at = ltb expires_at (now + d)

-- The first jitter is that of the branch, the second that of a time that has passed.
unfoldable pub calculate_optimal_time : RefreshConfig → Draw → Draw → ℕ → Account → ℕ
unfolding random_jitter expires_within millisecond second
calculate_optimal_time c r1 r2 now a =
    let soon = now + random_jitter c.jitter_percent r1 (100 * millisecond) in
    let before =
      a.expires_at - c.pre_expire_window + random_jitter c.jitter_percent r1 c.min_interval in
    let target =
      if a.expires_at == 0
      then now + 30 * second
      else if expires_within now c.pre_expire_window a.expires_at
      then soon
      else before in
    if ltb target now then now + random_jitter c.jitter_percent r2 (100 * millisecond) else target

unfoldable pub tier_urgency : AccountHealthTier → ℕ
tier_urgency unset = 0
tier_urgency healthy = 30
tier_urgency warm = 20
tier_urgency risky = 10
tier_urgency banned = 0

unfoldable pub calculate_priority : ℕ → Account → ℕ
unfolding tier_urgency expires_within second minute
calculate_priority now a =
    tier_urgency a.health_tier
    + (if a.expires_at == 0
        then 0
        else if expires_within now (30 * second) a.expires_at
        then 100
        else if expires_within now (2 * minute) a.expires_at
        then 50
        else if expires_within now (5 * minute) a.expires_at
        then 20
        else 0)

abbrev pub two_63 : ℕ
two_63 = 9_223_372_036_854_775_808

abbrev pub two_64 : ℕ
two_64 = 18_446_744_073_709_551_616

-- time.Duration(math.Pow(2, float64(attempts-1))), for attempts from 1 on. A power of 2^63 or more is
-- out of range: it becomes the least number, as on amd64.
unfoldable pub doublings : ℕ → ℕ
doublings attempts = if ltb (attempts - 1) 63 then 2 ^ (attempts - 1) else two_63

-- base * 2^(attempts - 1) in 64 bits, at most 5 minutes.
unfoldable pub backoff_of : RefreshConfig → ℕ → ℕ
unfolding minute doublings
backoff_of c attempts =
    let backoff = c.retry_backoff_base * doublings attempts % two_64 in
    if ltb backoff two_63 && ltb (5 * minute) backoff then 5 * minute else backoff

-- A negative backoff leads back in time: its tenth and the jitter of that are negative, too.
unfoldable pub calculate_retry_time : RefreshConfig → Draw → ℕ → ℕ → ℕ
unfolding backoff_of random_jitter
calculate_retry_time c r now attempts =
    let backoff = backoff_of c attempts in
    let back = two_64 - backoff in
    if ltb backoff two_63
    then now + (backoff + random_jitter c.jitter_percent r (backoff / 10))
    else now - (back + random_jitter c.jitter_percent r (back / 10))

-- auth/token.go: isNonRetryable, on the text of an error.
unfoldable pub is_non_retryable : Text → Bool
unfolding to_lower contains
is_non_retryable err =
    let msg = to_lower err in
    contains msg (codes "invalid_grant")
    || (contains msg (codes "invalid_client")
        || (contains msg (codes "unauthorized_client")
            || (contains msg (codes "access_denied")
                || contains msg (codes "refresh_token_reused"))))

unfoldable pub is_pending : RefreshState → Bool
is_pending refresh_state_pending = true
is_pending refresh_state_running = false
is_pending refresh_state_success = false
is_pending refresh_state_failed = false
is_pending refresh_state_retrying = false

unfoldable pub is_running : RefreshState → Bool
is_running refresh_state_pending = false
is_running refresh_state_running = true
is_running refresh_state_success = false
is_running refresh_state_failed = false
is_running refresh_state_retrying = false

unfoldable pub is_retrying : RefreshState → Bool
is_retrying refresh_state_pending = false
is_retrying refresh_state_running = false
is_retrying refresh_state_success = false
is_retrying refresh_state_failed = false
is_retrying refresh_state_retrying = true
