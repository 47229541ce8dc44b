-- ===== src/Proxy/RateLimit/Level.antt =====
-- proxy/ratelimit.go, lines 269 to 433: `LevelLimiter`, a bucket and a cooldown with their metrics.
-- The counts do not wrap: an int64 would take 2^63 requests. A nil bucket is `none`; an enabled
-- limiter has one (`IsValid` in Blocking.antt), so that the code never calls a nil bucket. The level
-- of a limiter (global, account, model) is its name.
use qoder2api.Prelude.{ℕ, ◌+◌, Bool, true, false, not, Option, none, some, if◌then◌else◌}
use qoder2api.Prelude.Int.{ℤ, pos, negsuc, pos_part, ltb_ℤ, leb_ℤ}
use qoder2api.Prelude.Text.{Text}
use qoder2api.Proxy.RateLimit.Bucket.{
  TokenBucket, new_token_bucket, allow, allow_n, get_rate, update_rpm,
}
use qoder2api.Proxy.RateLimit.Cooldown.{
  CooldownManager, new_cooldown_manager, enter_cooldown, reset, is_in_cooldown,
}

pub data RateLimitLevel : Type 0 where
  level_global level_account level_model : RateLimitLevel

pub record LimitMetrics : Type 0 where
  pub total_requests : ℕ
  pub allowed_requests : ℕ
  pub blocked_requests : ℕ
  pub current_rpm : ℕ
  pub limit_rpm : ℤ
  pub cooldown_level : ℤ
  pub next_reset_at : ℕ
  pub last_updated_at : ℕ

-- LimitMetrics{}
abbrev pub no_metrics : LimitMetrics
no_metrics = record {
  total_requests = 0;
  allowed_requests = 0;
  blocked_requests = 0;
  current_rpm = 0;
  limit_rpm = pos 0;
  cooldown_level = pos 0;
  next_reset_at = 0;
  last_updated_at = 0;
}

pub record LimitSnapshot : Type 0 where
  pub key : Text
  pub level : RateLimitLevel
  pub current_rpm : ℕ
  pub limit_rpm : ℤ
  pub blocked : Bool
  pub blocked_at : ℕ
  pub reset_at : ℕ

pub record LevelLimiter : Type 0 where
  pub key : Text
  pub level : RateLimitLevel
  pub bucket : Option TokenBucket
  pub cooldown : CooldownManager
  pub metrics : LimitMetrics
  pub enabled : Bool
  pub last_access : ℕ

-- rpm > 0
abbrev pub is_limit : ℤ → Bool
is_limit rpm = ltb_ℤ (pos 0) rpm

unfoldable pub new_level_limiter : Text → RateLimitLevel → ℤ → ℕ → LevelLimiter
unfolding new_token_bucket new_cooldown_manager
new_level_limiter key level rpm now = record {
  key = key;
  level = level;
  bucket = if is_limit rpm then some (new_token_bucket (pos_part rpm) now) else none;
  cooldown = new_cooldown_manager;
  metrics = if is_limit rpm then record no_metrics { limit_rpm = rpm } else no_metrics;
  enabled = is_limit rpm;
  last_access = now;
}

-- (ll *LevelLimiter) enterCooldown
unfoldable pub start_cooldown : ℕ → LevelLimiter → LevelLimiter
start_cooldown now ll =
    let cm = (enter_cooldown now ll.cooldown).1 in
    record ll {
      cooldown = cm;
      metrics = record ll.metrics { cooldown_level = cm.level; next_reset_at = cm.reset_at };
    }

unfoldable pub reset_cooldown : LevelLimiter → LevelLimiter
unfolding reset
reset_cooldown ll = record ll {
  cooldown = reset ll.cooldown;
  metrics = record ll.metrics { cooldown_level = negsuc 0; next_reset_at = 0 };
}

-- What every call does first.
unfoldable pub arrive : ℕ → ℕ → LevelLimiter → LevelLimiter
arrive n now ll = record ll {
  last_access = now;
  metrics = record ll.metrics {
    total_requests = ll.metrics.total_requests + n;
    last_updated_at = now;
  };
}

unfoldable pub block : ℕ → LevelLimiter → LevelLimiter
block n ll = record ll {
  metrics = record ll.metrics { blocked_requests = ll.metrics.blocked_requests + n };
}

-- The answer of the bucket, for an enabled limiter that is not in its cooldown.
unfoldable pub settle : ℕ → ℕ → Bool × TokenBucket → LevelLimiter → Bool × LevelLimiter
settle n now (true, tb) ll = (
  true,
  record ll {
    bucket = some tb;
    metrics = record ll.metrics { allowed_requests = ll.metrics.allowed_requests + n };
  },
)
settle n now (false, tb) ll = (false, block n (start_cooldown now (record ll { bucket = some tb })))

-- Only `allow` notes the rate.
unfoldable pub note_rate : Bool × LevelLimiter → Bool × LevelLimiter
unfolding get_rate
note_rate (true, ll) = (
  true,
  record ll {
    metrics = record ll.metrics {
      current_rpm = elim ll.bucket [ none ↦ ll.metrics.current_rpm | some tb ↦ get_rate tb ];
    };
  },
)
note_rate (false, ll) = (false, ll)

-- (ll *LevelLimiter) allow
unfoldable pub admit : ℕ → LevelLimiter → Bool × LevelLimiter
admit now ll =
    let ll' = arrive 1 now ll in
    if not ll'.enabled
    then (true, ll')
    else if is_in_cooldown now ll'.cooldown
    then (false, block 1 ll')
    else elim ll'.bucket [
      | none ↦ (false, ll')
      | some tb ↦ note_rate (settle 1 now (allow now tb) ll')
    ]

-- (ll *LevelLimiter) allowN
unfoldable pub admit_n : ℕ → ℕ → LevelLimiter → Bool × LevelLimiter
admit_n n now ll =
    let ll' = arrive n now ll in
    if not ll'.enabled
    then (true, ll')
    else if is_in_cooldown now ll'.cooldown
    then (false, block n ll')
    else elim ll'.bucket [ none ↦ (false, ll') | some tb ↦ settle n now (allow_n n now tb) ll' ]

-- (ll *LevelLimiter) updateRPM
unfoldable pub change_rpm : ℤ → ℕ → LevelLimiter → LevelLimiter
change_rpm rpm now ll = record ll {
  enabled = is_limit rpm;
  metrics = record ll.metrics { limit_rpm = rpm };
  bucket =
      if is_limit rpm
      then (elim ll.bucket [
        | none ↦ some (new_token_bucket (pos_part rpm) now)
        | some tb ↦ some (update_rpm (pos_part rpm) now tb)
      ])
      else none;
}

unfoldable pub get_metrics : LevelLimiter → LimitMetrics
unfolding get_rate
get_metrics ll = record ll.metrics {
  current_rpm = elim ll.bucket [ none ↦ ll.metrics.current_rpm | some tb ↦ get_rate tb ];
  cooldown_level = ll.cooldown.level;
  next_reset_at = ll.cooldown.reset_at;
}

unfoldable pub get_snapshot : LevelLimiter → LimitSnapshot
get_snapshot ll = record {
  key = ll.key;
  level = ll.level;
  current_rpm = ll.metrics.current_rpm;
  limit_rpm = ll.metrics.limit_rpm;
  blocked = leb_ℤ (pos 0) ll.cooldown.level;
  blocked_at = ll.cooldown.blocked_at;
  reset_at = ll.cooldown.reset_at;
}
