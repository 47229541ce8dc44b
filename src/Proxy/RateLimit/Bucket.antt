-- ===== src/Proxy/RateLimit/Bucket.antt =====
-- proxy/ratelimit.go, lines 59 to 161: `tokenBucket`. Tokens are counted in 1/`token` of a token, so
-- that a rate of `rpm` per minute is `rpm` units in a nanosecond and refilling is exact; float64
-- rounding is not modelled, and `updateRPM` rounds its quotient down to a unit.
use qoder2api.Prelude.{ℕ, ◌+◌, ◌-◌, ◌*◌, ◌/◌, Bool, true, false, if◌then◌else◌, ltb, leb, ◌==◌}

-- 60 s in nanoseconds
abbrev pub token : ℕ
token = 60_000_000_000

pub record TokenBucket : Type 0 where
  pub tokens : ℕ
  pub max_tokens : ℕ
  pub refill_rate : ℕ
  pub last_refill : ℕ

unfoldable pub new_token_bucket : ℕ → ℕ → TokenBucket
new_token_bucket rpm now = record {
  tokens = rpm * token;
  max_tokens = rpm * token;
  refill_rate = rpm;
  last_refill = now;
}

-- if tb.tokens > tb.maxTokens { tb.tokens = tb.maxTokens }
abbrev pub capped : ℕ → ℕ → ℕ
capped max_tokens tokens = if ltb max_tokens tokens then max_tokens else tokens

-- What the bucket holds at `now`.
unfoldable pub refill : ℕ → TokenBucket → TokenBucket
refill now tb = record tb {
  tokens = capped tb.max_tokens (tb.tokens + (now - tb.last_refill) * tb.refill_rate);
  last_refill = now;
}

-- if tb.tokens >= n { tb.tokens -= n; return true }; return false
unfoldable pub draw : ℕ → TokenBucket → Bool × TokenBucket
draw n tb =
    if leb (n * token) tb.tokens
    then (true, record tb { tokens = tb.tokens - n * token })
    else (false, tb)

unfoldable pub allow : ℕ → TokenBucket → Bool × TokenBucket
unfolding refill draw
allow now tb = draw 1 (refill now tb)

unfoldable pub allow_n : ℕ → ℕ → TokenBucket → Bool × TokenBucket
unfolding refill draw
allow_n n now tb = if n == 0 then (true, tb) else draw n (refill now tb)

-- In requests per minute.
unfoldable pub get_rate : TokenBucket → ℕ
get_rate tb = tb.refill_rate

unfoldable pub get_tokens : ℕ → TokenBucket → ℕ
unfolding refill
get_tokens now tb = (refill now tb).tokens

unfoldable pub update_rpm : ℕ → ℕ → TokenBucket → TokenBucket
update_rpm rpm now tb = record {
  tokens =
      capped (rpm * token)
        (if ltb 0 tb.max_tokens then tb.tokens * (rpm * token) / tb.max_tokens else rpm * token);
  max_tokens = rpm * token;
  refill_rate = rpm;
  last_refill = now;
}
