-- ===== src/Proxy/RateLimit/Enhanced.antt =====
-- proxy/ratelimit.go, lines 435 to 738: `EnhancedRateLimiter`, the global limiter and a limiter for
-- each account and each model, made when it is first asked for. The maps are association lists. One
-- call runs at a time, which the lock does but for the moment in which a new limiter is made, and
-- that moment looks the key up once more.
use qoder2api.Prelude.{
  ℕ, ◌+◌, ◌-◌, Bool, true, false, not, ◌&&◌, ◌||◌, List, [], ◌∷◌, ◌++◌, map, none, some,
  if◌then◌else◌, ltb, find, store, retain,
}
use qoder2api.Prelude.Int.{ℤ}
use qoder2api.Prelude.Text.{Text, codes, is, text_eq, text_key}
use qoder2api.Proxy.RateLimit.Level.{
  LevelLimiter, LimitMetrics, LimitSnapshot, RateLimitLevel, level_global, level_account,
  level_model, no_metrics, is_limit, new_level_limiter, admit, change_rpm, get_metrics,
  get_snapshot,
}

pub record EnhancedRateLimiter : Type 0 where
  pub global_limiter : LevelLimiter
  pub account_limiters : List (Text × LevelLimiter)
  pub model_limiters : List (Text × LevelLimiter)
  pub global_rpm : ℤ
  pub account_rpm : ℤ
  pub model_rpm : ℤ
  pub enabled : Bool
  pub total_limited : ℕ

unfoldable pub new_enhanced_rate_limiter : ℤ → ℤ → ℤ → ℕ → EnhancedRateLimiter
new_enhanced_rate_limiter global_rpm account_rpm model_rpm now = record {
  global_limiter = new_level_limiter (codes "global") level_global global_rpm now;
  account_limiters = [];
  model_limiters = [];
  global_rpm = global_rpm;
  account_rpm = account_rpm;
  model_rpm = model_rpm;
  enabled = is_limit global_rpm || is_limit account_rpm || is_limit model_rpm;
  total_limited = 0;
}

-- (erl *EnhancedRateLimiter) Allow
unfoldable pub allow_global : ℕ → EnhancedRateLimiter → Bool × EnhancedRateLimiter
allow_global now erl =
    if not erl.enabled
    then (true, erl)
    else let (ok, ll) = admit now erl.global_limiter in (ok, record erl { global_limiter = ll })

-- The limiter of a key, or a new one.
unfoldable pub limiter_of :
    RateLimitLevel → ℤ → ℕ → Text → List (Text × LevelLimiter) → LevelLimiter
limiter_of level rpm now key m = elim (find key m) [
  | none ↦ new_level_limiter key level rpm now
  | some ll ↦ ll
]

-- One of the steps 2 and 3: `rpm > 0 && key != ""`, the key's limiter, and its answer.
unfoldable pub check_keyed :
    RateLimitLevel → ℤ → ℕ → Text → List (Text × LevelLimiter) → Bool × List (Text × LevelLimiter)
unfolding text_eq
check_keyed level rpm now key m =
    if is_limit rpm && not (is "" key)
    then (let (ok, ll) = admit now (limiter_of level rpm now key m) in (ok, store key ll m))
    else (true, m)

abbrev pub limited : EnhancedRateLimiter → EnhancedRateLimiter
limited erl = record erl { total_limited = erl.total_limited + 1 }

unfoldable pub allow_with_context :
    Text → Text → ℕ → EnhancedRateLimiter → Bool × EnhancedRateLimiter
allow_with_context account_id model now erl =
    if not erl.enabled
    then (true, erl)
    else let (ok, ll) = admit now erl.global_limiter in
      let erl1 = record erl { global_limiter = ll } in
      if not ok
      then (false, limited erl1)
      else let (ok2, accounts) =
          check_keyed level_account erl.account_rpm now account_id erl.account_limiters in
        let erl2 = record erl1 { account_limiters = accounts } in
        if not ok2
        then (false, limited erl2)
        else let (ok3, models) =
            check_keyed level_model erl.model_rpm now model erl.model_limiters in
          let erl3 = record erl2 { model_limiters = models } in
          if not ok3 then (false, limited erl3) else (true, erl3)

-- for _, limiter := range m { limiter.updateRPM(rpm) }
unfoldable pub change_all : ℤ → ℕ → List (Text × LevelLimiter) → List (Text × LevelLimiter)
change_all rpm now = map (λ (x : Text × LevelLimiter). (x.0, change_rpm rpm now x.1))

abbrev pub with_enabled : EnhancedRateLimiter → EnhancedRateLimiter
with_enabled erl = record erl {
  enabled = is_limit erl.global_rpm || is_limit erl.account_rpm || is_limit erl.model_rpm;
}

unfoldable pub update_global_rpm : ℤ → ℕ → EnhancedRateLimiter → EnhancedRateLimiter
update_global_rpm rpm now erl =
    with_enabled
      (record erl { global_rpm = rpm; global_limiter = change_rpm rpm now erl.global_limiter })

unfoldable pub update_account_rpm : ℤ → ℕ → EnhancedRateLimiter → EnhancedRateLimiter
update_account_rpm rpm now erl =
    with_enabled
      (record erl { account_rpm = rpm; account_limiters = change_all rpm now erl.account_limiters })

unfoldable pub update_model_rpm : ℤ → ℕ → EnhancedRateLimiter → EnhancedRateLimiter
update_model_rpm rpm now erl =
    with_enabled
      (record erl { model_rpm = rpm; model_limiters = change_all rpm now erl.model_limiters })

unfoldable pub update_all_rpm : ℤ → ℤ → ℤ → ℕ → EnhancedRateLimiter → EnhancedRateLimiter
update_all_rpm global_rpm account_rpm model_rpm now erl = with_enabled (record erl {
  global_rpm = global_rpm;
  account_rpm = account_rpm;
  model_rpm = model_rpm;
  global_limiter = change_rpm global_rpm now erl.global_limiter;
  account_limiters = change_all account_rpm now erl.account_limiters;
  model_limiters = change_all model_rpm now erl.model_limiters;
})

-- limiter.getMetrics(), or LimitMetrics{} for a key that has no limiter.
unfoldable pub get_keyed_metrics : Text → List (Text × LevelLimiter) → LimitMetrics
get_keyed_metrics key m = elim (find key m) [ none ↦ no_metrics | some ll ↦ get_metrics ll ]

unfoldable pub get_all_snapshots : EnhancedRateLimiter → List LimitSnapshot
get_all_snapshots erl =
    get_snapshot erl.global_limiter
      ∷ map (λ (x : Text × LevelLimiter). get_snapshot x.1) erl.account_limiters
    ++ map (λ (x : Text × LevelLimiter). get_snapshot x.1) erl.model_limiters

-- A limiter that was not asked for `ttl` goes. `cutoff` is before the zero time on a clock below
-- `ttl`, and then none goes.
unfoldable pub evict_stale_limiters : ℕ → ℕ → EnhancedRateLimiter → EnhancedRateLimiter
evict_stale_limiters ttl now erl =
    let fresh : Text → LevelLimiter → Bool = λ key ll. not (ltb ll.last_access (now - ttl)) in
    record erl {
      account_limiters = retain fresh erl.account_limiters;
      model_limiters = retain fresh erl.model_limiters;
    }
