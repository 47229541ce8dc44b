-- ===== src/Examples/RateLimit.antt =====
-- The rate limiter on small limits.
use qoder2api.Prelude.{◌+◌, ◌*◌, ◌≤◌, ◌<◌, ◌≡◌, refl, arith, true, false, [], ◌∷◌}
use qoder2api.Prelude.Int.{pos}
use qoder2api.Prelude.Text.{codes, text_key, text_eq}
use qoder2api.Proxy.RateLimit.Bucket.{TokenBucket, token, new_token_bucket, allow_n}
use qoder2api.Proxy.RateLimit.Cooldown.{
  CooldownManager, new_cooldown_manager, enter_cooldown, is_in_cooldown,
}
use qoder2api.Proxy.RateLimit.Level.{
  LevelLimiter, level_account, new_level_limiter, admit_n, arrive, settle, block, start_cooldown,
}
use qoder2api.Proxy.RateLimit.Enhanced.{EnhancedRateLimiter, new_enhanced_rate_limiter}
use qoder2api.Proxy.RateLimit.Rate.{grants, grants-rate}
use qoder2api.Proxy.RateLimit.Blocking.{IsValid, new_level_limiter-IsValid, admit_n-IsValid}
use qoder2api.Proxy.RateLimit.Denials.{AreRefused, admit_n-refuses_until}

abbrev a_bucket : TokenBucket
a_bucket = record { tokens = 3 * token; max_tokens = 3 * token; refill_rate = 3; last_refill = 0 }

-- Two tokens at 5 ns, and two more at 10 ns, which are refused.
run_of_two : (grants ((2, 5) ∷ (2, 10) ∷ []) a_bucket).0 ≡ 2
unfolding allow_n
run_of_two = refl

grants-rate_example :
    (0 ≤ (grants ((2, 5) ∷ (2, 10) ∷ []) a_bucket).1.last_refill)
    × ((grants ((2, 5) ∷ (2, 10) ∷ []) a_bucket).0 * token
          + (grants ((2, 5) ∷ (2, 10) ∷ []) a_bucket).1.tokens
          + 3 * 0
        ≤ 3 * token + 3 * (grants ((2, 5) ∷ (2, 10) ∷ []) a_bucket).1.last_refill)
grants-rate_example = grants-rate ((2, 5) ∷ (2, 10) ∷ []) a_bucket (omega arith, (omega arith, tt))

abbrev cooled_twice : CooldownManager
cooled_twice = record {
  level = pos 1;
  blocked_at = 10;
  reset_at = 2_000_000_010;
  last_backoff = 2_000_000_000;
}

abbrev a_limiter : LevelLimiter
a_limiter = new_level_limiter (codes "a") level_account (pos 2) 0

a_limiter-IsValid : IsValid a_limiter
a_limiter-IsValid = new_level_limiter-IsValid (codes "a") level_account (pos 2) 0

a_limiter-enabled : a_limiter.enabled ≡ true
unfolding new_level_limiter
a_limiter-enabled = refl

admit_n-IsValid_example : IsValid (admit_n 3 1 a_limiter).1
admit_n-IsValid_example = admit_n-IsValid 3 1 a_limiter a_limiter-IsValid

three_refused : (admit_n 3 1 a_limiter).0 ≡ false
unfolding admit_n arrive settle allow_n new_level_limiter is_in_cooldown new_cooldown_manager
    new_token_bucket
three_refused = refl

one_granted : (admit_n 1 1 a_limiter).0 ≡ true
unfolding admit_n arrive settle allow_n new_level_limiter is_in_cooldown new_cooldown_manager
    new_token_bucket
one_granted = refl

a_second : (admit_n 3 1 a_limiter).1.cooldown.reset_at ≡ 1_000_000_001
unfolding admit_n arrive settle allow_n new_level_limiter is_in_cooldown new_cooldown_manager
    new_token_bucket block start_cooldown enter_cooldown
a_second = refl

admit_n-refuses_until_example :
    (1 < (admit_n 3 1 a_limiter).1.cooldown.reset_at)
    × AreRefused ((1, 900) ∷ (1, 901) ∷ []) (admit_n 3 1 a_limiter).1
admit_n-refuses_until_example =
    admit_n-refuses_until 3 1 ((1, 900) ∷ (1, 901) ∷ []) a_limiter a_limiter-IsValid three_refused
      (omega (arith, a_second), (omega (arith, a_second), tt))

abbrev limits : EnhancedRateLimiter
limits = new_enhanced_rate_limiter (pos 3) (pos 2) (pos 1) 0

limits-enabled : limits.enabled ≡ true
unfolding new_enhanced_rate_limiter
limits-enabled = refl

text_ab : text_eq (codes "a") (codes "b") ≡ false
unfolding text_eq
text_ab = refl

text_mn : text_eq (codes "m") (codes "n") ≡ false
unfolding text_eq
text_mn = refl
