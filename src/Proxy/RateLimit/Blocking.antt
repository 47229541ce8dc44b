-- ===== src/Proxy/RateLimit/Blocking.antt =====
-- One limiter: its invariant, what it lets through, and how long a refusal lasts.
use qoder2api.Prelude.{
  ℕ, ◌+◌, ◌≤◌, ◌≡◌, refl, arith, Bool, true, false, some, inl, inr, Bool-cases, Option-cases,
}
use qoder2api.Prelude.Int.{ℤ, pos_part}
use qoder2api.Prelude.Text.{Text}
use qoder2api.Proxy.RateLimit.Bucket.{TokenBucket, allow, allow_n, update_rpm, new_token_bucket}
use qoder2api.Proxy.RateLimit.Cooldown.{
  CooldownManager, is_in_cooldown, enter_cooldown, new_cooldown_manager,
}
use qoder2api.Proxy.RateLimit.Backoff.{IsLevel, next_cooldown-IsLevel}
use qoder2api.Proxy.RateLimit.Rate.{IsWithin}
use qoder2api.Proxy.RateLimit.Level.{
  RateLimitLevel, LevelLimiter, new_level_limiter, admit, admit_n, change_rpm, reset_cooldown,
  start_cooldown, arrive, block, settle, note_rate,
}

-- An enabled limiter has a bucket, and a bucket is within its capacity; the cooldown's level indexes
-- its table, or is -1; no more requests were answered than came.
pub record IsValid (ll : LevelLimiter) : Type 0 where
  pub has_bucket : ll.enabled ≡ true → (tb : TokenBucket) × (ll.bucket ≡ some tb)
  pub within : (tb : TokenBucket) → ll.bucket ≡ some tb → IsWithin tb
  pub level_ok : IsLevel ll.cooldown.level
  pub counted :
      ll.metrics.allowed_requests + ll.metrics.blocked_requests ≤ ll.metrics.total_requests

pub new_level_limiter-IsValid :
    (key : Text) (level : RateLimitLevel) (rpm : ℤ) (now : ℕ)
    → IsValid (new_level_limiter key level rpm now)
unfolding new_level_limiter new_cooldown_manager new_token_bucket
new_level_limiter-IsValid key level rpm now = record {
  has_bucket = λ on. (new_token_bucket (pos_part rpm) now, ground arith);
  within = λ tb at. ground arith;
  level_ok = (ground arith, ground arith);
  counted = ground arith;
}

allow_n-IsWithin : (n now : ℕ) (tb : TokenBucket) → IsWithin tb → IsWithin (allow_n n now tb).1
unfolding allow_n
allow_n-IsWithin n now tb h = ground arith

enter_cooldown-IsLevel :
    (now : ℕ) (cm : CooldownManager) → IsLevel cm.level → IsLevel (enter_cooldown now cm).1.level
unfolding enter_cooldown
enter_cooldown-IsLevel now cm h = let (_, ok, _, _) = next_cooldown-IsLevel cm h in ok

-- The answer for `n` requests that were counted as come, but not yet as answered.
settle-IsValid :
    (n now : ℕ) (ok : Bool) (tb : TokenBucket) (ll : LevelLimiter)
    → IsWithin tb
    → IsLevel ll.cooldown.level
    → ll.metrics.allowed_requests + ll.metrics.blocked_requests + n ≤ ll.metrics.total_requests
    → IsValid (settle n now (ok, tb) ll).1
unfolding settle block start_cooldown
settle-IsValid n now true tb ll w l room = record {
  has_bucket = λ on. (tb, refl);
  within = λ tb' at. ground (arith, at);
  level_ok = l;
  counted = omega arith;
}
settle-IsValid n now false tb ll w l room = record {
  has_bucket = λ on. (tb, refl);
  within = λ tb' at. ground (arith, at);
  level_ok = enter_cooldown-IsLevel now ll.cooldown l;
  counted = omega arith;
}

blocked-IsValid : (n now : ℕ) (ll : LevelLimiter) → IsValid ll → IsValid (block n (arrive n now ll))
unfolding block arrive
blocked-IsValid n now ll v = record {
  has_bucket = v.has_bucket;
  within = v.within;
  level_ok = v.level_ok;
  counted = omega (arith, v.counted);
}

pub arrive-IsValid : (n now : ℕ) (ll : LevelLimiter) → IsValid ll → IsValid (arrive n now ll)
unfolding arrive
arrive-IsValid n now ll v = record {
  has_bucket = v.has_bucket;
  within = v.within;
  level_ok = v.level_ok;
  counted = omega (arith, v.counted);
}

note_rate-IsValid : (x : Bool × LevelLimiter) → IsValid x.1 → IsValid (note_rate x).1
unfolding note_rate
note_rate-IsValid (true, ll) v = record {
  has_bucket = v.has_bucket;
  within = v.within;
  level_ok = v.level_ok;
  counted = v.counted;
}
note_rate-IsValid (false, ll) v = v

-- A request is answered by the bucket if the limiter is enabled and not in its cooldown.
admit_n-settles :
    (n now : ℕ) (tb : TokenBucket) (ll : LevelLimiter)
    → IsValid ll
    → ll.bucket ≡ some tb
    → IsValid (settle n now (allow_n n now tb) (arrive n now ll)).1
unfolding arrive
admit_n-settles n now tb ll v at =
    settle-IsValid n now (allow_n n now tb).0 (allow_n n now tb).1 (arrive n now ll)
      (allow_n-IsWithin n now tb (v.within tb at)) (arrive-IsValid n now ll v).level_ok
      (omega (arith, v.counted))

-- The three ways to answer.
module _ (n now : ℕ) (ll : LevelLimiter) where
  pub admit_n-disabled : ll.enabled ≡ false → admit_n n now ll ≡ (true, arrive n now ll)
  unfolding admit_n arrive
  admit_n-disabled off = ground arith

  pub admit_n-cooling :
      ll.enabled ≡ true
      → is_in_cooldown now ll.cooldown ≡ true
      → admit_n n now ll ≡ (false, block n (arrive n now ll))
  unfolding admit_n arrive
  admit_n-cooling on cool = ground arith

  pub admit_n-settled :
      (tb : TokenBucket)
      → ll.enabled ≡ true
      → is_in_cooldown now ll.cooldown ≡ false
      → ll.bucket ≡ some tb
      → admit_n n now ll ≡ settle n now (allow_n n now tb) (arrive n now ll)
  unfolding admit_n arrive
  admit_n-settled tb on warm at = ground arith

-- On an enabled limiter `allow` is `allowN(1)` that notes the rate.
pub admit-eq-admit_n :
    (now : ℕ) (ll : LevelLimiter) → ll.enabled ≡ true → admit now ll ≡ note_rate (admit_n 1 now ll)
unfolding admit admit_n note_rate arrive allow allow_n
admit-eq-admit_n now ll on = ground arith

pub admit-disabled :
    (now : ℕ) (ll : LevelLimiter) → ll.enabled ≡ false → admit now ll ≡ (true, arrive 1 now ll)
unfolding admit arrive
admit-disabled now ll off = ground arith

-- Calls of `allow_n`, `allow` and `updateRPM` keep a limiter valid.
pub admit_n-IsValid : (n now : ℕ) (ll : LevelLimiter) → IsValid ll → IsValid (admit_n n now ll).1
admit_n-IsValid n now ll v = elim (Bool-cases ll.enabled) [
  | inr off ↦ rw (admit_n-disabled n now ll off) (arrive-IsValid n now ll v)
  | inl on ↦ elim (Bool-cases (is_in_cooldown now ll.cooldown)) [
    | inl cool ↦ rw (admit_n-cooling n now ll on cool) (blocked-IsValid n now ll v)
    | inr warm ↦
        let (tb, at) = v.has_bucket on in
        rw (admit_n-settled n now ll tb on warm at) (admit_n-settles n now tb ll v at)
  ]
]

pub admit-IsValid : (now : ℕ) (ll : LevelLimiter) → IsValid ll → IsValid (admit now ll).1
admit-IsValid now ll v = elim (Bool-cases ll.enabled) [
  | inr off ↦ rw (admit-disabled now ll off) (arrive-IsValid 1 now ll v)
  | inl on ↦ rw (admit-eq-admit_n now ll on) (note_rate-IsValid _ (admit_n-IsValid 1 now ll v))
]

update_rpm-IsWithin : (rpm now : ℕ) (tb : TokenBucket) → IsWithin (update_rpm rpm now tb)
unfolding update_rpm
update_rpm-IsWithin rpm now tb = ground arith

new_token_bucket-IsWithin : (rpm now : ℕ) → IsWithin (new_token_bucket rpm now)
unfolding new_token_bucket
new_token_bucket-IsWithin rpm now = ground arith

pub change_rpm-IsValid :
    (rpm : ℤ) (now : ℕ) (ll : LevelLimiter) → IsValid ll → IsValid (change_rpm rpm now ll)
unfolding change_rpm
change_rpm-IsValid rpm now ll v = elim (Option-cases ll.bucket) [
  | inl none' ↦ rw none' (record {
    has_bucket = λ on. (new_token_bucket (pos_part rpm) now, ground arith);
    within = λ tb at. ground (arith, new_token_bucket-IsWithin (pos_part rpm) now);
    level_ok = v.level_ok;
    counted = v.counted;
  })
  | inr (old, at) ↦ rw at (record {
    has_bucket = λ on. (update_rpm (pos_part rpm) now old, ground arith);
    within = λ tb at. ground (arith, update_rpm-IsWithin (pos_part rpm) now old);
    level_ok = v.level_ok;
    counted = v.counted;
  })
]

pub reset_cooldown-IsValid : (ll : LevelLimiter) → IsValid ll → IsValid (reset_cooldown ll)
unfolding reset_cooldown
reset_cooldown-IsValid ll v = record {
  has_bucket = v.has_bucket;
  within = v.within;
  level_ok = (omega arith, omega arith);
  counted = v.counted;
}
