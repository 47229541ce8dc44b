-- ===== src/Proxy/RateLimit/Denials.antt =====
-- What a refusal of a limiter means for the requests after it, and what a grant costs.
use qoder2api.Prelude.{
  ℕ, ◌+◌, ◌*◌, ◌<◌, ◌≡◌, refl, arith, Bool, true, false, some, inl, inr, Bool-cases, ◌∙◌, List, [],
  ◌∷◌, sym, subst,
}
use qoder2api.Prelude.Int.{ℤ, pos, ◌≤ℤ◌}
use qoder2api.Proxy.RateLimit.Bucket.{TokenBucket, token, get_tokens, allow_n}
use qoder2api.Proxy.RateLimit.Cooldown.{
  CooldownManager, is_in_cooldown, enter_cooldown, next_cooldown, duration_at,
}
use qoder2api.Proxy.RateLimit.Backoff.{IsLevel, next_cooldown-IsLevel}
use qoder2api.Proxy.RateLimit.Level.{LevelLimiter, admit_n, arrive, block, settle, start_cooldown}
use qoder2api.Proxy.RateLimit.Blocking.{
  IsValid, arrive-IsValid, admit_n-disabled, admit_n-cooling, admit_n-settled,
}

duration_at-pos : (l : ℤ) → pos 0 ≤ℤ l → l ≤ℤ pos 11 → 0 < duration_at l
duration_at-pos l low high = ground arith

-- After an entered cooldown a manager is in cooldown for its duration.
enter_cooldown-lasts :
    (now : ℕ) (cm : CooldownManager)
    → IsLevel cm.level
    → (pos 0 ≤ℤ (enter_cooldown now cm).1.level) × (now < (enter_cooldown now cm).1.reset_at)
unfolding enter_cooldown
enter_cooldown-lasts now cm h =
    let (low, (_, high), _, _) = next_cooldown-IsLevel cm h in
    (low, ground (arith, duration_at-pos (next_cooldown cm).1 low high))

is_in_cooldown-until :
    (now : ℕ) (cm : CooldownManager)
    → pos 0 ≤ℤ cm.level
    → now < cm.reset_at
    → is_in_cooldown now cm ≡ true
unfolding is_in_cooldown
is_in_cooldown-until now cm l h = ground arith

-- What a limiter that refused is like.
abbrev pub Refused : ℕ → LevelLimiter → Type 0
Refused now ll = (ll.enabled ≡ true) × (pos 0 ≤ℤ ll.cooldown.level) × (now < ll.cooldown.reset_at)

settle-Refused :
    (n now : ℕ) (x : Bool × TokenBucket) (ll : LevelLimiter)
    → IsValid ll
    → ll.enabled ≡ true
    → (settle n now x ll).0 ≡ false
    → Refused now (settle n now x ll).1
unfolding settle block start_cooldown
settle-Refused n now (true, tb) ll v on h = absurd (ground arith)
settle-Refused n now (false, tb) ll v on h =
    let (low, lasts) = enter_cooldown-lasts now ll.cooldown v.level_ok in (on, low, lasts)

cooling-Refused :
    (n now : ℕ) (ll : LevelLimiter)
    → ll.enabled ≡ true
    → is_in_cooldown now ll.cooldown ≡ true
    → Refused now (block n (arrive n now ll))
unfolding is_in_cooldown block arrive
cooling-Refused n now ll on h = (on, ground arith, ground arith)

arrive-enabled : (n now : ℕ) (ll : LevelLimiter) → (arrive n now ll).enabled ≡ ll.enabled
unfolding arrive
arrive-enabled n now ll = refl

admit_n-Refused :
    (n now : ℕ) (ll : LevelLimiter)
    → IsValid ll
    → (admit_n n now ll).0 ≡ false
    → Refused now (admit_n n now ll).1
admit_n-Refused n now ll v h = elim (Bool-cases ll.enabled) [
  | inr off ↦ absurd (ground (arith, admit_n-disabled n now ll off))
  | inl on ↦ elim (Bool-cases (is_in_cooldown now ll.cooldown)) [
    | inl cool ↦ rw (admit_n-cooling n now ll on cool) (cooling-Refused n now ll on cool)
    | inr warm ↦
        let (tb, at) = v.has_bucket on in
        let e = admit_n-settled n now ll tb on warm at in
        rw e (
          settle-Refused n now (allow_n n now tb) (arrive n now ll) (arrive-IsValid n now ll v)
            (arrive-enabled n now ll ∙ on) (rw e at h))
  ]
]

-- Requests, each with its number and its time, one after the other: all of them are refused.
abbrev pub AreRefused : List (ℕ × ℕ) → LevelLimiter → Type 0
AreRefused [] ll = Unit
AreRefused ((m, later) ∷ asks) ll =
    ((admit_n m later ll).0 ≡ false) × AreRefused asks (admit_n m later ll).1

-- All the requests are at times before `end`.
abbrev pub AreBefore : ℕ → List (ℕ × ℕ) → Type 0
AreBefore end [] = Unit
AreBefore end ((m, later) ∷ asks) = (later < end) × AreBefore end asks

-- A request during the cooldown is refused, and changes neither the switch nor the cooldown.
admit_n-cooled :
    (m later : ℕ) (ll : LevelLimiter)
    → ll.enabled ≡ true
    → pos 0 ≤ℤ ll.cooldown.level
    → later < ll.cooldown.reset_at
    → ((admit_n m later ll).0 ≡ false)
      × ((admit_n m later ll).1.enabled ≡ true)
      × ((admit_n m later ll).1.cooldown ≡ ll.cooldown)
unfolding block arrive
admit_n-cooled m later ll on low lt =
    let e = admit_n-cooling m later ll on (is_in_cooldown-until later ll.cooldown low lt) in
    rw e (refl, on, refl)

AreRefused-before :
    (asks : List (ℕ × ℕ)) (ll : LevelLimiter)
    → ll.enabled ≡ true
    → pos 0 ≤ℤ ll.cooldown.level
    → AreBefore ll.cooldown.reset_at asks
    → AreRefused asks ll
AreRefused-before [] ll on low before = tt
AreRefused-before ((m, later) ∷ asks) ll on low (lt, before) =
    let (shut, on', same) = admit_n-cooled m later ll on low lt in
    (
      shut,
      AreRefused-before asks (admit_n m later ll).1 on'
          (subst (λ c. pos 0 ≤ℤ c.level) (sym same) low)
          (subst (λ c. AreBefore c.reset_at asks) (sym same) before),
    )

-- When a valid limiter refuses, its cooldown ends later than the refusal, and it refuses all of any
-- requests that follow at times before that end.
pub admit_n-refuses_until :
    (n now : ℕ) (asks : List (ℕ × ℕ)) (ll : LevelLimiter)
    → IsValid ll
    → (admit_n n now ll).0 ≡ false
    → AreBefore (admit_n n now ll).1.cooldown.reset_at asks
    → (now < (admit_n n now ll).1.cooldown.reset_at) × AreRefused asks (admit_n n now ll).1
admit_n-refuses_until n now asks ll v h before =
    let (on, low, lasts) = admit_n-Refused n now ll v h in
    (lasts, AreRefused-before asks (admit_n n now ll).1 on low before)

draw_lem :
    (n now : ℕ) (tb : TokenBucket)
    → 0 < n
    → (allow_n n now tb).0 ≡ true
    → (allow_n n now tb).1.tokens + n * token ≡ get_tokens now tb
unfolding allow_n get_tokens
draw_lem n now tb h ok = ground arith

settle-granted :
    (n now : ℕ) (x : Bool × TokenBucket) (ll : LevelLimiter)
    → (settle n now x ll).0 ≡ true
    → (x.0 ≡ true)
      × ((settle n now x ll).1.bucket ≡ some x.1)
      × ((settle n now x ll).1.metrics.allowed_requests ≡ ll.metrics.allowed_requests + n)
unfolding settle
settle-granted n now (true, tb) ll h = (refl, refl, refl)
settle-granted n now (false, tb) ll h = absurd (ground arith)

arrive-allowed :
    (n now : ℕ) (ll : LevelLimiter)
    → (arrive n now ll).metrics.allowed_requests ≡ ll.metrics.allowed_requests
unfolding arrive
arrive-allowed n now ll = refl

-- When an enabled valid limiter grants `n` > 0 requests, it was not in its cooldown, `n` tokens of
-- those that its bucket held at that moment are gone, and the grants are counted.
pub admit_n-charges :
    (n now : ℕ) (ll : LevelLimiter)
    → IsValid ll
    → ll.enabled ≡ true
    → 0 < n
    → (admit_n n now ll).0 ≡ true
    → (is_in_cooldown now ll.cooldown ≡ false)
      × ((tb : TokenBucket) × (tb' : TokenBucket) × (ll.bucket ≡ some tb)
          × ((admit_n n now ll).1.bucket ≡ some tb')
          × (tb'.tokens + n * token ≡ get_tokens now tb))
      × ((admit_n n now ll).1.metrics.allowed_requests ≡ ll.metrics.allowed_requests + n)
admit_n-charges n now ll v on some' h = elim (Bool-cases (is_in_cooldown now ll.cooldown)) [
  | inl cool ↦ absurd (ground (arith, admit_n-cooling n now ll on cool))
  | inr warm ↦
      let (tb, at) = v.has_bucket on in
      let e = admit_n-settled n now ll tb on warm at in
      let (ok, has, count) =
        settle-granted n now (allow_n n now tb) (arrive n now ll) (rw e at h) in
      (
        warm,
        (tb, (allow_n n now tb).1, at, rw e has, draw_lem n now tb some' ok),
        rw e (ground (arith, count, arrive-allowed n now ll)),
      )
]
