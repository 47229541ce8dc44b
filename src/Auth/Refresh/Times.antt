-- ===== src/Auth/Refresh/Times.antt =====
-- The times of retries are bounded.
use qoder2api.Prelude.{ℕ, suc, ◌+◌, ◌-◌, ◌*◌, ◌/◌, ◌^◌, ◌≤◌, ◌<◌, ◌≡◌, arith, min, ap, ◌∙◌}
use qoder2api.Auth.Refresh.Tasks.{
  RefreshConfig, Draw, random_jitter, backoff_of, calculate_retry_time, minute, second, millisecond,
  two_63, doublings,
}
use native.Mathlib.Nat.{mul-le-mul, mul-le-mul_left, div-le_of_le-mul}

-- A fraction of at most 1 of a base, rounded down, is at most the base.
part_le : (base x y : ℕ) → x ≤ y → base * x / y ≤ base
part_le base x y small =
    let scaled : base * x ≤ base * y = mul-le-mul_left base small in
    div-le_of_le-mul y (omega (arith, scaled))

share_le : (p x d : ℕ) → p ≤ 1_000 → x ≤ d → p * x ≤ 1_000 * d
share_le p x d hp hx = mul-le-mul hp hx

-- With a share of at most 1 and a draw below 1, the jitter is at most twice its base.
random_jitter_le :
    (p : ℕ) (r : Draw) (base : ℕ) → p ≤ 1_000 → r.num < r.den → random_jitter p r base ≤ 2 * base
unfolding random_jitter
random_jitter_le p r base hp below = grind (
  arith,
  part_le base (p * (2 * r.num - r.den)) (1_000 * r.den)
      (share_le p (2 * r.num - r.den) r.den hp (omega arith)),
)

module _ (c : RefreshConfig) where
  -- The backoff of attempt `suc n`, as long as it does not wrap around.
  backoff_of_fits :
      (n : ℕ)
      → n < 63
      → c.retry_backoff_base * 2 ^ n < two_63
      → backoff_of c (suc n) ≡ min (c.retry_backoff_base * 2 ^ n) 300_000_000_000
  unfolding backoff_of doublings minute second millisecond
  backoff_of_fits n few small = let before : suc n - 1 ≡ n = omega arith in rw before (ground arith)

  -- With a share of jitter of at most 1, a draw below 1, and the base times 2^(n+1) below 2^63 for
  -- n < 62: the retry of attempt n + 1 is not before the base times 2^n, or 5 minutes if that is more,
  -- and not later than 6 minutes from now, and the backoff of the next attempt is twice as long, but
  -- at most 5 minutes.
  pub calculate_retry_time_between :
      (r : Draw) (now n : ℕ)
      → c.jitter_percent ≤ 1_000
      → r.num < r.den
      → n < 62
      → c.retry_backoff_base * 2 ^ suc n < two_63
      → (now + min (c.retry_backoff_base * 2 ^ n) 300_000_000_000
          ≤ calculate_retry_time c r now (suc n))
        × (calculate_retry_time c r now (suc n) ≤ now + 360_000_000_000)
        × (backoff_of c (suc (suc n)) ≡ min (2 * backoff_of c (suc n)) 300_000_000_000)
  unfolding calculate_retry_time
  calculate_retry_time_between r now n share below few small =
      let power : 2 ^ suc n ≡ 2 * 2 ^ n = omega arith in
      let twice : c.retry_backoff_base * 2 ^ suc n ≡ 2 * (c.retry_backoff_base * 2 ^ n) =
        ap (λ k. c.retry_backoff_base * k) power ∙ omega arith in
      let this = backoff_of_fits n (omega arith) (omega (arith, twice, small)) in
      let next = backoff_of_fits (suc n) (omega arith) small in
      let jitter = random_jitter_le c.jitter_percent r (backoff_of c (suc n) / 10) share below in
      (ground (arith, this), ground (arith, this, jitter), ground (arith, this, next, twice))
