-- ===== src/Proxy/RateLimit/Rate.antt =====
-- What a token bucket lets through.
use qoder2api.Prelude.{ℕ, ◌+◌, ◌-◌, ◌*◌, ◌≤◌, ◌≡◌, arith, if◌then◌else◌, List, [], ◌∷◌, ap}
use qoder2api.Proxy.RateLimit.Bucket.{TokenBucket, token, allow, allow_n, update_rpm}

-- The requests (how many tokens, when), in their order, and how many tokens were granted.
abbrev pub grants : List (ℕ × ℕ) → TokenBucket → ℕ × TokenBucket
grants [] tb = (0, tb)
grants ((n, now) ∷ calls) tb =
    let (ok, tb') = allow_n n now tb in
    let (sum, end) = grants calls tb' in ((if ok then n else 0) + sum, end)

-- The times of the requests do not go back, from `t` on.
abbrev pub Ordered : ℕ → List (ℕ × ℕ) → Type 0
Ordered t [] = Unit
Ordered t ((n, now) ∷ calls) = (t ≤ now) × Ordered now calls

mul_split : (r a b : ℕ) → a ≤ b → (b - a) * r + r * a ≡ r * b
mul_split r a b h =
    let d : ℕ = b - a in let e : b ≡ d + a = omega arith in ground (arith, ap (λ x. r * x) e)

Ordered-weaken : (t u : ℕ) (calls : List (ℕ × ℕ)) → t ≤ u → Ordered u calls → Ordered t calls
Ordered-weaken t u [] h o = tt
Ordered-weaken t u ((n, now) ∷ calls) h (le, o) = (omega arith, o)

allow_n-rate :
    (n now : ℕ) (tb : TokenBucket)
    → tb.last_refill ≤ now
    → let (ok, tb') = allow_n n now tb in
      (tb'.refill_rate ≡ tb.refill_rate)
      × (tb.last_refill ≤ tb'.last_refill)
      × (tb'.last_refill ≤ now)
      × ((if ok then n else 0) * token + tb'.tokens + tb.refill_rate * tb.last_refill
          ≤ tb.tokens + tb.refill_rate * tb'.last_refill)
unfolding allow_n
allow_n-rate n now tb h = ground (arith, mul_split tb.refill_rate tb.last_refill now h)

-- Over requests whose times do not go back, the tokens granted, with those that are left, are at
-- most those that the bucket held at the start with those that the rate adds up to the last
-- refill, which is not before the first one.
pub grants-rate :
    (calls : List (ℕ × ℕ)) (tb : TokenBucket)
    → Ordered tb.last_refill calls
    → let (sum, end) = grants calls tb in
      (tb.last_refill ≤ end.last_refill)
      × (sum * token + end.tokens + tb.refill_rate * tb.last_refill
          ≤ tb.tokens + tb.refill_rate * end.last_refill)
grants-rate [] tb o = (omega arith, omega arith)
grants-rate ((n, now) ∷ calls) tb (le, o) =
    let (ok, tb') = allow_n n now tb in
    let (same, before, after, step) = allow_n-rate n now tb le in
    let (mono, rest) = grants-rate calls tb' (Ordered-weaken tb'.last_refill now calls after o) in
    ground (
      arith,
      mono,
      before,
      step,
      rest,
      ap (λ r. r * tb'.last_refill) same,
      ap (λ r. r * (grants calls tb').1.last_refill) same,
    )

-- A bucket never holds more than its capacity.
abbrev pub IsWithin : TokenBucket → Type 0
IsWithin tb = tb.tokens ≤ tb.max_tokens

-- From a bucket within its capacity, `allow`, `allowN` and `updateRPM` each leave a bucket
-- within its capacity.
pub IsWithin-kept :
    (n rpm now : ℕ) (tb : TokenBucket)
    → IsWithin tb
    → IsWithin (allow now tb).1 × IsWithin (allow_n n now tb).1 × IsWithin (update_rpm rpm now tb)
unfolding allow allow_n update_rpm
IsWithin-kept n rpm now tb h = (ground arith, ground arith, ground arith)
