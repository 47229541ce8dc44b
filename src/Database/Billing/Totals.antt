-- ===== src/Database/Billing/Totals.antt =====
-- What the costs add up to.
use native.Mathlib.Nat.{mul_assoc, add-mul, zero-mul, mul-zero}
use qoder2api.Prelude.{ℕ, zero, suc, ap, ◌∙◌, ◌+◌, ◌-◌, ◌*◌, ◌≤◌, ◌≡◌, refl, arith, ltb}
use qoder2api.Prelude.Int.{ℤ, pos_part}
use qoder2api.Prelude.Text.{Text}
use qoder2api.Database.Billing.Pricing.{get_model_pricing}
use qoder2api.Database.Billing.Costs.{
  calculate_cost_breakdown, cached_of, uncached_of, prices_of, long_context_threshold,
}

sum_mul : (a b c m : ℕ) → (a + b + c) * m ≡ a * m + b * m + c * m
sum_mul a b c m = omega (arith, add-mul (a + b) c m, add-mul a b m)

split :
    (input price m : ℕ) (cached : ℤ)
    → let c = cached_of cached input in
      (uncached : ℕ) × (read : ℕ) × (uncached + read ≡ input)
      × (read ≤ pos_part cached)
      × (uncached_of price c input ≡ uncached)
      × (c * price * m ≡ read * (price * m))
unfolding uncached_of cached_of
split input zero m cached = (
  input,
  0,
  omega arith,
  omega arith,
  refl,
  ground (arith, zero-mul m, mul-zero (cached_of cached input)),
)
split input (suc price) m cached =
    let c = cached_of cached input in
    (input - c, c, ground arith, ground arith, ground arith, mul_assoc c (suc price) m)

-- Every token of the input is billed once, at the price of the input or at that of a cache read, the
-- latter for no more tokens than were said to come from the cache; a token of the output is billed at
-- the price of the output. The prices are those of the breakdown, whose total is the sum of its costs.
pub calculate_cost_breakdown-billed_once :
    (input output : ℕ) (cached : ℤ) (model tier : Text)
    → let b = calculate_cost_breakdown input output cached model tier in
      (uncached : ℕ) × (read : ℕ) × (uncached + read ≡ input)
      × (read ≤ pos_part cached)
      × (b.input_cost ≡ uncached * b.input_price_per_mtoken)
      × (b.cache_read_cost ≡ read * b.cache_read_price_per_mtoken)
      × (b.output_cost ≡ output * b.output_price_per_mtoken)
      × (b.total_cost ≡ b.input_cost + b.cache_read_cost + b.output_cost)
unfolding calculate_cost_breakdown
calculate_cost_breakdown-billed_once input output cached model tier =
    let p = prices_of (ltb long_context_threshold input) tier (get_model_pricing model) in
    let c = cached_of cached input in
    let u = uncached_of p.cache_read c input in
    let (uncached, read, whole, few, same, cost) = split input p.cache_read p.multiplier cached in
    (
      uncached,
      read,
      whole,
      few,
      mul_assoc u p.input p.multiplier ∙ ap (λ x. x * (p.input * p.multiplier)) same,
      cost,
      mul_assoc output p.output p.multiplier,
      sum_mul (u * p.input) (c * p.cache_read) (output * p.output) p.multiplier,
    )
