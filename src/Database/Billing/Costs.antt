-- ===== src/Database/Billing/Costs.antt =====
-- database/billing.go: the cost of a request. The breakdown leaves out the constant field with the
-- threshold of a long context.
use qoder2api.Prelude.{ℕ, ◌+◌, ◌-◌, ◌*◌, Bool, false, not, ◌&&◌, ◌||◌, if◌then◌else◌, ltb}
use qoder2api.Prelude.Int.{ℤ, pos_part}
use qoder2api.Prelude.Text.{Text, is, text_eq, to_lower, trim_space}
use qoder2api.Database.Billing.Pricing.{ModelPricing, get_model_pricing}

abbrev pub long_context_threshold : ℕ
long_context_threshold = 272_000

unfoldable pub normalize_service_tier : Text → Text
unfolding to_lower trim_space
normalize_service_tier tier = to_lower (trim_space tier)

abbrev pub is_fast : Text → Bool
unfolding text_eq normalize_service_tier
is_fast tier =
    is "priority" (normalize_service_tier tier) || is "fast" (normalize_service_tier tier)

unfoldable pub use_priority_pricing : Text → ModelPricing → Bool
use_priority_pricing tier p =
    if not (is_fast tier)
    then false
    else ltb 0 p.input_price_per_mtoken_priority
      || (ltb 0 p.output_price_per_mtoken_priority || ltb 0 p.cache_read_price_per_mtoken_priority)

-- In halves.
unfoldable pub service_tier_cost_multiplier : Text → ℕ
unfolding text_eq normalize_service_tier
service_tier_cost_multiplier tier =
    if is_fast tier then 4 else if is "flex" (normalize_service_tier tier) then 1 else 2

pub record CostBreakdown : Type 0 where
  pub input_cost : ℕ
  pub output_cost : ℕ
  pub cache_read_cost : ℕ
  pub total_cost : ℕ
  pub input_price_per_mtoken : ℕ
  pub output_price_per_mtoken : ℕ
  pub cache_read_price_per_mtoken : ℕ
  pub service_tier_cost_multiplier : ℕ
  pub long_context : Bool

pub record Prices : Type 0 where
  pub input : ℕ
  pub output : ℕ
  pub cache_read : ℕ
  pub multiplier : ℕ

-- if price > 0 { other = price }
abbrev pub if_set : ℕ → ℕ → ℕ
if_set price other = if ltb 0 price then price else other

-- The prices before the service tier is looked at.
unfoldable pub standard_prices : Bool → ModelPricing → ℕ → Prices
standard_prices is_long p multiplier =
    if is_long && ltb 0 p.long_input_price_per_mtoken
    then record {
      input = p.long_input_price_per_mtoken;
      output = p.long_output_price_per_mtoken;
      cache_read = if_set p.long_cache_read_price_per_mtoken p.cache_read_price_per_mtoken;
      multiplier = multiplier;
    }
    else record {
      input = p.input_price_per_mtoken;
      output = p.output_price_per_mtoken;
      cache_read = p.cache_read_price_per_mtoken;
      multiplier = multiplier;
    }

-- if isLong && long > 0 { price = long } else if short > 0 { price = short }
unfoldable pub priority_price : Bool → ℕ → ℕ → ℕ → ℕ
priority_price is_long long short price = if is_long && ltb 0 long then long else if_set short price

unfoldable pub prices_of : Bool → Text → ModelPricing → Prices
unfolding standard_prices priority_price use_priority_pricing service_tier_cost_multiplier
prices_of is_long tier p =
    let q = standard_prices is_long p (service_tier_cost_multiplier tier) in
    if use_priority_pricing tier p
    then record {
      input =
          priority_price is_long p.long_input_price_per_mtoken_priority
            p.input_price_per_mtoken_priority q.input;
      output =
          priority_price is_long p.long_output_price_per_mtoken_priority
            p.output_price_per_mtoken_priority q.output;
      cache_read =
          priority_price is_long p.long_cache_read_price_per_mtoken_priority
            p.cache_read_price_per_mtoken_priority q.cache_read;
      multiplier = 2;
    }
    else q

-- The tokens that were read from the cache: none if negative, and no more than the input.
unfoldable pub cached_of : ℤ → ℕ → ℕ
cached_of cached input = let c = pos_part cached in if ltb input c then input else c

-- The tokens that are billed at the price of the input: all, if a cache read has no price.
unfoldable pub uncached_of : ℕ → ℕ → ℕ → ℕ
uncached_of cache_read cached input = if ltb 0 cache_read then input - cached else input

unfoldable pub calculate_cost_breakdown : ℕ → ℕ → ℤ → Text → Text → CostBreakdown
unfolding get_model_pricing prices_of cached_of uncached_of
calculate_cost_breakdown input_tokens output_tokens cached_tokens model tier =
    let pricing = get_model_pricing model in
    let is_long = ltb long_context_threshold input_tokens in
    let p = prices_of is_long tier pricing in
    let cached = cached_of cached_tokens input_tokens in
    let uncached = uncached_of p.cache_read cached input_tokens in
    record {
      input_cost = (uncached * p.input) * p.multiplier;
      output_cost = (output_tokens * p.output) * p.multiplier;
      cache_read_cost = (cached * p.cache_read) * p.multiplier;
      total_cost =
          ((uncached * p.input + cached * p.cache_read) + output_tokens * p.output) * p.multiplier;
      input_price_per_mtoken = p.input * p.multiplier;
      output_price_per_mtoken = p.output * p.multiplier;
      cache_read_price_per_mtoken = p.cache_read * p.multiplier;
      service_tier_cost_multiplier = p.multiplier;
      long_context = is_long && ltb 0 pricing.long_input_price_per_mtoken;
    }
