-- ===== src/Examples/Billing.antt =====
-- What requests cost.
use qoder2api.Prelude.{ℕ, ◌+◌, ◌*◌, ◌≤◌, ◌<◌, ◌≡◌, refl, arith}
use qoder2api.Prelude.Int.{pos, pos_part}
use qoder2api.Prelude.Text.{codes}
use qoder2api.Database.Billing.Names.{normalize_billing_model_name}
use qoder2api.Database.Billing.Costs.{calculate_cost_breakdown}
use qoder2api.Database.Billing.Totals.{calculate_cost_breakdown-billed_once}
use qoder2api.Database.Billing.Positive.{calculate_cost_breakdown-positive}

calculate_cost_breakdown-billed_once_example :
    let b = calculate_cost_breakdown 1000 200 (pos 300) (codes "gpt-5.4") (codes "flex") in
    (uncached : ℕ) × (read : ℕ) × (uncached + read ≡ 1000)
    × (read ≤ pos_part (pos 300))
    × (b.input_cost ≡ uncached * b.input_price_per_mtoken)
    × (b.cache_read_cost ≡ read * b.cache_read_price_per_mtoken)
    × (b.output_cost ≡ 200 * b.output_price_per_mtoken)
    × (b.total_cost ≡ b.input_cost + b.cache_read_cost + b.output_cost)
calculate_cost_breakdown-billed_once_example =
    calculate_cost_breakdown-billed_once 1000 200 (pos 300) (codes "gpt-5.4") (codes "flex")

calculate_cost_breakdown-positive_example :
    0 < (calculate_cost_breakdown 0 1 (pos 0) (codes "unheard-of") (codes "")).total_cost
calculate_cost_breakdown-positive_example =
    calculate_cost_breakdown-positive 0 1 (pos 0) (codes "unheard-of") (codes "") (omega arith)

-- A path in front of the name is dropped.
google_name :
    normalize_billing_model_name (codes "/models/publishers/google/models/Gemini-3.1-Pro")
    ≡ codes "gemini-3.1-pro"
unfolding normalize_billing_model_name
google_name = refl

-- 1000 tokens of GPT-5.4, 300 of them cached, and 200 of output, at half the price.
flex_cost :
    (calculate_cost_breakdown 1000 200 (pos 300) (codes "gpt-5.4") (codes "flex")).total_cost
    ≡ 700 * 2_500 + 300 * 250 + 200 * 15_000
unfolding calculate_cost_breakdown
flex_cost = refl
