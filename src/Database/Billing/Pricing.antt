-- ===== src/Database/Billing/Pricing.antt =====
-- database/billing.go: the table of prices, and how the price of a model is found.
use qoder2api.Prelude.{
  ℕ, Bool, true, false, not, ◌&&◌, ◌||◌, List, [], ◌∷◌, Option, none, some, if◌then◌else◌, ltb,
  ◌==◌, length, get_elem?,
}
use qoder2api.Prelude.Text.{Text, codes, text_eq, has_prefix}
use qoder2api.Database.Billing.Names.{
  normalize_billing_model_name, normalize_codex_billing_model, has,
}

pub record ModelPricing : Type 0 where
  pub input_price_per_mtoken : ℕ
  pub input_price_per_mtoken_priority : ℕ
  pub output_price_per_mtoken : ℕ
  pub output_price_per_mtoken_priority : ℕ
  pub cache_read_price_per_mtoken : ℕ
  pub cache_read_price_per_mtoken_priority : ℕ
  pub long_input_price_per_mtoken : ℕ
  pub long_input_price_per_mtoken_priority : ℕ
  pub long_output_price_per_mtoken : ℕ
  pub long_output_price_per_mtoken_priority : ℕ
  pub long_cache_read_price_per_mtoken : ℕ
  pub long_cache_read_price_per_mtoken_priority : ℕ

-- The pricing with the two prices and no other.
abbrev pub priced : ℕ → ℕ → ModelPricing
priced i o = record {
  input_price_per_mtoken = i;
  input_price_per_mtoken_priority = 0;
  output_price_per_mtoken = o;
  output_price_per_mtoken_priority = 0;
  cache_read_price_per_mtoken = 0;
  cache_read_price_per_mtoken_priority = 0;
  long_input_price_per_mtoken = 0;
  long_input_price_per_mtoken_priority = 0;
  long_output_price_per_mtoken = 0;
  long_output_price_per_mtoken_priority = 0;
  long_cache_read_price_per_mtoken = 0;
  long_cache_read_price_per_mtoken_priority = 0;
}

abbrev pub default_model_pricing : ModelPricing
default_model_pricing = priced 1_000 2_000

abbrev pub model_pricing_rules : List (Text × ModelPricing)
model_pricing_rules =
    (
      codes "gpt-5.5",
      record (priced 5_000 30_000) {
        input_price_per_mtoken_priority = 12_500;
        output_price_per_mtoken_priority = 75_000;
        cache_read_price_per_mtoken = 500;
        cache_read_price_per_mtoken_priority = 1_250;
        long_input_price_per_mtoken = 10_000;
        long_input_price_per_mtoken_priority = 25_000;
        long_output_price_per_mtoken = 45_000;
        long_output_price_per_mtoken_priority = 112_500;
        long_cache_read_price_per_mtoken = 1_000;
        long_cache_read_price_per_mtoken_priority = 2_500;
      },
    )
    ∷ (
      codes "gpt-5.5-pro",
      record (priced 30_000 180_000) {
        input_price_per_mtoken_priority = 75_000;
        output_price_per_mtoken_priority = 450_000;
        long_input_price_per_mtoken = 60_000;
        long_input_price_per_mtoken_priority = 150_000;
        long_output_price_per_mtoken = 270_000;
        long_output_price_per_mtoken_priority = 675_000;
      },
    )
    ∷ (codes "gpt-5.4-mini", record (priced 750 4_500) { cache_read_price_per_mtoken = 75 })
    ∷ (codes "gpt-5.4-nano", record (priced 200 1_250) { cache_read_price_per_mtoken = 20 })
    ∷ (
      codes "gpt-5.4",
      record (priced 2_500 15_000) {
        input_price_per_mtoken_priority = 5_000;
        output_price_per_mtoken_priority = 30_000;
        cache_read_price_per_mtoken = 250;
        cache_read_price_per_mtoken_priority = 500;
        long_input_price_per_mtoken = 5_000;
        long_input_price_per_mtoken_priority = 10_000;
        long_output_price_per_mtoken = 22_500;
        long_output_price_per_mtoken_priority = 45_000;
        long_cache_read_price_per_mtoken = 500;
        long_cache_read_price_per_mtoken_priority = 1_000;
      },
    )
    ∷ (
      codes "gpt-5.4-pro",
      record (priced 30_000 180_000) {
        input_price_per_mtoken_priority = 75_000;
        output_price_per_mtoken_priority = 450_000;
        long_input_price_per_mtoken = 60_000;
        long_input_price_per_mtoken_priority = 150_000;
        long_output_price_per_mtoken = 270_000;
        long_output_price_per_mtoken_priority = 675_000;
      },
    )
    ∷ (
      codes "gpt-5.3-codex-spark",
      record (priced 1_250 10_000) {
        input_price_per_mtoken_priority = 2_500;
        output_price_per_mtoken_priority = 20_000;
        cache_read_price_per_mtoken = 125;
        cache_read_price_per_mtoken_priority = 250;
      },
    )
    ∷ (
      codes "gpt-5.3-codex",
      record (priced 1_750 14_000) {
        input_price_per_mtoken_priority = 3_500;
        output_price_per_mtoken_priority = 28_000;
        cache_read_price_per_mtoken = 175;
        cache_read_price_per_mtoken_priority = 350;
      },
    )
    ∷ (
      codes "gpt-5.2",
      record (priced 1_750 14_000) {
        input_price_per_mtoken_priority = 3_500;
        output_price_per_mtoken_priority = 28_000;
        cache_read_price_per_mtoken = 175;
        cache_read_price_per_mtoken_priority = 350;
      },
    )
    ∷ (codes "gpt-4o-mini", priced 150 600)
    ∷ (codes "gpt-4o", priced 2_500 10_000)
    ∷ (codes "gpt-4-turbo", priced 10_000 30_000)
    ∷ (codes "gpt-4", priced 30_000 60_000)
    ∷ (codes "gpt-3.5-turbo", priced 500 1_500)
    ∷ []

unfoldable pub model_matches_rule : Text → Text → Bool
unfolding text_eq has_prefix
model_matches_rule model rule =
    if text_eq model rule
    then true
    else if not (has_prefix model rule)
    then false
    else elim (get_elem? model (length rule)) [
      | none ↦ true
      | some c ↦ c == b'-' || (c == b'.' || c == b':')
    ]

-- The best rule so far, `none` for the index of -1.
abbrev pub Chosen : Type 0
Chosen = Option (Text × ModelPricing)

unfoldable pub is_longer : Text → Chosen → Bool
is_longer rule none = true
is_longer rule (some (best, p)) = ltb (length best) (length rule)

-- The loop of modelRulePricing.
unfoldable pub choose_rule : Text → List (Text × ModelPricing) → Chosen → Chosen
unfolding model_matches_rule is_longer
choose_rule model [] best = best
choose_rule model ((rule, p) ∷ rules) best =
    choose_rule model rules
      (if model_matches_rule model rule && is_longer rule best then some (rule, p) else best)

unfoldable pub model_rule_pricing : Text → Option ModelPricing
unfolding choose_rule
model_rule_pricing model = elim (choose_rule model model_pricing_rules none) [
  | none ↦ none
  | some (rule, p) ↦ some p
]

unfoldable pub claude_family_pricing : Text → Option ModelPricing
unfolding has
claude_family_pricing model =
    if has "opus" model
    then (if has "4.7" model
          || (has "4-7" model
              || (has "4.6" model || (has "4-6" model || (has "4.5" model || has "4-5" model))))
        then some (priced 5_000 25_000)
        else some (priced 15_000 75_000))
    else if has "sonnet" model
    then some (priced 3_000 15_000)
    else if has "haiku" model
    then (if has "3-5" model || has "3.5" model
        then some (priced 1_000 5_000)
        else some (priced 250 1_250))
    else if has "claude" model
    then some (priced 3_000 15_000)
    else none

unfoldable pub gemini_family_pricing : Text → Option ModelPricing
unfolding has
gemini_family_pricing model =
    if has "gemini-3.1-pro" model || has "gemini-3-1-pro" model
    then some (priced 2_000 12_000)
    else none

-- The name for the rules: that of a Codex model, or the name itself.
unfoldable pub rule_name : Text → Text
unfolding normalize_codex_billing_model
rule_name normalized = elim (normalize_codex_billing_model normalized) [
  | none ↦ normalized
  | some m ↦ m
]

abbrev pub or_else : Option ModelPricing → ModelPricing → ModelPricing
or_else none p = p
or_else (some q) p = q

unfoldable pub get_model_pricing : Text → ModelPricing
unfolding normalize_billing_model_name claude_family_pricing gemini_family_pricing
    model_rule_pricing rule_name
get_model_pricing model =
    let normalized = normalize_billing_model_name model in
    or_else (claude_family_pricing normalized) (
      or_else (gemini_family_pricing normalized)
        (or_else (model_rule_pricing (rule_name normalized)) default_model_pricing))
