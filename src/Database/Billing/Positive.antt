-- ===== src/Database/Billing/Positive.antt =====
-- No request with tokens is free.
use native.Mathlib.Nat.{suc-mul}
use qoder2api.Prelude.{
  ℕ, zero, suc, ◌+◌, ◌*◌, ◌<◌, ◌≡◌, refl, arith, Bool, true, false, not, ◌&&◌, ◌||◌, List, [], ◌∷◌,
  Option, none, some, if◌then◌else◌, ltb, All, inl, inr, ◌⊎◌, Bool-cases,
}
use qoder2api.Prelude.Int.{ℤ}
use qoder2api.Prelude.Text.{Text}
use qoder2api.Database.Billing.Names.{normalize_billing_model_name}
use qoder2api.Database.Billing.Pricing.{
  ModelPricing, Chosen, is_longer, choose_rule, model_matches_rule, model_rule_pricing,
  model_pricing_rules, claude_family_pricing, gemini_family_pricing, get_model_pricing, rule_name,
  or_else,
}
use qoder2api.Database.Billing.Costs.{
  calculate_cost_breakdown, cached_of, uncached_of, prices_of, standard_prices, priority_price,
  service_tier_cost_multiplier, long_context_threshold,
}

-- The input and the output have a price, and where a long input has one, a long output has one.
abbrev is_priced : ModelPricing → Bool
is_priced p =
    ltb 0 p.input_price_per_mtoken
    && (ltb 0 p.output_price_per_mtoken
        && (not (ltb 0 p.long_input_price_per_mtoken) || ltb 0 p.long_output_price_per_mtoken))

abbrev IsPriced : ModelPricing → Type 0
IsPriced p = is_priced p ≡ true

rules-IsPriced : All (λ x. IsPriced x.1) model_pricing_rules
rules-IsPriced = (
  refl,
  (
    refl,
    (
      refl,
      (refl, (refl, (refl, (refl, (refl, (refl, (refl, (refl, (refl, (refl, (refl, tt))))))))))),
    ),
  ),
)

abbrev ChosenPriced : Chosen → Type 0
ChosenPriced none = Unit
ChosenPriced (some (rule, p)) = IsPriced p

choose_rule-IsPriced :
    (model : Text) (rules : List (Text × ModelPricing)) (best : Chosen)
    → All (λ x. IsPriced x.1) rules
    → ChosenPriced best
    → ChosenPriced (choose_rule model rules best)
unfolding choose_rule
choose_rule-IsPriced model [] best ps b = b
choose_rule-IsPriced model ((rule, p) ∷ rules) best (q, ps) b =
    choose_rule-IsPriced model rules _ ps
      (elim (Bool-cases (model_matches_rule model rule && is_longer rule best)) [
        | inl new ↦ rw new q
        | inr old ↦ rw old b
      ])

abbrev OptionPriced : Option ModelPricing → Type 0
OptionPriced none = Unit
OptionPriced (some p) = IsPriced p

or_else-IsPriced :
    (o : Option ModelPricing) (p : ModelPricing)
    → OptionPriced o
    → IsPriced p
    → IsPriced (or_else o p)
or_else-IsPriced none p a b = b
or_else-IsPriced (some q) p a b = a

if-OptionPriced :
    (b : Bool) (o q : Option ModelPricing)
    → OptionPriced o
    → OptionPriced q
    → OptionPriced (if b then o else q)
if-OptionPriced true o q x y = x
if-OptionPriced false o q x y = y

claude-IsPriced : (model : Text) → OptionPriced (claude_family_pricing model)
unfolding claude_family_pricing
claude-IsPriced model = search if-OptionPriced

gemini-IsPriced : (model : Text) → OptionPriced (gemini_family_pricing model)
unfolding gemini_family_pricing
gemini-IsPriced model = search if-OptionPriced

of_chosen :
    (o : Chosen) → ChosenPriced o → OptionPriced (elim o [ none ↦ none | some (rule, p) ↦ some p ])
of_chosen none h = tt
of_chosen (some (rule, p)) h = h

get_model_pricing-IsPriced : (model : Text) → IsPriced (get_model_pricing model)
unfolding get_model_pricing model_rule_pricing
get_model_pricing-IsPriced model =
    let n = normalize_billing_model_name model in
    or_else-IsPriced (claude_family_pricing n) _ (claude-IsPriced n) (
      or_else-IsPriced (gemini_family_pricing n) _ (gemini-IsPriced n) (
        or_else-IsPriced (model_rule_pricing (rule_name n)) _
          (of_chosen _
            (choose_rule-IsPriced (rule_name n) model_pricing_rules none rules-IsPriced tt))
          refl))

prices_of-positive :
    (is_long : Bool) (tier : Text) (p : ModelPricing)
    → IsPriced p
    → let q = prices_of is_long tier p in (0 < q.input) × (0 < q.output) × (0 < q.multiplier)
unfolding prices_of standard_prices priority_price service_tier_cost_multiplier
prices_of-positive is_long tier p h = (ground arith, ground arith, ground arith)

mul_pos : (a b : ℕ) → 0 < a → 0 < b → 0 < a * b
mul_pos zero b p q = absurd (omega arith)
mul_pos (suc a) b p q = omega (arith, suc-mul a b)

positive-cases :
    (u c o r input : ℕ)
    → (u ≡ input) ⊎ ((0 < r) × (u + c ≡ input))
    → 0 < input + o
    → (0 < u) ⊎ (((0 < c) × (0 < r)) ⊎ (0 < o))
positive-cases u c o r input w t = ground arith

sum_pos :
    (u c o i r q m input : ℕ)
    → 0 < i
    → 0 < q
    → 0 < m
    → (u ≡ input) ⊎ ((0 < r) × (u + c ≡ input))
    → 0 < input + o
    → 0 < ((u * i + c * r) + o * q) * m
sum_pos u c o i r q m input x y z w t =
    mul_pos _ m
      (elim (positive-cases u c o r input w t) [
        | inl a ↦ omega (arith, mul_pos u i a x)
        | inr (inl (a, b)) ↦ omega (arith, mul_pos c r a b)
        | inr (inr a) ↦ omega (arith, mul_pos o q a y)
      ])
      z

uncached-cases :
    (r input : ℕ) (cached : ℤ)
    → let c = cached_of cached input in
      (uncached_of r c input ≡ input) ⊎ ((0 < r) × (uncached_of r c input + c ≡ input))
unfolding uncached_of cached_of
uncached-cases r input cached = ground arith

-- A request with tokens has a cost, whatever the model, the tier and the cached tokens.
pub calculate_cost_breakdown-positive :
    (input output : ℕ) (cached : ℤ) (model tier : Text)
    → 0 < input + output
    → 0 < (calculate_cost_breakdown input output cached model tier).total_cost
unfolding calculate_cost_breakdown
calculate_cost_breakdown-positive input output cached model tier t =
    let is_long = ltb long_context_threshold input in
    let p = prices_of is_long tier (get_model_pricing model) in
    let c = cached_of cached input in
    let (x, y, z) =
      prices_of-positive is_long tier (get_model_pricing model)
        (get_model_pricing-IsPriced model) in
    sum_pos (uncached_of p.cache_read c input) c output p.input p.cache_read p.output p.multiplier
      input x y z (uncached-cases p.cache_read input cached) t
