-- ===== src/Database/Billing/Choice.antt =====
-- The rule that is chosen, and the prices that every model has.
use qoder2api.Prelude.{
  ◌≡◌, refl, arith, Bool, true, false, ◌&&◌, List, [], ◌∷◌, none, some, if◌then◌else◌, All, inl,
  inr, Bool-cases, ◌⊎◌,
}
use qoder2api.Prelude.Text.{Text}
use qoder2api.Database.Billing.Pricing.{
  ModelPricing, Chosen, is_longer, choose_rule, model_matches_rule,
}

-- What the rule is to the loop that has chosen `best`: it matches and is longer.
abbrev pub beats : Text → Chosen → Text → Bool
beats model best rule = model_matches_rule model rule && is_longer rule best

beats_step :
    (model rule other : Text) (p : ModelPricing) (best : Chosen)
    → beats model (if beats model best rule then some (rule, p) else best) other ≡ true
    → beats model best other ≡ true
unfolding is_longer
beats_step model rule other p none h = ground (arith, h)
beats_step model rule other p (some (b, q)) h = ground (arith, h)

beats_self :
    (model rule : Text) (p : ModelPricing) (best : Chosen)
    → beats model (if beats model best rule then some (rule, p) else best) rule ≡ false
unfolding is_longer
beats_self model rule p none = ground arith
beats_self model rule p (some (b, q)) = ground arith

choose_rule-beats :
    (model other : Text) (rules : List (Text × ModelPricing)) (best : Chosen)
    → beats model (choose_rule model rules best) other ≡ true
    → beats model best other ≡ true
unfolding choose_rule
choose_rule-beats model other [] best h = h
choose_rule-beats model other ((rule, p) ∷ rules) best h =
    beats_step model rule other p best (choose_rule-beats model other rules _ h)

choose_rule-longest :
    (model : Text) (rules : List (Text × ModelPricing)) (best : Chosen)
    → All (λ x. beats model (choose_rule model rules best) x.0 ≡ false) rules
unfolding choose_rule
choose_rule-longest model [] best = tt
choose_rule-longest model ((rule, p) ∷ rules) best = (
  elim (Bool-cases (beats model (choose_rule model ((rule, p) ∷ rules) best) rule)) [
    | inr fine ↦ fine
    | inl bad ↦
        absurd
          (ground (arith, beats_self model rule p best, choose_rule-beats model rule rules _ bad))
  ],
  choose_rule-longest model rules _,
)

-- The chosen rule is one of the list, and matches the name.
abbrev pub IsRule : Text → List (Text × ModelPricing) → Text → ModelPricing → Type 0
IsRule model [] rule p = ⊥
IsRule model (x ∷ rules) rule p =
    ((x ≡ (rule, p)) × (model_matches_rule model rule ≡ true)) ⊎ IsRule model rules rule p

choose_rule-cases :
    (model : Text) (rules : List (Text × ModelPricing)) (best : Chosen)
    → (choose_rule model rules best ≡ best)
      ⊎ ((rule : Text) × (p : ModelPricing) × (choose_rule model rules best ≡ some (rule, p))
          × IsRule model rules rule p)
unfolding choose_rule
choose_rule-cases model [] best = inl refl
choose_rule-cases model ((rule, p) ∷ rules) best =
    elim (choose_rule-cases model rules (if beats model best rule then some (rule, p) else best)) [
      | inr (r, q, e, m) ↦ inr (r, q, e, inr m)
      | inl e ↦ elim (Bool-cases (beats model best rule)) [
        | inl new ↦ inr (rule, p, ground (arith, e, new), inl (refl, ground (arith, new)))
        | inr old ↦ inl (ground (arith, e, old))
      ]
    ]

-- The rule that is chosen for a model's name is one of the rules and matches the name, no rule that
-- matches is longer, and if none is chosen then none matches.
pub choose_rule-IsRule :
    (model : Text) (rules : List (Text × ModelPricing))
    → let best = choose_rule model rules none in
      All (λ x. beats model best x.0 ≡ false) rules
      × ((best ≡ none)
          ⊎ ((rule : Text) × (p : ModelPricing) × (best ≡ some (rule, p))
              × IsRule model rules rule p))
choose_rule-IsRule model rules =
    (choose_rule-longest model rules none, choose_rule-cases model rules none)
