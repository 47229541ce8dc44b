-- ===== src/Proxy/ModelMapping/Specific.antt =====
-- Which rule maps a model's name.
use qoder2api.Prelude.{
  ◌≡◌, refl, subst, arith, Bool, true, false, not, ◌&&◌, List, [], ◌∷◌, Option, none, some,
  if◌then◌else◌, inl, inr, ◌⊎◌, All, Bool-cases,
}
use qoder2api.Prelude.Text.{Text, equal_fold, is, trim_space}
use qoder2api.Proxy.ModelMapping.{
  ModelMappingRule, wildcard_model_pattern_match, is_more_specific_model_mapping, exact_rule,
  best_rule, is_better, canonicalize_codex_model, resolve_configured_model_mapping, rules_from,
}

abbrev pub is_wild : Text → ModelMappingRule → Bool
is_wild model r = r.wildcard && wildcard_model_pattern_match r.from model

abbrev pub is_exact : Text → ModelMappingRule → Bool
is_exact model r = not r.wildcard && equal_fold r.from model

-- The rule is a wildcard that matches, and is better than the one that is chosen.
abbrev beats : Text → Option ModelMappingRule → ModelMappingRule → Bool
beats model best r = is_wild model r && is_better r best

beats-step :
    (model : Text) (r s : ModelMappingRule) (best : Option ModelMappingRule)
    → beats model (if beats model best r then some r else best) s ≡ true
    → beats model best s ≡ true
unfolding is_more_specific_model_mapping
beats-step model r s none h = ground (arith, h)
beats-step model r s (some b) h = ground (arith, h)

beats_self :
    (model : Text) (r : ModelMappingRule) (best : Option ModelMappingRule)
    → beats model (if beats model best r then some r else best) r ≡ false
unfolding is_more_specific_model_mapping
beats_self model r none = ground arith
beats_self model r (some b) = ground arith

best_rule-beats :
    (model : Text) (s : ModelMappingRule) (rules : List ModelMappingRule)
    (best : Option ModelMappingRule)
    → beats model (best_rule model rules best) s ≡ true
    → beats model best s ≡ true
unfolding best_rule
best_rule-beats model s [] best h = h
best_rule-beats model s (r ∷ rules) best h =
    beats-step model r s best (best_rule-beats model s rules _ h)

best_rule-best :
    (model : Text) (rules : List ModelMappingRule) (best : Option ModelMappingRule)
    → All (λ s. beats model (best_rule model rules best) s ≡ false) rules
unfolding best_rule
best_rule-best model [] best = tt
best_rule-best model (r ∷ rules) best = (
  elim (Bool-cases (beats model (best_rule model (r ∷ rules) best) r)) [
    | inr fine ↦ fine
    | inl bad ↦
        absurd (ground (arith, beats_self model r best, best_rule-beats model r rules _ bad))
  ],
  best_rule-best model rules _,
)

abbrev pub IsRule : ModelMappingRule → List ModelMappingRule → Type 0
IsRule r [] = ⊥
IsRule r (s ∷ rules) = (r ≡ s) ⊎ IsRule r rules

best_rule-cases :
    (model : Text) (rules : List ModelMappingRule) (best : Option ModelMappingRule)
    → (best_rule model rules best ≡ best)
      ⊎ ((r : ModelMappingRule) × (best_rule model rules best ≡ some r)
          × IsRule r rules
          × (is_wild model r ≡ true))
unfolding best_rule
best_rule-cases model [] best = inl refl
best_rule-cases model (r ∷ rules) best =
    elim (best_rule-cases model rules (if beats model best r then some r else best)) [
      | inr (s, e, at, wild) ↦ inr (s, e, inr at, wild)
      | inl e ↦ elim (Bool-cases (beats model best r)) [
        | inl new ↦ inr (r, ground (arith, e, new), inl refl, ground (arith, new))
        | inr old ↦ inl (ground (arith, e, old))
      ]
    ]

exact_rule-cases :
    (model : Text) (rules : List ModelMappingRule)
    → ((exact_rule model rules ≡ none) × All (λ r. is_exact model r ≡ false) rules)
      ⊎ ((r : ModelMappingRule) × (exact_rule model rules ≡ some r)
          × IsRule r rules
          × (is_exact model r ≡ true))
unfolding exact_rule
exact_rule-cases model [] = inl (refl, tt)
exact_rule-cases model (r ∷ rules) = elim (Bool-cases (is_exact model r)) [
  | inl here ↦ inr (r, ground (arith, here), inl refl, here)
  | inr other ↦ elim (exact_rule-cases model rules) [
    | inl (e, f) ↦ inl (ground (arith, other, e), (other, f))
    | inr (s, e, at, x) ↦ inr (s, ground (arith, other, e), inr at, x)
  ]
]

-- How a name is mapped by rules: by one that names it; or, if none does, by a wildcard that matches it,
-- where no wildcard that matches is more specific; or, if no wildcard matches either, not at all.
abbrev pub Mapped : Text → List ModelMappingRule → List Text → Text × Bool → Type 0
Mapped m rules supported result =
    ((r : ModelMappingRule) × IsRule r rules
      × (is_exact m r ≡ true)
      × (result ≡ (canonicalize_codex_model r.to supported, true)))
    ⊎ (All (λ r. is_exact m r ≡ false) rules
        × (((r : ModelMappingRule) × IsRule r rules
              × (is_wild m r ≡ true)
              × All (λ s. (is_wild m s && is_more_specific_model_mapping s r) ≡ false) rules
              × (result ≡ (canonicalize_codex_model r.to supported, true)))
            ⊎ (All (λ r. is_wild m r ≡ false) rules × (result ≡ (m, false)))))

All-wild :
    (m : Text) (rules : List ModelMappingRule)
    → All (λ s. (is_wild m s && true) ≡ false) rules
    → All (λ s. is_wild m s ≡ false) rules
All-wild m [] p = tt
All-wild m (r ∷ rules) (p, ps) = (ground (arith, p), All-wild m rules ps)

-- The name of a model, which is not blank, is mapped as Mapped says by the rules of the members: rules
-- without a wildcard come first, then the most specific wildcard.
pub resolve_configured_model_mapping-Mapped :
    (model : Text) (members : List (Text × Option Text)) (supported : List Text)
    → is "" (trim_space model) ≡ false
    → Mapped
        (trim_space model)
        (rules_from 0 members)
        supported
        (resolve_configured_model_mapping model members supported)
unfolding resolve_configured_model_mapping
resolve_configured_model_mapping-Mapped model members supported named =
    let m = trim_space model in
    let rules = rules_from 0 members in
    elim (exact_rule-cases m rules) [
      | inr (r, e, at, x) ↦ inl (r, at, x, ground (arith, named, e))
      | inl (e, none') ↦ elim (best_rule-cases m rules none) [
        | inr (r, f, at, wild) ↦ inr (
          none',
          inl (
            r,
            at,
            wild,
            subst (λ (o : Option ModelMappingRule). All (λ s. beats m o s ≡ false) rules) f
                (best_rule-best m rules none),
            ground (arith, named, e, f),
          ),
        )
        | inl f ↦ inr (
          none',
          inr (
            All-wild m rules (
                subst (λ (o : Option ModelMappingRule). All (λ s. beats m o s ≡ false) rules) f
                  (best_rule-best m rules none)),
            ground (arith, named, e, f),
          ),
        )
      ]
    ]
