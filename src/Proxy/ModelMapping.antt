-- ===== src/Proxy/ModelMapping.antt =====
-- proxy/model_mapping.go: the configured mapping of model names, with wildcards. The members of the
-- JSON object are a parameter, in their order; one whose value is no string is `none`. The position in
-- the model's name is the text behind it.
pub mod Globs
pub mod Wildcards
pub mod Specific
use qoder2api.Prelude.{
  ℕ, ◌+◌, ◌-◌, Bool, true, false, not, ◌&&◌, ◌||◌, List, [], ◌∷◌, Option, none, some, if◌then◌else◌,
  leb, ltb, ◌==◌, length,
}
use qoder2api.Prelude.Text.{Text, is, text_eq, trim_space, to_lower, equal_fold, after_prefix}

-- proxy/qoder_compat.go
unfoldable pub canonicalize_codex_model : Text → List Text → Text
unfolding trim_space text_eq equal_fold
canonicalize_codex_model model [] = trim_space model
canonicalize_codex_model model (supported ∷ rest) =
    let later = canonicalize_codex_model model rest in
    if is "" (trim_space model)
    then []
    else if equal_fold (trim_space model) supported
    then supported
    else later

pub record ModelMappingRule : Type 0 where
  pub from : Text
  pub to : Text
  pub index : ℕ
  pub wildcard : Bool
  pub literal_len : ℕ
  pub star_count : ℕ

-- strings.Count(s, "*") and len(strings.ReplaceAll(s, "*", ""))
unfoldable pub stars : Text → ℕ
stars [] = 0
stars (c ∷ s) = let rest = stars s in if c == b'*' then rest + 1 else rest

unfoldable pub literals : Text → ℕ
literals [] = 0
literals (c ∷ s) = let rest = literals s in if c == b'*' then rest else rest + 1

-- The loop over the members of the object, from an index on.
unfoldable pub rules_from : ℕ → List (Text × Option Text) → List ModelMappingRule
unfolding trim_space text_eq stars literals
rules_from index [] = []
rules_from index ((key, none) ∷ members) = rules_from index members
rules_from index ((key, some value) ∷ members) =
    let from = trim_space key in
    let to = trim_space value in
    let skipped = rules_from index members in
    let taken = rules_from (index + 1) members in
    if is "" from || is "" to
    then skipped
    else record {
      from = from;
      to = to;
      index = index;
      wildcard = ltb 0 (stars from);
      literal_len = literals from;
      star_count = stars from;
    }
      ∷ taken

-- strings.Split(s, "*"): the first part and the others.
unfoldable pub split_stars : Text → Text × List Text
split_stars [] = ([], [])
split_stars (c ∷ s) =
    let (first, others) = split_stars s in
    if c == b'*' then ([], first ∷ others) else (c ∷ first, others)

-- strings.Index(s, p): the text behind the first occurrence.
unfoldable pub after_index : Text → Text → Option Text
unfolding after_prefix
after_index p [] = after_prefix [] p
after_index p (c ∷ s) =
    let later = after_index p s in
    elim (after_prefix (c ∷ s) p) [ some rest ↦ some rest | none ↦ later ]

unfoldable pub has_suffix : Text → Text → Bool
unfolding text_eq
has_suffix [] t = text_eq [] t
has_suffix (c ∷ s) t = text_eq (c ∷ s) t || has_suffix s t

-- The loop over the parts behind the first one, at the text that is left.
unfoldable pub match_parts : List Text → Text → Option Text
unfolding after_index text_eq
match_parts [] s = some s
match_parts (p ∷ ps) s =
    let skipped = match_parts ps s in
    if is "" p
    then skipped
    else elim (after_index p s) [ none ↦ none | some rest ↦ match_parts ps rest ]

abbrev pub last_part : Text → List Text → Text
last_part p [] = p
last_part p (q ∷ ps) = last_part q ps

-- The match of the parts, the first of which is at the start and the last at the end.
unfoldable pub match_split : Text → List Text → Text → Bool
unfolding after_prefix match_parts has_suffix text_eq
match_split first others model = elim (after_prefix model first) [
  | none ↦ false
  | some s ↦ elim (match_parts others s) [
    | none ↦ false
    | some rest ↦
        let end = last_part first others in if is "" end then true else has_suffix model end
  ]
]

-- The pattern without a star is compared as it is.
unfoldable pub match_pattern : Text → List Text → Text → Text → Bool
unfolding match_split text_eq
match_pattern first [] pattern model = text_eq pattern model
match_pattern first (q ∷ others) pattern model = match_split first (q ∷ others) model

unfoldable pub wildcard_model_pattern_match : Text → Text → Bool
unfolding to_lower trim_space text_eq split_stars match_pattern
wildcard_model_pattern_match pattern model =
    let p = to_lower (trim_space pattern) in
    let m = to_lower (trim_space model) in
    if is "" p
    then is "" m
    else let (first, others) = split_stars p in match_pattern first others p m

unfoldable pub is_more_specific_model_mapping : ModelMappingRule → ModelMappingRule → Bool
is_more_specific_model_mapping candidate current =
    if not (candidate.literal_len == current.literal_len)
    then ltb current.literal_len candidate.literal_len
    else if not (candidate.star_count == current.star_count)
    then ltb candidate.star_count current.star_count
    else ltb candidate.index current.index

-- The first rule without a wildcard that names the model.
unfoldable pub exact_rule : Text → List ModelMappingRule → Option ModelMappingRule
unfolding equal_fold
exact_rule model [] = none
exact_rule model (r ∷ rules) =
    let later = exact_rule model rules in
    if not r.wildcard && equal_fold r.from model then some r else later

abbrev pub is_better : ModelMappingRule → Option ModelMappingRule → Bool
is_better r none = true
is_better r (some best) = is_more_specific_model_mapping r best

unfoldable pub best_rule :
    Text → List ModelMappingRule → Option ModelMappingRule → Option ModelMappingRule
unfolding wildcard_model_pattern_match is_more_specific_model_mapping
best_rule model [] best = best
best_rule model (r ∷ rules) best = best_rule model rules (
    if r.wildcard && wildcard_model_pattern_match r.from model && is_better r best
    then some r
    else best)

unfoldable pub resolve_configured_model_mapping :
    Text → List (Text × Option Text) → List Text → Text × Bool
unfolding trim_space text_eq rules_from exact_rule best_rule canonicalize_codex_model
resolve_configured_model_mapping model members supported =
    let m = trim_space model in
    let rules = rules_from 0 members in
    if is "" m then ([], false) else elim (exact_rule m rules) [
      | some r ↦ (canonicalize_codex_model r.to supported, true)
      | none ↦ elim (best_rule m rules none) [
        | some r ↦ (canonicalize_codex_model r.to supported, true)
        | none ↦ (m, false)
      ]
    ]
