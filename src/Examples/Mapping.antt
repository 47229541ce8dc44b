-- ===== src/Examples/Mapping.antt =====
-- The mapping of model names.
use qoder2api.Prelude.{◌≡◌, ◌↔◌, refl, true, false, [], ◌∷◌, List, Option, some, none}
use qoder2api.Prelude.Text.{Text, codes, text_eq, trim_space, to_lower}
use qoder2api.Proxy.ModelMapping.{
  wildcard_model_pattern_match, split_stars, rules_from, resolve_configured_model_mapping,
}
use qoder2api.Proxy.ModelMapping.Wildcards.{Described, wildcard_model_pattern_match_iff}
use qoder2api.Proxy.ModelMapping.Specific.{Mapped, resolve_configured_model_mapping-Mapped}

wildcard_model_pattern_match_iff_example :
    let p = to_lower (trim_space (codes "GPT-*-x*y")) in
    let m = to_lower (trim_space (codes "gpt-5-xxy")) in
    (wildcard_model_pattern_match (codes "GPT-*-x*y") (codes "gpt-5-xxy") ≡ true)
    ↔ Described (split_stars p).0 (split_stars p).1 p m
unfolding to_lower trim_space text_eq
wildcard_model_pattern_match_iff_example =
    wildcard_model_pattern_match_iff (codes "GPT-*-x*y") (codes "gpt-5-xxy") refl

abbrev members : List (Text × Option Text)
members =
    (codes "gpt-*", some (codes "a")) ∷ (codes "gpt-5*", some (codes "b")) ∷ (codes "x", none) ∷ []

resolve_configured_model_mapping-Mapped_example :
    Mapped
      (trim_space (codes "gpt-5.4"))
      (rules_from 0 members)
      []
      (resolve_configured_model_mapping (codes "gpt-5.4") members [])
unfolding trim_space text_eq
resolve_configured_model_mapping-Mapped_example =
    resolve_configured_model_mapping-Mapped (codes "gpt-5.4") members [] refl

-- The end of the name must not be taken by an earlier part.
overlap : wildcard_model_pattern_match (codes "ab*b") (codes "ab") ≡ false
unfolding wildcard_model_pattern_match
overlap = refl

-- The longer pattern wins.
longer_wins : resolve_configured_model_mapping (codes "gpt-5.4") members [] ≡ (codes "b", true)
unfolding resolve_configured_model_mapping
longer_wins = refl
