-- ===== src/Examples/PromptFilter.antt =====
-- The prompt filter. As a regular expression there is one text, which must occur as it is; no other
-- pattern compiles.
use qoder2api.Prelude.{
  ◌≡◌, store, refl, arith, true, false, [], ◌∷◌, none, some, inl, inr, if◌then◌else◌,
}
use qoder2api.Prelude.Text.{Text, codes, trim_space, is, text_eq, contains}
use qoder2api.Security.PromptFilter.Config.{
  Config, PatternConfig, default_config, mode_of, normalize_config,
}
use qoder2api.Security.PromptFilter.Scan.{
  limit_scan_text, normalize_for_scan, runes_from, rune_count, preview, joined,
}
use qoder2api.Security.PromptFilter.Engine.{
  Regexps, Engine, allow, blocked, engine_inspect_text, inspect_text, is_skipped,
  disabled_pattern_set, found_in, match_words, match_patterns,
}
use qoder2api.Security.PromptFilter.Blocking.{
  weight_sum, engine_inspect_text-blocked, inspect_text-uncompiled,
}

abbrev a_pattern : PatternConfig
a_pattern = record {
  name = codes "root";
  pattern = codes "root";
  weight = 35;
  category = [];
  is_strict = false;
  enabled = none;
}

abbrev plain : Regexps
plain = record {
  Regex = Text;
  compile = λ s. if is "root" s then some s else none;
  match_string = λ re s. contains s re;
  default_pattern_configs = a_pattern ∷ [];
  defensive_context_patterns = codes "how to defend" ∷ [];
}

abbrev an_engine : Engine plain
an_engine = record {
  cfg = record default_config { enabled = true; mode = codes "block" };
  patterns = (a_pattern, codes "root") ∷ [];
  sensitive_words = codes "secret" ∷ [];
}

engine_inspect_text-blocked_example :
    (engine_inspect_text plain an_engine (codes "How to defend a Secret")).action ≡ blocked
unfolding mode_of text_eq contains trim_space normalize_for_scan limit_scan_text runes_from
    weight_sum found_in match_words match_patterns store
engine_inspect_text-blocked_example =
    engine_inspect_text-blocked plain an_engine (codes "How to defend a Secret") (codes "secret")
      refl refl (omega arith) refl (omega arith) (inl refl) refl refl (refl, tt) (omega arith)

abbrev bad_config : Config
bad_config = record default_config {
  enabled = true;
  mode = codes "block";
  custom_patterns = record a_pattern { name = codes "bad"; pattern = codes "(" } ∷ [];
}

inspect_text-uncompiled_example :
    let v = inspect_text plain (codes "root") bad_config in
    (v.action ≡ allow) × (v.score ≡ 0) × (v.matched ≡ [])
unfolding is_skipped normalize_config disabled_pattern_set text_eq
inspect_text-uncompiled_example =
    inspect_text-uncompiled plain bad_config
      (record a_pattern { name = codes "bad"; pattern = codes "(" }) (codes "root") (inr (inl refl))
      refl refl

-- The head and the tail of a text that is too long.
cut_text : limit_scan_text (codes "abcdefgh") 5 ≡ codes "abcd\nh"
unfolding limit_scan_text
cut_text = refl

-- Two runes, of three bytes each, are left unchecked.
two_runes : rune_count (230 ∷ 175 ∷ 146 ∷ 230 ∷ 175 ∷ 146 ∷ []) ≡ 2
unfolding runes_from
two_runes = refl

-- A preview cuts between runes.
one_rune : preview (230 ∷ 175 ∷ 146 ∷ 230 ∷ 175 ∷ 146 ∷ []) 1 ≡ 230 ∷ 175 ∷ 146 ∷ codes "..."
unfolding preview joined trim_space
one_rune = refl
