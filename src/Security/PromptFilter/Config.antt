-- ===== src/Security/PromptFilter/Config.antt =====
-- security/promptfilter/filter.go: the configuration and its normal form.
use qoder2api.Prelude.{
  ℕ, ◌*◌, Bool, true, false, ◌&&◌, ◌||◌, List, [], ◌∷◌, Option, if◌then◌else◌, ltb, ◌==◌,
}
use qoder2api.Prelude.Text.{Text, codes, is, text_eq, to_lower, trim_space}

pub data Mode : Type 0 where
  monitor warn block : Mode

pub record PatternConfig : Type 0 where
  pub name : Text
  pub pattern : Text
  pub weight : ℕ
  pub category : Text
  pub is_strict : Bool
  pub enabled : Option Bool

-- The mode is the text that was configured.
pub record Config : Type 0 where
  pub enabled : Bool
  pub mode : Text
  pub threshold : ℕ
  pub strict_threshold : ℕ
  pub log_matches : Bool
  pub max_text_length : ℕ
  pub sensitive_words : Text
  pub custom_patterns : List PatternConfig
  pub disabled_patterns : List Text

abbrev pub default_max_text_length : ℕ
default_max_text_length = 80 * 1024

abbrev pub default_config : Config
default_config = record {
  enabled = false;
  mode = codes "monitor";
  threshold = 50;
  strict_threshold = 90;
  log_matches = true;
  max_text_length = default_max_text_length;
  sensitive_words = [];
  custom_patterns = [];
  disabled_patterns = [];
}

-- a < b on strings
unfoldable pub text_less : Text → Text → Bool
text_less s [] = false
text_less [] (b ∷ t) = true
text_less (a ∷ s) (b ∷ t) = let rest = text_less s t in ltb a b || (a == b && rest)

unfoldable pub has_key : Text → List Text → Bool
unfolding text_eq
has_key k [] = false
has_key k (j ∷ keys) = text_eq j k || has_key k keys

-- The loop of normalizePatternNames, with the keys that were seen.
unfoldable pub distinct_names : List Text → List Text → List Text
unfolding trim_space to_lower text_eq has_key
distinct_names seen [] = []
distinct_names seen (name ∷ names) =
    let n = trim_space name in
    let skipped = distinct_names seen names in
    let taken = distinct_names (to_lower n ∷ seen) names in
    if is "" n || has_key (to_lower n) seen then skipped else n ∷ taken

unfoldable pub insert_name : Text → List Text → List Text
unfolding text_less to_lower
insert_name n [] = n ∷ []
insert_name n (m ∷ names) =
    if text_less (to_lower m) (to_lower n) then m ∷ insert_name n names else n ∷ m ∷ names

-- sort.Slice; no two names have the same key.
unfoldable pub sort_names : List Text → List Text
unfolding insert_name
sort_names [] = []
sort_names (n ∷ names) = insert_name n (sort_names names)

unfoldable pub normalize_pattern_names : List Text → List Text
unfolding distinct_names sort_names
normalize_pattern_names names = sort_names (distinct_names [] names)

-- strings.TrimSpace of an empty mode is the default one, which the switch leaves as it is.
unfoldable pub mode_of : Text → Mode
unfolding to_lower trim_space text_eq
mode_of mode =
    let m = if is "" (trim_space mode) then default_config.mode else mode in
    let key = to_lower (trim_space m) in
    if is "block" key then block else if is "warn" key then warn else monitor

abbrev pub mode_text : Mode → Text
mode_text monitor = codes "monitor"
mode_text warn = codes "warn"
mode_text block = codes "block"

-- if n <= 0 { n = standard }; if n > most { n = most }
abbrev pub clamp : ℕ → ℕ → ℕ → ℕ
clamp standard most n = let m = if n == 0 then standard else n in if ltb most m then most else m

unfoldable pub normalize_config : Config → Config
unfolding mode_of normalize_pattern_names
normalize_config c =
    let threshold = clamp default_config.threshold 500 c.threshold in
    let strict1 =
      if c.strict_threshold == 0 then default_config.strict_threshold else c.strict_threshold in
    let strict2 = if ltb strict1 threshold then threshold else strict1 in
    record c {
      mode = mode_text (mode_of c.mode);
      threshold = threshold;
      strict_threshold = if ltb 1000 strict2 then 1000 else strict2;
      max_text_length = clamp default_config.max_text_length (1024 * 1024) c.max_text_length;
      disabled_patterns = normalize_pattern_names c.disabled_patterns;
    }
