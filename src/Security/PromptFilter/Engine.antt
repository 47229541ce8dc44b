-- ===== src/Security/PromptFilter/Engine.antt =====
-- security/promptfilter/filter.go: the engine and its verdict. `Regexps` holds what the engine takes
-- from package regexp, with the two lists of built-in patterns; a pattern that does not compile is
-- `none`. The verdict leaves out its reason, a text for the log.
use qoder2api.Prelude.{
  ℕ, ◌+◌, ◌-◌, Bool, true, false, not, ◌&&◌, ◌||◌, List, [], ◌∷◌, ◌++◌, Option, none, some,
  if◌then◌else◌, leb, ltb, ◌==◌, ◌%◌, store,
}
use qoder2api.Prelude.Text.{Text, codes, is, text_eq, text_key, to_lower, trim_space, contains}
use qoder2api.Security.PromptFilter.Config.{
  Mode, monitor, warn, block, PatternConfig, Config, mode_of, normalize_config, has_key, text_less,
}
use qoder2api.Security.PromptFilter.Scan.{
  limit_scan_text, normalize_for_scan, preview, lines, runes_from, rune_count,
}

pub record Regexps : Type 1 where
  pub Regex : Type 0
  pub compile : Text → Option Regex
  pub match_string : Regex → Text → Bool
  pub default_pattern_configs : List PatternConfig
  pub defensive_context_patterns : List Regex

pub record Match : Type 0 where
  pub name : Text
  pub weight : ℕ
  pub category : Text
  pub is_strict : Bool

pub data Action : Type 0 where
  allow warned blocked : Action

pub record Verdict : Type 0 where
  pub enabled : Bool
  pub mode : Text
  pub action : Action
  pub score : ℕ
  pub raw_score : ℕ
  pub threshold : ℕ
  pub strict_hit : Bool
  pub matched : List Match
  pub text_preview : Text
  pub extracted_chars : ℕ

-- The loop of parseSensitiveWords, with the words that were seen.
unfoldable pub distinct_words : List Text → List Text → List Text
unfolding has_key normalize_for_scan trim_space text_eq
distinct_words seen [] = []
distinct_words seen (line ∷ rest) =
    let word = normalize_for_scan (trim_space line) in
    let skipped = distinct_words seen rest in
    let taken = distinct_words (word ∷ seen) rest in
    if is "" word || has_key word seen then skipped else word ∷ taken

unfoldable pub parse_sensitive_words : Text → List Text
unfolding distinct_words lines
parse_sensitive_words raw = distinct_words [] (lines raw)

unfoldable pub disabled_pattern_set : List Text → List Text
unfolding trim_space to_lower text_eq
disabled_pattern_set [] = []
disabled_pattern_set (name ∷ names) =
    let rest = disabled_pattern_set names in
    if is "" (trim_space name) then rest else to_lower (trim_space name) ∷ rest

abbrev pub trimmed : PatternConfig → PatternConfig
trimmed p = record p {
  name = trim_space p.name;
  pattern = trim_space p.pattern;
  category = trim_space p.category;
}

abbrev is_off : Option Bool → Bool
is_off none = false
is_off (some b) = not b

-- The patterns that the loop of NewEngine leaves out.
unfoldable pub is_skipped : List Text → PatternConfig → Bool
unfolding has_key to_lower text_eq
is_skipped disabled p =
    is "" p.name
    || (is "" p.pattern || p.weight == 0)
    || (has_key (to_lower p.name) disabled || is_off p.enabled)

abbrev pub match_of : PatternConfig → Match
match_of p = record {
  name = p.name;
  weight = p.weight;
  category = p.category;
  is_strict = p.is_strict;
}

abbrev pub sensitive_match : Text → Match
sensitive_match word = record {
  name = codes "sensitive_word:" ++ word;
  weight = 100;
  category = codes "sensitive_word";
  is_strict = true;
}

abbrev pub Matches : Type 0
Matches = List (Text × Match)

abbrev pub add_match : Match → Matches → Matches
add_match m found = store m.name m found

unfoldable pub match_words : Text → List Text → Matches → Matches
unfolding contains text_eq
match_words text [] found = found
match_words text (word ∷ words) found = match_words text words (
    if not (is "" word) && contains text word
    then add_match (sensitive_match word) found
    else found)

abbrev pub two_63 : ℕ
two_63 = 9_223_372_036_854_775_808

abbrev pub two_64 : ℕ
two_64 = 18_446_744_073_709_551_616

-- The sums of weights are in 64 bits; a sum of 2^63 or more stands for a negative one.
unfoldable pub raw_score_of : Matches → ℕ
raw_score_of [] = 0
raw_score_of ((k, m) ∷ found) = (m.weight + raw_score_of found) % two_64

unfoldable pub strict_score_of : Matches → ℕ
strict_score_of [] = 0
strict_score_of ((k, m) ∷ found) =
    let rest = strict_score_of found in if m.is_strict then (m.weight + rest) % two_64 else rest

-- threshold <= score, for a threshold that is not negative.
unfoldable pub reaches : ℕ → ℕ → Bool
reaches threshold score = ltb score two_63 && leb threshold score

unfoldable pub insert_match : Match → List Match → List Match
unfolding text_less
insert_match m [] = m ∷ []
insert_match m (n ∷ ms) =
    if ltb m.weight n.weight || (n.weight == m.weight && text_less n.name m.name)
    then n ∷ insert_match m ms
    else m ∷ n ∷ ms

-- sort.Slice: heavier matches first, then by name.
unfoldable pub sort_matches : Matches → List Match
unfolding insert_match
sort_matches [] = []
sort_matches ((k, m) ∷ found) = insert_match m (sort_matches found)

unfoldable pub action_of : Mode → ℕ → ℕ → Bool → Action
unfolding reaches
action_of mode score threshold strict_hit =
    if reaches threshold score || strict_hit
    then elim mode [ block ↦ blocked | warn ↦ warned | monitor ↦ allow ]
    else allow

module _ (x : Regexps) where
  -- The loop of NewEngine: `none` for the first pattern that does not compile.
  unfoldable pub compile_patterns :
      List Text → List PatternConfig → Option (List (PatternConfig × x.Regex))
  unfolding is_skipped trim_space
  compile_patterns disabled [] = some []
  compile_patterns disabled (p ∷ ps) =
      let rest = compile_patterns disabled ps in
      if is_skipped disabled (trimmed p) then rest else elim (x.compile (trimmed p).pattern) [
        | none ↦ none
        | some re ↦ elim rest [ none ↦ none | some qs ↦ some ((trimmed p, re) ∷ qs) ]
      ]

  unfoldable pub match_patterns : Text → List (PatternConfig × x.Regex) → Matches → Matches
  match_patterns text [] found = found
  match_patterns text ((p, re) ∷ ps) found =
      match_patterns text ps
        (if x.match_string re text then add_match (match_of p) found else found)

  discount_from : Text → List x.Regex → ℕ
  discount_from text [] = 0
  discount_from text (re ∷ res) =
      let rest = discount_from text res in if x.match_string re text then 15 + rest else rest

  unfoldable pub defensive_context_discount : Text → ℕ
  unfolding discount_from
  defensive_context_discount text =
      let d = discount_from text x.defensive_context_patterns in if ltb 45 d then 45 else d

  pub record Engine : Type 0 where
    pub cfg : Config
    pub patterns : List (PatternConfig × x.Regex)
    pub sensitive_words : List Text

  unfoldable pub new_engine : Config → Option Engine
  unfolding normalize_config compile_patterns parse_sensitive_words disabled_pattern_set
  new_engine cfg =
      let c = normalize_config cfg in
      elim (compile_patterns (disabled_pattern_set c.disabled_patterns)
        (x.default_pattern_configs ++ c.custom_patterns)) [
          | none ↦ none
          | some ps ↦ some (record {
            cfg = c;
            patterns = ps;
            sensitive_words = parse_sensitive_words c.sensitive_words;
          })
        ]

  -- The verdict as it is set up.
  unfoldable pub first_verdict : Text → Config → Verdict
  unfolding preview runes_from
  first_verdict text c = record {
    enabled = c.enabled;
    mode = c.mode;
    action = allow;
    score = 0;
    raw_score = 0;
    threshold = c.threshold;
    strict_hit = false;
    matched = [];
    text_preview = preview text 500;
    extracted_chars = rune_count text;
  }

  unfoldable pub found_in : Engine → Text → Matches
  unfolding match_words match_patterns
  found_in e scan_text =
      match_patterns scan_text e.patterns (match_words scan_text e.sensitive_words [])

  -- score -= defensiveContextDiscount(scanText), if the score is above 0, down to 0.
  unfoldable pub judge : Engine → Text → Text → Verdict
  unfolding found_in raw_score_of strict_score_of sort_matches action_of first_verdict reaches
      defensive_context_discount mode_of
  judge e text scan_text =
      let found = found_in e scan_text in
      let raw = raw_score_of found in
      let score = if ltb raw two_63 then raw - defensive_context_discount scan_text else raw in
      let strict_hit = reaches e.cfg.strict_threshold (strict_score_of found) in
      record (first_verdict text e.cfg) {
        action = action_of (mode_of e.cfg.mode) score e.cfg.threshold strict_hit;
        score = score;
        raw_score = raw;
        strict_hit = strict_hit;
        matched = sort_matches found;
      }

  -- Engine.InspectText
  unfoldable pub engine_inspect_text : Engine → Text → Verdict
  unfolding limit_scan_text normalize_for_scan first_verdict judge trim_space text_eq runes_from
  engine_inspect_text e text =
      let scan_text = normalize_for_scan (limit_scan_text text e.cfg.max_text_length) in
      if not e.cfg.enabled || is "" (trim_space text)
      then first_verdict text e.cfg
      else if ltb (rune_count scan_text) 3
      then first_verdict text e.cfg
      else judge e text scan_text

  -- A pattern that does not compile leaves the text unchecked.
  unfoldable pub inspect_text : Text → Config → Verdict
  unfolding normalize_config first_verdict new_engine engine_inspect_text trim_space text_eq
  inspect_text text cfg =
      let c = normalize_config cfg in
      if not c.enabled || is "" (trim_space text)
      then first_verdict text c
      else elim (new_engine c) [ none ↦ first_verdict text c | some e ↦ engine_inspect_text e text ]
