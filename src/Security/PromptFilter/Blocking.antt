-- ===== src/Security/PromptFilter/Blocking.antt =====
-- What the engine does about a sensitive word, and about a pattern that does not compile.
use qoder2api.Prelude.{
  ℕ, ◌+◌, ◌<◌, ◌≤◌, ◌≡◌, refl, subst, sym, arith, true, false, not, ◌&&◌, List, [], ◌∷◌, ◌++◌, none,
  some, if◌then◌else◌, find, find-store, find_nil, find_cons, inl, inr, ◌⊎◌, Bool-cases,
}
use qoder2api.Prelude.Text.{trim_space, Text, codes, is, text_eq, text_key, text_eq_refl, contains}
use qoder2api.Security.PromptFilter.Config.{block, PatternConfig, Config, mode_of, normalize_config}
use qoder2api.Security.PromptFilter.Scan.{limit_scan_text, normalize_for_scan, rune_count}
use qoder2api.Security.PromptFilter.Engine.{
  engine_inspect_text, Regexps, Match, Matches, allow, blocked, sensitive_match, match_of,
  add_match, match_words, match_patterns, strict_score_of, found_in, action_of, judge, Engine,
  inspect_text, new_engine, first_verdict, compile_patterns, is_skipped, trimmed,
  disabled_pattern_set, two_63, reaches,
}

abbrev pub word_name : Text → Text
word_name word = codes "sensitive_word:" ++ word

-- The matches hold a strict one of weight 100 under the name.
abbrev HasStrong : Text → Matches → Type 0
HasStrong k found = (m : Match) × (find k found ≡ some m) × (m.weight ≡ 100) × (m.is_strict ≡ true)

HasStrong-word :
    (k w : Text) (found : Matches)
    → HasStrong k found
    → HasStrong k (add_match (sensitive_match w) found)
HasStrong-word k w found (m, e, a, b) = elim (Bool-cases (text_eq (word_name w) k)) [
  | inl same ↦ (
    sensitive_match w,
    ground (arith, same, find-store (word_name w) k (sensitive_match w) found),
    refl,
    refl,
  )
  | inr other ↦
      (m, ground (arith, other, e, find-store (word_name w) k (sensitive_match w) found), a, b)
]

abbrev when_found : Text → Text → Matches → Matches
when_found text w found =
    if not (is "" w) && contains text w then add_match (sensitive_match w) found else found

HasStrong-when_found :
    (k text w : Text) (found : Matches) → HasStrong k found → HasStrong k (when_found text w found)
HasStrong-when_found k text w found h = elim (Bool-cases (not (is "" w) && contains text w)) [
  | inl on ↦ rw on (HasStrong-word k w found h)
  | inr off ↦ rw off h
]

HasStrong-match_words :
    (k text : Text) (words : List Text) (found : Matches)
    → HasStrong k found
    → HasStrong k (match_words text words found)
unfolding match_words
HasStrong-match_words k text [] found h = h
HasStrong-match_words k text (w ∷ words) found h =
    HasStrong-match_words k text words _ (HasStrong-when_found k text w found h)

added : (w : Text) (found : Matches) → HasStrong (word_name w) (add_match (sensitive_match w) found)
added w found = (
  sensitive_match w,
  ground (
    arith,
    find-store (word_name w) (word_name w) (sensitive_match w) found,
    text_eq_refl (word_name w),
  ),
  refl,
  refl,
)

HasStrong-found :
    (text w : Text) (found : Matches)
    → is "" w ≡ false
    → contains text w ≡ true
    → HasStrong (word_name w) (when_found text w found)
HasStrong-found text w found full here = elim (Bool-cases (not (is "" w) && contains text w)) [
  | inl on ↦ rw on (added w found)
  | inr off ↦ absurd (ground arith)
]

abbrev pub IsWord : Text → List Text → Type 0
IsWord word [] = ⊥
IsWord word (w ∷ words) = (word ≡ w) ⊎ IsWord word words

match_words-HasStrong :
    (text word : Text) (words : List Text) (found : Matches)
    → IsWord word words
    → is "" word ≡ false
    → contains text word ≡ true
    → HasStrong (word_name word) (match_words text words found)
unfolding match_words
match_words-HasStrong text word [] found at full here = absurd at
match_words-HasStrong text word (w ∷ words) found (inl e) full here =
    HasStrong-match_words (word_name word) text words _ (
      subst (λ v. HasStrong (word_name word) (when_found text v found)) e
        (HasStrong-found text word found full here))
match_words-HasStrong text word (w ∷ words) found (inr at) full here =
    match_words-HasStrong text word words _ at full here

-- The sum of the weights of the matches, of any size.
unfoldable pub weight_sum : Matches → ℕ
weight_sum [] = 0
weight_sum ((k, m) ∷ found) = m.weight + weight_sum found

strict_score_of_le :
    (found : Matches) → weight_sum found < two_63 → strict_score_of found ≤ weight_sum found
unfolding strict_score_of weight_sum
strict_score_of_le [] small = omega arith
strict_score_of_le ((k, m) ∷ found) small =
    ground (arith, strict_score_of_le found (omega (arith, small)))

strict_score-HasStrong :
    (k : Text) (found : Matches)
    → HasStrong k found
    → weight_sum found < two_63
    → 100 ≤ strict_score_of found
unfolding strict_score_of weight_sum
strict_score-HasStrong k [] (m, e, a, b) small = absurd (ground (arith, e, find_nil {V = Match} k))
strict_score-HasStrong k ((j, n) ∷ found) (m, e, a, b) small =
    let c = find_cons k j n found in
    let most = strict_score_of_le found (omega (arith, small)) in
    elim (Bool-cases (text_eq j k)) [
      | inl here ↦ ground (arith, here, c, e, most, small)
      | inr other ↦
          let least =
            strict_score-HasStrong k found (m, ground (arith, other, c, e), a, b)
              (omega (arith, small)) in
          ground (arith, least, most, small)
    ]

module _ (x : Regexps) where
  -- No pattern of the list has the name.
  abbrev pub Unnamed : Text → List (PatternConfig × x.Regex) → Type 0
  Unnamed k [] = Unit
  Unnamed k ((p, re) ∷ ps) = (text_eq p.name k ≡ false) × Unnamed k ps

  HasStrong-match_patterns :
      (k text : Text) (ps : List (PatternConfig × x.Regex)) (found : Matches)
      → Unnamed k ps
      → HasStrong k found
      → HasStrong k (match_patterns x text ps found)
  unfolding match_patterns
  HasStrong-match_patterns k text [] found u h = h
  HasStrong-match_patterns k text ((p, re) ∷ ps) found (v, u) (m, e, a, b) =
      HasStrong-match_patterns k text ps _ u
        (m, ground (arith, v, e, find-store p.name k (match_of p) found), a, b)

  judge-blocked :
      (e : Engine x) (text scan_text word : Text)
      → mode_of e.cfg.mode ≡ block
      → e.cfg.strict_threshold ≤ 100
      → IsWord word e.sensitive_words
      → is "" word ≡ false
      → contains scan_text word ≡ true
      → Unnamed (word_name word) e.patterns
      → weight_sum (found_in x e scan_text) < two_63
      → (judge x e text scan_text).action ≡ blocked
  unfolding judge found_in action_of reaches
  judge-blocked e text scan_text word m low at full here u small =
      let strong =
        HasStrong-match_patterns (word_name word) scan_text e.patterns
          (match_words scan_text e.sensitive_words []) u
          (match_words-HasStrong scan_text word e.sensitive_words [] at full here) in
      ground (
        arith,
        m,
        strict_score-HasStrong (word_name word) (found_in x e scan_text) strong small,
        strict_score_of_le (found_in x e scan_text) small,
      )

  -- In block mode, with a strict threshold of at most 100, an enabled engine blocks a text that is not
  -- blank and whose scanned part, normalized, has at least three runes and contains one of the sensitive
  -- words, however defensive it looks, unless a pattern has the name under which the word is reported
  -- or the weights of all that matches sum up to 2^63 or more.
  pub engine_inspect_text-blocked :
      (e : Engine x) (text word : Text)
      → let scan_text = normalize_for_scan (limit_scan_text text e.cfg.max_text_length) in
        e.cfg.enabled ≡ true
        → mode_of e.cfg.mode ≡ block
        → e.cfg.strict_threshold ≤ 100
        → is "" (trim_space text) ≡ false
        → 3 ≤ rune_count scan_text
        → IsWord word e.sensitive_words
        → is "" word ≡ false
        → contains scan_text word ≡ true
        → Unnamed (word_name word) e.patterns
        → weight_sum (found_in x e scan_text) < two_63
        → (engine_inspect_text x e text).action ≡ blocked
  unfolding engine_inspect_text
  engine_inspect_text-blocked e text word on m low filled long at full here u small =
      let scan_text = normalize_for_scan (limit_scan_text text e.cfg.max_text_length) in
      let done = judge-blocked e text scan_text word m low at full here u small in
      ground (arith, on, filled, long, done)

  abbrev pub IsPattern : PatternConfig → List PatternConfig → Type 0
  IsPattern p [] = ⊥
  IsPattern p (q ∷ ps) = (p ≡ q) ⊎ IsPattern p ps

  compile_patterns_bad :
      (disabled : List Text) (p : PatternConfig) (ps : List PatternConfig)
      → IsPattern p ps
      → is_skipped disabled (trimmed p) ≡ false
      → x.compile (trimmed p).pattern ≡ none
      → compile_patterns x disabled ps ≡ none
  unfolding compile_patterns
  compile_patterns_bad disabled p [] at on bad = absurd at
  compile_patterns_bad disabled p (q ∷ ps) (inl e) on bad = rw (sym e, on, bad) refl
  compile_patterns_bad disabled p (q ∷ ps) (inr at) on bad =
      let rest = compile_patterns_bad disabled p ps at on bad in ground (arith, rest)

  -- One pattern that is in use and does not compile switches the filter off: no text is warned of or
  -- blocked, none gets a score and nothing matches.
  pub inspect_text-uncompiled :
      (cfg : Config) (p : PatternConfig) (text : Text)
      → let c = normalize_config (normalize_config cfg) in
        IsPattern p (x.default_pattern_configs ++ c.custom_patterns)
        → is_skipped (disabled_pattern_set c.disabled_patterns) (trimmed p) ≡ false
        → x.compile (trimmed p).pattern ≡ none
        → let v = inspect_text x text cfg in (v.action ≡ allow) × (v.score ≡ 0) × (v.matched ≡ [])
  unfolding inspect_text new_engine first_verdict
  inspect_text-uncompiled cfg p text at on bad =
      let c = normalize_config (normalize_config cfg) in
      let none' =
        compile_patterns_bad (disabled_pattern_set c.disabled_patterns) p
          (x.default_pattern_configs ++ c.custom_patterns) at on bad in
      (ground (arith, none'), ground (arith, none'), ground (arith, none'))
