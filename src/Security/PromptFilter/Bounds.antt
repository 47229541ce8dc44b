-- ===== src/Security/PromptFilter/Bounds.antt =====
-- The bounds of a configuration, and of the text that is scanned.
use qoder2api.Prelude.{
  ℕ, zero, suc, ◌+◌, ◌-◌, ◌*◌, ◌≤◌, ◌<◌, ◌≡◌, arith, [], ◌∷◌, ◌++◌, ◌⊎◌, inl, inr, if◌then◌else◌,
  length, length-append, ◌==◌,
}
use qoder2api.Prelude.Text.{Text}
use qoder2api.Security.PromptFilter.Config.{Config, normalize_config, default_max_text_length}
use qoder2api.Security.PromptFilter.Scan.{limit_scan_text, parts_of, prefix, behind}

-- The numbers of a normal configuration: no threshold is 0, the strict one is not below the other, and
-- a text of some length is scanned.
pub record InRange (c : Config) : Type 0 where
  pub some_threshold : 1 ≤ c.threshold
  pub most_threshold : c.threshold ≤ 500
  pub strict_above : c.threshold ≤ c.strict_threshold
  pub most_strict : c.strict_threshold ≤ 1000
  pub some_text : 1 ≤ c.max_text_length
  pub most_text : c.max_text_length ≤ 1024 * 1024

normalize_config-InRange : (c : Config) → InRange (normalize_config c)
unfolding normalize_config
normalize_config-InRange c = record {
  some_threshold = ground arith;
  most_threshold = ground arith;
  strict_above = ground arith;
  most_strict = ground arith;
  some_text = ground arith;
  most_text = ground arith;
}

normalize_config_fixed :
    (c : Config)
    → InRange c
    → ((normalize_config c).threshold ≡ c.threshold)
      × ((normalize_config c).strict_threshold ≡ c.strict_threshold)
      × ((normalize_config c).max_text_length ≡ c.max_text_length)
unfolding normalize_config
normalize_config_fixed c r = (
  ground (arith, r.some_threshold, r.most_threshold),
  ground (arith, r.some_threshold, r.most_threshold, r.strict_above, r.most_strict),
  ground (arith, r.some_text, r.most_text),
)

-- Every configuration is brought into range, and bringing it there once more changes none of its
-- numbers.
pub normalize_config_idem :
    (c : Config)
    → let d = normalize_config c in
      InRange d
      × ((normalize_config d).threshold ≡ d.threshold)
      × ((normalize_config d).strict_threshold ≡ d.strict_threshold)
      × ((normalize_config d).max_text_length ≡ d.max_text_length)
normalize_config_idem c =
    let r = normalize_config-InRange c in
    let (a, b, e) = normalize_config_fixed (normalize_config c) r in (r, a, b, e)

length-prefix : (n : ℕ) (s : Text) → length (prefix n s) ≤ n
unfolding prefix
length-prefix zero s = omega arith
length-prefix (suc n) [] = omega arith
length-prefix (suc n) (c ∷ s) = omega (arith, length-prefix n s)

length-behind : (n : ℕ) (s : Text) → length (behind n s) ≡ length s - n
unfolding behind
length-behind zero s = omega arith
length-behind (suc n) [] = omega arith
length-behind (suc n) (c ∷ s) = omega (arith, length-behind n s)

parts_of-most :
    (max_len len : ℕ)
    → max_len < len
    → let (head, tail) = parts_of max_len len in (head + tail ≤ max_len) × (tail ≤ len)
unfolding parts_of
parts_of-most max_len len h = ground arith

limit_scan_text-cases :
    (text : Text) (n : ℕ)
    → let max_len = if n == 0 then default_max_text_length else n in
      let (head, tail) = parts_of max_len (length text) in
      (limit_scan_text text n ≡ text)
      ⊎ ((max_len < length text)
          × (limit_scan_text text n
              ≡ prefix head text ++ (b'\n' ∷ behind (length text - tail) text)))
unfolding limit_scan_text
limit_scan_text-cases text n = ground arith

-- A text is scanned as it is, or it is longer than the limit, the default one if the limit is 0: what
-- is scanned is then at most one byte, the line break between its parts, longer than the limit.
pub length-limit_scan_text :
    (text : Text) (n : ℕ)
    → let max_len = if n == 0 then default_max_text_length else n in
      (limit_scan_text text n ≡ text)
      ⊎ ((max_len < length text) × (length (limit_scan_text text n) ≤ max_len + 1))
length-limit_scan_text text n =
    let max_len = if n == 0 then default_max_text_length else n in
    let head = (parts_of max_len (length text)).0 in
    let tail = (parts_of max_len (length text)).1 in
    elim (limit_scan_text-cases text n) [
      | inl same ↦ inl same
      | inr (long, e) ↦ inr (
        long,
        rw e (
            let (most, fits) = parts_of-most max_len (length text) long in
            omega (
              arith,
              most,
              fits,
              length-append (prefix head text) (b'\n' ∷ behind (length text - tail) text),
              length-prefix head text,
              length-behind (length text - tail) text,
            )),
      )
    ]
