-- ===== src/Security/PromptFilter/Scan.antt =====
-- security/promptfilter/filter.go: the text that is scanned. Runes are counted as in UTF-8; letters,
-- spaces and control characters are those of ASCII.
use qoder2api.Prelude.{
  ℕ, zero, suc, ◌-◌, ◌*◌, ◌/◌, Bool, true, false, not, ◌&&◌, ◌||◌, List, [], ◌∷◌, ◌++◌,
  if◌then◌else◌, leb, ltb, ◌==◌, length, map,
}
use qoder2api.Prelude.Text.{Text, codes, lower, is_space, has_prefix, trim_space}
use qoder2api.Security.PromptFilter.Config.{default_max_text_length}

-- text[:n] and text[n:]
unfoldable pub prefix : ℕ → Text → Text
prefix zero s = []
prefix (suc n) [] = []
prefix (suc n) (c ∷ s) = c ∷ prefix n s

unfoldable pub behind : ℕ → Text → Text
behind zero s = s
behind (suc n) [] = []
behind (suc n) (c ∷ s) = behind n s

-- The numbers of bytes at the head and at the tail.
unfoldable pub parts_of : ℕ → ℕ → ℕ × ℕ
parts_of max_len len =
    let small = ltb max_len (80 * 1024) in
    let head1 = if small then max_len * 4 / 5 else 64 * 1024 in
    let tail1 = if small then max_len - head1 else 16 * 1024 in
    let head = if ltb len head1 then len else head1 in
    (head, if ltb (len - head) tail1 then len - head else tail1)

unfoldable pub limit_scan_text : Text → ℕ → Text
unfolding parts_of prefix behind
limit_scan_text text n =
    let max_len = if n == 0 then default_max_text_length else n in
    let (head, tail) = parts_of max_len (length text) in
    if leb (length text) max_len
    then text
    else prefix head text ++ (b'\n' ∷ behind (length text - tail) text)

-- strings.ReplaceAll(text, "```", " "), with the number of bytes of a fence that are still to skip.
unfoldable pub unfence : ℕ → Text → Text
unfolding has_prefix
unfence k [] = []
unfence (suc k) (c ∷ s) = unfence k s
unfence zero (c ∷ s) =
    let fence = unfence 2 s in
    let other = unfence 0 s in if has_prefix (c ∷ s) (codes "```") then 32 ∷ fence else c ∷ other

-- The function that strings.Map applies.
unfoldable pub clean : ℕ → ℕ
unfolding lower
clean c = if (ltb c 32 || c == 127) && not (c == 10 || (c == 13 || c == 9)) then 32 else lower c

-- strings.Join(strings.Fields(s), " "): `pending` says that a space is due before the next field.
unfoldable pub joined : Bool → Bool → Text → Text
unfolding is_space
joined started pending [] = []
joined started pending (c ∷ s) =
    let gap = joined started true s in
    let text = joined true false s in
    if is_space c then gap else if started && pending then 32 ∷ c ∷ text else c ∷ text

unfoldable pub normalize_for_scan : Text → Text
unfolding unfence clean joined
normalize_for_scan text = joined false false (map clean (unfence 0 text))

-- Whether the text begins with a byte of the range.
unfoldable pub begins_in : ℕ → ℕ → Text → Bool
begins_in low high [] = false
begins_in low high (c ∷ s) = leb low c && leb c high

-- The number of bytes of the rune that begins with `c`, before `s`: 1 for a byte that begins no rune
-- in UTF-8.
unfoldable pub rune_width : ℕ → Text → ℕ
unfolding begins_in behind
rune_width c s =
    let three = begins_in (if c == 224 then 160 else 128) (if c == 237 then 159 else 191) s in
    let four = begins_in (if c == 240 then 144 else 128) (if c == 244 then 143 else 191) s in
    let next = begins_in 128 191 (behind 1 s) in
    if ltb c 194
    then 1
    else if ltb c 224
    then (if begins_in 128 191 s then 2 else 1)
    else if ltb c 240
    then (if three && next then 3 else 1)
    else if ltb c 245
    then (if four && (next && begins_in 128 191 (behind 2 s)) then 4 else 1)
    else 1

-- utf8.RuneCountInString, with the number of bytes of a rune that are still to skip.
unfoldable pub runes_from : ℕ → Text → ℕ
unfolding rune_width
runes_from k [] = 0
runes_from (suc k) (c ∷ s) = runes_from k s
runes_from zero (c ∷ s) = suc (runes_from (rune_width c s - 1) s)

abbrev pub rune_count : Text → ℕ
rune_count s = runes_from 0 s

-- string([]rune(text)[:n]): a byte that begins no rune becomes U+FFFD.
unfoldable pub first_runes : ℕ → ℕ → Text → Text
unfolding rune_width
first_runes n k [] = []
first_runes n (suc k) (c ∷ s) = c ∷ first_runes n k s
first_runes zero zero (c ∷ s) = []
first_runes (suc n) zero (c ∷ s) =
    let width = rune_width c s in
    let rest = first_runes n (width - 1) s in
    if leb 128 c && width == 1 then 239 ∷ 191 ∷ 189 ∷ rest else c ∷ rest

unfoldable pub preview : Text → ℕ → Text
unfolding joined trim_space runes_from first_runes
preview text max_runes =
    let t = joined false false (trim_space text) in
    if max_runes == 0
    then []
    else if leb (rune_count t) max_runes
    then t
    else first_runes max_runes 0 t ++ codes "..."

-- strings.Split(raw, "\n")
unfoldable pub lines : Text → List Text
lines [] = [] ∷ []
lines (c ∷ s) =
    let rest = lines s in
    if c == 10 then [] ∷ rest else elim rest [ [] ↦ (c ∷ []) ∷ [] | l ∷ ls ↦ (c ∷ l) ∷ ls ]
