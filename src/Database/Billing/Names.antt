-- ===== src/Database/Billing/Names.antt =====
-- database/billing.go: the names of models, as the pricing knows them.
use qoder2api.Prelude.{ℕ, Bool, ◌||◌, [], ◌∷◌, Option, none, some, if◌then◌else◌, ◌==◌, map}
use Prim.Native.String.{String}
use qoder2api.Prelude.Text.{after_prefix, Text, codes, contains, to_lower, trim_space}

-- strings.Contains(s, "...")
unfoldable pub has : String → Text → Bool
unfolding contains
has lit s = contains s (codes lit)

-- strings.TrimLeft(s, "/")
unfoldable pub trim_left_slash : Text → Text
trim_left_slash [] = []
trim_left_slash (c ∷ s) = let rest = trim_left_slash s in if c == b'/' then rest else c ∷ s

unfoldable pub trim_prefix : String → Text → Text
unfolding after_prefix
trim_prefix lit s = elim (after_prefix s (codes lit)) [ none ↦ s | some rest ↦ rest ]

-- idx := strings.LastIndex(s, p); idx != -1: s[idx+len(p):]
unfoldable pub after_last : Text → Text → Option Text
unfolding after_prefix
after_last p [] = after_prefix [] p
after_last p (c ∷ s) = elim (after_last p s) [
  | none ↦ after_prefix (c ∷ s) p
  | some rest ↦ some rest
]

unfoldable pub normalize_billing_model_name : Text → Text
unfolding trim_left_slash trim_prefix after_last to_lower trim_space
normalize_billing_model_name model =
    let m1 = trim_left_slash (to_lower (trim_space model)) in
    let m2 = trim_prefix "publishers/google/models/" (trim_prefix "models/" m1) in
    let m3 : Text = elim (after_last (codes "/publishers/google/models/") m2) [
      | none ↦ m2
      | some rest ↦ rest
    ] in
    trim_left_slash (elim (after_last (codes "/models/") m3) [
      | some rest ↦ rest
      | none ↦ elim (after_last (codes "/") m3) [ some rest ↦ rest | none ↦ m3 ]
    ])

-- strings.NewReplacer(" ", "-", "_", "-")
unfoldable pub dashed : ℕ → ℕ
dashed c = if c == b' ' || c == b'_' then b'-' else c

unfoldable pub normalize_codex_billing_model : Text → Option Text
unfolding dashed to_lower has
normalize_codex_billing_model model =
    let compact = map dashed (to_lower model) in
    if has "gpt-5.5-pro" compact || (has "gpt5-5-pro" compact || has "gpt5.5-pro" compact)
    then some (codes "gpt-5.5-pro")
    else if has "gpt-5.5" compact || (has "gpt5-5" compact || has "gpt5.5" compact)
    then some (codes "gpt-5.5")
    else if has "gpt-5.4-mini" compact || (has "gpt5-4-mini" compact || has "gpt5.4-mini" compact)
    then some (codes "gpt-5.4-mini")
    else if has "gpt-5.4-nano" compact || (has "gpt5-4-nano" compact || has "gpt5.4-nano" compact)
    then some (codes "gpt-5.4-nano")
    else if has "gpt-5.4-pro" compact || (has "gpt5-4-pro" compact || has "gpt5.4-pro" compact)
    then some (codes "gpt-5.4-pro")
    else if has "gpt-5.4" compact || (has "gpt5-4" compact || has "gpt5.4" compact)
    then some (codes "gpt-5.4")
    else if has "gpt-5.2" compact || (has "gpt5-2" compact || has "gpt5.2" compact)
    then some (codes "gpt-5.2")
    else if has "gpt-5.3-codex-spark" compact
        || (has "gpt5-3-codex-spark" compact || has "gpt5.3-codex-spark" compact)
    then some (codes "gpt-5.3-codex-spark")
    else if has "gpt-5.3-codex" compact
        || (has "gpt5-3-codex" compact || has "gpt5.3-codex" compact)
    then some (codes "gpt-5.3-codex")
    else if has "gpt-5.3" compact || (has "gpt5-3" compact || has "gpt5.3" compact)
    then some (codes "gpt-5.3-codex")
    else if has "codex-auto-review" compact
    then some (codes "gpt-5.4")
    else if has "codex" compact
    then some (codes "gpt-5.3-codex")
    else if has "gpt-5" compact || has "gpt5" compact
    then some (codes "gpt-5.4")
    else none
