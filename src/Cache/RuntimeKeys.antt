-- ===== src/Cache/RuntimeKeys.antt =====
-- The keys of the runtime values: a namespace and a key in one text.
use qoder2api.Prelude.{◌≡◌, refl, arith, false, [], ◌∷◌, ◌++◌, if◌then◌else◌, ◌==◌}
use qoder2api.Prelude.Text.{Text, is, trim_space}
use qoder2api.Cache.Memory.{runtime_map_key}

-- The text before the first NUL, and the text after it.
unfoldable pub cut : Text → Text × Text
cut [] = ([], [])
cut (c ∷ s) = let (n, k) = cut s in if c == 0 then ([], s) else (c ∷ n, k)

abbrev pub NoNul : Text → Type 0
NoNul [] = Unit
NoNul (c ∷ s) = ((c == 0) ≡ false) × NoNul s

cut-++ : (n k : Text) → NoNul n → cut (n ++ (0 ∷ k)) ≡ (n, k)
unfolding cut
cut-++ [] k h = refl
cut-++ (c ∷ n) k (x, h) = ground (arith, x, cut-++ n k h)

-- The namespace and the key, both trimmed, come back from the key of the map, if neither is empty
-- and the namespace has no NUL.
pub cut-runtime_map_key :
    (namespace key : Text)
    → is "" (trim_space namespace) ≡ false
    → is "" (trim_space key) ≡ false
    → NoNul (trim_space namespace)
    → cut (runtime_map_key namespace key) ≡ (trim_space namespace, trim_space key)
unfolding runtime_map_key
cut-runtime_map_key namespace key a b h =
    ground (arith, a, b, cut-++ (trim_space namespace) (trim_space key) h)
