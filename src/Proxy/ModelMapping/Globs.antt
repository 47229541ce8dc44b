-- ===== src/Proxy/ModelMapping/Globs.antt =====
-- Texts that are put together of parts, and the first place of a part in a text.
use qoder2api.Prelude.{
  ◌≤◌, ◌≡◌, refl, sym, ap, ◌∙◌, arith, true, List, [], ◌∷◌, ◌++◌, some, inl, inr, length,
  length-append, Bool-cases, Option-cases, ==_iff,
}
use qoder2api.Prelude.Text.{Text, text_eq, text_eq_iff, text_eq_refl, after_prefix}
use qoder2api.Proxy.ModelMapping.{after_index, has_suffix}

-- The text has some text, then the parts in their order with any text between them, and the last part
-- is its end.
abbrev pub Fits : List Text → Text → Type 0
Fits [] s = ⊥
Fits (p ∷ []) s = (w : Text) × (s ≡ w ++ p)
Fits (p ∷ q ∷ ps) s = (w : Text) × (t : Text) × (s ≡ w ++ (p ++ t)) × Fits (q ∷ ps) t

pub ++_assoc : (a b c : Text) → (a ++ b) ++ c ≡ a ++ (b ++ c)
++_assoc [] b c = refl
++_assoc (x ∷ a) b c = ap (λ t. x ∷ t) (++_assoc a b c)

pub ++_nil : (a : Text) → a ++ [] ≡ a
++_nil [] = refl
++_nil (x ∷ a) = ap (λ t. x ∷ t) (++_nil a)

pub after_prefix-++ : (p t : Text) → after_prefix (p ++ t) p ≡ some t
unfolding after_prefix
after_prefix-++ [] t = refl
after_prefix-++ (c ∷ p) t = ground (arith, after_prefix-++ p t, ==_iff c c)

pub after_prefix-some : (s p t : Text) → after_prefix s p ≡ some t → s ≡ p ++ t
unfolding after_prefix
after_prefix-some s [] t h = ground (arith, h)
after_prefix-some [] (b ∷ p) t h = absurd (ground (arith, h))
after_prefix-some (a ∷ s) (b ∷ p) t h = ground (arith, h, ==_iff a b, after_prefix-some s p t)

pub Fits-more : (ps : List Text) (x t : Text) → Fits ps t → Fits ps (x ++ t)
Fits-more [] x t f = f
Fits-more (p ∷ []) x t (w, e) = (x ++ w, ap (λ s. x ++ s) e ∙ sym (++_assoc x w p))
Fits-more (p ∷ q ∷ ps) x t (w, u, e, f) =
    (x ++ w, u, ap (λ s. x ++ s) e ∙ sym (++_assoc x w (p ++ u)), f)

-- What is found leaves the text in front of it, the part and the text behind it.
pub after_index-some : (p s t : Text) → after_index p s ≡ some t → (w : Text) × (s ≡ w ++ (p ++ t))
unfolding after_index
after_index-some p [] t h = ([], after_prefix-some [] p t h)
after_index-some p (c ∷ s) t h = elim (Option-cases (after_prefix (c ∷ s) p)) [
  | inr (u, hit) ↦ ([], after_prefix-some (c ∷ s) p t (ground (arith, hit, h)))
  | inl miss ↦
      let (w, e) = after_index-some p s t (ground (arith, miss, h)) in (c ∷ w, ap (λ r. c ∷ r) e)
]

-- Of two ways to take a text apart, the one with the shorter head has the longer tail.
longer_tail : (p a t u : Text) → length p ≤ length a → a ++ t ≡ p ++ u → (x : Text) × (u ≡ x ++ t)
longer_tail [] a t u le e = (a, sym e)
longer_tail (c ∷ p) [] t u le e = absurd (omega arith)
longer_tail (c ∷ p) (d ∷ a) t u le e = longer_tail p a t u (omega arith) (ground (arith, e))

-- A part that is in the text is found, with no less text behind it.
pub after_index-longest :
    (p w t : Text)
    → (u : Text) × (after_index p (w ++ (p ++ t)) ≡ some u) × ((x : Text) × (u ≡ x ++ t))
unfolding after_index
after_index-longest [] [] [] = ([], ground (arith, after_prefix-++ [] []), ([], refl))
after_index-longest [] [] (c ∷ t) = (c ∷ t, ground (arith, after_prefix-++ [] (c ∷ t)), ([], refl))
after_index-longest (c ∷ p) [] t = (t, ground (arith, after_prefix-++ (c ∷ p) t), ([], refl))
after_index-longest p (c ∷ w) t = elim (Option-cases (after_prefix (c ∷ (w ++ (p ++ t))) p)) [
  | inr (u, hit) ↦ (
    u,
    ground (arith, hit),
    longer_tail p ((c ∷ w) ++ p) t u (omega (arith, length-append w p))
        (ap (λ s. c ∷ s) (++_assoc w p t) ∙ after_prefix-some _ p u hit),
  )
  | inl miss ↦
      let (u, found, longer) = after_index-longest p w t in (u, ground (arith, miss, found), longer)
]

pub has_suffix-++ : (w t : Text) → has_suffix (w ++ t) t ≡ true
unfolding has_suffix
has_suffix-++ [] [] = refl
has_suffix-++ [] (c ∷ t) = ground (arith, text_eq_refl (c ∷ t))
has_suffix-++ (c ∷ w) t = ground (arith, has_suffix-++ w t)

has_suffix-some : (s t : Text) → has_suffix s t ≡ true → (w : Text) × (s ≡ w ++ t)
unfolding has_suffix
has_suffix-some [] t h = ([], ground (arith, h, text_eq_iff [] t))
has_suffix-some (c ∷ s) t h = elim (Bool-cases (text_eq (c ∷ s) t)) [
  | inl same ↦ ([], ground (arith, same, text_eq_iff (c ∷ s) t))
  | inr other ↦
      let (w, e) = has_suffix-some s t (ground (arith, h, other)) in (c ∷ w, ap (λ r. c ∷ r) e)
]

-- A suffix that is no longer than the end of a text is a suffix of that end.
pub has_suffix-end :
    (w s t : Text) → length t ≤ length s → has_suffix (w ++ s) t ≡ true → (v : Text) × (s ≡ v ++ t)
unfolding has_suffix
has_suffix-end [] s t le h = has_suffix-some s t h
has_suffix-end (c ∷ w) s t le h = has_suffix-end w s t le (
    ground (arith, h, text_eq_iff (c ∷ (w ++ s)) t, length-append w s, ap (λ (r : Text). length r)))
