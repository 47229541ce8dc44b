-- ===== src/Proxy/ModelMapping/Wildcards.antt =====
-- `wildcardModelPatternMatch`: looking for each part from left to right decides the match.
use qoder2api.Prelude.{
  ◌≡◌, ◌↔◌, sym, ap, ◌∙◌, subst, arith, true, false, List, [], ◌∷◌, ◌++◌, some, inl, inr, ◌⊎◌,
  length, length-append, Bool-cases, Option-cases,
}
use qoder2api.Prelude.Text.{Text, is, text_eq_iff, trim_space, to_lower, after_prefix}
use qoder2api.Proxy.ModelMapping.{
  after_index, has_suffix, match_parts, last_part, match_split, match_pattern, split_stars,
  wildcard_model_pattern_match,
}
use qoder2api.Proxy.ModelMapping.Globs.{
  Fits, ++_assoc, ++_nil, after_prefix-++, after_prefix-some, Fits-more, after_index-some,
  after_index-longest, has_suffix-++, has_suffix-end,
}

abbrev EndsAs : Text → Text → Type 0
EndsAs model end = (is "" end ≡ true) ⊎ (has_suffix model end ≡ true)

empty_part : (p : Text) → is "" p ≡ true → p ≡ []
empty_part p h = ground (arith, h, text_eq_iff p [])

Fits-last :
    (p : Text) (pre s u model : Text)
    → model ≡ pre ++ s
    → match_parts (p ∷ []) s ≡ some u
    → EndsAs model p
    → Fits (p ∷ []) s
unfolding match_parts
Fits-last p pre s u model e h end = elim (Bool-cases (is "" p)) [
  | inl gone ↦ (s, sym (++_nil s) ∙ ap (λ x. s ++ x) (sym (empty_part p gone)))
  | inr part ↦ elim (Option-cases (after_index p s)) [
    | inl miss ↦ absurd (ground (arith, part, miss, h))
    | inr (r, hit) ↦
        let (w, f) = after_index-some p s r hit in
        has_suffix-end pre s p
          (ground
            (arith, ap (λ (x : Text). length x) f, length-append w (p ++ r), length-append p r))
          (subst (λ x. has_suffix x p ≡ true) e (ground (arith, part, end)))
  ]
]

match_parts-Fits :
    (p : Text) (ps : List Text) (pre s u model : Text)
    → model ≡ pre ++ s
    → match_parts (p ∷ ps) s ≡ some u
    → EndsAs model (last_part p ps)
    → Fits (p ∷ ps) s
unfolding match_parts
match_parts-Fits p [] pre s u model e h end = Fits-last p pre s u model e h end
match_parts-Fits p (q ∷ ps) pre s u model e h end = elim (Bool-cases (is "" p)) [
  | inl gone ↦
      let f = match_parts-Fits q ps pre s u model e (ground (arith, h, gone)) end in
      ([], s, ap (λ x. x ++ s) (sym (empty_part p gone)), f)
  | inr part ↦ elim (Option-cases (after_index p s)) [
    | inl miss ↦ absurd (ground (arith, part, miss, h))
    | inr (r, hit) ↦
        let (w, f) = after_index-some p s r hit in
        let e' =
          e ∙ (ap (λ x. pre ++ x) (f ∙ sym (++_assoc w p r)) ∙ sym (++_assoc pre (w ++ p) r)) in
        (
          w,
          r,
          f,
          match_parts-Fits q ps (pre ++ (w ++ p)) r u model e' (ground (arith, h, part, hit)) end,
        )
  ]
]

Fits-match_parts :
    (p : Text) (ps : List Text) (s : Text)
    → Fits (p ∷ ps) s
    → (u : Text) × (match_parts (p ∷ ps) s ≡ some u)
unfolding match_parts
Fits-match_parts p [] s (w, e) = elim (Bool-cases (is "" p)) [
  | inl gone ↦ (s, ground (arith, gone))
  | inr part ↦
      let (u, found, longer) = after_index-longest p w [] in
      let same = subst (λ y. after_index p (w ++ y) ≡ some u) (++_nil p) found in
      (u, ground (arith, part, subst (λ y. after_index p y ≡ some u) (sym e) same))
]
Fits-match_parts p (q ∷ ps) s (w, t, e, f) = elim (Bool-cases (is "" p)) [
  | inl gone ↦
      let here = e ∙ ap (λ x. w ++ (x ++ t)) (empty_part p gone) in
      let (u, h) =
        Fits-match_parts q ps s
          (subst (λ y. Fits (q ∷ ps) y) (sym here) (Fits-more (q ∷ ps) w t f)) in
      (u, ground (arith, gone, h))
  | inr part ↦
      let (r, found, (x, longer)) = after_index-longest p w t in
      let (u, h) =
        Fits-match_parts q ps r
          (subst (λ y. Fits (q ∷ ps) y) (sym longer) (Fits-more (q ∷ ps) x t f)) in
      (u, ground (arith, part, subst (λ y. after_index p y ≡ some r) (sym e) found, h))
]

Fits-last_part :
    (p : Text) (ps : List Text) (s : Text)
    → Fits (p ∷ ps) s
    → (v : Text) × (s ≡ v ++ last_part p ps)
Fits-last_part p [] s f = f
Fits-last_part p (q ∷ ps) s (w, t, e, f) =
    let (v, g) = Fits-last_part q ps t f in
    (
      (w ++ p) ++ v,
      e
          ∙ (sym (++_assoc w p t)
              ∙ (ap (λ x. (w ++ p) ++ x) g ∙ sym (++_assoc (w ++ p) v (last_part q ps)))),
    )

-- What a pattern describes: its own text if it has no star, and otherwise its first part, then a text
-- that the other parts fit.
abbrev pub Described : Text → List Text → Text → Text → Type 0
Described first [] p m = p ≡ m
Described first (q ∷ ps) p m = (s : Text) × (m ≡ first ++ s) × Fits (q ∷ ps) s

match_split_sound :
    (first q : Text) (ps : List Text) (p m : Text)
    → match_split first (q ∷ ps) m ≡ true
    → Described first (q ∷ ps) p m
unfolding match_split
match_split_sound first q ps p m h = elim (Option-cases (after_prefix m first)) [
  | inl miss ↦ absurd (ground (arith, h, miss))
  | inr (s, hit) ↦ elim (Option-cases (match_parts (q ∷ ps) s)) [
    | inl miss ↦ absurd (ground (arith, h, hit, miss))
    | inr (u, found) ↦
        let e = after_prefix-some m first s hit in
        (s, e, match_parts-Fits q ps first s u m e found (ground (arith, h, hit, found)))
  ]
]

match_split_complete :
    (first q : Text) (ps : List Text) (p m : Text)
    → Described first (q ∷ ps) p m
    → match_split first (q ∷ ps) m ≡ true
unfolding match_split
match_split_complete first q ps p m (s, e, f) =
    let (u, found) = Fits-match_parts q ps s f in
    let (v, g) = Fits-last_part q ps s f in
    let end = last_part q ps in
    let here = subst (λ x. after_prefix x first ≡ some s) (sym e) (after_prefix-++ first s) in
    let whole = e ∙ (ap (λ x. first ++ x) g ∙ sym (++_assoc first v end)) in
    let suffix =
      subst (λ x. has_suffix x end ≡ true) (sym whole) (has_suffix-++ (first ++ v) end) in
    ground (arith, here, found, suffix)

match_pattern_iff :
    (first : Text) (others : List Text) (p m : Text)
    → (match_pattern first others p m ≡ true) ↔ Described first others p m
unfolding match_pattern
match_pattern_iff first [] p m = text_eq_iff p m
match_pattern_iff first (q ∷ ps) p m =
    (match_split_sound first q ps p m, match_split_complete first q ps p m)

-- A pattern that is not blank matches a model's name exactly if the name is what it describes, both
-- without the space around them and in lower case: the first part at the start, the last part at the
-- end, the others in their order in between, where a star stands for any text.
pub wildcard_model_pattern_match_iff :
    (pattern model : Text)
    → let p = to_lower (trim_space pattern) in
      let m = to_lower (trim_space model) in
      is "" p ≡ false
      → (wildcard_model_pattern_match pattern model ≡ true)
        ↔ Described (split_stars p).0 (split_stars p).1 p m
unfolding wildcard_model_pattern_match
wildcard_model_pattern_match_iff pattern model named =
    let p = to_lower (trim_space pattern) in
    let m = to_lower (trim_space model) in
    rw named (match_pattern_iff (split_stars p).0 (split_stars p).1 p m)
