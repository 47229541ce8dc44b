-- ===== src/Auth/Store/Selection/Argmax.antt =====
-- The slow path takes the best account.
use qoder2api.Prelude.{
  ℕ, ◌≡◌, refl, arith, Bool, false, ◌&&◌, ◌||◌, List, [], ◌∷◌, Option, none, some, if◌then◌else◌,
  ◌==◌, ==_iff, inl, inr, Bool-cases, ◌⊎◌, All, subst, sym, ap, ◌∙◌,
}
use qoder2api.Auth.Account.{Account}
use qoder2api.Auth.Recompute.{recompute_scheduler}
use qoder2api.Auth.FastScheduler.{Heap, write, score_eq}
use qoder2api.Auth.FastScheduler.Scan.{Request}
use qoder2api.Auth.Store.{Store}
use qoder2api.Auth.Store.Selection.{Best, is_admitted, candidate, above, pick, keep_best, scan}

-- What the account is to the loop, before the loop: a candidate, or passed over.
abbrev pub ranked_as : ℕ → Request → Store → ℕ → Account → Option Best
ranked_as now r s id a =
    if is_admitted now r id a s
    then candidate id (recompute_scheduler s.max_concurrency now a)
    else none

abbrev pub ranked : ℕ → Request → Store → Heap → ℕ → Option Best
ranked now r s h id = ranked_as now r s id (h id)

abbrev pub Absent : ℕ → List ℕ → Type 0
Absent id [] = Unit
Absent id (j ∷ ids) = ((j == id) ≡ false) × Absent id ids

abbrev pub AreDistinct : List ℕ → Type 0
AreDistinct [] = Unit
AreDistinct (id ∷ ids) = Absent id ids × AreDistinct ids

-- Nothing that is given is strictly better than what is kept.
abbrev pub NotAbove : Option Best → Option Best → Type 0
NotAbove none best = Unit
NotAbove (some b) none = ⊥
NotAbove (some b) (some best) = above b best ≡ false

pick-cases :
    (coin : Bool) (b : Best) (best : Option Best)
    → (pick coin b best ≡ some b) ⊎ (pick coin b best ≡ best)
unfolding pick
pick-cases coin b none = inl refl
pick-cases coin b (some best) = ground arith

above_irrefl : (b : Best) → above b b ≡ false
unfolding above
above_irrefl b = ground arith

above_trans : (a b c : Best) → above a b ≡ false → above b c ≡ false → above a c ≡ false
unfolding above score_eq
above_trans a b c x y = ground arith

pick-some :
    (coin : Bool) (b best : Best)
    → (c : Best) × (pick coin b (some best) ≡ some c) × (above b c ≡ false) × (above best c ≡ false)
unfolding pick above score_eq
pick-some coin b best =
    elim (Bool-cases (
      above b best
      || (b.priority == best.priority
          && (score_eq b.score best.score && (b.load == best.load && coin))))) [
            | inl new ↦ (b, ground (arith, new), above_irrefl b, ground (arith, new))
            | inr old ↦ (best, ground (arith, old), ground (arith, old), above_irrefl best)
          ]

NotAbove-trans : (x y z : Option Best) → NotAbove x y → NotAbove y z → NotAbove x z
NotAbove-trans none y z p q = tt
NotAbove-trans (some a) none z p q = absurd p
NotAbove-trans (some a) (some b) none p q = absurd q
NotAbove-trans (some a) (some b) (some c) p q = above_trans a b c p q

keep_best-NotAbove :
    (coin : Bool) (new best : Option Best)
    → NotAbove new (keep_best coin new best) × NotAbove best (keep_best coin new best)
unfolding pick
keep_best-NotAbove coin none none = (tt, tt)
keep_best-NotAbove coin none (some b) = (tt, above_irrefl b)
keep_best-NotAbove coin (some b) none = (above_irrefl b, tt)
keep_best-NotAbove coin (some b) (some best) =
    let (c, e, x, y) = pick-some coin b best in
    (subst (NotAbove (some b)) (sym e) x, subst (NotAbove (some best)) (sym e) y)

-- The accounts that are still to come are as they were.
abbrev Same : Heap → Heap → List ℕ → Type 0
Same h h0 ids = All (λ id. h id ≡ h0 id) ids

Same-write :
    (h h0 : Heap) (id : ℕ) (a : Account) (ids : List ℕ)
    → Absent id ids
    → Same h h0 ids
    → Same (write h id a) h0 ids
Same-write h h0 id a [] p q = tt
Same-write h h0 id a (j ∷ ids) (p, ps) (q, qs) =
    (ground (arith, p, q, ==_iff j id, ==_iff id j), Same-write h h0 id a ids ps qs)

-- What the loop does with one account.
scan-step :
    (now : ℕ) (r : Request) (coin : ℕ → Bool) (s : Store) (id : ℕ) (ids : List ℕ) (h : Heap)
    (best : Option Best)
    → (h' : Heap) × ((h' ≡ h) ⊎ ((a : Account) × (h' ≡ write h id a)))
      × ((scan now r coin s (id ∷ ids) h best).0
          ≡ (scan now r coin s ids h' (keep_best (coin id) (ranked now r s h id) best)).0)
unfolding scan is_admitted candidate pick
scan-step now r coin s id ids h best = elim (Bool-cases (is_admitted now r id (h id) s)) [
  | inl on ↦ (
    write h id (recompute_scheduler s.max_concurrency now (h id)),
    inr (recompute_scheduler s.max_concurrency now (h id), refl),
    ground (arith, on),
  )
  | inr off ↦ (h, inl refl, ground (arith, off))
]

still :
    (h h0 h' : Heap) (id : ℕ) (ids : List ℕ)
    → Absent id ids
    → Same h h0 ids
    → (h' ≡ h) ⊎ ((a : Account) × (h' ≡ write h id a))
    → Same h' h0 ids
still h h0 h' id ids p q (inl e) = subst (λ k. Same k h0 ids) (sym e) q
still h h0 h' id ids p q (inr (a, e)) =
    subst (λ k. Same k h0 ids) (sym e) (Same-write h h0 id a ids p q)

scan-NotAbove_from :
    (now : ℕ) (r : Request) (coin : ℕ → Bool) (s : Store) (ids : List ℕ) (h h0 : Heap)
    (best : Option Best)
    → AreDistinct ids
    → Same h h0 ids
    → NotAbove best (scan now r coin s ids h best).0
      × All (λ id. NotAbove (ranked now r s h0 id) (scan now r coin s ids h best).0) ids
unfolding scan
scan-NotAbove_from now r coin s [] h h0 none d q = (tt, tt)
scan-NotAbove_from now r coin s [] h h0 (some b) d q = (above_irrefl b, tt)
scan-NotAbove_from now r coin s (id ∷ ids) h h0 best (p, d) (q, qs) =
    let (h', change, e) = scan-step now r coin s id ids h best in
    let kept = keep_best (coin id) (ranked now r s h id) best in
    let (x, y) = keep_best-NotAbove (coin id) (ranked now r s h id) best in
    let (first, others) =
      scan-NotAbove_from now r coin s ids h' h0 kept d (still h h0 h' id ids p qs change) in
    let end = (scan now r coin s ids h' kept).0 in
    (
      subst (NotAbove best) (sym e) (NotAbove-trans best kept end y first),
      (
        subst (NotAbove _) (sym e) (
            NotAbove-trans _ kept end
              (subst (λ (a : Account). NotAbove (ranked_as now r s id a) kept) q x) first),
        subst (λ o. All (λ j. NotAbove (ranked now r s h0 j) o) ids) (sym e) others,
      ),
    )

abbrev pub In : ℕ → List ℕ → Type 0
In id [] = ⊥
In id (j ∷ ids) = (id ≡ j) ⊎ In id ids

keep_best-cases :
    (coin : Bool) (new best : Option Best)
    → (keep_best coin new best ≡ best) ⊎ (keep_best coin new best ≡ new)
unfolding pick
keep_best-cases coin none best = inl refl
keep_best-cases coin (some b) best = elim (pick-cases coin b best) [ inl e ↦ inr e | inr e ↦ inl e ]

scan-In_from :
    (now : ℕ) (r : Request) (coin : ℕ → Bool) (s : Store) (ids : List ℕ) (h h0 : Heap)
    (best : Option Best)
    → AreDistinct ids
    → Same h h0 ids
    → ((scan now r coin s ids h best).0 ≡ best)
      ⊎ ((id : ℕ) × In id ids × ((scan now r coin s ids h best).0 ≡ ranked now r s h0 id))
unfolding scan
scan-In_from now r coin s [] h h0 best d q = inl refl
scan-In_from now r coin s (id ∷ ids) h h0 best (p, d) (q, qs) =
    let (h', change, e) = scan-step now r coin s id ids h best in
    elim (scan-In_from now r coin s ids h' h0 _ d (still h h0 h' id ids p qs change)) [
      | inr (j, at, f) ↦ inr (j, inr at, e ∙ f)
      | inl f ↦ elim (keep_best-cases (coin id) (ranked now r s h id) best) [
        | inl old ↦ inl (e ∙ (f ∙ old))
        | inr new ↦ inr (id, inl refl, e ∙ (f ∙ (new ∙ ap (ranked_as now r s id) q)))
      ]
    ]

Same-refl : (h : Heap) (ids : List ℕ) → Same h h ids
Same-refl h [] = tt
Same-refl h (id ∷ ids) = (refl, Same-refl h ids)

-- The slow path's look over the accounts, whose ids are distinct, finds one of the accounts that may
-- serve the request and have a free slot, such that none of them has a better tier, or the same tier
-- and a higher score, or these the same and a lower load; it finds nothing only if there is none.
-- The coin that settles ties does not matter.
pub scan-Argmax :
    (now : ℕ) (r : Request) (coin : ℕ → Bool) (s : Store)
    → AreDistinct s.accounts
    → let best = (scan now r coin s s.accounts s.accounts_by_id none).0 in
      All (λ id. NotAbove (ranked now r s s.accounts_by_id id) best) s.accounts
      × ((best ≡ none)
          ⊎ ((id : ℕ) × In id s.accounts × (best ≡ ranked now r s s.accounts_by_id id)))
scan-Argmax now r coin s d =
    let same = Same-refl s.accounts_by_id s.accounts in
    (
      (scan-NotAbove_from now r coin s s.accounts s.accounts_by_id s.accounts_by_id none d same).1,
      scan-In_from now r coin s s.accounts s.accounts_by_id s.accounts_by_id none d same,
    )
