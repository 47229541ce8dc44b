-- ===== src/Proxy/Exclusions/Retries.antt =====
-- proxy/retry_exclusions.go: nextRetryAccountForSession, the loop that picks the next account from the
-- store, at once or after a wait. The handler and its store are not nil.
use qoder2api.Prelude.{
  ℕ, ◌≡◌, arith, Bool, true, false, List, [], ◌∷◌, Option, none, some, if◌then◌else◌, Option-cases,
  Bool-cases, inl, inr, subst, ◌⊎◌,
}
use qoder2api.Prelude.Text.{Text}
use qoder2api.Auth.FastScheduler.Scan.{Request}
use qoder2api.Auth.Store.{Store}
use qoder2api.Auth.Store.Cached.{Codec}
use qoder2api.Auth.Store.Affinity.{Step, next_for_session_with_filter}
use qoder2api.Auth.Store.Excluded.{IsOutsideStep, next_for_session_with_filter-outside}
use qoder2api.Auth.Store.Waits.{
  Round, wait_rounds, wait_for_session_available_with_filter, has_dispatch_candidate_with_filter,
}
use qoder2api.Proxy.Exclusions.{
  RetryAccountExclusions, member, reset_soft, for_selection, reset_soft-hard, reset_soft-soft,
}

-- What a turn of the loop meets: the time and the coins of its first pick, and the time and the
-- rounds of its wait.
pub record Turn : Type 0 where
  pub at : ℕ
  pub coins : ℕ → ℕ → Bool
  pub waits_at : ℕ
  pub rounds : List Round

-- The account of a turn, at once or after a wait.
unfoldable pub pick_account : Codec → Text → Request → Turn → Store → Step
unfolding next_for_session_with_filter wait_for_session_available_with_filter
pick_account c key r t s =
    let (got, s1) = next_for_session_with_filter c key t.at r t.coins s in
    let waited = wait_for_session_available_with_filter c key t.waits_at r t.rounds s1 in
    elim got [ some y ↦ (some y, s1) | none ↦ waited ]

abbrev pub is_some : Option (ℕ × Text) → Bool
is_some none = false
is_some (some y) = true

-- The request with the accounts that are left out now.
abbrev pub leaving_out : RetryAccountExclusions → Request → Request
leaving_out x r = record r { exclude = for_selection x }

-- The account and its proxy, what is excluded then, and the store.
abbrev pub Retried : Type 0
Retried = Option (ℕ × Text) × RetryAccountExclusions × Store

-- nextRetryAccountForSession, with one `Turn` for each turn of the loop; `none` if they run out.
unfoldable pub next_retry_account :
    Codec → Text → Request → List Turn → RetryAccountExclusions → Store → Option Retried
unfolding pick_account reset_soft for_selection
next_retry_account c key r [] x s = none
next_retry_account c key r (t ∷ turns) x s =
    let (got, s') = pick_account c key (leaving_out x r) t s in
    let (again, x') = reset_soft x in
    let rest = next_retry_account c key r turns x' s' in
    elim got [ some y ↦ some (some y, x, s') | none ↦ if again then rest else some (none, x', s') ]

or_later-outside :
    (r : Request) (got : Option (ℕ × Text)) (s : Store) (later : Step)
    → IsOutsideStep r got
    → IsOutsideStep r later.0
    → IsOutsideStep r (elim got as (λ o. Step) [ some y ↦ (some y, s) | none ↦ later ]).0
or_later-outside r none s later h g = g
or_later-outside r (some (id, url)) s later h g = h

if-outside :
    (r : Request) (b : Bool) (later : Step) (s : Store)
    → IsOutsideStep r later.0
    → IsOutsideStep r (if b then later else (none, s)).0
if-outside r true later s h = h
if-outside r false later s h = tt

-- The account, if there is one, was not excluded for good.
abbrev pub IsAllowed : RetryAccountExclusions → Option (ℕ × Text) → Type 0
IsAllowed x none = Unit
IsAllowed x (some (id, url)) = member id x.hard ≡ false

-- The loop returns what it should, no account or one that was not excluded for good.
abbrev pub Returns : Option (ℕ × Text) → RetryAccountExclusions → Option Retried → Type 0
Returns got x o =
    (x' : RetryAccountExclusions) × (s' : Store) × (o ≡ some (got, x', s')) × IsAllowed x got

Returns-reset :
    (got : Option (ℕ × Text)) (x : RetryAccountExclusions) (o : Option Retried)
    → Returns got (reset_soft x).1 o
    → Returns got x o
Returns-reset none x o (x', s', e, fine) = (x', s', e, tt)
Returns-reset (some (id, url)) x o (x', s', e, fine) =
    (x', s', e, subst (λ l. member id l ≡ false) (reset_soft-hard x) fine)

IsOutsideStep-IsAllowed :
    (x : RetryAccountExclusions) (r : Request) (o : Option (ℕ × Text))
    → IsOutsideStep (leaving_out x r) o
    → IsAllowed x o
unfolding for_selection
IsOutsideStep-IsAllowed x r none h = tt
IsOutsideStep-IsAllowed x r (some (id, url)) h = ground arith

module _ (c : Codec) (key : Text) where
  wait_rounds-outside :
      (r : Request) (rounds : List Round) (s : Store)
      → IsOutsideStep r (wait_rounds c key r rounds s).0
  unfolding wait_rounds
  wait_rounds-outside r [] s = tt
  wait_rounds-outside r (x ∷ rounds) s =
      let s1 = (next_for_session_with_filter c key x.at r x.coins (x.others s)).1 in
      let (left, s2) = has_dispatch_candidate_with_filter c x.at r s1 in
      or_later-outside r (next_for_session_with_filter c key x.at r x.coins (x.others s)).0 s1 _
        (next_for_session_with_filter-outside c key x.at r x.coins (x.others s))
        (if-outside r left (wait_rounds c key r rounds s2) s2 (wait_rounds-outside r rounds s2))

  wait-outside :
      (now : ℕ) (r : Request) (rounds : List Round) (s : Store)
      → IsOutsideStep r (wait_for_session_available_with_filter c key now r rounds s).0
  unfolding wait_for_session_available_with_filter
  wait-outside now r rounds s =
      let (left, s1) = has_dispatch_candidate_with_filter c now r s in
      if-outside r left (wait_rounds c key r rounds s1) s1 (wait_rounds-outside r rounds s1)

  pick_account-outside :
      (r : Request) (t : Turn) (s : Store) → IsOutsideStep r (pick_account c key r t s).0
  unfolding pick_account
  pick_account-outside r t s =
      let s1 = (next_for_session_with_filter c key t.at r t.coins s).1 in
      or_later-outside r (next_for_session_with_filter c key t.at r t.coins s).0 s1 _
        (next_for_session_with_filter-outside c key t.at r t.coins s)
        (wait-outside t.waits_at r t.rounds s1)

  -- A turn returns what it found, or nothing if there are no soft exclusions, or it found nothing and
  -- the next one runs without them.
  turn_cases :
      (r : Request) (t : Turn) (turns : List Turn) (x : RetryAccountExclusions) (s : Store)
      → let (got, s') = pick_account c key (leaving_out x r) t s in
        let o = next_retry_account c key r (t ∷ turns) x s in
        ((y : ℕ × Text) × (got ≡ some y) × Returns (some y) x o)
        ⊎ (((got ≡ none) × ((reset_soft x).0 ≡ false) × Returns none x o)
            ⊎ ((got ≡ none)
                × ((reset_soft x).0 ≡ true)
                × (o ≡ next_retry_account c key r turns (reset_soft x).1 s')))
  unfolding next_retry_account
  turn_cases r t turns x s =
      let (got, s') = pick_account c key (leaving_out x r) t s in
      elim (Option-cases (pick_account c key (leaving_out x r) t s).0) [
        | inr (y, hit) ↦ inl (
          y,
          hit,
          (
            x,
            s',
            ground (arith, hit),
            IsOutsideStep-IsAllowed x r (some y) (
                subst (IsOutsideStep (leaving_out x r)) hit
                  (pick_account-outside (leaving_out x r) t s)),
          ),
        )
        | inl miss ↦ elim (Bool-cases (reset_soft x).0) [
          | inl on ↦ inr (inr (miss, on, ground (arith, miss)))
          | inr off ↦ inr (inl (miss, off, ((reset_soft x).1, s', ground (arith, miss), tt)))
        ]
      ]

  module _ (r : Request) (first second : Turn) (x : RetryAccountExclusions) (s : Store) where
    -- What two turns find: the account of the first one, and without any that of the second one with
    -- the accounts that are excluded for good left out, if there were soft exclusions.
    abbrev pub two_picks : Option (ℕ × Text)
    two_picks =
        let (got, s') = pick_account c key (leaving_out x r) first s in
        let (later, s2) = pick_account c key (leaving_out (reset_soft x).1 r) second s' in
        if is_some got then got else if (reset_soft x).0 then later else none

    -- Whatever the store is and others do to it during the waits, a retry returns after at most two
    -- turns. It returns the account that is found in the first turn, or else, if there are soft
    -- exclusions, the one that is found in a second turn without them; in no case one that was excluded
    -- for good.
    pub next_retry_account-Returns :
        (turns : List Turn)
        → Returns two_picks x (next_retry_account c key r (first ∷ second ∷ turns) x s)
    next_retry_account-Returns turns = elim (turn_cases r first (second ∷ turns) x s) [
      | inl (y, hit, back) ↦ rw hit back
      | inr (inl (miss, off, back)) ↦ rw (miss, off) back
      | inr (inr (miss, on, e)) ↦
          let s' = (pick_account c key (leaving_out x r) first s).1 in
          elim (turn_cases r second turns (reset_soft x).1 s') [
            | inl (y, hit, back) ↦ rw (miss, on, hit, e) (Returns-reset (some y) x _ back)
            | inr (inl (miss2, _, back)) ↦ rw (miss, on, miss2, e) (Returns-reset none x _ back)
            | inr (inr (_, on2, _)) ↦ absurd (ground (arith, on2, reset_soft-soft x))
          ]
    ]
