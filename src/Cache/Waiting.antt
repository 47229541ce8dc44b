-- ===== src/Cache/Waiting.antt =====
-- cache/memory.go: WaitForRefreshComplete, the wait for the one who refreshes an account.
use qoder2api.Prelude.{
  ℕ, ◌+◌, ◌-◌, ◌*◌, ap, ◌∙◌, ◌≤◌, ◌<◌, ◌≡◌, arith, Bool, true, false, not, ◌&&◌, List, [], ◌∷◌,
  Option, none, some, inl, inr, ◌⊎◌, Option-cases, Bool-cases, ◌++◌, if◌then◌else◌, ltb, ◌==◌,
  ==_iff, find, delete, find-store, find-delete, nat_key,
}
use qoder2api.Prelude.Int.{pos}
use qoder2api.Prelude.Text.{Text, is, text_eq}
use qoder2api.Cache.Entries.{Entry, is_expired}
use qoder2api.Cache.Memory.{MemoryTokenCache, second, release_refresh_lock, set_access_token}

-- `cancelled` is the error of the context.
pub data WaitResult : Type 0 where
  refreshed : Text → WaitResult
  cancelled timeout : WaitResult

-- Whether the account is locked; a lock that is over is deleted.
unfoldable pub drop_lock : ℕ → ℕ → MemoryTokenCache → Bool × MemoryTokenCache
drop_lock account_id now tc = elim (find account_id tc.locks) [
  | none ↦ (false, tc)
  | some until ↦
      if ltb until now
      then (false, record tc { locks = delete account_id tc.locks })
      else (true, tc)
]

-- The account's token, empty if there is none; one that is expired is deleted.
unfoldable pub drop_token : ℕ → ℕ → MemoryTokenCache → Text × MemoryTokenCache
drop_token account_id now tc = elim (find account_id tc.tokens) [
  | none ↦ ([], tc)
  | some c ↦
      if is_expired now c.expires_at
      then ([], record tc { tokens = delete account_id tc.tokens })
      else (c.value, tc)
]

-- One look of WaitForRefreshComplete: the token, if there is one and the account is not locked.
unfoldable pub look : ℕ → ℕ → MemoryTokenCache → Option Text × MemoryTokenCache
unfolding text_eq drop_lock drop_token
look account_id now tc =
    let (locked, tc1) = drop_lock account_id now tc in
    let (token, tc2) = drop_token account_id now tc1 in
    (if not locked && not (is "" token) then some token else none, tc2)

-- What happens up to the next look: the clock goes on, and others change the cache; or the context
-- is done.
pub data Pause : Type 0 where
  tick : ℕ → (MemoryTokenCache → MemoryTokenCache) → Pause
  done : Pause

-- The loop of WaitForRefreshComplete from the test of the deadline at `now`, with one pause for
-- each further look. At the end of the list the context is done.
unfoldable pub wait_from : ℕ → ℕ → ℕ → List Pause → MemoryTokenCache → WaitResult × MemoryTokenCache
unfolding look
wait_from account_id deadline now [] tc =
    if ltb now deadline
    then elim (look account_id now tc).0 [
      | some token ↦ (refreshed token, (look account_id now tc).1)
      | none ↦ (cancelled, (look account_id now tc).1)
    ]
    else (timeout, tc)
wait_from account_id deadline now (done ∷ pauses) tc =
    if ltb now deadline
    then elim (look account_id now tc).0 [
      | some token ↦ (refreshed token, (look account_id now tc).1)
      | none ↦ (cancelled, (look account_id now tc).1)
    ]
    else (timeout, tc)
wait_from account_id deadline now (tick later others ∷ pauses) tc =
    let rest = wait_from account_id deadline later pauses (others (look account_id now tc).1) in
    if ltb now deadline
    then elim (look account_id now tc).0 [
      | some token ↦ (refreshed token, (look account_id now tc).1)
      | none ↦ rest
    ]
    else (timeout, tc)

-- if timeout <= 0 { timeout = 30 * time.Second }
unfoldable pub wait_for_refresh_complete :
    ℕ → ℕ → ℕ → List Pause → MemoryTokenCache → WaitResult × MemoryTokenCache
unfolding wait_from
wait_for_refresh_complete account_id limit now pauses tc =
    wait_from account_id (now + (if limit == 0 then 30 * second else limit)) now pauses tc

-- No pause ends the wait, and all looks are before the deadline.
abbrev pub InTime : ℕ → List Pause → Type 0
InTime deadline [] = Unit
InTime deadline (done ∷ pauses) = ⊥
InTime deadline (tick later others ∷ pauses) = (later < deadline) × InTime deadline pauses

-- auth/store.go, refreshAccount: the new token is stored up to 5 minutes before it expires, and not at
-- all if that is over.
unfoldable pub store_refreshed : ℕ → Text → ℕ → ℕ → MemoryTokenCache → MemoryTokenCache
unfolding set_access_token
store_refreshed account_id token expires_at now tc =
    let ttl = expires_at - (now + 300 * second) in
    if ttl == 0 then tc else set_access_token account_id token (pos ttl) now tc

-- What the holder of the lock does who got a new token: it stores the token, goes on, with whatever
-- happens to the cache meanwhile, and at last gives the lock up.
abbrev pub finish_refresh :
    ℕ → Text → ℕ → ℕ → (MemoryTokenCache → MemoryTokenCache) → MemoryTokenCache → MemoryTokenCache
finish_refresh account_id token expires_at stored meanwhile tc =
    release_refresh_lock account_id
      (meanwhile (store_refreshed account_id token expires_at stored tc))

-- The entry of the account's token stays.
abbrev pub KeepsToken : ℕ → (MemoryTokenCache → MemoryTokenCache) → Type 0
KeepsToken account_id meanwhile =
    (tc : MemoryTokenCache) → find account_id (meanwhile tc).tokens ≡ find account_id tc.tokens

abbrev IsRefreshed : WaitResult → Type 0
IsRefreshed r = (token : Text) × (r ≡ refreshed token)

-- The entry that is stored for a token.
abbrev token_entry : Text → ℕ → Entry Text
token_entry token until = record { value = token; expires_at = some until }

store_refreshed-found :
    (account_id stored expires_at : ℕ) (token : Text) (tc : MemoryTokenCache)
    → stored + 300 * second < expires_at
    → find account_id (store_refreshed account_id token expires_at stored tc).tokens
      ≡ some (token_entry token (expires_at - 300 * second))
unfolding store_refreshed set_access_token
store_refreshed-found account_id stored expires_at token tc fresh =
    let until : stored + (expires_at - (stored + 300 * second)) ≡ expires_at - 300 * second =
      omega arith in
    ground (
      arith,
      ap (token_entry token) until,
      find-store account_id account_id
          (token_entry token (stored + (expires_at - (stored + 300 * second)))) tc.tokens,
      ==_iff account_id account_id,
    )

look_token :
    (account_id now until : ℕ) (token : Text) (tc : MemoryTokenCache)
    → is "" token ≡ false
    → now ≤ until
    → find account_id tc.tokens ≡ some (token_entry token until)
    → (look account_id now (release_refresh_lock account_id tc)).0 ≡ some token
unfolding look drop_lock drop_token release_refresh_lock
look_token account_id now until token tc e le at =
    ground (arith, at, find-delete account_id account_id tc.locks, ==_iff account_id account_id)

at_look :
    (account_id deadline now : ℕ) (pauses : List Pause) (token : Text) (tc : MemoryTokenCache)
    → now < deadline
    → (look account_id now tc).0 ≡ some token
    → (wait_from account_id deadline now pauses tc).0 ≡ refreshed token
unfolding wait_from
at_look account_id deadline now [] token tc lt l = ground (arith, l)
at_look account_id deadline now (done ∷ pauses) token tc lt l = ground (arith, l)
at_look account_id deadline now (tick later others ∷ pauses) token tc lt l = ground (arith, l)

module _ (account_id stored end expires_at : ℕ) (token : Text)
    (meanwhile : MemoryTokenCache → MemoryTokenCache) (filled : is "" token ≡ false)
    (fresh : stored + 300 * second < expires_at) (lasts : end + 300 * second ≤ expires_at)
    (keeps : KeepsToken account_id meanwhile) where
  look_done :
      (tc : MemoryTokenCache)
      → (look account_id end (finish_refresh account_id token expires_at stored meanwhile tc)).0
        ≡ some token
  look_done tc =
      look_token account_id end (expires_at - 300 * second) token
        (meanwhile (store_refreshed account_id token expires_at stored tc)) filled (omega arith)
        (keeps (store_refreshed account_id token expires_at stored tc)
          ∙ store_refreshed-found account_id stored expires_at token tc fresh)

  -- A wait gets a token if the holder of the lock stores one that is not empty more than 5 minutes
  -- before it expires, gives the lock up after things that keep the account's entry, and the waiter
  -- looks after that, before the deadline and at least 5 minutes before the token expires; all its
  -- looks up to then are before the deadline and the context is not done until then, whatever others
  -- do to the cache in between.
  pub wait_from-finish_refresh :
      (deadline now : ℕ) (before after : List Pause) (tc : MemoryTokenCache)
      → now < deadline
      → end < deadline
      → InTime deadline before
      → IsRefreshed
          (wait_from account_id deadline now
            (before
              ++ (tick end (finish_refresh account_id token expires_at stored meanwhile) ∷ after))
            tc).0
  unfolding wait_from
  wait_from-finish_refresh deadline now [] after tc lt le it =
      elim (Option-cases (look account_id now tc).0) [
        | inr (got, hit) ↦ (got, ground (arith, hit))
        | inl miss ↦ (
          token,
          ground (
            arith,
            miss,
            at_look account_id deadline end after token
                (finish_refresh account_id token expires_at stored meanwhile
                  (look account_id now tc).1)
                le (look_done (look account_id now tc).1),
          ),
        )
      ]
  wait_from-finish_refresh deadline now (done ∷ before) after tc lt le it = absurd it
  wait_from-finish_refresh deadline now (tick later others ∷ before) after tc lt le (l, it) =
      elim (Option-cases (look account_id now tc).0) [
        | inr (got, hit) ↦ (got, ground (arith, hit))
        | inl miss ↦
            let (got, r) =
              wait_from-finish_refresh deadline later before after
                (others (look account_id now tc).1) l le it in
            (got, ground (arith, miss, r))
      ]

-- No pause of the list changes the account's lock.
abbrev pub Untouched : ℕ → List Pause → Type 0
Untouched account_id [] = Unit
Untouched account_id (done ∷ pauses) = Untouched account_id pauses
Untouched account_id (tick later others ∷ pauses) =
    ((tc : MemoryTokenCache) → find account_id (others tc).locks ≡ find account_id tc.locks)
    × Untouched account_id pauses

look_locked :
    (account_id now until : ℕ) (tc : MemoryTokenCache)
    → now ≤ until
    → find account_id tc.locks ≡ some until
    → ((look account_id now tc).0 ≡ none)
      × (find account_id (look account_id now tc).1.locks ≡ some until)
unfolding look drop_lock drop_token
look_locked account_id now until tc le h = ground (arith, h)

-- A wait for a lock that lasts to the deadline, and that nobody changes, ends without a token: with
-- a timeout, or with the error of the context.
pub wait_from-Untouched :
    (account_id deadline now until : ℕ) (pauses : List Pause) (tc : MemoryTokenCache)
    → deadline ≤ until
    → find account_id tc.locks ≡ some until
    → Untouched account_id pauses
    → let r = (wait_from account_id deadline now pauses tc).0 in (r ≡ timeout) ⊎ (r ≡ cancelled)
unfolding wait_from
wait_from-Untouched account_id deadline now until [] tc le h u =
    ground (arith, look_locked account_id now until tc)
wait_from-Untouched account_id deadline now until (done ∷ pauses) tc le h u =
    ground (arith, look_locked account_id now until tc)
wait_from-Untouched account_id deadline now until (tick later others ∷ pauses) tc le h (same, u) =
    elim (Bool-cases (ltb now deadline)) [
      | inr late ↦ ground (arith, late)
      | inl early ↦
          let (miss, still) = look_locked account_id now until tc (ground (arith, early)) h in
          ground (
            arith,
            early,
            miss,
            wait_from-Untouched account_id deadline later until pauses
                (others (look account_id now tc).1) le
                (ground (arith, same (look account_id now tc).1, still)) u,
          )
    ]
