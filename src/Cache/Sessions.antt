-- ===== src/Cache/Sessions.antt =====
-- The session bindings of the cache, as a client sees them: a function of the key and the time.
use qoder2api.Prelude.{
  ℕ, ◌+◌, ◌*◌, ◌≤◌, ◌≡◌, refl, arith, ◌||◌, List, [], ◌∷◌, Option, none, some, inl, inr, Bool-cases,
  if◌then◌else◌, ltb, ◌==◌, find-same, delete, IsDistinct, store-IsDistinct, delete-IsDistinct,
  retain-IsDistinct, subst, sym, ◌⊎◌,
}
use qoder2api.Prelude.Text.{Text, is, text_eq, text_key, trim_space}
use qoder2api.Cache.Entries.{
  Entry, expiry, fetch, drop_expired, sweep, live, live-fetch, fetch-live, live-store, live-delete,
  live-sweep,
}
use qoder2api.Cache.Memory.{
  SessionAffinityBinding, MemoryTokenCache, second, cleanup, set_session_affinity,
  get_session_affinity, delete_session_affinity,
}

-- The calls of a client, and the rounds of the cleaning loop between them.
pub data Call : Type 0 where
  bind : Text → SessionAffinityBinding → ℕ → Call
  unbind : Text → ℕ → Call
  ask : Text → Call
  clean : Call

-- The answers to the calls of `ask`, each call at its time.
unfoldable pub run_calls : List (ℕ × Call) → MemoryTokenCache → List (Option SessionAffinityBinding)
run_calls [] tc = []
run_calls ((now, bind key b ttl) ∷ calls) tc =
    run_calls calls (set_session_affinity key b ttl now tc)
run_calls ((now, unbind key account_id) ∷ calls) tc =
    run_calls calls (delete_session_affinity key account_id tc)
run_calls ((now, ask key) ∷ calls) tc =
    let (found, tc') = get_session_affinity key now tc in found ∷ run_calls calls tc'
run_calls ((now, clean) ∷ calls) tc = run_calls calls (cleanup now tc)

-- What is bound to a key at a time.
abbrev pub Bound : Type 0
Bound = Text → ℕ → Option SessionAffinityBinding

abbrev pub bind_until : Text → SessionAffinityBinding → ℕ → Bound → Bound
bind_until k b until f j t = if text_eq k j then (if ltb until t then none else some b) else f j t

abbrev pub unless_account : ℕ → Option SessionAffinityBinding → Option SessionAffinityBinding
unless_account account_id none = none
unless_account account_id (some b) = if b.account_id == account_id then none else some b

abbrev pub unbind_account : Text → ℕ → Bound → Bound
unbind_account k account_id f j t = if text_eq k j then unless_account account_id (f j t) else f j t

-- The same calls on the function: a binding lasts for its time to live, an hour if that is 0; cleaning and asking change nothing.
unfoldable pub replay : List (ℕ × Call) → Bound → List (Option SessionAffinityBinding)
unfolding text_eq
replay [] f = []
replay ((now, bind key b ttl) ∷ calls) f = replay calls (
    if is "" (trim_space key) || b.account_id == 0
    then f
    else bind_until (trim_space key) b (now + (if ttl == 0 then 3600 * second else ttl)) f)
replay ((now, unbind key account_id) ∷ calls) f = replay calls (
    if is "" (trim_space key) || account_id == 0
    then f
    else unbind_account (trim_space key) account_id f)
replay ((now, ask key) ∷ calls) f =
    (if is "" (trim_space key) then none else f (trim_space key) now) ∷ replay calls f
replay ((now, clean) ∷ calls) f = replay calls f

-- The times of the calls do not go back, from `t` on.
abbrev pub Ordered : ℕ → List (ℕ × Call) → Type 0
Ordered t [] = Unit
Ordered t ((now, c) ∷ calls) = (t ≤ now) × Ordered now calls

-- From `now` on the cache reads as the function.
abbrev pub Reads : ℕ → MemoryTokenCache → Bound → Type 0
Reads now tc f = (j : Text) (t : ℕ) → now ≤ t → live t tc.sessions j ≡ f j t

bind-Reads :
    (key : Text) (b : SessionAffinityBinding) (ttl now : ℕ) (tc : MemoryTokenCache) (f : Bound)
    → Reads now tc f
    → Reads now (set_session_affinity key b ttl now tc) (
        if is "" (trim_space key) || b.account_id == 0
        then f
        else bind_until (trim_space key) b (now + (if ttl == 0 then 3600 * second else ttl)) f)
unfolding set_session_affinity
bind-Reads key b ttl now tc f r j t le = ground (
  arith,
  r j t,
  live-store (trim_space key) j (record { value = b; expires_at = expiry (3600 * second) ttl now })
      t tc.sessions,
)

unbind-Reads :
    (key : Text) (account_id now : ℕ) (tc : MemoryTokenCache) (f : Bound)
    → Reads now tc f
    → Reads now (delete_session_affinity key account_id tc) (
        if is "" (trim_space key) || account_id == 0
        then f
        else unbind_account (trim_space key) account_id f)
unfolding delete_session_affinity
unbind-Reads key account_id now tc f r j t le = ground (
  arith,
  r j t,
  live-delete (trim_space key) j t tc.sessions,
  find-same (trim_space key) j tc.sessions,
)

clean-Reads :
    (now : ℕ) (tc : MemoryTokenCache) (f : Bound)
    → IsDistinct tc.sessions
    → Reads now tc f
    → Reads now (cleanup now tc) f
unfolding cleanup
clean-Reads now tc f d r j t le = ground (arith, r j t, live-sweep j now t tc.sessions d)

ask-Reads :
    (key : Text) (now : ℕ) (tc : MemoryTokenCache) (f : Bound)
    → Reads now tc f
    → Reads now (get_session_affinity key now tc).1 f
unfolding get_session_affinity
ask-Reads key now tc f r j t le =
    ground (arith, r j t, live-fetch (trim_space key) j now t tc.sessions)

abbrev Sessions : Type 0
Sessions = List (Text × Entry SessionAffinityBinding)

fetch-cases :
    (k : Text) (now : ℕ) (m : Sessions) → ((fetch k now m).1 ≡ m) ⊎ ((fetch k now m).1 ≡ delete k m)
unfolding fetch drop_expired
fetch-cases k now m = ground arith

fetch-IsDistinct : (k : Text) (now : ℕ) (m : Sessions) → IsDistinct m → IsDistinct (fetch k now m).1
fetch-IsDistinct k now m d = elim (fetch-cases k now m) [
  | inl same ↦ subst (λ x. IsDistinct x) (sym same) d
  | inr gone ↦ subst (λ x. IsDistinct x) (sym gone) (delete-IsDistinct k m d)
]

bind-IsDistinct :
    (key : Text) (b : SessionAffinityBinding) (ttl now : ℕ) (tc : MemoryTokenCache)
    → IsDistinct tc.sessions
    → IsDistinct (set_session_affinity key b ttl now tc).sessions
unfolding set_session_affinity
bind-IsDistinct key b ttl now tc d =
    elim (Bool-cases (is "" (trim_space key) || b.account_id == 0)) [
      | inl off ↦ rw off d
      | inr on ↦ rw on (store-IsDistinct (trim_space key) _ tc.sessions d)
    ]

unbind-cases :
    (key : Text) (account_id : ℕ) (tc : MemoryTokenCache)
    → ((delete_session_affinity key account_id tc).sessions ≡ tc.sessions)
      ⊎ ((delete_session_affinity key account_id tc).sessions ≡ delete (trim_space key) tc.sessions)
unfolding delete_session_affinity
unbind-cases key account_id tc = ground arith

unbind-IsDistinct :
    (key : Text) (account_id : ℕ) (tc : MemoryTokenCache)
    → IsDistinct tc.sessions
    → IsDistinct (delete_session_affinity key account_id tc).sessions
unbind-IsDistinct key account_id tc d = elim (unbind-cases key account_id tc) [
  | inl same ↦ subst (λ x. IsDistinct x) (sym same) d
  | inr gone ↦
      subst (λ x. IsDistinct x) (sym gone) (delete-IsDistinct (trim_space key) tc.sessions d)
]

ask-IsDistinct :
    (key : Text) (now : ℕ) (tc : MemoryTokenCache)
    → IsDistinct tc.sessions
    → IsDistinct (get_session_affinity key now tc).1.sessions
unfolding get_session_affinity
ask-IsDistinct key now tc d = elim (Bool-cases (is "" (trim_space key))) [
  | inl off ↦ rw off d
  | inr on ↦ rw on (fetch-IsDistinct (trim_space key) now tc.sessions d)
]

clean-IsDistinct :
    (now : ℕ) (tc : MemoryTokenCache)
    → IsDistinct tc.sessions
    → IsDistinct (cleanup now tc).sessions
unfolding cleanup sweep
clean-IsDistinct now tc d = retain-IsDistinct _ tc.sessions d

ask-answer :
    (key : Text) (now : ℕ) (tc : MemoryTokenCache) (f : Bound)
    → Reads now tc f
    → (get_session_affinity key now tc).0
      ≡ (if is "" (trim_space key) then none else f (trim_space key) now)
unfolding get_session_affinity
ask-answer key now tc f r =
    ground (arith, r (trim_space key) now, fetch-live (trim_space key) now tc.sessions)

Reads-later :
    (now later : ℕ) (tc : MemoryTokenCache) (f : Bound)
    → now ≤ later
    → Reads now tc f
    → Reads later tc f
Reads-later now later tc f le r j t lt = r j t (omega arith)

-- If a cache with distinct keys reads as a function of keys and times from now on, then what a client of
-- its session bindings is answered, over calls whose times do not go back and with the cleaning loop
-- running in between, is what the same calls on the function answer.
pub run_calls_refines :
    (now : ℕ) (calls : List (ℕ × Call)) (tc : MemoryTokenCache) (f : Bound)
    → Ordered now calls
    → IsDistinct tc.sessions
    → Reads now tc f
    → run_calls calls tc ≡ replay calls f
unfolding run_calls replay
run_calls_refines now [] tc f o d r = refl
run_calls_refines now ((t, bind key b ttl) ∷ calls) tc f (le, o) d r =
    run_calls_refines t calls _ _ o (bind-IsDistinct key b ttl t tc d)
      (bind-Reads key b ttl t tc f (Reads-later now t tc f le r))
run_calls_refines now ((t, unbind key account_id) ∷ calls) tc f (le, o) d r =
    run_calls_refines t calls _ _ o (unbind-IsDistinct key account_id tc d)
      (unbind-Reads key account_id t tc f (Reads-later now t tc f le r))
run_calls_refines now ((t, ask key) ∷ calls) tc f (le, o) d r = ground (
  arith,
  ask-answer key t tc f (Reads-later now t tc f le r),
  run_calls_refines t calls (get_session_affinity key t tc).1 f o (ask-IsDistinct key t tc d)
      (ask-Reads key t tc f (Reads-later now t tc f le r)),
)
run_calls_refines now ((t, clean) ∷ calls) tc f (le, o) d r =
    run_calls_refines t calls _ _ o (clean-IsDistinct t tc d)
      (clean-Reads t tc f d (Reads-later now t tc f le r))
