-- ===== src/Proxy/Concurrency.antt =====
-- proxy/apikey_concurrency.go: `apiKeyConcurrencyLimiter`, the slots of one API key, taken by a
-- compare-and-swap loop and given back once. Callers run interleaved: a schedule says whose turn it
-- is, and a turn is one atomic operation on the counter. The limit is the same for all callers.
use qoder2api.Prelude.{
  ℕ, zero, suc, ◌+◌, ◌-◌, ◌≤◌, ◌<◌, ◌≡◌, arith, Bool, true, false, ◌||◌, List, [], ◌∷◌, none, some,
  if◌then◌else◌, ◌==◌, leb, ltb, All, Bool-cases, inl, inr, ◌&&◌, find-store, ==_iff, find, store,
  nat_key,
}

-- Where a caller stands: before the load, with the value that it loaded, refused, inside the
-- handler, and after its release.
pub data Caller : Type 0 where
  calling : Caller
  loaded : ℕ → Caller
  refused holding released : Caller

pub record Slots : Type 0 where
  pub inflight : ℕ
  pub callers : List Caller

-- One atomic operation. The counter is at least 1 when a holder gives its slot back (`IsCounted`),
-- so the code's reset of a negative counter to 0 never runs. A second release changes nothing.
unfoldable pub advance : ℕ → ℕ → Caller → ℕ × Caller
advance limit inflight calling =
    if leb limit inflight then (inflight, refused) else (inflight, loaded inflight)
advance limit inflight (loaded current) =
    if inflight == current then (current + 1, holding) else (inflight, calling)
advance limit inflight refused = (inflight, refused)
advance limit inflight holding = (inflight - 1, released)
advance limit inflight released = (inflight, released)

-- The turn of the i-th caller.
unfoldable pub turn : ℕ → ℕ → ℕ → List Caller → ℕ × List Caller
turn limit i inflight [] = (inflight, [])
turn limit zero inflight (c ∷ cs) = let (n, c') = advance limit inflight c in (n, c' ∷ cs)
turn limit (suc i) inflight (c ∷ cs) = let (n, cs') = turn limit i inflight cs in (n, c ∷ cs')

unfoldable pub run_turns : ℕ → List ℕ → Slots → Slots
run_turns limit [] s = s
run_turns limit (i ∷ is) s =
    let (n, cs) = turn limit i s.inflight s.callers in
    run_turns limit is (record { inflight = n; callers = cs })

-- counter(apiKeyID), which makes the counter if the key has none.
unfoldable pub count_of : ℕ → List (ℕ × ℕ) → ℕ
count_of api_key_id counters = elim (find api_key_id counters) [ none ↦ 0 | some n ↦ n ]

-- acquire, run without another caller in between: whether a slot was taken, the count, and whether
-- the request may go on. Without a key or a limit no slot is needed.
unfoldable pub acquire_slot : ℕ → ℕ → List (ℕ × ℕ) → (Bool × ℕ × Bool) × List (ℕ × ℕ)
acquire_slot api_key_id limit counters =
    if api_key_id == 0 || limit == 0
    then ((false, 0, true), counters)
    else let current = count_of api_key_id counters in
      if leb limit current
      then ((false, current, false), store api_key_id current counters)
      else ((true, current + 1, true), store api_key_id (current + 1) counters)

abbrev pub own : Caller → ℕ
own holding = 1
own _ = 0

abbrev pub holders : List Caller → ℕ
holders [] = 0
holders (c ∷ cs) = own c + holders cs

-- A caller that loaded a value found it below the limit.
abbrev pub IsBelow : ℕ → Caller → Type 0
IsBelow limit (loaded n) = n < limit
IsBelow limit _ = Unit

abbrev pub AreBelow : ℕ → List Caller → Type 0
AreBelow limit cs = All (IsBelow limit) cs

pub record IsCounted (limit : ℕ) (s : Slots) : Type 0 where
  pub counted : s.inflight ≡ holders s.callers
  pub bounded : s.inflight ≤ limit
  pub below : AreBelow limit s.callers

advance-counts :
    (limit inflight others : ℕ) (c : Caller)
    → inflight ≡ others + own c
    → inflight ≤ limit
    → IsBelow limit c
    → let (n, c') = advance limit inflight c in
      (n ≡ others + own c') × (n ≤ limit) × IsBelow limit c'
unfolding advance
advance-counts limit inflight others calling e b l = elim (Bool-cases (leb limit inflight)) [
  | inl full ↦ rw full (e, b, tt)
  | inr free ↦ rw free (e, b, ground arith)
]
advance-counts limit inflight others (loaded m) e b l = elim (Bool-cases (inflight == m)) [
  | inl same ↦ rw same (ground arith, omega arith, tt)
  | inr moved ↦ rw moved (e, b, tt)
]
advance-counts limit inflight others refused e b l = (e, b, tt)
advance-counts limit inflight others holding e b l = (omega arith, omega arith, tt)
advance-counts limit inflight others released e b l = (e, b, tt)

-- One turn, among holders that are counted elsewhere as well.
turn-counts :
    (limit i inflight others : ℕ) (cs : List Caller)
    → inflight ≡ others + holders cs
    → inflight ≤ limit
    → AreBelow limit cs
    → let (n, cs') = turn limit i inflight cs in
      (n ≡ others + holders cs') × (n ≤ limit) × AreBelow limit cs'
unfolding turn
turn-counts limit i inflight others [] e b l = (e, b, tt)
turn-counts limit zero inflight others (c ∷ cs) e b (l, ls) =
    let (e', b', l') = advance-counts limit inflight (others + holders cs) c (omega arith) b l in
    (omega (arith, e'), b', (l', ls))
turn-counts limit (suc i) inflight others (c ∷ cs) e b (l, ls) =
    let (e', b', ls') = turn-counts limit i inflight (others + own c) cs (omega arith) b ls in
    (omega (arith, e'), b', (l, ls'))

-- However the callers are interleaved, the counter is the number of callers inside the handler and
-- never exceeds the limit.
pub run_turns-IsCounted :
    (limit : ℕ) (schedule : List ℕ) (s : Slots)
    → IsCounted limit s
    → IsCounted limit (run_turns limit schedule s)
unfolding run_turns
run_turns-IsCounted limit [] s v = v
run_turns-IsCounted limit (i ∷ is) s v =
    let (e, b, l) =
      turn-counts limit i s.inflight 0 s.callers (omega (arith, v.counted)) v.bounded v.below in
    run_turns-IsCounted limit is
      (record {
        inflight = (turn limit i s.inflight s.callers).0;
        callers = (turn limit i s.inflight s.callers).1;
      })
      (record { counted = omega (arith, e); bounded = b; below = l })

count_of-store :
    (k v other : ℕ) (m : List (ℕ × ℕ))
    → count_of other (store k v m) ≡ (if k == other then v else count_of other m)
unfolding count_of
count_of-store k v other m = ground (arith, find-store k other v m)

-- Run alone, a caller goes on exactly if the key's counter is below the limit, and then the counter
-- is one higher; no other key's counter changes.
pub acquire_slot-counts :
    (api_key_id limit other : ℕ) (counters : List (ℕ × ℕ))
    → 0 < api_key_id
    → 0 < limit
    → let ((held, current, ok), counters') = acquire_slot api_key_id limit counters in
      (ok ≡ ltb (count_of api_key_id counters) limit)
      × (held ≡ ok)
      × (count_of other counters'
          ≡ count_of other counters + (if api_key_id == other && ok then 1 else 0))
unfolding acquire_slot
acquire_slot-counts api_key_id limit other counters key lim = ground (
  arith,
  count_of-store api_key_id (count_of api_key_id counters) other counters,
  count_of-store api_key_id (count_of api_key_id counters + 1) other counters,
  ==_iff api_key_id other,
)
