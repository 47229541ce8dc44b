-- ===== src/Cache/Entries.antt =====
-- Entries with a time of expiry, in maps: what every map of cache/memory.go has in common.
use qoder2api.Prelude.{
  ℕ, ◌+◌, ◌≤◌, ◌≡◌, arith, Bool, true, false, not, List, Option, none, some, if◌then◌else◌, ltb,
  ◌==◌, Key, find, store, delete, retain, find-store, find-delete, find-retain, find-same,
  IsDistinct, inl, inr, Option-cases,
}

-- `none` is the zero time, which never expires.
pub record Entry {ℓ} (V : Type ℓ) : Type ℓ where
  pub value : V
  pub expires_at : Option ℕ

-- !expiresAt.IsZero() && now.After(expiresAt)
abbrev pub is_expired : ℕ → Option ℕ → Bool
is_expired now none = false
is_expired now (some t) = ltb t now

-- a.Equal(b)
abbrev pub same_time : Option ℕ → Option ℕ → Bool
same_time none none = true
same_time none (some t) = false
same_time (some t) none = false
same_time (some t) (some u) = t == u

-- if ttl <= 0 { ttl = standard }; time.Now().Add(ttl)
abbrev pub expiry : ℕ → ℕ → ℕ → Option ℕ
expiry standard ttl now = some (now + (if ttl == 0 then standard else ttl))

-- What an entry gives to a reader at `now`.
abbrev pub live_entry {ℓ} : {V : Type ℓ} → ℕ → Option (Entry V) → Option V
live_entry now none = none
live_entry now (some c) = if is_expired now c.expires_at then none else some c.value

module _ {ℓ κ} {K : Type ℓ} {V : Type κ} ⦃e : Key K⦄ where
  -- What a reader does who found an expired entry: under the lock, it deletes the entry if it
  -- still has the time that was read.
  unfoldable pub drop_expired : K → Option ℕ → List (K × Entry V) → List (K × Entry V)
  drop_expired k t m = elim (find k m) [
    | none ↦ m
    | some c ↦ if same_time c.expires_at t then delete k m else m
  ]

  -- A read: the value, if there is one that is not expired.
  unfoldable pub fetch : K → ℕ → List (K × Entry V) → Option V × List (K × Entry V)
  fetch k now m = elim (find k m) [
    | none ↦ (none, m)
    | some c ↦
        if is_expired now c.expires_at
        then (none, drop_expired k c.expires_at m)
        else (some c.value, m)
  ]

  -- for key, entry := range m { if expired { delete(m, key) } }
  unfoldable pub sweep : ℕ → List (K × Entry V) → List (K × Entry V)
  sweep now m = retain (λ k c. not (is_expired now c.expires_at)) m

  -- What the map holds for a reader at `now`.
  abbrev pub live : ℕ → List (K × Entry V) → K → Option V
  live now m k = live_entry now (find k m)

  -- Deleting what was expired when it was read takes nothing from a later reader, whatever was
  -- written in between.
  pub live-drop_expired :
      (k j : K) (t : Option ℕ) (now later : ℕ) (m : List (K × Entry V))
      → is_expired now t ≡ true
      → now ≤ later
      → live later (drop_expired k t m) j ≡ live later m j
  unfolding drop_expired
  live-drop_expired k j t now later m x le = ground (arith, find-delete k j m, find-same k j m)

  pub fetch-live : (k : K) (now : ℕ) (m : List (K × Entry V)) → (fetch k now m).0 ≡ live now m k
  unfolding fetch
  fetch-live k now m = ground arith

  -- A read changes nothing for a later reader.
  pub live-fetch :
      (k j : K) (now later : ℕ) (m : List (K × Entry V))
      → now ≤ later
      → live later (fetch k now m).1 j ≡ live later m j
  unfolding fetch
  live-fetch k j now later m le = elim (Option-cases (find k m)) [
    | inl miss ↦ ground (arith, miss)
    | inr (c, hit) ↦ ground (arith, hit, live-drop_expired k j c.expires_at now later m)
  ]

  pub live-store :
      (k j : K) (c : Entry V) (later : ℕ) (m : List (K × Entry V))
      → live later (store k c m) j
        ≡ (if e.same k j then live_entry later (some c) else live later m j)
  live-store k j c later m = ground (arith, find-store k j c m)

  pub live-delete :
      (k j : K) (later : ℕ) (m : List (K × Entry V))
      → live later (delete k m) j ≡ (if e.same k j then none else live later m j)
  live-delete k j later m = ground (arith, find-delete k j m)

  pub live-sweep :
      (j : K) (now later : ℕ) (m : List (K × Entry V))
      → IsDistinct m
      → now ≤ later
      → live later (sweep now m) j ≡ live later m j
  unfolding sweep
  live-sweep j now later m d le =
      ground (arith, find-retain (λ k (c : Entry V). not (is_expired now c.expires_at)) j m d)
