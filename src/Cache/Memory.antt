-- ===== src/Cache/Memory.antt =====
-- cache/memory.go: `MemoryTokenCache` and its operations. JSON values are their bytes. The copies
-- that the code makes of byte slices are the values themselves, which nothing changes here.
use qoder2api.Prelude.{
  ℕ, ◌+◌, ◌-◌, ◌*◌, nat_key, Bool, true, false, not, ◌||◌, List, [], ◌∷◌, ◌++◌, Option, none, some,
  if◌then◌else◌, ltb, ◌==◌, find, store, delete, retain,
}
use qoder2api.Prelude.Int.{ℤ, pos, neg_part}
use qoder2api.Prelude.Text.{Text, is, text_eq, text_key, trim_space}
use qoder2api.Cache.Entries.{Entry, is_expired, expiry, fetch, sweep}

pub record SessionAffinityBinding : Type 0 where
  pub account_id : ℕ
  pub proxy_url : Text

pub record MemoryTokenCache : Type 0 where
  pub tokens : List (ℕ × Entry Text)
  pub locks : List (ℕ × ℕ)
  pub sessions : List (Text × Entry SessionAffinityBinding)
  pub responses : List (Text × Entry (List Text))
  pub runtime : List (Text × Entry Text)
  pub pool_size : ℕ

abbrev pub second : ℕ
second = 1_000_000_000

-- if n <= 0 { n = 1 }
abbrev pub pool_of : ℕ → ℕ
pool_of n = if n == 0 then 1 else n

unfoldable pub new_memory : ℕ → MemoryTokenCache
new_memory pool_size = record {
  tokens = [];
  locks = [];
  sessions = [];
  responses = [];
  runtime = [];
  pool_size = pool_of pool_size;
}

-- One round of cleanupLoop.
unfoldable pub cleanup : ℕ → MemoryTokenCache → MemoryTokenCache
cleanup now tc = record tc {
  tokens = sweep now tc.tokens;
  locks = retain (λ id until. not (ltb until now)) tc.locks;
  sessions = sweep now tc.sessions;
  responses = sweep now tc.responses;
  runtime = sweep now tc.runtime;
}

unfoldable pub set_pool_size : ℕ → MemoryTokenCache → MemoryTokenCache
set_pool_size n tc = record tc { pool_size = pool_of n }

-- The empty text for an account without a token. The second look, under the lock, deletes the
-- entry if it is still the one that was read; in one step it is.
unfoldable pub get_access_token : ℕ → ℕ → MemoryTokenCache → Text × MemoryTokenCache
get_access_token account_id now tc = elim (find account_id tc.tokens) [
  | none ↦ ([], tc)
  | some c ↦
      if is_expired now c.expires_at
      then ([], record tc { tokens = delete account_id tc.tokens })
      else (c.value, tc)
]

-- No time of expiry for a ttl of 0, and one in the past for a negative ttl.
unfoldable pub set_access_token : ℕ → Text → ℤ → ℕ → MemoryTokenCache → MemoryTokenCache
set_access_token account_id token ttl now tc = record tc {
  tokens =
      store account_id
        (record {
          value = token;
          expires_at = elim ttl [
            | pos n ↦ if n == 0 then none else some (now + n)
            | other ↦ some (now - neg_part other)
          ];
        })
        tc.tokens;
}

unfoldable pub delete_access_token : ℕ → MemoryTokenCache → MemoryTokenCache
delete_access_token account_id tc = record tc { tokens = delete account_id tc.tokens }

-- if ttl <= 0 { ttl = 30 * time.Second }
abbrev pub lock_ttl : ℕ → ℕ
lock_ttl ttl = if ttl == 0 then 30 * second else ttl

unfoldable pub acquire_refresh_lock : ℕ → ℕ → ℕ → MemoryTokenCache → Bool × MemoryTokenCache
acquire_refresh_lock account_id ttl now tc =
    let free = record tc { locks = store account_id (now + lock_ttl ttl) tc.locks } in
    elim (find account_id tc.locks) [
      | none ↦ (true, free)
      | some until ↦ if ltb now until then (false, tc) else (true, free)
    ]

unfoldable pub release_refresh_lock : ℕ → MemoryTokenCache → MemoryTokenCache
release_refresh_lock account_id tc = record tc { locks = delete account_id tc.locks }

unfoldable pub set_session_affinity :
    Text → SessionAffinityBinding → ℕ → ℕ → MemoryTokenCache → MemoryTokenCache
unfolding trim_space text_eq
set_session_affinity key binding ttl now tc =
    let k = trim_space key in
    if is "" k || binding.account_id == 0 then tc else record tc {
      sessions =
          store k (record { value = binding; expires_at = expiry (3600 * second) ttl now })
            tc.sessions;
    }

unfoldable pub get_session_affinity :
    Text → ℕ → MemoryTokenCache → Option SessionAffinityBinding × MemoryTokenCache
unfolding text_eq
get_session_affinity key now tc =
    let k = trim_space key in
    if is "" k
    then (none, tc)
    else let (found, m) = fetch k now tc.sessions in (found, record tc { sessions = m })

unfoldable pub delete_session_affinity : Text → ℕ → MemoryTokenCache → MemoryTokenCache
unfolding text_eq
delete_session_affinity key account_id tc =
    let k = trim_space key in
    if is "" k || account_id == 0 then tc else elim (find k tc.sessions) [
      | none ↦ tc
      | some c ↦
          if c.value.account_id == account_id
          then record tc { sessions = delete k tc.sessions }
          else tc
    ]

unfoldable pub set_response_context : Text → List Text → ℕ → ℕ → MemoryTokenCache → MemoryTokenCache
unfolding text_eq
set_response_context response_id items ttl now tc =
    let k = trim_space response_id in
    if is "" k then tc else record tc {
      responses =
          store k (record { value = items; expires_at = expiry (600 * second) ttl now })
            tc.responses;
    }

-- `none` is the nil slice.
unfoldable pub get_response_context :
    Text → ℕ → MemoryTokenCache → Option (List Text) × MemoryTokenCache
unfolding text_eq
get_response_context response_id now tc =
    let k = trim_space response_id in
    if is "" k
    then (none, tc)
    else let (found, m) = fetch k now tc.responses in (found, record tc { responses = m })

-- The empty text if a part is empty.
unfoldable pub runtime_map_key : Text → Text → Text
unfolding text_eq
runtime_map_key namespace key =
    let n = trim_space namespace in
    let k = trim_space key in if is "" n || is "" k then [] else n ++ (0 ∷ k)

unfoldable pub set_runtime : Text → Text → Text → ℕ → ℕ → MemoryTokenCache → MemoryTokenCache
unfolding text_eq
set_runtime namespace key value ttl now tc =
    let k = runtime_map_key namespace key in
    if is "" k || is "" value then tc else record tc {
      runtime =
          store k (record { value = value; expires_at = expiry (60 * second) ttl now }) tc.runtime;
    }

unfoldable pub get_runtime : Text → Text → ℕ → MemoryTokenCache → Option Text × MemoryTokenCache
unfolding text_eq
get_runtime namespace key now tc =
    let k = runtime_map_key namespace key in
    if is "" k
    then (none, tc)
    else let (found, m) = fetch k now tc.runtime in (found, record tc { runtime = m })

unfoldable pub delete_runtime : Text → Text → MemoryTokenCache → MemoryTokenCache
unfolding text_eq
delete_runtime namespace key tc =
    let k = runtime_map_key namespace key in
    if is "" k then tc else record tc { runtime = delete k tc.runtime }
