-- ===== src/Cache/Locks.antt =====
-- The refresh lock of an account.
use qoder2api.Prelude.{
  ℕ, ◌+◌, ◌≡◌, arith, Bool, false, not, ◌&&◌, none, some, if◌then◌else◌, ltb, ◌==◌, ==_iff, find,
  find-store, find-delete, nat_key,
}
use qoder2api.Cache.Memory.{MemoryTokenCache, lock_ttl, acquire_refresh_lock, release_refresh_lock}

-- Somebody holds the account's lock at `now`.
abbrev pub is_held : ℕ → ℕ → MemoryTokenCache → Bool
is_held account_id now tc = elim (find account_id tc.locks) [
  | none ↦ false
  | some until ↦ ltb now until
]

-- A lock is got exactly if nobody holds it. Then it is held for its time to live, 30 seconds if
-- that is 0; the locks of other accounts stay as they are, and so does a lock that was not got.
pub acquire_refresh_lock-is_held :
    (account_id other ttl now later : ℕ) (tc : MemoryTokenCache)
    → let (got, tc') = acquire_refresh_lock account_id ttl now tc in
      (got ≡ not (is_held account_id now tc))
      × (is_held other later tc' ≡ (
          if account_id == other && got
          then ltb later (now + lock_ttl ttl)
          else is_held other later tc))
unfolding acquire_refresh_lock
acquire_refresh_lock-is_held account_id other ttl now later tc =
    ground
      (arith, find-store account_id other (now + lock_ttl ttl) tc.locks, ==_iff account_id other)

-- A released lock is free, and no other one is freed.
pub release_refresh_lock-is_held :
    (account_id other later : ℕ) (tc : MemoryTokenCache)
    → is_held other later (release_refresh_lock account_id tc)
      ≡ (if account_id == other then false else is_held other later tc)
unfolding release_refresh_lock
release_refresh_lock-is_held account_id other later tc =
    ground (arith, find-delete account_id other tc.locks)
