-- ===== src/Auth/Store/Taking.antt =====
-- auth/store.go: `lookupByIDLocked` and `takeByIDExcluding`, which takes a slot of one account.
use qoder2api.Prelude.{
  ℕ, Bool, false, not, ◌&&◌, ◌||◌, List, [], ◌∷◌, Option, none, some, if◌then◌else◌, ◌==◌,
}
use qoder2api.Prelude.Text.{text_key}
use qoder2api.Auth.Account.{Account}
use qoder2api.Auth.Availability.{is_available, fast_scheduler_snapshot, try_acquire_account}
use qoder2api.Auth.FastScheduler.{write}
use qoder2api.Auth.FastScheduler.Scan.{Request}
use qoder2api.Auth.Store.{Store}
use qoder2api.Auth.Store.Cached.{Codec, account_has_cached_cooldown}
use qoder2api.Auth.Store.Selection.{account_allowed_for_api_key}

is_id : ℕ → List ℕ → Bool
is_id id [] = false
is_id id (j ∷ ids) = j == id || is_id id ids

unfoldable pub lookup_by_id_locked : ℕ → Store → Option Account
unfolding is_id
lookup_by_id_locked id s = if is_id id s.accounts then some (s.accounts_by_id id) else none

-- The end of takeByIDExcluding: the snapshot, which may recompute the account, and the slot.
unfoldable pub take_slot : ℕ → ℕ → Store → Option ℕ × Store
unfolding fast_scheduler_snapshot try_acquire_account
take_slot id now s =
    let (a, snap) = fast_scheduler_snapshot s.max_concurrency now (s.accounts_by_id id) in
    let s' = record s { accounts_by_id = write s.accounts_by_id id a } in
    if not snap.available || snap.limit == 0
    then (none, s')
    else let (a', taken) = try_acquire_account snap.limit now a in
      if taken
      then (some id, record s { accounts_by_id = write s.accounts_by_id id a' })
      else (none, s')

-- What is behind the test of the cached cooldown, which may have changed the account.
unfoldable pub take_allowed : ℕ → ℕ → Request → Bool × Store → Option ℕ × Store
unfolding account_allowed_for_api_key take_slot
take_allowed id now r (cools, s) =
    if cools
    then (none, s)
    else if account_allowed_for_api_key (s.accounts_by_id id) r.api_key_id s
        && r.filter (s.accounts_by_id id)
    then take_slot id now s
    else (none, s)

unfoldable pub take_by_id_excluding : Codec → ℕ → ℕ → Request → Store → Option ℕ × Store
unfolding lookup_by_id_locked take_allowed account_has_cached_cooldown is_available
take_by_id_excluding c id now r s =
    if id == 0 || r.exclude id then (none, s) else elim (lookup_by_id_locked id s) [
      | none ↦ (none, s)
      | some a ↦
          if is_available now a
          then take_allowed id now r (account_has_cached_cooldown c id now s)
          else (none, s)
    ]
