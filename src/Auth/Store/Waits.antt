-- ===== src/Auth/Store/Waits.antt =====
-- auth/store.go: WaitForSessionAvailableWithFilter, which asks again and again for an account.
use qoder2api.Prelude.{
  ℕ, Bool, true, false, not, ◌&&◌, ◌||◌, List, [], ◌∷◌, none, some, if◌then◌else◌, ltb,
}
use qoder2api.Prelude.Text.{Text}
use qoder2api.Auth.Recompute.{recompute_scheduler}
use qoder2api.Auth.Availability.{is_available}
use qoder2api.Auth.FastScheduler.{write}
use qoder2api.Auth.FastScheduler.Scan.{Request}
use qoder2api.Auth.Store.{Store}
use qoder2api.Auth.Store.Cached.{Codec, account_has_cached_cooldown}
use qoder2api.Auth.Store.Selection.{account_allowed_for_api_key}
use qoder2api.Auth.Store.Affinity.{Step, next_for_session_with_filter}

-- What is behind the test of the cached cooldown: the snapshot recomputes the account.
unfoldable pub has_limit : ℕ → ℕ → Request → Bool × Store → Bool × Store
unfolding account_allowed_for_api_key
has_limit id now r (cools, s) =
    let a = s.accounts_by_id id in
    let a' = recompute_scheduler s.max_concurrency now a in
    if cools || not (account_allowed_for_api_key a r.api_key_id s && r.filter a)
    then (false, s)
    else (
      ltb 0 a'.dynamic_concurrency_limit,
      record s { accounts_by_id = write s.accounts_by_id id a' },
    )

unfoldable pub is_dispatch_candidate : Codec → ℕ → ℕ → Request → Store → Bool × Store
unfolding is_available account_has_cached_cooldown has_limit
is_dispatch_candidate c id now r s =
    if r.exclude id || not (is_available now (s.accounts_by_id id))
    then (false, s)
    else has_limit id now r (account_has_cached_cooldown c id now s)

-- The loop over the accounts.
unfoldable pub has_candidate_from : Codec → ℕ → Request → List ℕ → Store → Bool × Store
unfolding is_dispatch_candidate
has_candidate_from c now r [] s = (false, s)
has_candidate_from c now r (id ∷ ids) s =
    let (found, s') = is_dispatch_candidate c id now r s in
    let rest = has_candidate_from c now r ids s' in if found then (true, s') else rest

unfoldable pub has_dispatch_candidate_with_filter : Codec → ℕ → Request → Store → Bool × Store
unfolding has_candidate_from
has_dispatch_candidate_with_filter c now r s = has_candidate_from c now r s.accounts s

-- A round of the loop: what others did to the store before it, its time and its coins.
pub record Round : Type 0 where
  pub others : Store → Store
  pub at : ℕ
  pub coins : ℕ → ℕ → Bool

-- The rounds up to the deadline or the end of the context.
unfoldable pub wait_rounds : Codec → Text → Request → List Round → Store → Step
unfolding next_for_session_with_filter has_dispatch_candidate_with_filter
wait_rounds c key r [] s = (none, s)
wait_rounds c key r (x ∷ rounds) s =
    let (got, s1) = next_for_session_with_filter c key x.at r x.coins (x.others s) in
    let (left, s2) = has_dispatch_candidate_with_filter c x.at r s1 in
    let rest = wait_rounds c key r rounds s2 in
    elim got [ some y ↦ (some y, s1) | none ↦ if left then rest else (none, s2) ]

unfoldable pub wait_for_session_available_with_filter :
    Codec → Text → ℕ → Request → List Round → Store → Step
unfolding has_dispatch_candidate_with_filter wait_rounds
wait_for_session_available_with_filter c key now r rounds s =
    let (left, s') = has_dispatch_candidate_with_filter c now r s in
    let waited = wait_rounds c key r rounds s' in if left then waited else (none, s')
