-- ===== src/Auth/Store/Affinity/Escape.antt =====
-- What becomes of a binding that has served its number of requests.
use qoder2api.Prelude.{ℕ, ◌≤◌, ◌≡◌, arith, Bool, true, false, none, some, find, find-store}
use qoder2api.Prelude.Text.{Text, is, text_key, text_eq_refl, trim_space}
use qoder2api.Auth.FastScheduler.Scan.{Request}
use qoder2api.Auth.Store.{Store, SessionAffinity, bounded}
use qoder2api.Auth.Store.Cached.{Codec}
use qoder2api.Auth.Store.Taking.{take_by_id_excluding}
use qoder2api.Auth.Store.Affinity.{
  next_for_session_with_filter, drop_binding, escapes, by_binding, by_cache, is_unhealthy,
  affinity_account_still_healthy, get_cached_session_affinity, default_max_affinity_requests,
}

by_binding_over :
    (c : Codec) (k : Text) (now : ℕ) (r : Request) (b : SessionAffinity) (s : Store)
    → find k s.session_bindings ≡ some b
    → s.affinity_mode ≡ bounded
    → default_max_affinity_requests ≤ b.request_count
    → by_binding c k now r s ≡ (none, drop_binding k b.account_id s)
unfolding by_binding escapes
by_binding_over c k now r b s hit m over = ground (arith, hit, m, over)

get_cached_session_affinity-zero :
    (k : Text) (now : ℕ) (b : SessionAffinity) (s : Store)
    → (get_cached_session_affinity k now s).0 ≡ some b
    → (b.request_count ≡ 0) × (b.bound_at ≡ 0)
unfolding get_cached_session_affinity
get_cached_session_affinity-zero k now b s h = ground arith

by_cache_back :
    (c : Codec) (k : Text) (now : ℕ) (r : Request) (cached : SessionAffinity) (id : ℕ) (s : Store)
    → let (found, s1) = get_cached_session_affinity k now s in
      found ≡ some cached
      → affinity_account_still_healthy cached.account_id s1 ≡ true
      → (take_by_id_excluding c cached.account_id now r s1).0 ≡ some id
      → ((by_cache c k now r s).0 ≡ some (id, cached.proxy_url))
        × (find k (by_cache c k now r s).1.session_bindings ≡ some cached)
unfolding by_cache is_unhealthy
by_cache_back c k now r cached id s hit well got =
    let s1 = (get_cached_session_affinity k now s).1 in
    let s2 = (take_by_id_excluding c cached.account_id now r s1).1 in
    ground (arith, hit, well, got, find-store k k cached s2.session_bindings, text_eq_refl k)

-- In bounded mode, a session that has used up its binding gets the account of the binding that the
-- token cache still has for it, if that account is healthy and can be taken: no account is picked anew,
-- and the session has the binding of the cache, which begins at a count of 0 and without a time.
pub next_for_session_with_filter-comes_back :
    (c : Codec) (key : Text) (now : ℕ) (r : Request) (coins : ℕ → ℕ → Bool) (id : ℕ)
    (b cached : SessionAffinity) (s : Store)
    → let k = trim_space key in
      let (found, s1) = get_cached_session_affinity k now (drop_binding k b.account_id s) in
      is "" k ≡ false
      → find k s.session_bindings ≡ some b
      → s.affinity_mode ≡ bounded
      → default_max_affinity_requests ≤ b.request_count
      → found ≡ some cached
      → affinity_account_still_healthy cached.account_id s1 ≡ true
      → (take_by_id_excluding c cached.account_id now r s1).0 ≡ some id
      → let (got, s2) = next_for_session_with_filter c key now r coins s in
        (got ≡ some (id, cached.proxy_url))
        × (find k s2.session_bindings ≡ some cached)
        × (cached.request_count ≡ 0)
        × (cached.bound_at ≡ 0)
unfolding next_for_session_with_filter
next_for_session_with_filter-comes_back c key now r coins id b cached s named hit m over found well
      got =
    let k = trim_space key in
    let gone = drop_binding k b.account_id s in
    let (back, bound) = by_cache_back c k now r cached id gone found well got in
    let (count, time) = get_cached_session_affinity-zero k now cached gone found in
    let none' = by_binding_over c k now r b s hit m over in
    (
      ground (arith, named, m, none', back),
      ground (arith, named, m, none', back, bound),
      count,
      time,
    )
