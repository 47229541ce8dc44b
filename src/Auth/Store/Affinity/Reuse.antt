-- ===== src/Auth/Store/Affinity/Reuse.antt =====
-- A session keeps its account while its binding lasts.
use qoder2api.Prelude.{
  ℕ, ◌+◌, ◌<◌, ◌≡◌, refl, ◌∙◌, arith, Bool, true, false, none, some, ==_iff, find, find-store,
}
use qoder2api.Prelude.Text.{Text, is, text_key, text_eq_refl, trim_space}
use qoder2api.Auth.FastScheduler.Scan.{Request}
use qoder2api.Auth.Store.{Store, SessionAffinity}
use qoder2api.Auth.Store.Cached.{Codec}
use qoder2api.Auth.Store.Taking.{take_by_id_excluding, lookup_by_id_locked}
use qoder2api.Auth.Store.Affinity.{
  bind_session_affinity, new_binding, next_for_session_with_filter, escapes, by_binding,
  affinity_account_still_healthy, default_max_affinity_duration, is_off, count_request,
}
use qoder2api.Auth.Store.Affinity.Kept.{take_by_id_excluding-Kept}

-- A session whose binding is neither over nor left, and whose account can be taken, gets that
-- account and the proxy of the binding, and the binding counts one request more.
pub next_for_session_with_filter-stays :
    (c : Codec) (key : Text) (now : ℕ) (r : Request) (coins : ℕ → ℕ → Bool) (id : ℕ)
    (b : SessionAffinity) (s : Store)
    → let k = trim_space key in
      is "" k ≡ false
      → is_off s.affinity_mode ≡ false
      → find k s.session_bindings ≡ some b
      → now < b.expires_at
      → escapes now b s ≡ false
      → (take_by_id_excluding c b.account_id now r s).0 ≡ some id
      → let (got, s') = next_for_session_with_filter c key now r coins s in
        (got ≡ some (id, b.proxy_url))
        × (find k s'.session_bindings ≡ some (record b { request_count = b.request_count + 1 }))
unfolding next_for_session_with_filter by_binding count_request
next_for_session_with_filter-stays c key now r coins id b s named on hit lasts stays got =
    let k = trim_space key in
    let kept = take_by_id_excluding-Kept c b.account_id now r s in
    ground (
      arith,
      named,
      on,
      hit,
      stays,
      got,
      kept.bindings,
      ==_iff b.account_id b.account_id,
      find-store k k (record b { request_count = b.request_count + 1 }) s.session_bindings,
      text_eq_refl k,
    )

bind-find :
    (key : Text) (account_id : ℕ) (proxy_url : Text) (now : ℕ) (s : Store)
    → let k = trim_space key in
      is "" k ≡ false
      → let s' = bind_session_affinity key account_id proxy_url now s in
        (find k s'.session_bindings
          ≡ some (new_binding account_id proxy_url now (find k s.session_bindings) s))
        × (s'.affinity_mode ≡ s.affinity_mode)
        × (s'.accounts ≡ s.accounts)
        × (s'.accounts_by_id ≡ s.accounts_by_id)
unfolding bind_session_affinity
bind-find key account_id proxy_url now s named =
    let k = trim_space key in
    let set =
      find-store k k (new_binding account_id proxy_url now (find k s.session_bindings) s)
        s.session_bindings in
    (
      ground (arith, named, set, text_eq_refl k),
      ground (arith, named),
      ground (arith, named),
      ground (arith, named),
    )

healthy-same :
    (account_id : ℕ) (s s' : Store)
    → s'.accounts ≡ s.accounts
    → s'.accounts_by_id ≡ s.accounts_by_id
    → affinity_account_still_healthy account_id s' ≡ affinity_account_still_healthy account_id s
unfolding affinity_account_still_healthy lookup_by_id_locked
healthy-same account_id s s' e f = rw (e, f) refl

first-escapes :
    (account_id : ℕ) (proxy_url : Text) (now later : ℕ) (s s' : Store)
    → later < now + default_max_affinity_duration
    → affinity_account_still_healthy account_id s' ≡ true
    → escapes later (new_binding account_id proxy_url now none s) s' ≡ false
unfolding escapes new_binding
first-escapes account_id proxy_url now later s s' soon well = ground (arith, well)

-- A new session is bound to an account and asks again within the time to live and five minutes: it
-- gets the account and the proxy it was bound to, if affinity is on, the account is still healthy and
-- it can be taken.
pub next_for_session_with_filter-bind_session_affinity :
    (c : Codec) (key proxy_url : Text) (account_id now later : ℕ) (r : Request)
    (coins : ℕ → ℕ → Bool) (s : Store)
    → let k = trim_space key in
      let s' = bind_session_affinity key account_id proxy_url now s in
      is "" k ≡ false
      → is_off s.affinity_mode ≡ false
      → find k s.session_bindings ≡ none
      → later < now + s.affinity_ttl
      → later < now + default_max_affinity_duration
      → affinity_account_still_healthy account_id s ≡ true
      → (take_by_id_excluding c account_id later r s').0 ≡ some account_id
      → (next_for_session_with_filter c key later r coins s').0
        ≡ some (account_id, trim_space proxy_url)
unfolding new_binding
next_for_session_with_filter-bind_session_affinity c key proxy_url account_id now later r coins s
      named on new lasts soon well got =
    let k = trim_space key in
    let s' = bind_session_affinity key account_id proxy_url now s in
    let b = new_binding account_id proxy_url now none s in
    let (found, mode, ids, heap) = bind-find key account_id proxy_url now s named in
    (next_for_session_with_filter-stays c key later r coins account_id b s' named
      (ground (arith, mode, on)) (ground (arith, found, new)) lasts
      (first-escapes account_id proxy_url now later s s' soon
        (healthy-same account_id s s' ids heap ∙ well))
      got).0
