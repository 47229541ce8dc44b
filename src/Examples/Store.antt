-- ===== src/Examples/Store.antt =====
-- The store's selection and session affinity, on two accounts.
use qoder2api.Prelude.{
  ℕ, ◌+◌, ◌*◌, ◌≡◌, ◌⊎◌, refl, arith, true, false, [], ◌∷◌, none, some, All, find, store, delete,
}
use qoder2api.Prelude.Text.{codes, text_eq, text_key, trim_space}
use qoder2api.Auth.Account.{health_tier_locked, in_cooldown, has_dispatch_credential}
use qoder2api.Auth.Usage.{usage_exhausted, premium5h_rate_limited, quota_auto_paused}
use qoder2api.Auth.Plan.{is_premium5h_plan, is_plus_or_higher_plan}
use qoder2api.Auth.Store.{Store, SessionAffinity, bounded}
use qoder2api.Auth.Store.Cached.{Codec, account_has_cached_cooldown, get_cached_account_cooldown}
use qoder2api.Auth.Store.Selection.{scan}
use qoder2api.Auth.Store.Selection.Argmax.{ranked, NotAbove, In, scan-Argmax}
use qoder2api.Auth.Store.Taking.{take_by_id_excluding, lookup_by_id_locked, take_allowed, take_slot}
use qoder2api.Auth.Store.Affinity.{
  next_for_session_with_filter, bind_session_affinity, drop_binding, get_cached_session_affinity,
  affinity_account_still_healthy,
}
use qoder2api.Auth.Store.Affinity.Counts.{AreBounded, next_for_session_with_filter-AreBounded}
use qoder2api.Auth.Store.Affinity.Reuse.{next_for_session_with_filter-bind_session_affinity}
use qoder2api.Auth.Store.Affinity.Escape.{next_for_session_with_filter-comes_back}
use qoder2api.Auth.Store.Charges.{active, charge, account_of, next_for_session_with_filter-charges}
use qoder2api.Cache.Entries.{fetch}
use qoder2api.Cache.Memory.{second, get_session_affinity, runtime_map_key}
use qoder2api.Examples.Data.{an_account, any_account}

-- Nothing is in the runtime values here, so what is read of them does not matter.
abbrev pub a_codec : Codec
a_codec = record { marshal = λ r. []; unmarshal = λ s. none; format_int = λ n. n ∷ [] }

abbrev a_store : Store
a_store = record {
  accounts = 7 ∷ 8 ∷ [];
  accounts_by_id = an_account;
  max_concurrency = 2;
  group_check = λ _ _. true;
  session_bindings = [];
  affinity_mode = bounded;
  affinity_ttl = 3600 * second;
  token_cache = none;
}

scan-Argmax_example :
    let best =
      (scan 100 any_account (λ _. false) a_store a_store.accounts a_store.accounts_by_id none).0 in
    All
      (λ id. NotAbove (ranked 100 any_account a_store a_store.accounts_by_id id) best)
      a_store.accounts
    × ((best ≡ none)
        ⊎ ((id : ℕ) × In id a_store.accounts
            × (best ≡ ranked 100 any_account a_store a_store.accounts_by_id id)))
scan-Argmax_example = scan-Argmax 100 any_account (λ _. false) a_store ((refl, tt), (tt, tt))

abbrev used_up : SessionAffinity
used_up = record {
  account_id = 7;
  proxy_url = [];
  bound_at = 100;
  request_count = 50;
  expires_at = 100 + 3600 * second;
}

-- The session has made its fifty requests, and the token cache has its binding.
abbrev pub a_session : Store
a_session = record a_store {
  session_bindings = (codes "s", used_up) ∷ [];
  token_cache = some (record {
    tokens = [];
    locks = [];
    sessions =
        (
          codes "s",
          record {
            value = record { account_id = 7; proxy_url = [] };
            expires_at = some (100 + 3600 * second);
          },
        )
        ∷ [];
    responses = [];
    runtime = [];
    pool_size = 1;
  });
}

next_for_session_with_filter-AreBounded_example :
    AreBounded
      (next_for_session_with_filter a_codec (codes "s") 200 any_account (λ _ _. true) a_session).1
next_for_session_with_filter-AreBounded_example =
    next_for_session_with_filter-AreBounded a_codec (codes "s") 200 any_account (λ _ _. true)
      a_session refl (omega arith, tt)

next_for_session_with_filter-bind_session_affinity_example :
    (next_for_session_with_filter a_codec
      (codes "s")
      200
      any_account
      (λ _ _. true)
      (bind_session_affinity (codes "s") 8 (codes " http://p") 100 a_store)).0
    ≡ some (8, trim_space (codes " http://p"))
unfolding trim_space text_eq find affinity_account_still_healthy lookup_by_id_locked
    bind_session_affinity take_by_id_excluding take_allowed take_slot account_has_cached_cooldown
    get_cached_account_cooldown health_tier_locked usage_exhausted in_cooldown
    premium5h_rate_limited is_premium5h_plan quota_auto_paused has_dispatch_credential
    is_plus_or_higher_plan runtime_map_key
next_for_session_with_filter-bind_session_affinity_example =
    next_for_session_with_filter-bind_session_affinity a_codec (codes "s") (codes " http://p") 8 100
      200 any_account (λ _ _. true) a_store refl refl refl (omega arith) (omega arith) refl refl

abbrev from_cache : SessionAffinity
from_cache = record {
  account_id = 7;
  proxy_url = [];
  bound_at = 0;
  request_count = 0;
  expires_at = 200 + 3600 * second;
}

next_for_session_with_filter-comes_back_example :
    let (got, s2) =
      next_for_session_with_filter a_codec (codes "s") 200 any_account (λ _ _. true) a_session in
    (got ≡ some (7, from_cache.proxy_url))
    × (find (trim_space (codes "s")) s2.session_bindings ≡ some from_cache)
    × (from_cache.request_count ≡ 0)
    × (from_cache.bound_at ≡ 0)
unfolding trim_space text_eq find store delete fetch drop_binding get_cached_session_affinity
    get_session_affinity affinity_account_still_healthy lookup_by_id_locked take_by_id_excluding
    take_allowed take_slot account_has_cached_cooldown get_cached_account_cooldown
    health_tier_locked usage_exhausted in_cooldown premium5h_rate_limited is_premium5h_plan
    quota_auto_paused has_dispatch_credential is_plus_or_higher_plan runtime_map_key
next_for_session_with_filter-comes_back_example =
    next_for_session_with_filter-comes_back a_codec (codes "s") 200 any_account (λ _ _. true) 7
      used_up from_cache a_session refl refl refl (omega arith) refl refl refl

next_for_session_with_filter-charges_example :
    let (got, s2) =
      next_for_session_with_filter a_codec (codes "s") 200 any_account (λ _ _. true) a_session in
    active s2 7 ≡ active a_session 7 + charge (account_of got) 7
next_for_session_with_filter-charges_example =
    next_for_session_with_filter-charges a_codec (codes "s") 200 7 any_account (λ _ _. true)
      a_session
