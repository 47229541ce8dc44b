-- ===== src/Auth/Store/Affinity.antt =====
-- auth/store.go: session affinity. A session key is bound to the account that served it; the next
-- request of the session takes that account again, until the binding is over.
pub mod Kept
pub mod Counts
pub mod Escape
pub mod Reuse
use qoder2api.Prelude.{
  ℕ, ◌+◌, ◌-◌, ◌*◌, Bool, true, false, not, ◌&&◌, ◌||◌, List, [], ◌∷◌, Option, none, some,
  if◌then◌else◌, leb, ltb, ◌==◌, find, store, delete,
}
use qoder2api.Prelude.Text.{Text, is, text_eq, text_key, trim_space}
use qoder2api.Auth.Account.{
  Account, healthy, tier_eq, is_error, is_cooldown, health_tier_locked, minute,
}
use qoder2api.Auth.Availability.{is_available, fast_scheduler_snapshot, try_acquire_account}
use qoder2api.Auth.FastScheduler.{write}
use qoder2api.Auth.FastScheduler.Scan.{Request}
use qoder2api.Auth.Store.{Store, SessionAffinity, AffinityMode, bounded, off, strict}
use qoder2api.Auth.Store.Cached.{Codec, account_has_cached_cooldown}
use qoder2api.Auth.Store.Selection.{account_allowed_for_api_key, next_excluding_with_filter}
use qoder2api.Auth.Store.Taking.{lookup_by_id_locked, take_by_id_excluding}
use qoder2api.Cache.Memory.{
  SessionAffinityBinding, set_session_affinity, get_session_affinity, delete_session_affinity,
}

abbrev pub default_max_affinity_requests : ℕ
default_max_affinity_requests = 50

abbrev pub default_max_affinity_duration : ℕ
default_max_affinity_duration = 5 * minute

-- A binding of the same account goes on with its time and count.
unfoldable pub new_binding : ℕ → Text → ℕ → Option SessionAffinity → Store → SessionAffinity
unfolding trim_space
new_binding account_id proxy_url now existing s =
    let fresh : SessionAffinity = record {
      account_id = account_id;
      proxy_url = trim_space proxy_url;
      bound_at = now;
      request_count = 0;
      expires_at = now + s.affinity_ttl;
    } in
    elim existing [
      | none ↦ fresh
      | some b ↦
          if b.account_id == account_id
          then record fresh { bound_at = b.bound_at; request_count = b.request_count }
          else fresh
    ]

unfoldable pub bind_session_affinity : Text → ℕ → Text → ℕ → Store → Store
unfolding new_binding text_eq set_session_affinity
bind_session_affinity key account_id proxy_url now s =
    let k = trim_space key in
    let b = new_binding account_id proxy_url now (find k s.session_bindings) s in
    let s' = record s { session_bindings = store k b s.session_bindings } in
    if is "" k then s else elim s.token_cache [
      | none ↦ s'
      | some tc ↦ record s' {
        token_cache = some (
            set_session_affinity k (record { account_id = b.account_id; proxy_url = b.proxy_url })
              s.affinity_ttl now tc);
      }
    ]

-- if current, exists := ...; exists && current.accountID == accountID { delete(...) }
unfoldable pub drop_binding : Text → ℕ → Store → Store
drop_binding k account_id s = elim (find k s.session_bindings) [
  | none ↦ s
  | some b ↦
      if b.account_id == account_id
      then record s { session_bindings = delete k s.session_bindings }
      else s
]

unfoldable pub unbind_session_affinity : Text → ℕ → Store → Store
unfolding drop_binding text_eq delete_session_affinity
unbind_session_affinity key account_id s =
    let k = trim_space key in
    let s' = drop_binding k account_id s in
    if account_id == 0 || is "" k then s else elim s.token_cache [
      | none ↦ s'
      | some tc ↦ record s' { token_cache = some (delete_session_affinity k account_id tc) }
    ]

unfoldable pub affinity_account_still_healthy : ℕ → Store → Bool
unfolding lookup_by_id_locked is_error is_cooldown tier_eq
affinity_account_still_healthy account_id s =
    if account_id == 0 then false else elim (lookup_by_id_locked account_id s) [
      | none ↦ false
      | some a ↦
          if a.disabled || a.dispatch_paused
          then false
          else if is_error a.status || is_cooldown a.status
          then false
          else tier_eq (health_tier_locked a) healthy
    ]

unfoldable pub get_cached_session_affinity : Text → ℕ → Store → Option SessionAffinity × Store
unfolding get_session_affinity trim_space
get_cached_session_affinity key now s = elim s.token_cache [
  | none ↦ (none, s)
  | some tc ↦
      let (found, tc') = get_session_affinity key now tc in
      let s' = record s { token_cache = some tc' } in
      elim found [
        | none ↦ (none, s')
        | some b ↦ if b.account_id == 0 then (none, s') else (
          some (record {
            account_id = b.account_id;
            proxy_url = trim_space b.proxy_url;
            bound_at = 0;
            request_count = 0;
            expires_at = now + s.affinity_ttl;
          }),
          s',
        )
      ]
]

-- The mode's own reasons to leave a binding.
unfoldable pub escapes : ℕ → SessionAffinity → Store → Bool
unfolding affinity_account_still_healthy
escapes now b s = elim s.affinity_mode [
  | bounded ↦
      if leb default_max_affinity_requests b.request_count
      then true
      else if not (b.bound_at == 0) && leb default_max_affinity_duration (now - b.bound_at)
      then true
      else not (affinity_account_still_healthy b.account_id s)
  | off ↦ false
  | strict ↦ false
]

-- if current, exists := ...; exists && current.accountID == binding.accountID { current.requestCount++ }
unfoldable pub count_request : Text → ℕ → Store → Store
count_request k account_id s = elim (find k s.session_bindings) [
  | none ↦ s
  | some b ↦
      if b.account_id == account_id
      then record s {
        session_bindings =
            store k (record b { request_count = b.request_count + 1 }) s.session_bindings;
      }
      else s
]

-- A step of NextForSessionWithFilter: the account and its proxy, or the store to go on with.
abbrev pub Step : Type 0
Step = Option (ℕ × Text) × Store

unfoldable pub by_binding : Codec → Text → ℕ → Request → Store → Step
unfolding drop_binding escapes count_request take_by_id_excluding
by_binding c k now r s = elim (find k s.session_bindings) [
  | none ↦ (none, s)
  | some b ↦
      if not (ltb now b.expires_at) || escapes now b s
      then (none, drop_binding k b.account_id s)
      else let (got, s') = take_by_id_excluding c b.account_id now r s in
        elim got [
          | none ↦ (none, s')
          | some id ↦ (some (id, b.proxy_url), count_request k b.account_id s')
        ]
]

-- mode == AffinityModeBounded && !s.affinityAccountStillHealthy(binding.accountID)
unfoldable pub is_unhealthy : ℕ → Store → Bool
unfolding affinity_account_still_healthy
is_unhealthy account_id s = elim s.affinity_mode [
  | bounded ↦ not (affinity_account_still_healthy account_id s)
  | off ↦ false
  | strict ↦ false
]

unfoldable pub by_cache : Codec → Text → ℕ → Request → Store → Step
unfolding get_cached_session_affinity take_by_id_excluding is_unhealthy
by_cache c k now r s =
    let (found, s1) = get_cached_session_affinity k now s in
    elim found [
      | none ↦ (none, s1)
      | some b ↦
          if is_unhealthy b.account_id s1
          then (none, s1)
          else let (got, s2) = take_by_id_excluding c b.account_id now r s1 in
            elim got [
              | none ↦ (none, s2)
              | some id ↦ (
                some (id, b.proxy_url),
                record s2 { session_bindings = store k b s2.session_bindings },
              )
            ]
    ]

abbrev pub is_off : AffinityMode → Bool
is_off off = true
is_off _ = false

unfoldable pub by_selection :
    Codec → ℕ → Request → (ℕ → ℕ → Bool) → Store → Option (ℕ × Text) × Store
unfolding next_excluding_with_filter
by_selection c now r coins s =
    let (got, s') = next_excluding_with_filter c now r coins s in
    (elim got [ none ↦ none | some id ↦ some (id, []) ], s')

abbrev pub unless_taken : Step → (Store → Step) → Step
unless_taken (none, s) rest = rest s
unless_taken (some x, s) rest = (some x, s)

-- `none` for a nil account, whose proxy is the empty text.
unfoldable pub next_for_session_with_filter :
    Codec → Text → ℕ → Request → (ℕ → ℕ → Bool) → Store → Option (ℕ × Text) × Store
unfolding text_eq by_binding by_cache by_selection
next_for_session_with_filter c key now r coins s =
    let k = trim_space key in
    if is "" k || is_off s.affinity_mode
    then by_selection c now r coins s
    else unless_taken (by_binding c k now r s)
        (λ s1. unless_taken (by_cache c k now r s1) (λ s2. by_selection c now r coins s2))
