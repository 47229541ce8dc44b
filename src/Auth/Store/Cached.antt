-- ===== src/Auth/Store/Cached.antt =====
-- auth/store.go: the cooldowns of accounts that processes share through the token cache. What the
-- code takes from encoding/json and strconv is a parameter.
use qoder2api.Prelude.{
  ℕ, ◌-◌, Bool, true, false, not, ◌||◌, [], Option, none, some, if◌then◌else◌, ltb, ◌==◌,
}
use qoder2api.Prelude.Text.{Text, is, codes, text_eq, trim_space}
use qoder2api.Auth.Account.{
  Account, cooldown, healthy, warm, risky, banned, tier_eq, health_tier_locked,
}
use qoder2api.Auth.FastScheduler.{write}
use qoder2api.Auth.Recompute.{recompute_scheduler}
use qoder2api.Auth.Store.{Store}
use qoder2api.Cache.Memory.{set_runtime, get_runtime, delete_runtime}

pub record RuntimeCooldownRecord : Type 0 where
  pub model : Text
  pub reason : Text
  pub reset_at : ℕ
  pub updated_at : ℕ
  pub backoff_level : ℕ

-- json.Marshal and json.Unmarshal of the record, and strconv.FormatInt.
pub record Codec : Type 0 where
  pub marshal : RuntimeCooldownRecord → Text
  pub unmarshal : Text → Option RuntimeCooldownRecord
  pub format_int : ℕ → Text

unfoldable pub normalize_cooldown_reason : Text → Text
unfolding trim_space text_eq
normalize_cooldown_reason reason =
    if is "" (trim_space reason) then codes "rate_limited" else trim_space reason

-- `none` if the time is zero or not in the future.
unfoldable pub cooldown_ttl : ℕ → ℕ → Option ℕ
cooldown_ttl reset_at now =
    if reset_at == 0 then none else if ltb now reset_at then some (reset_at - now) else none

abbrev pub namespace : Text
namespace = codes "account-cooldown"

unfoldable pub delete_cached_account_cooldown : Codec → ℕ → Store → Store
unfolding delete_runtime
delete_cached_account_cooldown c account_id s = elim s.token_cache [
  | none ↦ s
  | some tc ↦
      if account_id == 0
      then s
      else record s { token_cache = some (delete_runtime namespace (c.format_int account_id) tc) }
]

unfoldable pub set_cached_account_cooldown : Codec → ℕ → Text → ℕ → ℕ → Store → Store
unfolding set_runtime cooldown_ttl normalize_cooldown_reason
set_cached_account_cooldown c account_id reason reset_at now s =
    let payload = c.marshal (record {
      model = [];
      reason = normalize_cooldown_reason reason;
      reset_at = reset_at;
      updated_at = now;
      backoff_level = 0;
    }) in
    elim s.token_cache [
      | none ↦ s
      | some tc ↦ if account_id == 0 then s else elim (cooldown_ttl reset_at now) [
        | none ↦ s
        | some ttl ↦ record s {
          token_cache = some (set_runtime namespace (c.format_int account_id) payload ttl now tc);
        }
      ]
    ]

-- What is done with the payload that the cache gave.
unfoldable pub read_record : Codec → ℕ → ℕ → Text → Store → Option RuntimeCooldownRecord × Store
unfolding delete_cached_account_cooldown normalize_cooldown_reason
read_record c account_id now payload s = elim (c.unmarshal payload) [
  | none ↦ (none, delete_cached_account_cooldown c account_id s)
  | some r ↦
      if ltb now r.reset_at
      then (some (record r { reason = normalize_cooldown_reason r.reason }), s)
      else (none, delete_cached_account_cooldown c account_id s)
]

unfoldable pub get_cached_account_cooldown :
    Codec → ℕ → ℕ → Store → Option RuntimeCooldownRecord × Store
unfolding get_runtime read_record text_eq
get_cached_account_cooldown c account_id now s = elim s.token_cache [
  | none ↦ (none, s)
  | some tc ↦
      if account_id == 0
      then (none, s)
      else let (found, tc') = get_runtime namespace (c.format_int account_id) now tc in
        let s' = record s { token_cache = some tc' } in
        elim found [
          | none ↦ (none, s')
          | some payload ↦
              if is "" payload then (none, s') else read_record c account_id now payload s'
        ]
]

-- The account as `applyCachedAccountCooldown` leaves it, before the scheduler is recomputed.
unfoldable pub cooled : RuntimeCooldownRecord → ℕ → Account → Account
unfolding normalize_cooldown_reason text_eq tier_eq
cooled r now a =
    let reason = normalize_cooldown_reason r.reason in
    let a' = record a { status = cooldown; cooldown_util = r.reset_at; cooldown_reason = reason } in
    if is "unauthorized" reason
    then record a' { last_unauthorized_at = now; last_failure_at = now; health_tier = banned }
    else if is "rate_limited" reason || (is "usage_limited" reason || is "usage_limit" reason)
    then record a' {
      last_rate_limited_at = now;
      last_failure_at = now;
      health_tier =
          if tier_eq (health_tier_locked a') healthy
          then warm
          else if not (tier_eq a'.health_tier banned)
          then risky
          else a'.health_tier;
    }
    else a'

unfoldable pub apply_cached_account_cooldown : ℕ → RuntimeCooldownRecord → ℕ → Store → Store
unfolding cooled
apply_cached_account_cooldown id r now s =
    if ltb now r.reset_at
    then record s {
      accounts_by_id =
          write s.accounts_by_id id
            (recompute_scheduler s.max_concurrency now (cooled r now (s.accounts_by_id id)));
    }
    else s

unfoldable pub account_has_cached_cooldown : Codec → ℕ → ℕ → Store → Bool × Store
unfolding get_cached_account_cooldown apply_cached_account_cooldown
account_has_cached_cooldown c id now s =
    let (found, s') = get_cached_account_cooldown c id now s in
    elim found [ none ↦ (false, s') | some r ↦ (true, apply_cached_account_cooldown id r now s') ]
