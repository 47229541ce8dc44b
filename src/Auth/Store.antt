-- ===== src/Auth/Store.antt =====
-- auth/store.go: the part of the store that picks an account for a request. Lazy mode is off and the
-- fast scheduler is nil here, so an account is picked by the slow path. The token cache is nil or
-- the one of cache/memory.go. `accountsByID` is a heap of which the ids of `accounts` are in use.
pub mod Cached
pub mod Selection
pub mod Taking
pub mod Affinity
pub mod Charges
pub mod Marks
pub mod Excluded
pub mod Waits
use qoder2api.Prelude.{ℕ, Bool, List, Option}
use qoder2api.Prelude.Text.{Text}
use qoder2api.Auth.Account.{Account}
use qoder2api.Auth.FastScheduler.{Heap}
use qoder2api.Cache.Memory.{MemoryTokenCache}

-- Of a binding that came from the cache, the request count and `bound_at` are 0, the zero time.
pub record SessionAffinity : Type 0 where
  pub account_id : ℕ
  pub proxy_url : Text
  pub bound_at : ℕ
  pub request_count : ℕ
  pub expires_at : ℕ

pub data AffinityMode : Type 0 where
  bounded off strict : AffinityMode

-- `affinity_ttl` is what the environment sets, an hour if nothing. `group_check` is
-- APIKeyAllowsAccount.
pub record Store : Type 0 where
  pub accounts : List ℕ
  pub accounts_by_id : Heap
  pub max_concurrency : ℕ
  pub group_check : ℕ → Account → Bool
  pub session_bindings : List (Text × SessionAffinity)
  pub affinity_mode : AffinityMode
  pub affinity_ttl : ℕ
  pub token_cache : Option MemoryTokenCache
