-- ===== src/Auth/ProxyPool/Run.antt =====
-- Runs of the pool's operations, and what they keep.
use qoder2api.Prelude.{ℕ, ◌≡◌, refl, arith, List, [], ◌∷◌, All}
use qoder2api.Prelude.Int.{ℤ}
use qoder2api.Prelude.Text.{Text}
use qoder2api.Auth.ProxyPool.Entry.{ProxyEntry, HealthCheckResult, is_usable}
use qoder2api.Auth.ProxyPool.Pool.{
  ProxyPool, ProxySelectionStrategy, change_entry, usable_urls, add_proxy, remove_proxy,
  update_proxy_weight, mark_success, mark_failure, process_health_check_result, acquire_connection,
  release_connection, recover_isolated_proxies, set_strategy,
}
use qoder2api.Auth.ProxyPool.Selection.{select_with_strategy}
use qoder2api.Auth.ProxyPool.Entries.{AreDistinct}
use qoder2api.Auth.ProxyPool.Health.{EntryIsValid}

-- The operations that change the pool.
pub data PoolOp : Type 0 where
  op_add : Text → ℤ → PoolOp
  op_remove : Text → PoolOp
  op_weight : Text → ℤ → PoolOp
  op_success : Text → PoolOp
  op_failure : Text → PoolOp
  op_check : HealthCheckResult → PoolOp
  op_acquire : Text → PoolOp
  op_release : Text → PoolOp
  op_recover : PoolOp
  op_strategy : ProxySelectionStrategy → PoolOp
  op_select : (ℕ → ℕ) → ProxySelectionStrategy → PoolOp

-- The time is that of the operation's clock.
unfoldable pub step : ℕ → PoolOp → ProxyPool → ProxyPool
unfolding add_proxy remove_proxy update_proxy_weight mark_success mark_failure
    process_health_check_result acquire_connection release_connection recover_isolated_proxies
    set_strategy select_with_strategy
step now (op_add u w) p = add_proxy u w p
step now (op_remove u) p = remove_proxy u p
step now (op_weight u w) p = update_proxy_weight u w p
step now (op_success u) p = mark_success u p
step now (op_failure u) p = mark_failure now u p
step now (op_check r) p = process_health_check_result now r p
step now (op_acquire u) p = (acquire_connection u p).1
step now (op_release u) p = release_connection u p
step now op_recover p = recover_isolated_proxies now p
step now (op_strategy s) p = set_strategy s p
step now (op_select draw s) p = (select_with_strategy draw s p).1

unfoldable pub run : List (ℕ × PoolOp) → ProxyPool → ProxyPool
unfolding step
run [] p = p
run ((now, o) ∷ os) p = run os (step now o p)

-- URLs are distinct, the list of healthy proxies holds exactly the URLs of the proxies in service,
-- in their order, and every entry is valid.
pub record IsValid (threshold : ℕ) (p : ProxyPool) : Type 0 where
  pub threshold_ok : p.isolation_threshold ≡ threshold
  pub distinct : AreDistinct p.proxies
  pub healthy_ok : p.healthy ≡ usable_urls p.proxies
  pub entries : All (EntryIsValid threshold) p.proxies

-- A change that keeps the URL and whether the proxy is in service keeps the list.
pub usable_urls-change_entry :
    (f : ProxyEntry → ProxyEntry)
    → ((e : ProxyEntry) → (f e).url ≡ e.url)
    → ((e : ProxyEntry) → is_usable (f e) ≡ is_usable e)
    → (u : Text) (es : List ProxyEntry) → usable_urls (change_entry f u es) ≡ usable_urls es
unfolding usable_urls change_entry
usable_urls-change_entry f same_url same u [] = refl
usable_urls-change_entry f same_url same u (e ∷ es) =
    ground (arith, same_url e, same e, usable_urls-change_entry f same_url same u es)
