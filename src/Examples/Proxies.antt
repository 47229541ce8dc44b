-- ===== src/Examples/Proxies.antt =====
-- A pool of two proxies.
use qoder2api.Prelude.{
  ◌%◌, ℕ, ◌≤◌, ◌≡◌, refl, arith, Bool, true, false, List, [], ◌∷◌, some, length,
}
use qoder2api.Prelude.Int.{pos, negsuc}
use qoder2api.Prelude.Text.{codes, text_eq, is}
use qoder2api.Auth.ProxyPool.Entry.{
  ProxyEntry, new_entry, is_status_isolated, is_status_healthy, check_entry,
}
use qoder2api.Auth.ProxyPool.Pool.{
  ProxyPool, default_proxy_pool_config, new_proxy_pool, strategy_weighted, add_proxy, added,
  process_health_check_result, changed, find_entry, change_entry, rebuild_healthy_list,
  config_or_default, change_stats,
}
use qoder2api.Auth.ProxyPool.Selection.{select_weighted, weight_of, select_with_strategy}
use qoder2api.Auth.ProxyPool.Reports.{is_healthy}
use qoder2api.Auth.ProxyPool.Run.{
  PoolOp, op_add, op_success, op_check, op_recover, run, step, IsValid,
}
use qoder2api.Auth.ProxyPool.Valid.{run-IsValid}
use qoder2api.Auth.ProxyPool.Weights.{
  count, sum_weights, sum_weights_of, chosen, count-select_weighted,
}
use qoder2api.Auth.ProxyPool.Turns.{turns_for, count_of, turns_for-length}
use qoder2api.Auth.ProxyPool.Service.{IsChoice, select_with_strategy-IsChoice}
use qoder2api.Auth.ProxyPool.Unhealthy.{unhealthy_at, is_healthy-run}

-- Weights 3 and 0, at the times 1 and 2; then one proxy fails a check.
abbrev two_added : List (ℕ × PoolOp)
two_added =
    (1, op_add (codes "a") (pos 3))
    ∷ (2, op_add (codes "b") (pos 0))
    ∷ (3, op_check (record { url = codes "a"; healthy = false; latency = 5; timestamp = 3 }))
    ∷ []

default_threshold : 1 ≤ default_proxy_pool_config.isolation_threshold
unfolding default_proxy_pool_config
default_threshold = omega arith

abbrev small_pool : ProxyPool
small_pool = run two_added (new_proxy_pool (some default_proxy_pool_config))

run-IsValid_example : IsValid default_proxy_pool_config.isolation_threshold small_pool
run-IsValid_example = run-IsValid default_proxy_pool_config two_added default_threshold

small_pool-IsValid : IsValid default_proxy_pool_config.isolation_threshold small_pool
small_pool-IsValid = run-IsValid default_proxy_pool_config two_added default_threshold

select_with_strategy-IsChoice_example :
    IsChoice small_pool strategy_weighted
      (select_with_strategy (λ n. 0) strategy_weighted small_pool).0
select_with_strategy-IsChoice_example =
    select_with_strategy-IsChoice default_proxy_pool_config.isolation_threshold (λ n. 0)
      strategy_weighted small_pool small_pool-IsValid

abbrev two_entries : List ProxyEntry
two_entries = new_entry (codes "a") (pos 3) ∷ new_entry (codes "b") (negsuc 4) ∷ []

two_weights : sum_weights two_entries ≡ 4
unfolding sum_weights weight_of new_entry
two_weights = refl

abbrev is_a : ProxyEntry → Bool
is_a e = is "a" e.url

count-select_weighted_example :
    count (λ r. chosen is_a (select_weighted (λ n. r % n) two_entries)) 0 (sum_weights two_entries)
    ≡ sum_weights_of is_a two_entries
unfolding sum_weights new_entry
count-select_weighted_example =
    count-select_weighted is_a two_entries (λ r n. r % n) (omega (arith, two_weights))
      (λ r low. omega (arith, two_weights, low))

turns_for-length_example :
    turns_for is_a two_entries 7 (length two_entries) ≡ count_of is_a two_entries
turns_for-length_example = turns_for-length is_a two_entries 7 (omega arith)

a_unhealthy : unhealthy_at (codes "a") small_pool.proxies ≡ true
unfolding unhealthy_at run step new_proxy_pool add_proxy added process_health_check_result changed
    check_entry find_entry change_entry rebuild_healthy_list default_proxy_pool_config
    config_or_default text_eq new_entry is_status_healthy is_status_isolated change_stats
a_unhealthy = refl

abbrev good_run : List (ℕ × PoolOp)
good_run =
    (900, op_success (codes "a"))
    ∷ (901, op_check (record { url = codes "a"; healthy = true; latency = 5; timestamp = 901 }))
    ∷ (902, op_recover)
    ∷ []

is_healthy-run_example : is_healthy (codes "a") (run good_run small_pool) ≡ false
is_healthy-run_example =
    is_healthy-run default_proxy_pool_config.isolation_threshold good_run (codes "a") small_pool
      default_threshold small_pool-IsValid a_unhealthy (refl, (refl, (refl, tt)))
