-- ===== src/Auth/ProxyPool/Reports.antt =====
-- auth/proxy_pool.go: what the pool tells of itself, and the names of the strategies.
use qoder2api.Prelude.{
  ℕ, suc, ◌+◌, Bool, false, ◌||◌, List, [], ◌∷◌, map, none, some, if◌then◌else◌, ltb, ◌==◌, length,
}
use qoder2api.Prelude.Int.{ℤ, sub_ℕ}
use qoder2api.Prelude.Text.{Text, codes, text_eq, is}
use qoder2api.Auth.ProxyPool.Entry.{ProxyEntry, ProxyStats, is_status_isolated, stats_of}
use qoder2api.Auth.ProxyPool.Pool.{
  ProxyPool, ProxySelectionStrategy, strategy_round_robin, strategy_weighted,
  strategy_least_connections, find_entry,
}

-- The statistics of each URL, renewed from its entry where there is one.
unfoldable pub get_stats_from :
    List ProxyEntry → List (Text × ProxyStats) → List (Text × ProxyStats)
unfolding find_entry stats_of
get_stats_from es [] = []
get_stats_from es ((u, s) ∷ m) =
    let rest = get_stats_from es m in
    elim (find_entry u es) [ none ↦ (u, s) ∷ rest | some e ↦ (u, stats_of s.url e) ∷ rest ]

unfoldable pub get_stats : ProxyPool → List (Text × ProxyStats)
unfolding get_stats_from
get_stats p = get_stats_from p.proxies p.stats

unfoldable pub count_isolated : List ProxyEntry → ℕ
unfolding is_status_isolated
count_isolated [] = 0
count_isolated (e ∷ es) =
    let rest = count_isolated es in if is_status_isolated e.status then suc rest else rest

unfoldable pub strategy_string : ProxySelectionStrategy → Text
strategy_string strategy_round_robin = codes "round_robin"
strategy_string strategy_weighted = codes "weighted"
strategy_string strategy_least_connections = codes "least_connections"

unfoldable pub parse_strategy : Text → ProxySelectionStrategy
unfolding text_eq
parse_strategy s =
    if is "weighted" s
    then strategy_weighted
    else if is "least_connections" s
    then strategy_least_connections
    else strategy_round_robin

pub record ProxyPoolStatus : Type 0 where
  pub total : ℕ
  pub healthy : ℕ
  pub unhealthy : ℤ
  pub isolated : ℕ
  pub strategy : Text
  pub check_interval : ℕ
  pub last_updated : ℕ

unfoldable pub get_pool_status : ℕ → ProxyPool → ProxyPoolStatus
unfolding count_isolated strategy_string
get_pool_status now p = record {
  total = length p.proxies;
  healthy = length p.healthy;
  unhealthy = sub_ℕ (length p.proxies) (length p.healthy + count_isolated p.proxies);
  isolated = count_isolated p.proxies;
  strategy = strategy_string p.strategy;
  check_interval = p.check_interval;
  last_updated = now;
}

unfoldable pub get_healthy_proxies : ProxyPool → List Text
get_healthy_proxies p = p.healthy

unfoldable pub get_all_proxies : ProxyPool → List Text
get_all_proxies p = map (λ e. e.url) p.proxies

unfoldable pub holds : Text → List Text → Bool
unfolding text_eq
holds u [] = false
holds u (v ∷ vs) = text_eq v u || holds u vs

unfoldable pub is_healthy : Text → ProxyPool → Bool
unfolding holds
is_healthy u p = holds u p.healthy

unfoldable pub size : ProxyPool → ℕ
size p = length p.proxies

unfoldable pub healthy_size : ProxyPool → ℕ
healthy_size p = length p.healthy

unfoldable pub is_empty : ProxyPool → Bool
unfolding size
is_empty p = size p == 0

unfoldable pub has_healthy_proxy : ProxyPool → Bool
unfolding healthy_size
has_healthy_proxy p = ltb 0 (healthy_size p)
