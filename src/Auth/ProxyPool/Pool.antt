-- ===== src/Auth/ProxyPool/Pool.antt =====
-- auth/proxy_pool.go: the pool and its operations. The code's list of healthy proxies points into
-- the list of all of them; here it holds their URLs, which name one proxy each. A mark looks the
-- entry up, changes it, writes its statistics and makes the list of healthy proxies again, as one
-- step. The callbacks are left out, and so are the requests of the health check itself: its
-- results come in as a list.
use qoder2api.Prelude.{
  ℕ, Bool, true, false, List, [], ◌∷◌, ◌++◌, map, Option, none, some, if◌then◌else◌,
}
use qoder2api.Prelude.{find, store, delete}
use qoder2api.Prelude.Int.{ℤ}
use qoder2api.Prelude.Text.{Text, codes, text_eq, is, text_key}
use qoder2api.Auth.ProxyPool.Entry.{
  ProxyEntry, ProxyStats, HealthCheckResult, is_usable, new_entry, new_stats, mark_success_entry,
  mark_failure_entry, check_entry, recover_entry, is_acquirable, acquire_entry, release_entry,
  marked_stats, checked_stats,
}

pub data ProxySelectionStrategy : Type 0 where
  strategy_round_robin : ProxySelectionStrategy
  strategy_weighted : ProxySelectionStrategy
  strategy_least_connections : ProxySelectionStrategy

pub record ProxyPoolConfig : Type 0 where
  pub strategy : ProxySelectionStrategy
  pub check_interval : ℕ
  pub timeout : ℕ
  pub isolation_threshold : ℕ
  pub isolation_duration : ℕ
  pub health_check_url : Text

unfoldable pub default_proxy_pool_config : ProxyPoolConfig
default_proxy_pool_config = record {
  strategy = strategy_round_robin;
  check_interval = 30_000_000_000;
  timeout = 10_000_000_000;
  isolation_threshold = 3;
  isolation_duration = 300_000_000_000;
  health_check_url = codes "http://www.google.com/generate_204";
}

pub record ProxyPool : Type 0 where
  pub proxies : List ProxyEntry
  pub stats : List (Text × ProxyStats)
  pub healthy : List Text
  pub strategy : ProxySelectionStrategy
  pub round_robin_idx : ℕ
  pub check_interval : ℕ
  pub timeout : ℕ
  pub isolation_threshold : ℕ
  pub isolation_duration : ℕ
  pub health_check_url : Text

unfoldable pub config_or_default : Option ProxyPoolConfig → ProxyPoolConfig
unfolding default_proxy_pool_config
config_or_default none = default_proxy_pool_config
config_or_default (some c) = c

unfoldable pub new_proxy_pool : Option ProxyPoolConfig → ProxyPool
unfolding config_or_default
new_proxy_pool config =
    let c = config_or_default config in
    record {
      proxies = [];
      stats = [];
      healthy = [];
      strategy = c.strategy;
      round_robin_idx = 0;
      check_interval = c.check_interval;
      timeout = c.timeout;
      isolation_threshold = c.isolation_threshold;
      isolation_duration = c.isolation_duration;
      health_check_url = c.health_check_url;
    }

unfoldable pub find_entry : Text → List ProxyEntry → Option ProxyEntry
unfolding text_eq
find_entry u [] = none
find_entry u (e ∷ es) = let rest = find_entry u es in if text_eq e.url u then some e else rest

-- The writes through the pointer that findEntry gives.
unfoldable pub change_entry : (ProxyEntry → ProxyEntry) → Text → List ProxyEntry → List ProxyEntry
unfolding text_eq
change_entry f u [] = []
change_entry f u (e ∷ es) =
    let rest = change_entry f u es in if text_eq e.url u then f e ∷ es else e ∷ rest

-- append(proxies[:i], proxies[i+1:]...)
unfoldable pub drop_entry : Text → List ProxyEntry → List ProxyEntry
unfolding text_eq
drop_entry u [] = []
drop_entry u (e ∷ es) = let rest = drop_entry u es in if text_eq e.url u then es else e ∷ rest

unfoldable pub usable_urls : List ProxyEntry → List Text
unfolding is_usable
usable_urls [] = []
usable_urls (e ∷ es) = let rest = usable_urls es in if is_usable e then e.url ∷ rest else rest

unfoldable pub rebuild_healthy_list : ProxyPool → ProxyPool
unfolding usable_urls
rebuild_healthy_list p = record p { healthy = usable_urls p.proxies }

-- if stats, ok := p.stats[url]; ok { ... }
unfoldable pub change_stats :
    (ProxyStats → ProxyStats) → Text → List (Text × ProxyStats) → List (Text × ProxyStats)
unfolding find store
change_stats f u m = elim (find u m) [ none ↦ m | some s ↦ store u (f s) m ]

unfoldable pub added : Text → ℤ → ProxyPool → ProxyPool
unfolding rebuild_healthy_list new_entry new_stats store
added u w p = rebuild_healthy_list (record p {
  proxies = p.proxies ++ new_entry u w ∷ [];
  stats = store u (new_stats u w) p.stats;
})

unfoldable pub add_proxy : Text → ℤ → ProxyPool → ProxyPool
unfolding find_entry added text_eq
add_proxy u w p =
    if is "" u then p else elim (find_entry u p.proxies) [ none ↦ added u w p | some e ↦ p ]

unfoldable pub remove_proxy : Text → ProxyPool → ProxyPool
unfolding find_entry drop_entry rebuild_healthy_list delete
remove_proxy u p = elim (find_entry u p.proxies) [
  | none ↦ p
  | some e ↦
      rebuild_healthy_list (record p { proxies = drop_entry u p.proxies; stats = delete u p.stats })
]

unfoldable pub update_proxy_weight : Text → ℤ → ProxyPool → ProxyPool
unfolding find_entry change_entry change_stats
update_proxy_weight u w p = elim (find_entry u p.proxies) [
  | none ↦ p
  | some e ↦ record p {
    proxies = change_entry (λ x. record x { weight = w }) u p.proxies;
    stats = change_stats (λ s. record s { weight = w }) u p.stats;
  }
]

-- What the marks and the check share: the entry of the URL becomes `f` of it, its statistics
-- become `g` of the new entry and of what they were, and the list of healthy proxies is made again.
unfoldable pub changed :
    (ProxyEntry → ProxyEntry)
    → (ProxyEntry → ProxyStats → ProxyStats)
    → Text
    → ProxyPool
    → ProxyPool
unfolding find_entry change_entry change_stats rebuild_healthy_list
changed f g u p = elim (find_entry u p.proxies) [
  | none ↦ p
  | some e ↦
      rebuild_healthy_list (record p {
        proxies = change_entry f u p.proxies;
        stats = change_stats (g (f e)) u p.stats;
      })
]

unfoldable pub mark_success : Text → ProxyPool → ProxyPool
unfolding changed mark_success_entry marked_stats
mark_success = changed mark_success_entry marked_stats

unfoldable pub mark_failure : ℕ → Text → ProxyPool → ProxyPool
unfolding changed mark_failure_entry marked_stats
mark_failure now u p = changed (mark_failure_entry p.isolation_threshold now) marked_stats u p

unfoldable pub process_health_check_result : ℕ → HealthCheckResult → ProxyPool → ProxyPool
unfolding changed check_entry checked_stats
process_health_check_result now r p =
    changed (check_entry p.isolation_threshold p.isolation_duration now r) (checked_stats r) r.url p

-- The results in the order in which they come.
unfoldable pub health_check : ℕ → List HealthCheckResult → ProxyPool → ProxyPool
unfolding process_health_check_result
health_check now [] p = p
health_check now (r ∷ rs) p = health_check now rs (process_health_check_result now r p)

unfoldable pub acquire_connection : Text → ProxyPool → Bool × ProxyPool
unfolding find_entry change_entry is_acquirable acquire_entry
acquire_connection u p = elim (find_entry u p.proxies) [
  | none ↦ (false, p)
  | some e ↦
      if is_acquirable e
      then (true, record p { proxies = change_entry acquire_entry u p.proxies })
      else (false, p)
]

unfoldable pub release_connection : Text → ProxyPool → ProxyPool
unfolding change_entry release_entry
release_connection u p = record p { proxies = change_entry release_entry u p.proxies }

unfoldable pub recover_isolated_proxies : ℕ → ProxyPool → ProxyPool
unfolding recover_entry rebuild_healthy_list
recover_isolated_proxies now p =
    rebuild_healthy_list
      (record p { proxies = map (recover_entry p.isolation_duration now) p.proxies })

unfoldable pub set_strategy : ProxySelectionStrategy → ProxyPool → ProxyPool
set_strategy s p = record p { strategy = s }

unfoldable pub load_proxies_from_urls : List Text → ℤ → ProxyPool → ProxyPool
unfolding add_proxy text_eq
load_proxies_from_urls [] w p = p
load_proxies_from_urls (u ∷ us) w p =
    load_proxies_from_urls us w (if is "" u then p else add_proxy u w p)
