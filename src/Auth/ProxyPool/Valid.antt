-- ===== src/Auth/ProxyPool/Valid.antt =====
-- The invariant of the pool, over runs of its operations.
use qoder2api.Prelude.{
  ℕ, ◌≤◌, ◌≡◌, refl, sym, arith, List, [], ◌∷◌, ◌++◌, none, some, inl, inr, ◌==◌, length,
  Bool-cases, Option-cases, ◌∙◌, subst,
}
use qoder2api.Prelude.Int.{ℤ}
use qoder2api.Prelude.Text.{Text, is}
use qoder2api.Auth.ProxyPool.Entry.{
  ProxyEntry, ProxyStats, is_usable, new_entry, mark_success_entry, mark_failure_entry, check_entry,
  recover_entry, recovered, is_acquirable, acquire_entry, release_entry, marked_stats,
  checked_stats,
}
use qoder2api.Auth.ProxyPool.Pool.{
  ProxyPool, ProxyPoolConfig, ProxySelectionStrategy, new_proxy_pool, config_or_default, find_entry,
  change_entry, usable_urls, rebuild_healthy_list, added, add_proxy, remove_proxy,
  update_proxy_weight, changed, mark_success, mark_failure, process_health_check_result,
  acquire_connection, release_connection, recover_isolated_proxies, set_strategy, change_stats,
  strategy_round_robin, strategy_weighted, strategy_least_connections,
}
use qoder2api.Auth.ProxyPool.Selection.{select_with_strategy, select_by_strategy}
use qoder2api.Auth.ProxyPool.Entries.{
  AreDistinct, change_entry-AreDistinct, drop_entry-AreDistinct, append-AreDistinct,
  map-AreDistinct, change_entry-All, drop_entry-All, append-All, map-All,
}
use qoder2api.Auth.ProxyPool.Health.{
  EntryIsValid, new_entry-IsValid, mark_success_entry-IsValid, mark_failure_entry-IsValid,
  check_entry-IsValid, recover_entry-IsValid, acquire_entry-IsValid, release_entry-IsValid,
  reweighed-IsValid,
}
use qoder2api.Auth.ProxyPool.Run.{
  PoolOp, op_add, op_remove, op_weight, op_success, op_failure, op_check, op_acquire, op_release,
  op_recover, op_strategy, op_select, step, run, IsValid, usable_urls-change_entry,
}

module _ (threshold : ℕ) (some_failures : 1 ≤ threshold) where
  changed-IsValid :
      (f : ProxyEntry → ProxyEntry) (g : ProxyEntry → ProxyStats → ProxyStats)
      → ((e : ProxyEntry) → (f e).url ≡ e.url)
      → ((e : ProxyEntry) → EntryIsValid threshold e → EntryIsValid threshold (f e))
      → (u : Text) (p : ProxyPool) → IsValid threshold p
      → IsValid threshold (changed f g u p)
  unfolding changed rebuild_healthy_list
  changed-IsValid f g same_url keep u p v = elim (Option-cases (find_entry u p.proxies)) [
    | inl absent ↦ rw (absent, changed) v
    | inr (e, found) ↦
        rw (found, changed)
          (record {
            threshold_ok = v.threshold_ok;
            distinct = change_entry-AreDistinct f same_url u p.proxies v.distinct;
            healthy_ok = refl;
            entries = change_entry-All (EntryIsValid threshold) f keep u p.proxies v.entries;
          })
  ]

  -- A change of one entry that does not touch the list of healthy proxies.
  quiet-IsValid :
      (f : ProxyEntry → ProxyEntry)
      → ((e : ProxyEntry) → (f e).url ≡ e.url)
      → ((e : ProxyEntry) → is_usable (f e) ≡ is_usable e)
      → ((e : ProxyEntry) → EntryIsValid threshold e → EntryIsValid threshold (f e))
      → (m : List (Text × ProxyStats)) (u : Text) (p : ProxyPool) → IsValid threshold p
      → IsValid threshold (record p { proxies = change_entry f u p.proxies; stats = m })
  quiet-IsValid f same_url same keep m u p v = record {
    threshold_ok = v.threshold_ok;
    distinct = change_entry-AreDistinct f same_url u p.proxies v.distinct;
    healthy_ok = v.healthy_ok ∙ sym (usable_urls-change_entry f same_url same u p.proxies);
    entries = change_entry-All (EntryIsValid threshold) f keep u p.proxies v.entries;
  }

  new_entry_distinct :
      (u : Text) (w : ℤ) (es : List ProxyEntry)
      → AreDistinct es
      → find_entry u es ≡ none
      → AreDistinct (es ++ new_entry u w ∷ [])
  unfolding new_entry
  new_entry_distinct u w es d absent = append-AreDistinct es (new_entry u w) d absent

  add_proxy-IsValid :
      (u : Text) (w : ℤ) (p : ProxyPool) → IsValid threshold p → IsValid threshold (add_proxy u w p)
  unfolding add_proxy added rebuild_healthy_list
  add_proxy-IsValid u w p v = elim (Bool-cases (is "" u)) [
    | inl empty ↦ rw empty v
    | inr named ↦ elim (Option-cases (find_entry u p.proxies)) [
      | inl absent ↦
          rw (named, absent)
            (record {
              threshold_ok = v.threshold_ok;
              distinct = new_entry_distinct u w p.proxies v.distinct absent;
              healthy_ok = refl;
              entries =
                  append-All (EntryIsValid threshold) p.proxies (new_entry u w) v.entries
                    (new_entry-IsValid threshold u w some_failures);
            })
      | inr (e, found) ↦ rw (named, found) v
    ]
  ]

  remove_proxy-IsValid :
      (u : Text) (p : ProxyPool) → IsValid threshold p → IsValid threshold (remove_proxy u p)
  unfolding remove_proxy rebuild_healthy_list
  remove_proxy-IsValid u p v = elim (Option-cases (find_entry u p.proxies)) [
    | inl absent ↦ rw (absent, remove_proxy) v
    | inr (e, found) ↦
        rw (found, remove_proxy)
          (record {
            threshold_ok = v.threshold_ok;
            distinct = drop_entry-AreDistinct u p.proxies v.distinct;
            healthy_ok = refl;
            entries = drop_entry-All (EntryIsValid threshold) u p.proxies v.entries;
          })
  ]

  acquire_connection-IsValid :
      (u : Text) (p : ProxyPool)
      → IsValid threshold p
      → IsValid threshold (acquire_connection u p).1
  unfolding acquire_connection acquire_entry is_usable
  acquire_connection-IsValid u p v = elim (Option-cases (find_entry u p.proxies)) [
    | inl absent ↦ rw (absent, acquire_connection) v
    | inr (e, found) ↦ elim (Bool-cases (is_acquirable e)) [
      | inl ready ↦
          rw (found, ready, acquire_connection)
            (quiet-IsValid acquire_entry (λ x. refl) (λ x. refl) (acquire_entry-IsValid threshold)
              p.stats u p v)
      | inr shut ↦ rw (found, shut, acquire_connection) v
    ]
  ]

  release_connection-IsValid :
      (u : Text) (p : ProxyPool) → IsValid threshold p → IsValid threshold (release_connection u p)
  unfolding release_connection release_entry is_usable
  release_connection-IsValid u p v =
      quiet-IsValid release_entry (λ x. ground arith) (λ x. ground arith)
        (release_entry-IsValid threshold) p.stats u p v

  update_proxy_weight-IsValid :
      (u : Text) (w : ℤ) (p : ProxyPool)
      → IsValid threshold p
      → IsValid threshold (update_proxy_weight u w p)
  unfolding update_proxy_weight is_usable
  update_proxy_weight-IsValid u w p v = elim (Option-cases (find_entry u p.proxies)) [
    | inl absent ↦ rw (absent, update_proxy_weight) v
    | inr (e, found) ↦
        rw (found, update_proxy_weight)
          (quiet-IsValid (λ x. record x { weight = w }) (λ x. refl) (λ x. refl)
            (reweighed-IsValid threshold w) (change_stats (λ s. record s { weight = w }) u p.stats)
            u p v)
  ]

  recover_isolated_proxies-IsValid :
      (now : ℕ) (p : ProxyPool)
      → IsValid threshold p
      → IsValid threshold (recover_isolated_proxies now p)
  unfolding recover_isolated_proxies rebuild_healthy_list recover_entry recovered
  recover_isolated_proxies-IsValid now p v = record {
    threshold_ok = v.threshold_ok;
    distinct =
        map-AreDistinct (recover_entry p.isolation_duration now) (λ e. ground arith) p.proxies
          v.distinct;
    healthy_ok = refl;
    entries =
        map-All (EntryIsValid threshold) (recover_entry p.isolation_duration now)
          (λ e. recover_entry-IsValid threshold p.isolation_duration now e some_failures) p.proxies
          v.entries;
  }

  select_by_strategy-IsValid :
      (draw : ℕ → ℕ) (s : ProxySelectionStrategy) (p : ProxyPool)
      → IsValid threshold p
      → IsValid threshold (select_by_strategy draw s p).1
  unfolding select_by_strategy
  select_by_strategy-IsValid draw strategy_round_robin p v = record {
    threshold_ok = v.threshold_ok;
    distinct = v.distinct;
    healthy_ok = v.healthy_ok;
    entries = v.entries;
  }
  select_by_strategy-IsValid draw strategy_weighted p v = v
  select_by_strategy-IsValid draw strategy_least_connections p v = v

  select_with_strategy-IsValid :
      (draw : ℕ → ℕ) (s : ProxySelectionStrategy) (p : ProxyPool)
      → IsValid threshold p
      → IsValid threshold (select_with_strategy draw s p).1
  unfolding select_with_strategy
  select_with_strategy-IsValid draw s p v = elim (Bool-cases (length p.healthy == 0)) [
    | inl empty ↦ rw empty v
    | inr full ↦ rw full (select_by_strategy-IsValid draw s p v)
  ]

  step-IsValid :
      (now : ℕ) (o : PoolOp) (p : ProxyPool)
      → IsValid threshold p
      → IsValid threshold (step now o p)
  unfolding step mark_success mark_failure process_health_check_result set_strategy
      mark_success_entry mark_failure_entry check_entry recovered
  step-IsValid now (op_add u w) p v = add_proxy-IsValid u w p v
  step-IsValid now (op_remove u) p v = remove_proxy-IsValid u p v
  step-IsValid now (op_weight u w) p v = update_proxy_weight-IsValid u w p v
  step-IsValid now (op_success u) p v =
      changed-IsValid mark_success_entry marked_stats (λ e. ground arith)
        (λ e. mark_success_entry-IsValid threshold e some_failures) u p v
  step-IsValid now (op_failure u) p v =
      changed-IsValid (mark_failure_entry p.isolation_threshold now) marked_stats
        (λ e. ground arith)
        (λ e.
          subst
            (λ t. EntryIsValid threshold e → EntryIsValid threshold (mark_failure_entry t now e))
            (sym v.threshold_ok) (mark_failure_entry-IsValid threshold now e))
        u p v
  step-IsValid now (op_check r) p v =
      changed-IsValid (check_entry p.isolation_threshold p.isolation_duration now r)
        (checked_stats r) (λ e. ground arith)
        (λ e.
          subst
            (λ t.
              EntryIsValid threshold e
              → EntryIsValid threshold (check_entry t p.isolation_duration now r e))
            (sym v.threshold_ok)
            (check_entry-IsValid threshold p.isolation_duration now r e some_failures))
        r.url p v
  step-IsValid now (op_acquire u) p v = acquire_connection-IsValid u p v
  step-IsValid now (op_release u) p v = release_connection-IsValid u p v
  step-IsValid now op_recover p v = recover_isolated_proxies-IsValid now p v
  step-IsValid now (op_strategy s) p v = record {
    threshold_ok = v.threshold_ok;
    distinct = v.distinct;
    healthy_ok = v.healthy_ok;
    entries = v.entries;
  }
  step-IsValid now (op_select draw s) p v = select_with_strategy-IsValid draw s p v

  pub run-from :
      (os : List (ℕ × PoolOp)) (p : ProxyPool) → IsValid threshold p → IsValid threshold (run os p)
  unfolding run
  run-from [] p v = v
  run-from ((now, o) ∷ os) p v = run-from os (step now o p) (step-IsValid now o p v)

-- A pool made from a configuration whose threshold is at least 1 is valid after every sequence of
-- operations at any times: its URLs are distinct, its list of healthy proxies holds the URLs of
-- exactly the proxies in service, each success rate is a fraction from 0 to 1, no more requests
-- failed than were made, and a proxy of status healthy has fewer failures in a row than the
-- threshold.
pub run-IsValid :
    (c : ProxyPoolConfig) (os : List (ℕ × PoolOp))
    → 1 ≤ c.isolation_threshold
    → IsValid c.isolation_threshold (run os (new_proxy_pool (some c)))
unfolding new_proxy_pool config_or_default usable_urls
run-IsValid c os some_failures =
    run-from c.isolation_threshold some_failures os (new_proxy_pool (some c))
      (record { threshold_ok = refl; distinct = tt; healthy_ok = refl; entries = tt })
