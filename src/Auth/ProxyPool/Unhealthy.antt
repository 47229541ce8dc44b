-- ===== src/Auth/ProxyPool/Unhealthy.antt =====
-- What brings a proxy back into service, and what does not.
use qoder2api.Prelude.{
  ℕ, ◌≤◌, ◌≡◌, refl, arith, Bool, true, false, not, ◌&&◌, List, [], ◌∷◌, ◌++◌, map, none, inl, inr,
  if◌then◌else◌, ◌==◌, Bool-cases, Option-cases, All, ap, ◌∙◌, subst, length,
}
use qoder2api.Prelude.Text.{Text, text_eq, text_eq_iff, is}
use qoder2api.Auth.ProxyPool.Entry.{
  ProxyEntry, ProxyStats, is_usable, is_status_healthy, is_status_isolated, mark_success_entry,
  check_entry, recover_entry, recovered, acquire_entry, release_entry, is_acquirable, marked_stats,
  checked_stats, new_entry,
}
use qoder2api.Auth.ProxyPool.Pool.{
  ProxyPool, find_entry, change_entry, usable_urls, rebuild_healthy_list, added, add_proxy,
  update_proxy_weight, changed, mark_success, process_health_check_result, acquire_connection,
  release_connection, recover_isolated_proxies, set_strategy, ProxySelectionStrategy,
  strategy_round_robin, strategy_weighted, strategy_least_connections,
}
use qoder2api.Auth.ProxyPool.Selection.{select_by_strategy, select_with_strategy}
use qoder2api.Auth.ProxyPool.Reports.{holds, is_healthy}
use qoder2api.Auth.ProxyPool.Entries.{AreDistinct}
use qoder2api.Auth.ProxyPool.Run.{
  PoolOp, op_add, op_remove, op_weight, op_success, op_failure, op_check, op_acquire, op_release,
  op_recover, op_strategy, op_select, step, run, IsValid,
}
use qoder2api.Auth.ProxyPool.Valid.{run-from}

-- The status is ProxyStatusUnhealthy.
abbrev pub is_unhealthy : ProxyEntry → Bool
is_unhealthy e = not (is_status_healthy e.status) && not (is_status_isolated e.status)

-- No failure is marked, no check fails, and no proxy is removed.
abbrev pub is_good : PoolOp → Bool
is_good (op_add u w) = true
is_good (op_remove u) = false
is_good (op_weight u w) = true
is_good (op_success u) = true
is_good (op_failure u) = false
is_good (op_check r) = r.healthy
is_good (op_acquire u) = true
is_good (op_release u) = true
is_good op_recover = true
is_good (op_strategy s) = true
is_good (op_select draw s) = true

-- The entry of the URL has the status.
unfoldable pub unhealthy_at : Text → List ProxyEntry → Bool
unfolding text_eq is_status_healthy is_status_isolated
unhealthy_at u [] = false
unhealthy_at u (e ∷ es) =
    let rest = unhealthy_at u es in if text_eq e.url u then is_unhealthy e else rest

-- A change that keeps URLs and the status keeps the URL's status.
module _ (f : ProxyEntry → ProxyEntry) (same_url : (e : ProxyEntry) → (f e).url ≡ e.url)
    (keep : (e : ProxyEntry) → is_unhealthy e ≡ true → is_unhealthy (f e) ≡ true) where
  unhealthy_at-change_entry :
      (u v : Text) (es : List ProxyEntry)
      → unhealthy_at u es ≡ true
      → unhealthy_at u (change_entry f v es) ≡ true
  unfolding unhealthy_at change_entry
  unhealthy_at-change_entry u v [] h = h
  unhealthy_at-change_entry u v (e ∷ es) h = elim (Bool-cases (text_eq e.url v)) [
    | inl here ↦ ground (arith, here, same_url e, keep e)
    | inr other ↦ ground (arith, other, unhealthy_at-change_entry u v es)
  ]

  unhealthy_at-map :
      (u : Text) (es : List ProxyEntry)
      → unhealthy_at u es ≡ true
      → unhealthy_at u (map f es) ≡ true
  unfolding unhealthy_at
  unhealthy_at-map u [] h = h
  unhealthy_at-map u (e ∷ es) h = ground (arith, same_url e, keep e, unhealthy_at-map u es)

unhealthy_at-append :
    (u : Text) (es xs : List ProxyEntry)
    → unhealthy_at u es ≡ true
    → unhealthy_at u (es ++ xs) ≡ true
unfolding unhealthy_at
unhealthy_at-append u [] xs h = absurd (ground (arith, h))
unhealthy_at-append u (e ∷ es) xs h = ground (arith, unhealthy_at-append u es xs)

chosen_unhealthy :
    (draw : ℕ → ℕ) (s : ProxySelectionStrategy) (u : Text) (p : ProxyPool)
    → unhealthy_at u p.proxies ≡ true
    → unhealthy_at u (select_by_strategy draw s p).1.proxies ≡ true
unfolding select_by_strategy
chosen_unhealthy draw strategy_round_robin u p h = h
chosen_unhealthy draw strategy_weighted u p h = h
chosen_unhealthy draw strategy_least_connections u p h = h

select-unhealthy_at :
    (draw : ℕ → ℕ) (s : ProxySelectionStrategy) (u : Text) (p : ProxyPool)
    → unhealthy_at u p.proxies ≡ true
    → unhealthy_at u (select_with_strategy draw s p).1.proxies ≡ true
unfolding select_with_strategy
select-unhealthy_at draw s u p h = elim (Bool-cases (length p.healthy == 0)) [
  | inl empty ↦ rw empty h
  | inr full ↦ rw full (chosen_unhealthy draw s u p h)
]

holds_absent :
    (u : Text) (es : List ProxyEntry) → find_entry u es ≡ none → holds u (usable_urls es) ≡ false
unfolding find_entry usable_urls holds
holds_absent u [] h = refl
holds_absent u (e ∷ es) h = ground (arith, holds_absent u es)

-- An entry of that status is not in service.
holds-usable_urls :
    (u : Text) (es : List ProxyEntry)
    → AreDistinct es
    → unhealthy_at u es ≡ true
    → holds u (usable_urls es) ≡ false
unfolding unhealthy_at usable_urls holds is_usable
holds-usable_urls u [] d h = refl
holds-usable_urls u (e ∷ es) (fresh, d) h = elim (Bool-cases (text_eq e.url u)) [
  | inl here ↦
      let absent =
        holds_absent u es
          (subst (λ v. find_entry v es ≡ none) ((text_eq_iff e.url u).0 here) fresh) in
      ground (arith, here, absent, h)
  | inr other ↦ ground (arith, other, holds-usable_urls u es d, h)
]

changed-unhealthy_at :
    (f : ProxyEntry → ProxyEntry) (g : ProxyEntry → ProxyStats → ProxyStats)
    → ((e : ProxyEntry) → (f e).url ≡ e.url)
    → ((e : ProxyEntry) → is_unhealthy e ≡ true → is_unhealthy (f e) ≡ true)
    → (u v : Text) (p : ProxyPool) → unhealthy_at u p.proxies ≡ true
    → unhealthy_at u (changed f g v p).proxies ≡ true
unfolding changed rebuild_healthy_list
changed-unhealthy_at f g same_url keep u v p h = elim (Option-cases (find_entry v p.proxies)) [
  | inl absent ↦ rw (absent, changed) h
  | inr (e, found) ↦ rw (found, changed) (unhealthy_at-change_entry f same_url keep u v p.proxies h)
]

acquire-unhealthy_at :
    (w u : Text) (p : ProxyPool)
    → unhealthy_at u p.proxies ≡ true
    → unhealthy_at u (acquire_connection w p).1.proxies ≡ true
unfolding acquire_connection acquire_entry
acquire-unhealthy_at w u p h = elim (Option-cases (find_entry w p.proxies)) [
  | inl absent ↦ rw (absent, acquire_connection) h
  | inr (e, found) ↦ elim (Bool-cases (is_acquirable e)) [
    | inl ready ↦
        rw (found, ready, acquire_connection)
          (unhealthy_at-change_entry acquire_entry (λ y. refl) (λ y same. same) u w p.proxies h)
    | inr shut ↦ rw (found, shut, acquire_connection) h
  ]
]

step-unhealthy_at :
    (now : ℕ) (o : PoolOp) (u : Text) (p : ProxyPool)
    → is_good o ≡ true
    → unhealthy_at u p.proxies ≡ true
    → unhealthy_at u (step now o p).proxies ≡ true
unfolding step mark_success process_health_check_result set_strategy mark_success_entry check_entry
    recovered is_status_healthy is_status_isolated update_proxy_weight release_connection
    release_entry recover_isolated_proxies rebuild_healthy_list recover_entry add_proxy added
step-unhealthy_at now (op_add w x) u p good h = elim (Bool-cases (is "" w)) [
  | inl empty ↦ rw empty h
  | inr named ↦ elim (Option-cases (find_entry w p.proxies)) [
    | inl absent ↦
        rw (named, absent, add_proxy) (unhealthy_at-append u p.proxies (new_entry w x ∷ []) h)
    | inr (e, found) ↦ rw (named, found, add_proxy) h
  ]
]
step-unhealthy_at now (op_remove w) u p good h = absurd (ground (arith, good))
step-unhealthy_at now (op_weight w x) u p good h = elim (Option-cases (find_entry w p.proxies)) [
  | inl absent ↦ rw (absent, update_proxy_weight) h
  | inr (e, found) ↦
      rw (found, update_proxy_weight)
        (unhealthy_at-change_entry (λ y. record y { weight = x }) (λ y. refl) (λ y same. same) u w
          p.proxies h)
]
step-unhealthy_at now (op_success w) u p good h =
    changed-unhealthy_at mark_success_entry marked_stats (λ e. ground arith)
      (λ e same. ground (arith, same)) u w p h
step-unhealthy_at now (op_failure w) u p good h = absurd (ground (arith, good))
step-unhealthy_at now (op_check r) u p good h =
    changed-unhealthy_at (check_entry p.isolation_threshold p.isolation_duration now r)
      (checked_stats r) (λ e. ground arith) (λ e same. ground (arith, same, good)) u r.url p h
step-unhealthy_at now (op_acquire w) u p good h = acquire-unhealthy_at w u p h
step-unhealthy_at now (op_release w) u p good h =
    unhealthy_at-change_entry release_entry (λ y. ground arith) (λ y same. ground (arith, same)) u w
      p.proxies h
step-unhealthy_at now op_recover u p good h =
    unhealthy_at-map (recover_entry p.isolation_duration now) (λ y. ground arith)
      (λ y same. ground (arith, same)) u p.proxies h
step-unhealthy_at now (op_strategy s) u p good h = h
step-unhealthy_at now (op_select draw s) u p good h = select-unhealthy_at draw s u p h

run-unhealthy_at :
    (os : List (ℕ × PoolOp)) (u : Text) (p : ProxyPool)
    → All (λ o. is_good o.1 ≡ true) os
    → unhealthy_at u p.proxies ≡ true
    → unhealthy_at u (run os p).proxies ≡ true
unfolding run
run-unhealthy_at [] u p good h = h
run-unhealthy_at ((now, o) ∷ os) u p (good, goods) h =
    run-unhealthy_at os u (step now o p) goods (step-unhealthy_at now o u p good h)

-- A proxy with the status unhealthy, in a valid pool whose threshold is at least 1, never comes
-- back into service through marks of success, checks that it passes or the recovery of isolated
-- proxies: after any run of operations without a marked failure, a failed check or a removal, it is
-- not healthy to the pool.
pub is_healthy-run :
    (threshold : ℕ) (os : List (ℕ × PoolOp)) (u : Text) (p : ProxyPool)
    → 1 ≤ threshold
    → IsValid threshold p
    → unhealthy_at u p.proxies ≡ true
    → All (λ o. is_good o.1 ≡ true) os
    → is_healthy u (run os p) ≡ false
unfolding is_healthy
is_healthy-run threshold os u p some_failures v h good =
    let w = run-from threshold some_failures os p v in
    ap (holds u) w.healthy_ok
    ∙ holds-usable_urls u (run os p).proxies w.distinct (run-unhealthy_at os u p good h)
