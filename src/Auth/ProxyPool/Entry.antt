-- ===== src/Auth/ProxyPool/Entry.antt =====
-- auth/proxy_pool.go: one proxy of the pool, its statistics, and what the marks and the health
-- checks do to it. Times are nanoseconds and 0 is the zero time. The success rate, a float in the
-- code, is an exact fraction here.
use qoder2api.Prelude.{
  ℕ, ◌+◌, ◌-◌, ◌*◌, ◌/◌, Bool, true, false, not, ◌&&◌, ◌||◌, if◌then◌else◌, leb, ◌==◌,
}
use qoder2api.Prelude.Int.{ℤ}
use qoder2api.Prelude.Text.{Text, codes}

pub data ProxyHealthStatus : Type 0 where
  proxy_status_healthy : ProxyHealthStatus
  proxy_status_unhealthy : ProxyHealthStatus
  proxy_status_isolated : ProxyHealthStatus

-- num / den
pub record Rate : Type 0 where
  pub num : ℕ
  pub den : ℕ

pub record ProxyEntry : Type 0 where
  pub url : Text
  pub healthy : Bool
  pub last_check : ℕ
  pub latency : ℕ
  pub success_rate : Rate
  pub weight : ℤ
  pub active_conns : ℕ
  pub total_requests : ℕ
  pub failed_requests : ℕ
  pub status : ProxyHealthStatus
  pub isolated_at : ℕ
  pub consecutive_failures : ℕ

pub record ProxyStats : Type 0 where
  pub url : Text
  pub healthy : Bool
  pub last_check : ℕ
  pub latency : ℕ
  pub latency_ms : ℕ
  pub success_rate : Rate
  pub weight : ℤ
  pub active_conns : ℕ
  pub total_requests : ℕ
  pub failed_requests : ℕ
  pub status : Text
  pub consecutive_failures : ℕ

pub record HealthCheckResult : Type 0 where
  pub url : Text
  pub healthy : Bool
  pub latency : ℕ
  pub timestamp : ℕ

unfoldable pub is_status_healthy : ProxyHealthStatus → Bool
is_status_healthy proxy_status_healthy = true
is_status_healthy proxy_status_unhealthy = false
is_status_healthy proxy_status_isolated = false

unfoldable pub is_status_isolated : ProxyHealthStatus → Bool
is_status_isolated proxy_status_healthy = false
is_status_isolated proxy_status_unhealthy = false
is_status_isolated proxy_status_isolated = true

unfoldable pub status_string : ProxyHealthStatus → Text
status_string proxy_status_healthy = codes "healthy"
status_string proxy_status_unhealthy = codes "unhealthy"
status_string proxy_status_isolated = codes "isolated"

-- entry.Healthy && entry.Status == ProxyStatusHealthy
unfoldable pub is_usable : ProxyEntry → Bool
unfolding is_status_healthy
is_usable e = e.healthy && is_status_healthy e.status

unfoldable pub new_entry : Text → ℤ → ProxyEntry
new_entry u w = record {
  url = u;
  healthy = true;
  last_check = 0;
  latency = 0;
  success_rate = record { num = 1; den = 1 };
  weight = w;
  active_conns = 0;
  total_requests = 0;
  failed_requests = 0;
  status = proxy_status_healthy;
  isolated_at = 0;
  consecutive_failures = 0;
}

-- The fields that are not written are Go's zero values.
unfoldable pub new_stats : Text → ℤ → ProxyStats
new_stats u w = record {
  url = u;
  healthy = true;
  last_check = 0;
  latency = 0;
  latency_ms = 0;
  success_rate = record { num = 0; den = 1 };
  weight = w;
  active_conns = 0;
  total_requests = 0;
  failed_requests = 0;
  status = codes "healthy";
  consecutive_failures = 0;
}

-- entry.SuccessRate*0.9 + 0.1
unfoldable pub raised : Rate → Rate
raised r = record { num = 9 * r.num + r.den; den = 10 * r.den }

-- entry.SuccessRate*0.9
unfoldable pub lowered : Rate → Rate
lowered r = record { num = 9 * r.num; den = 10 * r.den }

-- Back in service; `healthy` stays what it is.
unfoldable pub recovered : ProxyEntry → ProxyEntry
recovered e = record e { status = proxy_status_healthy; isolated_at = 0 }

unfoldable pub mark_success_entry : ProxyEntry → ProxyEntry
unfolding raised recovered is_status_isolated
mark_success_entry e =
    let marked = record e {
      total_requests = e.total_requests + 1;
      consecutive_failures = 0;
      success_rate =
          if e.total_requests + 1 == 1 then record { num = 1; den = 1 } else raised e.success_rate;
    } in
    if is_status_isolated e.status then recovered marked else marked

unfoldable pub mark_failure_entry : ℕ → ℕ → ProxyEntry → ProxyEntry
unfolding lowered is_status_isolated
mark_failure_entry threshold now e =
    let marked = record e {
      total_requests = e.total_requests + 1;
      failed_requests = e.failed_requests + 1;
      consecutive_failures = e.consecutive_failures + 1;
      success_rate =
          if e.total_requests + 1 == 1 then record { num = 0; den = 1 } else lowered e.success_rate;
    } in
    if not (is_status_isolated e.status) && leb threshold (e.consecutive_failures + 1)
    then record marked { status = proxy_status_isolated; isolated_at = now; healthy = false }
    else marked

-- time.Since(isolatedAt) >= isolationDuration; since the zero time, the longest duration passed.
unfoldable pub isolation_over : ℕ → ℕ → ProxyEntry → Bool
isolation_over duration now e = e.isolated_at == 0 || leb duration (now - e.isolated_at)

-- processHealthCheckResult, on the entry.
unfoldable pub check_entry : ℕ → ℕ → ℕ → HealthCheckResult → ProxyEntry → ProxyEntry
unfolding recovered isolation_over is_status_isolated
check_entry threshold duration now r e =
    let seen = record e { last_check = r.timestamp; latency = r.latency } in
    let good = record seen { healthy = true; consecutive_failures = 0 } in
    let bad = record seen {
      healthy = false;
      status = proxy_status_unhealthy;
      consecutive_failures = e.consecutive_failures + 1;
    } in
    if r.healthy
    then (if is_status_isolated e.status && isolation_over duration now e
        then recovered good
        else good)
    else if leb threshold (e.consecutive_failures + 1)
    then record bad { status = proxy_status_isolated; isolated_at = now }
    else bad

-- RecoverIsolatedProxies, on the entry.
unfoldable pub recover_entry : ℕ → ℕ → ProxyEntry → ProxyEntry
unfolding is_status_isolated recovered
recover_entry duration now e =
    if is_status_isolated e.status
      && (not (e.isolated_at == 0) && leb duration (now - e.isolated_at))
    then record (recovered e) { healthy = true; consecutive_failures = 0 }
    else e

unfoldable pub is_acquirable : ProxyEntry → Bool
unfolding is_status_healthy
is_acquirable e = is_status_healthy e.status

unfoldable pub acquire_entry : ProxyEntry → ProxyEntry
acquire_entry e = record e { active_conns = e.active_conns + 1 }

unfoldable pub release_entry : ProxyEntry → ProxyEntry
release_entry e = if e.active_conns == 0 then e else record e { active_conns = e.active_conns - 1 }

-- The marks write these five fields of the statistics.
unfoldable pub marked_stats : ProxyEntry → ProxyStats → ProxyStats
unfolding status_string
marked_stats e s = record s {
  total_requests = e.total_requests;
  failed_requests = e.failed_requests;
  success_rate = e.success_rate;
  status = status_string e.status;
  consecutive_failures = e.consecutive_failures;
}

unfoldable pub checked_stats : HealthCheckResult → ProxyEntry → ProxyStats → ProxyStats
unfolding status_string
checked_stats r e s = record s {
  last_check = r.timestamp;
  latency = r.latency;
  latency_ms = r.latency / 1_000_000;
  healthy = r.healthy;
  status = status_string e.status;
  consecutive_failures = e.consecutive_failures;
}

-- The statistics that GetStats makes of an entry.
unfoldable pub stats_of : Text → ProxyEntry → ProxyStats
unfolding status_string
stats_of u e = record {
  url = u;
  healthy = e.healthy;
  last_check = e.last_check;
  latency = e.latency;
  latency_ms = e.latency / 1_000_000;
  success_rate = e.success_rate;
  weight = e.weight;
  active_conns = e.active_conns;
  total_requests = e.total_requests;
  failed_requests = e.failed_requests;
  status = status_string e.status;
  consecutive_failures = e.consecutive_failures;
}
