-- ===== src/Auth/ProxyPool/Health.antt =====
-- What every change of an entry keeps: its URL, and the bounds of its numbers.
use qoder2api.Prelude.{ℕ, ◌≤◌, ◌≡◌, arith, true, not, ◌||◌, ltb, ◌==◌, Bool-cases, inl, inr}
use qoder2api.Prelude.Int.{ℤ}
use qoder2api.Prelude.Text.{Text}
use qoder2api.Auth.ProxyPool.Entry.{
  ProxyEntry, HealthCheckResult, is_status_healthy, is_status_isolated, new_entry, raised, lowered,
  recovered, mark_success_entry, mark_failure_entry, isolation_over, check_entry, recover_entry,
  acquire_entry, release_entry,
}

-- The success rate is a fraction from 0 to 1, no more requests failed than were made, and an entry
-- of status healthy has fewer failures in a row than the threshold.
pub record EntryIsValid (threshold : ℕ) (e : ProxyEntry) : Type 0 where
  pub den_ok : 1 ≤ e.success_rate.den
  pub rate_ok : e.success_rate.num ≤ e.success_rate.den
  pub failed_ok : e.failed_requests ≤ e.total_requests
  pub failures_ok :
      (not (is_status_healthy e.status) || ltb e.consecutive_failures threshold) ≡ true

module _ (threshold : ℕ) where
  pub new_entry-IsValid :
      (u : Text) (w : ℤ) → 1 ≤ threshold → EntryIsValid threshold (new_entry u w)
  unfolding new_entry is_status_healthy
  new_entry-IsValid u w some_failures = record {
    den_ok = omega arith;
    rate_ok = omega arith;
    failed_ok = omega arith;
    failures_ok = ground arith;
  }

  pub mark_success_entry-IsValid :
      (e : ProxyEntry)
      → 1 ≤ threshold
      → EntryIsValid threshold e
      → EntryIsValid threshold (mark_success_entry e)
  unfolding mark_success_entry raised recovered is_status_isolated is_status_healthy
  mark_success_entry-IsValid e some_failures v =
      let d = v.den_ok in
      let r = v.rate_ok in
      let f = v.failed_ok in
      let c = v.failures_ok in
      record {
        den_ok = ground arith;
        rate_ok = ground arith;
        failed_ok = ground arith;
        failures_ok = ground arith;
      }

  pub mark_failure_entry-IsValid :
      (now : ℕ) (e : ProxyEntry)
      → EntryIsValid threshold e
      → EntryIsValid threshold (mark_failure_entry threshold now e)
  unfolding mark_failure_entry lowered is_status_isolated is_status_healthy
  mark_failure_entry-IsValid now e v =
      let d = v.den_ok in
      let r = v.rate_ok in
      let f = v.failed_ok in
      let c = v.failures_ok in
      record {
        den_ok = ground arith;
        rate_ok = ground arith;
        failed_ok = ground arith;
        failures_ok = ground arith;
      }

  pub check_entry-IsValid :
      (duration now : ℕ) (r : HealthCheckResult) (e : ProxyEntry)
      → 1 ≤ threshold
      → EntryIsValid threshold e
      → EntryIsValid threshold (check_entry threshold duration now r e)
  unfolding check_entry recovered isolation_over is_status_isolated is_status_healthy
  check_entry-IsValid duration now r e some_failures v =
      let d = v.den_ok in
      let q = v.rate_ok in
      let f = v.failed_ok in
      let c = v.failures_ok in
      record {
        den_ok = ground arith;
        rate_ok = ground arith;
        failed_ok = ground arith;
        failures_ok = ground arith;
      }

  pub recover_entry-IsValid :
      (duration now : ℕ) (e : ProxyEntry)
      → 1 ≤ threshold
      → EntryIsValid threshold e
      → EntryIsValid threshold (recover_entry duration now e)
  unfolding recover_entry recovered is_status_isolated is_status_healthy
  recover_entry-IsValid duration now e some_failures v =
      let d = v.den_ok in
      let q = v.rate_ok in
      let f = v.failed_ok in
      let c = v.failures_ok in
      record {
        den_ok = ground arith;
        rate_ok = ground arith;
        failed_ok = ground arith;
        failures_ok = ground arith;
      }

  pub acquire_entry-IsValid :
      (e : ProxyEntry) → EntryIsValid threshold e → EntryIsValid threshold (acquire_entry e)
  unfolding acquire_entry
  acquire_entry-IsValid e v = record {
    den_ok = v.den_ok;
    rate_ok = v.rate_ok;
    failed_ok = v.failed_ok;
    failures_ok = v.failures_ok;
  }

  pub release_entry-IsValid :
      (e : ProxyEntry) → EntryIsValid threshold e → EntryIsValid threshold (release_entry e)
  unfolding release_entry
  release_entry-IsValid e v = elim (Bool-cases (e.active_conns == 0)) [
    | inl idle ↦ rw idle v
    | inr busy ↦ rw busy (record {
      den_ok = v.den_ok;
      rate_ok = v.rate_ok;
      failed_ok = v.failed_ok;
      failures_ok = v.failures_ok;
    })
  ]

  pub reweighed-IsValid :
      (w : ℤ) (e : ProxyEntry)
      → EntryIsValid threshold e
      → EntryIsValid threshold (record e { weight = w })
  reweighed-IsValid w e v = record {
    den_ok = v.den_ok;
    rate_ok = v.rate_ok;
    failed_ok = v.failed_ok;
    failures_ok = v.failures_ok;
  }
