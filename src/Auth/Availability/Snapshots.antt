-- ===== src/Auth/Availability/Snapshots.antt =====
-- The snapshot of an account is stable: taking it again at the same time gives the same answer, and
-- it leaves alone all that a request is checked against.
use qoder2api.Prelude.{
  ℕ, ◌+◌, ◌≤◌, ◌<◌, ◌≡◌, refl, arith, Bool, true, false, inl, inr, Bool-cases, ltb, if◌then◌else◌,
  ◌&&◌, ◌||◌,
}
use qoder2api.Auth.Account.{Account}
use qoder2api.Auth.Plan.{is_premium5h_plan, is_plus_or_higher_plan}
use qoder2api.Auth.Recompute.{recompute_scheduler}
use qoder2api.Auth.Recompute.Idempotent.{recompute_scheduler_idem}
use qoder2api.Auth.Availability.{refreshed, fast_scheduler_snapshot, try_acquire_account}

abbrev refreshes : Account → Bool
refreshes a =
    is_premium5h_plan a.plan_type && a.usage_percent_5h_valid
    || is_plus_or_higher_plan a.plan_type && a.usage_percent_7d_valid

refreshes-recompute :
    (b now : ℕ) (a : Account) → refreshes (recompute_scheduler b now a) ≡ refreshes a
unfolding recompute_scheduler
refreshes-recompute b now a = refl

pub refreshed_idem :
    (b now : ℕ) (a : Account) → refreshed b now (refreshed b now a) ≡ refreshed b now a
unfolding refreshed
refreshed_idem b now a = elim (Bool-cases (refreshes a)) [
  | inl on ↦ rw on (rw (refreshes-recompute b now a, on) (recompute_scheduler_idem b now a))
  | inr off ↦ rw off (rw off refl)
]

-- A second snapshot at the same time finds what the first one found, and writes nothing new.
pub fast_scheduler_snapshot_idem :
    (b now : ℕ) (a : Account)
    → fast_scheduler_snapshot b now (fast_scheduler_snapshot b now a).0
      ≡ fast_scheduler_snapshot b now a
unfolding fast_scheduler_snapshot
fast_scheduler_snapshot_idem b now a = rw (refreshed_idem b now a)

-- What taking a slot needs and does, and what a refusal means.
pub try_acquire_account_lem :
    (limit now : ℕ) (a : Account)
    → let (a', done) = try_acquire_account limit now a in
      ((done ≡ true) → (a.active_requests < limit) × (a'.active_requests ≡ a.active_requests + 1))
      × ((done ≡ false) → (limit ≤ a.active_requests) × (a' ≡ a))
unfolding try_acquire_account
try_acquire_account_lem limit now a = ground arith

-- A slot is taken exactly if fewer requests than the limit are active, and it is one slot.
pub try_acquire_account-counts :
    (limit now : ℕ) (a : Account)
    → let (a', done) = try_acquire_account limit now a in
      (done ≡ ltb a.active_requests limit)
      × (a'.active_requests ≡ a.active_requests + (if done then 1 else 0))
      × (a'.total_requests ≡ a.total_requests + (if done then 1 else 0))
unfolding try_acquire_account
try_acquire_account-counts limit now a = ground arith

pub fast_scheduler_snapshot-active :
    (b now : ℕ) (a : Account)
    → (fast_scheduler_snapshot b now a).0.active_requests ≡ a.active_requests
unfolding fast_scheduler_snapshot refreshed recompute_scheduler
fast_scheduler_snapshot-active b now a = ground arith
