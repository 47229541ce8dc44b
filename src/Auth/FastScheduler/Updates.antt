-- ===== src/Auth/FastScheduler/Updates.antt =====
-- The operations on the scheduler as a whole.
use qoder2api.Prelude.{if◌then◌else◌, ◌==◌, ℕ, ◌≡◌, refl, arith, false, ◌∙◌}
use qoder2api.Auth.Account.{healthy, warm, risky}
use qoder2api.Auth.Availability.{Snapshot, fast_scheduler_snapshot}
use qoder2api.Auth.FastScheduler.{Mode, FastScheduler, World, write, rebuild_less}
use qoder2api.Auth.FastScheduler.Buckets.{
  remove_locked, resort, resort_all, insert_locked, update, remove, set_scheduler_mode,
}
use qoder2api.Auth.FastScheduler.Positions.{Indexed, placed}
use qoder2api.Auth.FastScheduler.Removal.{remove_locked-Removed}
use qoder2api.Auth.FastScheduler.Insertion.{is_placeable, place-Placed, Resorted, resort-Resorted}

remove_locked-base : (id : ℕ) (s : FastScheduler) → (remove_locked id s).base_limit ≡ s.base_limit
unfolding remove_locked
remove_locked-base id s = ground arith

-- The account's snapshot at the time of the call.
abbrev pub snap_of : ℕ → ℕ → World → Snapshot
snap_of id now w = (fast_scheduler_snapshot w.scheduler.base_limit now (w.accounts id)).1

-- After `Update` of an account with an id on an exact index, the index is exact, the account
-- stands in the buckets once if its new snapshot allows it to be dispatched to, and not at all
-- if not, and every other account stands in them as often as before.
pub update-Indexed :
    (id now j : ℕ) (w : World)
    → (id == 0) ≡ false
    → Indexed w.scheduler
    → Indexed (update id now w).scheduler
      × (placed j (update id now w).scheduler ≡ (
          if j == id
          then (if is_placeable (snap_of id now w) then 1 else 0)
          else placed j w.scheduler))
unfolding update insert_locked remove_locked
update-Indexed id now j w real v =
    let out = remove_locked-Removed id w.scheduler v in
    let w' : World = record w {
      scheduler = remove_locked id w.scheduler;
      accounts =
          write w.accounts id
            (fast_scheduler_snapshot w.scheduler.base_limit now (w.accounts id)).0;
    } in
    let put = place-Placed id (snap_of id now w) w' out.indexed out.gone in
    rw (real, remove_locked-base id w.scheduler)
      (put.indexed, ground (arith, put.here, put.rest j, out.rest j))

-- After `Remove` of an account with an id on an exact index, the index is exact, the account is
-- in no bucket, and every other account stands in them as often as before.
pub remove-Indexed :
    (id j : ℕ) (w : World)
    → (id == 0) ≡ false
    → Indexed w.scheduler
    → Indexed (remove id w).scheduler
      × (placed j (remove id w).scheduler ≡ (if j == id then 0 else placed j w.scheduler))
unfolding remove
remove-Indexed id j w real v =
    let out = remove_locked-Removed id w.scheduler v in
    rw real (out.indexed, ground (arith, out.gone, out.rest j))

-- After `SetSchedulerMode` on an exact index the index is exact again, and every account stands
-- in the buckets as often as before.
pub set_scheduler_mode-Resorted :
    (mode : Mode) (w : World)
    → Indexed w.scheduler
    → Resorted w.scheduler (set_scheduler_mode mode w).scheduler
unfolding set_scheduler_mode resort_all
set_scheduler_mode-Resorted mode w v =
    let s = record w.scheduler { scheduler_mode = mode } in
    let less = rebuild_less mode w.accounts in
    let a = resort-Resorted less s (record { once = v.once; exact = v.exact }) healthy refl in
    let b = resort-Resorted less (resort less healthy s) a.indexed warm refl in
    let c = resort-Resorted less (resort less warm (resort less healthy s)) b.indexed risky refl in
    record { indexed = c.indexed; same = λ j. c.same j ∙ b.same j ∙ a.same j }
