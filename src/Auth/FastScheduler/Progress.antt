-- ===== src/Auth/FastScheduler/Progress.antt =====
-- `AcquireExcludingWithFilter` ends: each round that starts again has put one entry right.
use qoder2api.Prelude.{
  ℕ, ◌<◌, ◌≡◌, refl, arith, Bool, true, false, List, [], ◌∷◌, some, if◌then◌else◌, inl, inr, ◌∙◌,
  sym, subst, get_elem?,
}
use qoder2api.Auth.Account.{AccountHealthTier, healthy, warm, risky, tier_eq}
use qoder2api.Auth.Availability.{Snapshot, fast_scheduler_snapshot}
use qoder2api.Auth.Availability.Snapshots.{fast_scheduler_snapshot_idem}
use qoder2api.Auth.FastScheduler.{Entry, FastScheduler, Heap, World, bucket, bool_eq}
use qoder2api.Auth.FastScheduler.Buckets.{remove_locked, place, entry_of, is_schedulable}
use qoder2api.Auth.FastScheduler.Positions.{Indexed}
use qoder2api.Auth.FastScheduler.Removal.{remove_locked-Removed}
use qoder2api.Auth.FastScheduler.Insertion.{place-Placed}
use qoder2api.Auth.FastScheduler.Weights.{weigh, weight, weight-remove_locked, weight-place}
use qoder2api.Auth.FastScheduler.Scan.{is_stale, score_moved}
use qoder2api.Auth.FastScheduler.Rounds.{Refreshes, Kept}

-- 1 for an entry that its account's snapshot no longer fits.
abbrev pub staleness : ℕ → ℕ → Heap → AccountHealthTier → Entry → ℕ
staleness b now h t e = if is_stale t e (fast_scheduler_snapshot b now (h e.db_id)).1 then 1 else 0

-- The entries that are stale.
abbrev pub stale_entries : ℕ → World → ℕ
stale_entries now w = weight (staleness w.scheduler.base_limit now w.accounts) w.scheduler

weigh-ext :
    (f g : Entry → ℕ) (es : List Entry) → ((e : Entry) → f e ≡ g e) → weigh f es ≡ weigh g es
weigh-ext f g [] h = refl
weigh-ext f g (e ∷ es) h = omega (arith, h e, weigh-ext f g es h)

-- Taking snapshots makes no entry stale and puts none right.
staleness-Refreshes :
    (b now : ℕ) (h k : Heap)
    → Refreshes b now h k
    → (t : AccountHealthTier) (e : Entry) → staleness b now k t e ≡ staleness b now h t e
staleness-Refreshes b now h k c t e = elim (c e.db_id) [
  | inl same ↦ rw same
  | inr fresh ↦ rw (fresh, fast_scheduler_snapshot_idem b now (h e.db_id))
]

pub weight-Refreshes :
    (b now : ℕ) (h k : Heap) (s : FastScheduler)
    → Refreshes b now h k
    → weight (staleness b now k) s ≡ weight (staleness b now h) s
weight-Refreshes b now h k s c = omega (
  arith,
  weigh-ext _ _ s.healthy_bucket (staleness-Refreshes b now h k c healthy),
  weigh-ext _ _ s.warm_bucket (staleness-Refreshes b now h k c warm),
  weigh-ext _ _ s.risky_bucket (staleness-Refreshes b now h k c risky),
)

tier_eq_refl : (t : AccountHealthTier) → tier_eq t t ≡ true
unfolding tier_eq
tier_eq_refl t = ground arith

bool_eq_refl : (b : Bool) → bool_eq b b ≡ true
unfolding bool_eq
bool_eq_refl b = ground arith

-- An entry that has just been made is not stale.
fresh_entry : (id : ℕ) (snap : Snapshot) → is_stale snap.tier (entry_of id snap) snap ≡ false
unfolding is_stale score_moved
fresh_entry id snap = ground (arith, tier_eq_refl snap.tier, bool_eq_refl snap.proven)

pub remove_locked-fields :
    (id : ℕ) (s : FastScheduler)
    → ((remove_locked id s).base_limit ≡ s.base_limit)
      × ((remove_locked id s).group_check ≡ s.group_check)
unfolding remove_locked
remove_locked-fields id s = ground arith

place-fields :
    (id : ℕ) (snap : Snapshot) (w : World)
    → ((place id snap w).scheduler.base_limit ≡ w.scheduler.base_limit)
      × ((place id snap w).scheduler.group_check ≡ w.scheduler.group_check)
      × ((place id snap w).accounts ≡ w.accounts)
unfolding place
place-fields id snap w = ground arith

-- What a round that found a stale entry achieves.
pub record Mended (now : ℕ) (w w' : World) : Type 0 where
  pub indexed : Indexed w'.scheduler
  pub kept : Kept now w w'
  pub fewer : stale_entries now w' < stale_entries now w

-- The move of an entry, in terms of the accounts that it leaves.
module _ (now : ℕ) (w : World) (k : Heap) (calm : Refreshes w.scheduler.base_limit now w.accounts k)
    (v : Indexed w.scheduler) (t : AccountHealthTier) (i : ℕ) (e : Entry)
    (ok : is_schedulable t ≡ true) (at : get_elem? (bucket t w.scheduler) i ≡ some e)
    (off : is_stale t e (fast_scheduler_snapshot w.scheduler.base_limit now (w.accounts e.db_id)).1
      ≡ true) where
  abbrev removed : World
  removed = record { scheduler = remove_locked e.db_id w.scheduler; accounts = k }

  removed-fewer :
      weight (staleness w.scheduler.base_limit now w.accounts) removed.scheduler
      < stale_entries now w
  removed-fewer = ground (
    arith,
    weight-remove_locked (staleness w.scheduler.base_limit now w.accounts) w.scheduler v t i e ok
        at,
    off,
  )

  removed-stale :
      (x : World)
      → Kept now w x
      → stale_entries now x ≡ weight (staleness w.scheduler.base_limit now w.accounts) x.scheduler
  removed-stale x kept =
      subst
        (λ b.
          weight (staleness b now x.accounts) x.scheduler
          ≡ weight (staleness w.scheduler.base_limit now w.accounts) x.scheduler)
        (sym kept.base)
        (weight-Refreshes w.scheduler.base_limit now w.accounts x.accounts x.scheduler
          kept.snapshots)

  removed-Kept : Kept now w removed
  removed-Kept =
      let (base, check) = remove_locked-fields e.db_id w.scheduler in
      record { base = base; check = check; snapshots = calm }

  pub removed-Mended : Mended now w removed
  removed-Mended = record {
    indexed = (remove_locked-Removed e.db_id w.scheduler v).indexed;
    kept = removed-Kept;
    fewer = ground (arith, removed-stale removed removed-Kept, removed-fewer);
  }

  abbrev snapped : Snapshot
  snapped = (fast_scheduler_snapshot w.scheduler.base_limit now (w.accounts e.db_id)).1

  placed-Kept : Kept now w (place e.db_id snapped removed)
  placed-Kept =
      let (base, check) = remove_locked-fields e.db_id w.scheduler in
      let (base', check', heap) = place-fields e.db_id snapped removed in
      record {
        base = base' ∙ base;
        check = check' ∙ check;
        snapshots = subst (Refreshes w.scheduler.base_limit now w.accounts) (sym heap) calm;
      }

  placed-fewer :
      weight
        (staleness w.scheduler.base_limit now w.accounts)
        (place e.db_id snapped removed).scheduler
      < stale_entries now w
  placed-fewer = ground (
    arith,
    removed-fewer,
    fresh_entry e.db_id snapped,
    weight-place (staleness w.scheduler.base_limit now w.accounts) e.db_id snapped removed,
  )

  pub placed-Mended : Mended now w (place e.db_id snapped removed)
  placed-Mended =
      let out = remove_locked-Removed e.db_id w.scheduler v in
      record {
        indexed = (place-Placed e.db_id snapped removed out.indexed out.gone).indexed;
        kept = placed-Kept;
        fewer =
            ground (arith, removed-stale (place e.db_id snapped removed) placed-Kept, placed-fewer);
      }
