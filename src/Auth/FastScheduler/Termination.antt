-- ===== src/Auth/FastScheduler/Termination.antt =====
-- `AcquireExcludingWithFilter` ends, and what it returns is granted.
use qoder2api.Prelude.{
  ℕ, zero, suc, ◌+◌, ◌<◌, ◌%◌, ◌≡◌, refl, arith, true, not, ◌&&◌, List, [], ◌∷◌, Option, none, some,
  ◌==◌, length, inl, inr, Bool-cases, ◌∙◌, sym, subst, get_elem?, ◌⊎◌, ==_refl, ap,
}
use qoder2api.Auth.Account.{AccountHealthTier, healthy, warm, risky, unset, banned}
use qoder2api.Auth.Availability.{fast_scheduler_snapshot}
use qoder2api.Auth.Availability.Snapshots.{fast_scheduler_snapshot_idem}
use qoder2api.Auth.FastScheduler.{Entry, Heap, World, write, bucket}
use qoder2api.Auth.FastScheduler.Buckets.{remove_locked, is_schedulable}
use qoder2api.Auth.FastScheduler.Positions.{Indexed}
use qoder2api.Auth.FastScheduler.Scan.{
  Request, Outcome, acquired, stale, nothing, visit, scan_from, is_stale, move_entry, scan_tier,
  scan_tiers, tier_order, acquire_excluding_with_filter,
}
use qoder2api.Auth.FastScheduler.Rounds.{
  Refreshes, Refreshes-trans, Calm, Calm-Kept, Kept, Grants, Grants-Kept, scan_from-Round,
}
use qoder2api.Auth.FastScheduler.Acquire.{
  scan_bucket-cases, scan_tier-nothing, scan_tiers-cases, scan_tiers-Grants,
}
use qoder2api.Auth.FastScheduler.Progress.{
  stale_entries, weight-Refreshes, Mended, remove_locked-fields, removed-Mended, placed-Mended,
}

Calm-Indexed : (now : ℕ) (w v : World) → Calm now w v → Indexed w.scheduler → Indexed v.scheduler
Calm-Indexed now w v c ix = record {
  once = λ j. rw (c.healthy_same, c.warm_same, c.risky_same) (ix.once j);
  exact = λ j. rw (c.healthy_same, c.warm_same, c.risky_same, c.positions_same) (ix.exact j);
}

Calm-bucket :
    (now : ℕ) (w v : World)
    → Calm now w v
    → (t : AccountHealthTier) → bucket t v.scheduler ≡ bucket t w.scheduler
Calm-bucket now w v c healthy = c.healthy_same
Calm-bucket now w v c warm = c.warm_same
Calm-bucket now w v c risky = c.risky_same
Calm-bucket now w v c unset = refl
Calm-bucket now w v c banned = refl

Calm-stale_entries :
    (now : ℕ) (w v : World) → Calm now w v → stale_entries now v ≡ stale_entries now w
Calm-stale_entries now w v c =
    rw (c.healthy_same, c.warm_same, c.risky_same, c.base)
      (weight-Refreshes w.scheduler.base_limit now w.accounts v.accounts w.scheduler c.snapshots)

Kept-trans : (now : ℕ) (w v u : World) → Kept now w v → Kept now v u → Kept now w u
Kept-trans now w v u p q = record {
  base = q.base ∙ p.base;
  check = q.check ∙ p.check;
  snapshots =
      Refreshes-trans w.scheduler.base_limit now w.accounts v.accounts u.accounts p.snapshots
        (subst (λ b. Refreshes b now v.accounts u.accounts) p.base q.snapshots);
}

Calm-Mended : (now : ℕ) (w v w' : World) → Calm now w v → Mended now v w' → Mended now w w'
Calm-Mended now w v w' c m = record {
  indexed = m.indexed;
  kept = Kept-trans now w v w' (Calm-Kept c) m.kept;
  fewer = ground (arith, m.fewer, Calm-stale_entries now w v c);
}

-- Where the loop body finds a stale entry, it moves it.
visit_stale :
    (t : AccountHealthTier) (now : ℕ) (e : Entry) (w w' : World)
    → visit t now e w ≡ (some stale, w')
    → let (a, snap) = fast_scheduler_snapshot w.scheduler.base_limit now (w.accounts e.db_id) in
      (is_stale t e snap ≡ true)
      × (w' ≡ move_entry now e.db_id snap (record w { accounts = write w.accounts e.db_id a }))
unfolding visit
visit_stale t now e w w' h = ground arith

Refreshes-write :
    (b now : ℕ) (h : Heap) (id : ℕ)
    → Refreshes b now h (write h id (fast_scheduler_snapshot b now (h id)).0)
Refreshes-write b now h id j = ground arith

-- The account as its snapshot leaves it, in the heap.
abbrev snapped_heap : ℕ → World → Entry → Heap
snapped_heap now w e =
    write w.accounts e.db_id
      (fast_scheduler_snapshot w.scheduler.base_limit now (w.accounts e.db_id)).0

snapped_heap-again :
    (now : ℕ) (w : World) (e : Entry)
    → fast_scheduler_snapshot
        (remove_locked e.db_id w.scheduler).base_limit
        now
        (snapped_heap now w e e.db_id)
      ≡ fast_scheduler_snapshot w.scheduler.base_limit now (w.accounts e.db_id)
snapped_heap-again now w e =
    rw ((remove_locked-fields e.db_id w.scheduler).0, ==_refl e.db_id)
      (fast_scheduler_snapshot_idem w.scheduler.base_limit now (w.accounts e.db_id))

snapped_heap-Refreshes :
    (now : ℕ) (w : World) (e : Entry)
    → Refreshes w.scheduler.base_limit now w.accounts (
        write
          (snapped_heap now w e)
          e.db_id
          (fast_scheduler_snapshot w.scheduler.base_limit now (w.accounts e.db_id)).0)
snapped_heap-Refreshes now w e j = ground arith

move_entry-Mended :
    (t : AccountHealthTier) (now i : ℕ) (e : Entry) (w : World)
    → Indexed w.scheduler
    → is_schedulable t ≡ true
    → get_elem? (bucket t w.scheduler) i ≡ some e
    → is_stale t e (fast_scheduler_snapshot w.scheduler.base_limit now (w.accounts e.db_id)).1
      ≡ true
    → Mended now w (
        move_entry now e.db_id
          (fast_scheduler_snapshot w.scheduler.base_limit now (w.accounts e.db_id)).1
          (record w { accounts = snapped_heap now w e }))
unfolding move_entry
move_entry-Mended t now i e w v ok at off =
    let snap = (fast_scheduler_snapshot w.scheduler.base_limit now (w.accounts e.db_id)).1 in
    elim (Bool-cases (snap.available && not (snap.limit == 0))) [
      | inr out ↦ rw out (
          removed-Mended now w (snapped_heap now w e)
            (Refreshes-write w.scheduler.base_limit now w.accounts e.db_id) v t i e ok at off)
      | inl fit ↦
          rw (fit, snapped_heap-again now w e)
            (placed-Mended now w
              (write (snapped_heap now w e) e.db_id
                (fast_scheduler_snapshot w.scheduler.base_limit now (w.accounts e.db_id)).0)
              (snapped_heap-Refreshes now w e) v t i e ok at off)
    ]

module _ (t : AccountHealthTier) (ok : is_schedulable t ≡ true) (now : ℕ) (r : Request) where
  scan_from-stale :
      (es : List Entry) (start left offset : ℕ) (w w' : World)
      → Indexed w.scheduler
      → es ≡ bucket t w.scheduler
      → scan_from t now r es start left offset w ≡ (stale, w')
      → Mended now w w'
  unfolding scan_from
  scan_from-stale es start zero offset w w' v same h = absurd (ground arith)
  scan_from-stale es start (suc left) offset w w' v same h =
      elim (scan_from-Round t now r es start left offset w w' stale h) [
        | inl (u, calm, rest) ↦ Calm-Mended now w u w' calm (
            scan_from-stale es start left (suc offset) u w' (Calm-Indexed now w u calm v)
              (same ∙ sym (Calm-bucket now w u calm t)) rest)
        | inr (e, hit, _, done) ↦
            let (off, end) = visit_stale t now e w w' done in
            subst (Mended now w) (sym end) (
              move_entry-Mended t now ((start + offset) % length es) e w v ok
                (subst (λ b. get_elem? b ((start + offset) % length es) ≡ some e) same hit) off)
      ]

  scan_tier-stale :
      (w w' : World) → Indexed w.scheduler → scan_tier t now r w ≡ (stale, w') → Mended now w w'
  unfolding scan_tier
  scan_tier-stale w w' v h = elim (scan_bucket-cases t now r (bucket t w.scheduler) w w' stale h) [
    | inl (e, _) ↦ absurd (ground arith)
    | inr (start, u, calm, got) ↦ Calm-Mended now w u w' calm (
        scan_from-stale (bucket t w.scheduler) start _ 0 u w' (Calm-Indexed now w u calm v)
          (sym (Calm-bucket now w u calm t)) got)
  ]

abbrev AllSchedulable : List AccountHealthTier → Type 0
AllSchedulable [] = Unit
AllSchedulable (t ∷ ts) = (is_schedulable t ≡ true) × AllSchedulable ts

scan_tiers-stale :
    (ts : List AccountHealthTier) (now : ℕ) (r : Request) (w w' : World)
    → AllSchedulable ts
    → Indexed w.scheduler
    → scan_tiers ts now r w ≡ (stale, w')
    → Mended now w w'
unfolding scan_tiers
scan_tiers-stale [] now r w w' ok v h = absurd (ground arith)
scan_tiers-stale (t ∷ ts) now r w w' (ok, more) v h =
    elim (scan_tiers-cases t ts now r w w' stale h) [
      | inl here ↦ scan_tier-stale t ok now r w w' v here
      | inr (u, none', later) ↦
          let calm = scan_tier-nothing t now r w u none' in
          Calm-Mended now w u w' calm
            (scan_tiers-stale ts now r u w' more (Calm-Indexed now w u calm v) later)
    ]

tiers_cases :
    (now : ℕ) (r : Request) (w : World)
    → ((id : ℕ) × (w' : World) × (scan_tiers tier_order now r w ≡ (acquired id, w')))
      ⊎ (((w' : World) × (scan_tiers tier_order now r w ≡ (nothing, w')))
          ⊎ ((w' : World) × (scan_tiers tier_order now r w ≡ (stale, w'))))
tiers_cases now r w = split (scan_tiers tier_order now r w).0 refl
  where
    split :
        (q : Outcome)
        → (scan_tiers tier_order now r w).0 ≡ q
        → ((id : ℕ) × (w' : World) × (scan_tiers tier_order now r w ≡ (acquired id, w')))
          ⊎ (((w' : World) × (scan_tiers tier_order now r w ≡ (nothing, w')))
              ⊎ ((w' : World) × (scan_tiers tier_order now r w ≡ (stale, w'))))
    split (acquired i) e =
        inl
          (i, (scan_tiers tier_order now r w).1, ap (λ o. (o, (scan_tiers tier_order now r w).1)) e)
    split nothing e = inr (
        inl ((scan_tiers tier_order now r w).1, ap (λ o. (o, (scan_tiers tier_order now r w).1)) e))
    split stale e = inr (
        inr ((scan_tiers tier_order now r w).1, ap (λ o. (o, (scan_tiers tier_order now r w).1)) e))

-- On an exact index, more fuel than there are entries out of date is enough for an acquisition
-- to end with a result.
pub acquire_excluding_with_filter-ends :
    (fuel now : ℕ) (r : Request) (w : World)
    → Indexed w.scheduler
    → stale_entries now w < fuel
    → (o : Option ℕ) × (w' : World) × (acquire_excluding_with_filter fuel now r w ≡ some (o, w'))
unfolding acquire_excluding_with_filter
acquire_excluding_with_filter-ends zero now r w v h = absurd (omega arith)
acquire_excluding_with_filter-ends (suc fuel) now r w v h = elim (tiers_cases now r w) [
  | inl (id, w', e) ↦ (some id, w', rw e refl)
  | inr (inl (w', e)) ↦ (none, w', rw e refl)
  | inr (inr (w', e)) ↦
      let m = scan_tiers-stale tier_order now r w w' (refl, (refl, (refl, tt))) v e in
      let (o, u, done) =
        acquire_excluding_with_filter-ends fuel now r w' m.indexed (omega (arith, m.fewer)) in
      (o, u, rw e done)
]

-- An account that an acquisition on an exact index returns was asked for, allowed to the caller's
-- key, available and below its limit when the slot was taken, and one slot was taken; until then
-- accounts had only their snapshots taken.
pub acquire_excluding_with_filter-Grants :
    (fuel now : ℕ) (r : Request) (w w' : World) (id : ℕ)
    → Indexed w.scheduler
    → acquire_excluding_with_filter fuel now r w ≡ some (some id, w')
    → Grants r now id w w'
unfolding acquire_excluding_with_filter
acquire_excluding_with_filter-Grants zero now r w w' id v h = absurd (ground arith)
acquire_excluding_with_filter-Grants (suc fuel) now r w w' id v h = elim (tiers_cases now r w) [
  | inl (i, u, e) ↦ scan_tiers-Grants tier_order now r w w' id (ground arith)
  | inr (inl (u, e)) ↦ absurd (ground arith)
  | inr (inr (u, e)) ↦
      let m = scan_tiers-stale tier_order now r w u (refl, (refl, (refl, tt))) v e in
      Grants-Kept r now id w u w' m.kept
        (acquire_excluding_with_filter-Grants fuel now r u w' id m.indexed (rw e at h))
]
