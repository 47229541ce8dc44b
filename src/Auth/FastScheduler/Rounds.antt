-- ===== src/Auth/FastScheduler/Rounds.antt =====
-- One scan of a bucket: what it keeps, and what it grants.
use qoder2api.Prelude.{
  ℕ, zero, suc, ◌+◌, ◌<◌, ◌%◌, ◌≡◌, refl, arith, Bool, true, List, none, some, length, inl, inr,
  Option-cases, Bool-cases, ◌∙◌, sym, subst, get_elem?, ◌⊎◌, ==_refl, ap,
}
use qoder2api.Auth.Account.{Account, AccountHealthTier}
use qoder2api.Auth.Availability.{Snapshot, fast_scheduler_snapshot}
use qoder2api.Auth.Availability.Snapshots.{
  fast_scheduler_snapshot_idem, try_acquire_account_lem, fast_scheduler_snapshot-active,
}
use qoder2api.Auth.FastScheduler.{Entry, FastScheduler, Heap, World, write}
use qoder2api.Auth.FastScheduler.Scan.{
  Request, Outcome, acquired, nothing, admits, visit, scan_from,
}

-- What a scan may do to the accounts that it passes over: take their snapshot.
abbrev pub Refreshes : ℕ → ℕ → Heap → Heap → Type 0
Refreshes b now h k = (j : ℕ) → (k j ≡ h j) ⊎ (k j ≡ (fast_scheduler_snapshot b now (h j)).0)

Refreshes-refl : (b now : ℕ) (h : Heap) → Refreshes b now h h
Refreshes-refl b now h j = inl refl

pub Refreshes-trans :
    (b now : ℕ) (h k l : Heap) → Refreshes b now h k → Refreshes b now k l → Refreshes b now h l
Refreshes-trans b now h k l p q j = ground (
  arith,
  p j,
  q j,
  ap (λ (x : Account × Snapshot). x.0) (fast_scheduler_snapshot_idem b now (h j)),
)

-- What every round of a scan keeps: the limit, the group check, and the accounts but for their
-- snapshots.
pub record Kept (now : ℕ) (w v : World) : Type 0 where
  pub base : v.scheduler.base_limit ≡ w.scheduler.base_limit
  pub check : v.scheduler.group_check ≡ w.scheduler.group_check
  pub snapshots : Refreshes w.scheduler.base_limit now w.accounts v.accounts

-- What a scan that finds nothing leaves as it was: all but the cursors and the accounts' snapshots.
pub record Calm (now : ℕ) (w v : World) : Type 0 where
  pub base : v.scheduler.base_limit ≡ w.scheduler.base_limit
  pub check : v.scheduler.group_check ≡ w.scheduler.group_check
  pub mode : v.scheduler.scheduler_mode ≡ w.scheduler.scheduler_mode
  pub healthy_same : v.scheduler.healthy_bucket ≡ w.scheduler.healthy_bucket
  pub warm_same : v.scheduler.warm_bucket ≡ w.scheduler.warm_bucket
  pub risky_same : v.scheduler.risky_bucket ≡ w.scheduler.risky_bucket
  pub positions_same : v.scheduler.positions ≡ w.scheduler.positions
  pub snapshots : Refreshes w.scheduler.base_limit now w.accounts v.accounts

pub Calm-refl : (now : ℕ) (w : World) → Calm now w w
Calm-refl now w = record {
  base = refl;
  check = refl;
  mode = refl;
  healthy_same = refl;
  warm_same = refl;
  risky_same = refl;
  positions_same = refl;
  snapshots = λ j. inl refl;
}

pub Calm-trans : (now : ℕ) (w v u : World) → Calm now w v → Calm now v u → Calm now w u
Calm-trans now w v u p q = record {
  base = q.base ∙ p.base;
  check = q.check ∙ p.check;
  mode = q.mode ∙ p.mode;
  healthy_same = q.healthy_same ∙ p.healthy_same;
  warm_same = q.warm_same ∙ p.warm_same;
  risky_same = q.risky_same ∙ p.risky_same;
  positions_same = q.positions_same ∙ p.positions_same;
  snapshots =
      Refreshes-trans w.scheduler.base_limit now w.accounts v.accounts u.accounts p.snapshots
        (subst (λ b. Refreshes b now v.accounts u.accounts) p.base q.snapshots);
}

pub Calm-Kept : {now : ℕ} {w v : World} → Calm now w v → Kept now w v
Calm-Kept c = record { base = c.base; check = c.check; snapshots = c.snapshots }

-- The account was asked for, allowed and available, and had a free slot, which is taken now.
pub record Granted (r : Request) (base : ℕ) (check : ℕ → Account → Bool) (now id : ℕ) (k k' : Heap)
    : Type 0 where
  pub asked : (e : Entry) × (e.db_id ≡ id) × (admits r check e (k id) ≡ true)
  pub available : (fast_scheduler_snapshot base now (k id)).1.available ≡ true
  pub below : (k id).active_requests < (fast_scheduler_snapshot base now (k id)).1.limit
  pub taken : (k' id).active_requests ≡ (k id).active_requests + 1

module _ (t : AccountHealthTier) (now : ℕ) (e : Entry) (w : World) where
  pub visit_passed :
      (w' : World)
      → visit t now e w ≡ (none, w')
      → (w'.scheduler ≡ w.scheduler)
        × (w'.accounts
            ≡ write w.accounts e.db_id
                (fast_scheduler_snapshot w.scheduler.base_limit now (w.accounts e.db_id)).0)
  unfolding visit
  visit_passed w' h = ground arith

  -- The loop body never gives up for the whole bucket.
  pub visit_ends : (w' : World) → ¬ (visit t now e w ≡ (some nothing, w'))
  unfolding visit
  visit_ends w' h = ground arith

  visit_taken :
      (w' : World) (id : ℕ)
      → visit t now e w ≡ (some (acquired id), w')
      → let a = w.accounts e.db_id in
        let (a', snap) = fast_scheduler_snapshot w.scheduler.base_limit now a in
        (id ≡ e.db_id)
        × (w'.scheduler ≡ w.scheduler)
        × (snap.available ≡ true)
        × (a.active_requests < snap.limit)
        × ((w'.accounts e.db_id).active_requests ≡ a.active_requests + 1)
  unfolding visit
  visit_taken w' id h = ground (
    arith,
    ==_refl e.db_id,
    fast_scheduler_snapshot-active w.scheduler.base_limit now (w.accounts e.db_id),
    try_acquire_account_lem
        (fast_scheduler_snapshot w.scheduler.base_limit now (w.accounts e.db_id)).1.limit now
        (fast_scheduler_snapshot w.scheduler.base_limit now (w.accounts e.db_id)).0,
  )

  -- Passing an entry over changes only its account, and that as a snapshot does.
  visit-Calm : (w' : World) → visit t now e w ≡ (none, w') → Calm now w w'
  visit-Calm w' h =
      let (same, wrote) = visit_passed w' h in
      record {
        base = ap (λ (s : FastScheduler). s.base_limit) same;
        check = ap (λ (s : FastScheduler). s.group_check) same;
        mode = ap (λ (s : FastScheduler). s.scheduler_mode) same;
        healthy_same = ap (λ (s : FastScheduler). s.healthy_bucket) same;
        warm_same = ap (λ (s : FastScheduler). s.warm_bucket) same;
        risky_same = ap (λ (s : FastScheduler). s.risky_bucket) same;
        positions_same = ap (λ (s : FastScheduler). s.positions) same;
        snapshots = λ j. ground (arith, ap (λ (k : Heap). k j) wrote);
      }

-- One round of the scan: the entry was passed over, or it ended the scan.
module _ (t : AccountHealthTier) (now : ℕ) (r : Request) (es : List Entry) (start left offset : ℕ)
    (w w' : World) (o : Outcome) where
  abbrev pub Round : Type 0
  Round =
      ((v : World) × Calm now w v × (scan_from t now r es start left (suc offset) v ≡ (o, w')))
      ⊎ ((e : Entry) × (get_elem? es ((start + offset) % length es) ≡ some e)
          × (admits r w.scheduler.group_check e (w.accounts e.db_id) ≡ true)
          × (visit t now e w ≡ (some o, w')))

  pub scan_from-Round : scan_from t now r es start (suc left) offset w ≡ (o, w') → Round
  unfolding scan_from
  scan_from-Round h = elim (Option-cases (get_elem? es ((start + offset) % length es))) [
    | inl miss ↦ inl (w, Calm-refl now w, rw (miss, scan_from) at h)
    | inr (e, hit) ↦ elim (Bool-cases (admits r w.scheduler.group_check e (w.accounts e.db_id))) [
      | inr off ↦ inl (w, Calm-refl now w, ground (arith, hit))
      | inl ok ↦ elim (Option-cases (visit t now e w).0) [
        | inl passed ↦
            let v : World = (visit t now e w).1 in
            let at : visit t now e w ≡ (none, v) = ground arith in
            inl (v, visit-Calm t now e w v at, ground arith)
        | inr (found, done) ↦ inr (e, hit, ok, ground arith)
      ]
    ]
  ]

-- A slot was granted after a scan that may have refreshed other accounts.
abbrev pub Grants : Request → ℕ → ℕ → World → World → Type 0
Grants r now id w w' =
    (k : Heap) × Refreshes w.scheduler.base_limit now w.accounts k
    × Granted r w.scheduler.base_limit w.scheduler.group_check now id k w'.accounts

pub Grants-Kept :
    (r : Request) (now id : ℕ) (w v w' : World)
    → Kept now w v
    → Grants r now id v w'
    → Grants r now id w w'
Grants-Kept r now id w v w' c (k, more, got) = (
  k,
  Refreshes-trans w.scheduler.base_limit now w.accounts v.accounts k c.snapshots
      (subst (λ b. Refreshes b now v.accounts k) c.base more),
  subst (λ b. Granted r b w.scheduler.group_check now id k w'.accounts) c.base
      (subst (λ g. Granted r v.scheduler.base_limit g now id k w'.accounts) c.check got),
)

pub scan_from-Grants :
    (t : AccountHealthTier) (now : ℕ) (r : Request) (es : List Entry) (start left offset : ℕ)
    (w w' : World) (id : ℕ)
    → scan_from t now r es start left offset w ≡ (acquired id, w')
    → Grants r now id w w'
unfolding scan_from
scan_from-Grants t now r es start zero offset w w' id h = absurd (ground arith)
scan_from-Grants t now r es start (suc left) offset w w' id h =
    elim (scan_from-Round t now r es start left offset w w' (acquired id) h) [
      | inl (v, calm, rest) ↦
          Grants-Kept r now id w v w' (Calm-Kept calm)
            (scan_from-Grants t now r es start left (suc offset) v w' id rest)
      | inr (e, hit, ok, done) ↦
          let (same, kept, available, below, taken) = visit_taken t now e w w' id done in
          (
            w.accounts,
            λ j. inl refl,
            subst
                (λ i.
                  Granted r w.scheduler.base_limit w.scheduler.group_check now i w.accounts
                    w'.accounts)
                (sym same)
                (record {
                  asked = (e, refl, ok);
                  available = available;
                  below = below;
                  taken = taken;
                }),
          )
    ]

pub scan_from-nothing :
    (t : AccountHealthTier) (now : ℕ) (r : Request) (es : List Entry) (start left offset : ℕ)
    (w w' : World)
    → scan_from t now r es start left offset w ≡ (nothing, w')
    → Calm now w w'
unfolding scan_from
scan_from-nothing t now r es start zero offset w w' h =
    subst (Calm now w) (ground arith) (Calm-refl now w)
scan_from-nothing t now r es start (suc left) offset w w' h =
    elim (scan_from-Round t now r es start left offset w w' nothing h) [
      | inl (v, calm, rest) ↦
          Calm-trans now w v w' calm
            (scan_from-nothing t now r es start left (suc offset) v w' rest)
      | inr (e, hit, ok, done) ↦ absurd (visit_ends t now e w w' done)
    ]
