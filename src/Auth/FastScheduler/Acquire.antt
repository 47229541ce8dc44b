-- ===== src/Auth/FastScheduler/Acquire.antt =====
-- `AcquireExcludingWithFilter`: what it returns is granted.
use qoder2api.Prelude.{
  ℕ, ◌%◌, ◌≡◌, refl, arith, List, [], ◌∷◌, length, inl, inr, Bool-cases, sym, subst, ◌⊎◌,
}
use qoder2api.Auth.Account.{AccountHealthTier, healthy, warm, risky, unset, banned}
use qoder2api.Auth.FastScheduler.{Entry, World, bump_cursor, cursor, bucket}
use qoder2api.Auth.FastScheduler.Scan.{
  Request, Outcome, acquired, stale, nothing, scan_from, scan_bucket, scan_tier, scan_tiers,
  uses_cursor,
}
use qoder2api.Auth.FastScheduler.Rounds.{
  Calm, Calm-refl, Calm-trans, Calm-Kept, Grants, Grants-Kept, scan_from-Grants, scan_from-nothing,
}

Calm-bump :
    (t : AccountHealthTier) (now : ℕ) (w : World)
    → Calm now w (record w { scheduler = bump_cursor t w.scheduler })
Calm-bump healthy now w = record {
  base = refl;
  check = refl;
  mode = refl;
  healthy_same = refl;
  warm_same = refl;
  risky_same = refl;
  positions_same = refl;
  snapshots = λ j. inl refl;
}
Calm-bump warm now w = record {
  base = refl;
  check = refl;
  mode = refl;
  healthy_same = refl;
  warm_same = refl;
  risky_same = refl;
  positions_same = refl;
  snapshots = λ j. inl refl;
}
Calm-bump risky now w = record {
  base = refl;
  check = refl;
  mode = refl;
  healthy_same = refl;
  warm_same = refl;
  risky_same = refl;
  positions_same = refl;
  snapshots = λ j. inl refl;
}
Calm-bump unset now w = Calm-refl now w
Calm-bump banned now w = Calm-refl now w

-- A scan of a bucket is a scan of its entries from some start.
pub scan_bucket-cases :
    (t : AccountHealthTier) (now : ℕ) (r : Request) (es : List Entry) (w w' : World) (o : Outcome)
    → scan_bucket t now r es w ≡ (o, w')
    → ((o ≡ nothing) × (w' ≡ w))
      ⊎ ((start : ℕ) × (v : World) × Calm now w v
          × (scan_from t now r es start (length es) 0 v ≡ (o, w')))
unfolding scan_bucket
scan_bucket-cases t now r [] w w' o h = inl (ground arith)
scan_bucket-cases t now r (e ∷ es) w w' o h =
    elim (Bool-cases (uses_cursor w.scheduler.scheduler_mode)) [
      | inl on ↦ inr (
        cursor t w.scheduler % length (e ∷ es),
        record w { scheduler = bump_cursor t w.scheduler },
        Calm-bump t now w,
        ground arith,
      )
      | inr off ↦ inr (0, w, Calm-refl now w, ground arith)
    ]

pub scan_tier-Grants :
    (t : AccountHealthTier) (now : ℕ) (r : Request) (w w' : World) (id : ℕ)
    → scan_tier t now r w ≡ (acquired id, w')
    → Grants r now id w w'
unfolding scan_tier
scan_tier-Grants t now r w w' id h =
    elim (scan_bucket-cases t now r (bucket t w.scheduler) w w' (acquired id) h) [
      | inl (e, _) ↦ absurd (ground arith)
      | inr (start, v, calm, got) ↦
          Grants-Kept r now id w v w' (Calm-Kept calm)
            (scan_from-Grants t now r _ start _ 0 v w' id got)
    ]

pub scan_tier-nothing :
    (t : AccountHealthTier) (now : ℕ) (r : Request) (w w' : World)
    → scan_tier t now r w ≡ (nothing, w')
    → Calm now w w'
unfolding scan_tier
scan_tier-nothing t now r w w' h =
    elim (scan_bucket-cases t now r (bucket t w.scheduler) w w' nothing h) [
      | inl (_, e) ↦ subst (Calm now w) (sym e) (Calm-refl now w)
      | inr (start, v, calm, got) ↦
          Calm-trans now w v w' calm (scan_from-nothing t now r _ start _ 0 v w' got)
    ]

-- The next tier is scanned exactly if this one had nothing.
pub scan_tiers-cases :
    (t : AccountHealthTier) (ts : List AccountHealthTier) (now : ℕ) (r : Request) (w w' : World)
    (o : Outcome)
    → scan_tiers (t ∷ ts) now r w ≡ (o, w')
    → (scan_tier t now r w ≡ (o, w'))
      ⊎ ((v : World) × (scan_tier t now r w ≡ (nothing, v)) × (scan_tiers ts now r v ≡ (o, w')))
unfolding scan_tiers
scan_tiers-cases t ts now r w w' o h = split (scan_tier t now r w).0 refl
  where
    split :
        (q : Outcome)
        → (scan_tier t now r w).0 ≡ q
        → (scan_tier t now r w ≡ (o, w'))
          ⊎ ((v : World) × (scan_tier t now r w ≡ (nothing, v)) × (scan_tiers ts now r v ≡ (o, w')))
    split (acquired i) e = inl (ground arith)
    split stale e = inl (ground arith)
    split nothing e = inr ((scan_tier t now r w).1, ground arith, ground arith)

pub scan_tiers-Grants :
    (ts : List AccountHealthTier) (now : ℕ) (r : Request) (w w' : World) (id : ℕ)
    → scan_tiers ts now r w ≡ (acquired id, w')
    → Grants r now id w w'
unfolding scan_tiers
scan_tiers-Grants [] now r w w' id h = absurd (ground arith)
scan_tiers-Grants (t ∷ ts) now r w w' id h =
    elim (scan_tiers-cases t ts now r w w' (acquired id) h) [
      | inl here ↦ scan_tier-Grants t now r w w' id here
      | inr (v, none', later) ↦
          Grants-Kept r now id w v w' (Calm-Kept (scan_tier-nothing t now r w v none'))
            (scan_tiers-Grants ts now r v w' id later)
    ]
