-- ===== src/Auth/FastScheduler/Insertion.antt =====
-- `insertLocked` and the sorting of a bucket: the index stays exact, and each account stands where
-- it should.
use qoder2api.Prelude.{
  ℕ, ◌+◌, ◌≡◌, refl, arith, Bool, true, false, not, ◌&&◌, ◌||◌, List, [], ◌∷◌, ◌++◌, if◌then◌else◌,
  ◌==◌, inl, inr, Bool-cases, sym, subst,
}
use qoder2api.Auth.Account.{AccountHealthTier, healthy, warm, risky, unset, banned}
use qoder2api.Auth.Availability.{Snapshot}
use qoder2api.Auth.FastScheduler.{Entry, FastScheduler, World, bucket, set_bucket, sort_stable}
use qoder2api.Auth.FastScheduler.Buckets.{
  rebuild_positions, place, resort, resort_entries, entry_of, is_schedulable,
}
use qoder2api.Auth.FastScheduler.Positions.{
  copies, placed, Indexed, last_at-absent, copies-append, copies-sort_stable,
  rebuild_positions-Indexed, nowhere,
}

-- Whether `insertLocked` puts an account with this snapshot into a bucket.
abbrev pub is_placeable : Snapshot → Bool
is_placeable snap = snap.available && not (snap.limit == 0) && is_schedulable snap.tier

-- `insertLocked` adds at most the account, and moves no other between the buckets.
pub record Placed (id : ℕ) (snap : Snapshot) (s s' : FastScheduler) : Type 0 where
  pub indexed : Indexed s'
  pub here : placed id s' ≡ (if is_placeable snap then 1 else 0)
  pub rest : (j : ℕ) → (j == id) ≡ false → placed j s' ≡ placed j s

module _ (id : ℕ) (snap : Snapshot) (s : FastScheduler) (v : Indexed s) (new : placed id s ≡ 0)
    (less : Entry → Entry → Bool) where
  copies-grown :
      (j : ℕ) (es : List Entry)
      → copies j (sort_stable less (es ++ entry_of id snap ∷ []))
        ≡ copies j es + (if j == id then 1 else 0)
  copies-grown j es = omega (
    arith,
    copies-sort_stable less j (es ++ entry_of id snap ∷ []),
    copies-append j es (entry_of id snap ∷ []),
  )

  grown-Placed :
      (t : AccountHealthTier)
      → is_schedulable t ≡ true
      → is_placeable snap ≡ true
      → Placed id snap s (
          rebuild_positions t
            (set_bucket t (sort_stable less (bucket t s ++ entry_of id snap ∷ [])) s))
  unfolding rebuild_positions
  grown-Placed healthy ok can = record {
    indexed =
        rebuild_positions-Indexed healthy s _ refl
          (λ j. ground (arith, v.once j, new, copies-grown j s.healthy_bucket))
          (λ j none'. ground (
            arith,
            v.exact j,
            copies-grown j s.healthy_bucket,
            nowhere j s,
            last_at-absent j healthy 0
                (sort_stable less (s.healthy_bucket ++ entry_of id snap ∷ [])),
          ));
    here = ground (arith, new, copies-grown id s.healthy_bucket);
    rest = λ j other. ground (arith, copies-grown j s.healthy_bucket);
  }
  grown-Placed warm ok can = record {
    indexed =
        rebuild_positions-Indexed warm s _ refl
          (λ j. ground (arith, v.once j, new, copies-grown j s.warm_bucket))
          (λ j none'. ground (
            arith,
            v.exact j,
            copies-grown j s.warm_bucket,
            nowhere j s,
            last_at-absent j warm 0 (sort_stable less (s.warm_bucket ++ entry_of id snap ∷ [])),
          ));
    here = ground (arith, new, copies-grown id s.warm_bucket);
    rest = λ j other. ground (arith, copies-grown j s.warm_bucket);
  }
  grown-Placed risky ok can = record {
    indexed =
        rebuild_positions-Indexed risky s _ refl
          (λ j. ground (arith, v.once j, new, copies-grown j s.risky_bucket))
          (λ j none'. ground (
            arith,
            v.exact j,
            copies-grown j s.risky_bucket,
            nowhere j s,
            last_at-absent j risky 0 (sort_stable less (s.risky_bucket ++ entry_of id snap ∷ [])),
          ));
    here = ground (arith, new, copies-grown id s.risky_bucket);
    rest = λ j other. ground (arith, copies-grown j s.risky_bucket);
  }
  grown-Placed unset ok can = absurd (ground arith)
  grown-Placed banned ok can = absurd (ground arith)

pub place-Placed :
    (id : ℕ) (snap : Snapshot) (w : World)
    → Indexed w.scheduler
    → placed id w.scheduler ≡ 0
    → Placed id snap w.scheduler (place id snap w).scheduler
unfolding place
place-Placed id snap w v new = elim (Bool-cases (not snap.available || snap.limit == 0)) [
  | inl out ↦ rw out (record { indexed = v; here = ground (arith, new); rest = λ j h. refl })
  | inr fit ↦ rw fit (elim (Bool-cases (is_schedulable snap.tier)) [
    | inr off ↦ rw off (record { indexed = v; here = ground (arith, new); rest = λ j h. refl })
    | inl on ↦ rw on (grown-Placed id snap w.scheduler v new _ snap.tier on (ground arith))
  ])
]

-- `resort` sorts one bucket anew; no account changes its bucket.
pub record Resorted (s s' : FastScheduler) : Type 0 where
  pub indexed : Indexed s'
  pub same : (j : ℕ) → placed j s' ≡ placed j s

module _ (less : Entry → Entry → Bool) (s : FastScheduler) (v : Indexed s) where
  sorted-Resorted :
      (t : AccountHealthTier)
      → is_schedulable t ≡ true
      → Resorted s (rebuild_positions t (set_bucket t (sort_stable less (bucket t s)) s))
  unfolding rebuild_positions
  sorted-Resorted healthy ok = record {
    indexed =
        rebuild_positions-Indexed healthy s _ refl
          (λ j. omega (arith, v.once j, copies-sort_stable less j s.healthy_bucket))
          (λ j none'. ground (
            arith,
            v.exact j,
            copies-sort_stable less j s.healthy_bucket,
            nowhere j s,
            last_at-absent j healthy 0 (sort_stable less s.healthy_bucket),
          ));
    same = λ j. omega (arith, copies-sort_stable less j s.healthy_bucket);
  }
  sorted-Resorted warm ok = record {
    indexed =
        rebuild_positions-Indexed warm s _ refl
          (λ j. omega (arith, v.once j, copies-sort_stable less j s.warm_bucket))
          (λ j none'. ground (
            arith,
            v.exact j,
            copies-sort_stable less j s.warm_bucket,
            nowhere j s,
            last_at-absent j warm 0 (sort_stable less s.warm_bucket),
          ));
    same = λ j. omega (arith, copies-sort_stable less j s.warm_bucket);
  }
  sorted-Resorted risky ok = record {
    indexed =
        rebuild_positions-Indexed risky s _ refl
          (λ j. omega (arith, v.once j, copies-sort_stable less j s.risky_bucket))
          (λ j none'. ground (
            arith,
            v.exact j,
            copies-sort_stable less j s.risky_bucket,
            nowhere j s,
            last_at-absent j risky 0 (sort_stable less s.risky_bucket),
          ));
    same = λ j. omega (arith, copies-sort_stable less j s.risky_bucket);
  }
  sorted-Resorted unset ok = absurd (ground arith)
  sorted-Resorted banned ok = absurd (ground arith)

  entries-Resorted :
      (t : AccountHealthTier) (es : List Entry)
      → is_schedulable t ≡ true
      → es ≡ bucket t s
      → Resorted s (resort_entries less t s es)
  unfolding resort_entries
  entries-Resorted t [] ok e = record { indexed = v; same = λ j. refl }
  entries-Resorted t (f ∷ fs) ok e =
      subst (λ b. Resorted s (rebuild_positions t (set_bucket t (sort_stable less b) s))) (sym e)
        (sorted-Resorted t ok)

  pub resort-Resorted :
      (t : AccountHealthTier) → is_schedulable t ≡ true → Resorted s (resort less t s)
  unfolding resort
  resort-Resorted t ok = entries-Resorted t (bucket t s) ok refl
