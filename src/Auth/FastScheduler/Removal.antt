-- ===== src/Auth/FastScheduler/Removal.antt =====
-- `removeLocked`: the account goes from wherever it stood, and the index stays exact.
use qoder2api.Prelude.{
  ℕ, ◌+◌, ◌<◌, ◌≡◌, refl, arith, true, false, none, some, if◌then◌else◌, ◌==◌, leb, inl, inr,
  Option-cases,
}
use qoder2api.Auth.Account.{AccountHealthTier, healthy, warm, risky, unset, banned}
use qoder2api.Auth.FastScheduler.{Position, FastScheduler, bucket, set_bucket}
use qoder2api.Auth.FastScheduler.Buckets.{
  rebuild_positions, remove_at, remove_locked, is_schedulable, delete_position,
}
use qoder2api.Auth.FastScheduler.Positions.{
  copies, last_at, locate, placed, Indexed, last_at-some, last_at-none, last_at-absent,
  rebuild_positions-Indexed, nowhere,
}

leb-false : (a b : ℕ) → b < a → leb a b ≡ false
leb-false a b h = ground arith

-- `removeLocked` takes the account out, wherever it was, and moves no other.
pub record Removed (id : ℕ) (s s' : FastScheduler) : Type 0 where
  pub indexed : Indexed s'
  pub gone : placed id s' ≡ 0
  pub rest : (j : ℕ) → (j == id) ≡ false → placed j s' ≡ placed j s

locate-none : (id : ℕ) (s : FastScheduler) → locate id s ≡ none → placed id s ≡ 0
locate-none id s h = ground (
  arith,
  last_at-none id healthy 0 s.healthy_bucket,
  last_at-none id warm 0 s.warm_bucket,
  last_at-none id risky 0 s.risky_bucket,
)

-- One lemma for each tier: the entry at `k` is the account's only place, and goes.
module _ (id k : ℕ) (s : FastScheduler) (v : Indexed s) where
  remove_at-Removed :
      (t : AccountHealthTier)
      → is_schedulable t ≡ true
      → ((i : ℕ)
          → (if i == id then 1 else 0) + copies i (remove_at k (bucket t s))
            ≡ copies i (bucket t s))
      → Removed id s
          (rebuild_positions t (delete_position id (set_bucket t (remove_at k (bucket t s)) s)))
  unfolding rebuild_positions
  remove_at-Removed healthy ok count = record {
    indexed =
        rebuild_positions-Indexed healthy (delete_position id s) (remove_at k s.healthy_bucket) refl
          (λ j. omega (arith, v.once j, count j))
          (λ j none'. ground (
            arith,
            v.once j,
            v.once id,
            v.exact j,
            count j,
            count id,
            nowhere j s,
            last_at-absent j healthy 0 (remove_at k s.healthy_bucket),
          ));
    gone = ground (arith, v.once id, count id);
    rest = λ j other. ground (arith, count j);
  }
  remove_at-Removed warm ok count = record {
    indexed =
        rebuild_positions-Indexed warm (delete_position id s) (remove_at k s.warm_bucket) refl
          (λ j. omega (arith, v.once j, count j))
          (λ j none'. ground (
            arith,
            v.once j,
            v.once id,
            v.exact j,
            count j,
            count id,
            nowhere j s,
            last_at-absent j warm 0 (remove_at k s.warm_bucket),
          ));
    gone = ground (arith, v.once id, count id);
    rest = λ j other. ground (arith, count j);
  }
  remove_at-Removed risky ok count = record {
    indexed =
        rebuild_positions-Indexed risky (delete_position id s) (remove_at k s.risky_bucket) refl
          (λ j. omega (arith, v.once j, count j))
          (λ j none'. ground (
            arith,
            v.once j,
            v.once id,
            v.exact j,
            count j,
            count id,
            nowhere j s,
            last_at-absent j risky 0 (remove_at k s.risky_bucket),
          ));
    gone = ground (arith, v.once id, count id);
    rest = λ j other. ground (arith, count j);
  }
  remove_at-Removed unset ok count = absurd (ground arith)
  remove_at-Removed banned ok count = absurd (ground arith)

-- Where the index points, the account stands, and its entry is the one that goes.
module _ (id : ℕ) (s : FastScheduler) (v : Indexed s) where
  found-Removed :
      (t : AccountHealthTier) (p : Position)
      → is_schedulable t ≡ true
      → s.positions id ≡ some p
      → last_at id t 0 (bucket t s) ≡ some p
      → Removed id s (remove_locked id s)
  unfolding remove_locked
  found-Removed t p ok e h =
      let (k, at, lt, count) = last_at-some id t 0 (bucket t s) p h in
      let here : s.positions id ≡ some (record { tier = t; index = k }) = ground (arith, at) in
      rw (here, remove_locked, leb-false _ _ lt) (remove_at-Removed id k s v t ok count)

pub remove_locked-Removed :
    (id : ℕ) (s : FastScheduler) → Indexed s → Removed id s (remove_locked id s)
unfolding remove_locked
remove_locked-Removed id s v = elim (Option-cases (s.positions id)) [
  | inl e ↦
      rw (e, remove_locked)
        (record {
          indexed = v;
          gone = locate-none id s (ground (arith, v.exact id));
          rest = λ j h. refl;
        })
  | inr (p, e) ↦ elim (Option-cases (last_at id healthy 0 s.healthy_bucket)) [
    | inr (q, h) ↦ found-Removed id s v healthy p refl e (ground (arith, v.exact id))
    | inl h ↦ elim (Option-cases (last_at id warm 0 s.warm_bucket)) [
      | inr (q, w) ↦ found-Removed id s v warm p refl e (ground (arith, v.exact id))
      | inl w ↦ found-Removed id s v risky p refl e (ground (arith, v.exact id))
    ]
  ]
]
