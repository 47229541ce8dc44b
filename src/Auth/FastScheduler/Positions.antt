-- ===== src/Auth/FastScheduler/Positions.antt =====
-- The index of positions is exact: every account stands in at most one place, and `positions` says
-- which.
use qoder2api.Prelude.{
  ℕ, suc, ◌+◌, ◌≤◌, ◌<◌, ◌≡◌, refl, arith, Bool, true, List, [], ◌∷◌, ◌++◌, Option, none, some,
  if◌then◌else◌, ◌==◌, length, inl, inr, Option-cases,
}
use qoder2api.Auth.Account.{AccountHealthTier, healthy, warm, risky, unset, banned}
use qoder2api.Auth.FastScheduler.{
  Entry, Position, FastScheduler, set_bucket, sort_stable, sort_insert,
}
use qoder2api.Auth.FastScheduler.Buckets.{index_from, rebuild_positions, remove_at, is_schedulable}

infixr 40 ◌or_else◌
abbrev pub ◌or_else◌ {ℓ} : {A : Type ℓ} → Option A → Option A → Option A
none or_else o = o
some a or_else o = some a

-- How often an account stands in a bucket.
abbrev pub copies : ℕ → List Entry → ℕ
copies j [] = 0
copies j (e ∷ es) = (if j == e.db_id then 1 else 0) + copies j es

-- The last place of an account in a bucket whose first index is `idx`.
abbrev pub last_at : ℕ → AccountHealthTier → ℕ → List Entry → Option Position
last_at j t idx [] = none
last_at j t idx (e ∷ es) =
    last_at j t (suc idx) es
    or_else (if j == e.db_id then some (record { tier = t; index = idx }) else none)

-- The place of an account in the three buckets.
abbrev pub locate : ℕ → FastScheduler → Option Position
locate j s =
    last_at j healthy 0 s.healthy_bucket
    or_else last_at j warm 0 s.warm_bucket
    or_else last_at j risky 0 s.risky_bucket

abbrev pub placed : ℕ → FastScheduler → ℕ
placed j s = copies j s.healthy_bucket + copies j s.warm_bucket + copies j s.risky_bucket

pub record Indexed (s : FastScheduler) : Type 0 where
  pub once : (j : ℕ) → placed j s ≤ 1
  pub exact : (j : ℕ) → s.positions j ≡ locate j s

pub index_from-last_at :
    (t : AccountHealthTier) (idx : ℕ) (es : List Entry) (pos : ℕ → Option Position) (j : ℕ)
    → index_from t idx es pos j ≡ (last_at j t idx es or_else pos j)
unfolding index_from
index_from-last_at t idx [] pos j = refl
index_from-last_at t idx (e ∷ es) pos j = ground (
  arith,
  index_from-last_at t (suc idx) es
      (λ i. if i == e.db_id then some (record { tier = t; index = idx }) else pos i) j,
)

pub last_at-absent :
    (j : ℕ) (t : AccountHealthTier) (idx : ℕ) (es : List Entry)
    → copies j es ≡ 0
    → last_at j t idx es ≡ none
last_at-absent j t idx [] h = refl
last_at-absent j t idx (e ∷ es) h = ground (arith, last_at-absent j t (suc idx) es)

pub last_at-none :
    (j : ℕ) (t : AccountHealthTier) (idx : ℕ) (es : List Entry)
    → last_at j t idx es ≡ none
    → copies j es ≡ 0
last_at-none j t idx [] h = refl
last_at-none j t idx (e ∷ es) h = ground (arith, last_at-none j t (suc idx) es)

-- Where an account was found, removing that index removes one copy of it.
pub last_at-some :
    (j : ℕ) (t : AccountHealthTier) (idx : ℕ) (es : List Entry) (p : Position)
    → last_at j t idx es ≡ some p
    → (k : ℕ) × (p ≡ record { tier = t; index = idx + k })
      × (k < length es)
      × ((i : ℕ) → (if i == j then 1 else 0) + copies i (remove_at k es) ≡ copies i es)
unfolding remove_at
last_at-some j t idx [] p h = absurd (ground arith)
last_at-some j t idx (e ∷ es) p h = elim (Option-cases (last_at j t (suc idx) es)) [
  | inl miss ↦ (0, ground arith, omega arith, λ i. ground arith)
  | inr (q, hit) ↦
      let (k, at, lt, count) = last_at-some j t (suc idx) es q hit in
      (suc k, ground arith, omega arith, λ i. omega (arith, count i))
]

copies-sort_insert :
    (less : Entry → Entry → Bool) (j : ℕ) (x : Entry) (es : List Entry)
    → copies j (sort_insert less x es) ≡ copies j (x ∷ es)
unfolding sort_insert
copies-sort_insert less j x [] = refl
copies-sort_insert less j x (e ∷ es) = ground (arith, copies-sort_insert less j x es)

pub copies-sort_stable :
    (less : Entry → Entry → Bool) (j : ℕ) (es : List Entry)
    → copies j (sort_stable less es) ≡ copies j es
unfolding sort_stable
copies-sort_stable less j [] = refl
copies-sort_stable less j (e ∷ es) =
    omega (arith, copies-sort_insert less j e (sort_stable less es), copies-sort_stable less j es)

pub copies-append : (j : ℕ) (es fs : List Entry) → copies j (es ++ fs) ≡ copies j es + copies j fs
copies-append j [] fs = omega arith
copies-append j (e ∷ es) fs = omega (arith, copies-append j es fs)

-- A bucket is replaced and its positions are rebuilt, over positions that are right for every
-- account that is not in the new bucket.
pub rebuild_positions-Indexed :
    (t : AccountHealthTier) (s : FastScheduler) (es : List Entry)
    → is_schedulable t ≡ true
    → ((j : ℕ) → placed j (set_bucket t es s) ≤ 1)
    → ((j : ℕ) → copies j es ≡ 0 → s.positions j ≡ locate j (set_bucket t es s))
    → Indexed (rebuild_positions t (set_bucket t es s))
unfolding rebuild_positions
rebuild_positions-Indexed healthy s es ok once others = record {
  once = once;
  exact = λ j.
      ground (
        arith,
        index_from-last_at healthy 0 es s.positions j,
        last_at-none j healthy 0 es,
        others j,
      );
}
rebuild_positions-Indexed warm s es ok once others = record {
  once = once;
  exact = λ j. ground (
    arith,
    once j,
    index_from-last_at warm 0 es s.positions j,
    last_at-none j warm 0 es,
    others j,
    last_at-absent j warm 0 es,
    last_at-absent j healthy 0 s.healthy_bucket,
  );
}
rebuild_positions-Indexed risky s es ok once others = record {
  once = once;
  exact = λ j. ground (
    arith,
    once j,
    index_from-last_at risky 0 es s.positions j,
    last_at-none j risky 0 es,
    others j,
    last_at-absent j risky 0 es,
    last_at-absent j healthy 0 s.healthy_bucket,
    last_at-absent j warm 0 s.warm_bucket,
  );
}
rebuild_positions-Indexed unset s es ok once others = absurd (ground arith)
rebuild_positions-Indexed banned s es ok once others = absurd (ground arith)

-- An account that no bucket holds is found in none.
abbrev pub Absent : ℕ → FastScheduler → Type 0
Absent j s =
    (copies j s.healthy_bucket ≡ 0 → last_at j healthy 0 s.healthy_bucket ≡ none)
    × (copies j s.warm_bucket ≡ 0 → last_at j warm 0 s.warm_bucket ≡ none)
    × (copies j s.risky_bucket ≡ 0 → last_at j risky 0 s.risky_bucket ≡ none)

pub nowhere : (j : ℕ) (s : FastScheduler) → Absent j s
nowhere j s = (last_at-absent j healthy 0 _, last_at-absent j warm 0 _, last_at-absent j risky 0 _)
