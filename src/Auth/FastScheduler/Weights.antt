-- ===== src/Auth/FastScheduler/Weights.antt =====
-- A sum over the entries of all buckets, and what removing and inserting an account does to it.
use qoder2api.Prelude.{
  ℕ, zero, suc, ◌+◌, ◌≤◌, ◌<◌, ◌≡◌, refl, arith, Bool, true, false, not, ◌||◌, List, [], ◌∷◌, ◌++◌,
  some, ◌==◌, leb, length, inl, inr, Bool-cases, get_elem?, ==_refl,
}
use qoder2api.Auth.Account.{AccountHealthTier, healthy, warm, risky, unset, banned}
use qoder2api.Auth.Availability.{Snapshot}
use qoder2api.Auth.FastScheduler.{
  Entry, Position, FastScheduler, World, bucket, set_bucket, sort_insert, sort_stable,
}
use qoder2api.Auth.FastScheduler.Buckets.{
  remove_locked, remove_at, place, is_schedulable, entry_of, rebuild_positions, delete_position,
}
use qoder2api.Auth.FastScheduler.Positions.{copies, last_at, Indexed, last_at-absent}

abbrev pub weigh : (Entry → ℕ) → List Entry → ℕ
weigh f [] = 0
weigh f (e ∷ es) = f e + weigh f es

abbrev pub weight : (AccountHealthTier → Entry → ℕ) → FastScheduler → ℕ
weight f s =
    weigh (f healthy) s.healthy_bucket
    + weigh (f warm) s.warm_bucket
    + weigh (f risky) s.risky_bucket

weigh-append : (f : Entry → ℕ) (es fs : List Entry) → weigh f (es ++ fs) ≡ weigh f es + weigh f fs
weigh-append f [] fs = omega arith
weigh-append f (e ∷ es) fs = omega (arith, weigh-append f es fs)

weigh-sort_insert :
    (f : Entry → ℕ) (less : Entry → Entry → Bool) (x : Entry) (es : List Entry)
    → weigh f (sort_insert less x es) ≡ f x + weigh f es
unfolding sort_insert
weigh-sort_insert f less x [] = refl
weigh-sort_insert f less x (e ∷ es) = ground (arith, weigh-sort_insert f less x es)

weigh-sort_stable :
    (f : Entry → ℕ) (less : Entry → Entry → Bool) (es : List Entry)
    → weigh f (sort_stable less es) ≡ weigh f es
unfolding sort_stable
weigh-sort_stable f less [] = refl
weigh-sort_stable f less (e ∷ es) =
    omega (arith, weigh-sort_insert f less e (sort_stable less es), weigh-sort_stable f less es)

copies_pos : (i : ℕ) (es : List Entry) (e : Entry) → get_elem? es i ≡ some e → 0 < copies e.db_id es
copies_pos i [] e h = absurd (ground arith)
copies_pos zero (x ∷ es) e h = ground (arith, ==_refl e.db_id)
copies_pos (suc i) (x ∷ es) e h = omega (arith, copies_pos i es e h)

-- The only entry of an account is the one that its position names.
last_at-weigh :
    (f : Entry → ℕ) (t : AccountHealthTier) (i idx : ℕ) (es : List Entry) (e : Entry)
    → get_elem? es i ≡ some e
    → copies e.db_id es ≤ 1
    → (k : ℕ) × (last_at e.db_id t idx es ≡ some (record { tier = t; index = idx + k }))
      × (k < length es)
      × (weigh f es ≡ f e + weigh f (remove_at k es))
unfolding remove_at
last_at-weigh f t i idx [] e h u = absurd (ground arith)
last_at-weigh f t zero idx (x ∷ es) e h u = (
  0,
  ground (arith, ==_refl e.db_id, last_at-absent e.db_id t (suc idx) es),
  omega arith,
  ground arith,
)
last_at-weigh f t (suc i) idx (x ∷ es) e h u =
    let (k, at, lt, w) = last_at-weigh f t i (suc idx) es e h (omega arith) in
    (suc k, ground (arith, at), omega arith, omega (arith, w))

leb-false : (a b : ℕ) → b < a → leb a b ≡ false
leb-false a b h = ground arith

module _ (f : AccountHealthTier → Entry → ℕ) (s : FastScheduler) (v : Indexed s) where
  weight-remove_at :
      (t : AccountHealthTier) (id k : ℕ) (e : Entry)
      → is_schedulable t ≡ true
      → weigh (f t) (bucket t s) ≡ f t e + weigh (f t) (remove_at k (bucket t s))
      → weight f s
        ≡ f t e
          + weight f
              (rebuild_positions t (delete_position id (set_bucket t (remove_at k (bucket t s)) s)))
  unfolding rebuild_positions
  weight-remove_at healthy id k e ok h = omega arith
  weight-remove_at warm id k e ok h = omega arith
  weight-remove_at risky id k e ok h = omega arith
  weight-remove_at unset id k e ok h = absurd (ground arith)
  weight-remove_at banned id k e ok h = absurd (ground arith)

  -- The index finds the account in the bucket where it stands.
  position_of :
      (t : AccountHealthTier) (p : Position) (id : ℕ)
      → is_schedulable t ≡ true
      → 0 < copies id (bucket t s)
      → last_at id t 0 (bucket t s) ≡ some p
      → s.positions id ≡ some p
  position_of healthy p id ok c h = ground (arith, v.exact id)
  position_of warm p id ok c h =
      ground (arith, v.exact id, v.once id, last_at-absent id healthy 0 s.healthy_bucket)
  position_of risky p id ok c h = ground (
    arith,
    v.exact id,
    v.once id,
    last_at-absent id healthy 0 s.healthy_bucket,
    last_at-absent id warm 0 s.warm_bucket,
  )
  position_of unset p id ok c h = absurd (ground arith)
  position_of banned p id ok c h = absurd (ground arith)

  bucket_once : (t : AccountHealthTier) (id : ℕ) → copies id (bucket t s) ≤ 1
  bucket_once healthy id = omega (arith, v.once id)
  bucket_once warm id = omega (arith, v.once id)
  bucket_once risky id = omega (arith, v.once id)
  bucket_once unset id = omega arith
  bucket_once banned id = omega arith

  -- Removing an account takes its entry out of the sum.
  pub weight-remove_locked :
      (t : AccountHealthTier) (i : ℕ) (e : Entry)
      → is_schedulable t ≡ true
      → get_elem? (bucket t s) i ≡ some e
      → weight f s ≡ f t e + weight f (remove_locked e.db_id s)
  unfolding remove_locked
  weight-remove_locked t i e ok h =
      let (k, at, lt, w) = last_at-weigh (f t) t i 0 (bucket t s) e h (bucket_once t e.db_id) in
      let raw = position_of t _ e.db_id ok (copies_pos i (bucket t s) e h) at in
      let here : s.positions e.db_id ≡ some (record { tier = t; index = k }) =
        ground (arith, raw) in
      rw (here, remove_locked, leb-false _ _ lt) (weight-remove_at t e.db_id k e ok w)

module _ (f : AccountHealthTier → Entry → ℕ) (s : FastScheduler) (x : Entry)
    (less : Entry → Entry → Bool) where
  grown :
      (g : Entry → ℕ) (es : List Entry)
      → weigh g (sort_stable less (es ++ x ∷ [])) ≡ weigh g es + g x
  grown g es = omega (arith, weigh-sort_stable g less (es ++ x ∷ []), weigh-append g es (x ∷ []))

  weight-grown :
      (t : AccountHealthTier)
      → weight f (rebuild_positions t (set_bucket t (sort_stable less (bucket t s ++ x ∷ [])) s))
        ≤ weight f s + f t x
  unfolding rebuild_positions
  weight-grown healthy = omega (arith, grown (f healthy) s.healthy_bucket)
  weight-grown warm = omega (arith, grown (f warm) s.warm_bucket)
  weight-grown risky = omega (arith, grown (f risky) s.risky_bucket)
  weight-grown unset = omega arith
  weight-grown banned = omega arith

-- Placing an account adds at most its new entry to the sum.
pub weight-place :
    (f : AccountHealthTier → Entry → ℕ) (id : ℕ) (snap : Snapshot) (w : World)
    → weight f (place id snap w).scheduler ≤ weight f w.scheduler + f snap.tier (entry_of id snap)
unfolding place
weight-place f id snap w = elim (Bool-cases (not snap.available || snap.limit == 0)) [
  | inl out ↦ rw out (omega arith)
  | inr fit ↦ rw fit (elim (Bool-cases (is_schedulable snap.tier)) [
    | inr off ↦ rw off (omega arith)
    | inl on ↦ rw on (weight-grown f w.scheduler _ _ snap.tier)
  ])
]
