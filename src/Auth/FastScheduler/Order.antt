-- ===== src/Auth/FastScheduler/Order.antt =====
-- The order of a bucket: `insertLocked` leaves the bucket of the account sorted.
use qoder2api.Prelude.{
  ℕ, ◌≡◌, refl, arith, Bool, true, false, not, ◌&&◌, ◌||◌, List, [], ◌∷◌, ◌++◌, ◌==◌, inl, inr,
  Bool-cases, subst,
}
use qoder2api.Auth.Account.{AccountHealthTier, healthy, warm, risky, unset, banned}
use qoder2api.Auth.Availability.{Snapshot}
use qoder2api.Auth.FastScheduler.{
  Mode, round_robin, remaining_quota, other_mode, Entry, FastScheduler, Heap, World, bucket,
  set_bucket, sort_insert, sort_stable, insert_less, tie_less, score_less, quota_less,
  round_robin_less, score_eq, bool_eq,
}
use qoder2api.Auth.FastScheduler.Buckets.{place, entry_of, is_schedulable, rebuild_positions}
use qoder2api.Auth.FastScheduler.Insertion.{is_placeable}

-- The list, if it is not empty, starts with an entry that is not less than this one.
abbrev Follows : (Entry → Entry → Bool) → Entry → List Entry → Type 0
Follows less x [] = Unit
Follows less x (y ∷ ys) = less y x ≡ false

abbrev pub IsSorted : (Entry → Entry → Bool) → List Entry → Type 0
IsSorted less [] = Unit
IsSorted less (x ∷ xs) = Follows less x xs × IsSorted less xs

abbrev IsAsymmetric : (Entry → Entry → Bool) → Type 0
IsAsymmetric less = (a b : Entry) → (less a b && less b a) ≡ false

module _ (less : Entry → Entry → Bool) where
  sort_insert-Follows :
      (x y : Entry) (ys : List Entry)
      → less x y ≡ false
      → Follows less y ys
      → Follows less y (sort_insert less x ys)
  unfolding sort_insert
  sort_insert-Follows x y [] h f = h
  sort_insert-Follows x y (z ∷ zs) h f = elim (Bool-cases (less z x)) [
    | inl before ↦ rw before f
    | inr after ↦ rw after h
  ]

  sort_insert-IsSorted :
      IsAsymmetric less
      → (x : Entry) (ys : List Entry) → IsSorted less ys
      → IsSorted less (sort_insert less x ys)
  unfolding sort_insert
  sort_insert-IsSorted asym x [] s = (tt, tt)
  sort_insert-IsSorted asym x (y ∷ ys) (f, s) = elim (Bool-cases (less y x)) [
    | inl before ↦ rw before (
      sort_insert-Follows x y ys (ground (arith, asym x y, before)) f,
      sort_insert-IsSorted asym x ys s,
    )
    | inr after ↦ rw after (after, (f, s))
  ]

  sort_stable-IsSorted : IsAsymmetric less → (xs : List Entry) → IsSorted less (sort_stable less xs)
  unfolding sort_stable
  sort_stable-IsSorted asym [] = tt
  sort_stable-IsSorted asym (x ∷ xs) =
      sort_insert-IsSorted asym x (sort_stable less xs) (sort_stable-IsSorted asym xs)

tie_less-IsAsymmetric : IsAsymmetric tie_less
unfolding tie_less bool_eq
tie_less-IsAsymmetric a b = ground arith

score_less-IsAsymmetric : IsAsymmetric score_less
unfolding score_less score_eq
score_less-IsAsymmetric a b = ground (arith, tie_less-IsAsymmetric a b)

quota_less-IsAsymmetric : (h : Heap) → IsAsymmetric (quota_less h)
unfolding quota_less
quota_less-IsAsymmetric h a b = ground (arith, tie_less-IsAsymmetric a b)

round_robin_less-IsAsymmetric : (h : Heap) → IsAsymmetric (round_robin_less h)
unfolding round_robin_less score_eq
round_robin_less-IsAsymmetric h a b = ground (arith, tie_less-IsAsymmetric a b)

insert_less-IsAsymmetric :
    (mode : Mode) (t : AccountHealthTier) (h : Heap) → IsAsymmetric (insert_less mode t h)
unfolding insert_less
insert_less-IsAsymmetric remaining_quota t h = quota_less-IsAsymmetric h
insert_less-IsAsymmetric round_robin healthy h = round_robin_less-IsAsymmetric h
insert_less-IsAsymmetric round_robin warm h = score_less-IsAsymmetric
insert_less-IsAsymmetric round_robin risky h = score_less-IsAsymmetric
insert_less-IsAsymmetric round_robin banned h = score_less-IsAsymmetric
insert_less-IsAsymmetric round_robin unset h = score_less-IsAsymmetric
insert_less-IsAsymmetric other_mode t h = score_less-IsAsymmetric

bucket-rebuilt :
    (t : AccountHealthTier) (es : List Entry) (s : FastScheduler)
    → is_schedulable t ≡ true
    → es ≡ bucket t (rebuild_positions t (set_bucket t es s))
unfolding rebuild_positions
bucket-rebuilt healthy es s ok = refl
bucket-rebuilt warm es s ok = refl
bucket-rebuilt risky es s ok = refl
bucket-rebuilt unset es s ok = absurd (ground arith)
bucket-rebuilt banned es s ok = absurd (ground arith)

-- When an account that may be dispatched to is inserted, its bucket is sorted afterwards: no
-- entry is less than the one before it, in the order that `insertLocked` uses for the mode and
-- the tier.
pub place-IsSorted :
    (id : ℕ) (snap : Snapshot) (w : World)
    → is_placeable snap ≡ true
    → IsSorted
        (insert_less w.scheduler.scheduler_mode snap.tier w.accounts)
        (bucket snap.tier (place id snap w).scheduler)
unfolding place
place-IsSorted id snap w can =
    let fit : (not snap.available || snap.limit == 0) ≡ false = ground arith in
    let on : is_schedulable snap.tier ≡ true = ground arith in
    let less = insert_less w.scheduler.scheduler_mode snap.tier w.accounts in
    rw (fit, on)
      (subst (IsSorted less) (bucket-rebuilt snap.tier _ w.scheduler on) (
        sort_stable-IsSorted less
          (insert_less-IsAsymmetric w.scheduler.scheduler_mode snap.tier w.accounts)
          (bucket snap.tier w.scheduler ++ entry_of id snap ∷ [])))
