-- ===== src/Auth/Refresh/Blocked.antt =====
-- A task at the front of the priority queue that is not due stands before those that are.
use qoder2api.Prelude.{
  ℕ, ◌<◌, ◌≡◌, refl, arith, true, false, List, [], ◌∷◌, some, inl, inr, ◌⊎◌, ltb, lt→ltb, ◌==◌, All,
  Bool-cases, ==_iff, subst,
}
use qoder2api.Auth.Refresh.Queue.{Tasks, less, front_from, peek_queue, holds}
use qoder2api.Auth.Refresh.Scheduler.{RefreshScheduler, turn, turns, process_scheduled_tasks}
use qoder2api.Auth.Refresh.Front.{front-Leads, front_holds}

All-holds : (P : ℕ → Type 0) (i : ℕ) (q : List ℕ) → All P q → holds i q ≡ true → P i
unfolding holds
All-holds P i [] ps h = absurd (ground (arith, h))
All-holds P i (j ∷ q) (p, ps) h = elim (Bool-cases (j == i)) [
  | inl here ↦ subst P ((==_iff j i).0 here) p
  | inr other ↦ All-holds P i q ps (ground (arith, h, other))
]

-- The front is a task of the queue that no task of the queue comes before.
front_cases :
    (h : Tasks) (x : ℕ) (q : List ℕ)
    → holds x q ≡ true
    → (i : ℕ) × (peek_queue h q ≡ some i) × (holds i q ≡ true) × (less (h x) (h i) ≡ false)
unfolding peek_queue holds
front_cases h x [] here = absurd (ground (arith, here))
front_cases h x (j ∷ q) here =
    let f = front_from h j q in
    (
      f,
      refl,
      front_holds h j q,
      All-holds (λ k. less (h k) (h f) ≡ false) x (j ∷ q) (front-Leads h j q) here,
    )

blocked_late :
    (now x i : ℕ) (s : RefreshScheduler)
    → All (λ j. (now < (s.objects j).scheduled_at) ⊎ (less (s.objects x) (s.objects j) ≡ true)) s.pq
    → holds i s.pq ≡ true
    → less (s.objects x) (s.objects i) ≡ false
    → ltb now (s.objects i).scheduled_at ≡ true
blocked_late now x i s before in_queue not_before =
    elim (All-holds
      (λ j. (now < (s.objects j).scheduled_at) ⊎ (less (s.objects x) (s.objects j) ≡ true)) i s.pq
      before in_queue) [
        | inl early ↦ lt→ltb now (s.objects i).scheduled_at early
        | inr first ↦ absurd (ground (arith, first, not_before))
      ]

-- A task that is not due, and that comes before every task of the priority queue that is due, keeps
-- the scheduling loop from sending anything.
pub process_scheduled_tasks-blocked :
    (now x : ℕ) (s : RefreshScheduler)
    → holds x s.pq ≡ true
    → now < (s.objects x).scheduled_at
    → All (λ j. (now < (s.objects j).scheduled_at) ⊎ (less (s.objects x) (s.objects j) ≡ true)) s.pq
    → process_scheduled_tasks now s ≡ s
unfolding process_scheduled_tasks turns turn
process_scheduled_tasks-blocked now x s here early before =
    let (i, front, in_queue, not_before) = front_cases s.objects x s.pq here in
    let late = blocked_late now x i s before in_queue not_before in
    rw (front, late, turn, turns) refl
