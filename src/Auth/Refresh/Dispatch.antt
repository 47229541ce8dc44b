-- ===== src/Auth/Refresh/Dispatch.antt =====
-- What the scheduling loop sends to execution, and where it stops.
use qoder2api.Prelude.{
  ℕ, zero, suc, ◌≤◌, ◌<◌, ◌≡◌, refl, sym, arith, Bool, true, false, List, [], ◌∷◌, ◌++◌, none, some,
  inl, inr, ◌⊎◌, ltb, length, All, Bool-cases, Option-cases, ap, ◌∙◌, subst, ltb→lt,
}
use mathlib.Core.List.{append-nil, append_assoc}
use qoder2api.Auth.Refresh.Tasks.{is_pending}
use qoder2api.Auth.Refresh.Queue.{Tasks, peek_queue, pop_from_queue}
use qoder2api.Auth.Refresh.Scheduler.{
  RefreshScheduler, batched, enqueued, sent, turn, turns, process_scheduled_tasks, queue_capacity,
}
use qoder2api.Auth.Refresh.Front.{length-pop_from_queue}

-- The loop has nothing more to do: the priority queue is empty, the task at its front is not due,
-- or the queue for execution is full.
abbrev pub IsSettled : ℕ → RefreshScheduler → Type 0
IsSettled now s =
    (peek_queue s.objects s.pq ≡ none)
    ⊎ ((i : ℕ) × (peek_queue s.objects s.pq ≡ some i) × (now < (s.objects i).scheduled_at))
    ⊎ (queue_capacity ≤ length s.queue)

-- Sending a task gives it to the queue, or stops at a full one.
sent_cases :
    (now i : ℕ) (s : RefreshScheduler)
    → (((sent now i s).0 ≡ false)
        × (queue_capacity ≤ length (sent now i s).1.queue)
        × ((sent now i s).1.queue ≡ s.queue)
        × ((sent now i s).1.objects ≡ s.objects))
      ⊎ (((sent now i s).0 ≡ true)
          × ((sent now i s).1.pq ≡ pop_from_queue s.objects s.pq)
          × ((sent now i s).1.queue ≡ s.queue ++ i ∷ [])
          × ((sent now i s).1.objects ≡ s.objects))
unfolding sent batched enqueued
sent_cases now i s = ground arith

-- What one turn does: it ends settled, or it takes one task out of the priority queue. It sends no
-- task or one that is pending and due.
abbrev pub CanBeSent : ℕ → Tasks → ℕ → Type 0
CanBeSent now h i = (is_pending (h i).state ≡ true) × ((h i).scheduled_at ≤ now)

record TurnIsRight (now : ℕ) (s : RefreshScheduler) (r : Bool × RefreshScheduler) : Type 0 where
  same_tasks : r.1.objects ≡ s.objects
  new_tasks : (new : List ℕ) × (r.1.queue ≡ s.queue ++ new) × All (CanBeSent now s.objects) new
  ends : ((r.0 ≡ false) × IsSettled now r.1) ⊎ ((r.0 ≡ true) × (suc (length r.1.pq) ≡ length s.pq))

sent-IsRight :
    (now i : ℕ) (s : RefreshScheduler)
    → peek_queue s.objects s.pq ≡ some i
    → is_pending (s.objects i).state ≡ true
    → (s.objects i).scheduled_at ≤ now
    → TurnIsRight now s (sent now i s)
sent-IsRight now i s front pending due = elim (sent_cases now i s) [
  | inl (stops, full, kept, same) ↦ record {
    same_tasks = same;
    new_tasks = ([], kept ∙ sym (append-nil s.queue), tt);
    ends = inl (stops, inr (inr full));
  }
  | inr (goes_on, popped, grown, same) ↦ record {
    same_tasks = same;
    new_tasks = (i ∷ [], grown, ((pending, due), tt));
    ends =
        inr
          (goes_on, ap (λ q. suc (length q)) popped ∙ length-pop_from_queue s.objects i s.pq front);
  }
]

turn-IsRight : (now : ℕ) (s : RefreshScheduler) → TurnIsRight now s (turn now s)
unfolding turn
turn-IsRight now s = elim (Option-cases (peek_queue s.objects s.pq)) [
  | inl empty ↦
      rw (empty, turn)
        (record {
          same_tasks = refl;
          new_tasks = ([], sym (append-nil s.queue), tt);
          ends = inl (refl, inl empty);
        })
  | inr (i, front) ↦ elim (Bool-cases (ltb now (s.objects i).scheduled_at)) [
    | inl early ↦
        rw (front, early, turn)
          (record {
            same_tasks = refl;
            new_tasks = ([], sym (append-nil s.queue), tt);
            ends = inl (refl, inr (inl (i, front, ltb→lt now (s.objects i).scheduled_at early)));
          })
    | inr due ↦ elim (Bool-cases (is_pending (s.objects i).state)) [
      | inl pending ↦
          rw (front, due, pending, turn) (sent-IsRight now i s front pending (ground (arith, due)))
      | inr stale ↦
          rw (front, due, stale, turn)
            (record {
              same_tasks = refl;
              new_tasks = ([], sym (append-nil s.queue), tt);
              ends = inr (refl, length-pop_from_queue s.objects i s.pq front);
            })
    ]
  ]
]

All-append : (P : ℕ → Type 0) (xs ys : List ℕ) → All P xs → All P ys → All P (xs ++ ys)
All-append P [] ys p q = q
All-append P (x ∷ xs) ys (p, ps) q = (p, All-append P xs ys ps q)

turns-sends :
    (fuel now : ℕ) (s : RefreshScheduler)
    → length s.pq < fuel
    → (r : RefreshScheduler) × (turns fuel now s ≡ r)
      × IsSettled now r
      × (r.objects ≡ s.objects)
      × ((new : List ℕ) × (r.queue ≡ s.queue ++ new) × All (CanBeSent now s.objects) new)
unfolding turns
turns-sends zero now s enough = absurd (omega arith)
turns-sends (suc fuel) now s enough =
    let t = turn-IsRight now s in
    let s' = (turn now s).1 in
    let (new, grown, sendable) = t.new_tasks in
    elim t.ends [
      | inl (stops, settled) ↦ rw stops (s', refl, settled, t.same_tasks, (new, grown, sendable))
      | inr (goes_on, fewer) ↦
          let (r, found, settled, same, more) = turns-sends fuel now s' (omega arith) in
          let (later, grown', sendable') = more in
          rw goes_on (
            r,
            found,
            settled,
            same ∙ t.same_tasks,
            (
              new ++ later,
              grown' ∙ (ap (λ q. q ++ later) grown ∙ append_assoc s.queue new later),
              All-append (CanBeSent now s.objects) new later sendable
                  (subst (λ h. All (CanBeSent now h) later) t.same_tasks sendable'),
            ),
          )
    ]

-- The scheduling loop ends by itself, with a priority queue that is empty or has a task that is not
-- due at its front, or with a full queue for execution. What it adds to that queue are only tasks
-- that are pending and due, and it changes no task.
pub process_scheduled_tasks-sends :
    (now : ℕ) (s : RefreshScheduler)
    → (r : RefreshScheduler) × (process_scheduled_tasks now s ≡ r)
      × IsSettled now r
      × (r.objects ≡ s.objects)
      × ((new : List ℕ) × (r.queue ≡ s.queue ++ new) × All (CanBeSent now s.objects) new)
unfolding process_scheduled_tasks
process_scheduled_tasks-sends now s = turns-sends (suc (length s.pq)) now s (omega arith)
