-- ===== src/Auth/Refresh/Queued.antt =====
-- The operations that queue tasks keep the invariant of the refresh scheduler.
use qoder2api.Prelude.{
  ℕ, zero, suc, ◌≤◌, ◌≡◌, refl, arith, true, List, [], ◌∷◌, ◌++◌, Option, none, some, inl, inr, ltb,
  length, Bool-cases, Option-cases, find, nat_key, length-append, ltb→lt,
}
use qoder2api.Auth.Account.{Account}
use qoder2api.Auth.Refresh.Tasks.{RefreshConfig, Draw, is_retrying, is_pending, is_running}
use qoder2api.Auth.Refresh.Queue.{peek_queue, pop_from_queue}
use qoder2api.Auth.Refresh.Scheduler.{
  RefreshScheduler, schedule, schedule_immediate, queue_capacity, rescheduled, new_task,
  immediate_task, superseded, offered, turn, turns, sent, batched, add_pending, enqueued,
  scheduled_new, scheduled_again, given_up, counted_new, displaced, made_immediate,
}
use qoder2api.Auth.Refresh.Run.{IsValid, written-IsValid, quiet-IsValid}

pub schedule-IsValid :
    (c : RefreshConfig) (r1 r2 : Draw) (now : ℕ) (a : Option Account) (s : RefreshScheduler)
    → IsValid c s
    → IsValid c (schedule r1 r2 now a s)
unfolding schedule scheduled_new scheduled_again rescheduled new_task is_retrying add_pending
schedule-IsValid c r1 r2 now none s v = v
schedule-IsValid c r1 r2 now (some a) s v = elim (Option-cases (find a.db_id s.tasks)) [
  | inl absent ↦
      rw (absent, schedule)
        (written-IsValid c s (scheduled_new r1 r2 now a s) s.allocated
          (new_task s.config r1 r2 now a) v refl refl refl v.queue_ok refl refl)
  | inr (i, found) ↦ elim (Bool-cases (is_running (s.objects i).state)) [
    | inl busy ↦ rw (found, busy, schedule) v
    | inr idle ↦
        rw (found, idle, schedule)
          (written-IsValid c s (scheduled_again r1 r2 now a i s) i
            (rescheduled s.config r1 r2 now a (s.objects i)) v refl refl refl v.queue_ok refl refl)
  ]
]

enqueued_fits :
    (i : ℕ) (q : List ℕ)
    → ltb (length q) queue_capacity ≡ true
    → length (q ++ i ∷ []) ≤ queue_capacity
enqueued_fits i q room =
    omega (arith, length-append q (i ∷ []), ltb→lt (length q) queue_capacity room)

offered-IsValid :
    (c : RefreshConfig) (i : ℕ) (s : RefreshScheduler) → IsValid c s → IsValid c (offered i s)
unfolding offered enqueued add_pending
offered-IsValid c i s v = elim (Bool-cases (ltb (length s.queue) queue_capacity)) [
  | inl room ↦
      rw room
        (quiet-IsValid c s (enqueued i s) v refl refl refl (enqueued_fits i s.queue room) refl)
  | inr full ↦ rw full v
]

superseded-IsValid :
    (c : RefreshConfig) (db_id : ℕ) (s : RefreshScheduler)
    → IsValid c s
    → IsValid c (superseded db_id s)
unfolding superseded counted_new displaced given_up is_retrying add_pending
superseded-IsValid c db_id s v = elim (Option-cases (find db_id s.tasks)) [
  | inl absent ↦
      rw (absent, superseded) (quiet-IsValid c s (counted_new s) v refl refl refl v.queue_ok refl)
  | inr (i, found) ↦
      rw (found, superseded)
        (written-IsValid c s (displaced i s) i (given_up (s.objects i)) v refl refl refl v.queue_ok
          refl refl)
]

pub schedule_immediate-IsValid :
    (c : RefreshConfig) (now : ℕ) (a : Option Account) (s : RefreshScheduler)
    → IsValid c s
    → IsValid c (schedule_immediate now a s)
unfolding schedule_immediate made_immediate immediate_task is_retrying
schedule_immediate-IsValid c now none s v = v
schedule_immediate-IsValid c now (some a) s v =
    let s' = superseded a.db_id s in
    let w = superseded-IsValid c a.db_id s v in
    offered-IsValid c s'.allocated (made_immediate now a s') (
      written-IsValid c s' (made_immediate now a s') s'.allocated (immediate_task now a) w refl refl
        refl w.queue_ok refl refl)

sent-IsValid :
    (c : RefreshConfig) (now i : ℕ) (s : RefreshScheduler)
    → IsValid c s
    → IsValid c (sent now i s).1
unfolding sent batched enqueued add_pending
sent-IsValid c now i s v =
    quiet-IsValid c s (sent now i s).1 v (ground arith) (ground arith) (ground arith)
      (ground (arith, v.queue_ok, enqueued_fits i s.queue)) (ground arith)

turn-IsValid :
    (c : RefreshConfig) (now : ℕ) (s : RefreshScheduler) → IsValid c s → IsValid c (turn now s).1
unfolding turn
turn-IsValid c now s v = elim (Option-cases (peek_queue s.objects s.pq)) [
  | inl empty ↦ rw (empty, turn) v
  | inr (i, front) ↦ elim (Bool-cases (ltb now (s.objects i).scheduled_at)) [
    | inl early ↦ rw (front, early, turn) v
    | inr due ↦ elim (Bool-cases (is_pending (s.objects i).state)) [
      | inl pending ↦ rw (front, due, pending, turn) (sent-IsValid c now i s v)
      | inr stale ↦
          rw (front, due, stale, turn)
            (quiet-IsValid c s (record s { pq = pop_from_queue s.objects s.pq }) v refl refl refl
              v.queue_ok refl)
    ]
  ]
]

pub turns-IsValid :
    (c : RefreshConfig) (fuel now : ℕ) (s : RefreshScheduler)
    → IsValid c s
    → IsValid c (turns fuel now s)
unfolding turns
turns-IsValid c zero now s v = v
turns-IsValid c (suc fuel) now s v =
    let w = turn-IsValid c now s v in
    elim (Bool-cases (turn now s).0) [
      | inl goes_on ↦ rw goes_on (turns-IsValid c fuel now (turn now s).1 w)
      | inr stops ↦ rw stops w
    ]
