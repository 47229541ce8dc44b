-- ===== src/Auth/Refresh/Runs.antt =====
-- The invariant of the refresh scheduler, over runs of its operations.
use qoder2api.Prelude.{
  ℕ, suc, ◌≤◌, ◌≡◌, refl, arith, true, false, ◌||◌, List, [], ◌∷◌, Option, none, some, inl, inr,
  ltb, length, Bool-cases, Option-cases, ap, subst, find, nat_key, ltb→lt,
}
use qoder2api.Prelude.Text.{Text}
use qoder2api.Auth.Refresh.Tasks.{
  RefreshTask, RefreshConfig, Draw, is_retrying, is_pending, refresh_state_running,
}
use qoder2api.Auth.Refresh.Queue.{Tasks, holds}
use qoder2api.Auth.Refresh.Scheduler.{
  RefreshScheduler, new_refresh_scheduler, process_scheduled_tasks, queue_capacity, no_metrics,
  add_pending, RefreshMetrics, given_up,
}
use qoder2api.Auth.Refresh.Execution.{
  receive_task, start_task, started, finish_task, ended, failed, counted, process_retries,
  retry_all, retried, cancel_task, cancelled, finished_metrics, pending_again, due_retries,
}
use qoder2api.Auth.Refresh.Front.{length-without}
use qoder2api.Auth.Refresh.Run.{
  RefreshOp, op_schedule, op_immediate, op_tick, op_receive, op_start, op_finish, op_retries,
  op_cancel, step, run, IsValid, retry_ok, put_ok, written-IsValid, quiet-IsValid,
}
use qoder2api.Auth.Refresh.Queued.{schedule-IsValid, schedule_immediate-IsValid, turns-IsValid}

shorter_fits : (i : ℕ) (q : List ℕ) → length (i ∷ q) ≤ queue_capacity → length q ≤ queue_capacity
shorter_fits i q fits = omega (arith, fits)

received-IsValid :
    (c : RefreshConfig) (s : RefreshScheduler) (q : List ℕ)
    → s.queue ≡ q
    → s.in_hand ≡ none
    → IsValid c s
    → IsValid c (receive_task s)
unfolding receive_task
received-IsValid c s [] same idle v = rw (idle, same, receive_task) v
received-IsValid c s (i ∷ q) same idle v =
    rw (idle, same, receive_task)
      (quiet-IsValid c s (record s { queue = q; in_hand = some i }) v refl refl refl
        (shorter_fits i q (subst (λ l. length l ≤ queue_capacity) same v.queue_ok)) refl)

receive_task-IsValid :
    (c : RefreshConfig) (s : RefreshScheduler) → IsValid c s → IsValid c (receive_task s)
unfolding receive_task
receive_task-IsValid c s v = elim (Option-cases s.in_hand) [
  | inl idle ↦ received-IsValid c s s.queue refl idle v
  | inr (i, taken) ↦ rw (taken, receive_task) v
]

start_task-IsValid :
    (c : RefreshConfig) (s : RefreshScheduler) → IsValid c s → IsValid c (start_task s)
unfolding start_task started is_retrying
start_task-IsValid c s v = elim (Option-cases s.in_hand) [
  | inl idle ↦ rw (idle, start_task) v
  | inr (i, taken) ↦ elim (Bool-cases (ltb (length s.running) s.config.max_concurrency)) [
    | inl place ↦
        rw (taken, place, start_task)
          (record {
            config_ok = v.config_ok;
            running_ok = omega (
              arith,
              ltb→lt (length s.running) s.config.max_concurrency place,
              ap (λ d. d.max_concurrency) v.config_ok,
            );
            counted_ok = omega (arith, v.counted_ok);
            queue_ok = v.queue_ok;
            retries_ok =
                put_ok c.retry_max_attempts s.objects i
                  (record (s.objects i) { state = refresh_state_running }) v.retries_ok refl;
          })
    | inr full ↦ rw (taken, full, start_task) v
  ]
]

ended_ok :
    (c : RefreshConfig) (r : Draw) (now : ℕ) (answer : Option Text) (t : RefreshTask)
    → retry_ok c.retry_max_attempts (ended c r now answer t) ≡ true
unfolding ended failed is_retrying
ended_ok c r now none t = refl
ended_ok c r now (some err) t = ground arith

counted_running :
    (answer : Option Text) (m : RefreshMetrics) → (counted answer m).running_tasks ≡ m.running_tasks
unfolding counted
counted_running none m = refl
counted_running (some err) m = refl

finish_task-IsValid :
    (c : RefreshConfig) (r : Draw) (now duration : ℕ) (answer : Option Text) (i : ℕ)
    (s : RefreshScheduler)
    → IsValid c s
    → IsValid c (finish_task r now duration answer i s)
unfolding finish_task
finish_task-IsValid c r now duration answer i s v = elim (Bool-cases (holds i s.running)) [
  | inl runs ↦ rw runs (record {
    config_ok = v.config_ok;
    running_ok = omega (arith, length-without i s.running runs, v.running_ok);
    counted_ok = omega (
      arith,
      counted_running answer (finished_metrics now duration s.metrics),
      length-without i s.running runs,
      v.counted_ok,
    );
    queue_ok = v.queue_ok;
    retries_ok =
        put_ok c.retry_max_attempts s.objects i (ended s.config r now answer (s.objects i))
          v.retries_ok
          (subst
            (λ d. retry_ok d.retry_max_attempts (ended s.config r now answer (s.objects i)) ≡ true)
            v.config_ok (ended_ok s.config r now answer (s.objects i)));
  })
  | inr idle ↦ rw idle v
]

retry_all-IsValid :
    (c : RefreshConfig) (now : ℕ) (is : List ℕ) (s : RefreshScheduler)
    → IsValid c s
    → IsValid c (retry_all now is s)
unfolding retry_all retried add_pending is_retrying
retry_all-IsValid c now [] s v = v
retry_all-IsValid c now (i ∷ is) s v = retry_all-IsValid c now is (retried now i s) (
    written-IsValid c s (retried now i s) i (pending_again now (s.objects i)) v refl refl refl
      v.queue_ok refl refl)

cancel_task-IsValid :
    (c : RefreshConfig) (db_id : ℕ) (s : RefreshScheduler)
    → IsValid c s
    → IsValid c (cancel_task db_id s).1
unfolding cancel_task cancelled given_up is_retrying
cancel_task-IsValid c db_id s v = elim (Option-cases (find db_id s.tasks)) [
  | inl absent ↦ rw (absent, cancel_task) v
  | inr (i, found) ↦
      elim (Bool-cases (is_pending (s.objects i).state || is_retrying (s.objects i).state)) [
        | inl waits ↦
            rw (found, waits, cancel_task)
              (written-IsValid c s (cancelled db_id i s) i (given_up (s.objects i)) v refl refl refl
                v.queue_ok refl refl)
        | inr other ↦ rw (found, other, cancel_task) v
      ]
]

step-IsValid :
    (c : RefreshConfig) (now : ℕ) (o : RefreshOp) (s : RefreshScheduler)
    → IsValid c s
    → IsValid c (step now o s)
unfolding step process_scheduled_tasks process_retries
step-IsValid c now (op_schedule r1 r2 a) s v = schedule-IsValid c r1 r2 now a s v
step-IsValid c now (op_immediate a) s v = schedule_immediate-IsValid c now a s v
step-IsValid c now op_tick s v = turns-IsValid c (suc (length s.pq)) now s v
step-IsValid c now op_receive s v = receive_task-IsValid c s v
step-IsValid c now op_start s v = start_task-IsValid c s v
step-IsValid c now (op_finish r duration answer i) s v =
    finish_task-IsValid c r now duration answer i s v
step-IsValid c now op_retries s v = retry_all-IsValid c now (due_retries now s.objects s.tasks) s v
step-IsValid c now (op_cancel db_id) s v = cancel_task-IsValid c db_id s v

empty_fits : 0 ≤ queue_capacity
empty_fits = omega arith

run_from-IsValid :
    (c : RefreshConfig) (os : List (ℕ × RefreshOp)) (s : RefreshScheduler)
    → IsValid c s
    → IsValid c (run os s)
unfolding run
run_from-IsValid c [] s v = v
run_from-IsValid c ((now, o) ∷ os) s v =
    run_from-IsValid c os (step now o s) (step-IsValid c now o s v)

-- For a new scheduler, made when no task in memory waits for a retry, and whatever its operations
-- and their times are: never do more tasks run than the semaphore has places, the metrics count the
-- tasks that run, the queue for execution stays within its capacity, and a task waits for a retry
-- only if it has failed and has an attempt left.
pub run_new-IsValid :
    (c : RefreshConfig) (memory : Tasks) (begin : ℕ) (os : List (ℕ × RefreshOp))
    → ((i : ℕ) → is_retrying (memory i).state ≡ false)
    → IsValid
        (new_refresh_scheduler memory begin c).config
        (run os (new_refresh_scheduler memory begin c))
unfolding new_refresh_scheduler no_metrics
run_new-IsValid c memory begin os unused =
    run_from-IsValid (new_refresh_scheduler memory begin c).config os
      (new_refresh_scheduler memory begin c)
      (record {
        config_ok = refl;
        running_ok = omega arith;
        counted_ok = refl;
        queue_ok = empty_fits;
        retries_ok = λ i. ground (arith, unused i);
      })
