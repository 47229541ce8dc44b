-- ===== src/Auth/Refresh/Execution.antt =====
-- auth/refresh_scheduler.go: the execution of tasks, their retries and their cancellation. A task runs
-- in three steps here: the loop takes it from the queue, it gets a place of the semaphore, and it ends
-- with what `refreshAccount` answered, which is a parameter. Other steps may come between them.
use qoder2api.Prelude.{
  ℕ, suc, ◌+◌, ◌-◌, ◌*◌, ◌/◌, Bool, true, false, not, ◌&&◌, ◌||◌, List, [], ◌∷◌, Option, none, some,
  if◌then◌else◌, leb, ltb, ◌==◌, length, find, delete, nat_key,
}
use qoder2api.Prelude.Int.{pos}
use qoder2api.Prelude.Text.{Text}
use qoder2api.Auth.Account.{Account}
use qoder2api.Auth.Refresh.Tasks.{
  RefreshState, refresh_state_pending, refresh_state_running, refresh_state_success,
  refresh_state_failed, refresh_state_retrying, RefreshTask, RefreshConfig, Draw,
  calculate_retry_time, is_non_retryable, is_pending, is_retrying, millisecond, second,
}
use qoder2api.Auth.Refresh.Queue.{Tasks, put, holds, without, push_to_queue, remove_from_queue}
use qoder2api.Auth.Refresh.Scheduler.{
  RefreshScheduler, RefreshMetrics, add_pending, schedule, given_up,
}

-- task := <-s.queue, when the loop has no task in hand.
unfoldable pub receive_task : RefreshScheduler → RefreshScheduler
receive_task s = elim s.in_hand [
  | none ↦ elim s.queue [ [] ↦ s | ◌∷◌ i is ↦ record s { queue = is; in_hand = some i } ]
  | some i ↦ s
]

unfoldable pub started : ℕ → RefreshScheduler → RefreshScheduler
unfolding put
started i s = record s {
  in_hand = none;
  running = i ∷ s.running;
  metrics = record s.metrics { running_tasks = s.metrics.running_tasks + 1 };
  objects = put s.objects i (record (s.objects i) { state = refresh_state_running });
}

-- semaphore <- struct{}{}, when it has a place, and the start of the goroutine.
unfoldable pub start_task : RefreshScheduler → RefreshScheduler
unfolding started
start_task s = elim s.in_hand [
  | none ↦ s
  | some i ↦ if ltb (length s.running) s.config.max_concurrency then started i s else s
]

unfoldable pub update_avg_duration : ℕ → RefreshMetrics → RefreshMetrics
unfolding millisecond
update_avg_duration d m = record m {
  avg_duration_ms =
      if m.avg_duration_ms == 0
      then d / millisecond
      else (m.avg_duration_ms * 9 + d / millisecond) / 10;
}

unfoldable pub failed : RefreshConfig → Draw → ℕ → Text → RefreshTask → RefreshTask
unfolding is_non_retryable calculate_retry_time
failed c r now err t =
    let t' = record t {
      state = refresh_state_failed;
      last_error = some err;
      attempts = t.attempts + 1;
    } in
    if ltb (t.attempts + 1) c.retry_max_attempts && not (is_non_retryable err)
    then record t' {
      state = refresh_state_retrying;
      next_retry_at = calculate_retry_time c r now (t.attempts + 1);
    }
    else t'

-- The task after `refreshAccount`, with its error if there was one.
unfoldable pub ended : RefreshConfig → Draw → ℕ → Option Text → RefreshTask → RefreshTask
unfolding failed
ended c r now none t = record t { state = refresh_state_success }
ended c r now (some err) t = failed c r now err t

unfoldable pub counted : Option Text → RefreshMetrics → RefreshMetrics
counted none m = record m { success_count = m.success_count + 1 }
counted (some err) m = record m { failed_count = m.failed_count + 1 }

-- The task is done: it succeeded, or it failed and has no attempt left.
unfoldable pub is_done : RefreshConfig → RefreshTask → Bool
is_done c t = elim t.state [
  | refresh_state_pending ↦ false
  | refresh_state_running ↦ false
  | refresh_state_success ↦ true
  | refresh_state_failed ↦ leb c.retry_max_attempts t.attempts
  | refresh_state_retrying ↦ false
]

unfoldable pub finished_metrics : ℕ → ℕ → RefreshMetrics → RefreshMetrics
unfolding update_avg_duration second
finished_metrics now duration m = record (update_avg_duration duration m) {
  running_tasks = m.running_tasks - 1;
  last_refresh_at = now / second;
}

-- The end of a running task, `duration` after its start; the place of the semaphore is free again.
unfoldable pub finish_task : Draw → ℕ → ℕ → Option Text → ℕ → RefreshScheduler → RefreshScheduler
unfolding holds without put ended counted is_done finished_metrics delete
finish_task r now duration answer i s =
    let t = ended s.config r now answer (s.objects i) in
    if holds i s.running
    then record s {
      objects = put s.objects i t;
      running = without i s.running;
      metrics = counted answer (finished_metrics now duration s.metrics);
      tasks = if is_done s.config t then delete t.account s.tasks else s.tasks;
    }
    else s

-- The tasks of the map whose time of retry has come.
unfoldable pub due_retries : ℕ → Tasks → List (ℕ × ℕ) → List ℕ
unfolding is_retrying
due_retries now h [] = []
due_retries now h ((db_id, i) ∷ m) =
    let rest = due_retries now h m in
    if is_retrying (h i).state && ltb (h i).next_retry_at now then i ∷ rest else rest

unfoldable pub pending_again : ℕ → RefreshTask → RefreshTask
pending_again now t = record t { state = refresh_state_pending; scheduled_at = now }

unfoldable pub retried : ℕ → ℕ → RefreshScheduler → RefreshScheduler
unfolding put pending_again push_to_queue add_pending
retried now i s = record s {
  objects = put s.objects i (pending_again now (s.objects i));
  metrics = add_pending (pos 1) (record s.metrics { retry_count = s.metrics.retry_count + 1 });
  pq = push_to_queue i s.pq;
}

unfoldable pub retry_all : ℕ → List ℕ → RefreshScheduler → RefreshScheduler
unfolding retried
retry_all now [] s = s
retry_all now (i ∷ is) s = retry_all now is (retried now i s)

unfoldable pub process_retries : ℕ → RefreshScheduler → RefreshScheduler
unfolding due_retries retry_all
process_retries now s = retry_all now (due_retries now s.objects s.tasks) s

unfoldable pub cancelled : ℕ → ℕ → RefreshScheduler → RefreshScheduler
unfolding put given_up remove_from_queue delete
cancelled db_id i s = record s {
  objects = put s.objects i (given_up (s.objects i));
  pq = remove_from_queue i s.pq;
  tasks = delete db_id s.tasks;
}

unfoldable pub cancel_task : ℕ → RefreshScheduler → Bool × RefreshScheduler
unfolding find is_pending is_retrying cancelled
cancel_task db_id s = elim (find db_id s.tasks) [
  | none ↦ (false, s)
  | some i ↦
      if is_pending (s.objects i).state || is_retrying (s.objects i).state
      then (true, cancelled db_id i s)
      else (false, s)
]

-- No task means that it is done.
unfoldable pub get_task_status : ℕ → RefreshScheduler → RefreshState × (ℕ × Option Text)
unfolding find
get_task_status db_id s = elim (find db_id s.tasks) [
  | none ↦ (refresh_state_success, (0, none))
  | some i ↦ ((s.objects i).state, ((s.objects i).attempts, (s.objects i).last_error))
]

-- The accounts from the place `i` on. A later batch is only scheduled after its delay: it is given
-- back with that delay. `draw` gives the jitter of each place.
unfoldable pub schedule_batch :
    (ℕ → Draw × Draw)
    → ℕ
    → ℕ
    → List (Option Account)
    → RefreshScheduler
    → List (ℕ × Option Account) × RefreshScheduler
unfolding schedule
schedule_batch draw now i [] s = ([], s)
schedule_batch draw now i (a ∷ rest) s =
    let size = if s.config.batch_size == 0 then 5 else s.config.batch_size in
    let delay = i / size * s.config.min_interval in
    let (later, s') = schedule_batch draw now (suc i) rest s in
    let (now_later, now_s) =
      schedule_batch draw now (suc i) rest (schedule (draw i).0 (draw i).1 now a s) in
    if ltb 0 delay then ((delay, a) ∷ later, s') else (now_later, now_s)
