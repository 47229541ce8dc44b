-- ===== src/Auth/Refresh/Scheduler.antt =====
-- auth/refresh_scheduler.go: the state of the scheduler, and how tasks get into its queues. The clock
-- is read once for each call.
use qoder2api.Prelude.{
  ℕ, zero, suc, ◌+◌, Bool, true, false, not, ◌&&◌, List, [], ◌∷◌, ◌++◌, Option, none, some,
  if◌then◌else◌, ltb, ◌==◌, length, find, store, nat_key,
}
use qoder2api.Prelude.Int.{ℤ, pos, negsuc, ◌+ℤ◌}
use qoder2api.Auth.Account.{Account}
use qoder2api.Auth.Refresh.Tasks.{
  refresh_state_pending, refresh_state_success, RefreshTask, RefreshConfig, Draw,
  calculate_optimal_time, calculate_priority, is_pending, is_running,
}
use qoder2api.Auth.Refresh.Queue.{
  Tasks, put, peek_queue, push_to_queue, remove_from_queue, pop_from_queue,
}

pub record RefreshMetrics : Type 0 where
  pub total_tasks : ℕ
  pub pending_tasks : ℤ
  pub running_tasks : ℕ
  pub success_count : ℕ
  pub failed_count : ℕ
  pub retry_count : ℕ
  pub avg_duration_ms : ℕ
  pub last_refresh_at : ℕ

-- `objects` are the tasks by their pointers, those below `allocated`; `in_hand` is the task for which
-- the execution loop waits for a place of the semaphore, and `running` are the tasks that have one.
pub record RefreshScheduler : Type 0 where
  pub config : RefreshConfig
  pub objects : Tasks
  pub allocated : ℕ
  pub pq : List ℕ
  pub queue : List ℕ
  pub tasks : List (ℕ × ℕ)
  pub in_hand : Option ℕ
  pub running : List ℕ
  pub metrics : RefreshMetrics
  pub last_batch : ℕ

unfoldable pub no_metrics : RefreshMetrics
no_metrics = record {
  total_tasks = 0;
  pending_tasks = pos 0;
  running_tasks = 0;
  success_count = 0;
  failed_count = 0;
  retry_count = 0;
  avg_duration_ms = 0;
  last_refresh_at = 0;
}

-- `none_yet` is the memory before any task is made; nothing reads it.
unfoldable pub new_refresh_scheduler : Tasks → ℕ → RefreshConfig → RefreshScheduler
unfolding no_metrics
new_refresh_scheduler none_yet now c = record {
  config = record c {
    max_concurrency = if c.max_concurrency == 0 then 10 else c.max_concurrency;
    batch_size = if c.batch_size == 0 then 5 else c.batch_size;
  };
  objects = none_yet;
  allocated = 0;
  pq = [];
  queue = [];
  tasks = [];
  in_hand = none;
  running = [];
  metrics = no_metrics;
  last_batch = now;
}

unfoldable pub queue_capacity : ℕ
queue_capacity = 1_000

unfoldable pub add_pending : ℤ → RefreshMetrics → RefreshMetrics
add_pending d m = record m { pending_tasks = m.pending_tasks +ℤ d }

unfoldable pub rescheduled : RefreshConfig → Draw → Draw → ℕ → Account → RefreshTask → RefreshTask
unfolding calculate_optimal_time calculate_priority
rescheduled c r1 r2 now a t = record t {
  state = refresh_state_pending;
  scheduled_at = calculate_optimal_time c r1 r2 now a;
  priority = calculate_priority now a;
  attempts = 0;
  last_error = none;
}

unfoldable pub new_task : RefreshConfig → Draw → Draw → ℕ → Account → RefreshTask
unfolding calculate_optimal_time calculate_priority
new_task c r1 r2 now a = record {
  account = a.db_id;
  scheduled_at = calculate_optimal_time c r1 r2 now a;
  priority = calculate_priority now a;
  attempts = 0;
  state = refresh_state_pending;
  last_error = none;
  next_retry_at = 0;
}

-- A task that is made for an account without one.
unfoldable pub scheduled_new : Draw → Draw → ℕ → Account → RefreshScheduler → RefreshScheduler
unfolding store put new_task push_to_queue add_pending
scheduled_new r1 r2 now a s = record s {
  objects = put s.objects s.allocated (new_task s.config r1 r2 now a);
  allocated = suc s.allocated;
  tasks = store a.db_id s.allocated s.tasks;
  metrics = add_pending (pos 1) (record s.metrics { total_tasks = s.metrics.total_tasks + 1 });
  pq = push_to_queue s.allocated s.pq;
}

-- The account's task `i`, scheduled again.
unfoldable pub scheduled_again : Draw → Draw → ℕ → Account → ℕ → RefreshScheduler → RefreshScheduler
unfolding put rescheduled push_to_queue
scheduled_again r1 r2 now a i s = record s {
  objects = put s.objects i (rescheduled s.config r1 r2 now a (s.objects i));
  pq = push_to_queue i s.pq;
}

unfoldable pub schedule : Draw → Draw → ℕ → Option Account → RefreshScheduler → RefreshScheduler
unfolding find scheduled_new scheduled_again is_running
schedule r1 r2 now none s = s
schedule r1 r2 now (some a) s = elim (find a.db_id s.tasks) [
  | none ↦ scheduled_new r1 r2 now a s
  | some i ↦ if is_running (s.objects i).state then s else scheduled_again r1 r2 now a i s
]

-- queue <- task
unfoldable pub enqueued : ℕ → RefreshScheduler → RefreshScheduler
unfolding add_pending
enqueued i s = record s { queue = s.queue ++ i ∷ []; metrics = add_pending (negsuc 0) s.metrics }

-- queue <- task, if it has room.
unfoldable pub offered : ℕ → RefreshScheduler → RefreshScheduler
unfolding queue_capacity enqueued
offered i s = if ltb (length s.queue) queue_capacity then enqueued i s else s

unfoldable pub immediate_task : ℕ → Account → RefreshTask
immediate_task now a = record {
  account = a.db_id;
  scheduled_at = now;
  priority = 1_000;
  attempts = 0;
  state = refresh_state_pending;
  last_error = none;
  next_retry_at = 0;
}

unfoldable pub given_up : RefreshTask → RefreshTask
given_up t = record t { state = refresh_state_success }

-- The account has no task yet.
unfoldable pub counted_new : RefreshScheduler → RefreshScheduler
unfolding add_pending
counted_new s = record s {
  metrics = add_pending (pos 1) (record s.metrics { total_tasks = s.metrics.total_tasks + 1 });
}

-- The account has the task `i`, which is given up.
unfoldable pub displaced : ℕ → RefreshScheduler → RefreshScheduler
unfolding put given_up remove_from_queue add_pending
displaced i s = record s {
  objects = put s.objects i (given_up (s.objects i));
  pq = remove_from_queue i s.pq;
  metrics = add_pending (negsuc 0) s.metrics;
}

unfoldable pub superseded : ℕ → RefreshScheduler → RefreshScheduler
unfolding find counted_new displaced
superseded db_id s = elim (find db_id s.tasks) [ none ↦ counted_new s | some i ↦ displaced i s ]

-- tasks[dbID] = task
unfoldable pub made_immediate : ℕ → Account → RefreshScheduler → RefreshScheduler
unfolding immediate_task put store
made_immediate now a s = record s {
  objects = put s.objects s.allocated (immediate_task now a);
  allocated = suc s.allocated;
  tasks = store a.db_id s.allocated s.tasks;
}

unfoldable pub schedule_immediate : ℕ → Option Account → RefreshScheduler → RefreshScheduler
unfolding superseded made_immediate offered
schedule_immediate now none s = s
schedule_immediate now (some a) s =
    let s' = superseded a.db_id s in offered s'.allocated (made_immediate now a s')

-- The batch optimisation only writes the time of the last batch.
unfoldable pub batched : ℕ → RefreshScheduler → RefreshScheduler
batched now s =
    if s.config.enable_batch_optimize && ltb now (s.last_batch + s.config.min_interval)
    then record s { last_batch = now }
    else s

-- The task at the front goes to the queue, or back if that is full; whether the loop goes on.
unfoldable pub sent : ℕ → ℕ → RefreshScheduler → Bool × RefreshScheduler
unfolding batched pop_from_queue queue_capacity enqueued push_to_queue
sent now i s =
    let s' = batched now (record s { pq = pop_from_queue s.objects s.pq }) in
    if ltb (length s'.queue) queue_capacity
    then (true, enqueued i s')
    else (false, record s' { pq = push_to_queue i s'.pq })

-- One turn of the loop.
unfoldable pub turn : ℕ → RefreshScheduler → Bool × RefreshScheduler
unfolding peek_queue pop_from_queue sent is_pending
turn now s = elim (peek_queue s.objects s.pq) [
  | none ↦ (false, s)
  | some i ↦
      if ltb now (s.objects i).scheduled_at
      then (false, s)
      else if not (is_pending (s.objects i).state)
      then (true, record s { pq = pop_from_queue s.objects s.pq })
      else sent now i s
]

-- The loop, on fuel.
unfoldable pub turns : ℕ → ℕ → RefreshScheduler → RefreshScheduler
unfolding turn
turns zero now s = s
turns (suc fuel) now s =
    let again = turns fuel now (turn now s).1 in if (turn now s).0 then again else (turn now s).1

-- Each turn that goes on takes a task out of the priority queue.
unfoldable pub process_scheduled_tasks : ℕ → RefreshScheduler → RefreshScheduler
unfolding turns
process_scheduled_tasks now s = turns (suc (length s.pq)) now s
