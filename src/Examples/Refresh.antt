-- ===== src/Examples/Refresh.antt =====
-- A scheduler of token refreshes with few tasks.
use qoder2api.Prelude.{
  ℕ, ◌+◌, ◌≤◌, ◌<◌, ◌≡◌, refl, arith, true, false, List, [], ◌∷◌, ◌++◌, none, some, All, ◌⊎◌, inl,
  inr, if◌then◌else◌, ◌==◌, find, min, length, ◌*◌, ◌^◌, nat_key,
}
use qoder2api.Prelude.Text.{codes}
use qoder2api.Auth.Refresh.Tasks.{
  RefreshTask, Draw, refresh_state_pending, default_refresh_config, calculate_retry_time, second,
  millisecond, backoff_of, two_63, is_retrying, is_pending, is_running,
}
use qoder2api.Auth.Refresh.Queue.{Tasks, less, holds}
use qoder2api.Auth.Refresh.Scheduler.{
  RefreshScheduler, new_refresh_scheduler, process_scheduled_tasks,
}
use qoder2api.Auth.Refresh.Execution.{receive_task, start_task, cancel_task}
use qoder2api.Auth.Refresh.Dispatch.{IsSettled, CanBeSent, process_scheduled_tasks-sends}
use qoder2api.Auth.Refresh.Blocked.{process_scheduled_tasks-blocked}
use qoder2api.Auth.Refresh.Run.{
  RefreshOp, op_schedule, op_tick, op_receive, op_start, op_finish, op_retries, run, IsValid,
}
use qoder2api.Auth.Refresh.Runs.{run_new-IsValid}
use qoder2api.Auth.Refresh.Cancelled.{cancel_task-runs}
use qoder2api.Auth.Refresh.Times.{calculate_retry_time_between}
use qoder2api.Examples.Data.{an_account}

abbrev pending_task : ℕ → ℕ → RefreshTask
pending_task at rank = record {
  account = 7;
  scheduled_at = at;
  priority = rank;
  attempts = 0;
  state = refresh_state_pending;
  last_error = none;
  next_retry_at = 0;
}

-- Task 0 is due at 90 and has priority 30, every other one is due at 10 and has priority 20.
abbrev few_tasks : Tasks
few_tasks i = if i == 0 then pending_task 90 30 else pending_task 10 20

abbrev half : Draw
half = record { num = 1; den = 2 }

abbrev waiting : RefreshScheduler
waiting = record (new_refresh_scheduler few_tasks 0 default_refresh_config) {
  allocated = 2;
  pq = 0 ∷ 1 ∷ [];
}

process_scheduled_tasks-sends_example :
    (r : RefreshScheduler) × (process_scheduled_tasks 95 waiting ≡ r)
    × IsSettled 95 r
    × (r.objects ≡ waiting.objects)
    × ((new : List ℕ) × (r.queue ≡ waiting.queue ++ new) × All (CanBeSent 95 waiting.objects) new)
process_scheduled_tasks-sends_example = process_scheduled_tasks-sends 95 waiting

-- At the time 50 only task 1 is due, and task 0 stands before it.
first_in_queue : holds 0 waiting.pq ≡ true
unfolding holds
first_in_queue = refl

first_late : 50 < (waiting.objects 0).scheduled_at
unfolding new_refresh_scheduler
first_late = omega arith

first_before :
    All
      (λ j.
        (50 < (waiting.objects j).scheduled_at)
        ⊎ (less (waiting.objects 0) (waiting.objects j) ≡ true))
      waiting.pq
unfolding new_refresh_scheduler less
first_before = (inl (omega arith), (inr refl, tt))

process_scheduled_tasks-blocked_example : process_scheduled_tasks 50 waiting ≡ waiting
process_scheduled_tasks-blocked_example =
    process_scheduled_tasks-blocked 50 0 waiting first_in_queue first_late first_before

-- One task is scheduled, runs, fails, and is tried again.
abbrev one_failure : List (ℕ × RefreshOp)
one_failure =
    (10, op_schedule half half (some (an_account 7)))
    ∷ (40_000_000_000, op_tick)
    ∷ (40_000_000_001, op_receive)
    ∷ (40_000_000_002, op_start)
    ∷ (41_000_000_000, op_finish half 900 (some (codes "timeout")) 0)
    ∷ (99_000_000_000, op_retries)
    ∷ []

none_retrying : (i : ℕ) → is_retrying (few_tasks i).state ≡ false
unfolding is_retrying
none_retrying i = ground arith

run_new-IsValid_example :
    IsValid
      (new_refresh_scheduler few_tasks 0 default_refresh_config).config
      (run one_failure (new_refresh_scheduler few_tasks 0 default_refresh_config))
run_new-IsValid_example =
    run_new-IsValid default_refresh_config few_tasks 0 one_failure none_retrying

-- Task 1 waits for its execution.
abbrev queued : RefreshScheduler
queued = record (new_refresh_scheduler few_tasks 0 default_refresh_config) {
  allocated = 2;
  queue = 1 ∷ [];
  tasks = (7, 1) ∷ [];
}

queued_found : find 7 queued.tasks ≡ some 1
unfolding find
queued_found = refl

queued_pending : is_pending (queued.objects 1).state ≡ true
unfolding new_refresh_scheduler is_pending
queued_pending = refl

queued_idle : queued.in_hand ≡ none
unfolding new_refresh_scheduler
queued_idle = refl

queued_place : length queued.running < queued.config.max_concurrency
unfolding new_refresh_scheduler default_refresh_config
queued_place = omega arith

cancel_task-runs_example :
    ((cancel_task 7 queued).0 ≡ true)
    × ((start_task (receive_task (cancel_task 7 queued).1)).running ≡ 1 ∷ queued.running)
    × (is_running ((start_task (receive_task (cancel_task 7 queued).1)).objects 1).state ≡ true)
cancel_task-runs_example =
    cancel_task-runs queued 7 1 [] queued_found queued_pending refl queued_idle queued_place

default_share : default_refresh_config.jitter_percent ≤ 1_000
unfolding default_refresh_config
default_share = omega arith

default_doubled : default_refresh_config.retry_backoff_base * 2 ^ 3 < two_63
unfolding default_refresh_config second millisecond
default_doubled = omega arith

calculate_retry_time_between_example :
    (500 + min (default_refresh_config.retry_backoff_base * 2 ^ 2) 300_000_000_000
      ≤ calculate_retry_time default_refresh_config half 500 3)
    × (calculate_retry_time default_refresh_config half 500 3 ≤ 500 + 360_000_000_000)
    × (backoff_of default_refresh_config 4
        ≡ min (2 * backoff_of default_refresh_config 3) 300_000_000_000)
calculate_retry_time_between_example =
    calculate_retry_time_between default_refresh_config half 500 2 default_share (omega arith)
      (omega arith) default_doubled
