-- ===== src/Auth/Refresh/Run.antt =====
-- Runs of the refresh scheduler's operations, and what they keep.
use qoder2api.Prelude.{
  ℕ, ◌≤◌, ◌≡◌, sym, arith, Bool, true, not, ◌&&◌, ◌||◌, List, [], ◌∷◌, Option, inl, inr, ltb, ◌==◌,
  length, Bool-cases, ap, ◌∙◌, subst, nat_key,
}
use qoder2api.Prelude.Text.{Text}
use qoder2api.Auth.Account.{Account}
use qoder2api.Auth.Refresh.Tasks.{RefreshTask, RefreshConfig, Draw, is_retrying}
use qoder2api.Auth.Refresh.Queue.{Tasks, put}
use qoder2api.Auth.Refresh.Scheduler.{
  RefreshScheduler, schedule, schedule_immediate, process_scheduled_tasks, queue_capacity,
}
use qoder2api.Auth.Refresh.Execution.{
  receive_task, start_task, finish_task, process_retries, cancel_task,
}

pub data RefreshOp : Type 0 where
  op_schedule : Draw → Draw → Option Account → RefreshOp
  op_immediate : Option Account → RefreshOp
  op_tick : RefreshOp
  op_receive : RefreshOp
  op_start : RefreshOp
  op_finish : Draw → ℕ → Option Text → ℕ → RefreshOp
  op_retries : RefreshOp
  op_cancel : ℕ → RefreshOp

unfoldable pub step : ℕ → RefreshOp → RefreshScheduler → RefreshScheduler
unfolding schedule schedule_immediate process_scheduled_tasks receive_task start_task finish_task
    process_retries cancel_task
step now (op_schedule r1 r2 a) s = schedule r1 r2 now a s
step now (op_immediate a) s = schedule_immediate now a s
step now op_tick s = process_scheduled_tasks now s
step now op_receive s = receive_task s
step now op_start s = start_task s
step now (op_finish r duration answer i) s = finish_task r now duration answer i s
step now op_retries s = process_retries now s
step now (op_cancel db_id) s = (cancel_task db_id s).1

unfoldable pub run : List (ℕ × RefreshOp) → RefreshScheduler → RefreshScheduler
unfolding step
run [] s = s
run ((now, o) ∷ os) s = run os (step now o s)

-- A task that waits for its retry has failed, and has an attempt left.
abbrev pub retry_ok : ℕ → RefreshTask → Bool
retry_ok max t = not (is_retrying t.state) || (ltb 0 t.attempts && ltb t.attempts max)

-- No more tasks run than the semaphore has places, the metrics count the tasks that run, the queue
-- for execution is not over its capacity, and every task that waits for a retry has one left.
pub record IsValid (c : RefreshConfig) (s : RefreshScheduler) : Type 0 where
  pub config_ok : s.config ≡ c
  pub running_ok : length s.running ≤ c.max_concurrency
  pub counted_ok : s.metrics.running_tasks ≡ length s.running
  pub queue_ok : length s.queue ≤ queue_capacity
  pub retries_ok : (i : ℕ) → retry_ok c.retry_max_attempts (s.objects i) ≡ true

pub put_ok :
    (max : ℕ) (h : Tasks) (i : ℕ) (t : RefreshTask)
    → ((j : ℕ) → retry_ok max (h j) ≡ true)
    → retry_ok max t ≡ true
    → (j : ℕ) → retry_ok max (put h i t j) ≡ true
unfolding put
put_ok max h i t all ok j = elim (Bool-cases (i == j)) [
  | inl here ↦ rw here ok
  | inr other ↦ rw other (all j)
]

-- One write of a task, and a queue that stays in its capacity.
pub written-IsValid :
    (c : RefreshConfig) (s s' : RefreshScheduler) (i : ℕ) (t : RefreshTask)
    → IsValid c s
    → s'.config ≡ s.config
    → s'.running ≡ s.running
    → s'.metrics.running_tasks ≡ s.metrics.running_tasks
    → length s'.queue ≤ queue_capacity
    → s'.objects ≡ put s.objects i t
    → retry_ok c.retry_max_attempts t ≡ true
    → IsValid c s'
written-IsValid c s s' i t v same_config same_running same_count fits tasks ok = record {
  config_ok = same_config ∙ v.config_ok;
  running_ok = omega (arith, v.running_ok, ap length same_running);
  counted_ok = same_count ∙ (v.counted_ok ∙ ap length (sym same_running));
  queue_ok = fits;
  retries_ok = λ j.
      subst (λ h. retry_ok c.retry_max_attempts (h j) ≡ true) (sym tasks)
        (put_ok c.retry_max_attempts s.objects i t v.retries_ok ok j);
}

-- A step that writes no task.
pub quiet-IsValid :
    (c : RefreshConfig) (s s' : RefreshScheduler)
    → IsValid c s
    → s'.config ≡ s.config
    → s'.running ≡ s.running
    → s'.metrics.running_tasks ≡ s.metrics.running_tasks
    → length s'.queue ≤ queue_capacity
    → s'.objects ≡ s.objects
    → IsValid c s'
quiet-IsValid c s s' v same_config same_running same_count fits tasks = record {
  config_ok = same_config ∙ v.config_ok;
  running_ok = omega (arith, v.running_ok, ap length same_running);
  counted_ok = same_count ∙ (v.counted_ok ∙ ap length (sym same_running));
  queue_ok = fits;
  retries_ok =
      λ j. subst (λ h. retry_ok c.retry_max_attempts (h j) ≡ true) (sym tasks) (v.retries_ok j);
}
