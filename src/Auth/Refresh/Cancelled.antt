-- ===== src/Auth/Refresh/Cancelled.antt =====
-- A task that is cancelled while it waits in the queue for execution.
use qoder2api.Prelude.{
  ℕ, ◌<◌, ◌≡◌, refl, true, List, ◌∷◌, none, some, lt→ltb, ==_refl, length, find, nat_key, ap, ◌∙◌,
}
use qoder2api.Auth.Refresh.Tasks.{is_pending, is_running}
use qoder2api.Auth.Refresh.Queue.{put}
use qoder2api.Auth.Refresh.Scheduler.{RefreshScheduler}
use qoder2api.Auth.Refresh.Execution.{receive_task, start_task, started, cancel_task, cancelled}

receive_first :
    (s : RefreshScheduler) (i : ℕ) (rest : List ℕ)
    → s.queue ≡ i ∷ rest
    → s.in_hand ≡ none
    → receive_task s ≡ record s { queue = rest; in_hand = some i }
unfolding receive_task
receive_first s i rest first idle = rw (idle, first, receive_task) refl

start_taken :
    (s : RefreshScheduler) (i : ℕ)
    → s.in_hand ≡ some i
    → length s.running < s.config.max_concurrency
    → start_task s ≡ started i s
unfolding start_task
start_taken s i taken place =
    rw (taken, lt→ltb (length s.running) s.config.max_concurrency place, start_task) refl

runs :
    (s : RefreshScheduler) (db_id i : ℕ) (rest : List ℕ)
    → s.queue ≡ i ∷ rest
    → s.in_hand ≡ none
    → length s.running < s.config.max_concurrency
    → start_task (receive_task (cancelled db_id i s))
      ≡ started i (record (cancelled db_id i s) { queue = rest; in_hand = some i })
unfolding cancelled
runs s db_id i rest first idle place =
    ap start_task (receive_first (cancelled db_id i s) i rest first idle)
    ∙ start_taken (record (cancelled db_id i s) { queue = rest; in_hand = some i }) i refl place

started_running : (i : ℕ) (s : RefreshScheduler) → (started i s).running ≡ i ∷ s.running
unfolding started
started_running i s = refl

started_runs : (i : ℕ) (s : RefreshScheduler) → is_running ((started i s).objects i).state ≡ true
unfolding started put is_running
started_runs i s = rw (==_refl i) refl

-- Cancelling a pending task says that it is cancelled. If the task is the next one in the queue for
-- execution, the execution loop has no other one in hand and the semaphore has a place, the loop
-- runs it all the same.
pub cancel_task-runs :
    (s : RefreshScheduler) (db_id i : ℕ) (rest : List ℕ)
    → find db_id s.tasks ≡ some i
    → is_pending (s.objects i).state ≡ true
    → s.queue ≡ i ∷ rest
    → s.in_hand ≡ none
    → length s.running < s.config.max_concurrency
    → ((cancel_task db_id s).0 ≡ true)
      × ((start_task (receive_task (cancel_task db_id s).1)).running ≡ i ∷ s.running)
      × (is_running ((start_task (receive_task (cancel_task db_id s).1)).objects i).state ≡ true)
unfolding cancel_task cancelled
cancel_task-runs s db_id i rest found pending first idle place =
    rw (found, pending, cancel_task)
      (
        refl,
        ap (λ t. t.running) (runs s db_id i rest first idle place)
            ∙ started_running i (record (cancelled db_id i s) { queue = rest; in_hand = some i }),
        ap (λ t. is_running (t.objects i).state) (runs s db_id i rest first idle place)
            ∙ started_runs i (record (cancelled db_id i s) { queue = rest; in_hand = some i }),
      )
