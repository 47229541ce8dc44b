-- ===== src/Auth/Refresh/Queue.antt =====
-- auth/refresh_scheduler.go: the priority queue. `container/heap` keeps the least task at the front
-- of a slice; here the queue is the list of the tasks in it, and its front is the least of them,
-- the first one among equals. A task's heap index is valid exactly while the queue holds the task.
use qoder2api.Prelude.{
  ℕ, Bool, false, ◌&&◌, ◌||◌, List, [], ◌∷◌, ◌++◌, Option, none, some, if◌then◌else◌, ltb, ◌==◌,
}
use qoder2api.Auth.Refresh.Tasks.{RefreshTask}

-- The tasks by their pointers.
abbrev pub Tasks : Type 0
Tasks = ℕ → RefreshTask

unfoldable pub put : Tasks → ℕ → RefreshTask → Tasks
put h i t = λ j. if i == j then t else h j

-- A higher priority comes first, and an earlier time among equal priorities.
unfoldable pub less : RefreshTask → RefreshTask → Bool
less a b =
    ltb b.priority a.priority || (a.priority == b.priority && ltb a.scheduled_at b.scheduled_at)

unfoldable pub front_from : Tasks → ℕ → List ℕ → ℕ
unfolding less
front_from h best [] = best
front_from h best (i ∷ is) =
    let better = front_from h i is in
    let same = front_from h best is in if less (h i) (h best) then better else same

unfoldable pub peek_queue : Tasks → List ℕ → Option ℕ
unfolding front_from
peek_queue h [] = none
peek_queue h (i ∷ is) = some (front_from h i is)

unfoldable pub holds : ℕ → List ℕ → Bool
holds i [] = false
holds i (j ∷ js) = j == i || holds i js

unfoldable pub without : ℕ → List ℕ → List ℕ
without i [] = []
without i (j ∷ js) = let rest = without i js in if j == i then js else j ∷ rest

unfoldable pub push_to_queue : ℕ → List ℕ → List ℕ
unfolding holds
push_to_queue i q = if holds i q then q else q ++ i ∷ []

unfoldable pub remove_from_queue : ℕ → List ℕ → List ℕ
unfolding without
remove_from_queue i q = without i q

unfoldable pub pop_from_queue : Tasks → List ℕ → List ℕ
unfolding front_from without
pop_from_queue h [] = []
pop_from_queue h (i ∷ is) = without (front_from h i is) (i ∷ is)
