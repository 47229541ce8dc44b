-- ===== src/Auth/FastScheduler/Buckets.antt =====
-- auth/fast_scheduler.go, the operations that change the buckets: `Rebuild`, `Update`, `Remove`,
-- `SetSchedulerMode`, `SetBaseLimit`, `insertLocked`, `removeLocked`, `rebuildPositionsLocked`.
use qoder2api.Prelude.{
  ℕ, zero, suc, Bool, true, false, ◌||◌, not, List, [], ◌∷◌, ◌++◌, Option, none, some,
  if◌then◌else◌, leb, ◌==◌, length,
}
use qoder2api.Auth.Account.{AccountHealthTier, healthy, warm, risky}
use qoder2api.Auth.Availability.{Snapshot, fast_scheduler_snapshot}
use qoder2api.Auth.FastScheduler.{
  Mode, Entry, Position, FastScheduler, World, write, bucket, set_bucket, sort_stable, insert_less,
  rebuild_less,
}

-- for idx, entry := range bucket { positions[entry.dbID] = {tier, idx} }
unfoldable pub index_from :
    AccountHealthTier → ℕ → List Entry → (ℕ → Option Position) → ℕ → Option Position
index_from tier idx [] pos = pos
index_from tier idx (e ∷ es) pos =
    index_from tier (suc idx) es
      (λ j. if j == e.db_id then some (record { tier = tier; index = idx }) else pos j)

unfoldable pub rebuild_positions : AccountHealthTier → FastScheduler → FastScheduler
unfolding index_from
rebuild_positions tier s = record s { positions = index_from tier 0 (bucket tier s) s.positions }

-- delete(positions, id)
abbrev pub delete_position : ℕ → FastScheduler → FastScheduler
delete_position id s = record s { positions = λ j. if j == id then none else s.positions j }

-- copy(entries[i:], entries[i+1:]); entries = entries[:len(entries)-1]
unfoldable pub remove_at : ℕ → List Entry → List Entry
remove_at i [] = []
remove_at zero (e ∷ es) = es
remove_at (suc i) (e ∷ es) = e ∷ remove_at i es

unfoldable pub remove_locked : ℕ → FastScheduler → FastScheduler
unfolding remove_at rebuild_positions
remove_locked id s = elim (s.positions id) [
  | none ↦ s
  | some p ↦
      if leb (length (bucket p.tier s)) p.index
      then delete_position id s
      else rebuild_positions p.tier
          (delete_position id (set_bucket p.tier (remove_at p.index (bucket p.tier s)) s))
]

abbrev pub is_schedulable : AccountHealthTier → Bool
is_schedulable healthy = true
is_schedulable warm = true
is_schedulable risky = true
is_schedulable _ = false

abbrev pub entry_of : ℕ → Snapshot → Entry
entry_of id snap = record { db_id = id; dispatch_score = snap.score; proven = snap.proven }

-- The part of `insertLocked` behind the snapshot; the account is already written back.
unfoldable pub place : ℕ → Snapshot → World → World
unfolding sort_stable insert_less rebuild_positions
place id snap w =
    let s = w.scheduler in
    if not snap.available || snap.limit == 0
    then w
    else if not (is_schedulable snap.tier)
    then w
    else record w {
      scheduler = rebuild_positions snap.tier (
          set_bucket snap.tier
            (sort_stable (insert_less s.scheduler_mode snap.tier w.accounts)
              (bucket snap.tier s ++ entry_of id snap ∷ []))
            s);
    }

unfoldable pub insert_locked : ℕ → ℕ → World → World
insert_locked id now w =
    if id == 0
    then w
    else let (a, snap) = fast_scheduler_snapshot w.scheduler.base_limit now (w.accounts id) in
      place id snap (record w { accounts = write w.accounts id a })

unfoldable pub update : ℕ → ℕ → World → World
update id now w = insert_locked id now (record w { scheduler = remove_locked id w.scheduler })

unfoldable pub remove : ℕ → World → World
remove id w = if id == 0 then w else record w { scheduler = remove_locked id w.scheduler }

-- if len(entries) == 0 { continue }; sort; rebuild the positions of the tier
unfoldable pub resort_entries :
    (Entry → Entry → Bool) → AccountHealthTier → FastScheduler → List Entry → FastScheduler
unfolding sort_stable rebuild_positions
resort_entries less tier s [] = s
resort_entries less tier s (e ∷ es) =
    rebuild_positions tier (set_bucket tier (sort_stable less (e ∷ es)) s)

unfoldable pub resort : (Entry → Entry → Bool) → AccountHealthTier → FastScheduler → FastScheduler
unfolding resort_entries
resort less tier s = resort_entries less tier s (bucket tier s)

-- One account of `Rebuild`'s first loop: nothing is sorted yet.
unfoldable pub collect : ℕ → ℕ → World → World
collect now id w =
    if id == 0
    then w
    else let (a, snap) = fast_scheduler_snapshot w.scheduler.base_limit now (w.accounts id) in
      let s = w.scheduler in
      let w' = record w { accounts = write w.accounts id a } in
      if not snap.available || snap.limit == 0
      then w'
      else if not (is_schedulable snap.tier)
      then w'
      else record w' {
        scheduler = set_bucket snap.tier (bucket snap.tier s ++ entry_of id snap ∷ []) s;
      }

unfoldable pub collect_all : ℕ → List ℕ → World → World
unfolding collect
collect_all now [] w = w
collect_all now (id ∷ ids) w = collect_all now ids (collect now id w)

-- The last loop sorts each bucket once, in the order of `SetSchedulerMode`.
unfoldable pub resort_all : Mode → World → World
resort_all mode w =
    let less = rebuild_less mode w.accounts in
    record w { scheduler = resort less risky (resort less warm (resort less healthy w.scheduler)) }

unfoldable pub rebuild : ℕ → List ℕ → World → World
rebuild now ids w =
    let cleared = record w.scheduler {
      healthy_bucket = [];
      warm_bucket = [];
      risky_bucket = [];
      positions = λ _. none;
    } in
    resort_all w.scheduler.scheduler_mode (collect_all now ids (record w { scheduler = cleared }))

-- The empty string is `round_robin` here, as the code reads it.
unfoldable pub set_scheduler_mode : Mode → World → World
set_scheduler_mode mode w =
    resort_all mode (record w { scheduler = record w.scheduler { scheduler_mode = mode } })

unfoldable pub set_base_limit : ℕ → FastScheduler → FastScheduler
set_base_limit limit s = record s { base_limit = if limit == 0 then 1 else limit }
