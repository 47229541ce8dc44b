-- ===== src/Auth/FastScheduler/Scan.antt =====
-- auth/fast_scheduler.go, the scan: `AcquireExcludingWithFilter`, `scanRangeLocked`, `Release`.
-- The tiers are scanned in order, each bucket round robin from its cursor. An entry whose account
-- has changed is moved and the scan starts again; the rounds take fuel.
use qoder2api.Prelude.{
  ℕ, zero, suc, ◌+◌, ◌-◌, ◌%◌, Bool, true, false, ◌&&◌, ◌||◌, not, List, [], ◌∷◌, Option, none,
  some, if◌then◌else◌, leb, ◌==◌, length, get_elem?,
}
use qoder2api.Prelude.Int.{ℤ, pos_part, neg_part}
use qoder2api.Auth.Account.{Account, AccountHealthTier, healthy, warm, risky, tier_eq}
use qoder2api.Auth.Score.{fine}
use qoder2api.Auth.Availability.{Snapshot, fast_scheduler_snapshot, try_acquire_account}
use qoder2api.Auth.FastScheduler.{
  Mode, remaining_quota, Entry, World, write, bucket, cursor, bump_cursor, bool_eq, allows_api_key,
}
use qoder2api.Auth.FastScheduler.Buckets.{remove_locked, place}

-- What the caller of a scan asks for.
pub record Request : Type 0 where
  pub api_key_id : ℕ
  pub exclude : ℕ → Bool
  pub filter : Account → Bool

pub data Outcome : Type 0 where
  acquired : ℕ → Outcome
  stale nothing : Outcome

-- The tests of an entry that come before its snapshot.
unfoldable pub admits : Request → (ℕ → Account → Bool) → Entry → Account → Bool
admits r group_check e a =
    not (r.exclude e.db_id)
    && allows_api_key r.api_key_id a
    && group_check r.api_key_id a
    && r.filter a

-- |a - b| >= 1 point
unfoldable pub score_moved : ℤ → ℤ → Bool
score_moved a b =
    let x = pos_part a + neg_part b in
    let y = pos_part b + neg_part a in leb fine (x - y) || leb fine (y - x)

unfoldable pub is_stale : AccountHealthTier → Entry → Snapshot → Bool
unfolding tier_eq bool_eq score_moved
is_stale expected e snap =
    not (tier_eq snap.tier expected)
    || not (bool_eq snap.proven e.proven)
    || score_moved snap.score e.dispatch_score

-- removeLocked, and insertLocked if the account is available. `insertLocked` takes the snapshot
-- once more, of the account that the first snapshot left.
unfoldable pub move_entry : ℕ → ℕ → Snapshot → World → World
move_entry now id snap w =
    let w' = record w { scheduler = remove_locked id w.scheduler } in
    if snap.available && not (snap.limit == 0)
    then (let (a, again) = fast_scheduler_snapshot w'.scheduler.base_limit now (w'.accounts id) in
        place id again (record w' { accounts = write w'.accounts id a }))
    else w'

-- The rest of the loop body, behind `admits`. `none` is `continue`.
unfoldable pub visit : AccountHealthTier → ℕ → Entry → World → Option Outcome × World
visit expected now e w =
    let (a, snap) = fast_scheduler_snapshot w.scheduler.base_limit now (w.accounts e.db_id) in
    let w' = record w { accounts = write w.accounts e.db_id a } in
    if is_stale expected e snap
    then (some stale, move_entry now e.db_id snap w')
    else if not snap.available || snap.limit == 0
    then (none, w')
    else let (a', done) = try_acquire_account snap.limit now a in
      if done
      then (some (acquired e.db_id), record w' { accounts = write w.accounts e.db_id a' })
      else (none, w')

-- The loop goes on with `rest` if the entry was passed over.
abbrev pub unless_done : Option Outcome × World → (World → Outcome × World) → Outcome × World
unless_done (none, w) rest = rest w
unless_done (some o, w) rest = (o, w)

-- for offset := 0; offset < n; offset++ over the bucket as it was at the start.
unfoldable pub scan_from :
    AccountHealthTier → ℕ → Request → List Entry → ℕ → ℕ → ℕ → World → Outcome × World
scan_from tier now r entries start zero offset w = (nothing, w)
scan_from tier now r entries start (suc left) offset w =
    let rest = scan_from tier now r entries start left (suc offset) in
    elim (get_elem? entries ((start + offset) % length entries)) [
      | none ↦ rest w
      | some e ↦
          if admits r w.scheduler.group_check e (w.accounts e.db_id)
          then unless_done (visit tier now e w) rest
          else rest w
    ]

abbrev pub uses_cursor : Mode → Bool
uses_cursor remaining_quota = false
uses_cursor _ = true

unfoldable pub scan_bucket : AccountHealthTier → ℕ → Request → List Entry → World → Outcome × World
scan_bucket tier now r [] w = (nothing, w)
scan_bucket tier now r (e ∷ es) w =
    let n = length (e ∷ es) in
    if uses_cursor w.scheduler.scheduler_mode
    then scan_from tier now r (e ∷ es) (cursor tier w.scheduler % n) n 0
        (record w { scheduler = bump_cursor tier w.scheduler })
    else scan_from tier now r (e ∷ es) 0 n 0 w

unfoldable pub scan_tier : AccountHealthTier → ℕ → Request → World → Outcome × World
scan_tier tier now r w = scan_bucket tier now r (bucket tier w.scheduler) w

-- The next tier is scanned if this one had nothing.
abbrev pub unless_found : Outcome × World → (World → Outcome × World) → Outcome × World
unless_found (acquired id, w) rest = (acquired id, w)
unless_found (stale, w) rest = (stale, w)
unless_found (nothing, w) rest = rest w

unfoldable pub scan_tiers : List AccountHealthTier → ℕ → Request → World → Outcome × World
scan_tiers [] now r w = (nothing, w)
scan_tiers (t ∷ ts) now r w = unless_found (scan_tier t now r w) (scan_tiers ts now r)

abbrev pub tier_order : List AccountHealthTier
tier_order = healthy ∷ warm ∷ risky ∷ []

abbrev pub if_stale :
    Outcome × World → (World → Option (Option ℕ × World)) → Option (Option ℕ × World)
if_stale (acquired id, w) again = some (some id, w)
if_stale (nothing, w) again = some (none, w)
if_stale (stale, w) again = again w

-- `none` means that the fuel ran out.
unfoldable pub acquire_excluding_with_filter : ℕ → ℕ → Request → World → Option (Option ℕ × World)
acquire_excluding_with_filter zero now r w = none
acquire_excluding_with_filter (suc fuel) now r w =
    if_stale (scan_tiers tier_order now r w) (acquire_excluding_with_filter fuel now r)

-- atomic.AddInt64(&acc.ActiveRequests, -1); a caller releases only what it acquired.
unfoldable pub release : ℕ → World → World
release id w = record w {
  accounts =
      write w.accounts id
        (record (w.accounts id) { active_requests = (w.accounts id).active_requests - 1 });
}
