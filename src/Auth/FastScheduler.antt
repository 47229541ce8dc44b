-- ===== src/Auth/FastScheduler.antt =====
-- auth/fast_scheduler.go: accounts in buckets by health tier, each bucket sorted, an index of the
-- positions, and the scan for an account that has a free slot.
-- An entry's pointer to its account is the account's id in the heap `accounts`. A nil group check or
-- filter is one that accepts every account. A cursor counts without wrapping, since a uint64 would
-- take 2^63 acquisitions to leave the range of `int`. A mode is a value of a data type: the code
-- compares the string with the two names below, and every other one sorts by score.
pub mod Buckets
pub mod Positions
pub mod Removal
pub mod Insertion
pub mod Order
pub mod Updates
pub mod Rounds
pub mod Acquire
pub mod Weights
pub mod Progress
pub mod Termination
pub mod Scan
use qoder2api.Prelude.{
  ℕ, zero, suc, ◌+◌, ◌-◌, ◌%◌, Bool, true, false, ◌&&◌, ◌||◌, not, List, [], ◌∷◌, ◌++◌, Option,
  none, some, if◌then◌else◌, leb, ltb, ◌==◌, length, get_elem?,
}
use qoder2api.Prelude.Int.{ℤ, pos_part, neg_part, ltb_ℤ}
use qoder2api.Auth.Account.{
  Account, AccountHealthTier, unset, healthy, warm, risky, banned, tier_eq,
}
use qoder2api.Auth.Score.{fine}
use qoder2api.Auth.Availability.{Snapshot, fast_scheduler_snapshot, try_acquire_account}

pub data Mode : Type 0 where
  round_robin remaining_quota other_mode : Mode

pub record Entry : Type 0 where
  pub db_id : ℕ
  pub dispatch_score : ℤ
  pub proven : Bool

pub record Position : Type 0 where
  pub tier : AccountHealthTier
  pub index : ℕ

pub record FastScheduler : Type 0 where
  pub base_limit : ℕ
  pub scheduler_mode : Mode
  pub healthy_bucket : List Entry
  pub warm_bucket : List Entry
  pub risky_bucket : List Entry
  pub positions : ℕ → Option Position
  pub healthy_cursor : ℕ
  pub warm_cursor : ℕ
  pub risky_cursor : ℕ
  pub group_check : ℕ → Account → Bool

abbrev pub Heap : Type 0
Heap = ℕ → Account

abbrev pub write : Heap → ℕ → Account → Heap
write h id a j = if j == id then a else h j

pub record World : Type 0 where
  pub scheduler : FastScheduler
  pub accounts : Heap

unfoldable pub usage_percent_for_scheduling : Account → ℕ
usage_percent_for_scheduling a = if a.usage_percent_7d_valid then a.usage_percent_7d else 0

elem : ℕ → List ℕ → Bool
elem x [] = false
elem x (y ∷ ys) = y == x || elem x ys

unfoldable pub allows_api_key : ℕ → Account → Bool
unfolding elem
allows_api_key api_key_id a = elim a.allowed_api_key_ids [
  | [] ↦ true
  | id ∷ ids ↦ if api_key_id == 0 then false else elem api_key_id (id ∷ ids)
]

abbrev pub bucket : AccountHealthTier → FastScheduler → List Entry
bucket healthy s = s.healthy_bucket
bucket warm s = s.warm_bucket
bucket risky s = s.risky_bucket
bucket _ s = []

abbrev pub set_bucket : AccountHealthTier → List Entry → FastScheduler → FastScheduler
set_bucket healthy es s = record s { healthy_bucket = es }
set_bucket warm es s = record s { warm_bucket = es }
set_bucket risky es s = record s { risky_bucket = es }
set_bucket _ es s = s

abbrev pub cursor : AccountHealthTier → FastScheduler → ℕ
cursor healthy s = s.healthy_cursor
cursor warm s = s.warm_cursor
cursor risky s = s.risky_cursor
cursor _ s = 0

-- cursor.Add(1)
abbrev pub bump_cursor : AccountHealthTier → FastScheduler → FastScheduler
bump_cursor healthy s = record s { healthy_cursor = suc s.healthy_cursor }
bump_cursor warm s = record s { warm_cursor = suc s.warm_cursor }
bump_cursor risky s = record s { risky_cursor = suc s.risky_cursor }
bump_cursor _ s = s

unfoldable pub score_eq : ℤ → ℤ → Bool
score_eq a b = pos_part a + neg_part b == pos_part b + neg_part a

unfoldable pub bool_eq : Bool → Bool → Bool
bool_eq true b = b
bool_eq false b = not b

-- if a.proven != b.proven { return a.proven }; return a.dbID < b.dbID
unfoldable pub tie_less : Entry → Entry → Bool
unfolding bool_eq
tie_less a b = if not (bool_eq a.proven b.proven) then a.proven else ltb a.db_id b.db_id

unfoldable pub score_less : Entry → Entry → Bool
unfolding score_eq tie_less
score_less a b =
    if score_eq a.dispatch_score b.dispatch_score
    then tie_less a b
    else ltb_ℤ b.dispatch_score a.dispatch_score

unfoldable pub quota_less : Heap → Entry → Entry → Bool
unfolding usage_percent_for_scheduling tie_less
quota_less h a b =
    let usage_a = usage_percent_for_scheduling (h a.db_id) in
    let usage_b = usage_percent_for_scheduling (h b.db_id) in
    if usage_a == usage_b then tie_less a b else ltb usage_a usage_b

-- The order of the healthy bucket in `insertLocked`.
unfoldable pub round_robin_less : Heap → Entry → Entry → Bool
unfolding usage_percent_for_scheduling tie_less score_eq
round_robin_less h a b =
    let usage_a = usage_percent_for_scheduling (h a.db_id) in
    let usage_b = usage_percent_for_scheduling (h b.db_id) in
    if usage_a == usage_b
    then (if not (score_eq a.dispatch_score b.dispatch_score)
        then ltb_ℤ b.dispatch_score a.dispatch_score
        else tie_less a b)
    else ltb usage_a usage_b

-- The order that `SetSchedulerMode` and `Rebuild` sort a bucket by.
unfoldable pub rebuild_less : Mode → Heap → Entry → Entry → Bool
rebuild_less remaining_quota h = quota_less h
rebuild_less round_robin h = score_less
rebuild_less other_mode h = score_less

-- The order that `insertLocked` sorts a bucket by.
unfoldable pub insert_less : Mode → AccountHealthTier → Heap → Entry → Entry → Bool
insert_less remaining_quota t h = quota_less h
insert_less round_robin healthy h = round_robin_less h
insert_less round_robin t h = score_less
insert_less other_mode t h = score_less

-- sort.SliceStable: an entry goes before the first one that is not less than it.
unfoldable pub sort_insert : (Entry → Entry → Bool) → Entry → List Entry → List Entry
sort_insert less x [] = x ∷ []
sort_insert less x (y ∷ ys) = if less y x then y ∷ sort_insert less x ys else x ∷ y ∷ ys

unfoldable pub sort_stable : (Entry → Entry → Bool) → List Entry → List Entry
unfolding sort_insert
sort_stable less [] = []
sort_stable less (x ∷ xs) = sort_insert less x (sort_stable less xs)
