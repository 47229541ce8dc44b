-- ===== src/Auth/Store/Selection.antt =====
-- auth/store.go: NextExcludingWithFilter, the slow path. It looks at every account, takes the one
-- with the best tier, score and load, and looks again if that one cools down or is taken.
pub mod Argmax
use qoder2api.Prelude.{
  ℕ, zero, suc, ◌+◌, ◌≡◌, Bool, true, false, not, ◌&&◌, ◌||◌, List, [], ◌∷◌, Option, none, some,
  if◌then◌else◌, leb, ltb, ◌==◌,
}
use qoder2api.Prelude.Int.{ℤ, pos_part, neg_part, ltb_ℤ}
use qoder2api.Auth.Account.{Account}
use qoder2api.Auth.Score.{tier_priority}
use qoder2api.Auth.Recompute.{recompute_scheduler}
use qoder2api.Auth.Availability.{is_available, try_acquire_account}
use qoder2api.Auth.FastScheduler.{Heap, write, allows_api_key, score_eq}
use qoder2api.Auth.FastScheduler.Scan.{Request}
use qoder2api.Auth.Store.{Store}
use qoder2api.Auth.Store.Cached.{Codec, account_has_cached_cooldown}

unfoldable pub account_allowed_for_api_key : Account → ℕ → Store → Bool
unfolding allows_api_key
account_allowed_for_api_key a api_key_id s =
    allows_api_key api_key_id a && s.group_check api_key_id a

-- What the loop keeps of the best account.
pub record Best : Type 0 where
  pub id : ℕ
  pub priority : ℕ
  pub score : ℤ
  pub load : ℕ
  pub limit : ℕ

-- The tests of an account that come before its snapshot.
unfoldable pub is_admitted : ℕ → Request → ℕ → Account → Store → Bool
unfolding account_allowed_for_api_key is_available
is_admitted now r id a s =
    not (r.exclude id)
    && (is_available now a && (account_allowed_for_api_key a r.api_key_id s && r.filter a))

-- The account after its `schedulerSnapshot`, as a candidate; none if it has no free slot.
unfoldable pub candidate : ℕ → Account → Option Best
unfolding tier_priority
candidate id a =
    if a.dynamic_concurrency_limit == 0 || leb a.dynamic_concurrency_limit a.active_requests
    then none
    else some (record {
      id = id;
      priority = tier_priority a.health_tier;
      score = a.dispatch_score;
      load = a.active_requests;
      limit = a.dynamic_concurrency_limit;
    })

-- The new candidate is strictly better.
unfoldable pub above : Best → Best → Bool
unfolding score_eq
above b best =
    ltb best.priority b.priority
    || (b.priority == best.priority
        && (ltb_ℤ best.score b.score || (score_eq b.score best.score && ltb b.load best.load)))

-- `coin` is fastRandN(2) == 0. The first candidate is better than the priority of -1.
unfoldable pub pick : Bool → Best → Option Best → Option Best
unfolding above score_eq
pick coin b none = some b
pick coin b (some best) =
    if above b best
      || (b.priority == best.priority
          && (score_eq b.score best.score && (b.load == best.load && coin)))
    then some b
    else some best

abbrev pub keep_best : Bool → Option Best → Option Best → Option Best
keep_best coin none best = best
keep_best coin (some b) best = pick coin b best

-- The loop over the accounts. The snapshot recomputes each account that it is taken of.
unfoldable pub scan :
    ℕ → Request → (ℕ → Bool) → Store → List ℕ → Heap → Option Best → Option Best × Heap
unfolding is_admitted candidate pick
scan now r coin s [] h best = (best, h)
scan now r coin s (id ∷ ids) h best =
    let a = recompute_scheduler s.max_concurrency now (h id) in
    let seen = scan now r coin s ids (write h id a) (keep_best (coin id) (candidate id a) best) in
    let rest = scan now r coin s ids h best in if is_admitted now r id (h id) s then seen else rest

-- One attempt has found `best`. `none` is `continue`.
unfoldable pub try_best : Codec → ℕ → Best → Store → Option ℕ × Store
unfolding account_has_cached_cooldown try_acquire_account
try_best c now best s =
    let (cools, s') = account_has_cached_cooldown c best.id now s in
    let (a, taken) = try_acquire_account best.limit now (s'.accounts_by_id best.id) in
    if cools
    then (none, s')
    else if taken
    then (some best.id, record s' { accounts_by_id = write s'.accounts_by_id best.id a })
    else (none, s')

-- The attempts that are left; the coins of an attempt are those of the number that is left.
unfoldable pub attempts : Codec → ℕ → Request → (ℕ → ℕ → Bool) → ℕ → Store → Option ℕ × Store
unfolding scan try_best
attempts c now r coins zero s = (none, s)
attempts c now r coins (suc n) s =
    let (found, h) = scan now r (coins n) s s.accounts s.accounts_by_id none in
    let s1 = record s { accounts_by_id = h } in
    elim found [
      | none ↦ (none, s1)
      | some best ↦
          let (got, s2) = try_best c now best s1 in
          let later = attempts c now r coins n s2 in
          elim got [ none ↦ later | some id ↦ (some id, s2) ]
    ]

unfoldable pub next_excluding_with_filter :
    Codec → ℕ → Request → (ℕ → ℕ → Bool) → Store → Option ℕ × Store
unfolding attempts
next_excluding_with_filter c now r coins s = attempts c now r coins 16 s
