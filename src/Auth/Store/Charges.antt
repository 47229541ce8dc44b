-- ===== src/Auth/Store/Charges.antt =====
-- The slots that picking an account takes.
use qoder2api.Prelude.{
  ℕ, zero, suc, ◌+◌, ◌≡◌, refl, ap, arith, Bool, ◌||◌, List, [], ◌∷◌, Option, none, some,
  if◌then◌else◌, ◌==◌, ==_iff, inl, inr, find, Bool-cases, Option-cases,
}
use qoder2api.Prelude.Text.{Text, is, text_key, trim_space}
use qoder2api.Auth.Account.{Account}
use qoder2api.Auth.Recompute.{recompute_scheduler}
use qoder2api.Auth.Availability.{fast_scheduler_snapshot}
use qoder2api.Auth.Availability.Snapshots.{
  fast_scheduler_snapshot-active, try_acquire_account-counts,
}
use qoder2api.Auth.FastScheduler.{Heap, write}
use qoder2api.Auth.FastScheduler.Scan.{Request}
use qoder2api.Auth.Store.{Store}
use qoder2api.Auth.Store.Cached.{
  Codec, RuntimeCooldownRecord, account_has_cached_cooldown, get_cached_account_cooldown,
  read_record, delete_cached_account_cooldown, apply_cached_account_cooldown, cooled,
}
use qoder2api.Auth.Store.Selection.{
  Best, scan, candidate, keep_best, try_best, attempts, next_excluding_with_filter,
}
use qoder2api.Auth.Store.Taking.{take_by_id_excluding, take_allowed, take_slot}
use qoder2api.Auth.Store.Affinity.{
  Step, next_for_session_with_filter, drop_binding, count_request, by_binding, by_cache,
  by_selection, get_cached_session_affinity, unless_taken, is_off,
}

abbrev pub active : Store → ℕ → ℕ
active s j = (s.accounts_by_id j).active_requests

-- One slot of the account that was picked.
abbrev pub charge : Option ℕ → ℕ → ℕ
charge none j = 0
charge (some id) j = if id == j then 1 else 0

recompute-active :
    (b now : ℕ) (a : Account) → (recompute_scheduler b now a).active_requests ≡ a.active_requests
unfolding recompute_scheduler
recompute-active b now a = refl

scan-active :
    (now : ℕ) (r : Request) (coin : ℕ → Bool) (s : Store) (ids : List ℕ) (h : Heap)
    (best : Option Best) (j : ℕ)
    → ((scan now r coin s ids h best).1 j).active_requests ≡ (h j).active_requests
unfolding scan
scan-active now r coin s [] h best j = refl
scan-active now r coin s (id ∷ ids) h best j =
    let a = recompute_scheduler s.max_concurrency now (h id) in
    let kept = keep_best (coin id) (candidate id a) best in
    ground (
      arith,
      scan-active now r coin s ids (write h id a) kept j,
      scan-active now r coin s ids h best j,
      recompute-active s.max_concurrency now (h id),
      ==_iff j id,
    )

get_cached-heap :
    (c : Codec) (id now : ℕ) (s : Store)
    → (get_cached_account_cooldown c id now s).1.accounts_by_id ≡ s.accounts_by_id
unfolding get_cached_account_cooldown read_record delete_cached_account_cooldown
get_cached-heap c id now s = ground arith

cooled-active :
    (r : RuntimeCooldownRecord) (now : ℕ) (a : Account)
    → (cooled r now a).active_requests ≡ a.active_requests
unfolding cooled
cooled-active r now a = ground arith

apply-active :
    (id now j : ℕ) (r : RuntimeCooldownRecord) (s : Store)
    → active (apply_cached_account_cooldown id r now s) j ≡ active s j
unfolding apply_cached_account_cooldown
apply-active id now j r s = ground (
  arith,
  cooled-active r now (s.accounts_by_id id),
  recompute-active s.max_concurrency now (cooled r now (s.accounts_by_id id)),
  ==_iff j id,
)

cached-active :
    (c : Codec) (id now j : ℕ) (s : Store)
    → active (account_has_cached_cooldown c id now s).1 j ≡ active s j
unfolding account_has_cached_cooldown
cached-active c id now j s =
    let s1 = (get_cached_account_cooldown c id now s).1 in
    let same = ap (λ (h : Heap). (h j).active_requests) (get_cached-heap c id now s) in
    elim (Option-cases (get_cached_account_cooldown c id now s).0) [
      | inl miss ↦ ground (arith, miss, same)
      | inr (r, hit) ↦ ground (arith, hit, same, apply-active id now j r s1)
    ]

try_best-charges :
    (c : Codec) (now j : ℕ) (best : Best) (s : Store)
    → let (got, s') = try_best c now best s in active s' j ≡ active s j + charge got j
unfolding try_best
try_best-charges c now j best s =
    let s1 = (account_has_cached_cooldown c best.id now s).1 in
    ground (
      arith,
      cached-active c best.id now j s,
      try_acquire_account-counts best.limit now (s1.accounts_by_id best.id),
      ==_iff j best.id,
      ==_iff best.id j,
    )

attempts-charges :
    (c : Codec) (now : ℕ) (r : Request) (coins : ℕ → ℕ → Bool) (n j : ℕ) (s : Store)
    → let (got, s') = attempts c now r coins n s in active s' j ≡ active s j + charge got j
unfolding attempts
attempts-charges c now r coins zero j s = omega arith
attempts-charges c now r coins (suc n) j s =
    let seen = scan now r (coins n) s s.accounts s.accounts_by_id none in
    let s1 = record s { accounts_by_id = seen.1 } in
    let same = scan-active now r (coins n) s s.accounts s.accounts_by_id none j in
    elim (Option-cases seen.0) [
      | inl miss ↦ ground (arith, miss, same)
      | inr (best, hit) ↦
          let s2 = (try_best c now best s1).1 in
          let tried = try_best-charges c now j best s1 in
          elim (Option-cases (try_best c now best s1).0) [
            | inl again ↦
                ground (arith, hit, again, same, tried, attempts-charges c now r coins n j s2)
            | inr (id, got) ↦ ground (arith, hit, got, same, tried)
          ]
    ]

take_slot-charges :
    (id now j : ℕ) (s : Store)
    → let (got, s') = take_slot id now s in active s' j ≡ active s j + charge got j
unfolding take_slot
take_slot-charges id now j s =
    let (a, snap) = fast_scheduler_snapshot s.max_concurrency now (s.accounts_by_id id) in
    ground (
      arith,
      fast_scheduler_snapshot-active s.max_concurrency now (s.accounts_by_id id),
      try_acquire_account-counts snap.limit now a,
      ==_iff j id,
      ==_iff id j,
    )

take_by_id_excluding-charges :
    (c : Codec) (id now j : ℕ) (r : Request) (s : Store)
    → let (got, s') = take_by_id_excluding c id now r s in active s' j ≡ active s j + charge got j
unfolding take_by_id_excluding take_allowed
take_by_id_excluding-charges c id now j r s =
    let s1 = (account_has_cached_cooldown c id now s).1 in
    ground (arith, cached-active c id now j s, take_slot-charges id now j s1)

-- The account of a step, without the proxy.
abbrev pub account_of : Option (ℕ × Text) → Option ℕ
account_of none = none
account_of (some (id, url)) = some id

drop_binding-active :
    (k : Text) (id j : ℕ) (s : Store) → active (drop_binding k id s) j ≡ active s j
unfolding drop_binding
drop_binding-active k id j s = ground arith

count_request-active :
    (k : Text) (id j : ℕ) (s : Store) → active (count_request k id s) j ≡ active s j
unfolding count_request
count_request-active k id j s = ground arith

by_binding-charges :
    (c : Codec) (k : Text) (now j : ℕ) (r : Request) (s : Store)
    → let (got, s') = by_binding c k now r s in active s' j ≡ active s j + charge (account_of got) j
unfolding by_binding
by_binding-charges c k now j r s = elim (Option-cases (find k s.session_bindings)) [
  | inl miss ↦ ground (arith, miss)
  | inr (b, hit) ↦
      let taken = take_by_id_excluding-charges c b.account_id now j r s in
      let s1 = (take_by_id_excluding c b.account_id now r s).1 in
      ground (
        arith,
        hit,
        taken,
        drop_binding-active k b.account_id j s,
        count_request-active k b.account_id j s1,
      )
]

get_session-active :
    (k : Text) (now j : ℕ) (s : Store)
    → active (get_cached_session_affinity k now s).1 j ≡ active s j
unfolding get_cached_session_affinity
get_session-active k now j s = ground arith

by_cache-charges :
    (c : Codec) (k : Text) (now j : ℕ) (r : Request) (s : Store)
    → let (got, s') = by_cache c k now r s in active s' j ≡ active s j + charge (account_of got) j
unfolding by_cache
by_cache-charges c k now j r s =
    let s1 = (get_cached_session_affinity k now s).1 in
    let same = get_session-active k now j s in
    elim (Option-cases (get_cached_session_affinity k now s).0) [
      | inl miss ↦ ground (arith, miss, same)
      | inr (b, hit) ↦
          ground (arith, hit, same, take_by_id_excluding-charges c b.account_id now j r s1)
    ]

next_excluding_with_filter-charges :
    (c : Codec) (now j : ℕ) (r : Request) (coins : ℕ → ℕ → Bool) (s : Store)
    → let (got, s') = next_excluding_with_filter c now r coins s in
      active s' j ≡ active s j + charge got j
unfolding next_excluding_with_filter
next_excluding_with_filter-charges c now j r coins s = attempts-charges c now r coins 16 j s

by_selection-charges :
    (c : Codec) (now j : ℕ) (r : Request) (coins : ℕ → ℕ → Bool) (s : Store)
    → let (got, s') = by_selection c now r coins s in
      active s' j ≡ active s j + charge (account_of got) j
unfolding by_selection
by_selection-charges c now j r coins s =
    let picked = next_excluding_with_filter-charges c now j r coins s in
    elim (Option-cases (next_excluding_with_filter c now r coins s).0) [
      | inl miss ↦ ground (arith, miss, picked)
      | inr (id, hit) ↦ ground (arith, hit, picked)
    ]

unless_taken-charges :
    (j before : ℕ) (x : Step) (rest : Store → Step)
    → active x.1 j ≡ before + charge (account_of x.0) j
    → active (rest x.1).1 j ≡ active x.1 j + charge (account_of (rest x.1).0) j
    → let (got, s') = unless_taken x rest in active s' j ≡ before + charge (account_of got) j
unless_taken-charges j before (none, s) rest p q = omega (arith, p, q)
unless_taken-charges j before (some y, s) rest p q = p

-- Picking an account for a session takes exactly one slot of the account that is returned and none of
-- any other, whether it comes from the binding, from the cache or from the selection, and no slot at
-- all if no account is returned: an account that was tried and given up keeps none.
pub next_for_session_with_filter-charges :
    (c : Codec) (key : Text) (now j : ℕ) (r : Request) (coins : ℕ → ℕ → Bool) (s : Store)
    → let (got, s') = next_for_session_with_filter c key now r coins s in
      active s' j ≡ active s j + charge (account_of got) j
unfolding next_for_session_with_filter
next_for_session_with_filter-charges c key now j r coins s =
    let k = trim_space key in
    let s1 = (by_binding c k now r s).1 in
    let s2 = (by_cache c k now r s1).1 in
    elim (Bool-cases (is "" k || is_off s.affinity_mode)) [
      | inl plain ↦ rw plain (by_selection-charges c now j r coins s)
      | inr bound ↦ rw bound (
          unless_taken-charges j (active s j) (by_binding c k now r s) _
            (by_binding-charges c k now j r s)
            (unless_taken-charges j (active s1 j) (by_cache c k now r s1) _
              (by_cache-charges c k now j r s1) (by_selection-charges c now j r coins s2)))
    ]
