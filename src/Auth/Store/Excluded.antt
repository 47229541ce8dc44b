-- ===== src/Auth/Store/Excluded.antt =====
-- No account that a request leaves out is picked for it.
use qoder2api.Prelude.{
  ℕ, zero, suc, ◌≡◌, arith, Bool, true, false, ◌||◌, List, [], ◌∷◌, Option, none, some, find,
  Option-cases, Bool-cases, inl, inr, subst,
}
use qoder2api.Prelude.Text.{Text, is, text_key, trim_space}
use qoder2api.Auth.Account.{Account}
use qoder2api.Auth.Recompute.{recompute_scheduler}
use qoder2api.Auth.FastScheduler.{Heap, write}
use qoder2api.Auth.FastScheduler.Scan.{Request}
use qoder2api.Auth.Store.{Store}
use qoder2api.Auth.Store.Cached.{Codec}
use qoder2api.Auth.Store.Selection.{
  Best, is_admitted, candidate, pick, keep_best, scan, try_best, attempts,
  next_excluding_with_filter,
}
use qoder2api.Auth.Store.Taking.{take_by_id_excluding, take_allowed, take_slot}
use qoder2api.Auth.Store.Affinity.{
  Step, next_for_session_with_filter, by_binding, by_cache, by_selection,
  get_cached_session_affinity, unless_taken, is_off,
}

-- The account is not left out, if there is one.
abbrev pub IsOutsideStep : Request → Option (ℕ × Text) → Type 0
IsOutsideStep r none = Unit
IsOutsideStep r (some (id, url)) = r.exclude id ≡ false

take_by_id_excluding-outside :
    (c : Codec) (id now j : ℕ) (r : Request) (s : Store)
    → (take_by_id_excluding c id now r s).0 ≡ some j
    → r.exclude j ≡ false
unfolding take_by_id_excluding take_allowed take_slot
take_by_id_excluding-outside c id now j r s h = ground arith

-- The best candidate so far is none that is left out.
abbrev BestOutside : Request → Option Best → Type 0
BestOutside r none = Unit
BestOutside r (some b) = r.exclude b.id ≡ false

keep_best-outside :
    (r : Request) (coin : Bool) (id : ℕ) (a : Account) (best : Option Best)
    → r.exclude id ≡ false
    → BestOutside r best
    → BestOutside r (keep_best coin (candidate id a) best)
unfolding candidate pick
keep_best-outside r coin id a none out h = ground arith
keep_best-outside r coin id a (some b) out h = ground arith

is_admitted-outside :
    (now id : ℕ) (a : Account) (r : Request) (s : Store)
    → is_admitted now r id a s ≡ true
    → r.exclude id ≡ false
unfolding is_admitted
is_admitted-outside now id a r s on = ground arith

scan-outside :
    (now : ℕ) (r : Request) (coin : ℕ → Bool) (s : Store) (ids : List ℕ) (h : Heap)
    (best : Option Best)
    → BestOutside r best
    → BestOutside r (scan now r coin s ids h best).0
unfolding scan
scan-outside now r coin s [] h best out = out
scan-outside now r coin s (id ∷ ids) h best out =
    elim (Bool-cases (is_admitted now r id (h id) s)) [
      | inl on ↦
          let a = recompute_scheduler s.max_concurrency now (h id) in
          rw on (
            scan-outside now r coin s ids (write h id a) (keep_best (coin id) (candidate id a) best)
              (keep_best-outside r (coin id) id a best (is_admitted-outside now id (h id) r s on)
                out))
      | inr off ↦ rw off (scan-outside now r coin s ids h best out)
    ]

try_best-id :
    (c : Codec) (now j : ℕ) (best : Best) (s : Store)
    → (try_best c now best s).0 ≡ some j
    → best.id ≡ j
unfolding try_best
try_best-id c now j best s h = ground arith

attempts-outside :
    (c : Codec) (now j : ℕ) (r : Request) (coins : ℕ → ℕ → Bool) (n : ℕ) (s : Store)
    → (attempts c now r coins n s).0 ≡ some j
    → r.exclude j ≡ false
unfolding attempts
attempts-outside c now j r coins zero s h = absurd (ground arith)
attempts-outside c now j r coins (suc n) s h =
    let found = scan now r (coins n) s s.accounts s.accounts_by_id none in
    let out = scan-outside now r (coins n) s s.accounts s.accounts_by_id none tt in
    let s1 = record s { accounts_by_id = found.1 } in
    elim (Option-cases found.0) [
      | inl miss ↦ absurd (ground (arith, miss, h))
      | inr (best, hit) ↦ elim (Option-cases (try_best c now best s1).0) [
        | inr (id, got) ↦
            let same = try_best-id c now id best s1 got in
            let out' : r.exclude best.id ≡ false = subst (BestOutside r) hit out in
            ground (arith, hit, got, same, out', h)
        | inl again ↦
            attempts-outside c now j r coins n (try_best c now best s1).1
              (ground (arith, hit, again, h))
      ]
    ]

by_binding-outside :
    (c : Codec) (k : Text) (now : ℕ) (r : Request) (s : Store)
    → IsOutsideStep r (by_binding c k now r s).0
unfolding by_binding
by_binding-outside c k now r s = elim (Option-cases (find k s.session_bindings)) [
  | inl miss ↦ ground (arith, miss)
  | inr (b, hit) ↦ elim (Option-cases (take_by_id_excluding c b.account_id now r s).0) [
    | inl shut ↦ ground (arith, hit, shut)
    | inr (id, got) ↦
        ground (arith, hit, got, take_by_id_excluding-outside c b.account_id now id r s got)
  ]
]

by_cache-outside :
    (c : Codec) (k : Text) (now : ℕ) (r : Request) (s : Store)
    → IsOutsideStep r (by_cache c k now r s).0
unfolding by_cache
by_cache-outside c k now r s =
    let s1 = (get_cached_session_affinity k now s).1 in
    elim (Option-cases (get_cached_session_affinity k now s).0) [
      | inl miss ↦ ground (arith, miss)
      | inr (b, hit) ↦ elim (Option-cases (take_by_id_excluding c b.account_id now r s1).0) [
        | inl shut ↦ ground (arith, hit, shut)
        | inr (id, got) ↦
            ground (arith, hit, got, take_by_id_excluding-outside c b.account_id now id r s1 got)
      ]
    ]

by_selection-outside :
    (c : Codec) (now : ℕ) (r : Request) (coins : ℕ → ℕ → Bool) (s : Store)
    → IsOutsideStep r (by_selection c now r coins s).0
unfolding by_selection next_excluding_with_filter
by_selection-outside c now r coins s = elim (Option-cases (attempts c now r coins 16 s).0) [
  | inl miss ↦ ground (arith, miss)
  | inr (id, got) ↦ ground (arith, got, attempts-outside c now id r coins 16 s got)
]

unless_taken-outside :
    (r : Request) (x : Step) (rest : Store → Step)
    → IsOutsideStep r x.0
    → ((s : Store) → IsOutsideStep r (rest s).0)
    → IsOutsideStep r (unless_taken x rest).0
unless_taken-outside r (none, s) rest p q = q s
unless_taken-outside r (some y, s) rest p q = p

pub next_for_session_with_filter-outside :
    (c : Codec) (key : Text) (now : ℕ) (r : Request) (coins : ℕ → ℕ → Bool) (s : Store)
    → IsOutsideStep r (next_for_session_with_filter c key now r coins s).0
unfolding next_for_session_with_filter
next_for_session_with_filter-outside c key now r coins s =
    let k = trim_space key in
    elim (Bool-cases (is "" k || is_off s.affinity_mode)) [
      | inl plain ↦ rw plain (by_selection-outside c now r coins s)
      | inr bound ↦ rw bound (
          unless_taken-outside r (by_binding c k now r s) _ (by_binding-outside c k now r s) (λ s1.
            unless_taken-outside r (by_cache c k now r s1) _ (by_cache-outside c k now r s1)
              (λ s2. by_selection-outside c now r coins s2)))
    ]
