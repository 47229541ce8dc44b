-- ===== src/Auth/Store/Affinity/Counts.antt =====
-- The count of requests that a session binding has served.
use qoder2api.Prelude.{
  ℕ, ◌+◌, ◌≤◌, ◌≡◌, refl, arith, Bool, false, not, ◌||◌, List, Option, none, some, ltb, ==_iff, inl,
  inr, Bool-cases, Option-cases, ◌⊎◌, subst, sym, find, store, delete, AllValues, find-AllValues,
  store-AllValues, delete-AllValues,
}
use qoder2api.Prelude.Text.{Text, is, text_key, trim_space}
use qoder2api.Auth.FastScheduler.Scan.{Request}
use qoder2api.Auth.Store.{Store, SessionAffinity, bounded}
use qoder2api.Auth.Store.Cached.{Codec}
use qoder2api.Auth.Store.Selection.{next_excluding_with_filter}
use qoder2api.Auth.Store.Affinity.Kept.{
  Kept, attempts-Kept, take_by_id_excluding-Kept, get_cached_session_affinity-Kept,
}
use qoder2api.Auth.Store.Taking.{take_by_id_excluding}
use qoder2api.Auth.Store.Affinity.{
  Step, bind_session_affinity, unbind_session_affinity, next_for_session_with_filter, new_binding,
  drop_binding, count_request, escapes, by_binding, by_cache, by_selection,
  get_cached_session_affinity, default_max_affinity_requests, unless_taken, is_unhealthy, is_off,
}

-- No binding has served more requests than the limit.
abbrev pub AreBounded : Store → Type 0
AreBounded s =
    AllValues (λ (b : SessionAffinity). b.request_count ≤ default_max_affinity_requests)
      s.session_bindings

Kept-AreBounded : (s s' : Store) → Kept s s' → AreBounded s → AreBounded s'
Kept-AreBounded s s' k p =
    subst
      (λ m. AllValues (λ (b : SessionAffinity). b.request_count ≤ default_max_affinity_requests) m)
      (sym k.bindings) p

abbrev Fits : SessionAffinity → Type 0
Fits b = b.request_count ≤ default_max_affinity_requests

new_binding-Fits :
    (account_id : ℕ) (proxy_url : Text) (now : ℕ) (existing : Option SessionAffinity) (s : Store)
    → ((b : SessionAffinity) → existing ≡ some b → Fits b)
    → Fits (new_binding account_id proxy_url now existing s)
unfolding new_binding
new_binding-Fits account_id proxy_url now none s p = omega arith
new_binding-Fits account_id proxy_url now (some b) s p = ground (arith, p b refl)

bind-cases :
    (key : Text) (account_id : ℕ) (proxy_url : Text) (now : ℕ) (s : Store)
    → let k = trim_space key in
      let m = (bind_session_affinity key account_id proxy_url now s).session_bindings in
      (m ≡ s.session_bindings)
      ⊎ (m
          ≡ store k
              (new_binding account_id proxy_url now (find k s.session_bindings) s)
              s.session_bindings)
unfolding bind_session_affinity
bind-cases key account_id proxy_url now s = ground arith

abbrev AllFit : List (Text × SessionAffinity) → Type 0
AllFit m = AllValues Fits m

-- Binding a session keeps the counts of all bindings at the limit or below.
pub bind_session_affinity-AreBounded :
    (key : Text) (account_id : ℕ) (proxy_url : Text) (now : ℕ) (s : Store)
    → AreBounded s
    → AreBounded (bind_session_affinity key account_id proxy_url now s)
bind_session_affinity-AreBounded key account_id proxy_url now s p =
    let k = trim_space key in
    elim (bind-cases key account_id proxy_url now s) [
      | inl same ↦ subst AllFit (sym same) p
      | inr new ↦ subst AllFit (sym new) (
          store-AllValues Fits k _ s.session_bindings
            (new_binding-Fits account_id proxy_url now (find k s.session_bindings) s
              (λ b e. find-AllValues Fits k b s.session_bindings p e))
            p)
    ]

unbind-cases :
    (key : Text) (account_id : ℕ) (s : Store)
    → let m = (unbind_session_affinity key account_id s).session_bindings in
      (m ≡ s.session_bindings) ⊎ (m ≡ delete (trim_space key) s.session_bindings)
unfolding unbind_session_affinity drop_binding
unbind-cases key account_id s = ground arith

pub unbind_session_affinity-AreBounded :
    (key : Text) (account_id : ℕ) (s : Store)
    → AreBounded s
    → AreBounded (unbind_session_affinity key account_id s)
unbind_session_affinity-AreBounded key account_id s p = elim (unbind-cases key account_id s) [
  | inl same ↦ subst AllFit (sym same) p
  | inr gone ↦ subst AllFit (sym gone) (delete-AllValues Fits (trim_space key) s.session_bindings p)
]

-- A binding that is not left in bounded mode has served fewer requests than the limit.
escapes-below :
    (now : ℕ) (b : SessionAffinity) (s : Store)
    → s.affinity_mode ≡ bounded
    → escapes now b s ≡ false
    → b.request_count + 1 ≤ default_max_affinity_requests
unfolding escapes
escapes-below now b s m e = ground (arith, m, e)

-- The bindings that by_binding leaves.
abbrev AfterBinding : Text → ℕ → Store → List (Text × SessionAffinity) → Type 0
AfterBinding k now s m =
    (m ≡ s.session_bindings)
    ⊎ ((m ≡ delete k s.session_bindings)
        ⊎ ((b : SessionAffinity) × (find k s.session_bindings ≡ some b)
            × (escapes now b s ≡ false)
            × (m ≡ store k (record b { request_count = b.request_count + 1 }) s.session_bindings)))

by_binding-cases :
    (c : Codec) (k : Text) (now : ℕ) (r : Request) (s : Store)
    → AfterBinding k now s (by_binding c k now r s).1.session_bindings
unfolding by_binding count_request drop_binding
by_binding-cases c k now r s = elim (Option-cases (find k s.session_bindings)) [
  | inl miss ↦ inl (ground (arith, miss))
  | inr (b, hit) ↦
      let kept = take_by_id_excluding-Kept c b.account_id now r s in
      elim (Bool-cases (not (ltb now b.expires_at) || escapes now b s)) [
        | inl over ↦ ground (arith, hit, over)
        | inr on ↦ elim (Option-cases (take_by_id_excluding c b.account_id now r s).0) [
          | inl miss ↦ inl (ground (arith, hit, on, miss, kept.bindings))
          | inr (id, got) ↦ inr (
              inr (
                b,
                hit,
                ground (arith, on),
                ground (arith, hit, on, got, kept.bindings, ==_iff b.account_id b.account_id),
              ))
        ]
      ]
]

by_binding-mode :
    (c : Codec) (k : Text) (now : ℕ) (r : Request) (s : Store)
    → (by_binding c k now r s).1.affinity_mode ≡ s.affinity_mode
unfolding by_binding count_request drop_binding
by_binding-mode c k now r s = elim (Option-cases (find k s.session_bindings)) [
  | inl miss ↦ ground (arith, miss)
  | inr (b, hit) ↦
      let kept = take_by_id_excluding-Kept c b.account_id now r s in ground (arith, hit, kept.mode)
]

by_binding-AreBounded :
    (c : Codec) (k : Text) (now : ℕ) (r : Request) (s : Store)
    → s.affinity_mode ≡ bounded
    → AreBounded s
    → AreBounded (by_binding c k now r s).1
by_binding-AreBounded c k now r s m p = elim (by_binding-cases c k now r s) [
  | inl same ↦ subst AllFit (sym same) p
  | inr (inl gone) ↦ subst AllFit (sym gone) (delete-AllValues Fits k s.session_bindings p)
  | inr (inr (b, hit, stays, new)) ↦
      subst AllFit (sym new)
        (store-AllValues Fits k _ s.session_bindings (escapes-below now b s m stays) p)
]

get_cached_session_affinity-zero :
    (k : Text) (now : ℕ) (b : SessionAffinity) (s : Store)
    → (get_cached_session_affinity k now s).0 ≡ some b
    → b.request_count ≡ 0
unfolding get_cached_session_affinity
get_cached_session_affinity-zero k now b s h = ground arith

by_cache-cases :
    (c : Codec) (k : Text) (now : ℕ) (r : Request) (s : Store)
    → let m = (by_cache c k now r s).1.session_bindings in
      (m ≡ s.session_bindings)
      ⊎ ((b : SessionAffinity) × (b.request_count ≡ 0) × (m ≡ store k b s.session_bindings))
unfolding by_cache
by_cache-cases c k now r s =
    let s1 = (get_cached_session_affinity k now s).1 in
    let kept = get_cached_session_affinity-Kept k now s in
    elim (Option-cases (get_cached_session_affinity k now s).0) [
      | inl miss ↦ inl (ground (arith, miss, kept.bindings))
      | inr (b, hit) ↦
          let taken = take_by_id_excluding-Kept c b.account_id now r s1 in
          elim (Bool-cases (is_unhealthy b.account_id s1)) [
            | inl ill ↦ inl (ground (arith, hit, ill, kept.bindings))
            | inr well ↦ elim (Option-cases (take_by_id_excluding c b.account_id now r s1).0) [
              | inl miss ↦ inl (ground (arith, hit, well, miss, kept.bindings, taken.bindings))
              | inr (id, got) ↦ inr (
                b,
                get_cached_session_affinity-zero k now b s hit,
                ground (arith, hit, well, got, kept.bindings, taken.bindings),
              )
            ]
          ]
    ]

by_cache-AreBounded :
    (c : Codec) (k : Text) (now : ℕ) (r : Request) (s : Store)
    → AreBounded s
    → AreBounded (by_cache c k now r s).1
by_cache-AreBounded c k now r s p = elim (by_cache-cases c k now r s) [
  | inl same ↦ subst AllFit (sym same) p
  | inr (b, zero_count, new) ↦
      subst AllFit (sym new)
        (store-AllValues Fits k b s.session_bindings (ground (arith, zero_count)) p)
]

by_selection-AreBounded :
    (c : Codec) (now : ℕ) (r : Request) (coins : ℕ → ℕ → Bool) (s : Store)
    → AreBounded s
    → AreBounded (by_selection c now r coins s).1
unfolding by_selection next_excluding_with_filter
by_selection-AreBounded c now r coins s p = Kept-AreBounded s _ (attempts-Kept c now r coins 16 s) p

unless_taken-AreBounded :
    (x : Step) (rest : Store → Step)
    → AreBounded x.1
    → AreBounded (rest x.1).1
    → AreBounded (unless_taken x rest).1
unless_taken-AreBounded (none, s) rest p q = q
unless_taken-AreBounded (some y, s) rest p q = p

-- In bounded mode, picking an account for a session keeps the count of every binding at the limit of 50
-- or below.
pub next_for_session_with_filter-AreBounded :
    (c : Codec) (key : Text) (now : ℕ) (r : Request) (coins : ℕ → ℕ → Bool) (s : Store)
    → s.affinity_mode ≡ bounded
    → AreBounded s
    → AreBounded (next_for_session_with_filter c key now r coins s).1
unfolding next_for_session_with_filter
next_for_session_with_filter-AreBounded c key now r coins s m p =
    let k = trim_space key in
    let s1 = (by_binding c k now r s).1 in
    let p1 = by_binding-AreBounded c k now r s m p in
    let p2 = by_cache-AreBounded c k now r s1 p1 in
    elim (Bool-cases (is "" k || is_off s.affinity_mode)) [
      | inl plain ↦ rw plain (by_selection-AreBounded c now r coins s p)
      | inr bound ↦ rw bound (
          unless_taken-AreBounded (by_binding c k now r s) _ p1 (
            unless_taken-AreBounded (by_cache c k now r s1) _ p2
              (by_selection-AreBounded c now r coins (by_cache c k now r s1).1 p2)))
    ]
