-- ===== src/Auth/Store/Affinity/Kept.antt =====
-- What the tries to take an account leave as it is.
use qoder2api.Prelude.{
  ℕ, zero, suc, ◌≡◌, refl, arith, Bool, none, inl, inr, Option-cases, ◌⊎◌, subst, sym, ◌∙◌,
}
use qoder2api.Prelude.Text.{Text, text_key}
use qoder2api.Auth.FastScheduler.Scan.{Request}
use qoder2api.Auth.Store.{Store}
use qoder2api.Auth.Store.Cached.{
  Codec, account_has_cached_cooldown, get_cached_account_cooldown, read_record,
  delete_cached_account_cooldown, apply_cached_account_cooldown,
}
use qoder2api.Auth.Store.Selection.{Best, try_best, attempts, scan}
use qoder2api.Auth.Store.Taking.{take_by_id_excluding, take_allowed, take_slot}
use qoder2api.Auth.Store.Affinity.{get_cached_session_affinity}

-- What session affinity reads of the store beside the accounts is as it was.
pub record Kept (s s' : Store) : Type 0 where
  pub bindings : s'.session_bindings ≡ s.session_bindings
  pub mode : s'.affinity_mode ≡ s.affinity_mode

pub Kept_refl : (s : Store) → Kept s s
Kept_refl s = record { bindings = refl; mode = refl }

pub Kept_trans : (s t u : Store) → Kept s t → Kept t u → Kept s u
Kept_trans s t u p q = record { bindings = q.bindings ∙ p.bindings; mode = q.mode ∙ p.mode }

delete_cached_account_cooldown-Kept :
    (c : Codec) (id : ℕ) (s : Store) → Kept s (delete_cached_account_cooldown c id s)
unfolding delete_cached_account_cooldown
delete_cached_account_cooldown-Kept c id s = record { bindings = ground arith; mode = ground arith }

get_cached_account_cooldown-Kept :
    (c : Codec) (id now : ℕ) (s : Store) → Kept s (get_cached_account_cooldown c id now s).1
unfolding get_cached_account_cooldown read_record delete_cached_account_cooldown
get_cached_account_cooldown-Kept c id now s = record {
  bindings = ground arith;
  mode = ground arith;
}

pub account_has_cached_cooldown-Kept :
    (c : Codec) (id now : ℕ) (s : Store) → Kept s (account_has_cached_cooldown c id now s).1
unfolding account_has_cached_cooldown apply_cached_account_cooldown
account_has_cached_cooldown-Kept c id now s =
    let k = get_cached_account_cooldown-Kept c id now s in
    record { bindings = ground (arith, k.bindings); mode = ground (arith, k.mode) }

pub take_by_id_excluding-Kept :
    (c : Codec) (id now : ℕ) (r : Request) (s : Store)
    → Kept s (take_by_id_excluding c id now r s).1
unfolding take_by_id_excluding take_allowed take_slot
take_by_id_excluding-Kept c id now r s =
    let k = account_has_cached_cooldown-Kept c id now s in
    record { bindings = ground (arith, k.bindings); mode = ground (arith, k.mode) }

try_best-Kept : (c : Codec) (now : ℕ) (best : Best) (s : Store) → Kept s (try_best c now best s).1
unfolding try_best
try_best-Kept c now best s =
    let k = account_has_cached_cooldown-Kept c best.id now s in
    record { bindings = ground (arith, k.bindings); mode = ground (arith, k.mode) }

-- The store after the look over the accounts.
abbrev looked : ℕ → Request → (ℕ → Bool) → Store → Store
looked now r coin s = record s {
  accounts_by_id = (scan now r coin s s.accounts s.accounts_by_id none).1;
}

attempts-cases :
    (c : Codec) (now : ℕ) (r : Request) (coins : ℕ → ℕ → Bool) (n : ℕ) (s : Store)
    → let end = (attempts c now r coins (suc n) s).1 in
      let s1 = looked now r (coins n) s in
      (end ≡ s1)
      ⊎ ((best : Best) × ((end ≡ (try_best c now best s1).1)
            ⊎ (end ≡ (attempts c now r coins n (try_best c now best s1).1).1)))
unfolding attempts
attempts-cases c now r coins n s =
    elim (Option-cases (scan now r (coins n) s s.accounts s.accounts_by_id none).0) [
      | inl miss ↦ inl (ground (arith, miss))
      | inr (best, hit) ↦ inr (best, ground (arith, hit))
    ]

pub attempts-Kept :
    (c : Codec) (now : ℕ) (r : Request) (coins : ℕ → ℕ → Bool) (n : ℕ) (s : Store)
    → Kept s (attempts c now r coins n s).1
unfolding attempts
attempts-Kept c now r coins zero s = Kept_refl s
attempts-Kept c now r coins (suc n) s =
    let s1 = looked now r (coins n) s in
    let now_kept : Kept s s1 = record { bindings = refl; mode = refl } in
    elim (attempts-cases c now r coins n s) [
      | inl e ↦ subst (Kept s) (sym e) now_kept
      | inr (best, e) ↦
          let tried = Kept_trans s s1 _ now_kept (try_best-Kept c now best s1) in
          elim e [
            | inl here ↦ subst (Kept s) (sym here) tried
            | inr later ↦
                subst (Kept s) (sym later)
                  (Kept_trans s _ _ tried (attempts-Kept c now r coins n _))
          ]
    ]

pub get_cached_session_affinity-Kept :
    (k : Text) (now : ℕ) (s : Store) → Kept s (get_cached_session_affinity k now s).1
unfolding get_cached_session_affinity
get_cached_session_affinity-Kept k now s = record { bindings = ground arith; mode = ground arith }
