-- ===== src/Auth/Store/Marks.antt =====
-- auth/store.go, lines 4300 to 4660: the outcomes of requests, on the store. The account is written
-- and the token cache follows; the database is nil here.
use qoder2api.Prelude.{
  ℕ, ◌+◌, ◌<◌, ◌≡◌, arith, false, ◌==◌, ==_refl, if◌then◌else◌, [], ◌∷◌, subst, sym,
}
use qoder2api.Prelude.Text.{Text}
use qoder2api.Auth.Account.{Account}
use qoder2api.Auth.Availability.{is_available}
use qoder2api.Auth.FastScheduler.{write}
use qoder2api.Auth.LifeCycle.{
  normalize_account_error_message, cooldown_duration, mark_cooldown_account, mark_error_account,
  clear_cooldown_account, record_manual_test_success_account, report_request_success_account,
  report_request_failure_account,
}
use qoder2api.Auth.LifeCycle.Recovery.{mark_cooldown_account-blocks}
use qoder2api.Auth.Store.{Store}
use qoder2api.Auth.Store.Cached.{Codec, set_cached_account_cooldown, delete_cached_account_cooldown}

unfoldable pub changed_account : (Account → Account) → ℕ → Store → Store
changed_account f id s = record s {
  accounts_by_id = write s.accounts_by_id id (f (s.accounts_by_id id));
}

unfoldable pub mark_cooldown : Codec → ℕ → ℕ → Text → Text → ℕ → Store → Store
unfolding changed_account normalize_account_error_message mark_cooldown_account cooldown_duration
    set_cached_account_cooldown
mark_cooldown c now duration reason msg id s =
    let until = now + cooldown_duration now duration reason (s.accounts_by_id id) in
    let msg' = normalize_account_error_message msg [] in
    set_cached_account_cooldown c id reason until now
      (changed_account (mark_cooldown_account s.max_concurrency now duration reason msg') id s)

-- The message for an error without one, in UTF-8.
abbrev pub test_failed : Text
test_failed =
    232 ∷ 180 ∷ 166 ∷ 229 ∷ 143 ∷ 183 ∷ 230 ∷ 181 ∷ 139 ∷ 232 ∷ 175 ∷ 149 ∷ 229 ∷ 164 ∷ 177 ∷ 232
    ∷ 180 ∷ 165 ∷ []

unfoldable pub mark_error : Codec → ℕ → Text → ℕ → Store → Store
unfolding changed_account normalize_account_error_message mark_error_account
    delete_cached_account_cooldown
mark_error c now msg id s =
    let msg' = normalize_account_error_message msg test_failed in
    delete_cached_account_cooldown c id
      (changed_account (mark_error_account s.max_concurrency now msg') id s)

unfoldable pub clear_cooldown : Codec → ℕ → ℕ → Store → Store
unfolding changed_account clear_cooldown_account delete_cached_account_cooldown
clear_cooldown c now id s =
    delete_cached_account_cooldown c id
      (changed_account (clear_cooldown_account s.max_concurrency now) id s)

unfoldable pub record_manual_test_success : Codec → ℕ → ℕ → ℕ → Store → Store
unfolding changed_account record_manual_test_success_account delete_cached_account_cooldown
record_manual_test_success c now latency id s =
    delete_cached_account_cooldown c id
      (changed_account (record_manual_test_success_account s.max_concurrency now latency) id s)

unfoldable pub report_request_success : ℕ → ℕ → ℕ → Store → Store
unfolding changed_account report_request_success_account
report_request_success now latency id s =
    changed_account (report_request_success_account s.max_concurrency now latency) id s

unfoldable pub report_request_failure : ℕ → Text → ℕ → ℕ → Store → Store
unfolding changed_account report_request_failure_account
report_request_failure now kind latency id s =
    changed_account (report_request_failure_account s.max_concurrency now kind latency) id s

set_cached_account_cooldown-accounts :
    (c : Codec) (id : ℕ) (reason : Text) (until now : ℕ) (s : Store)
    → (set_cached_account_cooldown c id reason until now s).accounts_by_id ≡ s.accounts_by_id
unfolding set_cached_account_cooldown
set_cached_account_cooldown-accounts c id reason until now s = ground arith

-- A marked account of the store is not available until its cooldown is over, and no other account
-- of the store changes.
pub mark_cooldown-blocks :
    (c : Codec) (now later duration : ℕ) (reason msg : Text) (id other : ℕ) (s : Store)
    → later < now + cooldown_duration now duration reason (s.accounts_by_id id)
    → (other == id) ≡ false
    → (is_available later ((mark_cooldown c now duration reason msg id s).accounts_by_id id)
        ≡ false)
      × ((mark_cooldown c now duration reason msg id s).accounts_by_id other
          ≡ s.accounts_by_id other)
unfolding mark_cooldown changed_account
mark_cooldown-blocks c now later duration reason msg id other s early differs =
    let until = now + cooldown_duration now duration reason (s.accounts_by_id id) in
    let f =
      mark_cooldown_account s.max_concurrency now duration reason
        (normalize_account_error_message msg []) in
    let same =
      set_cached_account_cooldown-accounts c id reason until now (changed_account f id s) in
    (
      subst (λ h. is_available later (h id) ≡ false) (sym same)
          (subst
            (λ b.
              is_available later (if b then f (s.accounts_by_id id) else s.accounts_by_id id)
              ≡ false)
            (sym (==_refl id))
            (mark_cooldown_account-blocks s.max_concurrency now later duration reason
              (normalize_account_error_message msg []) (s.accounts_by_id id) early)),
      subst (λ h. h other ≡ s.accounts_by_id other) (sym same) (ground (arith, differs)),
    )
