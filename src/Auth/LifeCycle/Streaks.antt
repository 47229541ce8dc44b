-- ===== src/Auth/LifeCycle/Streaks.antt =====
-- The streaks and the window of results of an account over runs of events.
use qoder2api.Prelude.{
  ℕ, ◌+◌, ◌≤◌, ◌≡◌, refl, arith, Bool, true, false, List, [], ◌∷◌, ◌⊎◌, inl, inr, subst, sym,
  Bool-cases, if◌then◌else◌,
}
use qoder2api.Prelude.Text.{Text, is, text_eq}
use qoder2api.Auth.Account.{Account, banned, tier_eq}
use qoder2api.Auth.Usage.{usage_exhausted}
use qoder2api.Auth.Recompute.{recompute_scheduler}
use qoder2api.Auth.Availability.{set_cooldown_until}
use qoder2api.Auth.Results.{record_result, IsWindow, AreBits, record_result-IsWindow}
use qoder2api.Auth.LifeCycle.{
  record_latency, clamp_streak, marked_reason, with_error, failed_kind, cooldown_duration,
  mark_cooldown_account, mark_error_account, clear_cooldown_account,
  record_manual_test_success_account, report_request_success_account,
  report_request_failure_account, mark_model_account, revived_account, recovery_probe_account,
}
use qoder2api.Auth.ModelCooldowns.{normalize_model_cooldown_key}

-- What happens to an account: the calls that write its streaks or its window of results, and the
-- cooldown that is cleared. A model is marked, and a probe succeeds.
pub data AccountEvent : Type 0 where
  event_cooldown : ℕ → Text → Text → AccountEvent
  event_error : Text → AccountEvent
  event_cleared : AccountEvent
  event_tested : ℕ → AccountEvent
  event_success : ℕ → AccountEvent
  event_failure : Text → ℕ → AccountEvent
  event_model_cooldown : Text → AccountEvent
  event_probed : AccountEvent

unfoldable pub happen : ℕ → ℕ → AccountEvent → Account → Account
unfolding mark_cooldown_account mark_error_account clear_cooldown_account
    record_manual_test_success_account report_request_success_account report_request_failure_account
    mark_model_account recovery_probe_account normalize_model_cooldown_key text_eq
happen m now (event_cooldown duration reason msg) a =
    mark_cooldown_account m now duration reason msg a
happen m now (event_error msg) a = mark_error_account m now msg a
happen m now event_cleared a = clear_cooldown_account m now a
happen m now (event_tested latency) a = record_manual_test_success_account m now latency a
happen m now (event_success latency) a = report_request_success_account m now latency a
happen m now (event_failure kind latency) a = report_request_failure_account m now kind latency a
happen m now (event_model_cooldown model) a =
    if is "" (normalize_model_cooldown_key model) then a else mark_model_account m now a
happen m now event_probed a = recovery_probe_account m now a

unfoldable pub run_events : ℕ → List (ℕ × AccountEvent) → Account → Account
unfolding happen
run_events m [] a = a
run_events m ((now, e) ∷ es) a = run_events m es (happen m now e a)

-- The window of results is well formed, the streak of successes is at most 20, and one of the
-- streaks is 0.
pub record IsConsistent (a : Account) : Type 0 where
  pub window : IsWindow a
  pub streak_ok : a.success_streak ≤ 20
  pub one_streak : (a.success_streak ≡ 0) ⊎ (a.failure_streak ≡ 0)

same-IsWindow :
    (a b : Account)
    → b.recent_results ≡ a.recent_results
    → b.recent_results_idx ≡ a.recent_results_idx
    → b.recent_results_cnt ≡ a.recent_results_cnt
    → IsWindow a
    → IsWindow b
same-IsWindow a b list place count v = record {
  place_ok = ground (arith, list, place, v.place_ok);
  count_ok = ground (arith, list, count, v.count_ok);
  bits = subst AreBits (sym list) v.bits;
}

recompute_scheduler-IsConsistent :
    (m now : ℕ) (a : Account) → IsConsistent a → IsConsistent (recompute_scheduler m now a)
unfolding recompute_scheduler
recompute_scheduler-IsConsistent m now a v = record {
  window = same-IsWindow a (recompute_scheduler m now a) refl refl refl v.window;
  streak_ok = v.streak_ok;
  one_streak = v.one_streak;
}

marked_reason-IsConsistent :
    (now : ℕ) (reason : Text) (a : Account)
    → IsConsistent a
    → IsConsistent (marked_reason now reason a)
unfolding marked_reason
marked_reason-IsConsistent now reason a v = record {
  window =
      same-IsWindow a (marked_reason now reason a) (ground arith) (ground arith) (ground arith)
        v.window;
  streak_ok = ground (arith, v.streak_ok);
  one_streak = ground (arith, v.one_streak);
}

with_error-IsConsistent :
    (msg : Text) (a : Account) → IsConsistent a → IsConsistent (with_error msg a)
unfolding with_error
with_error-IsConsistent msg a v = record {
  window = same-IsWindow a (with_error msg a) (ground arith) (ground arith) (ground arith) v.window;
  streak_ok = ground (arith, v.streak_ok);
  one_streak = ground (arith, v.one_streak);
}

set_cooldown_until-IsConsistent :
    (until : ℕ) (reason : Text) (a : Account)
    → IsConsistent a
    → IsConsistent (set_cooldown_until until reason a)
unfolding set_cooldown_until
set_cooldown_until-IsConsistent until reason a v = record {
  window =
      same-IsWindow a (set_cooldown_until until reason a) (ground arith) (ground arith)
        (ground arith) v.window;
  streak_ok = ground (arith, v.streak_ok);
  one_streak = ground (arith, v.one_streak);
}

failed_kind-IsConsistent :
    (now : ℕ) (kind : Text) (a : Account) → IsConsistent a → IsConsistent (failed_kind now kind a)
unfolding failed_kind
failed_kind-IsConsistent now kind a v = record {
  window =
      same-IsWindow a (failed_kind now kind a) (ground arith) (ground arith) (ground arith)
        v.window;
  streak_ok = ground (arith, v.streak_ok);
  one_streak = ground (arith, v.one_streak);
}

-- The window after a latency and a result are recorded.
recorded-IsWindow :
    (success : Bool) (latency : ℕ) (a : Account)
    → IsWindow a
    → IsWindow (record_result success (record_latency latency a))
unfolding record_latency
recorded-IsWindow success latency a v =
    (record_result-IsWindow success (record_latency latency a)
      (same-IsWindow a (record_latency latency a) (ground arith) (ground arith) (ground arith) v)).0

revived_account-IsConsistent :
    (m now : ℕ) (a : Account) → IsConsistent a → IsConsistent (revived_account m now a)
unfolding revived_account
revived_account-IsConsistent m now a v = recompute_scheduler-IsConsistent m now _ (record {
  window = same-IsWindow a _ refl refl refl v.window;
  streak_ok = omega arith;
  one_streak = inr refl;
})

enabled-IsConsistent : (a : Account) → IsConsistent a → IsConsistent (record a { disabled = false })
enabled-IsConsistent a v = record {
  window = same-IsWindow a _ refl refl refl v.window;
  streak_ok = v.streak_ok;
  one_streak = v.one_streak;
}

recovery_probe_account-IsConsistent :
    (m now : ℕ) (a : Account) → IsConsistent a → IsConsistent (recovery_probe_account m now a)
unfolding recovery_probe_account
recovery_probe_account-IsConsistent m now a v = elim (Bool-cases (usage_exhausted a)) [
  | inl spent ↦ rw spent v
  | inr left ↦ elim (Bool-cases (tier_eq a.health_tier banned)) [
    | inl out ↦
        rw (left, out)
          (revived_account-IsConsistent m now (record a { disabled = false })
            (enabled-IsConsistent a v))
    | inr in_use ↦ rw (left, in_use) (enabled-IsConsistent a v)
  ]
]

mark_model_account-IsConsistent :
    (m now : ℕ) (a : Account) → IsConsistent a → IsConsistent (mark_model_account m now a)
unfolding mark_model_account clamp_streak
mark_model_account-IsConsistent m now a v = recompute_scheduler-IsConsistent m now _ (record {
  window = same-IsWindow a _ refl refl refl v.window;
  streak_ok = omega arith;
  one_streak = inl refl;
})

-- One event keeps the account consistent.
happen-IsConsistent :
    (m now : ℕ) (e : AccountEvent) (a : Account) → IsConsistent a → IsConsistent (happen m now e a)
unfolding happen mark_cooldown_account mark_error_account clear_cooldown_account
    record_manual_test_success_account report_request_success_account report_request_failure_account
    clamp_streak mark_model_account
happen-IsConsistent m now (event_cooldown duration reason msg) a v =
    set_cooldown_until-IsConsistent (now + cooldown_duration now duration reason a) reason
      (recompute_scheduler m now (with_error msg (marked_reason now reason a)))
      (recompute_scheduler-IsConsistent m now (with_error msg (marked_reason now reason a)) (
        with_error-IsConsistent msg (marked_reason now reason a)
          (marked_reason-IsConsistent now reason a v)))
happen-IsConsistent m now (event_error msg) a v = recompute_scheduler-IsConsistent m now _ (record {
  window = same-IsWindow a _ refl refl refl v.window;
  streak_ok = omega arith;
  one_streak = inl refl;
})
happen-IsConsistent m now event_cleared a v = recompute_scheduler-IsConsistent m now _ (record {
  window = same-IsWindow a _ refl refl refl v.window;
  streak_ok = v.streak_ok;
  one_streak = v.one_streak;
})
happen-IsConsistent m now (event_tested latency) a v =
    recompute_scheduler-IsConsistent m now _ (record {
      window = same-IsWindow _ _ refl refl refl (recorded-IsWindow true latency a v.window);
      streak_ok = omega arith;
      one_streak = inr refl;
    })
happen-IsConsistent m now (event_success latency) a v =
    recompute_scheduler-IsConsistent m now _ (record {
      window = same-IsWindow _ _ refl refl refl (recorded-IsWindow true latency a v.window);
      streak_ok = omega arith;
      one_streak = inr refl;
    })
happen-IsConsistent m now (event_failure kind latency) a v =
    recompute_scheduler-IsConsistent m now _ (
      failed_kind-IsConsistent now kind _ (record {
        window = same-IsWindow _ _ refl refl refl (recorded-IsWindow false latency a v.window);
        streak_ok = omega arith;
        one_streak = inl refl;
      }))
happen-IsConsistent m now (event_model_cooldown model) a v =
    elim (Bool-cases (is "" (normalize_model_cooldown_key model))) [
      | inl blank ↦ rw blank v
      | inr named ↦ rw named (mark_model_account-IsConsistent m now a v)
    ]
happen-IsConsistent m now event_probed a v = recovery_probe_account-IsConsistent m now a v

-- Through any run, at any times, of cooldowns of the account and of its models, errors, cleared
-- cooldowns, successful tests and recovery probes, and reported successes and failures, a well-formed window of results stays one, the
-- streak of successes stays at most 20, and one of the streaks, of successes and of failures, is 0.
pub run_events-IsConsistent :
    (m : ℕ) (es : List (ℕ × AccountEvent)) (a : Account)
    → IsConsistent a
    → IsConsistent (run_events m es a)
unfolding run_events
run_events-IsConsistent m [] a v = v
run_events-IsConsistent m ((now, e) ∷ es) a v =
    run_events-IsConsistent m es (happen m now e a) (happen-IsConsistent m now e a v)
