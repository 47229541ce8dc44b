-- ===== src/Examples/LifeCycle.antt =====
-- Accounts that fail, cool down and come back.
use qoder2api.Prelude.{
  ℕ, ◌+◌, ◌*◌, ◌^◌, ◌<◌, ◌≡◌, refl, arith, true, false, List, [], ◌∷◌, inl, min,
}
use qoder2api.Prelude.Text.{codes}
use qoder2api.Auth.Account.{
  Account, cooldown, banned, tier_eq, is_cooldown, has_dispatch_credential,
}
use qoder2api.Auth.Plan.{is_premium5h_plan}
use qoder2api.Auth.Usage.{premium5h_rate_limited, usage_exhausted, quota_auto_paused}
use qoder2api.Auth.Availability.{is_available}
use qoder2api.Auth.ModelCooldowns.{ModelCooldown}
use qoder2api.Auth.LifeCycle.{clear_cooldown_account, report_request_failure_account}
use qoder2api.Auth.LifeCycle.Streaks.{
  AccountEvent, event_cooldown, event_success, event_failure, event_cleared, event_model_cooldown,
  event_probed, run_events, IsConsistent, run_events-IsConsistent,
}
use qoder2api.Auth.LifeCycle.Recovery.{
  clear_cooldown_account-available, report_request_failure_account-unbans,
}
use qoder2api.Auth.LifeCycle.ModelMarks.{
  asked_duration, next_model_cooldown, longest, two_63, next_model_cooldown-doubles,
  next_model_cooldown-overflows,
}
use qoder2api.Examples.Data.{an_account}

abbrev windowed : Account
windowed = record (an_account 5) {
  recent_results = 1 ∷ 0 ∷ 1 ∷ [];
  recent_results_idx = 2;
  recent_results_cnt = 2;
}

windowed-IsConsistent : IsConsistent windowed
windowed-IsConsistent = record {
  window = record {
    place_ok = omega arith;
    count_ok = omega arith;
    bits = (omega arith, (omega arith, (omega arith, tt)));
  };
  streak_ok = omega arith;
  one_streak = inl refl;
}

abbrev some_events : List (ℕ × AccountEvent)
some_events =
    (10, event_success 3_000_000)
    ∷ (20, event_failure (codes "timeout") 9_000_000)
    ∷ (30, event_cooldown 1_000 (codes "rate_limited") [])
    ∷ (40, event_cleared)
    ∷ (50, event_model_cooldown (codes "m"))
    ∷ (60, event_probed)
    ∷ []

run_events-IsConsistent_example : IsConsistent (run_events 4 some_events windowed)
run_events-IsConsistent_example =
    run_events-IsConsistent 4 some_events windowed windowed-IsConsistent

abbrev rejected : Account
rejected = record (an_account 6) {
  status = cooldown;
  cooldown_util = 5_000;
  cooldown_reason = codes "unauthorized";
  health_tier = banned;
}

rejected_cooling : is_cooldown rejected.status ≡ true
unfolding is_cooldown
rejected_cooling = refl

rejected_usage : usage_exhausted rejected ≡ false
unfolding usage_exhausted
rejected_usage = refl

rejected_limit : premium5h_rate_limited 100 rejected ≡ false
unfolding premium5h_rate_limited is_premium5h_plan
rejected_limit = refl

rejected_pause : quota_auto_paused 100 rejected ≡ false
unfolding quota_auto_paused
rejected_pause = refl

rejected_credential : has_dispatch_credential rejected ≡ true
unfolding has_dispatch_credential
rejected_credential = refl

clear_cooldown_account-available_example :
    is_available 100 (clear_cooldown_account 4 100 rejected) ≡ true
clear_cooldown_account-available_example =
    clear_cooldown_account-available 4 100 rejected rejected_cooling refl rejected_usage
      rejected_limit rejected_pause rejected_credential

report_request_failure_account-unbans_example :
    tier_eq
      (report_request_failure_account 4 100 (codes "timeout") 2_000_000 rejected).health_tier
      banned
    ≡ false
report_request_failure_account-unbans_example =
    report_request_failure_account-unbans 4 100 2_000_000 rejected refl

abbrev at_level : ℕ → ModelCooldown
at_level n = record {
  model = codes "m";
  reason = codes "rate_limited";
  reset_at = 900;
  updated_at = 10;
  backoff_level = n;
}

five_minutes : asked_duration 0 * 2 ^ (2 + 1) < two_63
unfolding asked_duration
five_minutes = omega arith

next_model_cooldown-doubles_example :
    ((next_model_cooldown 500 0 [] (codes "m") (at_level 2)).backoff_level ≡ 2 + 1)
    × ((next_model_cooldown 500 0 [] (codes "m") (at_level 2)).reset_at
        ≡ 500 + min (asked_duration 0 * 2 ^ (2 + 1)) longest)
next_model_cooldown-doubles_example =
    next_model_cooldown-doubles 500 0 [] (codes "m") (at_level 2) (omega arith) five_minutes

next_model_cooldown-overflows_example :
    (next_model_cooldown 500 0 [] (codes "m") (at_level 70)).reset_at ≡ 500
next_model_cooldown-overflows_example =
    next_model_cooldown-overflows 500 0 [] (codes "m") (at_level 70) (omega arith) (omega arith)
