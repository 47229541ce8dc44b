-- ===== src/Auth/LifeCycle/Recovery.antt =====
-- How an account leaves its cooldown, and how it leaves its ban.
use qoder2api.Prelude.{ℕ, ◌+◌, ◌<◌, ◌≡◌, refl, arith, true, false}
use qoder2api.Prelude.Text.{Text, codes, text_eq}
use qoder2api.Auth.Account.{
  Account, ready, banned, tier_eq, is_cooldown, in_cooldown, has_dispatch_credential,
  health_tier_locked,
}
use qoder2api.Auth.Usage.{premium5h_rate_limited, usage_exhausted, quota_auto_paused}
use qoder2api.Auth.Recompute.{recompute_scheduler, tier_of, tier_for_score, adjust_tier}
use qoder2api.Auth.Availability.{is_available}
use qoder2api.Auth.Availability.Agreement.{set_cooldown_until-blocks}
use qoder2api.Auth.Results.{record_result}
use qoder2api.Auth.LifeCycle.{
  cooldown_duration, marked_reason, with_error, record_latency, lowered_tier, failed_kind,
  mark_cooldown_account, clear_cooldown_account, report_request_failure_account,
}

-- Until its cooldown is over a marked account is not available: 6 or 24 hours after its token was
-- rejected, and for other reasons the duration that is asked for.
pub mark_cooldown_account-blocks :
    (m now later duration : ℕ) (reason msg : Text) (a : Account)
    → later < now + cooldown_duration now duration reason a
    → is_available later (mark_cooldown_account m now duration reason msg a) ≡ false
unfolding mark_cooldown_account
mark_cooldown_account-blocks m now later duration reason msg a early =
    set_cooldown_until-blocks (now + cooldown_duration now duration reason a) later reason
      (recompute_scheduler m now (with_error msg (marked_reason now reason a))) early

-- Recomputing the scheduler bans only what is banned.
tier_of-not_banned :
    (now : ℕ) (a : Account)
    → tier_eq a.health_tier banned ≡ false
    → tier_eq (tier_of now a) banned ≡ false
unfolding tier_of tier_for_score adjust_tier tier_eq
tier_of-not_banned now a h = ground arith

recompute_scheduler-available :
    (m now : ℕ) (a : Account)
    → a.disabled ≡ false
    → a.dispatch_paused ≡ false
    → a.status ≡ ready
    → tier_eq a.health_tier banned ≡ false
    → usage_exhausted a ≡ false
    → premium5h_rate_limited now a ≡ false
    → quota_auto_paused now a ≡ false
    → has_dispatch_credential a ≡ true
    → is_available now (recompute_scheduler m now a) ≡ true
unfolding is_available recompute_scheduler in_cooldown health_tier_locked usage_exhausted
    premium5h_rate_limited quota_auto_paused has_dispatch_credential
recompute_scheduler-available m now a enabled running is_ready allowed some_usage no_limit no_pause
      credential =
    ground (arith, tier_of-not_banned now a allowed)

-- Clearing a cooldown makes the account available again at once, if it has a credential, is not
-- paused and no usage limit stands against it, even if its tier was banned.
pub clear_cooldown_account-available :
    (m now : ℕ) (a : Account)
    → is_cooldown a.status ≡ true
    → a.dispatch_paused ≡ false
    → usage_exhausted a ≡ false
    → premium5h_rate_limited now a ≡ false
    → quota_auto_paused now a ≡ false
    → has_dispatch_credential a ≡ true
    → is_available now (clear_cooldown_account m now a) ≡ true
unfolding clear_cooldown_account usage_exhausted premium5h_rate_limited quota_auto_paused
    has_dispatch_credential tier_eq
clear_cooldown_account-available m now a cooling running some_usage no_limit no_pause credential =
    recompute_scheduler-available m now _ refl running (ground (arith, cooling))
      (ground (arith, cooling, no_limit)) some_usage no_limit no_pause credential

-- A banned account whose request fails by a timeout is banned no longer.
pub report_request_failure_account-unbans :
    (m now latency : ℕ) (a : Account)
    → a.health_tier ≡ banned
    → tier_eq (report_request_failure_account m now (codes "timeout") latency a).health_tier banned
      ≡ false
unfolding report_request_failure_account failed_kind lowered_tier tier_eq text_eq record_result
    record_latency recompute_scheduler
report_request_failure_account-unbans m now latency a is_banned =
    tier_of-not_banned now _ (ground (arith, is_banned))
