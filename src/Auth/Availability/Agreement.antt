-- ===== src/Auth/Availability/Agreement.antt =====
-- Three answers to one question: `IsAvailable`, the snapshot's `available` and `RuntimeStatus`.
use qoder2api.Prelude.{ℕ, ◌≡◌, arith, true, false, not, ◌&&◌, ◌↔◌, ◌<◌}
use qoder2api.Prelude.Text.{Text, codes}
use qoder2api.Auth.Account.{Account, in_cooldown, health_tier_locked}
use qoder2api.Auth.Availability.{
  is_available, snapshot_available, runtime_status, active, set_cooldown_until,
}

-- `IsAvailable` is the test of the fast scheduler's snapshot together with the `Disabled` flag.
pub is_available-eq-snapshot :
    (now : ℕ) (a : Account) → is_available now a ≡ not a.disabled && snapshot_available now a
unfolding is_available snapshot_available
is_available-eq-snapshot now a = ground arith

-- An account with neither flag set is shown as active exactly when it may be dispatched to.
pub runtime_status-active_iff :
    (now : ℕ) (a : Account)
    → a.disabled ≡ false
    → a.dispatch_paused ≡ false
    → (runtime_status now a ≡ active) ↔ (is_available now a ≡ true)
unfolding is_available runtime_status in_cooldown
runtime_status-active_iff now a p q = (λ h. ground arith, λ h. ground arith)

-- Until a cooldown ends the account is not available, whatever the reason.
pub set_cooldown_until-blocks :
    (until now : ℕ) (reason : Text) (a : Account)
    → now < until
    → is_available now (set_cooldown_until until reason a) ≡ false
unfolding is_available set_cooldown_until in_cooldown health_tier_locked
set_cooldown_until-blocks until now reason a h = ground arith

-- A cooldown for a rejected token bans the account: it is not available even after the cooldown.
pub set_cooldown_until-bans :
    (until now : ℕ) (a : Account)
    → is_available now (set_cooldown_until until (codes "unauthorized") a) ≡ false
unfolding is_available set_cooldown_until in_cooldown health_tier_locked
set_cooldown_until-bans until now a = ground arith
