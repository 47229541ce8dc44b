-- ===== src/Examples/Account.antt =====
-- The availability of a single account.
use qoder2api.Prelude.{◌≤◌, ◌≡◌, ◌≢◌, refl, arith, true, not, ◌&&◌, if◌then◌else◌}
use qoder2api.Prelude.Text.{codes, to_lower, lower, trim_space, trim_left, is_space, text_eq}
use qoder2api.Auth.Plan.{is_premium5h_plan, normalize_plan_type}
use qoder2api.Auth.Usage.{premium5h_rate_limited}
use qoder2api.Auth.Score.{effective_base_concurrency}
use qoder2api.Auth.Recompute.{limit_of}
use qoder2api.Auth.Recompute.Bounds.{limit_of-bounds}
use qoder2api.Auth.Account.{Account, banned, healthy, warm, risky}
use qoder2api.Auth.Availability.{is_available, snapshot_available}
use qoder2api.Auth.Availability.Agreement.{is_available-eq-snapshot}
use qoder2api.Examples.Data.{an_account}

abbrev limited_account : Account
limited_account = record (an_account 3) {
  plan_type = codes "Plus";
  usage_percent_5h = 100_000;
  usage_percent_5h_valid = true;
  reset_5h_at = 9_000;
}

is_available-eq-snapshot_example :
    is_available 100 limited_account
    ≡ not limited_account.disabled && snapshot_available 100 limited_account
is_available-eq-snapshot_example = is_available-eq-snapshot 100 limited_account

is_limited : premium5h_rate_limited 100 limited_account ≡ true
unfolding premium5h_rate_limited is_premium5h_plan normalize_plan_type to_lower lower trim_space
    trim_left is_space text_eq
is_limited = refl

not_banned : limited_account.health_tier ≢ banned
not_banned h = ground arith

abbrev failed_account : Account
failed_account = record (an_account 4) { last_success_at = 10; last_failure_at = 20 }

limit_of-bounds_example :
    let base' = effective_base_concurrency 8 failed_account in
    (limit_of 8 100 banned failed_account ≡ 0)
    × (1 ≤ limit_of 8 100 risky failed_account)
    × (limit_of 8 100 risky failed_account ≤ limit_of 8 100 warm failed_account)
    × (limit_of 8 100 warm failed_account ≤ limit_of 8 100 healthy failed_account)
    × (limit_of 8 100 healthy failed_account
        ≤ (if premium5h_rate_limited 100 failed_account then 1 else base'))
limit_of-bounds_example = limit_of-bounds 8 100 failed_account
