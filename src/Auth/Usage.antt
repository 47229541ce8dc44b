-- ===== src/Auth/Usage.antt =====
-- auth/store.go and auth/premium_rate_limit.go: what the usage windows of an account forbid.
use qoder2api.Prelude.{
  ℕ, Bool, true, false, ◌&&◌, ◌||◌, not, List, [], ◌∷◌, if◌then◌else◌, leb, ltb, ◌==◌,
}
use qoder2api.Auth.Plan.{is_premium5h_plan, is_free_plan}
use qoder2api.Auth.Account.{Account, full_usage}

unfoldable pub premium5h_rate_limited : ℕ → Account → Bool
premium5h_rate_limited now a =
    if not (is_premium5h_plan a.plan_type)
    then false
    else if not a.usage_percent_5h_valid || ltb a.usage_percent_5h full_usage
    then false
    else if a.reset_5h_at == 0
    then false
    else ltb now a.reset_5h_at

unfoldable pub usage_exhausted : Account → Bool
usage_exhausted a =
    if a.credit_enabled && a.credit_skip_usage_window
    then false
    else a.usage_percent_7d_valid && is_free_plan a.plan_type && leb full_usage a.usage_percent_7d

unfoldable pub quota_auto_paused_by_window : ℕ → Bool → ℕ → ℕ → Bool → ℕ → Bool
quota_auto_paused_by_window usage valid reset_at threshold off now =
    if off || threshold == 0 || not valid
    then false
    else if not (reset_at == 0) && leb reset_at now
    then false
    else leb threshold usage

unfoldable pub quota_auto_paused : ℕ → Account → Bool
unfolding quota_auto_paused_by_window
quota_auto_paused now a =
    if quota_auto_paused_by_window usage_percent_5h usage_percent_5h_valid reset_5h_at
      effective_auto_pause_5h auto_pause_5h_disabled now
    then true
    else quota_auto_paused_by_window usage_percent_7d usage_percent_7d_valid reset_7d_at
        effective_auto_pause_7d auto_pause_7d_disabled now
  where
    open a use {
      usage_percent_5h, usage_percent_5h_valid, reset_5h_at, effective_auto_pause_5h,
      auto_pause_5h_disabled, usage_percent_7d, usage_percent_7d_valid, reset_7d_at,
      effective_auto_pause_7d, auto_pause_7d_disabled,
    }

-- for _, gid := range groupIDs, over the thresholds of the account's groups.
unfoldable pub lowest_positive : ℕ → List ℕ → ℕ
lowest_positive best [] = best
lowest_positive best (t ∷ ts) =
    lowest_positive (if ltb 0 t && (best == 0 || ltb t best) then t else best) ts

-- The store is the thresholds of the account's groups and the global one.
unfoldable pub resolve_effective_threshold : ℕ → List ℕ → ℕ → ℕ
unfolding lowest_positive
resolve_effective_threshold account groups global =
    if ltb 0 account
    then account
    else let best = lowest_positive 0 groups in if ltb 0 best then best else global
