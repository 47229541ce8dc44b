-- ===== src/Auth/Plan.antt =====
-- auth/premium_rate_limit.go, lines 13 to 60, and `defaultScoreBiasForPlan` of auth/store.go: what
-- a plan name means.
use qoder2api.Prelude.{Bool, true, false, ◌||◌, if◌then◌else◌}
use qoder2api.Prelude.Int.{ℤ, pos}
use qoder2api.Prelude.Text.{
  Text, codes, is, to_lower, trim_space, has_prefix, contains, text_eq, equal_fold,
}

unfoldable pub normalize_plan_type : Text → Text
unfolding to_lower trim_space text_eq
normalize_plan_type plan =
    let normalized = to_lower (trim_space plan) in
    if is "prolite" normalized || is "pro_lite" normalized || is "pro-lite" normalized
    then codes "pro"
    else normalized

unfoldable pub is_premium5h_plan : Text → Bool
unfolding normalize_plan_type text_eq
is_premium5h_plan plan =
    let normalized = normalize_plan_type plan in
    is "plus" normalized || is "pro" normalized || is "team" normalized

unfoldable pub is_plus_or_higher_plan : Text → Bool
unfolding normalize_plan_type text_eq contains has_prefix
is_plus_or_higher_plan plan =
    let normalized = normalize_plan_type plan in
    if is "" normalized || is "free" normalized
    then false
    else if is "plus" normalized
        || is "pro" normalized
        || is "team" normalized
        || is "teamplus" normalized
        || is "enterprise" normalized
        || is "business" normalized
        || is "edu" normalized
        || is "education" normalized
    then true
    else contains normalized (codes "plus")
      || has_prefix normalized (codes "pro")
      || has_prefix normalized (codes "team")
      || contains normalized (codes "enterprise")
      || contains normalized (codes "business")

unfoldable pub default_score_bias_for_plan : Text → ℤ
unfolding normalize_plan_type text_eq
default_score_bias_for_plan plan =
    let normalized = normalize_plan_type plan in
    if is "pro" normalized || is "plus" normalized || is "team" normalized then pos 50 else pos 0

-- strings.EqualFold(plan, "free")
unfoldable pub is_free_plan : Text → Bool
unfolding equal_fold
is_free_plan plan = equal_fold plan (codes "free")
