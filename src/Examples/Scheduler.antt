-- ===== src/Examples/Scheduler.antt =====
-- The scheduler on one account.
use qoder2api.Prelude.{
  true, false, ℕ, ◌+◌, ◌<◌, ◌≡◌, refl, arith, none, some, ◌==◌, if◌then◌else◌, Option,
}
use qoder2api.Auth.FastScheduler.{World, allows_api_key, insert_less, sort_stable}
use qoder2api.Auth.FastScheduler.Scan.{
  acquire_excluding_with_filter, scan_tiers, scan_tier, scan_bucket, scan_from, admits, visit,
  is_stale, move_entry,
}
use qoder2api.Auth.Availability.{
  Snapshot, fast_scheduler_snapshot, refreshed, snapshot_of, snapshot_available,
  try_acquire_account,
}
use qoder2api.Auth.Account.{
  healthy, health_tier_locked, has_dispatch_credential, in_cooldown, is_cooldown, is_error,
  is_openai_responses_api, tier_eq,
}
use qoder2api.Auth.Plan.{
  is_premium5h_plan, is_plus_or_higher_plan, default_score_bias_for_plan, is_free_plan,
  normalize_plan_type,
}
use qoder2api.Auth.Recompute.{
  adjust_tier, dispatch_score_of, expiry_urgency_bonus, limit_of, premium5h_usage_urgency_bonus,
  premium7d_usage_urgency_bonus, recompute_scheduler, tier_for_score, tier_of, urgency_bonus,
}
use qoder2api.Auth.Score.{
  concurrency_limit_for_tier, decay_since, effective_base_concurrency, latency_penalty,
  linear_decay, scheduler_breakdown, score_of, success_rate_penalty, sum_first, usage_penalty_7d,
  effective_score_bias, dispatch_bonus_eligible,
}
use qoder2api.Auth.Usage.{
  quota_auto_paused_by_window, usage_exhausted, quota_auto_paused, premium5h_rate_limited,
}
use qoder2api.Prelude.Int.{pos, scale, ◌+ℤ◌}
use qoder2api.Prelude.Text.{
  contains, equal_fold, has_prefix, is_space, lower, text_eq, to_lower, trim_left, trim_space,
}
use qoder2api.Auth.FastScheduler.{
  score_less, quota_less, round_robin_less, score_eq, tie_less, usage_percent_for_scheduling,
  bool_eq, sort_insert,
}
use qoder2api.Auth.FastScheduler.Buckets.{index_from}
use qoder2api.Auth.FastScheduler.Scan.{score_moved}
use qoder2api.Auth.FastScheduler.Buckets.{
  update, remove, remove_locked, remove_at, place, rebuild_positions,
}
use qoder2api.Auth.FastScheduler.Positions.{Indexed, placed}
use qoder2api.Auth.FastScheduler.Insertion.{is_placeable}
use qoder2api.Auth.FastScheduler.Updates.{update-Indexed, remove-Indexed, snap_of}
use qoder2api.Auth.FastScheduler.Progress.{stale_entries}
use qoder2api.Auth.FastScheduler.Rounds.{Grants}
use qoder2api.Auth.FastScheduler.Termination.{
  acquire_excluding_with_filter-ends, acquire_excluding_with_filter-Grants,
}
use qoder2api.Examples.Data.{empty_world, one_world, any_account}

empty_world-Indexed : Indexed empty_world.scheduler
empty_world-Indexed = record { once = λ j. ground arith; exact = λ j. refl }

one_world-Indexed : Indexed one_world.scheduler
one_world-Indexed = record { once = λ j. ground arith; exact = λ j. ground arith }

update-Indexed_example :
    Indexed (update 7 1000 empty_world).scheduler
    × (placed 7 (update 7 1000 empty_world).scheduler
        ≡ (if 7 == 7 then (if is_placeable (snap_of 7 1000 empty_world) then 1 else 0) else 0))
update-Indexed_example = update-Indexed 7 1000 7 empty_world refl empty_world-Indexed

remove-Indexed_example :
    Indexed (remove 7 one_world).scheduler
    × (placed 7 (remove 7 one_world).scheduler ≡ (if 7 == 7 then 0 else 1))
remove-Indexed_example = remove-Indexed 7 7 one_world refl one_world-Indexed

few_stale : stale_entries 1000 one_world < 2
few_stale = ground arith

acquire_excluding_with_filter-ends_example :
    (o : Option ℕ) × (w' : World) × (acquire_excluding_with_filter 2 1000 any_account one_world
      ≡ some (o, w'))
acquire_excluding_with_filter-ends_example =
    acquire_excluding_with_filter-ends 2 1000 any_account one_world one_world-Indexed few_stale

-- 0 for no account, and one more than its id for an account.
abbrev id_of : Option (Option ℕ × World) → ℕ
id_of none = 0
id_of (some (none, w)) = 0
id_of (some (some id, w)) = id + 1

abbrev world_of : Option (Option ℕ × World) → World
world_of none = one_world
world_of (some (o, w)) = w

some_of :
    (x : Option (Option ℕ × World)) (id : ℕ) → id_of x ≡ id + 1 → x ≡ some (some id, world_of x)
some_of none id h = absurd (ground arith)
some_of (some (none, w)) id h = absurd (ground arith)
some_of (some (some i, w)) id h = ground arith

abbrev final : World
final = world_of (acquire_excluding_with_filter 2 1000 any_account one_world)

-- The first scan finds the entry with its old score and moves it, the second one takes it.
acquired_id : id_of (acquire_excluding_with_filter 2 1000 any_account one_world) ≡ 8
unfolding acquire_excluding_with_filter scan_tiers scan_tier scan_bucket scan_from admits
    allows_api_key visit is_stale move_entry remove_locked remove_at place insert_less
    rebuild_positions sort_stable fast_scheduler_snapshot refreshed snapshot_of snapshot_available
    try_acquire_account health_tier_locked is_premium5h_plan is_plus_or_higher_plan
    has_dispatch_credential in_cooldown is_cooldown is_error is_openai_responses_api tier_eq
    default_score_bias_for_plan is_free_plan normalize_plan_type adjust_tier dispatch_score_of
    expiry_urgency_bonus limit_of premium5h_usage_urgency_bonus premium7d_usage_urgency_bonus
    recompute_scheduler tier_for_score tier_of urgency_bonus concurrency_limit_for_tier decay_since
    effective_base_concurrency latency_penalty linear_decay scheduler_breakdown score_of
    success_rate_penalty sum_first usage_penalty_7d effective_score_bias dispatch_bonus_eligible
    quota_auto_paused_by_window usage_exhausted quota_auto_paused premium5h_rate_limited scale ◌+ℤ◌
    contains equal_fold has_prefix is_space lower text_eq to_lower trim_left trim_space score_less
    quota_less round_robin_less score_eq tie_less usage_percent_for_scheduling bool_eq sort_insert
    index_from score_moved
acquired_id = refl

acquire_excluding_with_filter-Grants_example : Grants any_account 1000 7 one_world final
acquire_excluding_with_filter-Grants_example =
    acquire_excluding_with_filter-Grants 2 1000 any_account one_world final 7 one_world-Indexed
      (some_of (acquire_excluding_with_filter 2 1000 any_account one_world) 7 acquired_id)

abbrev a_snapshot : Snapshot
a_snapshot = record { tier = healthy; score = pos 5; limit = 2; proven = false; available = true }
