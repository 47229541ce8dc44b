-- ===== src/Examples/Data.antt =====
-- Test data: an account of a plan without usage windows, and a scheduler that knows it.
use qoder2api.Prelude.{ℕ, true, false, [], ◌∷◌, none, some, ◌==◌, if◌then◌else◌}
use qoder2api.Prelude.Int.{pos}
use qoder2api.Prelude.Text.{codes}
use qoder2api.Auth.Account.{Account, ready, healthy}
use qoder2api.Auth.FastScheduler.{FastScheduler, World, round_robin}
use qoder2api.Auth.FastScheduler.Scan.{Request}

abbrev pub an_account : ℕ → Account
an_account id = record {
  db_id = id;
  refresh_token = [];
  session_token = [];
  access_token = codes "t";
  expires_at = 0;
  plan_type = codes "team";
  upstream_type = [];
  base_url = [];
  api_key = [];
  status = ready;
  cooldown_util = 0;
  cooldown_reason = [];
  error_msg = [];
  usage_percent_7d = 0;
  usage_percent_7d_valid = false;
  reset_7d_at = 0;
  usage_percent_5h = 0;
  usage_percent_5h_valid = false;
  reset_5h_at = 0;
  usage_updated_at = 0;
  auto_pause_5h_disabled = false;
  auto_pause_7d_disabled = false;
  effective_auto_pause_5h = 0;
  effective_auto_pause_7d = 0;
  health_tier = healthy;
  scheduler_score = pos 0;
  dispatch_score = pos 0;
  score_bias_effective = pos 0;
  base_concurrency_effective = 0;
  dynamic_concurrency_limit = 2;
  latency_ewma = 0;
  success_streak = 0;
  failure_streak = 0;
  last_success_at = 0;
  last_failure_at = 0;
  last_unauthorized_at = 0;
  last_rate_limited_at = 0;
  last_timeout_at = 0;
  last_server_error_at = 0;
  recent_results = [];
  recent_results_idx = 0;
  recent_results_cnt = 0;
  active_requests = 0;
  total_requests = 0;
  last_used_at = 0;
  disabled = false;
  dispatch_paused = false;
  score_bias_override = none;
  base_concurrency_override = none;
  credit_enabled = false;
  credit_skip_usage_window = false;
  skip_warm_tier = false;
  allowed_api_key_ids = [];
  subscription_expires_at = 0;
}

abbrev pub empty_scheduler : FastScheduler
empty_scheduler = record {
  base_limit = 2;
  scheduler_mode = round_robin;
  healthy_bucket = [];
  warm_bucket = [];
  risky_bucket = [];
  positions = λ _. none;
  healthy_cursor = 0;
  warm_cursor = 0;
  risky_cursor = 0;
  group_check = λ _ _. true;
}

abbrev pub empty_world : World
empty_world = record { scheduler = empty_scheduler; accounts = an_account }

-- One account, at its place; its entry still has an old score.
abbrev pub one_world : World
one_world = record {
  scheduler = record empty_scheduler {
    healthy_bucket = record { db_id = 7; dispatch_score = pos 0; proven = false } ∷ [];
    positions = λ j. if j == 7 then some (record { tier = healthy; index = 0 }) else none;
  };
  accounts = an_account;
}

abbrev pub any_account : Request
any_account = record { api_key_id = 1; exclude = λ _. false; filter = λ _. true }
