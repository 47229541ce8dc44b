-- ===== src/Examples/Cooldowns.antt =====
-- The cooldowns of a model, and the window of results, on small data.
use qoder2api.Prelude.{◌≡◌, refl, false, [], ◌∷◌}
use qoder2api.Prelude.Text.{codes, is, text_eq, to_lower, lower, trim_space, trim_left, is_space}
use qoder2api.Auth.Account.{Account}
use qoder2api.Auth.ModelCooldowns.{Cooldowns, normalize_model_cooldown_key}
use qoder2api.Examples.Data.{an_account}

abbrev one_cooldown : Cooldowns
one_cooldown =
    (
      codes "gpt",
      record {
        model = codes "gpt";
        reason = codes "rate_limited";
        reset_at = 50;
        updated_at = 10;
        backoff_level = 0;
      },
    )
    ∷ []

gpt_named : is "" (normalize_model_cooldown_key (codes " GPT")) ≡ false
unfolding normalize_model_cooldown_key to_lower lower trim_space trim_left is_space text_eq
gpt_named = refl

abbrev three_results : Account
three_results = record (an_account 5) {
  recent_results = 1 ∷ 0 ∷ 1 ∷ [];
  recent_results_idx = 2;
  recent_results_cnt = 2;
}
