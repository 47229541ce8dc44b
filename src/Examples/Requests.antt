-- ===== src/Examples/Requests.antt =====
-- The limits of an API key and the retries of one request.
use qoder2api.Prelude.{
  ℕ, ◌+◌, ◌≡◌, refl, arith, true, not, [], ◌∷◌, Option, none, some, if◌then◌else◌,
}
use qoder2api.Prelude.Text.{codes}
use qoder2api.Proxy.Concurrency.{
  Slots, calling, run_turns, turn, advance, IsCounted, run_turns-IsCounted,
}
use qoder2api.Proxy.Exclusions.{RetryAccountExclusions, AreDisjoint}
use qoder2api.Proxy.Exclusions.Retries.{
  Turn, next_retry_account, Returns, two_picks, next_retry_account-Returns,
}
use qoder2api.Examples.Data.{any_account}
use qoder2api.Examples.Store.{a_codec, a_session}
use qoder2api.Proxy.KeyLimits.{
  ApiKeyLimits, Window, WindowUsage, passed, forbidden, too_many_requests, enforce_api_key_limits,
  enforce_api_key_limits_lem, model_ok, windows_ok,
}

abbrev two_callers : Slots
two_callers = record { inflight = 0; callers = calling ∷ calling ∷ [] }

two_callers-IsCounted : IsCounted 1 two_callers
two_callers-IsCounted = record {
  counted = omega arith;
  bounded = omega arith;
  below = (tt, (tt, tt));
}

-- Both load the counter, one swaps it, the other fails and is refused; the first one leaves.
run_turns-IsCounted_example : IsCounted 1 (run_turns 1 (0 ∷ 1 ∷ 0 ∷ 1 ∷ 1 ∷ 0 ∷ []) two_callers)
run_turns-IsCounted_example =
    run_turns-IsCounted 1 (0 ∷ 1 ∷ 0 ∷ 1 ∷ 1 ∷ 0 ∷ []) two_callers two_callers-IsCounted

one_inside : (run_turns 1 (0 ∷ 1 ∷ 0 ∷ 1 ∷ 1 ∷ []) two_callers).inflight ≡ 1
unfolding run_turns turn advance
one_inside = refl

abbrev some_excluded : RetryAccountExclusions
some_excluded = record { hard = 3 ∷ []; soft = 4 ∷ [] }

some_excluded-AreDisjoint : AreDisjoint some_excluded
some_excluded-AreDisjoint id = ground arith

abbrev a_turn : ℕ → Turn
a_turn now = record {
  at = now;
  coins = λ _ _. true;
  waits_at = now;
  rounds = record { others = λ s. s; at = now + 50; coins = λ _ _. true } ∷ [];
}

next_retry_account-Returns_example :
    Returns
      (two_picks a_codec (codes "s") any_account (a_turn 200) (a_turn 900) some_excluded a_session)
      some_excluded
      (next_retry_account a_codec
        (codes "s")
        any_account
        (a_turn 200 ∷ a_turn 900 ∷ [])
        some_excluded
        a_session)
next_retry_account-Returns_example =
    next_retry_account-Returns a_codec (codes "s") any_account (a_turn 200) (a_turn 900)
      some_excluded a_session []

abbrev a_key : ApiKeyLimits
a_key = record {
  model_allow = codes "gpt" ∷ [];
  model_deny = [];
  rpm = 10;
  rpd = 0;
  max_concurrency = 0;
  cost_limit_5h = 0;
  cost_limit_7d = 0;
  token_limit_5h = 0;
  token_limit_7d = 500;
}

abbrev ten_requests : Window → Option ℕ
ten_requests w = some 10

abbrev no_usage : Window → Option WindowUsage
no_usage w = none

enforce_api_key_limits_lem_example :
    enforce_api_key_limits ten_requests no_usage a_key (codes "GPT") ≡ (
      if not (model_ok ten_requests no_usage a_key (codes "GPT"))
      then forbidden
      else if windows_ok ten_requests no_usage a_key (codes "GPT")
      then passed
      else too_many_requests)
enforce_api_key_limits_lem_example =
    enforce_api_key_limits_lem ten_requests no_usage a_key (codes "GPT")
