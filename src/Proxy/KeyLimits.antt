-- ===== src/Proxy/KeyLimits.antt =====
-- proxy/apikey_limits.go: the limits of an API key, in the order in which they are tested, and
-- database/postgres.go, lines 930 to 948: `APIKeyLimits`. Costs count some unit of money, and a limit
-- that is not positive is 0. What the cache or the database says of a window is a parameter: `none`
-- is an error, or no row. The texts of the answers are left out; a status stands for each.
use qoder2api.Prelude.{
  ℕ, ◌≡◌, arith, Bool, true, false, not, ◌&&◌, ◌||◌, List, [], ◌∷◌, Option, none, some,
  if◌then◌else◌, leb, ltb, ◌==◌,
}
use qoder2api.Prelude.Text.{Text, is, to_lower, trim_space, text_eq}

pub record ApiKeyLimits : Type 0 where
  pub model_allow : List Text
  pub model_deny : List Text
  pub rpm : ℕ
  pub rpd : ℕ
  pub max_concurrency : ℕ
  pub cost_limit_5h : ℕ
  pub cost_limit_7d : ℕ
  pub token_limit_5h : ℕ
  pub token_limit_7d : ℕ

abbrev pub is_empty : List Text → Bool
is_empty [] = true
is_empty (x ∷ xs) = false

unfoldable pub is_zero : ApiKeyLimits → Bool
is_zero l =
    is_empty l.model_allow
    && is_empty l.model_deny
    && l.rpm == 0
    && l.rpd == 0
    && l.max_concurrency == 0
    && l.cost_limit_5h == 0
    && l.cost_limit_7d == 0
    && l.token_limit_5h == 0
    && l.token_limit_7d == 0

-- Whether some m of the list has strings.ToLower(strings.TrimSpace(m)) == model.
unfoldable pub lists_model : Text → List Text → Bool
unfolding to_lower trim_space text_eq
lists_model model [] = false
lists_model model (m ∷ ms) = text_eq (to_lower (trim_space m)) model || lists_model model ms

-- Whether checkAPIKeyModel has no complaint.
unfoldable pub check_api_key_model : Text → ApiKeyLimits → Bool
unfolding lists_model to_lower trim_space
check_api_key_model model l =
    let model' = to_lower (trim_space model) in
    if not (is_empty l.model_allow)
    then lists_model model' l.model_allow
    else not (lists_model model' l.model_deny)

pub data Window : Type 0 where
  window_rpm window_rpd window_5h window_7d : Window

pub record WindowUsage : Type 0 where
  pub user_billed : ℕ
  pub tokens : ℕ

pub data Verdict : Type 0 where
  passed forbidden too_many_requests : Verdict

-- limit > 0 && err == nil && count >= limit
unfoldable pub over_requests : ℕ → Option ℕ → Bool
over_requests limit none = false
over_requests limit (some count) = ltb 0 limit && leb limit count

-- The tests of one window of costs and tokens, which is read only if one of the limits is set.
unfoldable pub over_usage : ℕ → ℕ → Option WindowUsage → Bool
over_usage cost_limit token_limit none = false
over_usage cost_limit token_limit (some u) =
    if ltb 0 cost_limit || ltb 0 token_limit
    then (if ltb 0 cost_limit && leb cost_limit u.user_billed
        then true
        else ltb 0 token_limit && leb token_limit u.tokens)
    else false

module _ (requests : Window → Option ℕ) (usage : Window → Option WindowUsage) where
  unfoldable pub enforce_api_key_limits : ApiKeyLimits → Text → Verdict
  unfolding text_eq
  enforce_api_key_limits l model =
      if is_zero l
      then passed
      else if not (is "" model) && not (check_api_key_model model l)
      then forbidden
      else if over_requests l.rpm (requests window_rpm)
      then too_many_requests
      else if over_requests l.rpd (requests window_rpd)
      then too_many_requests
      else if over_usage l.cost_limit_5h l.token_limit_5h (usage window_5h)
      then too_many_requests
      else if over_usage l.cost_limit_7d l.token_limit_7d (usage window_7d)
      then too_many_requests
      else passed

-- A limit is kept: there is none, nothing is known, or what is known is below it.
abbrev pub keeps : ℕ → Option ℕ → Bool
keeps limit none = true
keeps limit (some n) = limit == 0 || ltb n limit

abbrev pub billed : Option WindowUsage → Option ℕ
billed none = none
billed (some u) = some u.user_billed

abbrev pub used : Option WindowUsage → Option ℕ
used none = none
used (some u) = some u.tokens

over_requests-keeps : (limit : ℕ) (r : Option ℕ) → over_requests limit r ≡ not (keeps limit r)
unfolding over_requests
over_requests-keeps limit r = ground arith

over_usage-keeps :
    (c t : ℕ) (u : Option WindowUsage)
    → over_usage c t u ≡ not (keeps c (billed u) && keeps t (used u))
unfolding over_usage
over_usage-keeps c t u = ground arith

keeps_none : (r : Option ℕ) → keeps 0 r ≡ true
keeps_none r = ground arith

empty_lists :
    (model : Text) (l : ApiKeyLimits)
    → is_empty l.model_allow ≡ true
    → is_empty l.model_deny ≡ true
    → check_api_key_model model l ≡ true
unfolding check_api_key_model lists_model
empty_lists model l a d = ground arith

module _ (requests : Window → Option ℕ) (usage : Window → Option WindowUsage) (l : ApiKeyLimits)
    (model : Text) where
  -- The model may be used: none was named, or the lists allow it.
  abbrev pub model_ok : Bool
  model_ok = is "" model || check_api_key_model model l

  abbrev pub windows_ok : Bool
  windows_ok =
      keeps l.rpm (requests window_rpm)
      && keeps l.rpd (requests window_rpd)
      && (keeps l.cost_limit_5h (billed (usage window_5h))
          && keeps l.token_limit_5h (used (usage window_5h)))
      && (keeps l.cost_limit_7d (billed (usage window_7d))
          && keeps l.token_limit_7d (used (usage window_7d)))

  is_zero_ok : is_zero l ≡ true → (model_ok ≡ true) × (windows_ok ≡ true)
  unfolding is_zero
  is_zero_ok z = ground (
    arith,
    empty_lists model l,
    keeps_none (requests window_rpm),
    keeps_none (requests window_rpd),
    keeps_none (billed (usage window_5h)),
    keeps_none (used (usage window_5h)),
    keeps_none (billed (usage window_7d)),
    keeps_none (used (usage window_7d)),
  )

  -- A request is forbidden exactly if its model is not allowed, refused as too many exactly if its
  -- model is allowed and what is known of some window has reached that window's limit, and passes
  -- otherwise; a window that cannot be read refuses nothing.
  pub enforce_api_key_limits_lem :
      enforce_api_key_limits requests usage l model
      ≡ (if not model_ok then forbidden else if windows_ok then passed else too_many_requests)
  unfolding enforce_api_key_limits
  enforce_api_key_limits_lem = ground (
    arith,
    is_zero_ok,
    over_requests-keeps l.rpm (requests window_rpm),
    over_requests-keeps l.rpd (requests window_rpd),
    over_usage-keeps l.cost_limit_5h l.token_limit_5h (usage window_5h),
    over_usage-keeps l.cost_limit_7d l.token_limit_7d (usage window_7d),
  )
