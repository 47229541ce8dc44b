-- ===== src/Proxy/RateLimit/Layers.antt =====
-- The levels together: the order in which they are asked, what one request touches, and the
-- invariant of all limiters.
use qoder2api.Prelude.{
  ℕ, ◌+◌, ◌≡◌, arith, Bool, true, false, not, ◌&&◌, List, [], ◌∷◌, inl, inr, Bool-cases,
  Option-cases, if◌then◌else◌, find, AllValues, find-AllValues, store-AllValues, retain-AllValues,
  find-store, subst,
}
use qoder2api.Prelude.Int.{ℤ}
use qoder2api.Prelude.Text.{Text, text_key, text_eq, is}
use qoder2api.Proxy.RateLimit.Level.{
  LevelLimiter, RateLimitLevel, admit, is_limit, level_account, level_model,
}
use qoder2api.Proxy.RateLimit.Blocking.{
  IsValid, admit-IsValid, change_rpm-IsValid, new_level_limiter-IsValid,
}
use qoder2api.Proxy.RateLimit.Enhanced.{
  EnhancedRateLimiter, allow_with_context, check_keyed, limiter_of, change_all, update_all_rpm,
  evict_stale_limiters, new_enhanced_rate_limiter,
}

module _ (account_id model : Text) (now : ℕ) (erl : EnhancedRateLimiter) where
  abbrev global_check : Bool × LevelLimiter
  global_check = admit now erl.global_limiter

  abbrev account_check : Bool × List (Text × LevelLimiter)
  account_check = check_keyed level_account erl.account_rpm now account_id erl.account_limiters

  abbrev model_check : Bool × List (Text × LevelLimiter)
  model_check = check_keyed level_model erl.model_rpm now model erl.model_limiters

  -- A request passes an enabled limiter exactly if the global limiter, the account's and the model's
  -- let it pass, and each is asked, and charged, only after the ones before it did; what was refused
  -- is counted once.
  pub allow_with_context-layers :
      erl.enabled ≡ true
      → let (ok, erl') = allow_with_context account_id model now erl in
        (ok ≡ (global_check.0 && account_check.0 && model_check.0))
        × (erl'.global_limiter ≡ global_check.1)
        × (erl'.account_limiters
            ≡ (if global_check.0 then account_check.1 else erl.account_limiters))
        × (erl'.model_limiters
            ≡ (if global_check.0 && account_check.0 then model_check.1 else erl.model_limiters))
        × (erl'.total_limited ≡ erl.total_limited + (if ok then 0 else 1))
  unfolding allow_with_context
  allow_with_context-layers on = ground arith

check_keyed-others :
    (level : RateLimitLevel) (rpm : ℤ) (now : ℕ) (key other : Text) (m : List (Text × LevelLimiter))
    → text_eq key other ≡ false
    → find other (check_keyed level rpm now key m).1 ≡ find other m
unfolding check_keyed
check_keyed-others level rpm now key other m h =
    ground (arith, find-store key other (admit now (limiter_of level rpm now key m)).1 m)

-- A request leaves the limiters of every other account and every other model as they were.
pub allow_with_context-others :
    (account_id model : Text) (now : ℕ) (erl : EnhancedRateLimiter) (account' model' : Text)
    → text_eq account_id account' ≡ false
    → text_eq model model' ≡ false
    → let erl' = (allow_with_context account_id model now erl).1 in
      (find account' erl'.account_limiters ≡ find account' erl.account_limiters)
      × (find model' erl'.model_limiters ≡ find model' erl.model_limiters)
unfolding allow_with_context
allow_with_context-others account_id model now erl account' model' a b = ground (
  arith,
  check_keyed-others level_account erl.account_rpm now account_id account' erl.account_limiters a,
  check_keyed-others level_model erl.model_rpm now model model' erl.model_limiters b,
)

abbrev pub AllValid : List (Text × LevelLimiter) → Type 0
AllValid = AllValues IsValid

change_all-AllValid :
    (rpm : ℤ) (now : ℕ) (m : List (Text × LevelLimiter))
    → AllValid m
    → AllValid (change_all rpm now m)
unfolding change_all
change_all-AllValid rpm now [] v = tt
change_all-AllValid rpm now ((k, x) ∷ m) (v, vs) =
    (change_rpm-IsValid rpm now x v, change_all-AllValid rpm now m vs)

limiter_of-IsValid :
    (level : RateLimitLevel) (rpm : ℤ) (now : ℕ) (key : Text) (m : List (Text × LevelLimiter))
    → AllValid m
    → IsValid (limiter_of level rpm now key m)
unfolding limiter_of
limiter_of-IsValid level rpm now key m v = elim (Option-cases (find key m)) [
  | inl e ↦ rw (limiter_of, e) (new_level_limiter-IsValid key level rpm now)
  | inr (ll, e) ↦ rw (limiter_of, e) (find-AllValues IsValid key ll m v e)
]

check_keyed-AllValid :
    (level : RateLimitLevel) (rpm : ℤ) (now : ℕ) (key : Text) (m : List (Text × LevelLimiter))
    → AllValid m
    → AllValid (check_keyed level rpm now key m).1
unfolding check_keyed
check_keyed-AllValid level rpm now key m v = elim (Bool-cases (is_limit rpm && not (is "" key))) [
  | inr off ↦ rw off v
  | inl on ↦ rw on (
      store-AllValues IsValid key (admit now (limiter_of level rpm now key m)).1 m
        (admit-IsValid now (limiter_of level rpm now key m)
          (limiter_of-IsValid level rpm now key m v))
        v)
]

disabled_unchanged :
    (account_id model : Text) (now : ℕ) (erl : EnhancedRateLimiter)
    → erl.enabled ≡ false
    → erl ≡ (allow_with_context account_id model now erl).1
unfolding allow_with_context
disabled_unchanged account_id model now erl off = ground arith

-- Every limiter is valid.
pub record AreValid (erl : EnhancedRateLimiter) : Type 0 where
  pub global_ok : IsValid erl.global_limiter
  pub accounts_ok : AllValid erl.account_limiters
  pub models_ok : AllValid erl.model_limiters

pub new_enhanced_rate_limiter-AreValid :
    (g a m : ℤ) (now : ℕ) → AreValid (new_enhanced_rate_limiter g a m now)
unfolding new_enhanced_rate_limiter
new_enhanced_rate_limiter-AreValid g a m now = record {
  global_ok = new_level_limiter-IsValid _ _ g now;
  accounts_ok = tt;
  models_ok = tt;
}

-- A request, admitted or refused, keeps every limiter valid.
pub allow_with_context-AreValid :
    (account_id model : Text) (now : ℕ) (erl : EnhancedRateLimiter)
    → AreValid erl
    → AreValid (allow_with_context account_id model now erl).1
allow_with_context-AreValid account_id model now erl v = elim (Bool-cases erl.enabled) [
  | inr off ↦ subst AreValid (unchanged off) v
  | inl on ↦
      let (_, g, a, m, _) = allow_with_context-layers account_id model now erl on in
      record {
        global_ok = rw g (admit-IsValid now erl.global_limiter v.global_ok);
        accounts_ok = rw a (
            either (global_check account_id model now erl).0 _ _
              (check_keyed-AllValid level_account erl.account_rpm now account_id
                erl.account_limiters v.accounts_ok)
              v.accounts_ok);
        models_ok = rw m (
            either
              ((global_check account_id model now erl).0
                && (account_check account_id model now erl).0)
              _ _
              (check_keyed-AllValid level_model erl.model_rpm now model erl.model_limiters
                v.models_ok)
              v.models_ok);
      }
]
  where
    unchanged : erl.enabled ≡ false → erl ≡ (allow_with_context account_id model now erl).1
    unchanged off = disabled_unchanged account_id model now erl off

    either :
        (b : Bool) (x y : List (Text × LevelLimiter))
        → AllValid x
        → AllValid y
        → AllValid (if b then x else y)
    either true x y p q = p
    either false x y p q = q

-- `UpdateAllRPM`, and the eviction of limiters that were not asked for long, keep every limiter
-- valid.
pub update_all_rpm-AreValid :
    (g a m : ℤ) (ttl now : ℕ) (erl : EnhancedRateLimiter)
    → AreValid erl
    → AreValid (update_all_rpm g a m now erl) × AreValid (evict_stale_limiters ttl now erl)
unfolding update_all_rpm evict_stale_limiters
update_all_rpm-AreValid g a m ttl now erl v = (
  record {
    global_ok = change_rpm-IsValid g now erl.global_limiter v.global_ok;
    accounts_ok = change_all-AllValid a now erl.account_limiters v.accounts_ok;
    models_ok = change_all-AllValid m now erl.model_limiters v.models_ok;
  },
  record {
    global_ok = v.global_ok;
    accounts_ok = retain-AllValues IsValid _ erl.account_limiters v.accounts_ok;
    models_ok = retain-AllValues IsValid _ erl.model_limiters v.models_ok;
  },
)
