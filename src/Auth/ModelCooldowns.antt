-- ===== src/Auth/ModelCooldowns.antt =====
-- auth/store.go, lines 142 to 148 and 1390 to 1514: the cooldowns of an account's single models, a
-- map from the model's normalized name. A nil map is an empty one. Times are nanoseconds and 0 is
-- the zero time; `time.Now` is an argument.
use qoder2api.Prelude.{
  ℕ, ◌+◌, ◌-◌, ◌<◌, ◌≡◌, arith, Bool, true, false, not, ◌||◌, List, [], none, some, if◌then◌else◌,
  ◌==◌, ltb, find, store, delete, find-store, find-delete,
}
use qoder2api.Prelude.Text.{Text, is, codes, to_lower, trim_space, text_eq, text_key, text_eq_iff}

pub record ModelCooldown : Type 0 where
  pub model : Text
  pub reason : Text
  pub reset_at : ℕ
  pub updated_at : ℕ
  pub backoff_level : ℕ

abbrev pub Cooldowns : Type 0
Cooldowns = List (Text × ModelCooldown)

-- ModelCooldown{}
abbrev pub no_cooldown : ModelCooldown
no_cooldown = record { model = []; reason = []; reset_at = 0; updated_at = 0; backoff_level = 0 }

unfoldable pub normalize_model_cooldown_key : Text → Text
unfolding to_lower trim_space
normalize_model_cooldown_key model = to_lower (trim_space model)

-- reason = strings.TrimSpace(reason); if reason == "" { reason = "rate_limited" }
unfoldable pub reason_or_default : Text → Text
unfolding trim_space text_eq
reason_or_default reason =
    if is "" (trim_space reason) then codes "rate_limited" else trim_space reason

-- m[key], or the zero value
unfoldable pub current_cooldown : Text → Cooldowns → ModelCooldown
current_cooldown key m = elim (find key m) [ none ↦ no_cooldown | some c ↦ c ]

-- The level counts the cooldowns that began while another one of the model lasted.
unfoldable pub set_model_cooldown_until :
    Text → Text → ℕ → ℕ → Cooldowns → ModelCooldown × Cooldowns
unfolding text_eq
set_model_cooldown_until model reason reset_at now m =
    let key = normalize_model_cooldown_key model in
    if is "" key || reset_at == 0
    then (no_cooldown, m)
    else let current = current_cooldown key m in
      let cooldown : ModelCooldown = record {
        model = key;
        reason = reason_or_default reason;
        reset_at = reset_at;
        updated_at = now;
        backoff_level =
            if ltb now current.reset_at then current.backoff_level + 1 else current.backoff_level;
      } in
      (cooldown, store key cooldown m)

unfoldable pub restore_model_cooldown : Text → Text → ℕ → ℕ → ℕ → Cooldowns → Cooldowns
unfolding text_eq
restore_model_cooldown model reason reset_at updated_at now m =
    let key = normalize_model_cooldown_key model in
    if is "" key || reset_at == 0 || not (ltb now reset_at)
    then m
    else store key
        (record {
          model = key;
          reason = reason_or_default reason;
          reset_at = reset_at;
          updated_at = updated_at;
          backoff_level = 0;
        })
        m

unfoldable pub is_model_rate_limited : Text → ℕ → Cooldowns → Bool
unfolding text_eq
is_model_rate_limited model now m =
    let key = normalize_model_cooldown_key model in
    if is "" key then false else elim (find key m) [ none ↦ false | some c ↦ ltb now c.reset_at ]

unfoldable pub model_cooldown_remaining : Text → ℕ → Cooldowns → ℕ
unfolding text_eq
model_cooldown_remaining model now m =
    let key = normalize_model_cooldown_key model in
    if is "" key then 0 else elim (find key m) [ none ↦ 0 | some c ↦ c.reset_at - now ]

unfoldable pub clear_model_cooldown : Text → Cooldowns → Bool × Cooldowns
unfolding text_eq
clear_model_cooldown model m =
    let key = normalize_model_cooldown_key model in
    if is "" key
    then (false, m)
    else elim (find key m) [ none ↦ (false, m) | some c ↦ (true, delete key m) ]

-- A model is rate limited exactly while some time of its cooldown remains.
pub is_model_rate_limited_iff :
    (model : Text) (now : ℕ) (m : Cooldowns)
    → is_model_rate_limited model now m ≡ ltb 0 (model_cooldown_remaining model now m)
unfolding is_model_rate_limited model_cooldown_remaining
is_model_rate_limited_iff model now m = ground arith

abbrev pub same_model : Text → Text → Bool
same_model a b = text_eq (normalize_model_cooldown_key a) (normalize_model_cooldown_key b)

module _ (model other : Text) (later : ℕ) (m : Cooldowns)
    (named : is "" (normalize_model_cooldown_key model) ≡ false)
    (named' : is "" (normalize_model_cooldown_key other) ≡ false) where
  -- A cooldown of a model with a name, set to some time, limits the model until that time, under every spelling of its name,
  -- and no other model.
  pub set_model_cooldown_until-limits :
      (reason : Text) (reset_at now : ℕ)
      → 0 < reset_at
      → is_model_rate_limited other later (set_model_cooldown_until model reason reset_at now m).1
        ≡ (if same_model model other
            then ltb later reset_at
            else is_model_rate_limited other later m)
  unfolding set_model_cooldown_until is_model_rate_limited
  set_model_cooldown_until-limits reason reset_at now real = ground (
    arith,
    named,
    named',
    find-store (normalize_model_cooldown_key model) (normalize_model_cooldown_key other)
        (set_model_cooldown_until model reason reset_at now m).0 m,
  )

  -- Clearing a model's cooldown ends it, and no other model's; it reports whether there was one.
  pub clear_model_cooldown-limits :
      is_model_rate_limited other later (clear_model_cooldown model m).1
      ≡ (if same_model model other then false else is_model_rate_limited other later m)
  unfolding clear_model_cooldown is_model_rate_limited
  clear_model_cooldown-limits = ground (
    arith,
    named,
    named',
    find-delete (normalize_model_cooldown_key model) (normalize_model_cooldown_key other) m,
    text_eq_iff (normalize_model_cooldown_key model) (normalize_model_cooldown_key other),
  )

-- A cooldown that begins while the model is rate limited has a level one higher than the last one,
-- and otherwise the same.
pub set_model_cooldown_until-level :
    (model reason : Text) (reset_at now : ℕ) (m : Cooldowns)
    → is "" (normalize_model_cooldown_key model) ≡ false
    → 0 < reset_at
    → (set_model_cooldown_until model reason reset_at now m).0.backoff_level
      ≡ (current_cooldown (normalize_model_cooldown_key model) m).backoff_level
        + (if is_model_rate_limited model now m then 1 else 0)
unfolding set_model_cooldown_until is_model_rate_limited current_cooldown
set_model_cooldown_until-level model reason reset_at now m named real = ground (arith, named)
