-- ===== src/Auth/LifeCycle/ModelMarks.antt =====
-- auth/store.go, lines 4380 to 4470: the cooldown of a model after a rate limit. The duration doubles
-- with each level, in 64 bits: it wraps around at high levels.
use qoder2api.Prelude.{
  ℕ, zero, suc, ◌+◌, ◌-◌, ◌*◌, ◌/◌, ◌%◌, ◌^◌, ◌≤◌, ◌<◌, ◌≡◌, refl, arith, ◌&&◌, if◌then◌else◌, ltb,
  ◌==◌, min, ap, ◌∙◌, sym, store,
}
use native.Mathlib.Nat.{
  pow-succ', mul_assoc, mul-le-mul_left, one-le-pow, mul-add-mod_self_left, mul-mod_left, add-mul,
}
use native.Mathlib.Omega.{div_any}
use qoder2api.Prelude.Text.{Text, is, text_eq, codes, text_key}
use qoder2api.Auth.Account.{Account}
use qoder2api.Auth.ModelCooldowns.{
  ModelCooldown, Cooldowns, no_cooldown, current_cooldown, normalize_model_cooldown_key,
}
use qoder2api.Auth.LifeCycle.{mark_model_account}

abbrev pub two_63 : ℕ
two_63 = 9_223_372_036_854_775_808

abbrev pub two_64 : ℕ
two_64 = 18_446_744_073_709_551_616

-- 30 minutes.
abbrev pub longest : ℕ
longest = 1_800_000_000_000

-- Nothing or less is 5 minutes, and more than 30 minutes is 30.
unfoldable pub asked_duration : ℕ → ℕ
asked_duration d = if d == 0 then 300_000_000_000 else if ltb longest d then longest else d

-- duration *= 2, so many times; a number of 2^63 or more stands for a negative one.
unfoldable pub doubled : ℕ → ℕ → ℕ
doubled zero d = d
doubled (suc n) d = doubled n (d * 2 % two_64)

-- The duration after the doublings, at most 30 minutes.
unfoldable pub leveled : ℕ → ℕ → ℕ
unfolding doubled
leveled level d =
    let d' = doubled level d in if ltb d' two_63 && ltb longest d' then longest else d'

-- now.Add(duration)
unfoldable pub after_duration : ℕ → ℕ → ℕ
after_duration now d = if ltb d two_63 then now + d else now - (two_64 - d)

-- The cooldown that the model gets.
unfoldable pub next_model_cooldown : ℕ → ℕ → Text → Text → ModelCooldown → ModelCooldown
unfolding asked_duration leveled after_duration text_eq
next_model_cooldown now duration reason key current =
    let again = ltb now current.reset_at in
    let level = if again then current.backoff_level + 1 else current.backoff_level in
    let d = asked_duration duration in
    record {
      model = key;
      reason = if is "" reason then codes "rate_limited" else reason;
      reset_at = after_duration now (if again then leveled level d else d);
      updated_at = now;
      backoff_level = level;
    }

-- `MarkModelCooldown`, on the account and the cooldowns of its models.
unfoldable pub mark_model_cooldown_account :
    ℕ → ℕ → Text → ℕ → Text → Account × Cooldowns → ModelCooldown × (Account × Cooldowns)
unfolding normalize_model_cooldown_key next_model_cooldown current_cooldown text_eq
    mark_model_account store
mark_model_cooldown_account max_concurrency now model duration reason (a, m) =
    let key = normalize_model_cooldown_key model in
    let c = next_model_cooldown now duration reason key (current_cooldown key m) in
    if is "" key
    then (no_cooldown, (a, m))
    else (c, (mark_model_account max_concurrency now a, store key c m))

doubled_fits : (n d : ℕ) → d * 2 ^ n < two_63 → doubled n d ≡ d * 2 ^ n
unfolding doubled
doubled_fits zero d small = let once : 2 ^ 0 ≡ 1 = refl in omega (arith, ap (λ k. d * k) once)
doubled_fits (suc n) d small =
    let split : d * 2 ^ suc n ≡ d * 2 * 2 ^ n =
      ap (λ k. d * k) (pow-succ' 2 n) ∙ sym (mul_assoc d 2 (2 ^ n)) in
    let grows : d * 2 * 1 ≤ d * 2 * 2 ^ n =
      mul-le-mul_left (d * 2) (one-le-pow n 2 (omega arith)) in
    let fits : d * 2 % two_64 ≡ d * 2 = omega (arith, split, grows, small) in
    ap (doubled n) fits ∙ (doubled_fits n (d * 2) (omega (arith, split, small)) ∙ sym split)

-- A remainder may be taken before a product.
product_mod : (a b m : ℕ) → a % m * b % m ≡ a * b % m
product_mod a b m =
    let whole : m * (a / m) + a % m ≡ a = div_any a m in
    sym (
      ap (λ x. x * b % m) (sym whole)
      ∙ (ap (λ x. x % m) (add-mul (m * (a / m)) (a % m) b)
          ∙ (ap (λ x. (x + a % m * b) % m) (mul_assoc m (a / m) b)
              ∙ mul-add-mod_self_left m (a / m * b) (a % m * b))))

doubled_mod : (n d : ℕ) → d < two_64 → doubled n d ≡ d * 2 ^ n % two_64
unfolding doubled
doubled_mod zero d small =
    let once : 2 ^ 0 ≡ 1 = refl in omega (arith, ap (λ k. d * k % two_64) once)
doubled_mod (suc n) d small =
    doubled_mod n (d * 2 % two_64) (omega arith)
    ∙ (product_mod (d * 2) (2 ^ n) two_64
        ∙ ap (λ x. x % two_64) (mul_assoc d 2 (2 ^ n) ∙ ap (λ k. d * k) (sym (pow-succ' 2 n))))

doubled_zero : (n : ℕ) → doubled n 0 ≡ 0
unfolding doubled
doubled_zero zero = refl
doubled_zero (suc n) = doubled_zero n

doubled_add : (m n d : ℕ) → doubled (m + n) d ≡ doubled n (doubled m d)
unfolding doubled
doubled_add zero n d = let all_left : 0 + n ≡ n = omega arith in ap (λ k. doubled k d) all_left
doubled_add (suc m) n d =
    let one_on : suc m + n ≡ suc (m + n) = omega arith in
    ap (λ k. doubled k d) one_on ∙ doubled_add m n (d * 2 % two_64)

-- 64 doublings leave nothing.
doubled_gone : (n d : ℕ) → d < two_64 → doubled (64 + n) d ≡ 0
doubled_gone n d small =
    doubled_add 64 n d
    ∙ (ap (doubled n) (doubled_mod 64 d small ∙ mul-mod_left d two_64) ∙ doubled_zero n)

asked_duration_le : (d : ℕ) → asked_duration d ≤ longest
unfolding asked_duration
asked_duration_le d = ground arith

module _ (now duration : ℕ) (reason key : Text) (current : ModelCooldown)
    (lasts : now < current.reset_at) where
  -- A cooldown of a model that is marked again while it lasts goes up one level. The new one ends
  -- after the duration that is asked for, doubled once for each level, or after 30 minutes if that
  -- is more, as long as the doubled duration is below 2^63 nanoseconds.
  pub next_model_cooldown-doubles :
      asked_duration duration * 2 ^ (current.backoff_level + 1) < two_63
      → ((next_model_cooldown now duration reason key current).backoff_level
          ≡ current.backoff_level + 1)
        × ((next_model_cooldown now duration reason key current).reset_at
            ≡ now + min (asked_duration duration * 2 ^ (current.backoff_level + 1)) longest)
  unfolding next_model_cooldown leveled after_duration
  next_model_cooldown-doubles small = (
    ground arith,
    ground (arith, doubled_fits (current.backoff_level + 1) (asked_duration duration) small),
  )

  -- A cooldown of a model that is marked again while it lasts, at level 63 or above, is replaced by
  -- one that ends when it begins: the doubled duration is 0 in 64 bits.
  pub next_model_cooldown-overflows :
      63 ≤ current.backoff_level
      → (next_model_cooldown now duration reason key current).reset_at ≡ now
  unfolding next_model_cooldown leveled after_duration
  next_model_cooldown-overflows high =
      let level : current.backoff_level + 1 ≡ 64 + (current.backoff_level - 63) = omega arith in
      let gone : doubled (current.backoff_level + 1) (asked_duration duration) ≡ 0 =
        ap (λ n. doubled n (asked_duration duration)) level
        ∙ doubled_gone (current.backoff_level - 63) (asked_duration duration)
            (omega (arith, asked_duration_le duration)) in
      ground (arith, gone)
