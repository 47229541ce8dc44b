-- ===== src/Proxy/RateLimit/Backoff.antt =====
-- The cooldowns double from one second up to half an hour.
use qoder2api.Prelude.{
  ℕ, zero, suc, ◌+◌, ◌*◌, ◌^◌, ◌≤◌, ◌≡◌, refl, arith, if◌then◌else◌, ltb, min, ◌∙◌, ap,
}
use qoder2api.Prelude.Int.{ℤ, pos, negsuc, ◌+ℤ◌, ◌≤ℤ◌}
use qoder2api.Proxy.RateLimit.Cooldown.{
  CooldownManager, next_cooldown, compute_cooldown, enter_cooldown, reset, is_in_cooldown,
  get_remaining_cooldown, duration_at, top_level,
}

-- The manager after `k` cooldowns in a row since a reset, each at its time.
abbrev pub cooled : (ℕ → ℕ) → ℕ → CooldownManager → CooldownManager
cooled at zero cm = reset cm
cooled at (suc k) cm = (enter_cooldown (at k) (cooled at k cm)).1

-- The level stays in the range of the table.
abbrev pub IsLevel : ℤ → Type 0
IsLevel l = (negsuc 0 ≤ℤ l) × (l ≤ℤ pos 11)

-- A level that indexes the table of cooldowns (or -1, for none) is led to one that indexes it, at most one higher, by
-- `computeCooldown`, and the exported `ComputeCooldown` computes the same.
pub next_cooldown-IsLevel :
    (cm : CooldownManager)
    → IsLevel cm.level
    → (pos 0 ≤ℤ (next_cooldown cm).1)
      × IsLevel (next_cooldown cm).1
      × ((next_cooldown cm).1 ≤ℤ cm.level +ℤ pos 1)
      × (compute_cooldown cm.level ≡ next_cooldown cm)
unfolding next_cooldown compute_cooldown ◌+ℤ◌
next_cooldown-IsLevel cm h =
    (ground arith, (ground arith, ground arith), ground arith, ground arith)

level_of : ℕ → ℤ
level_of zero = negsuc 0
level_of (suc k) = pos (min k 11)

top_level-level_of : (k : ℕ) → top_level (level_of k +ℤ pos 1) ≡ level_of (suc k)
unfolding level_of ◌+ℤ◌
top_level-level_of zero = refl
top_level-level_of (suc k) = ground arith

level_of-zero : negsuc 0 ≡ level_of zero
unfolding level_of
level_of-zero = refl

cooled-level : (at : ℕ → ℕ) (k : ℕ) (cm : CooldownManager) → (cooled at k cm).level ≡ level_of k
unfolding enter_cooldown reset
cooled-level at zero cm = level_of-zero
cooled-level at (suc k) cm =
    ap (λ l. top_level (l +ℤ pos 1)) (cooled-level at k cm) ∙ top_level-level_of k

duration_lem :
    (k : ℕ) → duration_at (pos (min k 11)) ≡ (if ltb k 11 then 2 ^ k else 1800) * 1_000_000_000
duration_lem zero = refl
duration_lem (suc zero) = refl
duration_lem (suc (suc zero)) = refl
duration_lem (suc (suc (suc zero))) = refl
duration_lem (suc (suc (suc (suc zero)))) = refl
duration_lem (suc (suc (suc (suc (suc zero))))) = refl
duration_lem (suc (suc (suc (suc (suc (suc zero)))))) = refl
duration_lem (suc (suc (suc (suc (suc (suc (suc zero))))))) = refl
duration_lem (suc (suc (suc (suc (suc (suc (suc (suc zero)))))))) = refl
duration_lem (suc (suc (suc (suc (suc (suc (suc (suc (suc zero))))))))) = refl
duration_lem (suc (suc (suc (suc (suc (suc (suc (suc (suc (suc zero)))))))))) = refl
duration_lem (suc (suc (suc (suc (suc (suc (suc (suc (suc (suc (suc k))))))))))) = ground arith

-- After a reset the k-th cooldown in a row lasts 2^(k-1) seconds for k up to 11, and 1800 seconds for every later one.
pub cooled-last_backoff :
    (at : ℕ → ℕ) (k : ℕ) (cm : CooldownManager)
    → (cooled at (suc k) cm).last_backoff ≡ (if ltb k 11 then 2 ^ k else 1800) * 1_000_000_000
unfolding enter_cooldown reset level_of
cooled-last_backoff at k cm = ap (λ l. duration_at l) (cooled-level at (suc k) cm) ∙ duration_lem k

-- While an entered cooldown lasts the manager is in cooldown, and the remaining time is the
-- time until the reset; from then on it is not.
pub is_in_cooldown_iff :
    (entered now : ℕ) (cm : CooldownManager)
    → IsLevel cm.level
    → entered ≤ now
    → let (duration, cm') = enter_cooldown entered cm in
      (is_in_cooldown now cm' ≡ ltb now (entered + duration))
      × (get_remaining_cooldown now cm' + now
          ≡ (if ltb now (entered + duration) then entered + duration else now))
unfolding enter_cooldown is_in_cooldown get_remaining_cooldown next_cooldown
is_in_cooldown_iff entered now cm l h =
    let (low, _, _, _) = next_cooldown-IsLevel cm l in (ground (arith, low), ground (arith, low))
