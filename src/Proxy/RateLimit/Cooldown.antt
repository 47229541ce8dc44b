-- ===== src/Proxy/RateLimit/Cooldown.antt =====
-- proxy/ratelimit.go, lines 163 to 267 and 771 to 782: `cooldownManager`, the exponential cooldown.
use qoder2api.Prelude.{ℕ, ◌+◌, ◌-◌, ◌*◌, Bool, false, List, [], ◌∷◌, if◌then◌else◌, ltb, get_or}
use qoder2api.Prelude.Int.{ℤ, pos, negsuc, ◌+ℤ◌, pos_part, ltb_ℤ, leb_ℤ}

pub record CooldownManager : Type 0 where
  pub level : ℤ
  pub blocked_at : ℕ
  pub reset_at : ℕ
  pub last_backoff : ℕ

abbrev pub cooldown_durations : List ℕ
cooldown_durations =
    1 * 1_000_000_000
    ∷ 2 * 1_000_000_000
    ∷ 4 * 1_000_000_000
    ∷ 8 * 1_000_000_000
    ∷ 16 * 1_000_000_000
    ∷ 32 * 1_000_000_000
    ∷ 64 * 1_000_000_000
    ∷ 128 * 1_000_000_000
    ∷ 256 * 1_000_000_000
    ∷ 512 * 1_000_000_000
    ∷ 1024 * 1_000_000_000
    ∷ 1800 * 1_000_000_000
    ∷ []

unfoldable pub new_cooldown_manager : CooldownManager
new_cooldown_manager = record { level = negsuc 0; blocked_at = 0; reset_at = 0; last_backoff = 0 }

-- if newLevel >= len(cooldownDurations) { newLevel = len(cooldownDurations) - 1 }
abbrev pub top_level : ℤ → ℤ
top_level l = if leb_ℤ (pos 12) l then pos 11 else l

-- cooldownDurations[level], for a level in its range: out of it the code would panic.
abbrev pub duration_at : ℤ → ℕ
duration_at l = get_or cooldown_durations (pos_part l) 0

-- (cm *cooldownManager) computeCooldown
unfoldable pub next_cooldown : CooldownManager → ℕ × ℤ
unfolding ◌+ℤ◌
next_cooldown cm =
    let new_level = top_level (cm.level +ℤ pos 1) in (duration_at new_level, new_level)

-- ComputeCooldown
unfoldable pub compute_cooldown : ℤ → ℕ × ℤ
unfolding ◌+ℤ◌
compute_cooldown prev_level =
    let prev = if ltb_ℤ prev_level (pos 0) then negsuc 0 else prev_level in
    let new_level = top_level (prev +ℤ pos 1) in (duration_at new_level, new_level)

unfoldable pub enter_cooldown : ℕ → CooldownManager → ℕ × CooldownManager
unfolding next_cooldown
enter_cooldown now cm =
    let (duration, level) = next_cooldown cm in
    (
      duration,
      record {
        level = level;
        blocked_at = now;
        reset_at = now + duration;
        last_backoff = duration;
      },
    )

unfoldable pub reset : CooldownManager → CooldownManager
reset cm = record { level = negsuc 0; blocked_at = 0; reset_at = 0; last_backoff = 0 }

unfoldable pub is_in_cooldown : ℕ → CooldownManager → Bool
is_in_cooldown now cm = if ltb_ℤ cm.level (pos 0) then false else ltb now cm.reset_at

unfoldable pub get_remaining_cooldown : ℕ → CooldownManager → ℕ
get_remaining_cooldown now cm = if ltb_ℤ cm.level (pos 0) then 0 else cm.reset_at - now
