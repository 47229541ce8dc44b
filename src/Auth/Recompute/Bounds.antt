-- ===== src/Auth/Recompute/Bounds.antt =====
-- How large a concurrency limit can be.
use qoder2api.Prelude.{ℕ, ◌≤◌, ◌≡◌, arith, if◌then◌else◌}
use qoder2api.Auth.Account.{Account, healthy, warm, risky, banned}
use qoder2api.Auth.Usage.{premium5h_rate_limited}
use qoder2api.Auth.Score.{concurrency_limit_for_tier, effective_base_concurrency}
use qoder2api.Auth.Recompute.{limit_of}

effective_base_concurrency-pos : (base : ℕ) (a : Account) → 1 ≤ effective_base_concurrency base a
unfolding effective_base_concurrency
effective_base_concurrency-pos base a = ground arith

-- A banned account has the limit 0 and a risky one at least 1; a warm one has at least the limit
-- of a risky one and a healthy one at least that of a warm one, but none more than the account's
-- base limit, or than 1 while its premium window is used up.
pub limit_of-bounds :
    (base now : ℕ) (a : Account)
    → let base' = effective_base_concurrency base a in
      (limit_of base now banned a ≡ 0)
      × (1 ≤ limit_of base now risky a)
      × (limit_of base now risky a ≤ limit_of base now warm a)
      × (limit_of base now warm a ≤ limit_of base now healthy a)
      × (limit_of base now healthy a ≤ (if premium5h_rate_limited now a then 1 else base'))
unfolding limit_of concurrency_limit_for_tier
limit_of-bounds base now a =
    let one = effective_base_concurrency-pos base a in
    (ground arith, ground arith, ground arith, ground arith, ground (arith, one))
