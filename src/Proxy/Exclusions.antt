-- ===== src/Proxy/Exclusions.antt =====
-- proxy/retry_exclusions.go: the accounts that a request's retries leave out, for good (hard) or for
-- the round (soft). A set is the list of its members. A nil receiver is not modelled.
pub mod Retries
use qoder2api.Prelude.{
  ℕ, zero, suc, ◌≡◌, arith, Bool, true, false, not, ◌&&◌, ◌||◌, List, [], ◌∷◌, Option, none, some,
  inl, inr, Bool-cases, Option-cases, if◌then◌else◌, ◌==◌, ==_iff, ◌⊎◌, ◌∙◌, sym, subst,
}

pub record RetryAccountExclusions : Type 0 where
  pub hard : List ℕ
  pub soft : List ℕ

abbrev pub member : ℕ → List ℕ → Bool
member id [] = false
member id (x ∷ xs) = id == x || member id xs

abbrev pub without : ℕ → List ℕ → List ℕ
without id [] = []
without id (x ∷ xs) = if id == x then without id xs else x ∷ without id xs

unfoldable pub new_retry_account_exclusions : RetryAccountExclusions
new_retry_account_exclusions = record { hard = []; soft = [] }

unfoldable pub mark_hard : ℕ → RetryAccountExclusions → RetryAccountExclusions
mark_hard id r = if id == 0 then r else record { hard = id ∷ r.hard; soft = without id r.soft }

unfoldable pub mark_soft_first_token_timeout : ℕ → RetryAccountExclusions → RetryAccountExclusions
mark_soft_first_token_timeout id r =
    if id == 0 then r else if member id r.hard then r else record r { soft = id ∷ r.soft }

unfoldable pub reset_soft : RetryAccountExclusions → Bool × RetryAccountExclusions
reset_soft r = elim r.soft [ [] ↦ (false, r) | x ∷ xs ↦ (true, record r { soft = [] }) ]

-- The set as a test: a nil map has no member.
unfoldable pub for_selection : RetryAccountExclusions → ℕ → Bool
for_selection r id = member id r.hard || member id r.soft

-- No account is excluded both for good and for the round.
abbrev pub AreDisjoint : RetryAccountExclusions → Type 0
AreDisjoint r = (id : ℕ) → (member id r.hard && member id r.soft) ≡ false

member-without :
    (id j : ℕ) (xs : List ℕ) → member j (without id xs) ≡ (not (id == j) && member j xs)
member-without id j [] = ground arith
member-without id j (x ∷ xs) =
    ground (arith, member-without id j xs, ==_iff id j, ==_iff id x, ==_iff j x)

-- Both ways to exclude an account keep the sets disjoint, and so does a reset.
pub mark_hard-AreDisjoint :
    (id : ℕ) (r : RetryAccountExclusions)
    → AreDisjoint r
    → AreDisjoint (mark_hard id r)
      × AreDisjoint (mark_soft_first_token_timeout id r)
      × AreDisjoint (reset_soft r).1
unfolding mark_hard mark_soft_first_token_timeout reset_soft
mark_hard-AreDisjoint id r d = (
  λ j. ground (arith, d j, member-without id j r.soft, ==_iff j id, ==_iff id j),
  λ j. ground (arith, d j, ==_iff j id),
  λ j. ground (arith, d j),
)

-- After an account other than 0 was excluded for good, exactly it and the accounts that were
-- excluded before are; a timeout excludes it for the round.
pub for_selection-mark :
    (id j : ℕ) (r : RetryAccountExclusions)
    → (id == 0) ≡ false
    → (for_selection (mark_hard id r) j ≡ (j == id || for_selection r j))
      × (for_selection (mark_soft_first_token_timeout id r) j ≡ (j == id || for_selection r j))
unfolding for_selection mark_hard mark_soft_first_token_timeout
for_selection-mark id j r real = (
  ground (arith, member-without id j r.soft, ==_iff j id, ==_iff id j),
  ground (arith, ==_iff j id),
)

pub reset_soft-hard : (r : RetryAccountExclusions) → (reset_soft r).1.hard ≡ r.hard
unfolding reset_soft
reset_soft-hard r = ground arith

pub reset_soft-soft : (r : RetryAccountExclusions) → (reset_soft (reset_soft r).1).0 ≡ false
unfolding reset_soft
reset_soft-soft r = ground arith
