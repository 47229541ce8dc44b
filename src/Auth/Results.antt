-- ===== src/Auth/Results.antt =====
-- auth/store.go, lines 607 to 618: the window of the last results, a ring of zeros and ones.
use qoder2api.Prelude.{
  ℕ, zero, suc, ◌+◌, ◌%◌, ◌≤◌, ◌<◌, ◌≡◌, refl, arith, Bool, List, [], ◌∷◌, if◌then◌else◌, ltb,
  length, All,
}
use qoder2api.Auth.Account.{Account}
use qoder2api.Auth.Score.{sum_first}

-- RecentResults[i] = v
unfoldable pub set_at : ℕ → ℕ → List ℕ → List ℕ
set_at i v [] = []
set_at zero v (x ∷ xs) = v ∷ xs
set_at (suc i) v (x ∷ xs) = x ∷ set_at i v xs

unfoldable pub record_result : Bool → Account → Account
unfolding set_at
record_result success a =
    let n = length a.recent_results in
    record a {
      recent_results = set_at a.recent_results_idx (if success then 1 else 0) a.recent_results;
      recent_results_idx = (a.recent_results_idx + 1) % n;
      recent_results_cnt =
          if ltb a.recent_results_cnt n then a.recent_results_cnt + 1 else a.recent_results_cnt;
    }

abbrev pub AreBits : List ℕ → Type 0
AreBits xs = All (λ x. x ≤ 1) xs

-- The next place is in the ring, no more results are counted than it holds, and each is 0 or 1.
pub record IsWindow (a : Account) : Type 0 where
  pub place_ok : a.recent_results_idx < length a.recent_results
  pub count_ok : a.recent_results_cnt ≤ length a.recent_results
  pub bits : AreBits a.recent_results

length-set_at : (i v : ℕ) (xs : List ℕ) → length (set_at i v xs) ≡ length xs
unfolding set_at
length-set_at i v [] = refl
length-set_at zero v (x ∷ xs) = refl
length-set_at (suc i) v (x ∷ xs) = omega (arith, length-set_at i v xs)

set_at-AreBits : (i v : ℕ) (xs : List ℕ) → v ≤ 1 → AreBits xs → AreBits (set_at i v xs)
unfolding set_at
set_at-AreBits i v [] h b = tt
set_at-AreBits zero v (x ∷ xs) h (b, bs) = (h, bs)
set_at-AreBits (suc i) v (x ∷ xs) h (b, bs) = (b, set_at-AreBits i v xs h bs)

sum_first-bound : (n : ℕ) (xs : List ℕ) → AreBits xs → sum_first n xs ≤ n
unfolding sum_first
sum_first-bound zero xs b = omega arith
sum_first-bound (suc n) [] b = omega arith
sum_first-bound (suc n) (x ∷ xs) (b, bs) = omega (arith, b, sum_first-bound n xs bs)

bit : (b : Bool) → (if b then 1 else 0) ≤ 1
bit b = ground arith

-- Recording a result keeps the window well formed, and the successes that the success rate counts
-- are at most the results that it counts.
pub record_result-IsWindow :
    (success : Bool) (a : Account)
    → IsWindow a
    → IsWindow (record_result success a)
      × (sum_first
            (record_result success a).recent_results_cnt
            (record_result success a).recent_results
          ≤ (record_result success a).recent_results_cnt)
unfolding record_result
record_result-IsWindow success a v =
    let bits' =
      set_at-AreBits a.recent_results_idx (if success then 1 else 0) a.recent_results (bit success)
        v.bits in
    let len = length-set_at a.recent_results_idx (if success then 1 else 0) a.recent_results in
    (
      record {
        place_ok = ground (arith, len, v.place_ok);
        count_ok = ground (arith, len, v.count_ok);
        bits = bits';
      },
      sum_first-bound _ _ bits',
    )
