-- ===== src/Auth/ProxyPool/Turns.antt =====
-- The turns of the round robin go around the list of healthy proxies.
use qoder2api.Prelude.{
  ℕ, zero, suc, ◌+◌, ◌%◌, ◌<◌, ◌≡◌, refl, arith, Bool, List, [], ◌∷◌, if◌then◌else◌, ◌∙◌, ap,
  length, get_elem?,
}
use native.Mathlib.Nat.{add-mod_right, mod-eq_of_lt}
use qoder2api.Auth.ProxyPool.Entry.{ProxyEntry}
use qoder2api.Auth.ProxyPool.Selection.{two_64, select_round_robin}
use qoder2api.Auth.ProxyPool.Weights.{count, chosen, count-append, count_below}

-- Of `k` choices in a row, how many fall on a proxy that passes the test.
unfoldable pub turns_for : (ProxyEntry → Bool) → List ProxyEntry → ℕ → ℕ → ℕ
unfolding select_round_robin chosen
turns_for t es idx zero = 0
turns_for t es idx (suc k) =
    (if chosen t (select_round_robin es idx).0 then 1 else 0)
    + turns_for t es (select_round_robin es idx).1 k

unfoldable pub count_of : (ProxyEntry → Bool) → List ProxyEntry → ℕ
count_of t [] = 0
count_of t (e ∷ es) = (if t e then 1 else 0) + count_of t es

count_last :
    (p : ℕ → Bool) (from n : ℕ)
    → count p from (suc n) ≡ count p from n + (if p (from + n) then 1 else 0)
unfolding count
count_last p from n =
    let one_on : suc n ≡ n + 1 = omega arith in
    omega (arith, ap (count p from) one_on, count-append p from n 1)

count_shift : (p : ℕ → Bool) (from n : ℕ) → count p (suc from) n ≡ count (λ c. p (suc c)) from n
unfolding count
count_shift p from zero = refl
count_shift p from (suc n) =
    ap (λ k. (if p (suc from) then 1 else 0) + k) (count_shift p (suc from) n)

-- A window of the length of the period counts the same from everywhere.
count_periodic :
    (p : ℕ → Bool) (n : ℕ) → ((c : ℕ) → p (c + n) ≡ p c) → (from : ℕ) → count p from n ≡ count p 0 n
unfolding count
count_periodic p n same zero = refl
count_periodic p n same (suc from) =
    grind (arith, count_last p from n, same from, count_periodic p n same from)

module _ (t : ProxyEntry → Bool) where
  count-get_elem? :
      (es : List ProxyEntry) → count (λ c. chosen t (get_elem? es c)) 0 (length es) ≡ count_of t es
  unfolding count count_of chosen
  count-get_elem? [] = refl
  count-get_elem? (e ∷ es) =
      ap (λ k. (if t e then 1 else 0) + k)
        (count_shift (λ c. chosen t (get_elem? (e ∷ es) c)) 0 (length es) ∙ count-get_elem? es)

  turns_for-count :
      (e : ProxyEntry) (es : List ProxyEntry) (idx k : ℕ)
      → idx + k < two_64
      → turns_for t (e ∷ es) idx k
        ≡ count (λ c. chosen t (get_elem? (e ∷ es) (c % length (e ∷ es)))) (suc idx) k
  unfolding turns_for select_round_robin count
  turns_for-count e es idx zero small = refl
  turns_for-count e es idx (suc k) small =
      let next : (idx + 1) % two_64 ≡ suc idx = omega arith in
      rw next (
        ap (λ m. (if chosen t (get_elem? (e ∷ es) (suc idx % length (e ∷ es))) then 1 else 0) + m)
          (turns_for-count e es (suc idx) k (omega arith)))

  -- While the counter does not wrap around, as many choices in a row as the list is long fall on
  -- the proxies that pass a test as often as the list has such proxies: each has one turn.
  pub turns_for-length :
      (es : List ProxyEntry) (idx : ℕ)
      → idx + length es < two_64
      → turns_for t es idx (length es) ≡ count_of t es
  unfolding turns_for count_of
  turns_for-length [] idx small = refl
  turns_for-length (e ∷ es) idx small =
      let n = length (e ∷ es) in
      turns_for-count e es idx n small
      ∙ (count_periodic (λ c. chosen t (get_elem? (e ∷ es) (c % n))) n
            (λ c. ap (λ i. chosen t (get_elem? (e ∷ es) i)) (add-mod_right c n)) (suc idx)
          ∙ (count_below (λ c. chosen t (get_elem? (e ∷ es) (c % n)))
                (λ c. chosen t (get_elem? (e ∷ es) c)) 0 n
                (λ c low high.
                  ap (λ i. chosen t (get_elem? (e ∷ es) i)) (mod-eq_of_lt (omega arith)))
              ∙ count-get_elem? (e ∷ es)))
