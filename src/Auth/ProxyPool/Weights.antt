-- ===== src/Auth/ProxyPool/Weights.antt =====
-- The weighted choice gives every proxy its share of the numbers that can be drawn.
use qoder2api.Prelude.{
  ℕ, zero, suc, ◌+◌, ◌%◌, ◌≤◌, ◌<◌, ◌≡◌, refl, arith, Bool, false, List, [], ◌∷◌, Option, none,
  some, if◌then◌else◌, ◌==◌, ap, ◌∙◌,
}
use qoder2api.Prelude.Int.{ℤ, pos, negsuc}
use qoder2api.Auth.ProxyPool.Entry.{ProxyEntry}
use qoder2api.Auth.ProxyPool.Selection.{
  two_64, two_63, weight_of, total_weight, weighted_from, select_weighted,
}

-- How many of the `n` numbers from `from` on pass the test.
unfoldable pub count : (ℕ → Bool) → ℕ → ℕ → ℕ
count p from zero = 0
count p from (suc n) = (if p from then 1 else 0) + count p (suc from) n

-- The sum of the weights, of any size.
unfoldable pub sum_weights : List ProxyEntry → ℕ
unfolding weight_of
sum_weights [] = 0
sum_weights (e ∷ es) = weight_of e + sum_weights es

-- The sum of the weights of the entries that pass the test.
unfoldable pub sum_weights_of : (ProxyEntry → Bool) → List ProxyEntry → ℕ
unfolding weight_of
sum_weights_of t [] = 0
sum_weights_of t (e ∷ es) = (if t e then weight_of e else 0) + sum_weights_of t es

-- Whether the answer passes the test.
unfoldable pub chosen : (ProxyEntry → Bool) → Option ProxyEntry → Bool
chosen t none = false
chosen t (some e) = t e

pub count-append :
    (p : ℕ → Bool) (from m n : ℕ) → count p from (m + n) ≡ count p from m + count p (from + m) n
unfolding count
count-append p from zero n =
    let none_yet : from + 0 ≡ from = omega arith in
    let all_left : 0 + n ≡ n = omega arith in
    omega (arith, ap (λ k. count p k n) none_yet, ap (count p from) all_left)
count-append p from (suc m) n =
    let shift : suc from + m ≡ from + suc m = omega arith in
    let one_on : suc m + n ≡ suc (m + n) = omega arith in
    omega
      (arith, count-append p (suc from) m n, ap (λ k. count p k n) shift, ap (count p from) one_on)

-- A test that is the same on all the numbers counts all or none.
count_const :
    (p : ℕ → Bool) (b : Bool) (from n : ℕ)
    → ((k : ℕ) → from ≤ k → k < from + n → p k ≡ b)
    → count p from n ≡ (if b then n else 0)
unfolding count
count_const p b from zero same = ground arith
count_const p b from (suc n) same = ground (
  arith,
  same from (omega arith) (omega arith),
  count_const p b (suc from) n (λ k low high. same k (omega arith) (omega arith)),
)

pub count_below :
    (p q : ℕ → Bool) (from n : ℕ)
    → ((k : ℕ) → from ≤ k → k < from + n → p k ≡ q k)
    → count p from n ≡ count q from n
unfolding count
count_below p q from zero same = refl
count_below p q from (suc n) same = ground (
  arith,
  same from (omega arith) (omega arith),
  count_below p q (suc from) n (λ k low high. same k (omega arith) (omega arith)),
)

count_ext :
    (p q : ℕ → Bool) (from n : ℕ)
    → ((k : ℕ) → from ≤ k → p k ≡ q k)
    → count p from n ≡ count q from n
count_ext p q from n same = count_below p q from n (λ k low high. same k low)

weighted_from_here :
    (r current : ℕ) (last e : ProxyEntry) (es : List ProxyEntry)
    → (current + weight_of e) % two_64 ≡ current + weight_of e
    → current + weight_of e < two_63
    → r < current + weight_of e
    → weighted_from r current last (e ∷ es) ≡ e
unfolding weighted_from
weighted_from_here r current last e es fits small high = rw fits (ground arith)

weighted_from_later :
    (r current : ℕ) (last e : ProxyEntry) (es : List ProxyEntry)
    → (current + weight_of e) % two_64 ≡ current + weight_of e
    → current + weight_of e ≤ r
    → weighted_from r current last (e ∷ es) ≡ weighted_from r (current + weight_of e) e es
unfolding weighted_from
weighted_from_later r current last e es fits low = rw fits (ground arith)

weight_cases : (w : ℤ) → 1 ≤ (elim w as (λ v. ℕ) [ pos n ↦ if n == 0 then 1 else n | negsuc n ↦ 1 ])
weight_cases (pos n) = ground arith
weight_cases (negsuc n) = omega arith

total_weight_small :
    (sum : ℕ) (es : List ProxyEntry)
    → sum + sum_weights es < two_63
    → total_weight sum es ≡ sum + sum_weights es
unfolding total_weight sum_weights
total_weight_small sum [] small = omega arith
total_weight_small sum (e ∷ es) small =
    let fits : (sum + weight_of e) % two_64 ≡ sum + weight_of e = omega arith in
    ap (λ s. total_weight s es) fits
    ∙ (total_weight_small (sum + weight_of e) es (omega arith) ∙ omega arith)

module _ (t : ProxyEntry → Bool) where
  count-weighted_from :
      (current : ℕ) (last : ProxyEntry) (es : List ProxyEntry)
      → current + sum_weights es < two_63
      → count (λ r. t (weighted_from r current last es)) current (sum_weights es)
        ≡ sum_weights_of t es
  unfolding weighted_from sum_weights sum_weights_of count
  count-weighted_from current last [] small = refl
  count-weighted_from current last (e ∷ es) small =
      let fits : (current + weight_of e) % two_64 ≡ current + weight_of e = omega arith in
      let p = λ (r : ℕ). t (weighted_from r current last (e ∷ es)) in
      let here =
        count_const p (t e) current (weight_of e)
          (λ r low high. ap t (weighted_from_here r current last e es fits (omega arith) high)) in
      let later =
        count_ext p (λ r. t (weighted_from r (current + weight_of e) e es)) (current + weight_of e)
          (sum_weights es) (λ r low. ap t (weighted_from_later r current last e es fits low)) in
      omega (
        arith,
        count-append p current (weight_of e) (sum_weights es),
        here,
        later,
        count-weighted_from (current + weight_of e) e es (omega arith),
      )

weight_of_pos : (e : ProxyEntry) → 1 ≤ weight_of e
unfolding weight_of
weight_of_pos e = weight_cases e.weight

sum_weights_pos : (e : ProxyEntry) (es : List ProxyEntry) → 1 ≤ sum_weights (e ∷ es)
unfolding sum_weights
sum_weights_pos e es = omega (arith, weight_of_pos e)

select_weighted_small :
    (draw : ℕ → ℕ) (e : ProxyEntry) (es : List ProxyEntry)
    → sum_weights (e ∷ es) < two_63
    → select_weighted draw (e ∷ es)
      ≡ some (weighted_from (draw (sum_weights (e ∷ es))) 0 e (e ∷ es))
unfolding select_weighted
select_weighted_small draw e es small =
    let total : total_weight 0 (e ∷ es) ≡ sum_weights (e ∷ es) =
      total_weight_small 0 (e ∷ es) (omega arith) ∙ omega arith in
    ground (arith, total, sum_weights_pos e es, ap (λ k. weighted_from (draw k) 0 e (e ∷ es)) total)

-- If the weights sum up to less than 2^63, and the random source with the seed `r` draws `r` when
-- it is asked for a number below the sum (whatever it draws for other bounds), then of the seeds
-- below the sum, as many make the choice fall on the proxies that pass a test as these proxies have
-- weight, a weight of 0 or less counting as 1.
pub count-select_weighted :
    (t : ProxyEntry → Bool) (es : List ProxyEntry) (draw : ℕ → ℕ → ℕ)
    → sum_weights es < two_63
    → ((r : ℕ) → r < sum_weights es → draw r (sum_weights es) ≡ r)
    → count (λ r. chosen t (select_weighted (draw r) es)) 0 (sum_weights es) ≡ sum_weights_of t es
unfolding select_weighted chosen sum_weights_of count sum_weights
count-select_weighted t [] draw small draws = refl
count-select_weighted t (e ∷ es) draw small draws =
    count_below (λ r. chosen t (select_weighted (draw r) (e ∷ es)))
      (λ r. t (weighted_from r 0 e (e ∷ es))) 0 (sum_weights (e ∷ es))
      (λ r low high.
        ap (chosen t) (select_weighted_small (draw r) e es small)
        ∙ ap (λ k. t (weighted_from k 0 e (e ∷ es))) (draws r (omega (arith, high))))
    ∙ count-weighted_from t 0 e (e ∷ es) (omega arith)
