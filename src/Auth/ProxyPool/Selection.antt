-- ===== src/Auth/ProxyPool/Selection.antt =====
-- auth/proxy_pool.go: the choice of a healthy proxy. The counter of the turns and the sums of
-- weights wrap around at 64 bits. The number that is drawn is a parameter, for the random source.
use qoder2api.Prelude.{
  ℕ, ◌+◌, ◌*◌, ◌/◌, ◌%◌, ◌&&◌, ◌||◌, List, [], ◌∷◌, Option, none, some, if◌then◌else◌, leb, ltb,
  ◌==◌, length, get_elem?,
}
use qoder2api.Prelude.Int.{ℤ, pos, negsuc, ltb_ℤ}
use qoder2api.Prelude.Text.{Text}
use qoder2api.Auth.ProxyPool.Entry.{ProxyEntry}
use qoder2api.Auth.ProxyPool.Pool.{
  ProxyPool, ProxySelectionStrategy, strategy_round_robin, strategy_weighted,
  strategy_least_connections, find_entry,
}

abbrev pub two_64 : ℕ
two_64 = 18_446_744_073_709_551_616

abbrev pub two_63 : ℕ
two_63 = 9_223_372_036_854_775_808

-- The entries that the URLs of the healthy list point to.
unfoldable pub healthy_entries : List Text → List ProxyEntry → List ProxyEntry
unfolding find_entry
healthy_entries [] es = []
healthy_entries (u ∷ us) es =
    let rest = healthy_entries us es in elim (find_entry u es) [ none ↦ rest | some e ↦ e ∷ rest ]

unfoldable pub healthy_of : ProxyPool → List ProxyEntry
unfolding healthy_entries
healthy_of p = healthy_entries p.healthy p.proxies

-- The entry, and the counter after its increment.
unfoldable pub select_round_robin : List ProxyEntry → ℕ → Option ProxyEntry × ℕ
select_round_robin [] idx = (none, idx)
select_round_robin (e ∷ es) idx =
    let next = (idx + 1) % two_64 in (get_elem? (e ∷ es) (next % length (e ∷ es)), next)

-- A weight of 0 or less counts as 1.
unfoldable pub weight_of : ProxyEntry → ℕ
weight_of e = elim e.weight [ pos n ↦ if n == 0 then 1 else n | negsuc n ↦ 1 ]

-- The sum in 64 bits, from `sum` on.
unfoldable pub total_weight : ℕ → List ProxyEntry → ℕ
unfolding weight_of
total_weight sum [] = sum
total_weight sum (e ∷ es) = total_weight ((sum + weight_of e) % two_64) es

-- The last loop: the first entry whose sum of weights, as a signed number, is above `r`; else
-- `last`.
unfoldable pub weighted_from : ℕ → ℕ → ProxyEntry → List ProxyEntry → ProxyEntry
unfolding weight_of
weighted_from r current last [] = last
weighted_from r current last (e ∷ es) =
    let sum = (current + weight_of e) % two_64 in
    let rest = weighted_from r sum e es in if ltb sum two_63 && ltb r sum then e else rest

-- `draw n` is rand.Int63n(n).
unfoldable pub select_weighted : (ℕ → ℕ) → List ProxyEntry → Option ProxyEntry
unfolding total_weight weighted_from
select_weighted draw [] = none
select_weighted draw (e ∷ es) =
    let total = total_weight 0 (e ∷ es) in
    if total == 0 || leb two_63 total
    then some e
    else some (weighted_from (draw total) 0 e (e ∷ es))

-- float64(conns) / successRate, with a rate of 0 taken as 0.1, rounded down; exact where the code rounds
-- a float.
unfoldable pub conns_by_rate : ProxyEntry → ℕ
conns_by_rate e =
    if e.success_rate.num == 0
    then e.active_conns * 10
    else e.active_conns * e.success_rate.den / e.success_rate.num

-- int64 of that: a quotient that is out of range becomes the least number, as on amd64.
unfoldable pub adjusted_conns : ProxyEntry → ℤ
unfolding conns_by_rate
adjusted_conns e =
    let q = conns_by_rate e in if ltb q two_63 then pos q else negsuc 9_223_372_036_854_775_807

-- The loop, from the best entry and its number so far.
unfoldable pub least_from : Option ProxyEntry → ℤ → List ProxyEntry → Option ProxyEntry
unfolding adjusted_conns
least_from best min_conns [] = best
least_from best min_conns (e ∷ es) =
    let better = least_from (some e) (adjusted_conns e) es in
    let same = least_from best min_conns es in
    if ltb_ℤ (adjusted_conns e) min_conns then better else same

-- From math.MaxInt64 on.
unfoldable pub select_least_connections : List ProxyEntry → Option ProxyEntry
unfolding least_from
select_least_connections es = least_from none (pos 9_223_372_036_854_775_807) es

unfoldable pub select_by_strategy :
    (ℕ → ℕ) → ProxySelectionStrategy → ProxyPool → Option ProxyEntry × ProxyPool
unfolding select_round_robin select_weighted select_least_connections healthy_of
select_by_strategy draw strategy_round_robin p =
    let (chosen, idx) = select_round_robin (healthy_of p) p.round_robin_idx in
    (chosen, record p { round_robin_idx = idx })
select_by_strategy draw strategy_weighted p = (select_weighted draw (healthy_of p), p)
select_by_strategy draw strategy_least_connections p = (select_least_connections (healthy_of p), p)

unfoldable pub select_with_strategy :
    (ℕ → ℕ) → ProxySelectionStrategy → ProxyPool → Option ProxyEntry × ProxyPool
unfolding select_by_strategy
select_with_strategy draw s p =
    if length p.healthy == 0 then (none, p) else select_by_strategy draw s p

unfoldable pub select : (ℕ → ℕ) → ProxyPool → Option ProxyEntry × ProxyPool
unfolding select_with_strategy
select draw p = select_with_strategy draw p.strategy p
