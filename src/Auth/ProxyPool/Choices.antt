-- ===== src/Auth/ProxyPool/Choices.antt =====
-- What a choice of a proxy gives: a proxy in service, with the fewest adjusted connections where
-- the strategy asks for it.
use qoder2api.Prelude.{
  ℕ, zero, suc, ◌+◌, ◌%◌, ◌<◌, ◌≡◌, refl, arith, ◌&&◌, ◌||◌, List, [], ◌∷◌, Option, none, some,
  true, leb, ltb, ◌==◌, ap, All, inl, inr, ◌⊎◌, Bool-cases, length, get_elem?,
}
use qoder2api.Prelude.Int.{ℤ, pos, ltb_ℤ, ◌≤ℤ◌}
use qoder2api.Auth.ProxyPool.Entry.{ProxyEntry}
use qoder2api.Auth.ProxyPool.Selection.{
  two_64, two_63, adjusted_conns, least_from, select_least_connections, select_round_robin,
  weight_of, weighted_from, select_weighted, total_weight,
}

-- The entry stands in the list.
abbrev pub IsIn : ProxyEntry → List ProxyEntry → Type 0
IsIn e [] = ⊥
IsIn e (x ∷ es) = (e ≡ x) ⊎ IsIn e es

-- The loop ends with an entry of the list that is not above any, or keeps what it has.
least_from-Least :
    (best : Option ProxyEntry) (m : ℤ) (es : List ProxyEntry)
    → ((least_from best m es ≡ best) × All (λ e. m ≤ℤ adjusted_conns e) es)
      ⊎ ((e : ProxyEntry) × (least_from best m es ≡ some e)
          × IsIn e es
          × (ltb_ℤ (adjusted_conns e) m ≡ true)
          × All (λ x. adjusted_conns e ≤ℤ adjusted_conns x) es)
unfolding least_from
least_from-Least best m [] = inl (refl, tt)
least_from-Least best m (x ∷ es) = elim (Bool-cases (ltb_ℤ (adjusted_conns x) m)) [
  | inl better ↦ rw better (elim (least_from-Least (some x) (adjusted_conns x) es) [
    | inl (stays, above) ↦ inr (x, stays, inl refl, ground arith, (ground arith, above))
    | inr (e, found, place, below, least) ↦
        inr (e, found, inr place, ground arith, (ground arith, least))
  ])
  | inr same ↦ rw same (elim (least_from-Least best m es) [
    | inl (stays, above) ↦ inl (stays, (ground arith, above))
    | inr (e, found, place, below, least) ↦ inr (e, found, inr place, below, (ground arith, least))
  ])
]

-- Where some proxy of the list has adjusted connections below 2^63 - 1, the choice by least
-- connections falls on a proxy of the list, and none in the list has fewer adjusted connections;
-- else it gives no proxy.
pub select_least_connections-Least :
    (es : List ProxyEntry)
    → ((select_least_connections es ≡ none)
        × All (λ e. pos 9_223_372_036_854_775_807 ≤ℤ adjusted_conns e) es)
      ⊎ ((e : ProxyEntry) × (select_least_connections es ≡ some e)
          × IsIn e es
          × (ltb_ℤ (adjusted_conns e) (pos 9_223_372_036_854_775_807) ≡ true)
          × All (λ x. adjusted_conns e ≤ℤ adjusted_conns x) es)
unfolding select_least_connections
select_least_connections-Least es = least_from-Least none (pos 9_223_372_036_854_775_807) es

weighted_from-IsIn :
    (r current : ℕ) (last : ProxyEntry) (es : List ProxyEntry)
    → (x : ProxyEntry) × (weighted_from r current last es ≡ x) × ((x ≡ last) ⊎ IsIn x es)
unfolding weighted_from
weighted_from-IsIn r current last [] = (last, refl, inl refl)
weighted_from-IsIn r current last (e ∷ es) =
    let sum = (current + weight_of e) % two_64 in
    elim (Bool-cases (ltb sum two_63 && ltb r sum)) [
      | inl here ↦ rw here (e, refl, inr (inl refl))
      | inr later ↦
          let (x, found, place) = weighted_from-IsIn r sum e es in rw later (x, found, inr place)
    ]

pub select_weighted-IsIn :
    (draw : ℕ → ℕ) (e : ProxyEntry) (es : List ProxyEntry)
    → (x : ProxyEntry) × (select_weighted draw (e ∷ es) ≡ some x) × IsIn x (e ∷ es)
unfolding select_weighted
select_weighted-IsIn draw e es =
    let total = total_weight 0 (e ∷ es) in
    elim (Bool-cases (total == 0 || leb two_63 total)) [
      | inl over ↦ rw over (e, refl, inl refl)
      | inr fits ↦
          let (x, found, place) = weighted_from-IsIn (draw total) 0 e (e ∷ es) in
          rw fits (x, ap some found, elim place [ inl last ↦ inl last | inr there ↦ there ])
    ]

get_elem?-IsIn :
    (es : List ProxyEntry) (i : ℕ)
    → i < length es
    → (x : ProxyEntry) × (get_elem? es i ≡ some x) × IsIn x es
get_elem?-IsIn [] i below = absurd (omega arith)
get_elem?-IsIn (e ∷ es) zero below = (e, refl, inl refl)
get_elem?-IsIn (e ∷ es) (suc i) below =
    let (x, found, place) = get_elem?-IsIn es i (omega arith) in (x, found, inr place)

pub select_round_robin-IsIn :
    (idx : ℕ) (e : ProxyEntry) (es : List ProxyEntry)
    → (x : ProxyEntry) × ((select_round_robin (e ∷ es) idx).0 ≡ some x) × IsIn x (e ∷ es)
unfolding select_round_robin
select_round_robin-IsIn idx e es =
    get_elem?-IsIn (e ∷ es) ((idx + 1) % two_64 % length (e ∷ es)) (omega arith)
