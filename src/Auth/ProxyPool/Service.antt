-- ===== src/Auth/ProxyPool/Service.antt =====
-- A choice from a valid pool is a proxy in service.
use qoder2api.Prelude.{
  ℕ, ◌≡◌, refl, sym, arith, true, false, List, [], ◌∷◌, Option, none, some, inl, inr, ◌⊎◌, ◌==◌,
  length, Bool-cases, All, ◌∙◌, subst,
}
use qoder2api.Prelude.Int.{pos, ◌≤ℤ◌}
use qoder2api.Prelude.Text.{Text, text_eq, text_eq_iff}
use qoder2api.Auth.ProxyPool.Entry.{ProxyEntry, is_usable}
use qoder2api.Auth.ProxyPool.Pool.{
  ProxyPool, ProxySelectionStrategy, strategy_round_robin, strategy_weighted,
  strategy_least_connections, find_entry, usable_urls,
}
use qoder2api.Auth.ProxyPool.Selection.{
  adjusted_conns, healthy_entries, healthy_of, select_round_robin, select_weighted,
  select_least_connections, select_by_strategy, select_with_strategy,
}
use qoder2api.Auth.ProxyPool.Entries.{AreDistinct}
use qoder2api.Auth.ProxyPool.Run.{IsValid}
use qoder2api.Auth.ProxyPool.Choices.{
  IsIn, select_least_connections-Least, select_weighted-IsIn, select_round_robin-IsIn,
}

-- The entry is the one that the list has under its URL, and it is in service.
abbrev pub InService : List ProxyEntry → ProxyEntry → Type 0
InService es e = (find_entry e.url es ≡ some e) × (is_usable e ≡ true)

-- The URL is that of a proxy in service.
abbrev NamesService : List ProxyEntry → Text → Type 0
NamesService es u = (e : ProxyEntry) × (find_entry u es ≡ some e) × (is_usable e ≡ true)

find_entry-url :
    (u : Text) (es : List ProxyEntry) (e : ProxyEntry) → find_entry u es ≡ some e → e.url ≡ u
unfolding find_entry
find_entry-url u [] e h = absurd (ground arith)
find_entry-url u (x ∷ es) e h = ground (arith, find_entry-url u es e, text_eq_iff x.url u)

-- Behind one more proxy, with a URL that the list does not have, a URL names the same proxy.
find_entry_later :
    (x : ProxyEntry) (u : Text) (es : List ProxyEntry) (e : ProxyEntry)
    → find_entry x.url es ≡ none
    → find_entry u es ≡ some e
    → find_entry u (x ∷ es) ≡ some e
unfolding find_entry
find_entry_later x u es e fresh found = elim (Bool-cases (text_eq x.url u)) [
  | inl here ↦
      let clash : find_entry u es ≡ none =
        subst (λ v. find_entry v es ≡ none) ((text_eq_iff x.url u).0 here) fresh in
      absurd (ground (arith, clash, found))
  | inr other ↦ rw other found
]

later-All :
    (x : ProxyEntry) (es : List ProxyEntry) (us : List Text)
    → find_entry x.url es ≡ none
    → All (NamesService es) us
    → All (NamesService (x ∷ es)) us
later-All x es [] fresh ps = tt
later-All x es (u ∷ us) fresh ((e, found, usable), ps) =
    ((e, find_entry_later x u es e fresh found, usable), later-All x es us fresh ps)

usable_urls-NamesService :
    (es : List ProxyEntry) → AreDistinct es → All (NamesService es) (usable_urls es)
unfolding usable_urls find_entry
usable_urls-NamesService [] d = tt
usable_urls-NamesService (e ∷ es) (fresh, d) =
    let later = later-All e es (usable_urls es) fresh (usable_urls-NamesService es d) in
    elim (Bool-cases (is_usable e)) [
      | inl usable ↦
          rw usable ((e, ground (arith, (text_eq_iff e.url e.url).1 refl), usable), later)
      | inr not_usable ↦ rw not_usable later
    ]

healthy_entries_cons :
    (u : Text) (us : List Text) (es : List ProxyEntry) (e : ProxyEntry)
    → find_entry u es ≡ some e
    → healthy_entries (u ∷ us) es ≡ e ∷ healthy_entries us es
unfolding healthy_entries
healthy_entries_cons u us es e found = rw (found, healthy_entries) refl

healthy_entries-InService :
    (us : List Text) (es : List ProxyEntry)
    → All (NamesService es) us
    → All (InService es) (healthy_entries us es)
unfolding healthy_entries
healthy_entries-InService [] es ps = tt
healthy_entries-InService (u ∷ us) es ((e, found, usable), ps) =
    let url = find_entry-url u es e found in
    subst (All (InService es)) (sym (healthy_entries_cons u us es e found)) (
      (subst (λ v. find_entry v es ≡ some e) (sym url) found, usable),
      healthy_entries-InService us es ps,
    )

pub All-IsIn :
    (P : ProxyEntry → Type 0) (e : ProxyEntry) (es : List ProxyEntry) → All P es → IsIn e es → P e
All-IsIn P e [] ps place = absurd place
All-IsIn P e (x ∷ es) (p, ps) (inl same) = subst P (sym same) p
All-IsIn P e (x ∷ es) (p, ps) (inr later) = All-IsIn P e es ps later

healthy_of-InService :
    (threshold : ℕ) (p : ProxyPool) → IsValid threshold p → All (InService p.proxies) (healthy_of p)
unfolding healthy_of
healthy_of-InService threshold p v = healthy_entries-InService p.healthy p.proxies (
    subst (All (NamesService p.proxies)) (sym v.healthy_ok)
      (usable_urls-NamesService p.proxies v.distinct))

-- What a choice gives: a proxy in service, or none, and then no proxy is in service, or all of them
-- have too many connections for the choice by least connections.
abbrev pub IsChoice : ProxyPool → ProxySelectionStrategy → Option ProxyEntry → Type 0
IsChoice p s o =
    ((e : ProxyEntry) × (o ≡ some e) × InService p.proxies e)
    ⊎ ((o ≡ none)
        × ((usable_urls p.proxies ≡ [])
            ⊎ ((s ≡ strategy_least_connections)
                × All (λ e. pos 9_223_372_036_854_775_807 ≤ℤ adjusted_conns e) (healthy_of p))))

-- A non-empty list of URLs in service points to proxies.
healthy_entries_some :
    (us : List Text) (es : List ProxyEntry)
    → All (NamesService es) us
    → (length us == 0) ≡ false
    → (e : ProxyEntry) × (rest : List ProxyEntry) × (healthy_entries us es ≡ e ∷ rest)
healthy_entries_some [] es ps full = absurd (ground (arith, full))
healthy_entries_some (u ∷ us) es ((e, found, usable), ps) full =
    (e, healthy_entries us es, healthy_entries_cons u us es e found)

nil_of_length : (us : List Text) → (length us == 0) ≡ true → us ≡ []
nil_of_length [] h = refl
nil_of_length (u ∷ us) h = absurd (ground (arith, h))

healthy_of_def : (p : ProxyPool) → healthy_of p ≡ healthy_entries p.healthy p.proxies
unfolding healthy_of
healthy_of_def p = refl

-- A choice of an entry of the list of healthy proxies.
chosen-IsChoice :
    (threshold : ℕ) (p : ProxyPool) (s : ProxySelectionStrategy) (o : Option ProxyEntry)
    → IsValid threshold p
    → (x : ProxyEntry) × (o ≡ some x) × IsIn x (healthy_of p)
    → IsChoice p s o
chosen-IsChoice threshold p s o v (x, found, place) = inl (
  x,
  found,
  All-IsIn (InService p.proxies) x (healthy_of p) (healthy_of-InService threshold p v) place,
)

select_by_strategy-IsChoice :
    (threshold : ℕ) (draw : ℕ → ℕ) (s : ProxySelectionStrategy) (p : ProxyPool) (e : ProxyEntry)
    (es : List ProxyEntry)
    → IsValid threshold p
    → healthy_of p ≡ e ∷ es
    → IsChoice p s (select_by_strategy draw s p).0
unfolding select_by_strategy
select_by_strategy-IsChoice threshold draw strategy_round_robin p e es v list =
    chosen-IsChoice threshold p strategy_round_robin
      (select_round_robin (healthy_of p) p.round_robin_idx).0 v
      (subst
        (λ l. (x : ProxyEntry) × ((select_round_robin l p.round_robin_idx).0 ≡ some x) × IsIn x l)
        (sym list) (select_round_robin-IsIn p.round_robin_idx e es))
select_by_strategy-IsChoice threshold draw strategy_weighted p e es v list =
    chosen-IsChoice threshold p strategy_weighted (select_weighted draw (healthy_of p)) v (
      subst (λ l. (x : ProxyEntry) × (select_weighted draw l ≡ some x) × IsIn x l) (sym list)
        (select_weighted-IsIn draw e es))
select_by_strategy-IsChoice threshold draw strategy_least_connections p e es v list =
    elim (select_least_connections-Least (healthy_of p)) [
      | inl (absent, full) ↦ inr (absent, inr (refl, full))
      | inr (x, found, place, below, least) ↦
          chosen-IsChoice threshold p strategy_least_connections
            (select_least_connections (healthy_of p)) v (x, found, place)
    ]

-- For a valid pool, a choice by any strategy, with any number drawn, gives a proxy that is in the
-- pool and in service. It gives none only if no proxy is in service, or, by least connections, if
-- the adjusted connections of every healthy proxy reach 2^63 - 1.
pub select_with_strategy-IsChoice :
    (threshold : ℕ) (draw : ℕ → ℕ) (s : ProxySelectionStrategy) (p : ProxyPool)
    → IsValid threshold p
    → IsChoice p s (select_with_strategy draw s p).0
unfolding select_with_strategy
select_with_strategy-IsChoice threshold draw s p v = elim (Bool-cases (length p.healthy == 0)) [
  | inl empty ↦ rw empty (inr (refl, inl (sym v.healthy_ok ∙ nil_of_length p.healthy empty)))
  | inr full ↦
      let (e, es, list) =
        healthy_entries_some p.healthy p.proxies
          (subst (All (NamesService p.proxies)) (sym v.healthy_ok)
            (usable_urls-NamesService p.proxies v.distinct))
          full in
      rw full (select_by_strategy-IsChoice threshold draw s p e es v (healthy_of_def p ∙ list))
]
