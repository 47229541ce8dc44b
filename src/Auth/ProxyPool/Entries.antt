-- ===== src/Auth/ProxyPool/Entries.antt =====
-- Lists of proxies with distinct URLs, and what the changes of one entry keep.
use qoder2api.Prelude.{
  ◌≡◌, refl, arith, true, false, List, [], ◌∷◌, ◌++◌, map, none, inl, inr, Bool-cases, All, ap,
}
use qoder2api.Prelude.Text.{Text, text_eq, text_eq_iff}
use qoder2api.Auth.ProxyPool.Entry.{ProxyEntry}
use qoder2api.Auth.ProxyPool.Pool.{find_entry, change_entry, drop_entry}

abbrev pub AreDistinct : List ProxyEntry → Type 0
AreDistinct [] = Unit
AreDistinct (e ∷ es) = (find_entry e.url es ≡ none) × AreDistinct es

pub find_same :
    (u v : Text) (es : List ProxyEntry) → text_eq u v ≡ true → find_entry u es ≡ find_entry v es
find_same u v es h = ap (λ w. find_entry w es) ((text_eq_iff u v).0 h)

module _ (f : ProxyEntry → ProxyEntry) (same_url : (e : ProxyEntry) → (f e).url ≡ e.url) where
  pub find_entry-change_entry :
      (u v : Text) (es : List ProxyEntry)
      → find_entry u es ≡ none
      → find_entry u (change_entry f v es) ≡ none
  unfolding find_entry change_entry
  find_entry-change_entry u v [] h = refl
  find_entry-change_entry u v (e ∷ es) h =
      ground (arith, find_entry-change_entry u v es, same_url e)

  pub change_entry-AreDistinct :
      (v : Text) (es : List ProxyEntry) → AreDistinct es → AreDistinct (change_entry f v es)
  unfolding change_entry
  change_entry-AreDistinct v [] d = tt
  change_entry-AreDistinct v (e ∷ es) (fresh, d) = elim (Bool-cases (text_eq e.url v)) [
    | inl here ↦ rw (here, same_url e) (fresh, d)
    | inr other ↦
        rw other (find_entry-change_entry e.url v es fresh, change_entry-AreDistinct v es d)
  ]

  pub find_entry-map :
      (u : Text) (es : List ProxyEntry) → find_entry u es ≡ none → find_entry u (map f es) ≡ none
  unfolding find_entry
  find_entry-map u [] h = refl
  find_entry-map u (e ∷ es) h = ground (arith, find_entry-map u es, same_url e)

  pub map-AreDistinct : (es : List ProxyEntry) → AreDistinct es → AreDistinct (map f es)
  map-AreDistinct [] d = tt
  map-AreDistinct (e ∷ es) (fresh, d) =
      (rw (same_url e) (find_entry-map e.url es fresh), map-AreDistinct es d)

pub find_entry-drop_entry :
    (u v : Text) (es : List ProxyEntry)
    → find_entry u es ≡ none
    → find_entry u (drop_entry v es) ≡ none
unfolding find_entry drop_entry
find_entry-drop_entry u v [] h = refl
find_entry-drop_entry u v (e ∷ es) h = ground (arith, find_entry-drop_entry u v es)

pub drop_entry-AreDistinct :
    (v : Text) (es : List ProxyEntry) → AreDistinct es → AreDistinct (drop_entry v es)
unfolding drop_entry
drop_entry-AreDistinct v [] d = tt
drop_entry-AreDistinct v (e ∷ es) (fresh, d) = elim (Bool-cases (text_eq e.url v)) [
  | inl here ↦ rw here d
  | inr other ↦ rw other (find_entry-drop_entry e.url v es fresh, drop_entry-AreDistinct v es d)
]

pub find_entry-append :
    (u : Text) (es : List ProxyEntry) (e : ProxyEntry)
    → find_entry u es ≡ none
    → text_eq e.url u ≡ false
    → find_entry u (es ++ e ∷ []) ≡ none
unfolding find_entry
find_entry-append u [] e h other = ground arith
find_entry-append u (x ∷ es) e h other = ground (arith, find_entry-append u es e)

pub append-AreDistinct :
    (es : List ProxyEntry) (e : ProxyEntry)
    → AreDistinct es
    → find_entry e.url es ≡ none
    → AreDistinct (es ++ e ∷ [])
unfolding find_entry
append-AreDistinct [] e d fresh = (refl, tt)
append-AreDistinct (x ∷ es) e (fresh_x, d) fresh = (
  find_entry-append x.url es e fresh_x
      (ground (arith, text_eq_iff x.url e.url, text_eq_iff e.url x.url)),
  append-AreDistinct es e d (ground arith),
)

-- Every entry keeps a property that each change of an entry keeps.
module _ (P : ProxyEntry → Type 0) where
  pub change_entry-All :
      (f : ProxyEntry → ProxyEntry)
      → ((e : ProxyEntry) → P e → P (f e))
      → (v : Text) (es : List ProxyEntry) → All P es
      → All P (change_entry f v es)
  unfolding change_entry
  change_entry-All f keep v [] ps = tt
  change_entry-All f keep v (e ∷ es) (p, ps) = elim (Bool-cases (text_eq e.url v)) [
    | inl here ↦ rw here (keep e p, ps)
    | inr other ↦ rw other (p, change_entry-All f keep v es ps)
  ]

  pub map-All :
      (f : ProxyEntry → ProxyEntry)
      → ((e : ProxyEntry) → P e → P (f e))
      → (es : List ProxyEntry) → All P es
      → All P (map f es)
  map-All f keep [] ps = tt
  map-All f keep (e ∷ es) (p, ps) = (keep e p, map-All f keep es ps)

  pub drop_entry-All : (v : Text) (es : List ProxyEntry) → All P es → All P (drop_entry v es)
  unfolding drop_entry
  drop_entry-All v [] ps = tt
  drop_entry-All v (e ∷ es) (p, ps) = elim (Bool-cases (text_eq e.url v)) [
    | inl here ↦ rw here ps
    | inr other ↦ rw other (p, drop_entry-All v es ps)
  ]

  pub append-All : (es : List ProxyEntry) (e : ProxyEntry) → All P es → P e → All P (es ++ e ∷ [])
  append-All [] e ps p = (p, tt)
  append-All (x ∷ es) e (q, ps) p = (q, append-All es e ps p)
