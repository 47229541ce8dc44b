-- ===== src/Prelude/Distinct.antt =====
-- Association lists in which every key stands once, as in a Go map.
use mathlib.Core.Path.{◌≡◌, refl, subst, ap}
use mathlib.Core.Logic.{inl, inr}
use mathlib.Core.Bool.{Bool, true}
use mathlib.Core.Option.{Option, none, some}
use mathlib.Core.List.{List, [], ◌∷◌}
use native.Mathlib.Omega.{arith}
use qoder2api.Prelude.Tests.{if◌then◌else◌, Bool-cases}
use qoder2api.Prelude.Assoc.{Key, find, store, delete, retain, find-store, find-delete}

-- What a map holds at a key, if it passes the test.
abbrev pub kept {ℓ κ} : {K : Type ℓ} {V : Type κ} → (K → V → Bool) → K → Option V → Option V
kept p k none = none
kept p k (some v) = if p k v then some v else none

eq_of_same {ℓ} : {K : Type ℓ} ⦃e : Key K⦄ (j k : K) → e.same j k ≡ true → j ≡ k
eq_of_same ⦃e⦄ j k h = (e.same_iff j k).0 h

module _ {ℓ κ} {K : Type ℓ} {V : Type κ} ⦃e : Key K⦄ where
  pub find-same : (k j : K) (m : List (K × V)) → e.same k j ≡ true → find k m ≡ find j m
  find-same k j m h = ap (λ i. find i m) (eq_of_same k j h)

  abbrev pub IsDistinct : List (K × V) → Type κ
  IsDistinct [] = Unit
  IsDistinct ((k, v) ∷ m) = (find k m ≡ none) × IsDistinct m

  pub store-IsDistinct :
      (k : K) (v : V) (m : List (K × V)) → IsDistinct m → IsDistinct (store k v m)
  unfolding store find
  store-IsDistinct k v [] d = (refl, tt)
  store-IsDistinct k v ((j, w) ∷ m) (d, ds) = elim (Bool-cases (e.same j k)) [
    | inl here ↦ rw here (subst (λ i. find i m ≡ none) (eq_of_same j k here) d, ds)
    | inr other ↦ rw other (
      ground (arith, find-store k j v m, e.same_iff k j, e.same_iff j k),
      store-IsDistinct k v m ds,
    )
  ]

  pub delete-IsDistinct : (k : K) (m : List (K × V)) → IsDistinct m → IsDistinct (delete k m)
  unfolding delete
  delete-IsDistinct k [] d = tt
  delete-IsDistinct k ((j, w) ∷ m) (d, ds) = elim (Bool-cases (e.same j k)) [
    | inl here ↦ rw here (delete-IsDistinct k m ds)
    | inr other ↦ rw other (ground (arith, find-delete k j m), delete-IsDistinct k m ds)
  ]

  pub find-retain :
      (p : K → V → Bool) (k : K) (m : List (K × V))
      → IsDistinct m
      → find k (retain p m) ≡ kept p k (find k m)
  unfolding find retain
  find-retain p k [] d = refl
  find-retain p k ((j, w) ∷ m) (d, ds) = elim (Bool-cases (e.same j k)) [
    | inr other ↦ ground (arith, other, find-retain p k m ds)
    | inl here ↦
        let eq = eq_of_same j k here in
        let gone : find k m ≡ none = subst (λ i. find i m ≡ none) eq d in
        ground (arith, here, gone, find-retain p k m ds, ap (λ i. p i w) eq)
  ]

  pub retain-IsDistinct :
      (p : K → V → Bool) (m : List (K × V)) → IsDistinct m → IsDistinct (retain p m)
  unfolding retain
  retain-IsDistinct p [] d = tt
  retain-IsDistinct p ((j, w) ∷ m) (d, ds) = elim (Bool-cases (p j w)) [
    | inl stays ↦ rw stays (ground (arith, find-retain p j m ds), retain-IsDistinct p m ds)
    | inr goes ↦ rw goes (retain-IsDistinct p m ds)
  ]
