-- ===== src/Prelude/Assoc.antt =====
-- Go maps as association lists over a Boolean test of keys that decides equality.
use mathlib.Core.Path.{◌≡◌, refl, subst}
use mathlib.Core.Logic.{◌↔◌, inl, inr}
use mathlib.Core.Bool.{Bool, true}
use mathlib.Core.Option.{Option, none, some}
use mathlib.Core.List.{List, [], ◌∷◌}
use native.Mathlib.Omega.{arith}
use qoder2api.Prelude.Tests.{if◌then◌else◌, ==_iff, ◌==◌, Bool-cases}
use qoder2api.Prelude.Lists.{All}
use Prim.Native.Nat.{ℕ}

-- Keys that a map can be asked for.
pub record Key {ℓ} (K : Type ℓ) : Type ℓ where
  pub same : K → K → Bool
  pub same_iff : (a b : K) → (same a b ≡ true) ↔ (a ≡ b)

instance abbrev pub nat_key : Key ℕ
nat_key = record { same = λ a b. a == b; same_iff = ==_iff }

module _ {ℓ κ} {K : Type ℓ} {V : Type κ} ⦃e : Key K⦄ where
  unfoldable pub find : K → List (K × V) → Option V
  find k [] = none
  find k ((j, v) ∷ m) = if e.same j k then some v else find k m

  -- m[k] = v
  unfoldable pub store : K → V → List (K × V) → List (K × V)
  store k v [] = (k, v) ∷ []
  store k v ((j, w) ∷ m) = if e.same j k then (k, v) ∷ m else (j, w) ∷ store k v m

  -- delete(m, k): every entry of the key goes.
  unfoldable pub delete : K → List (K × V) → List (K × V)
  delete k [] = []
  delete k ((j, w) ∷ m) = if e.same j k then delete k m else (j, w) ∷ delete k m

  -- for k, v := range m { if !keep(k, v) { delete(m, k) } }
  unfoldable pub retain : (K → V → Bool) → List (K × V) → List (K × V)
  retain p [] = []
  retain p ((j, w) ∷ m) = if p j w then (j, w) ∷ retain p m else retain p m

  pub find_cons :
      (k j : K) (v : V) (m : List (K × V))
      → find k ((j, v) ∷ m) ≡ (if e.same j k then some v else find k m)
  unfolding find
  find_cons k j v m = refl

  pub find_nil : (k : K) → find k [] ≡ none
  unfolding find
  find_nil k = refl

  pub find-store :
      (k j : K) (v : V) (m : List (K × V))
      → find j (store k v m) ≡ (if e.same k j then some v else find j m)
  unfolding find store
  find-store k j v [] = refl
  find-store k j v ((i, w) ∷ m) =
      ground (arith, e.same_iff k j, e.same_iff i k, e.same_iff i j, find-store k j v m)

  pub find-delete :
      (k j : K) (m : List (K × V)) → find j (delete k m) ≡ (if e.same k j then none else find j m)
  unfolding find delete
  find-delete k j [] = ground arith
  find-delete k j ((i, w) ∷ m) =
      ground (arith, e.same_iff k j, e.same_iff i k, e.same_iff i j, find-delete k j m)

-- Every value of the map satisfies the predicate.
abbrev pub AllValues {ℓ κ μ} : {K : Type ℓ} {V : Type κ} → (V → Type μ) → List (K × V) → Type μ
AllValues P m = All (λ x. P x.1) m

module _ {ℓ κ μ} {K : Type ℓ} {V : Type κ} ⦃e : Key K⦄ (P : V → Type μ) where
  pub find-AllValues : (k : K) (v : V) (m : List (K × V)) → AllValues P m → find k m ≡ some v → P v
  unfolding find
  find-AllValues k v [] ps h = absurd (ground arith)
  find-AllValues k v ((j, w) ∷ m) (p, ps) h = elim (Bool-cases (e.same j k)) [
    | inl here ↦ subst P (ground (arith, here)) p
    | inr other ↦ find-AllValues k v m ps (ground (arith, other))
  ]

  pub store-AllValues :
      (k : K) (v : V) (m : List (K × V)) → P v → AllValues P m → AllValues P (store k v m)
  unfolding store
  store-AllValues k v [] new ps = (new, tt)
  store-AllValues k v ((j, w) ∷ m) new (p, ps) = elim (Bool-cases (e.same j k)) [
    | inl here ↦ rw here (new, ps)
    | inr other ↦ rw other (p, store-AllValues k v m new ps)
  ]

  pub retain-AllValues :
      (keep : K → V → Bool) (m : List (K × V)) → AllValues P m → AllValues P (retain keep m)
  unfolding retain
  retain-AllValues keep [] ps = tt
  retain-AllValues keep ((j, w) ∷ m) (p, ps) = elim (Bool-cases (keep j w)) [
    | inl stays ↦ rw stays (p, retain-AllValues keep m ps)
    | inr goes ↦ rw goes (retain-AllValues keep m ps)
  ]

  pub delete-AllValues : (k : K) (m : List (K × V)) → AllValues P m → AllValues P (delete k m)
  unfolding delete
  delete-AllValues k [] ps = tt
  delete-AllValues k ((j, w) ∷ m) (p, ps) = elim (Bool-cases (e.same j k)) [
    | inl here ↦ rw here (delete-AllValues k m ps)
    | inr other ↦ rw other (p, delete-AllValues k m ps)
  ]
