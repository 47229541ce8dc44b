-- ===== src/Auth/Refresh/Front.antt =====
-- The front of the priority queue.
use qoder2api.Prelude.{
  ℕ, suc, ◌≡◌, refl, arith, true, false, ◌||◌, List, [], ◌∷◌, some, inl, inr, ◌==◌, length, All,
  Bool-cases, ==_refl, ==_iff, subst, sym,
}
use qoder2api.Auth.Refresh.Tasks.{RefreshTask}
use qoder2api.Auth.Refresh.Queue.{
  Tasks, less, front_from, peek_queue, holds, without, pop_from_queue,
}

less_irrefl : (a : RefreshTask) → less a a ≡ false
unfolding less
less_irrefl a = ground arith

-- If `b` does not come before `a` and `c` does not come before `b`, then `c` does not before `a`.
not_less_trans : (a b c : RefreshTask) → less b a ≡ false → less c b ≡ false → less c a ≡ false
unfolding less
not_less_trans a b c x y = ground arith

less_asym : (a b : RefreshTask) → less a b ≡ true → less b a ≡ false
unfolding less
less_asym a b x = ground arith

-- No task of the list comes before `i`.
abbrev pub Leads : Tasks → ℕ → List ℕ → Type 0
Leads h i q = All (λ j. less (h j) (h i) ≡ false) q

Leads-trans :
    (h : Tasks) (i j : ℕ) (q : List ℕ) → less (h j) (h i) ≡ false → Leads h j q → Leads h i q
Leads-trans h i j [] x l = tt
Leads-trans h i j (k ∷ q) x (y, l) = (not_less_trans (h i) (h j) (h k) x y, Leads-trans h i j q x l)

-- The front is at most the one it starts from, and leads the list.
front_from-Leads :
    (h : Tasks) (best : ℕ) (q : List ℕ)
    → (f : ℕ) × (front_from h best q ≡ f) × (less (h best) (h f) ≡ false) × Leads h f q
unfolding front_from
front_from-Leads h best [] = (best, refl, less_irrefl (h best), tt)
front_from-Leads h best (i ∷ q) = elim (Bool-cases (less (h i) (h best))) [
  | inl better ↦
      let (f, found, first, leads) = front_from-Leads h i q in
      let last = less_asym (h i) (h best) better in
      rw better (f, found, not_less_trans (h f) (h i) (h best) first last, (first, leads))
  | inr same ↦
      let (f, found, first, leads) = front_from-Leads h best q in
      rw same (f, found, first, (not_less_trans (h f) (h best) (h i) first same, leads))
]

front_from-holds :
    (h : Tasks) (best : ℕ) (q : List ℕ)
    → (front_from h best q == best || holds (front_from h best q) q) ≡ true
unfolding front_from holds
front_from-holds h best [] = ground (arith, ==_refl best)
front_from-holds h best (i ∷ q) = ground (arith, front_from-holds h best q, front_from-holds h i q)

pub front_holds : (h : Tasks) (i : ℕ) (q : List ℕ) → holds (front_from h i q) (i ∷ q) ≡ true
unfolding holds
front_holds h i q =
    ground (arith, front_from-holds h i q, ==_iff i (front_from h i q), ==_iff (front_from h i q) i)

-- No task in the queue comes before its front.
pub front-Leads : (h : Tasks) (i : ℕ) (q : List ℕ) → Leads h (front_from h i q) (i ∷ q)
front-Leads h i q =
    let (f, found, first, leads) = front_from-Leads h i q in
    subst (λ x. Leads h x (i ∷ q)) (sym found) (first, leads)

pub length-without : (i : ℕ) (q : List ℕ) → holds i q ≡ true → suc (length (without i q)) ≡ length q
unfolding holds without
length-without i [] h = absurd (ground (arith, h))
length-without i (j ∷ q) h = ground (arith, length-without i q)

pub length-pop_from_queue :
    (h : Tasks) (i : ℕ) (q : List ℕ)
    → peek_queue h q ≡ some i
    → suc (length (pop_from_queue h q)) ≡ length q
unfolding pop_from_queue peek_queue
length-pop_from_queue h i [] found = absurd (ground (arith, found))
length-pop_from_queue h i (j ∷ q) found =
    length-without (front_from h j q) (j ∷ q) (front_holds h j q)
