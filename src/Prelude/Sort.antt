-- ===== src/Prelude/Sort.antt =====
-- Python's `sorted` with a key: a stable sort, here by insertion.
use Prim.Native.Nat.{ℕ, ◌+◌}
use mathlib.Core.Path.{◌≡◌, refl, ap, ◌∙◌}
use mathlib.Core.Bool.{Bool, true, ◌||◌}
use mathlib.Core.Logic.{inl, inr}
use mathlib.Core.List.{List, [], ◌∷◌, map}
use native.Mathlib.Omega.{arith}
use cacheblend_gpt_oss.Prelude.Tests.{if◌then◌else◌, Bool-cases}
use cacheblend_gpt_oss.Prelude.Order.{TotalOrder}
use cacheblend_gpt_oss.Prelude.Lists.{length, any, sum, All, Pairwise, All-map}

module _ {ℓ κ} {A : Type ℓ} {K : Type κ} ⦃o : TotalOrder K⦄ (key : A → K) where
  -- Before the first element whose key is not smaller, so equal keys keep their order.
  unfoldable pub insert : A → List A → List A
  insert x [] = x ∷ []
  insert x (y ∷ ys) = if o.le (key x) (key y) then x ∷ y ∷ ys else y ∷ insert x ys

  unfoldable pub sorted : List A → List A
  unfolding insert
  sorted [] = []
  sorted (x ∷ xs) = insert x (sorted xs)

  abbrev pub Ascending : List A → Type 0
  Ascending = Pairwise (λ x y. o.le (key x) (key y) ≡ true)

  module _ {μ} (P : A → Type μ) where
    insert-All : (x : A) (l : List A) → P x → All P l → All P (insert x l)
    unfolding insert
    insert-All x [] h k = (h, tt)
    insert-All x (y ∷ l) h k = elim (Bool-cases (o.le (key x) (key y))) [
      | inl e ↦ rw e (h, k)
      | inr e ↦ rw e (k.0, insert-All x l h k.1)
    ]

    All-of_insert : (x : A) (l : List A) → All P (insert x l) → P x × All P l
    unfolding insert
    All-of_insert x [] h = (h.0, tt)
    All-of_insert x (y ∷ l) h = elim (Bool-cases (o.le (key x) (key y))) [
      | inl e ↦ let k : All P (x ∷ y ∷ l) = rw e at h in (k.0, k.1)
      | inr e ↦
          let k : All P (y ∷ insert x l) = rw e at h in
          let r = All-of_insert x l k.1 in (r.0, (k.0, r.1))
    ]

    pub sorted-All : (l : List A) → All P l → All P (sorted l)
    unfolding sorted
    sorted-All [] h = tt
    sorted-All (x ∷ l) h = insert-All x (sorted l) h.0 (sorted-All l h.1)

    pub All-of_sorted : (l : List A) → All P (sorted l) → All P l
    unfolding sorted
    All-of_sorted [] h = tt
    All-of_sorted (x ∷ l) h = let r = All-of_insert x (sorted l) h in (r.0, All-of_sorted l r.1)

  module _ {μ} (R : A → A → Type μ) (symm : (a b : A) → R a b → R b a) where
    insert-Pairwise : (x : A) (l : List A) → All (R x) l → Pairwise R l → Pairwise R (insert x l)
    unfolding insert
    insert-Pairwise x [] h k = (tt, tt)
    insert-Pairwise x (y ∷ l) h k = elim (Bool-cases (o.le (key x) (key y))) [
      | inl e ↦ rw e (h, k)
      | inr e ↦ rw e (insert-All (R y) x l (symm x y h.0) k.0, insert-Pairwise x l h.1 k.1)
    ]

    Pairwise-of_insert : (x : A) (l : List A) → Pairwise R (insert x l) → All (R x) l × Pairwise R l
    unfolding insert
    Pairwise-of_insert x [] h = (tt, tt)
    Pairwise-of_insert x (y ∷ l) h = elim (Bool-cases (o.le (key x) (key y))) [
      | inl e ↦ let k : Pairwise R (x ∷ y ∷ l) = rw e at h in (k.0, k.1)
      | inr e ↦
          let k : Pairwise R (y ∷ insert x l) = rw e at h in
          let r = Pairwise-of_insert x l k.1 in
          let a = All-of_insert (R y) x l k.0 in ((symm y x a.0, r.0), (a.1, r.1))
    ]

    -- A symmetric relation between all elements survives the sort, both ways.
    pub sorted-Pairwise : (l : List A) → Pairwise R l → Pairwise R (sorted l)
    unfolding sorted
    sorted-Pairwise [] h = tt
    sorted-Pairwise (x ∷ l) h =
        insert-Pairwise x (sorted l) (sorted-All (R x) l h.0) (sorted-Pairwise l h.1)

    pub Pairwise-of_sorted : (l : List A) → Pairwise R (sorted l) → Pairwise R l
    unfolding sorted
    Pairwise-of_sorted [] h = tt
    Pairwise-of_sorted (x ∷ l) h =
        let r = Pairwise-of_insert x (sorted l) h in
        (All-of_sorted (R x) l r.0, Pairwise-of_sorted l r.1)

  sum-insert : (f : A → ℕ) (x : A) (l : List A) → sum (map f (insert x l)) ≡ f x + sum (map f l)
  unfolding insert
  sum-insert f x [] = refl
  sum-insert f x (y ∷ l) = ground (arith, sum-insert f x l)

  pub sum-sorted : (f : A → ℕ) (l : List A) → sum (map f (sorted l)) ≡ sum (map f l)
  unfolding sorted
  sum-sorted f [] = refl
  sum-sorted f (x ∷ l) = omega (arith, sum-insert f x (sorted l), sum-sorted f l)

  any-insert : (p : A → Bool) (x : A) (l : List A) → any p (insert x l) ≡ (p x || any p l)
  unfolding insert
  any-insert p x [] = refl
  any-insert p x (y ∷ l) = ground (arith, any-insert p x l)

  pub any-sorted : (p : A → Bool) (l : List A) → any p (sorted l) ≡ any p l
  unfolding sorted
  any-sorted p [] = refl
  any-sorted p (x ∷ l) = any-insert p x (sorted l) ∙ ap (◌||◌ (p x)) (any-sorted p l)

  length-insert : (x : A) (l : List A) → length (insert x l) ≡ length l + 1
  unfolding insert
  length-insert x [] = omega arith
  length-insert x (y ∷ l) = ground (arith, length-insert x l)

  pub length-sorted : (l : List A) → length (sorted l) ≡ length l
  unfolding sorted
  length-sorted [] = refl
  length-sorted (x ∷ l) = omega (arith, length-insert x (sorted l), length-sorted l)

  insert-Ascending : (x : A) (l : List A) → Ascending l → Ascending (insert x l)
  unfolding insert
  insert-Ascending x [] h = (tt, tt)
  insert-Ascending x (y ∷ l) h = elim (Bool-cases (o.le (key x) (key y))) [
    | inl e ↦ rw e ((e, All-map (λ z k. o.trans (key x) (key y) (key z) e k) l h.0), h)
    | inr e ↦ rw e (
      insert-All (λ z. o.le (key y) (key z) ≡ true) x l (o.total (key x) (key y) e) h.0,
      insert-Ascending x l h.1,
    )
  ]

  pub sorted-Ascending : (l : List A) → Ascending (sorted l)
  unfolding sorted
  sorted-Ascending [] = tt
  sorted-Ascending (x ∷ l) = insert-Ascending x (sorted l) (sorted-Ascending l)

  -- Sorting what is sorted changes nothing.
  pub sorted_of_Ascending : (l : List A) → Ascending l → sorted l ≡ l
  unfolding sorted insert
  sorted_of_Ascending [] h = refl
  sorted_of_Ascending (x ∷ []) h = refl
  sorted_of_Ascending (x ∷ y ∷ l) h = rw (sorted_of_Ascending (y ∷ l) h.1, h.0.0)
