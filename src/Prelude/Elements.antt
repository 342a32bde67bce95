-- ===== src/Prelude/Elements.antt =====
-- The elements of a list that `map`, `filter` and a numbering build.
use Prim.Native.Nat.{ℕ, zero, suc, ◌+◌, ◌≤◌, ◌<◌}
use mathlib.Core.Path.{◌≡◌, refl, ap, ◌∙◌, sym, subst}
use mathlib.Core.Bool.{Bool, true, false}
use mathlib.Core.Logic.{◌↔◌, ◌⊎◌, inl, inr}
use mathlib.Core.List.{List, [], ◌∷◌, ◌++◌, map}
use native.Mathlib.Omega.{arith}
use native.Mathlib.Decide.{ℕ_discrete}
use cacheblend_gpt_oss.Prelude.Tests.{Bool-cases}
use cacheblend_gpt_oss.Prelude.Lists.{filter, range_from, All}

-- The element is one of the list's.
abbrev pub Occurs : {A : Type 0} → A → List A → Type 0
Occurs x [] = ⊥
Occurs x (y ∷ ys) = (x ≡ y) ⊎ Occurs x ys

module _ {A : Type 0} where
  pub Occurs-append : (x : A) (xs ys : List A) → Occurs x (xs ++ ys) ↔ (Occurs x xs ⊎ Occurs x ys)
  Occurs-append x [] ys = (λ h. inr h, λ h. elim h [ inl n ↦ absurd n | inr k ↦ k ])
  Occurs-append x (y ∷ xs) ys =
      let (there, back) = Occurs-append x xs ys in
      (
        λ h. elim h [
          | inl e ↦ inl (inl e)
          | inr k ↦ elim (there k) [ inl a ↦ inl (inr a) | inr b ↦ inr b ]
        ],
        λ h. elim h [
          | inl k ↦ elim k [ inl e ↦ inl e | inr a ↦ inr (back (inl a)) ]
          | inr b ↦ inr (back (inr b))
        ],
      )

  pub Occurs-filter :
      (p : A → Bool) (x : A) (xs : List A) → Occurs x (filter p xs) ↔ ((p x ≡ true) × Occurs x xs)
  Occurs-filter p x [] = (λ h. absurd h, λ h. h.1)
  Occurs-filter p x (y ∷ xs) =
      let (there, back) = Occurs-filter p x xs in
      elim (Bool-cases (p y)) [
        | inl e ↦ rw e (
          λ h. elim h [ inl q ↦ (ap p q ∙ e, inl q) | inr k ↦ ((there k).0, inr (there k).1) ],
          λ h. elim h.1 [ inl q ↦ inl q | inr k ↦ inr (back (h.0, k)) ],
        )
        | inr e ↦ rw e (
          λ h. ((there h).0, inr (there h).1),
          λ h. elim h.1 [
            | inl q ↦ let clash : true ≡ false = sym h.0 ∙ ap p q ∙ e in cc
            | inr k ↦ back (h.0, k)
          ],
        )
      ]

  -- What holds of each element holds of one that occurs.
  pub All-Occurs {κ} : (P : A → Type κ) (x : A) (xs : List A) → All P xs → Occurs x xs → P x
  All-Occurs P x [] h o = absurd o
  All-Occurs P x (y ∷ xs) h o = elim o [
    | inl e ↦ subst P (sym e) h.0
    | inr k ↦ All-Occurs P x xs h.1 k
  ]

module _ {A B : Type 0} (f : A → B) where
  pub Occurs-map : (y : B) (xs : List A) → Occurs y (map f xs) ↔ ((x : A) × Occurs x xs × (y ≡ f x))
  Occurs-map y [] = (λ h. absurd h, λ h. absurd h.1)
  Occurs-map y (z ∷ xs) =
      let (there, back) = Occurs-map y xs in
      (
        λ h. elim h [ inl e ↦ (z, inl refl, e) | inr k ↦ let (x, o, e) = there k in (x, inr o, e) ],
        λ h. elim h.1 [ inl q ↦ inl (h.2 ∙ ap f q) | inr o ↦ inr (back (h.0, o, h.2)) ],
      )

pub Occurs-range_from : (i a n : ℕ) → Occurs i (range_from a n) ↔ ((a ≤ i) × (i < a + n))
Occurs-range_from i a zero = (λ h. absurd h, λ h. absurd (omega (arith, h)))
Occurs-range_from i a (suc n) =
    let (there, back) = Occurs-range_from i (suc a) n in
    (
      λ h. elim h [
        | inl e ↦ (omega arith, omega arith)
        | inr k ↦ let (l, u) = there k in (omega arith, omega arith)
      ],
      λ h. elim (ℕ_discrete i a) [
        | yes e ↦ inl e
        | no n ↦ inr (back (omega (arith, n, h.0), omega (arith, h.1)))
      ],
    )
