-- ===== src/Planner/Selection/Views.antt =====
-- Selections among candidates that are viewed as items, and what is picked by index.
use cacheblend_gpt_oss.Prelude.{
  TotalOrder, ℕ, suc, ◌+◌, ◌≤◌, ◌≡◌, refl, ap, sym, subst, ◌∙◌, Bool, not, List, [], ◌∷◌, map, All,
  Pairwise, sum, length, arith, Bool-cases, inl, inr, All-map_on, Pairwise-map_on, Pairwise-of_map,
  sum-map_on,
}
use cacheblend_gpt_oss.Planner.Selection.{Item, pick, pick_from}
use cacheblend_gpt_oss.Planner.Selection.Optimal.{
  IsFilledItem, ApartItem, tokens_of, selects, select-apart, select_maximal,
}

module _ {A : Type 0} where
  pub All-pick :
      (P : A → Type 0) (i : ℕ) (test : ℕ → Bool) (cs : List A)
      → All P cs
      → All P (pick_from i test cs)
  All-pick P i test [] h = tt
  All-pick P i test (c ∷ cs) h = elim (Bool-cases (test i)) [
    | inl e ↦ rw e (h.0, All-pick P (suc i) test cs h.1)
    | inr e ↦ rw e (All-pick P (suc i) test cs h.1)
  ]

  pub length-pick :
      (i : ℕ) (test : ℕ → Bool) (cs : List A)
      → length (pick_from i test cs) + length (pick_from i (λ k. not (test k)) cs) ≡ length cs
  length-pick i test [] = refl
  length-pick i test (c ∷ cs) = ground (arith, length-pick (suc i) test cs)

  pub sum-pick :
      (f : A → ℕ) (i : ℕ) (test : ℕ → Bool) (cs : List A)
      → sum (map f (pick_from i test cs)) + sum (map f (pick_from i (λ k. not (test k)) cs))
        ≡ sum (map f cs)
  sum-pick f i test [] = refl
  sum-pick f i test (c ∷ cs) = ground (arith, sum-pick f (suc i) test cs)

  pick-map :
      {B : Type 0} (f : A → B) (i : ℕ) (test : ℕ → Bool) (cs : List A)
      → pick_from i test (map f cs) ≡ map f (pick_from i test cs)
  pick-map f i test [] = refl
  pick-map f i test (c ∷ cs) = ground (arith, pick-map f (suc i) test cs)

-- The theorems on selections, for candidates behind a view.
module _ {A K : Type 0} ⦃o : TotalOrder K⦄ (item : A → Item K) (cs : List A) where
  pub view-apart :
      All (λ c. IsFilledItem (item c)) cs
      → Pairwise (λ a b. ApartItem (item a) (item b)) (pick (selects (map item cs)) cs)
  view-apart filled = Pairwise-of_map item ApartItem (pick (selects (map item cs)) cs) (
      subst (Pairwise ApartItem) (pick-map item 0 (selects (map item cs)) cs)
        (select-apart (map item cs) (All-map_on item IsFilledItem cs filled)))

  tokens_of-view :
      (test : ℕ → Bool)
      → tokens_of (pick test (map item cs)) ≡ sum (map (λ c. (item c).tokens) (pick test cs))
  tokens_of-view test =
      ap tokens_of (pick-map item 0 test cs) ∙ sum-map_on item (λ c. c.tokens) (pick test cs)

  pub view_maximal :
      (test : ℕ → Bool)
      → All (λ c. IsFilledItem (item c)) cs
      → Pairwise (λ a b. ApartItem (item a) (item b)) (pick test cs)
      → sum (map (λ c. (item c).tokens) (pick test cs))
        ≤ sum (map (λ c. (item c).tokens) (pick (selects (map item cs)) cs))
  view_maximal test filled apart = omega (
    arith,
    tokens_of-view test,
    tokens_of-view (selects (map item cs)),
    select_maximal (map item cs) test (All-map_on item IsFilledItem cs filled) (
        subst (Pairwise ApartItem) (sym (pick-map item 0 test cs))
          (Pairwise-map_on item ApartItem (pick test cs) apart)),
  )
