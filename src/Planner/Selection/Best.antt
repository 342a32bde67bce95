-- ===== src/Planner/Selection/Best.antt =====
-- No choice of entries that keep apart has more tokens than the solution: the optimality half of
-- the dynamic programme.
use cacheblend_gpt_oss.Prelude.{
  TotalOrder, ℕ, ◌≤◌, ◌≡◌, Bool, true, List, [], ◌∷◌, ltb, max, All, arith, Bool-cases, inl, inr,
}
use cacheblend_gpt_oss.Planner.Selection.{
  Entry, entry_range, Solved, Solution, last_solution, base_solution, better_solution,
  include_entry, solve_entry,
}
use cacheblend_gpt_oss.Planner.Selection.Choice.{
  entries, weight, IsClear, ClearPair, IsFilled, EndsBefore,
}

module _ {K : Type 0} ⦃o : TotalOrder K⦄ where
  abbrev pub BestFor : Solution K → List (Entry K) → Type 0
  BestFor s l = (p : ℕ → Bool) → IsClear p l → weight p l ≤ s.token_count

  abbrev pub AllBest : Solved K → Type 0
  AllBest [] = Unit
  AllBest ((e, s) ∷ done) = BestFor s (e ∷ entries done) × AllBest done

  -- The better solution has the larger count.
  pub better_solution-count :
      (a b : Solution K) → (better_solution a b).token_count ≡ max a.token_count b.token_count
  unfolding better_solution
  better_solution-count a b = ground arith

  pub last_best : (done : Solved K) → AllBest done → BestFor (last_solution done) (entries done)
  unfolding last_solution weight
  last_best [] h p c = omega arith
  last_best ((e, s) ∷ done) h p c = h.0 p c

  base_best :
      (t : ℕ) (done : Solved K) (p : ℕ → Bool)
      → AllBest done
      → IsClear p (entries done)
      → All (λ e. p e.0 ≡ true → (entry_range e).end ≤ t) (entries done)
      → weight p (entries done) ≤ (base_solution t done).token_count
  unfolding base_solution weight
  base_best t [] p h c b = omega arith
  base_best t ((e, s) ∷ done) p h c b = elim (Bool-cases (ltb t (entry_range e).end)) [
    | inl late ↦ ground (arith, base_best t done p h.1 c.1 b.1, b.0)
    | inr early ↦ rw early (h.0 p c)
  ]

  -- A chosen entry that ends no later than `e` and keeps apart from it ends where `e` starts.
  ends_before :
      (p : ℕ → Bool) (e : Entry K) (l : List (Entry K))
      → p e.0 ≡ true
      → IsFilled e
      → All IsFilled l
      → All (EndsBefore e) l
      → All (ClearPair p e) l
      → All (λ a. p a.0 ≡ true → (entry_range a).end ≤ (entry_range e).start) l
  ends_before p e [] i f g b c = tt
  ends_before p e (a ∷ l) i f g b c =
      (λ j. ground (arith, c.0 i j), ends_before p e l i f g.1 b.1 c.1)

  pub solve_entry-best :
      (done : Solved K) (e : Entry K)
      → AllBest done
      → IsFilled e
      → All IsFilled (entries done)
      → All (EndsBefore e) (entries done)
      → AllBest (solve_entry done e)
  unfolding solve_entry include_entry weight
  solve_entry-best done e h f g b =
      let start = (entry_range e).start in
      let base = base_solution start done in
      (
        λ p c. elim (Bool-cases (p e.0)) [
          | inl chosen ↦ ground (
            arith,
            better_solution-count (include_entry e base) (last_solution done),
            base_best start done p h c.1 (ends_before p e (entries done) chosen f g b c.0),
          )
          | inr passed ↦ ground (
            arith,
            better_solution-count (include_entry e base) (last_solution done),
            last_best done h p c.1,
          )
        ],
        h,
      )
