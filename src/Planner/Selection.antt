-- ===== src/Planner/Selection.antt =====
-- Weighted interval scheduling: `_select_non_overlapping` of
-- src/cacheblend_gpt_oss/planner/matching.py and of src/cacheblend_gpt_oss/storage/lookup.py, which
-- differ in what they select from: an `Item` is what either reads of a candidate.
pub mod Choice
pub mod Best
pub mod Sound
pub mod Optimal
pub mod Views
use cacheblend_gpt_oss.Prelude.{
  ℕ, suc, ◌+◌, Bool, not, List, [], ◌∷◌, ◌++◌, ltb, if◌then◌else◌, sorted, enumerate, TotalOrder,
  nat_order, pair_order, list_order, ◌==◌,
}
use cacheblend_gpt_oss.Planner.Models.{TokenRange}

-- The target's range, its number of tokens, and the sort key.
pub record Item (K : Type 0) : Type 0 where
  pub target : TokenRange
  pub tokens : ℕ
  pub sort_key : K

pub record Solution (K : Type 0) : Type 0 where
  pub token_count : ℕ
  pub candidate_indexes : List ℕ
  pub tie_break_key : List K

-- A candidate with its index in the caller's sequence.
abbrev pub Entry : Type 0 → Type 0
Entry K = ℕ × Item K

-- The processed entries, the last one first, each beside the entry of `solutions` behind it; the
-- first entry of `solutions`, `_Solution(0, (), ())`, is the bottom.
abbrev pub Solved : Type 0 → Type 0
Solved K = List (Entry K × Solution K)

module _ {K : Type 0} where
  abbrev pub no_solution : Solution K
  no_solution = record { token_count = 0; candidate_indexes = []; tie_break_key = [] }

  abbrev pub entry_range : Entry K → TokenRange
  entry_range e = e.1.target

  -- `ordered_indexes`: by end, then by the sort key.
  abbrev pub end_sort_key : Entry K → ℕ × K
  end_sort_key e = ((entry_range e).end, e.1.sort_key)

  unfoldable pub last_solution : Solved K → Solution K
  last_solution [] = no_solution
  last_solution ((e, s) ∷ done) = s

  -- The `while` loop: back to the last entry that ends where the target starts, or before.
  unfoldable pub base_solution : ℕ → Solved K → Solution K
  base_solution start [] = no_solution
  base_solution start ((e, s) ∷ done) =
      if ltb start (entry_range e).end then base_solution start done else s

  unfoldable pub include_entry : Entry K → Solution K → Solution K
  include_entry e base = record {
    token_count = base.token_count + e.1.tokens;
    candidate_indexes = base.candidate_indexes ++ e.0 ∷ [];
    tie_break_key = base.tie_break_key ++ e.1.sort_key ∷ [];
  }

module _ {K : Type 0} ⦃o : TotalOrder K⦄ where
  unfoldable pub better_solution : Solution K → Solution K → Solution K
  better_solution left right =
      if not (left.token_count == right.token_count)
      then (if ltb right.token_count left.token_count then left else right)
      else (if list_order.le left.tie_break_key right.tie_break_key then left else right)

  -- The body of the `for` loop.
  unfoldable pub solve_entry : Solved K → Entry K → Solved K
  unfolding base_solution include_entry better_solution last_solution
  solve_entry done e =
      (
        e,
        better_solution (include_entry e (base_solution (entry_range e).start done))
            (last_solution done),
      )
      ∷ done

  unfoldable pub solve_entries : Solved K → List (Entry K) → Solved K
  unfolding solve_entry
  solve_entries done [] = done
  solve_entries done (e ∷ es) = solve_entries (solve_entry done e) es

  unfoldable pub select_non_overlapping : List (Item K) → List ℕ
  unfolding solve_entries sorted
  select_non_overlapping items =
      (last_solution (solve_entries [] (sorted end_sort_key (enumerate 0 items)))).candidate_indexes

-- `[c for index, c in enumerate(candidates) if test(index)]`
module _ {A : Type 0} where
  abbrev pub pick_from : ℕ → (ℕ → Bool) → List A → List A
  pick_from i test [] = []
  pick_from i test (c ∷ cs) =
      if test i then c ∷ pick_from (suc i) test cs else pick_from (suc i) test cs

  abbrev pub pick : (ℕ → Bool) → List A → List A
  pick = pick_from 0
