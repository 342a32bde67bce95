-- ===== src/Planner/Selection/Optimal.antt =====
-- What `_select_non_overlapping` selects: candidates that keep apart, with as many tokens as any
-- such choice.
use cacheblend_gpt_oss.Prelude.{
  TotalOrder, ℕ, suc, ◌≤◌, ◌<◌, ◌≡◌, refl, sym, ap, ◌∙◌, subst, Bool, true, List, [], ◌∷◌, map,
  if◌then◌else◌, sum, All, Pairwise, arith, elem, enumerate, rev_onto, Pairwise-of_rev_onto_symm,
  rev_onto-Pairwise, Pairwise-of_rev_onto, rev_onto-All, All-of_rev_onto, Pairwise-map, All-of,
  sorted, sorted-All, sorted-Pairwise, Pairwise-of_sorted, sorted-Ascending, sum-sorted, Bool-cases,
  inl, inr, leb→le, pair_order, list_order, nat_order,
}
use cacheblend_gpt_oss.Planner.Coverage.{Apart}
use cacheblend_gpt_oss.Planner.Selection.{
  Item, Entry, entry_range, end_sort_key, Solved, last_solution, solve_entry, solve_entries,
  select_non_overlapping, pick, pick_from,
}
use cacheblend_gpt_oss.Planner.Selection.Choice.{
  entries, entry_len, weight, IsClear, ClearPair, ClearPair-symm, IsFilled, EndsBefore, OtherIndex,
  weight-rev_onto, unchosen-ClearPair,
}
use cacheblend_gpt_oss.Planner.Selection.Best.{AllBest, BestFor, solve_entry-best, last_best}
use cacheblend_gpt_oss.Planner.Selection.Sound.{
  AllSound, IsSound, solve_entry-IsSound, last-IsSound,
}

module _ {K : Type 0} ⦃o : TotalOrder K⦄ where
  abbrev pub IsFilledItem : (Item K) → Type 0
  IsFilledItem c = c.target.start < c.target.end

  -- The targets of two items do not overlap.
  abbrev pub ApartItem : (Item K) → (Item K) → Type 0
  ApartItem a b = Apart a.target b.target

  abbrev pub tokens_of : List (Item K) → ℕ
  tokens_of cs = sum (map (λ c. c.tokens) cs)

  entries-solve_entry :
      (done : Solved K) (e : Entry K) → entries (solve_entry done e) ≡ e ∷ entries done
  unfolding solve_entry
  entries-solve_entry done e = refl

  record IsSolved (done : Solved K) (l : List (Entry K)) : Type 0 where
    best : AllBest done
    sound : AllSound done
    same : entries done ≡ l

  solve_entries-IsSolved :
      (done : Solved K) (es l : List (Entry K))
      → IsSolved done l
      → Pairwise OtherIndex (rev_onto es l)
      → Pairwise EndsBefore (rev_onto es l)
      → All IsFilled (rev_onto es l)
      → IsSolved (solve_entries done es) (rev_onto es l)
  unfolding solve_entries
  solve_entries-IsSolved done [] l h o b f = h
  solve_entries-IsSolved done (e ∷ es) l h o b f =
      let o' =
        subst (λ m. Pairwise OtherIndex (e ∷ m)) (sym h.same)
          (Pairwise-of_rev_onto OtherIndex es (e ∷ l) o) in
      let b' =
        subst (λ m. Pairwise EndsBefore (e ∷ m)) (sym h.same)
          (Pairwise-of_rev_onto EndsBefore es (e ∷ l) b) in
      let f' =
        subst (λ m. All IsFilled (e ∷ m)) (sym h.same) (All-of_rev_onto IsFilled es (e ∷ l) f) in
      solve_entries-IsSolved (solve_entry done e) es (e ∷ l)
        (record {
          best = solve_entry-best done e h.best f'.0 f'.1 b'.0;
          sound = solve_entry-IsSound done e h.sound o' b';
          same = entries-solve_entry done e ∙ ap (◌∷◌ e) h.same;
        })
        o b f

  enumerate-OtherIndex :
      (i j : ℕ) (c : (Item K)) (cs : List (Item K))
      → i < j
      → All (OtherIndex (i, c)) (enumerate j cs)
  enumerate-OtherIndex i j c [] h = tt
  enumerate-OtherIndex i j c (d ∷ cs) h =
      (ground arith, enumerate-OtherIndex i (suc j) c cs (omega arith))

  enumerate_distinct : (i : ℕ) (cs : List (Item K)) → Pairwise OtherIndex (enumerate i cs)
  enumerate_distinct i [] = tt
  enumerate_distinct i (c ∷ cs) =
      (enumerate-OtherIndex i (suc i) c cs (omega arith), enumerate_distinct (suc i) cs)

  enumerate-IsFilled :
      (i : ℕ) (cs : List (Item K)) → All IsFilledItem cs → All IsFilled (enumerate i cs)
  enumerate-IsFilled i [] h = tt
  enumerate-IsFilled i (c ∷ cs) h = (h.0, enumerate-IsFilled (suc i) cs h.1)

  OtherIndex-symm : (a b : Entry K) → OtherIndex a b → OtherIndex b a
  OtherIndex-symm a b h = ground arith

  weight-sum :
      (p : ℕ → Bool) (l : List (Entry K))
      → weight p l ≡ sum (map (λ e. if p e.0 then entry_len e else 0) l)
  unfolding weight
  weight-sum p [] = refl
  weight-sum p (e ∷ l) = omega (arith, weight-sum p l)

  weight-sorted :
      (p : ℕ → Bool) (l : List (Entry K)) → weight p (sorted end_sort_key l) ≡ weight p l
  weight-sorted p l =
      weight-sum p (sorted end_sort_key l)
      ∙ sum-sorted end_sort_key (λ e. if p e.0 then entry_len e else 0) l
      ∙ sym (weight-sum p l)

  weight-enumerate :
      (p : ℕ → Bool) (i : ℕ) (cs : List (Item K))
      → weight p (enumerate i cs) ≡ tokens_of (pick_from i p cs)
  unfolding weight
  weight-enumerate p i [] = refl
  weight-enumerate p i (c ∷ cs) = ground (arith, weight-enumerate p (suc i) cs)

  pick_from-ClearPair :
      (p : ℕ → Bool) (i j : ℕ) (c : (Item K)) (cs : List (Item K))
      → All (ApartItem c) (pick_from j p cs)
      → All (ClearPair p (i, c)) (enumerate j cs)
  pick_from-ClearPair p i j c [] h = tt
  pick_from-ClearPair p i j c (d ∷ cs) h = elim (Bool-cases (p j)) [
    | inl e ↦
        let k : All (ApartItem c) (d ∷ pick_from (suc j) p cs) = rw e at h in
        (λ _ _. k.0, pick_from-ClearPair p i (suc j) c cs k.1)
    | inr e ↦ (λ _ q. cc, pick_from-ClearPair p i (suc j) c cs (rw e at h))
  ]

  ClearPair-pick_from :
      (p : ℕ → Bool) (i j : ℕ) (c : (Item K)) (cs : List (Item K))
      → p i ≡ true
      → All (ClearPair p (i, c)) (enumerate j cs)
      → All (ApartItem c) (pick_from j p cs)
  ClearPair-pick_from p i j c [] q h = tt
  ClearPair-pick_from p i j c (d ∷ cs) q h = elim (Bool-cases (p j)) [
    | inl e ↦ rw e (h.0 q e, ClearPair-pick_from p i (suc j) c cs q h.1)
    | inr e ↦ rw e (ClearPair-pick_from p i (suc j) c cs q h.1)
  ]

  IsClear-of_pick :
      (p : ℕ → Bool) (i : ℕ) (cs : List (Item K))
      → Pairwise ApartItem (pick_from i p cs)
      → IsClear p (enumerate i cs)
  IsClear-of_pick p i [] h = tt
  IsClear-of_pick p i (c ∷ cs) h = elim (Bool-cases (p i)) [
    | inl e ↦
        let k : Pairwise ApartItem (c ∷ pick_from (suc i) p cs) = rw e at h in
        (pick_from-ClearPair p i (suc i) c cs k.0, IsClear-of_pick p (suc i) cs k.1)
    | inr e ↦ (
      unchosen-ClearPair p (i, c) (enumerate (suc i) cs) e,
      IsClear-of_pick p (suc i) cs (rw e at h),
    )
  ]

  pick_of_IsClear :
      (p : ℕ → Bool) (i : ℕ) (cs : List (Item K))
      → IsClear p (enumerate i cs)
      → Pairwise ApartItem (pick_from i p cs)
  pick_of_IsClear p i [] h = tt
  pick_of_IsClear p i (c ∷ cs) h = elim (Bool-cases (p i)) [
    | inl e ↦ rw e (ClearPair-pick_from p i (suc i) c cs e h.0, pick_of_IsClear p (suc i) cs h.1)
    | inr e ↦ rw e (pick_of_IsClear p (suc i) cs h.1)
  ]

  ends_in_order :
      (a b : Entry K)
      → (pair_order ⦃o = nat_order⦄).le (end_sort_key a) (end_sort_key b) ≡ true
      → (entry_range a).end ≤ (entry_range b).end
  ends_in_order a b h = leb→le (entry_range a).end (entry_range b).end (ground arith)

  nothing_behind :
      (R : Entry K → Entry K → Type 0) (l : List (Entry K)) → All (λ x. All (λ y. R y x) []) l
  nothing_behind R l = All-of _ (λ x. tt) l

  abbrev ordered : List (Item K) → List (Entry K)
  ordered cs = sorted end_sort_key (enumerate 0 cs)

  ordered-OtherIndex : (cs : List (Item K)) → Pairwise OtherIndex (rev_onto (ordered cs) [])
  ordered-OtherIndex cs =
      Pairwise-map (λ a b h. OtherIndex-symm b a h) (rev_onto (ordered cs) [])
        (rev_onto-Pairwise OtherIndex (ordered cs) []
          (sorted-Pairwise end_sort_key OtherIndex OtherIndex-symm (enumerate 0 cs)
            (enumerate_distinct 0 cs))
          tt (nothing_behind OtherIndex (ordered cs)))

  ordered-EndsBefore : (cs : List (Item K)) → Pairwise EndsBefore (rev_onto (ordered cs) [])
  ordered-EndsBefore cs =
      rev_onto-Pairwise (λ a b. EndsBefore b a) (ordered cs) []
        (Pairwise-map ends_in_order (ordered cs) (sorted-Ascending end_sort_key (enumerate 0 cs)))
        tt (nothing_behind (λ a b. EndsBefore b a) (ordered cs))

  ordered-IsSolved :
      (cs : List (Item K))
      → All IsFilledItem cs
      → IsSolved (solve_entries [] (ordered cs)) (rev_onto (ordered cs) [])
  ordered-IsSolved cs filled =
      solve_entries-IsSolved [] (ordered cs) [] (record { best = tt; sound = tt; same = refl })
        (ordered-OtherIndex cs) (ordered-EndsBefore cs)
        (rev_onto-All IsFilled (ordered cs) []
          (sorted-All end_sort_key IsFilled (enumerate 0 cs) (enumerate-IsFilled 0 cs filled)) tt)

  weight-ordered :
      (p : ℕ → Bool) (cs : List (Item K))
      → weight p (rev_onto (ordered cs) []) ≡ tokens_of (pick p cs)
  unfolding weight
  weight-ordered p cs = omega (
    arith,
    weight-rev_onto p (ordered cs) [],
    weight-sorted p (enumerate 0 cs),
    weight-enumerate p 0 cs,
  )

  IsClear-sorted :
      (p : ℕ → Bool) (cs : List (Item K))
      → Pairwise ApartItem (pick p cs)
      → IsClear p (rev_onto (ordered cs) [])
  IsClear-sorted p cs h =
      Pairwise-map (λ a b k. ClearPair-symm p b a k) (rev_onto (ordered cs) [])
        (rev_onto-Pairwise (ClearPair p) (ordered cs) []
          (sorted-Pairwise end_sort_key (ClearPair p) (ClearPair-symm p) (enumerate 0 cs)
            (IsClear-of_pick p 0 cs h))
          tt (nothing_behind (ClearPair p) (ordered cs)))

  clear_of_sorted :
      (p : ℕ → Bool) (cs : List (Item K))
      → IsClear p (rev_onto (ordered cs) [])
      → Pairwise ApartItem (pick p cs)
  clear_of_sorted p cs h = pick_of_IsClear p 0 cs (
      Pairwise-of_sorted end_sort_key (ClearPair p) (ClearPair-symm p) (enumerate 0 cs)
        (Pairwise-of_rev_onto_symm (ClearPair p) (ClearPair-symm p) (ordered cs) [] h).0)

  abbrev pub selects : List (Item K) → ℕ → Bool
  selects cs i = elem i (select_non_overlapping cs)

  -- If every item's target is non-empty, the selected items do not overlap one another.
  pub select-apart :
      (cs : List (Item K)) → All IsFilledItem cs → Pairwise ApartItem (pick (selects cs) cs)
  unfolding select_non_overlapping
  select-apart cs filled =
      let h = ordered-IsSolved cs filled in
      let s =
        subst (IsSound (last_solution (solve_entries [] (ordered cs)))) h.same
          (last-IsSound (solve_entries [] (ordered cs)) h.sound) in
      clear_of_sorted (selects cs) cs s.clear

  -- If every item's target is non-empty, no choice of items that do not overlap one another has more tokens than the selection.
  pub select_maximal :
      (cs : List (Item K)) (test : ℕ → Bool)
      → All IsFilledItem cs
      → Pairwise ApartItem (pick test cs)
      → tokens_of (pick test cs) ≤ tokens_of (pick (selects cs) cs)
  unfolding select_non_overlapping
  select_maximal cs test filled apart =
      let h = ordered-IsSolved cs filled in
      let done = solve_entries [] (ordered cs) in
      let s = subst (IsSound (last_solution done)) h.same (last-IsSound done h.sound) in
      let b = subst (BestFor (last_solution done)) h.same (last_best done h.best) in
      omega (
        arith,
        b test (IsClear-sorted test cs apart),
        s.counted,
        weight-ordered test cs,
        weight-ordered (selects cs) cs,
      )
