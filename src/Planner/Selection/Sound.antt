-- ===== src/Planner/Selection/Sound.antt =====
-- The indexes of each solution name entries that keep apart and have the counted tokens: the
-- soundness half of the dynamic programme.
use cacheblend_gpt_oss.Prelude.{
  TotalOrder, sym, subst, ◌⊎◌, ℕ, ◌≤◌, ◌≡◌, refl, ◌∙◌, Bool, true, false, ◌||◌, List, [], ◌∷◌, ◌++◌,
  map, ltb, All, Pairwise, arith, Bool-cases, inl, inr, elem, ◌==◌, All-map, All-append,
}
use cacheblend_gpt_oss.Planner.Selection.{
  Entry, entry_range, Solved, Solution, last_solution, base_solution, better_solution,
  include_entry, solve_entry,
}
use cacheblend_gpt_oss.Planner.Selection.Choice.{
  entries, weight, IsClear, ClearPair, EndsBefore, OtherIndex, weight-cong, IsClear-cong,
  unchosen-ClearPair,
}

known_chosen :
    (a : ℕ) (xs m : List ℕ) → All (λ i. elem i m ≡ true) xs → elem a xs ≡ true → elem a m ≡ true
known_chosen a [] m h e = cc
known_chosen a (x ∷ xs) m h e = elim (Bool-cases (a == x)) [
  | inl same ↦ let q : a ≡ x = ground arith in rw q h.0
  | inr differ ↦ known_chosen a xs m h.1 (ground arith)
]

elem-append : (a : ℕ) (xs ys : List ℕ) → elem a (xs ++ ys) ≡ (elem a xs || elem a ys)
elem-append a [] ys = refl
elem-append a (x ∷ xs) ys = ground (arith, elem-append a xs ys)

module _ {K : Type 0} ⦃o : TotalOrder K⦄ where
  abbrev pub indexes : List (Entry K) → List ℕ
  indexes = map (λ e. e.0)

  -- The test that a solution's index set makes.
  abbrev pub chosen : Solution K → ℕ → Bool
  chosen s i = elem i s.candidate_indexes

  pub record IsSound (s : Solution K) (l : List (Entry K)) : Type 0 where
    pub counted : weight (chosen s) l ≡ s.token_count
    pub clear : IsClear (chosen s) l
    pub known : All (λ i. elem i (indexes l) ≡ true) s.candidate_indexes

  abbrev pub AllSound : Solved K → Type 0
  AllSound [] = Unit
  AllSound ((e, s) ∷ done) = IsSound s (e ∷ entries done) × AllSound done

  fresh-elem :
      (e : Entry K) (l : List (Entry K)) → All (OtherIndex e) l → elem e.0 (indexes l) ≡ false
  fresh-elem e [] h = refl
  fresh-elem e (a ∷ l) h = ground (arith, fresh-elem e l h.1)

  fresh_unchosen :
      (s : Solution K) (e : Entry K) (l : List (Entry K))
      → IsSound s l
      → All (OtherIndex e) l
      → chosen s e.0 ≡ false
  fresh_unchosen s e l h f = elim (Bool-cases (chosen s e.0)) [
    | inl c ↦
        absurd (cc (fresh-elem e l f, known_chosen e.0 s.candidate_indexes (indexes l) h.known c))
    | inr c ↦ c
  ]

  -- A solution stays sound when a later entry is passed over.
  pub IsSound-pass :
      (s : Solution K) (e : Entry K) (l : List (Entry K))
      → IsSound s l
      → All (OtherIndex e) l
      → IsSound s (e ∷ l)
  unfolding weight
  IsSound-pass s e l h f =
      let u = fresh_unchosen s e l h f in
      record {
        counted = rw u (omega (arith, h.counted));
        clear = (unchosen-ClearPair (chosen s) e l u, h.clear);
        known = All-map (λ i k. ground arith) s.candidate_indexes h.known;
      }

  abbrev EndsBy : Solution K → ℕ → Entry K → Type 0
  EndsBy s t a = chosen s a.0 ≡ true → (entry_range a).end ≤ t

  base_solution-late :
      (t : ℕ) (e : Entry K) (s : Solution K) (done : Solved K)
      → ltb t (entry_range e).end ≡ true
      → base_solution t ((e, s) ∷ done) ≡ base_solution t done
  unfolding base_solution
  base_solution-late t e s done h = rw h

  base_solution-early :
      (t : ℕ) (e : Entry K) (s : Solution K) (done : Solved K)
      → ltb t (entry_range e).end ≡ false
      → base_solution t ((e, s) ∷ done) ≡ s
  unfolding base_solution
  base_solution-early t e s done h = rw h

  abbrev EndsSound : ℕ → List (Entry K) → Solution K → Type 0
  EndsSound t l s = IsSound s l × All (EndsBy s t) l

  base_sound :
      (t : ℕ) (done : Solved K)
      → AllSound done
      → Pairwise OtherIndex (entries done)
      → Pairwise EndsBefore (entries done)
      → EndsSound t (entries done) (base_solution t done)
  unfolding weight
  base_sound t [] h o b =
      unfold base_solution in (record { counted = refl; clear = tt; known = tt }, tt)
  base_sound t ((e, s) ∷ done) h o b = elim (Bool-cases (ltb t (entry_range e).end)) [
    | inl late ↦
        let (r, k) = base_sound t done h.1 o.1 b.1 in
        let u = fresh_unchosen (base_solution t done) e (entries done) r o.0 in
        subst (EndsSound t (e ∷ entries done)) (sym (base_solution-late t e s done late))
          (IsSound-pass (base_solution t done) e (entries done) r o.0, (λ c. cc, k))
    | inr early ↦
        subst (EndsSound t (e ∷ entries done)) (sym (base_solution-early t e s done early))
          (h.0, (λ c. ground arith, All-map (λ a q c. ground arith) (entries done) b.0))
  ]

  pub last-IsSound : (done : Solved K) → AllSound done → IsSound (last_solution done) (entries done)
  unfolding last_solution weight
  last-IsSound [] h = record { counted = refl; clear = tt; known = tt }
  last-IsSound ((e, s) ∷ done) h = h.0

  entries_apart :
      (q : ℕ → Bool) (base : Solution K) (e : Entry K) (l : List (Entry K))
      → All (λ a. chosen base a.0 ≡ q a.0) l
      → All (EndsBy base (entry_range e).start) l
      → All (ClearPair q e) l
  entries_apart q base e [] h b = tt
  entries_apart q base e (a ∷ l) h b =
      (λ i j. ground (arith, b.0 (h.0 ∙ j)), entries_apart q base e l h.1 b.1)

  -- Including a fresh entry behind which all chosen entries end.
  include-IsSound :
      (base : Solution K) (e : Entry K) (l : List (Entry K))
      → IsSound base l
      → All (OtherIndex e) l
      → All (EndsBy base (entry_range e).start) l
      → IsSound (include_entry e base) (e ∷ l)
  unfolding include_entry weight
  include-IsSound base e l h f b =
      let agree : All (λ a. chosen base a.0 ≡ chosen (include_entry e base) a.0) l =
        All-map (λ a o. ground (arith, elem-append a.0 base.candidate_indexes (e.0 ∷ []))) l f in
      record {
        counted = ground (
          arith,
          elem-append e.0 base.candidate_indexes (e.0 ∷ []),
          weight-cong (chosen base) (chosen (include_entry e base)) l agree,
          h.counted,
        );
        clear = (
          entries_apart (chosen (include_entry e base)) base e l agree b,
          IsClear-cong (chosen base) (chosen (include_entry e base)) l agree h.clear,
        );
        known =
            All-append (λ i. elem i (indexes (e ∷ l)) ≡ true) base.candidate_indexes (e.0 ∷ [])
              (All-map (λ i k. ground arith) base.candidate_indexes h.known) (ground arith, tt);
      }

  better_cases : (a b : Solution K) → (better_solution a b ≡ a) ⊎ (better_solution a b ≡ b)
  unfolding better_solution
  better_cases a b = ground arith

  better-IsSound :
      (a b : Solution K) (l : List (Entry K))
      → IsSound a l
      → IsSound b l
      → IsSound (better_solution a b) l
  better-IsSound a b l h k = elim (better_cases a b) [ inl e ↦ rw e h | inr e ↦ rw e k ]

  pub solve_entry-IsSound :
      (done : Solved K) (e : Entry K)
      → AllSound done
      → Pairwise OtherIndex (e ∷ entries done)
      → Pairwise EndsBefore (e ∷ entries done)
      → AllSound (solve_entry done e)
  unfolding solve_entry
  solve_entry-IsSound done e h o b =
      let start = (entry_range e).start in
      let (base, ends) = base_sound start done h o.1 b.1 in
      (
        better-IsSound (include_entry e (base_solution start done)) (last_solution done)
            (e ∷ entries done)
            (include-IsSound (base_solution start done) e (entries done) base o.0 ends)
            (IsSound-pass (last_solution done) e (entries done) (last-IsSound done h) o.0),
        h,
      )
