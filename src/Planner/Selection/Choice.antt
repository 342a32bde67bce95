-- ===== src/Planner/Selection/Choice.antt =====
-- Choices among numbered candidates: their tokens, and whether they keep apart.
use cacheblend_gpt_oss.Prelude.{
  ℕ, ◌+◌, ◌≤◌, ◌<◌, ◌≡◌, refl, Bool, true, false, List, [], ◌∷◌, map, if◌then◌else◌, All, Pairwise,
  ◌==◌, arith, rev_onto, ◌∙◌,
}
use cacheblend_gpt_oss.Planner.Coverage.{Apart}
use cacheblend_gpt_oss.Planner.Selection.{Entry, entry_range, Solved}

module _ {K : Type 0} where
  abbrev pub entries : Solved K → List (Entry K)
  entries = map (λ x. x.0)

  abbrev pub entry_len : Entry K → ℕ
  entry_len e = e.1.tokens

  -- The tokens of the entries whose index passes the test.
  unfoldable pub weight : (ℕ → Bool) → List (Entry K) → ℕ
  weight p [] = 0
  weight p (e ∷ l) = (if p e.0 then entry_len e else 0) + weight p l

  -- Two chosen entries keep apart.
  abbrev pub ClearPair : (ℕ → Bool) → Entry K → Entry K → Type 0
  ClearPair p a b = p a.0 ≡ true → p b.0 ≡ true → Apart (entry_range a) (entry_range b)

  abbrev pub IsClear : (ℕ → Bool) → List (Entry K) → Type 0
  IsClear p = Pairwise (ClearPair p)

  abbrev pub IsFilled : Entry K → Type 0
  IsFilled e = (entry_range e).start < (entry_range e).end

  -- Ends fall, or stay, from each entry to those behind it.
  abbrev pub EndsBefore : Entry K → Entry K → Type 0
  EndsBefore a b = (entry_range b).end ≤ (entry_range a).end

  abbrev pub OtherIndex : Entry K → Entry K → Type 0
  OtherIndex a b = (a.0 == b.0) ≡ false

  pub ClearPair-symm : (p : ℕ → Bool) (a b : Entry K) → ClearPair p a b → ClearPair p b a
  ClearPair-symm p a b h i j = ground (arith, h j i)

  pub weight-cong :
      (p q : ℕ → Bool) (l : List (Entry K)) → All (λ e. p e.0 ≡ q e.0) l → weight p l ≡ weight q l
  unfolding weight
  weight-cong p q [] h = refl
  weight-cong p q (e ∷ l) h = ground (arith, weight-cong p q l h.1)

  ClearPair-cong :
      (p q : ℕ → Bool) (e : Entry K) (l : List (Entry K))
      → p e.0 ≡ q e.0
      → All (λ a. p a.0 ≡ q a.0) l
      → All (ClearPair p e) l
      → All (ClearPair q e) l
  ClearPair-cong p q e [] h k c = tt
  ClearPair-cong p q e (a ∷ l) h k c =
      (λ i j. c.0 (h ∙ i) (k.0 ∙ j), ClearPair-cong p q e l h k.1 c.1)

  pub IsClear-cong :
      (p q : ℕ → Bool) (l : List (Entry K)) → All (λ e. p e.0 ≡ q e.0) l → IsClear p l → IsClear q l
  IsClear-cong p q [] h c = tt
  IsClear-cong p q (e ∷ l) h c = (ClearPair-cong p q e l h.0 h.1 c.0, IsClear-cong p q l h.1 c.1)

  -- An entry that is not chosen keeps apart from all.
  pub unchosen-ClearPair :
      (p : ℕ → Bool) (e : Entry K) (l : List (Entry K)) → p e.0 ≡ false → All (ClearPair p e) l
  unchosen-ClearPair p e [] h = tt
  unchosen-ClearPair p e (a ∷ l) h = (λ i j. cc, unchosen-ClearPair p e l h)

  pub weight-rev_onto :
      (p : ℕ → Bool) (l acc : List (Entry K))
      → weight p (rev_onto l acc) ≡ weight p l + weight p acc
  unfolding weight
  weight-rev_onto p [] acc = omega arith
  weight-rev_onto p (e ∷ l) acc = omega (arith, weight-rev_onto p l (e ∷ acc))
