-- ===== src/Prelude/Sets.antt =====
-- Python's `set` of a sequence, membership, and its `dict`, over values with decidable equality.
-- The program never depends on their order of iteration.
use Prim.Native.Nat.{◌≤◌}
use mathlib.Core.Path.{◌≡◌, refl, sym, ap, ◌∙◌, subst, subst₂}
use mathlib.Core.Bool.{Bool, true, false, not, ◌||◌}
use mathlib.Core.Logic.{inl, inr}
use mathlib.Core.List.{List, [], ◌∷◌}
use mathlib.Core.Option.{Option, none, some}
use native.Mathlib.Omega.{arith}
use cacheblend_gpt_oss.Prelude.Tests.{if◌then◌else◌, holds, holds_iff, Bool-cases, ◌==◌}
use cacheblend_gpt_oss.Prelude.Lists.{length, any, All, All-map, Pairwise}

module _ {ℓ} {A : Type ℓ} (dec : Discrete A) where
  abbrev pub same : A → A → Bool
  same a b = holds (dec a b)

  -- `a in xs`
  abbrev pub member : A → List A → Bool
  member a xs = any (same a) xs

  -- `set(xs)`, as a list without repetitions
  unfoldable pub distinct : List A → List A
  distinct [] = []
  distinct (x ∷ xs) = if member x xs then distinct xs else x ∷ distinct xs

  -- `len(xs) != len(set(xs))`
  unfoldable pub has_duplicates : List A → Bool
  unfolding distinct
  has_duplicates xs = not (length xs == length (distinct xs))

  pub length-distinct-le : (xs : List A) → length (distinct xs) ≤ length xs
  unfolding distinct
  length-distinct-le [] = omega arith
  length-distinct-le (x ∷ xs) = ground (arith, length-distinct-le xs)

  not-member : (x : A) (xs : List A) → member x xs ≡ false → All (λ y. same x y ≡ false) xs
  not-member x [] h = tt
  not-member x (y ∷ xs) h = (ground arith, not-member x xs (ground arith))

  -- Without duplicates, all elements differ from one another.
  pub has_duplicates-false :
      (xs : List A) → has_duplicates xs ≡ false → Pairwise (λ x y. same x y ≡ false) xs
  unfolding has_duplicates distinct
  has_duplicates-false [] h = tt
  has_duplicates-false (x ∷ xs) h = elim (Bool-cases (member x xs)) [
    | inl e ↦ absurd (ground (arith, length-distinct-le xs))
    | inr e ↦ (not-member x xs e, has_duplicates-false xs (ground arith))
  ]

  pub member-distinct : (a : A) (xs : List A) → member a (distinct xs) ≡ member a xs
  unfolding distinct
  member-distinct a [] = refl
  member-distinct a (x ∷ xs) = elim (Bool-cases (member x xs)) [
    | inl e ↦ elim (Bool-cases (same a x)) [
      | inl q ↦
          let r : a ≡ x = (holds_iff (dec a x)).0 q in
          rw e (ground (arith, member-distinct a xs, subst (λ y. member y xs ≡ true) (sym r) e))
      | inr q ↦ rw (e, q) (member-distinct a xs)
    ]
    | inr e ↦ rw e (ap (◌||◌ (same a x)) (member-distinct a xs))
  ]

  same_refl : (a : A) → same a a ≡ true
  same_refl a = (holds_iff (dec a a)).1 refl

  All-member : (xs : List A) → All (λ x. member x xs ≡ true) xs
  All-member [] = tt
  All-member (x ∷ xs) =
      (ground (arith, same_refl x), All-map (λ y h. ground arith) xs (All-member xs))

  -- Values among which there is one distinct value are all that one.
  pub distinct_single : (xs : List A) → length (distinct xs) ≡ 1 → (y : A) × All (λ x. x ≡ y) xs
  distinct_single xs h = single (distinct xs) refl h
    where
      single : (ds : List A) → distinct xs ≡ ds → length ds ≡ 1 → (y : A) × All (λ x. x ≡ y) xs
      single [] e k = absurd (omega arith)
      single (y ∷ d ∷ ds) e k = absurd (omega arith)
      single (y ∷ []) e k = (
        y,
        All-map
            (λ x m.
              let q : member x (y ∷ []) ≡ true =
                subst (λ l. member x l ≡ true) e (member-distinct x xs ∙ m) in
              (holds_iff (dec x y)).0 (ground arith))
            xs (All-member xs),
      )

module _ {ℓ κ} {K : Type ℓ} {V : Type κ} (dec : Discrete K) where
  -- `d.get(k)`
  unfoldable pub get : K → List (K × V) → Option V
  get k [] = none
  get k ((j, v) ∷ d) = if same dec j k then some v else get k d

  -- `d[k] = v`
  unfoldable pub put : K → V → List (K × V) → List (K × V)
  put k v [] = (k, v) ∷ []
  put k v ((j, w) ∷ d) = if same dec j k then (j, v) ∷ d else (j, w) ∷ put k v d

  -- `d.pop(k, None)`; a key stands once in a dictionary that `put` built.
  unfoldable pub remove : K → List (K × V) → List (K × V)
  remove k [] = []
  remove k ((j, v) ∷ d) = let rest = remove k d in if same dec j k then rest else (j, v) ∷ rest

  pub get-put :
      (k j : K) (v : V) (d : List (K × V))
      → get j (put k v d) ≡ (if same dec k j then some v else get j d)
  unfolding get put
  get-put k j v [] = refl
  get-put k j v ((i, w) ∷ d) =
      ground (arith, holds_iff (dec i k), holds_iff (dec i j), holds_iff (dec k j), get-put k j v d)

  pub get-remove :
      (k j : K) (d : List (K × V)) → get j (remove k d) ≡ (if same dec k j then none else get j d)
  unfolding get remove
  get-remove k j [] = ground arith
  get-remove k j ((i, w) ∷ d) =
      ground
        (arith, holds_iff (dec i k), holds_iff (dec i j), holds_iff (dec k j), get-remove k j d)

  -- What holds of every entry of a dictionary holds of what is found, and survives a write.
  pub All-get {μ} :
      (Q : K → V → Type μ) (k : K) (d : List (K × V)) {v : V}
      → All (λ e. Q e.0 e.1) d
      → get k d ≡ some v
      → Q k v
  unfolding get
  All-get Q k [] h e = cc
  All-get Q k ((j, w) ∷ d) {v} h e = elim (Bool-cases (same dec j k)) [
    | inl q ↦ let same_value : w ≡ v = cc in subst₂ Q ((holds_iff (dec j k)).0 q) same_value h.0
    | inr q ↦ All-get Q k d h.1 (rw q at e)
  ]

  pub All-put {μ} :
      (Q : K → V → Type μ) (k : K) (v : V) (d : List (K × V))
      → All (λ e. Q e.0 e.1) d
      → Q k v
      → All (λ e. Q e.0 e.1) (put k v d)
  unfolding put
  All-put Q k v [] h q = (q, tt)
  All-put Q k v ((j, w) ∷ d) h q = elim (Bool-cases (same dec j k)) [
    | inl e ↦ rw e (subst (λ x. Q x v) (sym ((holds_iff (dec j k)).0 e)) q, h.1)
    | inr e ↦ rw e (h.0, All-put Q k v d h.1 q)
  ]
