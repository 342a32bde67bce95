-- ===== src/Prelude/Lists.antt =====
-- Lists measured by native numbers, Boolean quantifiers over lists, and predicates by recursion.
use Prim.Native.Nat.{ℕ, zero, suc, ◌+◌, ◌-◌, min}
use mathlib.Core.Path.{◌≡◌, refl, ap}
use mathlib.Core.Bool.{Bool, true, false, ◌||◌}
use mathlib.Core.List.{List, [], ◌∷◌, ◌++◌, map}
use mathlib.Core.Option.{Option, none, some}
use mathlib.Core.Logic.{inl, inr}
use native.Mathlib.Omega.{arith}
use cacheblend_gpt_oss.Prelude.Tests.{if◌then◌else◌, ◌==◌, Bool-cases}

module _ {ℓ} {A : Type ℓ} where
  abbrev pub length : List A → ℕ
  length [] = 0
  length (x ∷ xs) = suc (length xs)

  abbrev pub get_elem? : List A → ℕ → Option A
  get_elem? [] i = none
  get_elem? (x ∷ xs) zero = some x
  get_elem? (x ∷ xs) (suc i) = get_elem? xs i

  abbrev pub take : ℕ → List A → List A
  take zero xs = []
  take (suc n) [] = []
  take (suc n) (x ∷ xs) = x ∷ take n xs

  abbrev pub drop : ℕ → List A → List A
  drop zero xs = xs
  drop (suc n) [] = []
  drop (suc n) (x ∷ xs) = drop n xs

  abbrev pub filter : (A → Bool) → List A → List A
  filter p [] = []
  filter p (x ∷ xs) = if p x then x ∷ filter p xs else filter p xs

  abbrev pub any : (A → Bool) → List A → Bool
  any p [] = false
  any p (x ∷ xs) = p x || any p xs

  -- The numbered elements from `i` on, as `enumerate` gives them.
  abbrev pub enumerate : ℕ → List A → List (ℕ × A)
  enumerate i [] = []
  enumerate i (x ∷ xs) = (i, x) ∷ enumerate (suc i) xs

  pub length-append : (xs ys : List A) → length (xs ++ ys) ≡ length xs + length ys
  length-append [] ys = omega arith
  length-append (x ∷ xs) ys = omega (arith, length-append xs ys)

  pub length-take : (n : ℕ) (xs : List A) → length (take n xs) ≡ min n (length xs)
  length-take zero xs = omega arith
  length-take (suc n) [] = omega arith
  length-take (suc n) (x ∷ xs) = omega (arith, length-take n xs)

  pub length-drop : (n : ℕ) (xs : List A) → length (drop n xs) ≡ length xs - n
  length-drop zero xs = omega arith
  length-drop (suc n) [] = omega arith
  length-drop (suc n) (x ∷ xs) = omega (arith, length-drop n xs)

  pub take-append-drop : (n : ℕ) (xs : List A) → take n xs ++ drop n xs ≡ xs
  take-append-drop zero xs = refl
  take-append-drop (suc n) [] = refl
  take-append-drop (suc n) (x ∷ xs) = ap (◌∷◌ x) (take-append-drop n xs)

abbrev pub sum : List ℕ → ℕ
sum [] = 0
sum (x ∷ xs) = x + sum xs

-- The numbers from `i` on, `n` of them.
abbrev pub range_from : ℕ → ℕ → List ℕ
range_from i zero = []
range_from i (suc n) = i ∷ range_from (suc i) n

abbrev pub elem : ℕ → List ℕ → Bool
elem a xs = any (λ x. a == x) xs

-- A predicate of every element, and a relation of every element to every later one.
abbrev pub All {ℓ κ} : {A : Type ℓ} → (A → Type κ) → List A → Type κ
All P [] = Unit
All P (x ∷ xs) = P x × All P xs

abbrev pub Pairwise {ℓ κ} : {A : Type ℓ} → (A → A → Type κ) → List A → Type κ
Pairwise R [] = Unit
Pairwise R (x ∷ xs) = All (R x) xs × Pairwise R xs

module _ {ℓ κ μ} {A : Type ℓ} {P : A → Type κ} {Q : A → Type μ} where
  pub All-map : ((a : A) → P a → Q a) → (xs : List A) → All P xs → All Q xs
  All-map f [] h = tt
  All-map f (x ∷ xs) h = (f x h.0, All-map f xs h.1)

module _ {ℓ κ} {A : Type ℓ} (P : A → Type κ) where
  pub All-of : ((a : A) → P a) → (xs : List A) → All P xs
  All-of f [] = tt
  All-of f (x ∷ xs) = (f x, All-of f xs)

  pub All-append : (xs ys : List A) → All P xs → All P ys → All P (xs ++ ys)
  All-append [] ys h k = k
  All-append (x ∷ xs) ys h k = (h.0, All-append xs ys h.1 k)

  pub All-filter : (p : A → Bool) (xs : List A) → All P xs → All P (filter p xs)
  All-filter p [] h = tt
  All-filter p (x ∷ xs) h = ground (arith, All-filter p xs h.1)

  pub All-take : (n : ℕ) (xs : List A) → All P xs → All P (take n xs)
  All-take zero xs h = tt
  All-take (suc n) [] h = tt
  All-take (suc n) (x ∷ xs) h = (h.0, All-take n xs h.1)

  pub All-drop : (n : ℕ) (xs : List A) → All P xs → All P (drop n xs)
  All-drop zero xs h = h
  All-drop (suc n) [] h = tt
  All-drop (suc n) (x ∷ xs) h = All-drop n xs h.1

pub All-zip {ℓ κ μ} :
    {A : Type ℓ} (P : A → Type κ) (Q : A → Type μ) (xs : List A)
    → All P xs
    → All Q xs
    → All (λ x. P x × Q x) xs
All-zip P Q [] h k = tt
All-zip P Q (x ∷ xs) h k = ((h.0, k.0), All-zip P Q xs h.1 k.1)

abbrev pub rev_onto {ℓ} : {A : Type ℓ} → List A → List A → List A
rev_onto [] acc = acc
rev_onto (x ∷ xs) acc = rev_onto xs (x ∷ acc)

-- Reversal turns a relation between the elements round.
pub rev_onto-Pairwise {ℓ κ} :
    {A : Type ℓ} (R : A → A → Type κ) (xs acc : List A)
    → Pairwise R xs
    → Pairwise (λ a b. R b a) acc
    → All (λ x. All (λ y. R y x) acc) xs
    → Pairwise (λ a b. R b a) (rev_onto xs acc)
rev_onto-Pairwise R [] acc h k c = k
rev_onto-Pairwise R (x ∷ xs) acc h k c =
    rev_onto-Pairwise R xs (x ∷ acc) h.1 (c.0, k)
      (All-zip (λ y. R x y) (λ y. All (λ z. R z y) acc) xs h.0 c.1)

pub Pairwise-of_rev_onto {ℓ κ} :
    {A : Type ℓ} (R : A → A → Type κ) (xs acc : List A)
    → Pairwise R (rev_onto xs acc)
    → Pairwise R acc
Pairwise-of_rev_onto R [] acc h = h
Pairwise-of_rev_onto R (x ∷ xs) acc h = (Pairwise-of_rev_onto R xs (x ∷ acc) h).1

pub rev_onto-All {ℓ κ} :
    {A : Type ℓ} (P : A → Type κ) (xs acc : List A) → All P xs → All P acc → All P (rev_onto xs acc)
rev_onto-All P [] acc h k = k
rev_onto-All P (x ∷ xs) acc h k = rev_onto-All P xs (x ∷ acc) h.1 (h.0, k)

pub All-of_rev_onto {ℓ κ} :
    {A : Type ℓ} (P : A → Type κ) (xs acc : List A) → All P (rev_onto xs acc) → All P acc
All-of_rev_onto P [] acc h = h
All-of_rev_onto P (x ∷ xs) acc h = (All-of_rev_onto P xs (x ∷ acc) h).1

pub Pairwise-map {ℓ κ μ} :
    {A : Type ℓ} {R : A → A → Type κ} {S : A → A → Type μ}
    → ((a b : A) → R a b → S a b)
    → (xs : List A) → Pairwise R xs
    → Pairwise S xs
Pairwise-map f [] h = tt
Pairwise-map f (x ∷ xs) h = (All-map (f x) xs h.0, Pairwise-map f xs h.1)

-- A symmetric relation between all elements survives reversal, the other way round.
pub Pairwise-of_rev_onto_symm {ℓ κ} :
    {A : Type ℓ} (R : A → A → Type κ)
    → ((a b : A) → R a b → R b a)
    → (xs acc : List A) → Pairwise R (rev_onto xs acc)
    → Pairwise R xs × All (λ x. All (R x) acc) xs
Pairwise-of_rev_onto_symm R symm [] acc h = (tt, tt)
Pairwise-of_rev_onto_symm R symm (x ∷ xs) acc h =
    let (p, c) = Pairwise-of_rev_onto_symm R symm xs (x ∷ acc) h in
    let own = Pairwise-of_rev_onto R xs (x ∷ acc) h in
    ((All-map (λ y r. symm y x r.0) xs c, p), (own.0, All-map (λ y r. r.1) xs c))

pub Pairwise-zip {ℓ κ μ} :
    {A : Type ℓ} (R : A → A → Type κ) (S : A → A → Type μ) (xs : List A)
    → Pairwise R xs
    → Pairwise S xs
    → Pairwise (λ a b. R a b × S a b) xs
Pairwise-zip R S [] h k = tt
Pairwise-zip R S (x ∷ xs) h k = (All-zip (R x) (S x) xs h.0 k.0, Pairwise-zip R S xs h.1 k.1)

pub Pairwise-of_All {ℓ κ} :
    {A : Type ℓ} (P : A → Type κ) (xs : List A) → All P xs → Pairwise (λ a b. P a × P b) xs
Pairwise-of_All P [] h = tt
Pairwise-of_All P (x ∷ xs) h = (All-map (λ y q. (h.0, q)) xs h.1, Pairwise-of_All P xs h.1)

module _ {ℓ κ} {A : Type ℓ} {B : Type κ} (f : A → B) where
  pub length-map : (xs : List A) → length (map f xs) ≡ length xs
  length-map [] = refl
  length-map (x ∷ xs) = ap suc (length-map xs)

  -- A predicate of the images, and a relation between them.
  pub All-map_on {μ} : (P : B → Type μ) (xs : List A) → All (λ x. P (f x)) xs → All P (map f xs)
  All-map_on P [] h = tt
  All-map_on P (x ∷ xs) h = (h.0, All-map_on P xs h.1)

  pub All-of_map {μ} : (P : B → Type μ) (xs : List A) → All P (map f xs) → All (λ x. P (f x)) xs
  All-of_map P [] h = tt
  All-of_map P (x ∷ xs) h = (h.0, All-of_map P xs h.1)

  pub Pairwise-map_on {μ} :
      (R : B → B → Type μ) (xs : List A)
      → Pairwise (λ x y. R (f x) (f y)) xs
      → Pairwise R (map f xs)
  Pairwise-map_on R [] h = tt
  Pairwise-map_on R (x ∷ xs) h = (All-map_on (R (f x)) xs h.0, Pairwise-map_on R xs h.1)

  pub Pairwise-of_map {μ} :
      (R : B → B → Type μ) (xs : List A)
      → Pairwise R (map f xs)
      → Pairwise (λ x y. R (f x) (f y)) xs
  Pairwise-of_map R [] h = tt
  Pairwise-of_map R (x ∷ xs) h = (All-of_map (R (f x)) xs h.0, Pairwise-of_map R xs h.1)

  pub sum-map_on : (g : B → ℕ) (xs : List A) → sum (map g (map f xs)) ≡ sum (map (λ x. g (f x)) xs)
  sum-map_on g [] = refl
  sum-map_on g (x ∷ xs) = ap (◌+◌ (g (f x))) (sum-map_on g xs)

-- Sums over, and the element behind, what a list is extended by.
pub sum-append {ℓ} :
    {A : Type ℓ} (f : A → ℕ) (xs ys : List A)
    → sum (map f (xs ++ ys)) ≡ sum (map f xs) + sum (map f ys)
sum-append f [] ys = omega arith
sum-append f (x ∷ xs) ys = omega (arith, sum-append f xs ys)

pub sum-snoc {ℓ} :
    {A : Type ℓ} (f : A → ℕ) (xs : List A) (x : A)
    → sum (map f (xs ++ x ∷ [])) ≡ sum (map f xs) + f x
sum-snoc f xs x = omega (arith, sum-append f xs (x ∷ []))

pub get_elem-append {ℓ} :
    {A : Type ℓ} (xs : List A) (x : A) (ys : List A) → get_elem? (xs ++ x ∷ ys) (length xs) ≡ some x
get_elem-append [] x ys = refl
get_elem-append (z ∷ xs) x ys = get_elem-append xs x ys

pub All-passed {ℓ} : {A : Type ℓ} (p : A → Bool) (xs : List A) → All (λ x. p x ≡ true) (filter p xs)
All-passed p [] = tt
All-passed p (x ∷ xs) = ground (arith, All-passed p xs)

-- What holds of all that pass a test holds, under the test, of all.
pub All-of_filter {ℓ κ} :
    {A : Type ℓ} (P : A → Type κ) (p : A → Bool) (xs : List A)
    → All P (filter p xs)
    → All (λ x. p x ≡ true → P x) xs
All-of_filter P p [] h = tt
All-of_filter P p (x ∷ xs) h = elim (Bool-cases (p x)) [
  | inl e ↦ let k : All P (x ∷ filter p xs) = rw e at h in (λ _. k.0, All-of_filter P p xs k.1)
  | inr e ↦ (λ t. cc, All-of_filter P p xs (rw e at h))
]
