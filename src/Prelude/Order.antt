-- ===== src/Prelude/Order.antt =====
-- Total orders as Boolean tests, with Python's order on tuples and sequences.
use Prim.Native.Nat.{ℕ}
use mathlib.Core.Path.{◌≡◌, refl}
use mathlib.Core.Bool.{Bool, true, false}
use mathlib.Core.List.{List, [], ◌∷◌}
use native.Mathlib.Omega.{arith}
use cacheblend_gpt_oss.Prelude.Tests.{leb, if◌then◌else◌}

pub record TotalOrder {ℓ} (A : Type ℓ) : Type ℓ where
  pub le : A → A → Bool
  pub total : (a b : A) → le a b ≡ false → le b a ≡ true
  pub trans : (a b c : A) → le a b ≡ true → le b c ≡ true → le a c ≡ true
  pub antisym : (a b : A) → le a b ≡ true → le b a ≡ true → a ≡ b

pub nat_total : (a b : ℕ) → leb a b ≡ false → leb b a ≡ true
nat_total a b h = ground arith

pub nat_trans : (a b c : ℕ) → leb a b ≡ true → leb b c ≡ true → leb a c ≡ true
nat_trans a b c h k = ground arith

pub nat_antisym : (a b : ℕ) → leb a b ≡ true → leb b a ≡ true → a ≡ b
nat_antisym a b h k = ground arith

instance abbrev pub nat_order : TotalOrder ℕ
nat_order = record { le = leb; total = nat_total; trans = nat_trans; antisym = nat_antisym }

module _ {ℓ κ} {A : Type ℓ} {B : Type κ} ⦃o : TotalOrder A⦄ ⦃u : TotalOrder B⦄ where
  abbrev pub pair_le : A × B → A × B → Bool
  pair_le (a, b) (c, d) = if o.le a c then (if o.le c a then u.le b d else true) else false

  pub pair_total : (x y : A × B) → pair_le x y ≡ false → pair_le y x ≡ true
  pair_total (a, b) (c, d) h = ground (arith, o.total a c, u.total b d)

  pub pair_trans : (x y z : A × B) → pair_le x y ≡ true → pair_le y z ≡ true → pair_le x z ≡ true
  pair_trans (a, b) (c, d) (e, f) h k =
      ground (arith, o.trans a c e, u.trans b d f, o.trans e a c, o.trans c e a, o.trans e c a)

  pub pair_antisym : (x y : A × B) → pair_le x y ≡ true → pair_le y x ≡ true → x ≡ y
  pair_antisym (a, b) (c, d) h k = ground (arith, o.antisym a c, u.antisym b d)

instance abbrev pub pair_order {ℓ κ} :
    {A : Type ℓ} {B : Type κ} ⦃o : TotalOrder A⦄ ⦃u : TotalOrder B⦄ → TotalOrder (A × B)
pair_order = record { le = pair_le; total = pair_total; trans = pair_trans; antisym = pair_antisym }

module _ {ℓ} {A : Type ℓ} ⦃o : TotalOrder A⦄ where
  abbrev pub list_le : List A → List A → Bool
  list_le [] ys = true
  list_le (x ∷ xs) [] = false
  list_le (x ∷ xs) (y ∷ ys) = if o.le x y then (if o.le y x then list_le xs ys else true) else false

  pub list_total : (x y : List A) → list_le x y ≡ false → list_le y x ≡ true
  list_total [] ys h = cc
  list_total (x ∷ xs) [] h = refl
  list_total (x ∷ xs) (y ∷ ys) h = ground (arith, o.total x y, list_total xs ys)

  pub list_trans : (x y z : List A) → list_le x y ≡ true → list_le y z ≡ true → list_le x z ≡ true
  list_trans [] ys zs h k = refl
  list_trans (x ∷ xs) [] zs h k = cc
  list_trans (x ∷ xs) (y ∷ ys) [] h k = cc
  list_trans (a ∷ xs) (c ∷ ys) (e ∷ zs) h k =
      ground
        (arith, o.trans a c e, list_trans xs ys zs, o.trans e a c, o.trans c e a, o.trans e c a)

  pub list_antisym : (x y : List A) → list_le x y ≡ true → list_le y x ≡ true → x ≡ y
  list_antisym [] [] h k = refl
  list_antisym [] (y ∷ ys) h k = cc
  list_antisym (x ∷ xs) [] h k = cc
  list_antisym (x ∷ xs) (y ∷ ys) h k = ground (arith, o.antisym x y, list_antisym xs ys)

instance abbrev pub list_order {ℓ} : {A : Type ℓ} ⦃o : TotalOrder A⦄ → TotalOrder (List A)
list_order = record { le = list_le; total = list_total; trans = list_trans; antisym = list_antisym }
