-- ===== src/Prelude/Count.antt =====
-- How many positions below a bound satisfy a test.
use Prim.Native.Nat.{ℕ, zero, suc, ◌+◌, ◌-◌, ◌≤◌, ◌<◌}
use mathlib.Core.Path.{◌≡◌, refl}
use mathlib.Core.Bool.{Bool, true, false, ◌&&◌, ◌||◌}
use native.Mathlib.Omega.{arith}
use cacheblend_gpt_oss.Prelude.Tests.{if◌then◌else◌, leb, ltb}

unfoldable pub count_below : ℕ → (ℕ → Bool) → ℕ
count_below zero p = 0
count_below (suc n) p = count_below n p + (if p n then 1 else 0)

abbrev pub between : ℕ → ℕ → ℕ → Bool
between a b x = leb a x && ltb x b

pub count_below_cong :
    (n : ℕ) (p q : ℕ → Bool) → ((x : ℕ) → x < n → p x ≡ q x) → count_below n p ≡ count_below n q
unfolding count_below
count_below_cong zero p q h = refl
count_below_cong (suc n) p q h =
    ground (arith, h n (omega arith), count_below_cong n p q (λ x l. h x (omega arith)))

pub count_below_mono :
    (n : ℕ) (p q : ℕ → Bool)
    → ((x : ℕ) → p x ≡ true → q x ≡ true)
    → count_below n p ≤ count_below n q
unfolding count_below
count_below_mono zero p q h = omega arith
count_below_mono (suc n) p q h = ground (arith, h n, count_below_mono n p q h)

pub count_below_or :
    (n : ℕ) (p q : ℕ → Bool)
    → ((x : ℕ) → p x ≡ true → q x ≡ false)
    → count_below n (λ x. p x || q x) ≡ count_below n p + count_below n q
unfolding count_below
count_below_or zero p q h = omega arith
count_below_or (suc n) p q h = ground (arith, h n, count_below_or n p q h)

pub count_below_none : (n : ℕ) → count_below n (λ x. false) ≡ 0
unfolding count_below
count_below_none zero = refl
count_below_none (suc n) = omega (arith, count_below_none n)

between_below : (a b n : ℕ) → n ≤ b → count_below n (between a b) ≡ n - a
unfolding count_below
between_below a b zero h = omega arith
between_below a b (suc n) h = ground (arith, between_below a b n)

pub count_below-between : (a b n : ℕ) → b ≤ n → count_below n (between a b) ≡ b - a
unfolding count_below
count_below-between a b zero h = ground arith
count_below-between a b (suc n) h = ground (arith, between_below a b n, count_below-between a b n)

pub count_below-le : (n : ℕ) (p : ℕ → Bool) → count_below n p ≤ n
unfolding count_below
count_below-le zero p = omega arith
count_below-le (suc n) p = ground (arith, count_below-le n p)
