-- ===== src/Prelude/Values.antt =====
-- Values of the dynamic language, for the constructors that test the types of their arguments.
-- A text stands for its UTF-8 bytes: equality, order, emptiness and NUL agree with the text's.
use Prim.Native.Nat.{ℕ, ◌+◌, suc}
use mathlib.Core.Bool.{Bool, true, false}
use mathlib.Core.List.{List, [], ◌∷◌, map}
use Prim.Native.Char.{code}
use Prim.Native.String.{String}
use cacheblend_gpt_oss.Prelude.Int.{ℤ, pos, negsuc, sub_ℕ}

abbrev pub Text : Type 0
Text = List ℕ

-- The code points of an ASCII text, which are its bytes.
abbrev pub codes : String → Text
codes String.[] = []
codes (String.◌∷◌ c s) = code c ∷ codes s

pub data Value : Type 0 where
  bool : Bool → Value
  int : ℤ → Value
  str : Text → Value
  bytes : List ℕ → Value
  other : Value

-- `_is_int`: an `int` that is no `bool`.
abbrev pub is_int : Value → Bool
is_int (int z) = true
is_int _ = false

abbrev pub nat : ℕ → Value
nat n = int (pos n)

abbrev pub nats : List ℕ → List Value
nats = map nat

abbrev pub add_ℕ : ℤ → ℕ → ℤ
add_ℕ (pos a) n = pos (a + n)
add_ℕ (negsuc a) n = sub_ℕ n (suc a)
