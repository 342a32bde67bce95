-- ===== src/Layout/Names.antt =====
-- The indexes in attention layer names: src/cacheblend_gpt_oss/gpt_oss/layout.py. A name is the list
-- of its code points. Which characters beyond ASCII `\d` matches, and what `int` makes of them,
-- stands outside: `foreign` is the decimal value of such a character, if it has one.
use cacheblend_gpt_oss.Prelude.{
  ℕ, ◌+◌, ◌*◌, ◌-◌, Bool, false, not, ◌&&◌, List, [], ◌∷◌, Text, Option, none, some, Result, ok,
  raise, ◌>>◌, raise_if, ltb, leb, ◌==◌, length, if◌then◌else◌,
}

pub data HybridLayoutErrorCode : Type 0 where
  invalid_group_count invalid_group_id duplicate_group_id invalid_layer_count :
      HybridLayoutErrorCode
  invalid_layer_name duplicate_layer_name duplicate_layer_index : HybridLayoutErrorCode
  layer_index_out_of_range attention_pattern_mismatch sliding_window_mismatch :
      HybridLayoutErrorCode
  invalid_block_size missing_block_table unexpected_block_table : HybridLayoutErrorCode
  duplicate_block_table block_size_mismatch invalid_block_id empty_transfer : HybridLayoutErrorCode
  range_length_mismatch position_out_of_range block_table_too_short : HybridLayoutErrorCode
  block_unavailable unknown_group unknown_layer : HybridLayoutErrorCode

-- A call that returns, or fails with `HybridLayoutError`.
abbrev pub Laid {ℓ} : Type ℓ → Type ℓ
Laid = Result HybridLayoutErrorCode

abbrev pub num_layers : ℕ
num_layers = 24

-- `model.layers.` and `.attn.attn`
abbrev pub name_prefix : Text
name_prefix = 109 ∷ 111 ∷ 100 ∷ 101 ∷ 108 ∷ 46 ∷ 108 ∷ 97 ∷ 121 ∷ 101 ∷ 114 ∷ 115 ∷ 46 ∷ []

abbrev pub name_suffix : Text
name_suffix = 46 ∷ 97 ∷ 116 ∷ 116 ∷ 110 ∷ 46 ∷ 97 ∷ 116 ∷ 116 ∷ 110 ∷ []

abbrev pub zero_digit : ℕ
zero_digit = 48

-- What follows a prefix that a text starts with.
abbrev pub behind : Text → Text → Option Text
behind [] text = some text
behind (c ∷ prefix) [] = none
behind (c ∷ prefix) (d ∷ text) = let rest = behind prefix text in if c == d then rest else none

module _ (foreign : ℕ → Option ℕ) where
  unfoldable pub digit_value : ℕ → Option ℕ
  digit_value c =
      if ltb c 48
      then none
      else if leb c 57
      then some (c - 48)
      else if ltb c 128
      then none
      else foreign c

  -- The longest run of digits, with their values, and what follows it.
  unfoldable pub digits_of : Text → List (ℕ × ℕ) × Text
  unfolding digit_value
  digits_of [] = ([], [])
  digits_of (c ∷ text) =
      let rest = digits_of text in
      elim (digit_value c) [ none ↦ ([], c ∷ text) | some v ↦ ((c, v) ∷ rest.0, rest.1) ]

  -- `int(digits)`
  abbrev pub value_of : ℕ → List (ℕ × ℕ) → ℕ
  value_of acc [] = acc
  value_of acc (d ∷ ds) = value_of (acc * 10 + d.1) ds

  -- `_LAYER_NAME_PATTERN.fullmatch(layer_name).group(1)`
  unfoldable pub matched_digits : Text → Option (List (ℕ × ℕ))
  unfolding digits_of
  matched_digits name = elim (behind name_prefix name) [
    | none ↦ none
    | some rest ↦ elim (behind name_suffix (digits_of rest).1) [
      | some [] ↦ if length (digits_of rest).0 == 0 then none else some (digits_of rest).0
      | _ ↦ none
    ]
  ]

  abbrev pub starts_with_zero : List (ℕ × ℕ) → Bool
  starts_with_zero [] = false
  starts_with_zero (d ∷ ds) = d.0 == zero_digit

  unfoldable pub bounded_index : List (ℕ × ℕ) → Laid ℕ
  bounded_index digits = do
    raise_if (ltb 2 (length digits)) layer_index_out_of_range
    raise_if (ltb 1 (length digits) && starts_with_zero digits) invalid_layer_name
    raise_if (not (ltb (value_of 0 digits) num_layers)) layer_index_out_of_range
    ok (value_of 0 digits)

  unfoldable pub extract_gpt_oss_layer_index : Text → Laid ℕ
  unfolding matched_digits bounded_index
  extract_gpt_oss_layer_index name = elim (matched_digits name) [
    | none ↦ raise invalid_layer_name
    | some digits ↦ bounded_index digits
  ]
