-- ===== src/Planner/Segmentation.antt =====
-- Storage and query segmentation: src/cacheblend_gpt_oss/planner/segmentation.py. A range with a
-- step is the list of its multiples below the bound, and a sort by falling length is one by the
-- distance to the greatest length.
pub mod Windows
use cacheblend_gpt_oss.Prelude.{
  ℕ, zero, suc, ◌+◌, ◌-◌, ◌%◌, max, Bool, true, false, not, ◌&&◌, ◌||◌, List, [], ◌∷◌, ◌++◌, map,
  Value, int, bool, pos, negsuc, nat, nats, Option, none, some, ok, raise, ◌>>=◌, ◌>>◌, raise_if,
  each, ltb, leb, ◌==◌, length, any, if◌then◌else◌, filter, take, drop, range_from, sorted,
  distinct, same, rev_onto, nat_order, pair_order, list_order, ℕ_discrete,
}
use cacheblend_gpt_oss.Planner.Models.{
  Checked, type_error, value_error, TokenSegment, TokenRange, normalize_token_ids, segment_at,
  segment_len, token_range, token_segment, tokens_discrete,
}

abbrev pub natural_value : Value → Checked ℕ
natural_value (int (pos n)) = ok n
natural_value (int (negsuc n)) = raise value_error
natural_value _ = raise type_error

abbrev pub positive_value : Value → Checked ℕ
positive_value (int (pos n)) = do raise_if (ltb n 1) value_error; ok n
positive_value (int (negsuc n)) = raise value_error
positive_value _ = raise type_error

-- `range(0, n, step)`
abbrev pub stepped : ℕ → ℕ → List ℕ
stepped n step = filter (λ i. i % step == 0) (range_from 0 n)

-- `xs[start:end]`
abbrev pub slice {ℓ} : {A : Type ℓ} → ℕ → ℕ → List A → List A
slice start end xs = take (end - start) (drop start xs)

abbrev pub greatest : List ℕ → ℕ
greatest [] = 0
greatest (n ∷ ns) = max n (greatest ns)

-- `DelimiterSegmenter.__init__`: the delimiters, longest first.
unfoldable pub delimiter_segmenter : List (List Value) → Checked (List (List ℕ))
unfolding each normalize_token_ids sorted distinct
delimiter_segmenter delimiters = do
  normalized ← each normalize_token_ids delimiters
  raise_if (length normalized == 0) value_error
  raise_if (any (λ d. length d == 0) normalized) value_error
  let longest = greatest (map length normalized)
  ok (sorted {K = ℕ × List ℕ} (λ d. (longest - length d, d)) (distinct tokens_discrete normalized))

-- The first delimiter that stands at the head of the tokens.
unfoldable pub delimiter_at : List (List ℕ) → List ℕ → Option (List ℕ)
delimiter_at [] tokens = none
delimiter_at (d ∷ ds) tokens =
    if same tokens_discrete (take (length d) tokens) d then some d else delimiter_at ds tokens

abbrev pub region_segment : ℕ → List ℕ → Checked (List TokenSegment)
region_segment start [] = ok []
region_segment start (t ∷ ts) = do s ← segment_at (nat start) (nats (t ∷ ts)); ok (s ∷ [])

-- The loop over the tokens: how many tokens of a delimiter are still to be passed, the position, the
-- start of the region and its tokens so far.
unfoldable pub scan_regions :
    List (List ℕ) → ℕ → ℕ → ℕ → List ℕ → List ℕ → Checked (List TokenSegment)
unfolding delimiter_at
scan_regions ds skip cursor start region [] = region_segment start region
scan_regions ds (suc skip) cursor start region (t ∷ ts) =
    scan_regions ds skip (suc cursor) start region ts
scan_regions ds zero cursor start region (t ∷ ts) = elim (delimiter_at ds (t ∷ ts)) [
  | none ↦ scan_regions ds zero (suc cursor) start (region ++ t ∷ []) ts
  | some d ↦ do
    found ← region_segment start region
    more ← scan_regions ds (length d - 1) (suc cursor) (cursor + length d) [] ts
    ok (found ++ more)
]

unfoldable pub delimiter_segment : List (List ℕ) → List Value → Value → Checked (List TokenSegment)
unfolding normalize_token_ids scan_regions
delimiter_segment ds ids offset = do
  tokens ← normalize_token_ids ids
  offset' ← natural_value offset
  scan_regions ds 0 offset' offset' [] tokens

pub record FixedChunkStorageSegmenter : Type 0 where
  pub chunk_size : ℕ
  pub include_partial : Bool
  pub minimum_partial_size : ℕ

unfoldable pub fixed_chunk_storage_segmenter :
    Value → Bool → Value → Checked FixedChunkStorageSegmenter
fixed_chunk_storage_segmenter chunk partial minimum = do
  chunk' ← positive_value chunk
  minimum' ← positive_value minimum
  raise_if (ltb chunk' minimum') value_error
  ok (record { chunk_size = chunk'; include_partial = partial; minimum_partial_size = minimum' })

-- The chunks that are kept of one region: their starts and tokens.
abbrev pub keeps_chunk : FixedChunkStorageSegmenter → List ℕ → Bool
keeps_chunk c tokens = not (
    ltb (length tokens) c.chunk_size
    && (not c.include_partial || ltb (length tokens) c.minimum_partial_size))

abbrev pub region_chunks : FixedChunkStorageSegmenter → TokenSegment → List (ℕ × List ℕ)
region_chunks c region =
    filter (λ p. keeps_chunk c p.1)
      (map (λ i. (region.token_range.start + i, slice i (i + c.chunk_size) region.token_ids))
        (stepped (segment_len region) c.chunk_size))

abbrev pub joined {ℓ} : {A : Type ℓ} → List (List A) → List A
joined [] = []
joined (l ∷ ls) = l ++ joined ls

unfoldable pub chunk_segment :
    FixedChunkStorageSegmenter → List TokenSegment → Checked (List TokenSegment)
unfolding each
chunk_segment c regions =
    each (λ p. segment_at (nat p.0) (nats p.1)) (joined (map (region_chunks c) regions))

pub record RollingQuerySegmenter : Type 0 where
  pub window_sizes : List ℕ
  pub stride : ℕ

unfoldable pub rolling_query_segmenter : List Value → Value → Checked RollingQuerySegmenter
unfolding each sorted distinct
rolling_query_segmenter sizes stride = do
  raise_if (length sizes == 0) value_error
  sizes' ← each positive_value sizes
  stride' ← positive_value stride
  ok (record {
    window_sizes = rev_onto (sorted (λ i. i) (distinct ℕ_discrete sizes')) [];
    stride = stride';
  })

-- The windows at one start that end within the region.
abbrev pub windows_at : List ℕ → TokenSegment → ℕ → List (ℕ × ℕ)
windows_at sizes region i =
    filter (λ w. leb w.1 (segment_len region)) (map (λ size. (i, i + size)) sizes)

abbrev pub region_windows : RollingQuerySegmenter → TokenSegment → List (ℕ × ℕ)
region_windows q region =
    joined (map (windows_at q.window_sizes region) (stepped (segment_len region) q.stride))

unfoldable pub window_segment : TokenSegment → ℕ × ℕ → Checked TokenSegment
window_segment region w = do
  r ← token_range (nat (region.token_range.start + w.0)) (nat (region.token_range.start + w.1))
  token_segment r (nats (slice w.0 w.1 region.token_ids))

-- The windows of one region, in order.
unfoldable pub region_candidates :
    RollingQuerySegmenter → TokenSegment → Checked (List TokenSegment)
unfolding each window_segment
region_candidates q region = each (window_segment region) (region_windows q region)

unfoldable pub rolling_segment :
    RollingQuerySegmenter → List TokenSegment → Checked (List TokenSegment)
unfolding region_candidates
rolling_segment q [] = ok []
rolling_segment q (region ∷ regions) = do
  found ← region_candidates q region
  more ← rolling_segment q regions
  ok (found ++ more)
