-- ===== src/Tests/Segmenting.antt =====
-- Runs of the segmenters on small inputs.
use cacheblend_gpt_oss.Prelude.{
  ◌≡◌, refl, List, [], ◌∷◌, ok, nat, nats, true, ℕ_discrete, Occurs, ◌↔◌, arith,
}
use cacheblend_gpt_oss.Planner.Models.{
  TokenSegment, tokens_discrete, segment_at, token_segment, token_range,
}
use cacheblend_gpt_oss.Planner.Segmentation.{
  RollingQuerySegmenter, delimiter_segment, chunk_segment, region_candidates, delimiter_segmenter,
  rolling_query_segmenter,
}
use cacheblend_gpt_oss.Planner.Segmentation.Windows.{IsWindow, region_candidates-IsWindow}
use cacheblend_gpt_oss.Tests.{segment}

-- The delimiter 1 2 wins over 1, and regions keep their positions.
delimiter_test :
    delimiter_segment ((1 ∷ 2 ∷ []) ∷ (1 ∷ []) ∷ []) (nats (7 ∷ 8 ∷ 1 ∷ 2 ∷ 9 ∷ 1 ∷ [])) (nat 10)
    ≡ ok (segment 10 12 (7 ∷ 8 ∷ []) ∷ segment 14 15 (9 ∷ []) ∷ [])
unfolding delimiter_segment tokens_discrete ℕ_discrete segment_at
delimiter_test = refl

chunk_test :
    chunk_segment
      (record { chunk_size = 2; include_partial = true; minimum_partial_size = 1 })
      (segment 4 7 (7 ∷ 8 ∷ 9 ∷ []) ∷ [])
    ≡ ok (segment 4 6 (7 ∷ 8 ∷ []) ∷ segment 6 7 (9 ∷ []) ∷ [])
unfolding chunk_segment segment_at
chunk_test = refl

segmenter_test :
    delimiter_segmenter (nats (1 ∷ []) ∷ nats (3 ∷ []) ∷ nats (1 ∷ 2 ∷ []) ∷ nats (1 ∷ []) ∷ [])
    ≡ ok ((1 ∷ 2 ∷ []) ∷ (1 ∷ []) ∷ (3 ∷ []) ∷ [])
unfolding delimiter_segmenter tokens_discrete ℕ_discrete
segmenter_test = refl

abbrev rolling : RollingQuerySegmenter
rolling = record { window_sizes = 2 ∷ 1 ∷ []; stride = 2 }

rolling_test : rolling_query_segmenter (nats (1 ∷ 2 ∷ 1 ∷ [])) (nat 2) ≡ ok rolling
unfolding rolling_query_segmenter ℕ_discrete
rolling_test = refl

abbrev windows : List TokenSegment
windows = segment 4 6 (7 ∷ 8 ∷ []) ∷ segment 4 5 (7 ∷ []) ∷ segment 6 7 (9 ∷ []) ∷ []

windows_found : region_candidates rolling (segment 4 7 (7 ∷ 8 ∷ 9 ∷ [])) ≡ ok windows
unfolding region_candidates token_range token_segment
windows_found = refl

abbrev region : TokenSegment
region = segment 4 7 (7 ∷ 8 ∷ 9 ∷ [])

region_candidates-IsWindow_example :
    (out : List TokenSegment) × (region_candidates rolling region ≡ ok out)
    × ((s : TokenSegment) → Occurs s out ↔ IsWindow rolling region s)
region_candidates-IsWindow_example =
    region_candidates-IsWindow rolling region
      (record {
        nonempty = omega arith;
        fits = refl;
        bounded = (omega arith, (omega arith, (omega arith, tt)));
      })
      (omega arith) (omega arith, (omega arith, tt))
