-- ===== src/Planner/Matching/Chosen.antt =====
-- What `_select_non_overlapping` of src/cacheblend_gpt_oss/planner/matching.py selects of verified
-- candidates.
use cacheblend_gpt_oss.Prelude.{
  ℕ, ◌≤◌, ◌<◌, Bool, List, map, All, Pairwise, sum, nat_order, pair_order, list_order,
}
use cacheblend_gpt_oss.Planner.Models.{CandidateMatch, segment_len}
use cacheblend_gpt_oss.Planner.Coverage.{Apart}
use cacheblend_gpt_oss.Planner.Selection.{pick}
use cacheblend_gpt_oss.Planner.Selection.Views.{view-apart, view_maximal}
use cacheblend_gpt_oss.Planner.Matching.{candidate_item, selects}

abbrev pub IsFilledMatch : CandidateMatch → Type 0
IsFilledMatch c = c.target_segment.token_range.start < c.target_segment.token_range.end

-- The targets of two candidates do not overlap.
abbrev pub ApartMatch : CandidateMatch → CandidateMatch → Type 0
ApartMatch a b = Apart a.target_segment.token_range b.target_segment.token_range

abbrev pub tokens_of : List CandidateMatch → ℕ
tokens_of cs = sum (map (λ c. segment_len c.target_segment) cs)

-- If every candidate's target is non-empty, the selected candidates do not overlap one another.
pub select-apart :
    (cs : List CandidateMatch) → All IsFilledMatch cs → Pairwise ApartMatch (pick (selects cs) cs)
select-apart cs filled = view-apart candidate_item cs filled

-- If every candidate's target is non-empty, no choice of candidates that do not overlap one
-- another has more tokens than the selection.
pub select_maximal :
    (cs : List CandidateMatch) (test : ℕ → Bool)
    → All IsFilledMatch cs
    → Pairwise ApartMatch (pick test cs)
    → tokens_of (pick test cs) ≤ tokens_of (pick (selects cs) cs)
select_maximal cs test filled apart = view_maximal candidate_item cs test filled apart
