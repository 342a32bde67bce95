-- ===== src/Tests/Planning.antt =====
-- Runs of the planner on small inputs.
use cacheblend_gpt_oss.Prelude.{
  ◌≤◌, ◌<◌, ◌≡◌, refl, true, false, List, [], ◌∷◌, ◌==◌, arith, All, Pairwise, nats, str,
  count_below, nat_order, pair_order, list_order, none, ok, ℕ_discrete,
}
use cacheblend_gpt_oss.Planner.Models.{
  CandidateMatch, TokenSegment, CacheRecord, token_segment, cache_record,
  SegmentFingerprint-discrete, CacheNamespace-discrete, tokens_discrete,
}
use cacheblend_gpt_oss.Planner.Models.Laws.{IsSegment}
use cacheblend_gpt_oss.Planner.Coverage.{
  covered_token_count, covers, targets, covered_token_count-count,
}
use cacheblend_gpt_oss.Planner.Selection.{pick, select_non_overlapping}
use cacheblend_gpt_oss.Planner.Matching.Chosen.{ApartMatch, tokens_of, select_maximal}
use cacheblend_gpt_oss.Planner.Matching.{
  selects, candidate, match_target, matched_tokens, judge_queries, verify_candidate,
}
use cacheblend_gpt_oss.Planner.Matching.Judging.{IsVerified}
use cacheblend_gpt_oss.Planner.Matching.Plans.{plan-IsVerified, plan-apart, plan_maximal, judged}
use cacheblend_gpt_oss.Tests.{
  namespace, tokens_digest, span, segment, long_segment, middle_segment, late_segment, queries,
  cached_record, cache, match_plan,
}

abbrev candidates : List CandidateMatch
candidates =
    candidate long_segment (tokens_digest namespace long_segment.token_ids)
      (cached_record long_segment (1 ∷ []))
    ∷ candidate middle_segment (tokens_digest namespace middle_segment.token_ids)
        (cached_record middle_segment (2 ∷ []))
    ∷ candidate late_segment (tokens_digest namespace late_segment.token_ids)
        (cached_record late_segment (3 ∷ []))
    ∷ []

selects_test :
    (selects candidates 0 ≡ true) × (selects candidates 1 ≡ false) × (selects candidates 2 ≡ true)
unfolding select_non_overlapping
selects_test = (refl, refl, refl)

pub queries-IsSegment : All IsSegment queries
queries-IsSegment = (
  record { nonempty = omega arith; fits = refl; bounded = (omega arith, (omega arith, tt)) },
  (
    record { nonempty = omega arith; fits = refl; bounded = (omega arith, tt) },
    (
      record {
        nonempty = omega arith;
        fits = refl;
        bounded = (omega arith, (omega arith, (omega arith, tt)));
      },
      tt,
    ),
  ),
)

queries-filled : All (λ (s : TokenSegment). s.token_range.start < s.token_range.end) queries
queries-filled = (omega arith, (omega arith, (omega arith, tt)))

-- The middle candidate alone is a choice; the plan takes the two others.
select_maximal_example :
    tokens_of (pick (λ i. i == 1) candidates) ≤ tokens_of (pick (selects candidates) candidates)
select_maximal_example =
    select_maximal candidates (λ i. i == 1) (omega arith, (omega arith, (omega arith, tt))) (tt, tt)

plan-IsVerified_example :
    All
      (λ m.
        IsVerified tokens_digest namespace m.candidate
        × (m.candidate.query_fingerprint ≡ tokens_digest namespace (match_target m).token_ids))
      match_plan.matches
plan-IsVerified_example = plan-IsVerified tokens_digest cache namespace queries

plan-apart_example : Pairwise (λ m n. ApartMatch m.candidate n.candidate) match_plan.matches
plan-apart_example = plan-apart tokens_digest cache namespace queries queries-filled

-- The first verified candidate, the middle one, is a choice by itself.
middle_apart :
    Pairwise ApartMatch (pick (λ i. i == 0) (judged tokens_digest cache namespace queries).verified)
unfolding judge_queries SegmentFingerprint-discrete ℕ_discrete CacheNamespace-discrete
    tokens_discrete
middle_apart = (tt, tt)

plan_maximal_example :
    tokens_of (pick (λ i. i == 0) (judged tokens_digest cache namespace queries).verified)
    ≤ matched_tokens match_plan
plan_maximal_example =
    plan_maximal tokens_digest cache namespace queries (λ i. i == 0) queries-filled middle_apart

covered_token_count_example : covered_token_count queries ≡ count_below 5 (covers (targets queries))
covered_token_count_example =
    covered_token_count-count 5 queries (omega arith, (omega arith, (omega arith, tt)))
      (omega arith, (omega arith, (omega arith, tt)))

abbrev long_candidate : CandidateMatch
long_candidate =
    candidate long_segment (tokens_digest namespace long_segment.token_ids)
      (cached_record long_segment (1 ∷ []))

long_candidate-none : verify_candidate tokens_digest namespace long_candidate ≡ none
unfolding verify_candidate SegmentFingerprint-discrete ℕ_discrete CacheNamespace-discrete
    tokens_discrete
long_candidate-none = refl

abbrev built_segment : TokenSegment
built_segment = segment 4 6 (7 ∷ 8 ∷ [])

token_segment_built : token_segment (span 4 6) (nats (7 ∷ 8 ∷ [])) ≡ ok built_segment
unfolding token_segment
token_segment_built = refl

abbrev built_record : CacheRecord
built_record = cached_record built_segment (3 ∷ [])

cache_record_built :
    cache_record namespace
      (tokens_digest namespace (7 ∷ 8 ∷ []))
      (nats (7 ∷ 8 ∷ []))
      (span 4 6)
      (str (3 ∷ []))
    ≡ ok built_record
unfolding cache_record
cache_record_built = refl
