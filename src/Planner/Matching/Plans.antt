-- ===== src/Planner/Matching/Plans.antt =====
-- What `MatchPlanner.plan` of src/cacheblend_gpt_oss/planner/matching.py returns.
use cacheblend_gpt_oss.Prelude.{
  ℕ, ◌+◌, ◌≤◌, ◌<◌, max, ◌≡◌, refl, ◌∙◌, Bool, true, not, List, [], ◌∷◌, map, none, All, All-map,
  All-append, All-of, Pairwise, All-map_on, Pairwise-map_on, sum-map_on, length-map, length,
  length-append, length-sorted, sum, sum-sorted, arith, sorted-All, sorted-Pairwise,
  sorted-Ascending, Ascending, nat_order, pair_order, list_order, count_below_mono, between,
}
use cacheblend_gpt_oss.Planner.Models.{
  CacheNamespace, TokenRange, TokenSegment, CandidateMatch, segment_len, range_len,
}
use cacheblend_gpt_oss.Planner.Models.Laws.{IsSegment}
use cacheblend_gpt_oss.Planner.Coverage.{
  Apart, covers, targets, covered_token_count, covered_token_count-count, count_below-disjoint,
}
use cacheblend_gpt_oss.Planner.Selection.{pick}
use cacheblend_gpt_oss.Planner.Selection.Views.{All-pick, length-pick}
use cacheblend_gpt_oss.Planner.Matching.Chosen.{
  ApartMatch, IsFilledMatch, tokens_of, select-apart, select_maximal,
}
use cacheblend_gpt_oss.Planner.Matching.{
  Fingerprinter, RecordLookup, VerifiedMatch, Judged, MatchPlan, match_target, verified_match,
  overlapped, match_sort_key, matched_tokens, candidate, verify_candidate, judge_queries, plan,
  selects,
}
use cacheblend_gpt_oss.Planner.Matching.Judging.{
  IsVerified, verify_candidate-none, judge_queries-rejected, judge_queries-verified,
  candidate_count, judge_queries-count,
}

Apart-symm : (a b : TokenRange) → Apart a b → Apart b a
Apart-symm a b h = ground arith

module _ (fingerprint : Fingerprinter) (lookup : RecordLookup) (ns : CacheNamespace)
    (queries : List TokenSegment) where
  abbrev pub judged : Judged
  judged = judge_queries fingerprint lookup ns queries (record { verified = []; rejected = [] })

  abbrev pub planned : MatchPlan
  planned = plan fingerprint lookup ns queries

  -- A property of every candidate that passes the verifier is one of every match.
  pub planned-All :
      (P : CandidateMatch → Type 0)
      → All
          (λ q.
            All
              (λ r.
                verify_candidate fingerprint ns (candidate q (fingerprint ns q.token_ids) r) ≡ none
                → P (candidate q (fingerprint ns q.token_ids) r))
              (lookup ns (fingerprint ns q.token_ids)))
          queries
      → All (λ m. P m.candidate) planned.matches
  unfolding plan
  planned-All P h =
      sorted-All match_sort_key (λ (m : VerifiedMatch). P m.candidate) _
        (All-map_on verified_match (λ (m : VerifiedMatch). P m.candidate) _
          (All-pick P 0 (selects judged.verified) judged.verified
            (judge_queries-verified fingerprint ns P lookup queries _ h tt)))

  -- Every planned match passed the four gates for the requested namespace, with the digest of
  -- its own query.
  pub plan-IsVerified :
      All
        (λ m.
          IsVerified fingerprint ns m.candidate
          × (m.candidate.query_fingerprint ≡ fingerprint ns (match_target m).token_ids))
        planned.matches
  plan-IsVerified =
      planned-All
        (λ c.
          IsVerified fingerprint ns c
          × (c.query_fingerprint ≡ fingerprint ns c.target_segment.token_ids))
        (All-of _ (λ q. All-of _ (λ r e. (verify_candidate-none fingerprint ns _ e, refl)) _)
          queries)

  -- What holds of every query segment holds of every match's target.
  pub plan-targets :
      (Q : TokenSegment → Type 0) → All Q queries → All (λ m. Q (match_target m)) planned.matches
  plan-targets Q h =
      planned-All (λ c. Q c.target_segment)
        (All-map (λ q g. All-of _ (λ r e. g) (lookup ns (fingerprint ns q.token_ids))) queries h)

  verified-IsFilled :
      All (λ s. s.token_range.start < s.token_range.end) queries → All IsFilledMatch judged.verified
  verified-IsFilled h =
      judge_queries-verified fingerprint ns IsFilledMatch lookup queries _
        (All-map (λ q g. All-of _ (λ r e. g) (lookup ns (fingerprint ns q.token_ids))) queries h) tt

  matched_tokens-plan :
      matched_tokens planned ≡ tokens_of (pick (selects judged.verified) judged.verified)
  unfolding matched_tokens plan
  matched_tokens-plan =
      sum-sorted match_sort_key (λ m. segment_len (match_target m)) _
      ∙ sum-map_on verified_match (λ m. segment_len (match_target m)) _

  -- If every query is non-empty, no two planned matches overlap.
  pub plan-apart :
      All (λ s. s.token_range.start < s.token_range.end) queries
      → Pairwise (λ m n. ApartMatch m.candidate n.candidate) planned.matches
  unfolding plan
  plan-apart h =
      sorted-Pairwise match_sort_key (λ (m n : VerifiedMatch). ApartMatch m.candidate n.candidate)
        (λ m n k. Apart-symm (match_target m).token_range (match_target n).token_range k) _
        (Pairwise-map_on verified_match (λ m n. ApartMatch m.candidate n.candidate) _
          (select-apart judged.verified (verified-IsFilled h)))

  -- If every query is non-empty, no choice among the verified candidates without overlaps
  -- covers more tokens than the plan.
  pub plan_maximal :
      (test : ℕ → Bool)
      → All (λ s. s.token_range.start < s.token_range.end) queries
      → Pairwise ApartMatch (pick test judged.verified)
      → tokens_of (pick test judged.verified) ≤ matched_tokens planned
  plan_maximal test h k =
      omega
        (arith, select_maximal judged.verified test (verified-IsFilled h) k, matched_tokens-plan)

  -- Every record that a lookup returns ends up in the plan once, as a match or as rejected.
  pub plan_accounts :
      length planned.matches + length planned.rejected_candidates
      ≡ candidate_count fingerprint ns lookup queries
  unfolding plan
  plan_accounts = omega (
    arith,
    length-sorted match_sort_key
        (map verified_match (pick (selects judged.verified) judged.verified)),
    length-map verified_match (pick (selects judged.verified) judged.verified),
    length-append judged.rejected
        (map overlapped (pick (λ i. not (selects judged.verified i)) judged.verified)),
    length-map overlapped (pick (λ i. not (selects judged.verified i)) judged.verified),
    length-pick 0 (selects judged.verified) judged.verified,
    judge_queries-count fingerprint ns lookup queries (record { verified = []; rejected = [] }),
  )

abbrev pub last_end : List TokenSegment → ℕ
last_end [] = 0
last_end (s ∷ l) = max s.token_range.end (last_end l)

pub ends-le : (n : ℕ) (l : List TokenSegment) → last_end l ≤ n → All (λ r. r.end ≤ n) (targets l)
ends-le n [] h = tt
ends-le n (s ∷ l) h = (omega arith, ends-le n l (omega arith))

pub IsSegment-ordered :
    (l : List TokenSegment) → All IsSegment l → All (λ r. r.start ≤ r.end) (targets l)
IsSegment-ordered [] h = tt
IsSegment-ordered (s ∷ l) h = (omega (arith, h.0.fits), IsSegment-ordered l h.1)

-- A segment lies within the positions that a list of segments covers.
abbrev pub Within : List TokenSegment → TokenSegment → Type 0
Within l s =
    (x : ℕ) → between s.token_range.start s.token_range.end x ≡ true → covers (targets l) x ≡ true

Within-All : (l : List TokenSegment) → All (Within l) l
Within-All [] = tt
Within-All (s ∷ l) =
    (λ x h. ground arith, All-map (λ t w x h. ground (arith, w x h)) l (Within-All l))

covers-Within :
    (l ts : List TokenSegment) (x : ℕ)
    → All (Within l) ts
    → covers (targets ts) x ≡ true
    → covers (targets l) x ≡ true
covers-Within l [] x h e = cc
covers-Within l (t ∷ ts) x h e = ground (arith, h.0 x, covers-Within l ts x)

segment_lens :
    (ts : List TokenSegment)
    → All IsSegment ts
    → sum (map range_len (targets ts)) ≡ sum (map segment_len ts)
segment_lens [] h = refl
segment_lens (t ∷ ts) h = omega (arith, h.0.fits, segment_lens ts h.1)

-- Segments that keep apart, within others, have no more tokens than the others cover.
pub lens-le-covered :
    (l ts : List TokenSegment)
    → All IsSegment l
    → All IsSegment ts
    → All (Within l) ts
    → Pairwise Apart (targets ts)
    → sum (map segment_len ts) ≤ covered_token_count l
lens-le-covered l ts h k w d =
    let n = max (last_end l) (last_end ts) in
    omega (
      arith,
      segment_lens ts k,
      count_below-disjoint n (targets ts) (ends-le n ts (omega arith)) d,
      covered_token_count-count n l (ends-le n l (omega arith)) (IsSegment-ordered l h),
      count_below_mono n (covers (targets ts)) (covers (targets l)) (λ x. covers-Within l ts x w),
    )

abbrev pub match_targets : List VerifiedMatch → List TokenSegment
match_targets = map match_target

map-All :
    (Q : TokenSegment → Type 0) (ms : List VerifiedMatch)
    → All (λ m. Q (match_target m)) ms
    → All Q (match_targets ms)
map-All Q [] h = tt
map-All Q (m ∷ ms) h = (h.0, map-All Q ms h.1)

All-targets :
    (m : VerifiedMatch) (ms : List VerifiedMatch)
    → All (λ n. ApartMatch m.candidate n.candidate) ms
    → All (Apart (match_target m).token_range) (targets (match_targets ms))
All-targets m [] h = tt
All-targets m (n ∷ ms) h = (h.0, All-targets m ms h.1)

Pairwise-targets :
    (ms : List VerifiedMatch)
    → Pairwise (λ m n. ApartMatch m.candidate n.candidate) ms
    → Pairwise Apart (targets (match_targets ms))
Pairwise-targets [] h = tt
Pairwise-targets (m ∷ ms) h = (All-targets m ms h.0, Pairwise-targets ms h.1)

sum-targets :
    (ms : List VerifiedMatch)
    → sum (map (λ m. segment_len (match_target m)) ms) ≡ sum (map segment_len (match_targets ms))
sum-targets [] = refl
sum-targets (m ∷ ms) = omega (arith, sum-targets ms)

pub IsSegment-filled :
    (l : List TokenSegment) → All IsSegment l → All (λ s. s.token_range.start < s.token_range.end) l
IsSegment-filled l h = All-map (λ s v. omega (arith, v.nonempty, v.fits)) l h

module _ (fingerprint : Fingerprinter) (lookup : RecordLookup) (ns : CacheNamespace)
    (queries : List TokenSegment) where
  pub requested_tokens-plan :
      (plan fingerprint lookup ns queries).requested_tokens ≡ covered_token_count queries
  unfolding plan
  requested_tokens-plan = refl

  -- For valid query segments, a plan matches no more tokens than were requested.
  pub matched_tokens-le-requested :
      All IsSegment queries
      → matched_tokens (plan fingerprint lookup ns queries)
        ≤ (plan fingerprint lookup ns queries).requested_tokens
  unfolding matched_tokens
  matched_tokens-le-requested h =
      let ms = (plan fingerprint lookup ns queries).matches in
      omega (
        arith,
        sum-targets ms,
        requested_tokens-plan,
        lens-le-covered queries (match_targets ms) h
            (map-All IsSegment ms (plan-targets fingerprint lookup ns queries IsSegment h))
            (map-All (Within queries) ms
              (plan-targets fingerprint lookup ns queries (Within queries) (Within-All queries)))
            (Pairwise-targets ms
              (plan-apart fingerprint lookup ns queries (IsSegment-filled queries h))),
      )

  -- The matches of a plan are in the order of their sort keys.
  pub matches-Ascending : Ascending match_sort_key (plan fingerprint lookup ns queries).matches
  unfolding plan
  matches-Ascending =
      let verified = judged fingerprint lookup ns queries in
      sorted-Ascending match_sort_key
        (map verified_match (pick (selects verified.verified) verified.verified))

  All-overlapped :
      (Q : TokenSegment → Type 0) (cs : List CandidateMatch)
      → All (λ c. Q c.target_segment) cs
      → All (λ r. Q r.candidate.target_segment) (map overlapped cs)
  All-overlapped Q [] h = tt
  All-overlapped Q (c ∷ cs) h = (h.0, All-overlapped Q cs h.1)

  -- What holds of every query segment holds of every rejected candidate's target.
  pub rejected-targets :
      (Q : TokenSegment → Type 0)
      → All Q queries
      → All
          (λ r. Q r.candidate.target_segment)
          (plan fingerprint lookup ns queries).rejected_candidates
  unfolding plan
  rejected-targets Q h =
      let j = judged fingerprint lookup ns queries in
      All-append (λ r. Q r.candidate.target_segment) j.rejected _
        (judge_queries-rejected fingerprint ns Q lookup queries _ h tt)
        (All-overlapped Q (pick (λ i. not (selects j.verified i)) j.verified) (
          All-pick (λ c. Q c.target_segment) 0 (λ i. not (selects j.verified i)) j.verified
            (judge_queries-verified fingerprint ns (λ c. Q c.target_segment) lookup queries _
              (All-map (λ q g. All-of _ (λ r e. g) (lookup ns (fingerprint ns q.token_ids))) queries
                h)
              tt)))
