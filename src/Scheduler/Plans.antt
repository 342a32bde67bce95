-- ===== src/Scheduler/Plans.antt =====
-- The request plan that the scheduler makes of verified candidates: `_request_plan` of
-- src/cacheblend_gpt_oss/vllm_compat/v0_19_1/scheduler_runtime.py, built by `RequestPlan` of
-- src/cacheblend_gpt_oss/connector/control_plane.py.
use cacheblend_gpt_oss.Prelude.{
  ℕ, ◌≤◌, ◌<◌, ◌≡◌, refl, ap, ◌∙◌, true, false, List, [], ◌∷◌, map, Text, str, nat, none, ok, All,
  All-map, All-map_on, All-of_map, All-zip, Pairwise, Pairwise-map, Pairwise-zip, Pairwise-of_All,
  Pairwise-map_on, arith, any, member, same, holds_iff, has_duplicates, distinct, length, sum,
  sum-map_on, sorted, sorted-All, sorted-Pairwise, any-sorted, ltb, ◌==◌, max, count_below_cong,
  nat_order, pair_order, list_order, Bool-cases, inl, inr,
}
use cacheblend_gpt_oss.Planner.Models.{TokenSegment, TokenSegment-discrete, range_len, segment_len}
use cacheblend_gpt_oss.Planner.Coverage.{
  Apart, covered_token_count, covered_token_count-count, count_below-disjoint, targets,
}
use cacheblend_gpt_oss.Planner.Matching.{VerifiedMatch, match_target, matched_tokens}
use cacheblend_gpt_oss.Planner.Matching.Plans.{last_end, ends-le}
use cacheblend_gpt_oss.ControlPlane.Records.{request_plan, segment_sort_key, check_matches}
use cacheblend_gpt_oss.ControlPlane.Accepted.{
  Passes, InOrder, check_matches-ok, any-All-false, members, covers-sorted,
}

-- What the request plan asks of a match: its target is a filled range of the prompt with as many
-- tokens, and its record has the target's tokens and the queried fingerprint.
pub record IsPlannable (prompt : ℕ) (m : VerifiedMatch) : Type 0 where
  pub filled : (match_target m).token_range.start < (match_target m).token_range.end
  pub sized : range_len (match_target m).token_range ≡ segment_len (match_target m)
  pub within : (match_target m).token_range.end ≤ prompt
  pub same_tokens : (match_target m).token_ids ≡ m.candidate.cached.token_ids
  pub same_digest : m.candidate.query_fingerprint ≡ m.candidate.cached.fingerprint

abbrev pub ApartSegments : TokenSegment → TokenSegment → Type 0
ApartSegments s t = Apart s.token_range t.token_range

abbrev IsFilledSegment : TokenSegment → Type 0
IsFilledSegment s = s.token_range.start < s.token_range.end

ends_targets :
    (n : ℕ) (ts : List TokenSegment)
    → All IsFilledSegment ts
    → All (λ r. r.start ≤ r.end) (targets ts)
ends_targets n ts h = All-map_on (λ s. s.token_range) _ ts (All-map (λ s f. omega arith) ts h)

-- Segments that keep apart cover as many tokens as they have.
covered_token_count-apart :
    (ts : List TokenSegment)
    → All IsFilledSegment ts
    → Pairwise ApartSegments ts
    → covered_token_count (sorted segment_sort_key ts) ≡ sum (map range_len (targets ts))
covered_token_count-apart ts f d =
    let ss = sorted segment_sort_key ts in
    let n = max (last_end ts) (last_end ss) in
    covered_token_count-count n ss (ends-le n ss (omega arith))
      (ends_targets n ss (sorted-All segment_sort_key IsFilledSegment ts f))
    ∙ count_below_cong n _ _ (λ x l. covers-sorted ts x)
    ∙ count_below-disjoint n (targets ts) (ends-le n ts (omega arith))
        (Pairwise-map_on (λ s. s.token_range) Apart ts d)

apart-differs :
    (s t : TokenSegment)
    → IsFilledSegment s
    → ApartSegments s t
    → same TokenSegment-discrete s t ≡ false
apart-differs s t f a = elim (Bool-cases (same TokenSegment-discrete s t)) [
  | inl e ↦
      let q : s ≡ t = (holds_iff (TokenSegment-discrete s t)).0 e in
      absurd (ground (arith, ap (λ x. x.token_range.start) q, ap (λ x. x.token_range.end) q))
  | inr e ↦ e
]

not_member :
    (s : TokenSegment) (ts : List TokenSegment)
    → All (λ t. same TokenSegment-discrete s t ≡ false) ts
    → member TokenSegment-discrete s ts ≡ false
not_member s ts h = any-All-false (same TokenSegment-discrete s) ts h

distinct_of_Pairwise :
    (ts : List TokenSegment)
    → Pairwise (λ s t. same TokenSegment-discrete s t ≡ false) ts
    → distinct TokenSegment-discrete ts ≡ ts
unfolding distinct
distinct_of_Pairwise [] h = refl
distinct_of_Pairwise (s ∷ ts) h = rw (not_member s ts h.0, distinct_of_Pairwise ts h.1)

length-eq : (n : ℕ) → (n == n) ≡ true
length-eq n = ground arith

-- Filled segments that keep apart are distinct, sorted or not.
sorted-distinct :
    (ts : List TokenSegment)
    → All IsFilledSegment ts
    → Pairwise ApartSegments ts
    → has_duplicates TokenSegment-discrete (sorted segment_sort_key ts) ≡ false
unfolding has_duplicates
sorted-distinct ts f d =
    let ss = sorted segment_sort_key ts in
    let apart : Pairwise ApartSegments ss =
      sorted-Pairwise segment_sort_key ApartSegments (λ a b k. ground (arith, k)) ts d in
    let differ =
      Pairwise-map (λ s t h. apart-differs s t h.0.0 h.1) ss
        (Pairwise-zip _ _ ss
          (Pairwise-of_All IsFilledSegment ss (sorted-All segment_sort_key IsFilledSegment ts f))
          apart) in
    rw (distinct_of_Pairwise ss differ, length-eq (length ss)) refl

module _ (id : Text) (prompt : ℕ) (ms : List VerifiedMatch) where
  abbrev segments : List TokenSegment
  segments = map match_target ms

  abbrev counted : ℕ
  counted = sum (map segment_len segments)

  sum-sized :
      (l : List VerifiedMatch)
      → All (IsPlannable prompt) l
      → sum (map range_len (targets (map match_target l)))
        ≡ sum (map segment_len (map match_target l))
  sum-sized [] h = refl
  sum-sized (m ∷ l) h = omega (arith, h.0.sized, sum-sized l h.1)

  -- For matches that can be planned, in order and apart, the request plan is built, with the
  -- matches' targets as the query segments.
  pub request_plan-matches :
      0 < length id
      → All (IsPlannable prompt) ms
      → Pairwise InOrder ms
      → Pairwise (λ m n. ApartSegments (match_target m) (match_target n)) ms
      → request_plan
          (str id)
          (nat prompt)
          segments
          (record { matches = ms; rejected_candidates = []; requested_tokens = counted })
        ≡ ok (record {
          request_id = id;
          prompt_tokens = prompt;
          query_segments = sorted segment_sort_key segments;
          match_plan = record {
            matches = ms;
            rejected_candidates = [];
            requested_tokens = counted;
          };
        })
  unfolding request_plan matched_tokens
  request_plan-matches named fits order apart =
      let asked = sorted segment_sort_key segments in
      let filled : All IsFilledSegment segments =
        All-map_on match_target IsFilledSegment ms (All-map (λ m h. h.filled) ms fits) in
      let d : Pairwise ApartSegments segments =
        Pairwise-map_on match_target ApartSegments ms apart in
      let some_id : (length id == 0) ≡ false = ground arith in
      let distinct : has_duplicates TokenSegment-discrete asked ≡ false =
        sorted-distinct segments filled d in
      let inside : any (λ s. ltb prompt s.token_range.end) asked ≡ false = any-All-false _ asked (
        sorted-All segment_sort_key _ segments (
          All-map_on match_target _ ms
            (All-map (λ m h. let w = h.within in ground arith) ms fits))) in
      let covered : (counted == covered_token_count asked) ≡ true =
        ground (arith, covered_token_count-apart segments filled d, sum-sized ms fits) in
      let matched : ltb counted (sum (map (λ m. segment_len (match_target m)) ms)) ≡ false =
        ground (arith, sum-map_on match_target segment_len ms) in
      let member_of : All (λ s. member TokenSegment-discrete s asked ≡ true) segments =
        All-map (λ q h. any-sorted segment_sort_key (same TokenSegment-discrete q) segments ∙ h)
          segments (members segments) in
      let passes : All (Passes asked) ms =
        All-map
          (λ m h. record {
            requested = h.0;
            same_tokens = h.1.same_tokens;
            same_digest = h.1.same_digest;
          })
          ms (All-zip _ _ ms (All-of_map match_target _ ms member_of) fits) in
      let checked : check_matches asked [] none ms ≡ ok tt =
        check_matches-ok asked [] none ms passes order (All-map (λ m h. (refl, refl)) ms passes) in
      rw (some_id, distinct, inside, covered, matched, checked) refl
