-- ===== src/Planner/Matching.antt =====
-- Exact-token verified planning: `MatchPlanner` and its records, of
-- src/cacheblend_gpt_oss/planner/matching.py. SHA-256 and the record store stand outside:
-- `Fingerprinter` and `RecordLookup` are arguments.
pub mod Judging
pub mod Chosen
pub mod Plans
use cacheblend_gpt_oss.Prelude.{
  ℕ, ◌+◌, ◌-◌, ◌≡◌, ℤ, sub_ℕ, Bool, not, List, [], ◌∷◌, ◌++◌, map, Text, Value, nats, Option, none,
  some, holds, if◌then◌else◌, sorted, elem, sum, nat_order, pair_order, list_order, ◌==◌,
}
use cacheblend_gpt_oss.Planner.Models.{
  Checked, TokenRange, TokenSegment, CacheNamespace, SegmentFingerprint, CacheRecord,
  tokens_discrete, CandidateMatch, cache_record, segment_len, CacheNamespace-discrete,
  SegmentFingerprint-discrete,
}
use cacheblend_gpt_oss.Planner.Coverage.{covered_token_count}
use cacheblend_gpt_oss.Planner.Selection.{Item, select_non_overlapping, pick}

abbrev pub SortKey : Type 0
SortKey = ℕ × (ℕ × (Text × (ℕ × ℕ)))

abbrev pub candidate_sort_key : CandidateMatch → SortKey
candidate_sort_key c =
    (target.start, (target.end, (c.cached.cache_key, (source.start, source.end))))
  where
    target : TokenRange
    target = c.target_segment.token_range

    source : TokenRange
    source = c.cached.source_range

abbrev pub RecordLookup : Type 0
RecordLookup = CacheNamespace → SegmentFingerprint → List CacheRecord

abbrev pub Fingerprinter : Type 0
Fingerprinter = CacheNamespace → List ℕ → SegmentFingerprint

pub data CandidateRejectionReason : Type 0 where
  namespace_mismatch fingerprint_mismatch token_mismatch : CandidateRejectionReason
  overlaps_selected_match : CandidateRejectionReason

pub record RejectedCandidate : Type 0 where
  pub candidate : CandidateMatch
  pub reason : CandidateRejectionReason

pub record VerifiedMatch : Type 0 where
  pub candidate : CandidateMatch

pub record MatchPlan : Type 0 where
  pub matches : List VerifiedMatch
  pub rejected_candidates : List RejectedCandidate
  pub requested_tokens : ℕ

abbrev pub match_target : VerifiedMatch → TokenSegment
match_target m = m.candidate.target_segment

unfoldable pub matched_tokens : MatchPlan → ℕ
matched_tokens p = sum (map (λ m. segment_len (match_target m)) p.matches)

unfoldable pub unmatched_tokens : MatchPlan → ℤ
unmatched_tokens p = sub_ℕ p.requested_tokens (matched_tokens p)

-- `build_cache_record`
unfoldable pub build_cache_record :
    Fingerprinter → CacheNamespace → TokenSegment → Value → Checked CacheRecord
unfolding cache_record
build_cache_record fingerprint ns segment key =
    cache_record ns (fingerprint ns segment.token_ids) (nats segment.token_ids) segment.token_range
      key

abbrev pub candidate : TokenSegment → SegmentFingerprint → CacheRecord → CandidateMatch
candidate query fp r = record { target_segment = query; query_fingerprint = fp; cached = r }

abbrev pub verified_match : CandidateMatch → VerifiedMatch
verified_match c = record { candidate = c }

abbrev pub match_sort_key : VerifiedMatch → SortKey
match_sort_key m = candidate_sort_key m.candidate

abbrev pub overlapped : CandidateMatch → RejectedCandidate
overlapped c = record { candidate = c; reason = overlaps_selected_match }

abbrev pub candidate_item : CandidateMatch → Item SortKey
candidate_item c = record {
  target = c.target_segment.token_range;
  tokens = segment_len c.target_segment;
  sort_key = candidate_sort_key c;
}

-- The indexes that `_select_non_overlapping` returns, as a test.
abbrev pub selects : List CandidateMatch → ℕ → Bool
selects cs i = elem i (select_non_overlapping (map candidate_item cs))

-- `verified` and `rejected`, in the order of the appends.
pub record Judged : Type 0 where
  pub verified : List CandidateMatch
  pub rejected : List RejectedCandidate

unfoldable pub judge : CandidateMatch → Option CandidateRejectionReason → Judged → Judged
judge c none j = record j { verified = j.verified ++ c ∷ [] }
judge c (some reason) j = record j {
  rejected = j.rejected ++ record { candidate = c; reason = reason } ∷ [];
}

module _ (fingerprint : Fingerprinter) where
  unfoldable pub verify_candidate :
      CacheNamespace → CandidateMatch → Option CandidateRejectionReason
  verify_candidate ns c =
      if not (holds (CacheNamespace-discrete c.cached.namespace ns))
      then some namespace_mismatch
      else if not (holds (SegmentFingerprint-discrete c.cached.fingerprint c.query_fingerprint))
      then some fingerprint_mismatch
      else if not (holds (tokens_discrete c.cached.token_ids c.target_segment.token_ids))
      then some token_mismatch
      else if not (
          holds (
            SegmentFingerprint-discrete (fingerprint c.cached.namespace c.cached.token_ids)
              c.cached.fingerprint))
      then some fingerprint_mismatch
      else none

  unfoldable pub judge_records :
      CacheNamespace → TokenSegment → SegmentFingerprint → List CacheRecord → Judged → Judged
  unfolding judge verify_candidate
  judge_records ns query fp [] j = j
  judge_records ns query fp (r ∷ rs) j =
      let c = candidate query fp r in
      judge_records ns query fp rs (judge c (verify_candidate ns c) j)

  unfoldable pub judge_queries : RecordLookup → CacheNamespace → List TokenSegment → Judged → Judged
  unfolding judge_records
  judge_queries lookup ns [] j = j
  judge_queries lookup ns (q ∷ qs) j =
      let fp = fingerprint ns q.token_ids in
      judge_queries lookup ns qs (judge_records ns q fp (lookup ns fp) j)

  -- `MatchPlanner.plan`
  unfoldable pub plan : RecordLookup → CacheNamespace → List TokenSegment → MatchPlan
  unfolding judge_queries select_non_overlapping covered_token_count
  plan lookup ns queries =
      let j = judge_queries lookup ns queries (record { verified = []; rejected = [] }) in
      record {
        matches = sorted match_sort_key (map verified_match (pick (selects j.verified) j.verified));
        rejected_candidates =
            j.rejected ++ map overlapped (pick (λ i. not (selects j.verified i)) j.verified);
        requested_tokens = covered_token_count queries;
      }
