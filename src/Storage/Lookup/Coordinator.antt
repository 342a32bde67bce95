-- ===== src/Storage/Lookup/Coordinator.antt =====
-- `LmcacheCandidateLookupCoordinator.plan` of src/cacheblend_gpt_oss/storage/lookup.py: the loop over
-- the candidates, one function for each of its nested cases, and the plan that it ends in.
use cacheblend_gpt_oss.Prelude.{
  ℕ, suc, Bool, not, List, [], ◌∷◌, ◌++◌, map, Value, nats, Option, none, some, ok, raise, ◌>>=◌,
  ◌>>◌, ltb, ◌==◌, length, filter, get_elem?, sum, member, distinct, sorted, holds, if◌then◌else◌,
  nat_order, pair_order, list_order, Text,
}
use cacheblend_gpt_oss.Planner.Models.{
  value_error, token_segment, normalize_token_ids, TokenSegment, CacheNamespace, SegmentFingerprint,
  CacheRecord, range_len, TokenRange-discrete, CacheNamespace-discrete, SegmentFingerprint-discrete,
}
use cacheblend_gpt_oss.Planner.Fingerprint.{sha256_fingerprint}
use cacheblend_gpt_oss.Planner.Selection.{pick}
use cacheblend_gpt_oss.Planner.Matching.{
  Fingerprinter, verified_match, candidate as candidate_match,
}
use cacheblend_gpt_oss.Storage.Types.{
  LmcacheCandidate, LmcacheCandidate-discrete, candidate_cache_key, VerifiedLmcacheCandidate, bind,
  query_digest, same_text,
}
use cacheblend_gpt_oss.Storage.Lookup.{
  Looked, planner_error, fail_if, target_range_out_of_bounds, RejectionReason, stale_query,
  no_sidecar_record, cache_key_mismatch, namespace_mismatch, fingerprint_mismatch, token_mismatch,
  source_position_ambiguous, duplicate_candidate, overlaps_selected_candidate, reason_value,
  RejectedLmcacheCandidate, check_counters, LookupPlan, PotentialCandidate, CandidateKey,
  lookup_sort_key, source_of, selects, RecordIndex, Scan, reject, cached_bucket, min_record,
  min_reason, prompt_slice, checked, prompt_tokens, bound,
}

-- `if reason is None: valid_records.append(record)` and `else: invalid_reasons.append(reason)`.
abbrev pub keep_valid : Option RejectionReason → CacheRecord → List CacheRecord → List CacheRecord
keep_valid none r rest = r ∷ rest
keep_valid (some reason) r rest = rest

abbrev pub keep_reason : Option RejectionReason → List RejectionReason → List RejectionReason
keep_reason none rest = rest
keep_reason (some reason) rest = reason ∷ rest

-- `record.cache_key == candidate.cache_key`
abbrev pub has_key : LmcacheCandidate → CacheRecord → Bool
has_key c r = same_text r.cache_key (candidate_cache_key c)

module _ (fingerprint : Fingerprinter) where
  -- `_verify_record`
  unfoldable pub verify_record :
      CacheNamespace → TokenSegment → SegmentFingerprint → CacheRecord → Option RejectionReason
  verify_record ns target fp r =
      if not (holds (CacheNamespace-discrete r.namespace ns))
      then some namespace_mismatch
      else if not (holds (SegmentFingerprint-discrete r.fingerprint fp))
      then some fingerprint_mismatch
      else if not (same_text r.token_ids target.token_ids)
      then some token_mismatch
      else if not
          (holds (SegmentFingerprint-discrete (fingerprint r.namespace r.token_ids) r.fingerprint))
      then some fingerprint_mismatch
      else none

  -- `valid_records` and `invalid_reasons`: what the loop over the bound records collects.
  unfoldable pub valid_records :
      CacheNamespace → TokenSegment → SegmentFingerprint → List CacheRecord → List CacheRecord
  valid_records ns target fp [] = []
  valid_records ns target fp (r ∷ rs) =
      keep_valid (verify_record ns target fp r) r (valid_records ns target fp rs)

  unfoldable pub invalid_reasons :
      CacheNamespace → TokenSegment → SegmentFingerprint → List CacheRecord → List RejectionReason
  invalid_reasons ns target fp [] = []
  invalid_reasons ns target fp (r ∷ rs) =
      keep_reason (verify_record ns target fp r) (invalid_reasons ns target fp rs)

  -- The record is bound, and the candidate becomes a potential one.
  unfoldable pub bind_record :
      CacheNamespace
      → ℕ
      → LmcacheCandidate
      → TokenSegment
      → SegmentFingerprint
      → CacheRecord
      → Scan
      → Looked Scan
  bind_record ns i c target fp r s = do
    v ← bound (bind fingerprint ns c (verified_match (candidate_match target fp r)))
    ok (record s { potentials = s.potentials ++ record { raw_index = i; verified = v } ∷ [] })

  -- From `if not valid_records` on.
  unfoldable pub judge_valid :
      CacheNamespace
      → ℕ
      → LmcacheCandidate
      → TokenSegment
      → SegmentFingerprint
      → List RejectionReason
      → List CacheRecord
      → Scan
      → Looked Scan
  judge_valid ns i c target fp [] [] s = raise (planner_error value_error)
  judge_valid ns i c target fp (e ∷ es) [] s = ok (reject i c (min_reason e es) s)
  judge_valid ns i c target fp es (r ∷ rs) s =
      if not (length (distinct TokenRange-discrete (map (λ x. x.source_range) (r ∷ rs))) == 1)
      then ok (reject i c source_position_ambiguous s)
      else bind_record ns i c target fp (min_record r rs) s

  -- From `if not bound_records` on.
  unfoldable pub judge_bound :
      CacheNamespace
      → ℕ
      → LmcacheCandidate
      → TokenSegment
      → SegmentFingerprint
      → List CacheRecord
      → Scan
      → Looked Scan
  judge_bound ns i c target fp [] s = ok (reject i c cache_key_mismatch s)
  judge_bound ns i c target fp (r ∷ rs) s =
      judge_valid ns i c target fp (invalid_reasons ns target fp (r ∷ rs))
        (valid_records ns target fp (r ∷ rs))
        (record s { found_raw_indexes = s.found_raw_indexes ++ i ∷ [] })

  -- From `if not bucket` on.
  unfoldable pub judge_bucket :
      CacheNamespace
      → ℕ
      → LmcacheCandidate
      → TokenSegment
      → SegmentFingerprint
      → List CacheRecord
      → Scan
      → Looked Scan
  judge_bucket ns i c target fp [] s = ok (reject i c no_sidecar_record s)
  judge_bucket ns i c target fp (r ∷ rs) s =
      judge_bound ns i c target fp (filter (has_key c) (r ∷ rs)) s

  -- The body of the loop; the prompt comes with its digest.
  unfoldable pub judge_candidate :
      RecordIndex → List ℕ → List ℕ → CacheNamespace → ℕ → LmcacheCandidate → Scan → Looked Scan
  judge_candidate index prompt digest ns i c s = do
    fail_if (ltb (length prompt) c.target_range.end) target_range_out_of_bounds
    (if not (same_text c.query_digest digest) then ok (reject i c stale_query s) else do
      target ← checked (token_segment c.target_range (nats (prompt_slice prompt c.target_range)))
      let fp = fingerprint ns target.token_ids
      (bucket, s') ← cached_bucket index ns fp s
      judge_bucket ns i c target fp bucket s')

  unfoldable pub judge_candidates :
      RecordIndex
      → List ℕ
      → List ℕ
      → CacheNamespace
      → ℕ
      → List LmcacheCandidate
      → Scan
      → Looked Scan
  judge_candidates index prompt digest ns i [] s = ok s
  judge_candidates index prompt digest ns i (c ∷ cs) s = do
    s' ← judge_candidate index prompt digest ns i c s
    judge_candidates index prompt digest ns (suc i) cs s'

abbrev pub SelectedKey : Type 0
SelectedKey = CandidateKey × (ℕ × ℕ)

abbrev pub selected_sort_key : VerifiedLmcacheCandidate → SelectedKey
selected_sort_key v = (lookup_sort_key v.candidate, ((source_of v).start, (source_of v).end))

abbrev pub RejectionKey : Type 0
RejectionKey = CandidateKey × (Text × ℕ)

abbrev pub rejection_sort_key : ℕ × RejectedLmcacheCandidate → RejectionKey
rejection_sort_key (i, r) = (lookup_sort_key r.candidate, (reason_value r.reason, i))

-- A potential candidate that was not selected.
abbrev pub passed_over : List LmcacheCandidate → PotentialCandidate → ℕ × RejectedLmcacheCandidate
passed_over selected p = (
  p.raw_index,
  record {
    candidate = p.verified.candidate;
    reason =
        if member LmcacheCandidate-discrete p.verified.candidate selected
        then duplicate_candidate
        else overlaps_selected_candidate;
  },
)

abbrev pub lookup_tokens : LmcacheCandidate → ℕ
lookup_tokens c = range_len c.target_range

-- The tokens of `raw_candidates[index]`; every index that was found is one of the list.
abbrev pub tokens_at : List LmcacheCandidate → ℕ → ℕ
tokens_at raw i = elim (get_elem? raw i) [ none ↦ 0 | some c ↦ lookup_tokens c ]

unfoldable pub selected_candidates : Scan → List VerifiedLmcacheCandidate
selected_candidates s =
    sorted selected_sort_key (map (λ p. p.verified) (pick (selects s.potentials) s.potentials))

unfoldable pub all_rejected : Scan → List (ℕ × RejectedLmcacheCandidate)
all_rejected s =
    s.rejected
    ++ map (passed_over (map (λ v. v.candidate) (selected_candidates s)))
        (pick (λ i. not (selects s.potentials i)) s.potentials)

-- From the selection on.
unfoldable pub conclude : List LmcacheCandidate → Scan → Looked LookupPlan
conclude raw s =
    let selected = selected_candidates s in
    let rejections = map (λ r. r.1) (sorted rejection_sort_key (all_rejected s)) in
    do
      counters ← check_counters (record {
        raw_candidates = length raw;
        raw_candidate_tokens = sum (map lookup_tokens raw);
        found_candidates = length s.found_raw_indexes;
        found_candidate_tokens = sum (map (tokens_at raw) s.found_raw_indexes);
        verified_candidates = length selected;
        verified_candidate_tokens = sum (map (λ v. lookup_tokens v.candidate) selected);
        rejected_candidates = length rejections;
        rejected_candidate_tokens = sum (map (λ r. lookup_tokens r.candidate) rejections);
      })
      ok (record {
        verified_candidates = selected;
        rejected_candidates = rejections;
        counters = counters;
      })

abbrev pub empty_scan : Scan
empty_scan = record { potentials = []; rejected = []; found_raw_indexes = []; bucket_cache = [] }

-- `plan`
unfoldable pub plan :
    (List ℕ → List ℕ)
    → RecordIndex
    → List Value
    → CacheNamespace
    → List LmcacheCandidate
    → Looked LookupPlan
plan sha256 index prompt_token_ids ns raw = do
  prompt ← prompt_tokens (normalize_token_ids prompt_token_ids)
  s ←
      judge_candidates (sha256_fingerprint sha256) index prompt (query_digest sha256 prompt) ns 0
        raw empty_scan
  conclude raw s
