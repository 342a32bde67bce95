-- ===== src/Storage/Lookup/Judging.antt =====
-- What the loop of src/cacheblend_gpt_oss/storage/lookup.py makes of one candidate.
use cacheblend_gpt_oss.Prelude.{
  ℕ, ◌+◌, ◌≤◌, ◌<◌, ◌≡◌, refl, List, [], ◌∷◌, none, ok, length, All, arith, Bool-cases,
  Option-cases, inl, inr, decided, refuted,
}
use cacheblend_gpt_oss.Planner.Models.{
  TokenRange, TokenSegment, CacheNamespace, SegmentFingerprint, CacheRecord, range_len,
  tokens_discrete, CacheNamespace-discrete, SegmentFingerprint-discrete,
}
use cacheblend_gpt_oss.Planner.Matching.{Fingerprinter, VerifiedMatch, match_target}
use cacheblend_gpt_oss.Storage.Types.{
  LmcacheCandidate, candidate_cache_key, VerifiedLmcacheCandidate, bind,
}
use cacheblend_gpt_oss.Storage.Lookup.{record_order, record_order_key, min_record, prompt_slice}
use cacheblend_gpt_oss.Storage.Lookup.Coordinator.{verify_record, valid_records, invalid_reasons}

-- What the bound candidate was checked for: it asks for the prompt that is looked up, its target
-- lies within that prompt, and its record has the target's very tokens, the namespace that was
-- asked for, the fingerprint of both and the key of the stored chunk.
pub record IsBound (fingerprint : Fingerprinter) (prompt digest : List ℕ) (ns : CacheNamespace)
    (v : VerifiedLmcacheCandidate) : Type 0 where
  pub same_query : v.candidate.query_digest ≡ digest
  pub within : v.candidate.target_range.end ≤ length prompt
  pub nonempty : 0 < length (prompt_slice prompt v.candidate.target_range)
  pub fits :
      range_len v.candidate.target_range ≡ length (prompt_slice prompt v.candidate.target_range)
  pub same_target : (match_target v.match).token_range ≡ v.candidate.target_range
  pub target_tokens :
      (match_target v.match).token_ids ≡ prompt_slice prompt v.candidate.target_range
  pub same_namespace : v.match.candidate.cached.namespace ≡ ns
  pub same_tokens :
      v.match.candidate.cached.token_ids ≡ prompt_slice prompt v.candidate.target_range
  pub same_fingerprint :
      v.match.candidate.cached.fingerprint
      ≡ fingerprint ns (prompt_slice prompt v.candidate.target_range)
  pub same_query_fingerprint :
      v.match.candidate.query_fingerprint
      ≡ fingerprint ns (prompt_slice prompt v.candidate.target_range)
  pub same_key : v.match.candidate.cached.cache_key ≡ candidate_cache_key v.candidate

module _ (fingerprint : Fingerprinter) (ns : CacheNamespace) where
  -- A record that passes the verifier has the namespace, the fingerprint and the tokens,
  pub verify_record-none :
      (target : TokenSegment) (fp : SegmentFingerprint) (r : CacheRecord)
      → verify_record fingerprint ns target fp r ≡ none
      → (r.namespace ≡ ns) × (r.fingerprint ≡ fp) × (r.token_ids ≡ target.token_ids)
  unfolding verify_record
  verify_record-none target fp r h = (
    decided (CacheNamespace-discrete r.namespace ns) (ground arith),
    decided (SegmentFingerprint-discrete r.fingerprint fp) (ground arith),
    decided (tokens_discrete r.token_ids target.token_ids) (ground arith),
  )

  -- and only then.
  pub verify_record_of :
      (ids : List ℕ) (range : TokenRange) (r : CacheRecord)
      → r.namespace ≡ ns
      → r.fingerprint ≡ fingerprint ns ids
      → r.token_ids ≡ ids
      → verify_record fingerprint ns
          (record { token_range = range; token_ids = ids })
          (fingerprint ns ids)
          r
        ≡ none
  unfolding verify_record
  verify_record_of ids range r e f g = rw (
    refuted (CacheNamespace-discrete r.namespace ns) e,
    refuted (SegmentFingerprint-discrete r.fingerprint (fingerprint ns ids)) f,
    refuted (tokens_discrete r.token_ids ids) g,
    refuted (SegmentFingerprint-discrete (fingerprint r.namespace r.token_ids) r.fingerprint) (cc),
  )

  module _ (P : CacheRecord → Type 0) (target : TokenSegment) (fp : SegmentFingerprint) where
    pub valid_records-All :
        (rs : List CacheRecord)
        → All P rs
        → All
            (λ r. P r × (verify_record fingerprint ns target fp r ≡ none))
            (valid_records fingerprint ns target fp rs)
    unfolding valid_records
    valid_records-All [] h = tt
    valid_records-All (r ∷ rs) h = elim (Option-cases (verify_record fingerprint ns target fp r)) [
      | inl e ↦ rw e ((h.0, e), valid_records-All rs h.1)
      | inr (reason, e) ↦ rw e (valid_records-All rs h.1)
    ]

    -- What holds of the valid records holds of all that pass the verifier.
    pub All-of_valid_records :
        (rs : List CacheRecord)
        → All P (valid_records fingerprint ns target fp rs)
        → All (λ r. verify_record fingerprint ns target fp r ≡ none → P r) rs
    unfolding valid_records
    All-of_valid_records [] h = tt
    All-of_valid_records (r ∷ rs) h =
        elim (Option-cases (verify_record fingerprint ns target fp r)) [
          | inl e ↦
              let k : All P (r ∷ valid_records fingerprint ns target fp rs) = rw e at h in
              (λ _. k.0, All-of_valid_records rs k.1)
          | inr (reason, e) ↦ (λ t. cc, All-of_valid_records rs (rw e at h))
        ]

  -- Each bound record is either valid or has a reason.
  pub valid_or_invalid :
      (target : TokenSegment) (fp : SegmentFingerprint) (rs : List CacheRecord)
      → length (valid_records fingerprint ns target fp rs)
          + length (invalid_reasons fingerprint ns target fp rs)
        ≡ length rs
  unfolding valid_records invalid_reasons
  valid_or_invalid target fp [] = refl
  valid_or_invalid target fp (r ∷ rs) = ground (arith, valid_or_invalid target fp rs)

  pub bind-ok :
      (c : LmcacheCandidate) (m : VerifiedMatch) {v : VerifiedLmcacheCandidate}
      → bind fingerprint ns c m ≡ ok v
      → v ≡ record { candidate = c; match = m }
  unfolding bind
  bind-ok c m h = ground arith

pub min_record-All :
    (P : CacheRecord → Type 0) (r : CacheRecord) (rs : List CacheRecord)
    → All P (r ∷ rs)
    → P (min_record r rs)
min_record-All P r [] h = h.0
min_record-All P r (x ∷ rs) h =
    elim (Bool-cases (record_order.le (record_order_key r) (record_order_key x))) [
      | inl e ↦ rw e (min_record-All P r rs (h.0, h.1.1))
      | inr e ↦ rw e (min_record-All P x rs h.1)
    ]
