-- ===== src/Planner/Matching/Judging.antt =====
-- The verification loop of `MatchPlanner.plan`: what the verified and the rejected candidates are.
use cacheblend_gpt_oss.Prelude.{
  ℕ, ◌+◌, ◌≡◌, refl, List, [], ◌∷◌, Option, none, some, All, All-append, length, length-append,
  arith, decided, refuted,
}
use cacheblend_gpt_oss.Planner.Models.{
  CacheNamespace, TokenSegment, SegmentFingerprint, CacheRecord, CandidateMatch,
  CacheNamespace-discrete, SegmentFingerprint-discrete, tokens_discrete,
}
use cacheblend_gpt_oss.Planner.Matching.{
  Fingerprinter, RecordLookup, CandidateRejectionReason, RejectedCandidate, Judged, judge,
  candidate, verify_candidate, judge_records, judge_queries,
}

-- The four gates of `_verify_candidate`.
pub record IsVerified (fingerprint : Fingerprinter) (ns : CacheNamespace) (c : CandidateMatch)
    : Type 0 where
  pub same_namespace : c.cached.namespace ≡ ns
  pub same_fingerprint : c.cached.fingerprint ≡ c.query_fingerprint
  pub same_tokens : c.cached.token_ids ≡ c.target_segment.token_ids
  pub own_digest : fingerprint c.cached.namespace c.cached.token_ids ≡ c.cached.fingerprint

module _ (fingerprint : Fingerprinter) (ns : CacheNamespace) where
  -- A candidate that the verifier passes meets the four gates.
  pub verify_candidate-none :
      (c : CandidateMatch) → verify_candidate fingerprint ns c ≡ none → IsVerified fingerprint ns c
  unfolding verify_candidate
  verify_candidate-none c h = record {
    same_namespace = decided (CacheNamespace-discrete c.cached.namespace ns) (ground arith);
    same_fingerprint =
        decided (SegmentFingerprint-discrete c.cached.fingerprint c.query_fingerprint)
          (ground arith);
    same_tokens =
        decided (tokens_discrete c.cached.token_ids c.target_segment.token_ids) (ground arith);
    own_digest =
        decided
          (SegmentFingerprint-discrete (fingerprint c.cached.namespace c.cached.token_ids)
            c.cached.fingerprint)
          (ground arith);
  }

  -- A candidate that meets the four gates passes the verifier.
  pub verify_candidate_of_IsVerified :
      (c : CandidateMatch) → IsVerified fingerprint ns c → verify_candidate fingerprint ns c ≡ none
  unfolding verify_candidate
  verify_candidate_of_IsVerified c v = rw (
    refuted (CacheNamespace-discrete c.cached.namespace ns) v.same_namespace,
    refuted (SegmentFingerprint-discrete c.cached.fingerprint c.query_fingerprint)
        v.same_fingerprint,
    refuted (tokens_discrete c.cached.token_ids c.target_segment.token_ids) v.same_tokens,
    refuted
        (SegmentFingerprint-discrete (fingerprint c.cached.namespace c.cached.token_ids)
          c.cached.fingerprint)
        v.own_digest,
  )

  module _ (P : CandidateMatch → Type 0) where
    judge-verified :
        (c : CandidateMatch) (o : Option CandidateRejectionReason) (j : Judged)
        → (o ≡ none → P c)
        → All P j.verified
        → All P (judge c o j).verified
    unfolding judge
    judge-verified c none j h k = All-append P j.verified (c ∷ []) k (h refl, tt)
    judge-verified c (some r) j h k = k

    judge_records-verified :
        (q : TokenSegment) (fp : SegmentFingerprint) (rs : List CacheRecord) (j : Judged)
        → All
            (λ r. verify_candidate fingerprint ns (candidate q fp r) ≡ none → P (candidate q fp r))
            rs
        → All P j.verified
        → All P (judge_records fingerprint ns q fp rs j).verified
    unfolding judge_records
    judge_records-verified q fp [] j h k = k
    judge_records-verified q fp (r ∷ rs) j h k = judge_records-verified q fp rs _ h.1 (
        judge-verified (candidate q fp r) (verify_candidate fingerprint ns (candidate q fp r)) j h.0
          k)

    -- What holds of each candidate that passes the verifier holds of all verified ones.
    pub judge_queries-verified :
        (lookup : RecordLookup) (qs : List TokenSegment) (j : Judged)
        → All
            (λ q.
              All
                (λ r.
                  verify_candidate fingerprint ns (candidate q (fingerprint ns q.token_ids) r)
                    ≡ none
                  → P (candidate q (fingerprint ns q.token_ids) r))
                (lookup ns (fingerprint ns q.token_ids)))
            qs
        → All P j.verified
        → All P (judge_queries fingerprint lookup ns qs j).verified
    unfolding judge_queries
    judge_queries-verified lookup [] j h k = k
    judge_queries-verified lookup (q ∷ qs) j h k = judge_queries-verified lookup qs _ h.1 (
        judge_records-verified q (fingerprint ns q.token_ids)
          (lookup ns (fingerprint ns q.token_ids)) j h.0 k)

  -- The candidates that the lookups return, over all queries.
  abbrev pub candidate_count : RecordLookup → List TokenSegment → ℕ
  candidate_count lookup [] = 0
  candidate_count lookup (q ∷ qs) =
      length (lookup ns (fingerprint ns q.token_ids)) + candidate_count lookup qs

  abbrev pub judged_count : Judged → ℕ
  judged_count j = length j.verified + length j.rejected

  judge-count :
      (c : CandidateMatch) (o : Option CandidateRejectionReason) (j : Judged)
      → judged_count (judge c o j) ≡ judged_count j + 1
  unfolding judge
  judge-count c none j = omega (arith, length-append j.verified (c ∷ []))
  judge-count c (some r) j =
      omega (arith, length-append j.rejected (record { candidate = c; reason = r } ∷ []))

  judge_records-count :
      (q : TokenSegment) (fp : SegmentFingerprint) (rs : List CacheRecord) (j : Judged)
      → judged_count (judge_records fingerprint ns q fp rs j) ≡ judged_count j + length rs
  unfolding judge_records
  judge_records-count q fp [] j = omega arith
  judge_records-count q fp (r ∷ rs) j =
      let c = candidate q fp r in
      let o = verify_candidate fingerprint ns c in
      omega (arith, judge-count c o j, judge_records-count q fp rs (judge c o j))

  -- Every candidate is judged once.
  pub judge_queries-count :
      (lookup : RecordLookup) (qs : List TokenSegment) (j : Judged)
      → judged_count (judge_queries fingerprint lookup ns qs j)
        ≡ judged_count j + candidate_count lookup qs
  unfolding judge_queries
  judge_queries-count lookup [] j = omega arith
  judge_queries-count lookup (q ∷ qs) j =
      let fp = fingerprint ns q.token_ids in
      omega (
        arith,
        judge_records-count q fp (lookup ns fp) j,
        judge_queries-count lookup qs (judge_records fingerprint ns q fp (lookup ns fp) j),
      )

  module _ (Q : TokenSegment → Type 0) where
    abbrev pub RejectedTarget : RejectedCandidate → Type 0
    RejectedTarget r = Q r.candidate.target_segment

    judge-rejected :
        (c : CandidateMatch) (o : Option CandidateRejectionReason) (j : Judged)
        → Q c.target_segment
        → All RejectedTarget j.rejected
        → All RejectedTarget (judge c o j).rejected
    unfolding judge
    judge-rejected c none j h k = k
    judge-rejected c (some r) j h k =
        All-append RejectedTarget j.rejected (record { candidate = c; reason = r } ∷ []) k (h, tt)

    judge_records-rejected :
        (q : TokenSegment) (fp : SegmentFingerprint) (rs : List CacheRecord) (j : Judged)
        → Q q
        → All RejectedTarget j.rejected
        → All RejectedTarget (judge_records fingerprint ns q fp rs j).rejected
    unfolding judge_records
    judge_records-rejected q fp [] j h k = k
    judge_records-rejected q fp (r ∷ rs) j h k = judge_records-rejected q fp rs _ h (
        judge-rejected (candidate q fp r) (verify_candidate fingerprint ns (candidate q fp r)) j h
          k)

    -- What holds of every query holds of the target of every rejected candidate.
    pub judge_queries-rejected :
        (lookup : RecordLookup) (qs : List TokenSegment) (j : Judged)
        → All Q qs
        → All RejectedTarget j.rejected
        → All RejectedTarget (judge_queries fingerprint lookup ns qs j).rejected
    unfolding judge_queries
    judge_queries-rejected lookup [] j h k = k
    judge_queries-rejected lookup (q ∷ qs) j h k = judge_queries-rejected lookup qs _ h.1 (
        judge_records-rejected q (fingerprint ns q.token_ids)
          (lookup ns (fingerprint ns q.token_ids)) j h.0 k)
