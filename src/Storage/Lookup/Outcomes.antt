-- ===== src/Storage/Lookup/Outcomes.antt =====
-- The outcomes of the loop of src/cacheblend_gpt_oss/storage/lookup.py for one candidate: it is
-- rejected before or behind the count of found candidates, or becomes a potential one.
use cacheblend_gpt_oss.Prelude.{
  ℕ, ◌+◌, ◌≤◌, ◌<◌, ◌≡◌, refl, sym, subst, true, List, [], ◌∷◌, ◌++◌, map, none, ok, length, All,
  All-map, All-passed, All-of_filter, All-of_map, ◌==◌, filter, arith, Bool-cases, inl, inr,
  refuted, holds_iff, distinct, distinct_single,
}
use cacheblend_gpt_oss.Planner.Models.{
  TokenRange, TokenSegment, CacheNamespace, CacheRecord, range_len, tokens_discrete,
  TokenRange-discrete, CacheNamespace-discrete, SegmentFingerprint-discrete,
}
use cacheblend_gpt_oss.Planner.Matching.{
  Fingerprinter, verified_match, candidate as candidate_match,
}
use cacheblend_gpt_oss.Storage.Types.{
  LmcacheCandidate, candidate_cache_key, VerifiedLmcacheCandidate, bind,
}
use cacheblend_gpt_oss.Storage.Lookup.{
  Looked, RejectionReason, source_position_ambiguous, cache_key_mismatch, no_sidecar_record, Scan,
  reject, min_record, min_reason, prompt_slice, source_of,
}
use cacheblend_gpt_oss.Storage.Lookup.Coordinator.{
  verify_record, valid_records, invalid_reasons, bind_record, judge_valid, judge_bound,
  judge_bucket, has_key,
}
use cacheblend_gpt_oss.Storage.Lookup.Judging.{
  IsBound, verify_record-none, valid_records-All, All-of_valid_records, valid_or_invalid,
  min_record-All,
}

abbrev pub count_found : ℕ → Scan → Scan
count_found i s = record s { found_raw_indexes = s.found_raw_indexes ++ i ∷ [] }

abbrev pub accept : ℕ → VerifiedLmcacheCandidate → Scan → Scan
accept i v s = record s { potentials = s.potentials ++ record { raw_index = i; verified = v } ∷ [] }

module _ (fingerprint : Fingerprinter) (prompt digest : List ℕ) (ns : CacheNamespace) (i : ℕ)
    (c : LmcacheCandidate) where
  abbrev pub slice : List ℕ
  slice = prompt_slice prompt c.target_range

  abbrev pub target : TokenSegment
  target = record { token_range = c.target_range; token_ids = slice }

  -- A record of the bucket that is as good as the one that was bound comes from the same position.
  abbrev pub IsSole : List CacheRecord → VerifiedLmcacheCandidate → Type 0
  IsSole bucket v =
      All
        (λ r.
          has_key c r ≡ true
          → verify_record fingerprint ns target (fingerprint ns slice) r ≡ none
          → r.source_range ≡ source_of v)
        bucket

  pub data Outcome (bucket : List CacheRecord) (s s' : Scan) : Type 0 where
    unfound : (reason : RejectionReason) → s' ≡ reject i c reason s → Outcome bucket s s'
    refused :
        (reason : RejectionReason) → s' ≡ reject i c reason (count_found i s) → Outcome bucket s s'
    accepted :
        (v : VerifiedLmcacheCandidate)
        → v.candidate ≡ c
        → IsBound fingerprint prompt digest ns v
        → IsSole bucket v
        → s' ≡ accept i v (count_found i s)
        → Outcome bucket s s'

  -- The candidate asks for this prompt, and its target was cut out of it.
  pub record IsAsked : Type 0 where
    pub same_query : c.query_digest ≡ digest
    pub within : c.target_range.end ≤ length prompt
    pub nonempty : 0 < length slice
    pub fits : range_len c.target_range ≡ length slice

  -- What the bound record passed before it is bound.
  abbrev Verified : CacheRecord → Type 0
  Verified r =
      (r.cache_key ≡ candidate_cache_key c)
      × (verify_record fingerprint ns target (fingerprint ns slice) r ≡ none)

  bound_value : CacheRecord → VerifiedLmcacheCandidate
  bound_value r = record {
    candidate = c;
    match = verified_match (candidate_match target (fingerprint ns slice) r);
  }

  bound_value-IsBound :
      (r : CacheRecord)
      → IsAsked
      → Verified r
      → IsBound fingerprint prompt digest ns (bound_value r)
  unfolding bound_value
  bound_value-IsBound r a (k, v) =
      let (e, f, g) = verify_record-none fingerprint ns target (fingerprint ns slice) r v in
      record {
        same_query = a.same_query;
        within = a.within;
        nonempty = a.nonempty;
        fits = a.fits;
        same_target = refl;
        target_tokens = refl;
        same_namespace = e;
        same_tokens = g;
        same_fingerprint = f;
        same_query_fingerprint = refl;
        same_key = k;
      }

  -- Binding a verified record never fails.
  bind-Verified :
      (r : CacheRecord)
      → IsAsked
      → Verified r
      → bind fingerprint ns c (verified_match (candidate_match target (fingerprint ns slice) r))
        ≡ ok (bound_value r)
  unfolding bind bound_value
  bind-Verified r a (k, v) =
      let (e, f, g) = verify_record-none fingerprint ns target (fingerprint ns slice) r v in
      let fit : (range_len c.target_range == length slice) ≡ true = ground (arith, a.fits) in
      rw (
        refuted (CacheNamespace-discrete r.namespace ns) e,
        refuted (TokenRange-discrete c.target_range c.target_range) refl,
        refuted (tokens_discrete (candidate_cache_key c) r.cache_key) (sym k),
        refuted (tokens_discrete r.token_ids slice) g,
        refuted (SegmentFingerprint-discrete (fingerprint ns slice) (fingerprint ns slice)) refl,
        refuted (SegmentFingerprint-discrete r.fingerprint (fingerprint ns slice)) f,
        fit,
      )

  abbrev Judges : Looked Scan → List CacheRecord → Scan → Type 0
  Judges result bucket s = (s' : Scan) × (result ≡ ok s') × Outcome bucket s s'

  bind_record-ok :
      (r : CacheRecord) (s : Scan)
      → IsAsked
      → Verified r
      → bind_record fingerprint ns i c target (fingerprint ns slice) r s
        ≡ ok (accept i (bound_value r) s)
  unfolding bind_record
  bind_record-ok r s a v = rw (bind-Verified r a v)

  -- The records that are valid, and what holds of them all holds of their likes in the bucket.
  judge_valid-Outcome :
      (bucket : List CacheRecord) (es : List RejectionReason) (vs : List CacheRecord) (s : Scan)
      → IsAsked
      → 0 < length es + length vs
      → All Verified vs
      → ((y : TokenRange)
          → All (λ r. r.source_range ≡ y) vs
          → All
              (λ r.
                has_key c r ≡ true
                → verify_record fingerprint ns target (fingerprint ns slice) r ≡ none
                → r.source_range ≡ y)
              bucket)
      → Judges
          (judge_valid fingerprint ns i c target (fingerprint ns slice) es vs (count_found i s))
          bucket
          s
  unfolding judge_valid
  judge_valid-Outcome bucket [] [] s a n h k = absurd (omega arith)
  judge_valid-Outcome bucket (e ∷ es) [] s a n h k = (_, refl, refused (min_reason e es) refl)
  judge_valid-Outcome bucket es (v ∷ vs) s a n h k =
      elim (Bool-cases
        (length (distinct TokenRange-discrete (map (λ x. x.source_range) (v ∷ vs))) == 1)) [
          | inr e ↦ (
            reject i c source_position_ambiguous (count_found i s),
            rw e refl,
            refused source_position_ambiguous refl,
          )
          | inl e ↦
              let (y, same) =
                distinct_single TokenRange-discrete (map (λ x. x.source_range) (v ∷ vs))
                  (ground arith) in
              let all_same = All-of_map (λ x. x.source_range) (λ r. r ≡ y) (v ∷ vs) same in
              let r = min_record v vs in
              let verified = min_record-All Verified v vs h in
              let at : r.source_range ≡ y =
                min_record-All (λ x. x.source_range ≡ y) v vs all_same in
              (
                accept i (bound_value r) (count_found i s),
                rw e (bind_record-ok r (count_found i s) a verified),
                unfold bound_value in
                    accepted (bound_value r) refl (bound_value-IsBound r a verified)
                      (subst
                        (λ z.
                          All
                            (λ x.
                              has_key c x ≡ true
                              → verify_record fingerprint ns target (fingerprint ns slice) x ≡ none
                              → x.source_range ≡ z)
                            bucket)
                        (sym at) (k y all_same))
                      refl,
              )
        ]

  judge_bound-Outcome :
      (bucket rs : List CacheRecord) (s : Scan)
      → IsAsked
      → rs ≡ filter (has_key c) bucket
      → Judges (judge_bound fingerprint ns i c target (fingerprint ns slice) rs s) bucket s
  unfolding judge_bound
  judge_bound-Outcome bucket [] s a e = (_, refl, unfound cache_key_mismatch refl)
  judge_bound-Outcome bucket (r ∷ rs) s a e =
      let fp = fingerprint ns slice in
      let keyed : All (λ x. has_key c x ≡ true) (r ∷ rs) =
        subst (All (λ x. has_key c x ≡ true)) (sym e) (All-passed (has_key c) bucket) in
      let same_keys =
        All-map (λ x h. (holds_iff (tokens_discrete x.cache_key (candidate_cache_key c))).0 h)
          (r ∷ rs) keyed in
      judge_valid-Outcome bucket (invalid_reasons fingerprint ns target fp (r ∷ rs))
        (valid_records fingerprint ns target fp (r ∷ rs)) s a
        (omega (arith, valid_or_invalid fingerprint ns target fp (r ∷ rs)))
        (valid_records-All fingerprint ns (λ x. x.cache_key ≡ candidate_cache_key c) target fp
          (r ∷ rs) same_keys)
        λ y h. All-of_filter _ (has_key c) bucket (
          subst (All (λ x. verify_record fingerprint ns target fp x ≡ none → x.source_range ≡ y)) e
            (All-of_valid_records fingerprint ns (λ x. x.source_range ≡ y) target fp (r ∷ rs) h))

  -- A candidate that asks for this prompt is judged by any bucket without an error.
  pub judge_bucket-Outcome :
      (bucket : List CacheRecord) (s : Scan)
      → IsAsked
      → Judges (judge_bucket fingerprint ns i c target (fingerprint ns slice) bucket s) bucket s
  unfolding judge_bucket
  judge_bucket-Outcome [] s a = (_, refl, unfound no_sidecar_record refl)
  judge_bucket-Outcome (r ∷ rs) s a =
      judge_bound-Outcome (r ∷ rs) (filter (has_key c) (r ∷ rs)) s a refl
