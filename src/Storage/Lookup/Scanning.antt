-- ===== src/Storage/Lookup/Scanning.antt =====
-- One round of the loop in src/cacheblend_gpt_oss/storage/lookup.py: what it makes of a candidate.
use cacheblend_gpt_oss.Prelude.{
  ℕ, ◌<◌, ◌≡◌, ◌⊎◌, refl, sym, ap, subst, ◌∙◌, List, none, some, ok, raise, length, All, All-map,
  All-of_sorted, ltb, ltb→lt, nats, arith, Bool-cases, Result-cases, inl, inr, holds_iff, ◌>>=◌,
}
use cacheblend_gpt_oss.Planner.Models.{
  token_segment, CacheNamespace, SegmentFingerprint, CacheRecord, tokens_discrete,
}
use cacheblend_gpt_oss.Planner.Models.Laws.{token_segment-nats}
use cacheblend_gpt_oss.Planner.Matching.{Fingerprinter}
use cacheblend_gpt_oss.Storage.Types.{
  LmcacheCandidate, candidate_cache_key, VerifiedLmcacheCandidate, same_text,
}
use cacheblend_gpt_oss.Storage.Lookup.{
  Looked, LookupFailure, lookup_error, planner_error, target_range_out_of_bounds,
  sidecar_lookup_failed, RejectionReason, stale_query, RecordIndex, Scan, reject, cached_bucket,
  prompt_slice, record_order_key, record_order,
}
use cacheblend_gpt_oss.Storage.Lookup.Coordinator.{judge_candidate, judge_bucket}
use cacheblend_gpt_oss.Storage.Lookup.Judging.{IsBound, verify_record_of}
use cacheblend_gpt_oss.Storage.Lookup.Outcomes.{
  Outcome, unfound, refused, accepted, IsAsked, IsSole, judge_bucket-Outcome, count_found, accept,
  target,
}
use cacheblend_gpt_oss.Storage.Lookup.Buckets.{
  FromIndex, IsCached, with_cache, cached_bucket-Cached,
}

-- What a candidate can raise: its target leaves the prompt, the index raises, or the constructor
-- of a segment refuses the target's slice.
pub data Excused (index : RecordIndex) (prompt : List ℕ) (ns : CacheNamespace)
    (c : LmcacheCandidate) : LookupFailure → Type 0 where
  out_of_bounds :
      length prompt < c.target_range.end
      → Excused index prompt ns c (lookup_error target_range_out_of_bounds)
  unanswered :
      (fp : SegmentFingerprint)
      → index ns fp ≡ none
      → Excused index prompt ns c (lookup_error sidecar_lookup_failed)
  malformed :
      {e : _}
      → token_segment c.target_range (nats (prompt_slice prompt c.target_range)) ≡ raise e
      → Excused index prompt ns c (planner_error e)

-- Every record that the index has for the bound one's key, namespace, fingerprint and tokens comes
-- from the same position of its source.
pub IsUnambiguous : RecordIndex → VerifiedLmcacheCandidate → Type 0
IsUnambiguous index v =
    let r = v.match.candidate.cached in
    (records : List CacheRecord) × (index r.namespace r.fingerprint ≡ some records)
    × All
        (λ x.
          x.cache_key ≡ r.cache_key
          → x.namespace ≡ r.namespace
          → x.fingerprint ≡ r.fingerprint
          → x.token_ids ≡ r.token_ids
          → x.source_range ≡ r.source_range)
        records

module _ (fingerprint : Fingerprinter) (index : RecordIndex) (prompt digest : List ℕ)
    (ns : CacheNamespace) where
  pub record IsGood (v : VerifiedLmcacheCandidate) : Type 0 where
    pub bound : IsBound fingerprint prompt digest ns v
    pub unambiguous : IsUnambiguous index v

  sole-IsUnambiguous :
      (i : ℕ) (v : VerifiedLmcacheCandidate) (bucket : List CacheRecord)
      → IsBound fingerprint prompt digest ns v
      → FromIndex index ns (fingerprint ns (prompt_slice prompt v.candidate.target_range)) bucket
      → IsSole fingerprint prompt digest ns i v.candidate bucket v
      → IsUnambiguous index v
  unfolding IsUnambiguous
  sole-IsUnambiguous i v bucket b (records, a, e) sole = (
    records,
    rw (b.same_namespace, b.same_fingerprint) a,
    All-map
        (λ x h key space mark ids.
          h
            ((holds_iff (tokens_discrete x.cache_key (candidate_cache_key v.candidate))).1
              (key ∙ b.same_key))
            (verify_record_of fingerprint ns (prompt_slice prompt v.candidate.target_range)
              v.candidate.target_range x (space ∙ b.same_namespace) (mark ∙ b.same_fingerprint)
              (ids ∙ b.same_tokens)))
        records
        (All-of_sorted ⦃o = record_order⦄ record_order_key _ records (subst (All _) e sole)),
  )

  -- What a round does to the scan, besides the cache.
  pub data Effect (i : ℕ) (c : LmcacheCandidate) (s s' : Scan) : Type 0 where
    pass : (reason : RejectionReason) → s' ≡ reject i c reason s → Effect i c s s'
    refuse : (reason : RejectionReason) → s' ≡ reject i c reason (count_found i s) → Effect i c s s'
    bind :
        (v : VerifiedLmcacheCandidate)
        → v.candidate ≡ c
        → IsGood v
        → s' ≡ accept i v (count_found i s)
        → Effect i c s s'

  effect_of :
      (i : ℕ) (c : LmcacheCandidate) (bucket : List CacheRecord) (s : Scan) {s' : Scan}
      → FromIndex index ns (fingerprint ns (prompt_slice prompt c.target_range)) bucket
      → Outcome fingerprint prompt digest ns i c bucket s s'
      → Effect i c s s'
  effect_of i c bucket s from (unfound reason e) = pass reason e
  effect_of i c bucket s from (refused reason e) = refuse reason e
  effect_of i c bucket s from (accepted v same b sole e) =
      bind v same
        (record {
          bound = b;
          unambiguous =
              sole-IsUnambiguous i v bucket b
                (subst
                  (λ x.
                    FromIndex index ns (fingerprint ns (prompt_slice prompt x.target_range)) bucket)
                  (sym same) from)
                (subst (λ x. IsSole fingerprint prompt digest ns i x bucket v) (sym same) sole);
        })
        e

  keeps_cache :
      (i : ℕ) (c : LmcacheCandidate) (s : Scan) {s' : Scan}
      → Effect i c s s'
      → IsCached index ns s
      → IsCached index ns s'
  keeps_cache i c s (pass reason e) h = subst (IsCached index ns) (sym e) h
  keeps_cache i c s (refuse reason e) h = subst (IsCached index ns) (sym e) h
  keeps_cache i c s (bind v same b e) h = subst (IsCached index ns) (sym e) h

  abbrev pub Round : ℕ → LmcacheCandidate → Scan → Looked Scan → Type 0
  Round i c s result =
      ((e : LookupFailure) × (result ≡ raise e) × Excused index prompt ns c e)
      ⊎ ((cache : List (SegmentFingerprint × List CacheRecord)) × (s' : Scan) × (result ≡ ok s')
          × Effect i c (with_cache index ns cache s) s'
          × IsCached index ns s')

  judge_asked-Round :
      (i : ℕ) (c : LmcacheCandidate) (s : Scan)
      → IsCached index ns s
      → IsAsked fingerprint prompt digest ns i c
      → Round i c s (do
        (bucket, s') ←
            cached_bucket index ns (fingerprint ns (prompt_slice prompt c.target_range)) s
        judge_bucket fingerprint ns i c
            (target fingerprint prompt digest ns i c)
            (fingerprint ns (prompt_slice prompt c.target_range))
            bucket
            s')
  judge_asked-Round i c s h a =
      let fp = fingerprint ns (prompt_slice prompt c.target_range) in
      elim (cached_bucket-Cached index ns fp s h) [
        | inr (e, n) ↦ inl (lookup_error sidecar_lookup_failed, rw e refl, unanswered fp n)
        | inl (bucket, cache, e, from, k) ↦
            let (s', j, outcome) =
              judge_bucket-Outcome fingerprint prompt digest ns i c bucket
                (with_cache index ns cache s) a in
            let effect = effect_of i c bucket (with_cache index ns cache s) from outcome in
            inr (cache, s', rw e j, effect, keeps_cache i c (with_cache index ns cache s) effect k)
      ]

  -- Each round fails for a reason of its input, or judges its candidate.
  pub judge_candidate-Round :
      (i : ℕ) (c : LmcacheCandidate) (s : Scan)
      → IsCached index ns s
      → Round i c s (judge_candidate fingerprint index prompt digest ns i c s)
  unfolding judge_candidate
  judge_candidate-Round i c s h =
      let slice = prompt_slice prompt c.target_range in
      elim (Bool-cases (ltb (length prompt) c.target_range.end)) [
        | inl e ↦ inl (
          lookup_error target_range_out_of_bounds,
          rw e refl,
          out_of_bounds (ltb→lt (length prompt) c.target_range.end e),
        )
        | inr e ↦ elim (Bool-cases (same_text c.query_digest digest)) [
          | inr q ↦
              inr
                (s.bucket_cache, reject i c stale_query s, rw (e, q) refl, pass stale_query refl, h)
          | inl q ↦ elim (Result-cases (token_segment c.target_range (nats slice))) [
            | inr (error, t) ↦ inl (planner_error error, rw (e, q, t) refl, malformed t)
            | inl (segment, t) ↦
                let (same, n, fits) = token_segment-nats c.target_range slice t in
                let asked : IsAsked fingerprint prompt digest ns i c = record {
                  same_query = (holds_iff (tokens_discrete c.query_digest digest)).0 q;
                  within = ground arith;
                  nonempty = n;
                  fits = fits;
                } in
                rw (e, q, t ∙ ap ok same) (judge_asked-Round i c s h asked)
          ]
        ]
      ]
