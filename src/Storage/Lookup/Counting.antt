-- ===== src/Storage/Lookup/Counting.antt =====
-- The invariant of the loop in src/cacheblend_gpt_oss/storage/lookup.py: each candidate that was
-- judged is a potential one or rejected, and the counts of the found ones lie between.
use cacheblend_gpt_oss.Prelude.{
  ℕ, suc, ◌+◌, ◌≤◌, ◌≡◌, ◌⊎◌, refl, sym, ap, subst, ◌∙◌, List, [], ◌∷◌, ◌++◌, map, some, ok, raise,
  length, sum, All, All-append, get_elem?, length-append, sum-snoc, get_elem-append, append_assoc,
  append-nil, arith, inl, inr,
}
use cacheblend_gpt_oss.Planner.Models.{CacheNamespace}
use cacheblend_gpt_oss.Planner.Matching.{Fingerprinter}
use cacheblend_gpt_oss.Storage.Types.{LmcacheCandidate, VerifiedLmcacheCandidate}
use cacheblend_gpt_oss.Storage.Lookup.{
  Looked, LookupFailure, RejectionReason, PotentialCandidate, RejectedLmcacheCandidate, RecordIndex,
  Scan, reject,
}
use cacheblend_gpt_oss.Storage.Lookup.Coordinator.{
  judge_candidates, lookup_tokens, tokens_at, empty_scan,
}
use cacheblend_gpt_oss.Storage.Lookup.Outcomes.{count_found, accept}
use cacheblend_gpt_oss.Storage.Lookup.Buckets.{IsCached, with_cache}
use cacheblend_gpt_oss.Storage.Lookup.Scanning.{
  Excused, IsGood, Effect, pass, refuse, bind, judge_candidate-Round,
}

abbrev pub potential_tokens : PotentialCandidate → ℕ
potential_tokens p = lookup_tokens p.verified.candidate

abbrev pub rejected_tokens : ℕ × RejectedLmcacheCandidate → ℕ
rejected_tokens r = lookup_tokens r.1.candidate

module _ (fingerprint : Fingerprinter) (index : RecordIndex) (prompt digest : List ℕ)
    (ns : CacheNamespace) (raw : List LmcacheCandidate) where
  pub record IsScanned (done : List LmcacheCandidate) (s : Scan) : Type 0 where
    pub counted : length s.potentials + length s.rejected ≡ length done
    pub weighed :
        sum (map potential_tokens s.potentials) + sum (map rejected_tokens s.rejected)
        ≡ sum (map lookup_tokens done)
    pub found : length s.potentials ≤ length s.found_raw_indexes
    pub found_tokens :
        sum (map potential_tokens s.potentials) ≤ sum (map (tokens_at raw) s.found_raw_indexes)
    pub raw_count : length s.found_raw_indexes ≤ length done
    pub raw_tokens : sum (map (tokens_at raw) s.found_raw_indexes) ≤ sum (map lookup_tokens done)
    pub good : All (λ p. IsGood fingerprint index prompt digest ns p.verified) s.potentials

  raw_candidate :
      (done : List LmcacheCandidate) (c : LmcacheCandidate) (cs : List LmcacheCandidate)
      → done ++ c ∷ cs ≡ raw
      → get_elem? raw (length done) ≡ some c
  raw_candidate done c cs e =
      subst (λ l. get_elem? l (length done) ≡ some c) e (get_elem-append done c cs)

  tokens_at-append :
      (done : List LmcacheCandidate) (c : LmcacheCandidate) (cs : List LmcacheCandidate)
      → done ++ c ∷ cs ≡ raw
      → tokens_at raw (length done) ≡ lookup_tokens c
  tokens_at-append done c cs e = rw (raw_candidate done c cs e, tokens_at) refl

  abbrev Next : List LmcacheCandidate → LmcacheCandidate → Scan → Type 0
  Next done c s = IsScanned (done ++ c ∷ []) s

  reject-Next :
      (done : List LmcacheCandidate) (c : LmcacheCandidate) (reason : RejectionReason) (s : Scan)
      → IsScanned done s
      → Next done c (reject (length done) c reason s)
  reject-Next done c reason s h =
      let r : ℕ × RejectedLmcacheCandidate =
        (length done, record { candidate = c; reason = reason }) in
      let n = length-append done (c ∷ []) in
      let m = sum-snoc lookup_tokens done c in
      record {
        counted = omega (arith, n, length-append s.rejected (r ∷ []), h.counted);
        weighed = omega (arith, m, sum-snoc rejected_tokens s.rejected r, h.weighed);
        found = h.found;
        found_tokens = h.found_tokens;
        raw_count = omega (arith, n, h.raw_count);
        raw_tokens = omega (arith, m, h.raw_tokens);
        good = h.good;
      }

  refuse-Next :
      (done : List LmcacheCandidate) (c : LmcacheCandidate) (reason : RejectionReason) (s : Scan)
      → tokens_at raw (length done) ≡ lookup_tokens c
      → IsScanned done s
      → Next done c (reject (length done) c reason (count_found (length done) s))
  refuse-Next done c reason s t h =
      let i = length done in
      let r : ℕ × RejectedLmcacheCandidate = (i, record { candidate = c; reason = reason }) in
      let n = length-append done (c ∷ []) in
      let m = sum-snoc lookup_tokens done c in
      let count = length-append s.found_raw_indexes (i ∷ []) in
      let weight = sum-snoc (tokens_at raw) s.found_raw_indexes i in
      record {
        counted = omega (arith, n, length-append s.rejected (r ∷ []), h.counted);
        weighed = omega (arith, m, sum-snoc rejected_tokens s.rejected r, h.weighed);
        found = omega (arith, count, h.found);
        found_tokens = omega (arith, weight, h.found_tokens);
        raw_count = omega (arith, n, count, h.raw_count);
        raw_tokens = omega (arith, m, t, weight, h.raw_tokens);
        good = h.good;
      }

  accept-Next :
      (done : List LmcacheCandidate) (c : LmcacheCandidate) (v : VerifiedLmcacheCandidate)
      (s : Scan)
      → tokens_at raw (length done) ≡ lookup_tokens c
      → v.candidate ≡ c
      → IsGood fingerprint index prompt digest ns v
      → IsScanned done s
      → Next done c (accept (length done) v (count_found (length done) s))
  accept-Next done c v s t same g h =
      let i = length done in
      let p : PotentialCandidate = record { raw_index = i; verified = v } in
      let n = length-append done (c ∷ []) in
      let m = sum-snoc lookup_tokens done c in
      let count = length-append s.found_raw_indexes (i ∷ []) in
      let weight = sum-snoc (tokens_at raw) s.found_raw_indexes i in
      let more = length-append s.potentials (p ∷ []) in
      let heavier = sum-snoc potential_tokens s.potentials p in
      let same_tokens : potential_tokens p ≡ lookup_tokens c = ap lookup_tokens same in
      record {
        counted = omega (arith, n, more, h.counted);
        weighed = omega (arith, m, heavier, same_tokens, h.weighed);
        found = omega (arith, count, more, h.found);
        found_tokens = omega (arith, weight, heavier, t, same_tokens, h.found_tokens);
        raw_count = omega (arith, n, count, h.raw_count);
        raw_tokens = omega (arith, m, t, weight, h.raw_tokens);
        good = All-append _ s.potentials (p ∷ []) h.good (g, tt);
      }

  effect-Next :
      (done : List LmcacheCandidate) (c : LmcacheCandidate) (s : Scan) {s' : Scan}
      → tokens_at raw (length done) ≡ lookup_tokens c
      → Effect fingerprint index prompt digest ns (length done) c s s'
      → IsScanned done s
      → Next done c s'
  effect-Next done c s t (pass reason e) h =
      subst (Next done c) (sym e) (reject-Next done c reason s h)
  effect-Next done c s t (refuse reason e) h =
      subst (Next done c) (sym e) (refuse-Next done c reason s t h)
  effect-Next done c s t (bind v same g e) h =
      subst (Next done c) (sym e) (accept-Next done c v s t same g h)

  with_cache-IsScanned :
      (done : List LmcacheCandidate) (cache : _) (s : Scan)
      → IsScanned done s
      → IsScanned done (with_cache index ns cache s)
  with_cache-IsScanned done cache s h = record {
    counted = h.counted;
    weighed = h.weighed;
    found = h.found;
    found_tokens = h.found_tokens;
    raw_count = h.raw_count;
    raw_tokens = h.raw_tokens;
    good = h.good;
  }

  -- Some candidate of the list has the error's cause, or all of them were judged.
  abbrev pub Scanned : Looked Scan → Type 0
  Scanned result =
      ((e : LookupFailure) × (i : ℕ) × (c : LmcacheCandidate) × (result ≡ raise e)
        × (get_elem? raw i ≡ some c)
        × Excused index prompt ns c e)
      ⊎ ((s : Scan) × (result ≡ ok s) × IsScanned raw s)

  judge_candidates-Scanned :
      (done cs : List LmcacheCandidate) (i : ℕ) (s : Scan)
      → done ++ cs ≡ raw
      → i ≡ length done
      → IsScanned done s
      → IsCached index ns s
      → Scanned (judge_candidates fingerprint index prompt digest ns i cs s)
  unfolding judge_candidates
  judge_candidates-Scanned done [] i s e p h k =
      inr (s, refl, subst (λ l. IsScanned l s) (sym (append-nil done) ∙ e) h)
  judge_candidates-Scanned done (c ∷ cs) i s e p h k =
      elim (judge_candidate-Round fingerprint index prompt digest ns i c s k) [
        | inl (error, r, x) ↦ inl (error, length done, c, rw r refl, raw_candidate done c cs e, x)
        | inr (cache, s', r, effect, k') ↦
            let at = tokens_at-append done c cs e in
            let next =
              effect-Next done c (with_cache index ns cache s) at
                (subst
                  (λ j.
                    Effect fingerprint index prompt digest ns j c (with_cache index ns cache s) s')
                  p effect)
                (with_cache-IsScanned done cache s h) in
            rw r (
              judge_candidates-Scanned (done ++ c ∷ []) cs (suc i) s'
                (append_assoc done (c ∷ []) cs ∙ e) (omega (arith, p, length-append done (c ∷ [])))
                next k')
      ]

  pub scan-Scanned : Scanned (judge_candidates fingerprint index prompt digest ns 0 raw empty_scan)
  scan-Scanned =
      judge_candidates-Scanned [] raw 0 empty_scan refl refl
        (record {
          counted = refl;
          weighed = refl;
          found = omega arith;
          found_tokens = omega arith;
          raw_count = omega arith;
          raw_tokens = omega arith;
          good = tt;
        })
        tt
