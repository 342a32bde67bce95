-- ===== src/Storage/Lookup.antt =====
-- Exact verification of LMCache's candidates: src/cacheblend_gpt_oss/storage/lookup.py. The sidecar
-- index that is asked for records is an argument, and so is SHA-256; `none` stands for an exception
-- of the index. An index that answers with other values than records is left out.
pub mod Coordinator
pub mod Judging
pub mod Outcomes
pub mod Buckets
pub mod Scanning
pub mod Counting
pub mod Chosen
pub mod Plans
use cacheblend_gpt_oss.Prelude.{
  ℕ, ◌+◌, ◌-◌, Bool, true, false, not, List, [], ◌∷◌, ◌++◌, map, Text, codes, Option, none, some,
  Result, ok, raise, ◌>>=◌, ◌>>◌, raise_if, ltb, leb, ◌==◌, filter, take, drop, elem, get, put,
  sorted, if◌then◌else◌, TotalOrder, nat_order, pair_order, list_order,
}
use cacheblend_gpt_oss.Planner.Models.{
  PlannerError, Checked, TokenRange, CacheNamespace, SegmentFingerprint, CacheRecord, range_len,
  tokens_discrete, TokenRange-discrete, CacheNamespace-discrete, SegmentFingerprint-discrete,
}
use cacheblend_gpt_oss.Planner.Coverage.{sweep_ranges, range_key}
use cacheblend_gpt_oss.Planner.Fingerprint.{canonical_fields}
use cacheblend_gpt_oss.Planner.Selection.{Item, select_non_overlapping}
use cacheblend_gpt_oss.Storage.Types.{
  Wired, LmcacheCandidate, candidate_cache_key, VerifiedLmcacheCandidate, query_digest,
}

pub data LookupErrorCode : Type 0 where
  invalid_prompt_tokens invalid_candidate target_range_out_of_bounds : LookupErrorCode
  sidecar_lookup_failed invalid_sidecar_response : LookupErrorCode
  binding_invariant_failed accounting_invariant_failed : LookupErrorCode

-- A `LmcacheLookupError`, or an error of a constructor that is not caught.
pub data LookupFailure : Type 0 where
  lookup_error : LookupErrorCode → LookupFailure
  planner_error : PlannerError → LookupFailure

abbrev pub Looked {ℓ} : Type ℓ → Type ℓ
Looked = Result LookupFailure

abbrev pub fail_if : Bool → LookupErrorCode → Looked (Unit {0})
fail_if b code = raise_if b (lookup_error code)

pub data RejectionReason : Type 0 where
  stale_query no_sidecar_record cache_key_mismatch namespace_mismatch : RejectionReason
  fingerprint_mismatch token_mismatch source_position_ambiguous : RejectionReason
  duplicate_candidate overlaps_selected_candidate : RejectionReason

-- The member's `value`.
abbrev pub reason_value : RejectionReason → Text
reason_value stale_query = codes "stale_query"
reason_value no_sidecar_record = codes "no_sidecar_record"
reason_value cache_key_mismatch = codes "cache_key_mismatch"
reason_value namespace_mismatch = codes "namespace_mismatch"
reason_value fingerprint_mismatch = codes "fingerprint_mismatch"
reason_value token_mismatch = codes "token_mismatch"
reason_value source_position_ambiguous = codes "source_position_ambiguous"
reason_value duplicate_candidate = codes "duplicate_candidate"
reason_value overlaps_selected_candidate = codes "overlaps_selected_candidate"

-- `_VERIFICATION_REASON_PRIORITY`; a key that it lacks is a `KeyError`, and does not come up.
abbrev pub reason_priority : RejectionReason → ℕ
reason_priority namespace_mismatch = 0
reason_priority fingerprint_mismatch = 1
reason_priority token_mismatch = 2
reason_priority _ = 3

-- `_FOUND_REJECTION_REASONS`
abbrev pub is_found_reason : RejectionReason → Bool
is_found_reason stale_query = false
is_found_reason no_sidecar_record = false
is_found_reason cache_key_mismatch = false
is_found_reason _ = true

pub record RejectedLmcacheCandidate : Type 0 where
  pub candidate : LmcacheCandidate
  pub reason : RejectionReason

-- Natural by their construction, so that the test of their signs always passes.
pub record LookupCounters : Type 0 where
  pub raw_candidates : ℕ
  pub raw_candidate_tokens : ℕ
  pub found_candidates : ℕ
  pub found_candidate_tokens : ℕ
  pub verified_candidates : ℕ
  pub verified_candidate_tokens : ℕ
  pub rejected_candidates : ℕ
  pub rejected_candidate_tokens : ℕ

-- `LmcacheLookupCounters.__post_init__`
unfoldable pub check_counters : LookupCounters → Looked LookupCounters
check_counters c = do
  fail_if (not (c.raw_candidates == c.verified_candidates + c.rejected_candidates))
      accounting_invariant_failed
  fail_if
      (not (c.raw_candidate_tokens == c.verified_candidate_tokens + c.rejected_candidate_tokens))
      accounting_invariant_failed
  fail_if (ltb c.raw_candidates c.found_candidates) accounting_invariant_failed
  fail_if (ltb c.raw_candidate_tokens c.found_candidate_tokens) accounting_invariant_failed
  fail_if (ltb c.found_candidates c.verified_candidates) accounting_invariant_failed
  fail_if (ltb c.found_candidate_tokens c.verified_candidate_tokens) accounting_invariant_failed
  ok c

pub record LookupPlan : Type 0 where
  pub verified_candidates : List VerifiedLmcacheCandidate
  pub rejected_candidates : List RejectedLmcacheCandidate
  pub counters : LookupCounters

abbrev pub verified_target : VerifiedLmcacheCandidate → TokenRange
verified_target v = v.candidate.target_range

abbrev pub rejected_target : RejectedLmcacheCandidate → TokenRange
rejected_target r = r.candidate.target_range

-- `found_target_token_count`, with this module's `_covered_token_count`.
unfoldable pub found_target_token_count : LookupPlan → ℕ
unfolding sweep_ranges sorted
found_target_token_count p = sweep_ranges (
    sorted range_key (
      map verified_target p.verified_candidates
      ++ map rejected_target (filter (λ r. is_found_reason r.reason) p.rejected_candidates)))

pub record PotentialCandidate : Type 0 where
  pub raw_index : ℕ
  pub verified : VerifiedLmcacheCandidate

abbrev pub CandidateKey : Type 0
CandidateKey = ℕ × (ℕ × (Text × (ℕ × (ℕ × (Text × List ℕ)))))

abbrev pub lookup_sort_key : LmcacheCandidate → CandidateKey
lookup_sort_key c = (
  c.target_range.start,
  (
    c.target_range.end,
    (
      candidate_cache_key c,
      (
        c.source_relative_range.start,
        (c.source_relative_range.end, (c.storage_model_name, c.query_digest)),
      ),
    ),
  ),
)

abbrev pub PotentialKey : Type 0
PotentialKey = CandidateKey × (ℕ × (ℕ × ℕ))

abbrev pub source_of : VerifiedLmcacheCandidate → TokenRange
source_of v = v.match.candidate.cached.source_range

abbrev pub potential_sort_key : PotentialCandidate → PotentialKey
potential_sort_key p = (
  lookup_sort_key p.verified.candidate,
  ((source_of p.verified).start, ((source_of p.verified).end, p.raw_index)),
)

abbrev pub RecordKey : Type 0
RecordKey = Text × (ℕ × (ℕ × (List ℕ × (List ℕ × List (Text × Text)))))

abbrev pub record_order : TotalOrder RecordKey
record_order = pair_order

abbrev pub record_order_key : CacheRecord → RecordKey
record_order_key r = (
  r.cache_key,
  (
    r.source_range.start,
    (r.source_range.end, (r.fingerprint.digest, (r.token_ids, canonical_fields r.namespace))),
  ),
)

-- What `_select_non_overlapping` reads of a potential candidate.
abbrev pub potential_item : PotentialCandidate → Item PotentialKey
potential_item p = record {
  target = p.verified.candidate.target_range;
  tokens = range_len p.verified.candidate.target_range;
  sort_key = potential_sort_key p;
}

abbrev pub selects : List PotentialCandidate → ℕ → Bool
selects ps i = elem i (select_non_overlapping (map potential_item ps))

abbrev pub RecordIndex : Type 0
RecordIndex = CacheNamespace → SegmentFingerprint → Option (List CacheRecord)

-- `potentials`, `rejected`, `found_raw_indexes` and `bucket_cache`.
pub record Scan : Type 0 where
  pub potentials : List PotentialCandidate
  pub rejected : List (ℕ × RejectedLmcacheCandidate)
  pub found_raw_indexes : List ℕ
  pub bucket_cache : List (SegmentFingerprint × List CacheRecord)

abbrev pub reject : ℕ → LmcacheCandidate → RejectionReason → Scan → Scan
reject i c reason s = record s {
  rejected = s.rejected ++ (i, record { candidate = c; reason = reason }) ∷ [];
}

-- `_lookup_bucket`
abbrev pub answered : Option (List CacheRecord) → Looked (List CacheRecord)
answered none = raise (lookup_error sidecar_lookup_failed)
answered (some records) = ok (sorted record_order_key records)

unfoldable pub lookup_bucket :
    RecordIndex → CacheNamespace → SegmentFingerprint → Looked (List CacheRecord)
lookup_bucket index ns fp = answered (index ns fp)

-- The bucket, from the cache if it is there, and the cache with it.
abbrev pub bucket_from :
    RecordIndex
    → CacheNamespace
    → SegmentFingerprint
    → Scan
    → Option (List CacheRecord)
    → Looked (List CacheRecord × Scan)
bucket_from index ns fp s (some bucket) = ok (bucket, s)
bucket_from index ns fp s none = do
  bucket ← lookup_bucket index ns fp
  ok (bucket, record s { bucket_cache = put SegmentFingerprint-discrete fp bucket s.bucket_cache })

unfoldable pub cached_bucket :
    RecordIndex → CacheNamespace → SegmentFingerprint → Scan → Looked (List CacheRecord × Scan)
cached_bucket index ns fp s =
    bucket_from index ns fp s (get SegmentFingerprint-discrete fp s.bucket_cache)

-- The first of the smallest.
abbrev pub min_record : CacheRecord → List CacheRecord → CacheRecord
min_record r [] = r
min_record r (x ∷ xs) =
    min_record (if record_order.le (record_order_key r) (record_order_key x) then r else x) xs

abbrev pub min_reason : RejectionReason → List RejectionReason → RejectionReason
min_reason r [] = r
min_reason r (x ∷ xs) = min_reason (if leb (reason_priority r) (reason_priority x) then r else x) xs

-- The target's slice of the prompt.
abbrev pub prompt_slice : List ℕ → TokenRange → List ℕ
prompt_slice prompt r = take (range_len r) (drop r.start prompt)

abbrev pub checked : {A : Type 0} → Checked A → Looked A
checked (ok a) = ok a
checked (raise e) = raise (planner_error e)

abbrev pub prompt_tokens : Checked (List ℕ) → Looked (List ℕ)
prompt_tokens (ok a) = ok a
prompt_tokens (raise e) = raise (lookup_error invalid_prompt_tokens)

abbrev pub bound : Wired VerifiedLmcacheCandidate → Looked VerifiedLmcacheCandidate
bound (ok v) = ok v
bound (raise e) = raise (lookup_error binding_invariant_failed)
