-- ===== src/Tests/Lookups.antt =====
-- A run of the candidate lookup, and of what is hashed, on small inputs; the sum of the bytes stands
-- for SHA-256.
use cacheblend_gpt_oss.Prelude.{
  All, ◌≤◌, ℕ, zero, suc, ◌+◌, ◌*◌, ◌≡◌, refl, true, List, [], ◌∷◌, nat, bool, nats, some, ok, sum,
  length, All, arith, sorted, insert, each, distinct, get, put, ℕ_discrete,
}
use cacheblend_gpt_oss.Planner.Models.{
  CacheNamespace, normalize_token_id, normalize_token_ids, token_segment, CacheRecord,
  tokens_discrete, CacheNamespace-discrete, SegmentFingerprint-discrete, TokenRange-discrete,
}
use cacheblend_gpt_oss.Planner.Fingerprint.{
  pack_u64, length_prefix, pack_all, canonical_token_bytes, digits_from, decimal, canonical_fields,
  fields_before, fingerprint_input, sha256_fingerprint,
}
use cacheblend_gpt_oss.Planner.Selection.{select_non_overlapping}
use cacheblend_gpt_oss.Planner.Matching.{
  Fingerprinter, verified_match, candidate as candidate_match,
}
use cacheblend_gpt_oss.Storage.Types.{
  LmcacheCandidate, candidate_cache_key, query_digest, hex, bind,
}
use cacheblend_gpt_oss.Storage.Lookup.{
  LookupPlan, check_counters, lookup_bucket, cached_bucket, RecordIndex, Scan, stale_query,
}
use cacheblend_gpt_oss.Storage.Lookup.Coordinator.{
  verify_record, valid_records, invalid_reasons, bind_record, judge_valid, judge_bound,
  judge_bucket, judge_candidate, judge_candidates, selected_candidates, all_rejected, conclude,
  plan,
}
use cacheblend_gpt_oss.Storage.Lookup.Judging.{IsBound}
use cacheblend_gpt_oss.Storage.Lookup.Scanning.{IsUnambiguous}
use cacheblend_gpt_oss.Storage.Lookup.Plans.{
  Planned, scan, plan-Planned, plan-IsBound, plan-IsUnambiguous,
}
use cacheblend_gpt_oss.Storage.Types.{
  LmcacheStoreReceipt, require_receipt_int, check_receipt_records, counted_receipt, store_receipt,
}
use cacheblend_gpt_oss.Planner.Models.Laws.{IsCacheRecord}
use cacheblend_gpt_oss.Planner.Models.{max_token_id}
use cacheblend_gpt_oss.Storage.Receipts.{IsChunk, store_receipt-tiles}
use cacheblend_gpt_oss.Planner.Fingerprint.Injective.{IsShortNamespace, fingerprint_input_injective}
use cacheblend_gpt_oss.Targets.{pinned_target}
use cacheblend_gpt_oss.Storage.Types.{
  LmcacheServerAttestation, lmcache_source_commit, blend_protocol, hash_algorithm_name,
  validate_attestation, validate_namespace, check_field_lengths, require_plain_int,
}
use cacheblend_gpt_oss.Storage.Transport.{
  LmcacheBlendTransportConfig, transport_config, positive_timeout,
}
use cacheblend_gpt_oss.Storage.Naming.{storage_model_input_injective}
use cacheblend_gpt_oss.Tests.{namespace, span, segment}

abbrev digest_of : List ℕ → List ℕ
digest_of bytes = sum bytes ∷ []

abbrev prompt : List ℕ
prompt = 7 ∷ 8 ∷ 9 ∷ 5 ∷ 6 ∷ []

abbrev stored : ℕ → List ℕ → LmcacheCandidate
stored hash digest = record {
  source_relative_range = span 0 2;
  target_range = span 1 3;
  storage_hash = hash ∷ [];
  storage_model_name = 1 ∷ [];
  query_digest = digest;
}

abbrev asking : LmcacheCandidate
asking = stored 1 (query_digest digest_of prompt)

abbrev stale : LmcacheCandidate
stale = stored 1 []

abbrev stored_record : CacheRecord
stored_record = record {
  namespace = namespace;
  fingerprint = sha256_fingerprint digest_of namespace (8 ∷ 9 ∷ []);
  token_ids = 8 ∷ 9 ∷ [];
  source_range = span 10 12;
  cache_key = candidate_cache_key asking;
}

abbrev one_record : RecordIndex
one_record ns fp = some (stored_record ∷ [])

abbrev lookup_plan : LookupPlan
lookup_plan = record {
  verified_candidates =
      record {
        candidate = asking;
        match = verified_match (
            candidate_match (segment 1 3 (8 ∷ 9 ∷ []))
              (sha256_fingerprint digest_of namespace (8 ∷ 9 ∷ [])) stored_record);
      }
      ∷ [];
  rejected_candidates = record { candidate = stale; reason = stale_query } ∷ [];
  counters = record {
    raw_candidates = 2;
    raw_candidate_tokens = 4;
    found_candidates = 1;
    found_candidate_tokens = 2;
    verified_candidates = 1;
    verified_candidate_tokens = 2;
    rejected_candidates = 1;
    rejected_candidate_tokens = 2;
  };
}

normal_prompt : normalize_token_ids (nats prompt) ≡ ok prompt
unfolding normalize_token_ids normalize_token_id each
normal_prompt = refl

lookup_run :
    plan digest_of one_record (nats prompt) namespace (stale ∷ asking ∷ []) ≡ ok lookup_plan
unfolding plan judge_candidates judge_candidate judge_bucket judge_bound judge_valid bind_record
    invalid_reasons valid_records verify_record conclude all_rejected selected_candidates
    check_counters cached_bucket lookup_bucket bind query_digest candidate_cache_key hex
    sha256_fingerprint fingerprint_input fields_before canonical_fields decimal digits_from
    canonical_token_bytes pack_all length_prefix pack_u64 select_non_overlapping sorted insert each
    distinct get put normalize_token_ids normalize_token_id token_segment tokens_discrete ℕ_discrete
    CacheNamespace-discrete SegmentFingerprint-discrete TokenRange-discrete
lookup_run = refl

abbrev scanned : Scan
scanned = record {
  potentials =
      record {
        raw_index = 1;
        verified = record {
          candidate = asking;
          match = verified_match (
              candidate_match (segment 1 3 (8 ∷ 9 ∷ []))
                (sha256_fingerprint digest_of namespace (8 ∷ 9 ∷ [])) stored_record);
        };
      }
      ∷ [];
  rejected = (0, record { candidate = stale; reason = stale_query }) ∷ [];
  found_raw_indexes = 1 ∷ [];
  bucket_cache = (sha256_fingerprint digest_of namespace (8 ∷ 9 ∷ []), stored_record ∷ []) ∷ [];
}

scan_run :
    scan digest_of one_record (nats prompt) namespace (stale ∷ asking ∷ []) prompt ≡ ok scanned
unfolding judge_candidates judge_candidate judge_bucket judge_bound judge_valid bind_record
    invalid_reasons valid_records verify_record cached_bucket lookup_bucket bind query_digest
    candidate_cache_key hex sha256_fingerprint fingerprint_input fields_before canonical_fields
    decimal digits_from canonical_token_bytes pack_all length_prefix pack_u64 sorted insert each
    distinct get put normalize_token_ids normalize_token_id token_segment tokens_discrete ℕ_discrete
    CacheNamespace-discrete SegmentFingerprint-discrete TokenRange-discrete
scan_run = refl

plan-Planned_example :
    Planned digest_of one_record
      (nats prompt)
      namespace
      (stale ∷ asking ∷ [])
      prompt
      (plan digest_of one_record (nats prompt) namespace (stale ∷ asking ∷ []))
plan-Planned_example =
    plan-Planned digest_of one_record (nats prompt) namespace (stale ∷ asking ∷ []) prompt
      normal_prompt

plan-IsBound_example :
    All
      (IsBound (sha256_fingerprint digest_of) prompt (query_digest digest_of prompt) namespace)
      lookup_plan.verified_candidates
plan-IsBound_example =
    plan-IsBound digest_of one_record (nats prompt) namespace (stale ∷ asking ∷ []) prompt
      normal_prompt lookup_run

plan-IsUnambiguous_example : All (IsUnambiguous one_record) lookup_plan.verified_candidates
plan-IsUnambiguous_example =
    plan-IsUnambiguous digest_of one_record (nats prompt) namespace (stale ∷ asking ∷ []) prompt
      normal_prompt lookup_run

abbrev zeros : ℕ → List ℕ
zeros zero = []
zeros (suc n) = 0 ∷ zeros n

abbrev length_digest : Fingerprinter
length_digest ns ids = record { digest = length ids ∷ [] }

abbrev chunk : ℕ → CacheRecord
chunk n = record {
  namespace = namespace;
  fingerprint = length_digest namespace (zeros 256);
  token_ids = zeros 256;
  source_range = span (n * 256) (n * 256 + 256);
  cache_key = 1 ∷ [];
}

abbrev stored_chunks : LmcacheStoreReceipt
stored_chunks = record {
  stored_tokens = 512;
  stored_chunks = 2;
  candidate_lookup_required = true;
  sidecar_records = chunk 4 ∷ chunk 5 ∷ [];
}

receipt_run :
    store_receipt length_digest (nat 512) (nat 2) (bool true) (chunk 4 ∷ chunk 5 ∷ [])
    ≡ ok stored_chunks
unfolding store_receipt counted_receipt check_receipt_records require_receipt_int tokens_discrete
    ℕ_discrete CacheNamespace-discrete SegmentFingerprint-discrete
receipt_run = refl

zeros_bounded : (n : ℕ) → All (λ t. t ≤ max_token_id) (zeros n)
zeros_bounded zero = tt
zeros_bounded (suc n) = (omega arith, zeros_bounded n)

chunk-IsCacheRecord : (n : ℕ) → IsCacheRecord (chunk n)
chunk-IsCacheRecord n = record {
  nonempty = omega arith;
  fits = refl;
  bounded = zeros_bounded 256;
  keyed = omega arith;
}

store_receipt-tiles_example :
    IsChunk length_digest 1024 namespace 1 (chunk 5) × (512 ≤ stored_chunks.stored_tokens)
store_receipt-tiles_example =
    store_receipt-tiles length_digest (nat 512) (nat 2) (bool true) (chunk 4) (chunk 5 ∷ []) 1
      (chunk-IsCacheRecord 4, (chunk-IsCacheRecord 5, tt)) receipt_run refl

short_namespace : IsShortNamespace namespace
unfolding canonical_fields decimal digits_from
short_namespace = omega arith

abbrev two_tokens : List ℕ
two_tokens = 8 ∷ 9 ∷ []

fingerprint_input_injective_example : (namespace ≡ namespace) × (two_tokens ≡ two_tokens)
fingerprint_input_injective_example =
    fingerprint_input_injective namespace namespace two_tokens two_tokens short_namespace
      short_namespace (omega arith) (omega arith) (omega arith) (omega arith) refl

abbrev pinned_namespace : CacheNamespace
pinned_namespace = record namespace {
  model_id = pinned_target.model_id;
  tokenizer_id = pinned_target.model_id;
  vllm_version = pinned_target.vllm_version;
  lmcache_version = pinned_target.lmcache_version;
  torch_version = pinned_target.torch_version;
  cuda_runtime = pinned_target.cuda_runtime;
}

abbrev attestation : LmcacheServerAttestation
attestation = record {
  lmcache_version = pinned_target.lmcache_version;
  source_commit = lmcache_source_commit;
  protocol = blend_protocol;
  hash_algorithm = hash_algorithm_name;
}

abbrev built_config : LmcacheBlendTransportConfig
built_config = record {
  namespace = pinned_namespace;
  server_attestation = attestation;
  world_size = 1;
  worker_id = 0;
  chunk_size = 256;
}

config_run :
    transport_config pinned_namespace attestation (nat 1) (nat 0) (nat 256) positive_timeout
    ≡ ok built_config
unfolding transport_config validate_attestation validate_namespace check_field_lengths
    canonical_fields decimal digits_from require_plain_int tokens_discrete ℕ_discrete
config_run = refl

storage_model_input_injective_example : pinned_namespace ≡ pinned_namespace
storage_model_input_injective_example =
    storage_model_input_injective pinned_namespace pinned_namespace attestation attestation (nat 1)
      (nat 0) (nat 256) (nat 1) (nat 0) (nat 256) positive_timeout positive_timeout config_run
      config_run refl
