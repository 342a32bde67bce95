-- ===== src/Tests/Schedulers.antt =====
-- Runs of the scheduler's lookup: a prompt of one chunk that is stored, with the sum of the bytes
-- for SHA-256, and an external token that stops the runtime.
use cacheblend_gpt_oss.Prelude.{
  ℕ, ◌≡◌, refl, true, false, List, [], ◌∷◌, map, nat, nats, str, some, none, ok, All, sum, each,
  distinct, get, put, sorted, insert, has_duplicates, ℕ_discrete, range_from,
}
use cacheblend_gpt_oss.Planner.Models.{
  CacheRecord, CacheNamespace-discrete, SegmentFingerprint-discrete, TokenRange-discrete,
  TokenSegment-discrete, tokens_discrete, normalize_token_id, normalize_token_ids, token_segment,
}
use cacheblend_gpt_oss.Planner.Fingerprint.{
  sha256_fingerprint, pack_u64, length_prefix, pack_all, canonical_token_bytes, digits_from,
  decimal, canonical_fields, fields_before, fingerprint_input,
}
use cacheblend_gpt_oss.Planner.Matching.{
  matched_tokens, verified_match, candidate as candidate_match,
}
use cacheblend_gpt_oss.Planner.Selection.{select_non_overlapping}
use cacheblend_gpt_oss.Storage.Types.{
  LmcacheCandidate, candidate_cache_key, query_digest, hex, bind,
}
use cacheblend_gpt_oss.Storage.Lookup.{
  RecordIndex, check_counters, lookup_bucket, cached_bucket, LookupPlan,
}
use cacheblend_gpt_oss.Storage.Lookup.Judging.{IsBound}
use cacheblend_gpt_oss.Storage.Lookup.Coordinator.{
  verify_record, valid_records, invalid_reasons, bind_record, judge_valid, judge_bound,
  judge_bucket, judge_candidate, judge_candidates, selected_candidates, all_rejected, conclude,
  plan,
}
use cacheblend_gpt_oss.Scheduler.{
  SchedulerLookupRequest, SchedulerLookupMetadata, SchedulerLookupRequest-discrete,
  scheduler_lookup_request, created, fatal, transfer_ready, query_windows, lookup_request_plan,
  build_metadata, check_metadata, check_fields, misplaced, matches_discrete,
}
use cacheblend_gpt_oss.Scheduler.Accepted.{metadata_of}
use cacheblend_gpt_oss.Scheduler.Calls.{lookup_request, search, verify_candidates}
use cacheblend_gpt_oss.Scheduler.Sound.{IsAnswer, IsSound}
use cacheblend_gpt_oss.Scheduler.Searches.{IsHonest}
use cacheblend_gpt_oss.Scheduler.Planning.{Returns, coordinator_of-IsPlanning}
use cacheblend_gpt_oss.Scheduler.Lookups.{
  FatalAnswer, BoundPlan, empty-BoundPlan, coordinator_of-IsHonest, preempted_once,
  lookup_request-IsAnswer, lookup_request-IsBound, lookup_request-Returns, lookup_request-repeated,
  lookup_request-preempted, lookup_request-fatal, Run-IsSound,
}
use cacheblend_gpt_oss.ControlPlane.Records.{request_plan, check_matches}
use cacheblend_gpt_oss.Planner.Coverage.{covered_token_count, sweep_ranges}
use cacheblend_gpt_oss.Scheduler.Requests.{IsRequest, scheduler_lookup_request-IsRequest}
use cacheblend_gpt_oss.Scheduler.Runtime.{
  SchedulerConfig, SchedulerRuntime, TransportIdentity, Answers, opened, built, found,
  scheduler_runtime, open_runtime, eligibility_status,
}
use cacheblend_gpt_oss.Scheduler.Runs.{coordinator_of, Run, start, looking}
use cacheblend_gpt_oss.Tests.{namespace, span, segment}

abbrev digest_of : List ℕ → List ℕ
digest_of bytes = sum bytes ∷ []

abbrev identity : TransportIdentity
identity = record {
  config = record {
    namespace = namespace;
    server_attestation = record {
      lmcache_version = [];
      source_commit = [];
      protocol = [];
      hash_algorithm = [];
    };
    world_size = 1;
    worker_id = 0;
    chunk_size = 256;
  };
  request_timeout = [];
}

abbrev config : SchedulerConfig
config = record { namespace = namespace; staging_token_capacity = 512 }

abbrev new : SchedulerRuntime
new = record {
  config = config;
  transport_config = identity;
  transport_needs_close = true;
  state = created;
  fatal_status = none;
  requests = [];
}

new_run : scheduler_runtime config (some identity) ≡ ok new
unfolding scheduler_runtime CacheNamespace-discrete ℕ_discrete
new_run = refl

abbrev prompt : List ℕ
prompt = map (λ i. 7) (range_from 0 256)

abbrev request : SchedulerLookupRequest
request = record {
  request_id = 1 ∷ [];
  prompt_token_ids = prompt;
  sequence_count = 1;
  scheduler_step_index = 0;
  num_computed_tokens = 0;
  num_external_tokens = 0;
  preemption_count = 0;
}

request_run :
    scheduler_lookup_request (str (1 ∷ [])) (nats prompt) (nat 1) (nat 0) (nat 0) (nat 0) (nat 0)
    ≡ ok request
unfolding scheduler_lookup_request normalize_token_ids normalize_token_id each
request_run = refl

request-IsRequest : IsRequest request
request-IsRequest =
    scheduler_lookup_request-IsRequest (str (1 ∷ [])) (nats prompt) (nat 1) (nat 0) (nat 0) (nat 0)
      (nat 0) request_run

abbrev chunk : LmcacheCandidate
chunk = record {
  source_relative_range = span 0 256;
  target_range = span 0 256;
  storage_hash = 1 ∷ [];
  storage_model_name = 1 ∷ [];
  query_digest = query_digest digest_of prompt;
}

abbrev stored_record : CacheRecord
stored_record = record {
  namespace = namespace;
  fingerprint = sha256_fingerprint digest_of namespace prompt;
  token_ids = prompt;
  source_range = span 0 256;
  cache_key = candidate_cache_key chunk;
}

abbrev one_record : RecordIndex
one_record ns fp = some (stored_record ∷ [])

abbrev answers : Answers
answers = record {
  opening = opened;
  closing = true;
  replacement = built false (some identity) true;
  candidates = found (chunk ∷ []);
  coordinator = coordinator_of digest_of one_record false;
}

abbrev lookup_plan : LookupPlan
lookup_plan = record {
  verified_candidates =
      record {
        candidate = chunk;
        match = verified_match (
            candidate_match (segment 0 256 prompt) (sha256_fingerprint digest_of namespace prompt)
              stored_record);
      }
      ∷ [];
  rejected_candidates = [];
  counters = record {
    raw_candidates = 1;
    raw_candidate_tokens = 256;
    found_candidates = 1;
    found_candidate_tokens = 256;
    verified_candidates = 1;
    verified_candidate_tokens = 256;
    rejected_candidates = 0;
    rejected_candidate_tokens = 0;
  };
}

plan_run : plan digest_of one_record (nats prompt) namespace (chunk ∷ []) ≡ ok lookup_plan
unfolding plan judge_candidates judge_candidate judge_bucket judge_bound judge_valid bind_record
    invalid_reasons valid_records verify_record conclude all_rejected selected_candidates
    check_counters cached_bucket lookup_bucket bind query_digest candidate_cache_key hex
    sha256_fingerprint fingerprint_input fields_before canonical_fields decimal digits_from
    canonical_token_bytes pack_all length_prefix pack_u64 select_non_overlapping sorted insert each
    distinct get put normalize_token_ids normalize_token_id token_segment tokens_discrete ℕ_discrete
    CacheNamespace-discrete SegmentFingerprint-discrete TokenRange-discrete
plan_run = refl

abbrev metadata : SchedulerLookupMetadata
metadata = metadata_of request transfer_ready lookup_plan (span 0 256 ∷ []) 0

first_run : (lookup_request answers request new).0 ≡ ok metadata
unfolding lookup_request eligibility_status query_windows search verify_candidates coordinator_of
    build_metadata lookup_request_plan request_plan check_matches check_metadata check_fields
    misplaced matches_discrete SchedulerLookupRequest-discrete covered_token_count sweep_ranges
    matched_tokens TokenSegment-discrete has_duplicates plan judge_candidates judge_candidate
    judge_bucket judge_bound judge_valid bind_record invalid_reasons valid_records verify_record
    conclude all_rejected selected_candidates check_counters cached_bucket lookup_bucket bind
    query_digest candidate_cache_key hex sha256_fingerprint fingerprint_input fields_before
    canonical_fields decimal digits_from canonical_token_bytes pack_all length_prefix pack_u64
    select_non_overlapping sorted insert each distinct get put normalize_token_ids
    normalize_token_id token_segment tokens_discrete ℕ_discrete CacheNamespace-discrete
    SegmentFingerprint-discrete TokenRange-discrete
first_run = refl

new-Run : Run (BoundPlan digest_of) (empty-BoundPlan digest_of) config new
new-Run = start (some identity) new new_run

honest : IsHonest (BoundPlan digest_of) (empty-BoundPlan digest_of) answers.coordinator
honest = coordinator_of-IsHonest digest_of one_record false

lookup_request-IsAnswer_example : IsAnswer (BoundPlan digest_of) config request metadata
lookup_request-IsAnswer_example =
    lookup_request-IsAnswer (BoundPlan digest_of) (empty-BoundPlan digest_of) config new new-Run
      answers request honest first_run

lookup_request-Returns_example : Returns (lookup_request answers request new)
lookup_request-Returns_example =
    lookup_request-Returns (BoundPlan digest_of) (empty-BoundPlan digest_of) config new new-Run
      answers request request-IsRequest (coordinator_of-IsPlanning digest_of one_record false)

lookup_request-repeated_example :
    lookup_request answers request (lookup_request answers request new).1
    ≡ (ok metadata, (lookup_request answers request new).1)
lookup_request-repeated_example =
    lookup_request-repeated (BoundPlan digest_of) (empty-BoundPlan digest_of) config new new-Run
      answers request answers honest first_run refl

lookup_request-preempted_example :
    (lookup_request answers (preempted_once request) (lookup_request answers request new).1).0
    ≡ ok (record metadata { preemption_count = 1; allocation_generation = 1 })
lookup_request-preempted_example =
    lookup_request-preempted (BoundPlan digest_of) (empty-BoundPlan digest_of) config new new-Run
      answers request answers honest first_run refl

-- A request with an external token.
abbrev external_request : SchedulerLookupRequest
external_request = record request { num_external_tokens = 1 }

abbrev fatal_runtime : SchedulerRuntime
fatal_runtime = (lookup_request answers external_request new).1

fatal_runtime-Run : Run (BoundPlan digest_of) (empty-BoundPlan digest_of) config fatal_runtime
fatal_runtime-Run = looking answers external_request new honest new-Run

fatal_state : fatal_runtime.state ≡ fatal
unfolding lookup_request eligibility_status get
fatal_state = refl

lookup_request-IsBound_example :
    All
      (IsBound (sha256_fingerprint digest_of) prompt (query_digest digest_of prompt) namespace)
      lookup_plan.verified_candidates
lookup_request-IsBound_example =
    lookup_request-IsBound digest_of config new new-Run answers request request-IsRequest one_record
      false refl first_run

Run-IsSound_example : IsSound (BoundPlan digest_of) fatal_runtime
Run-IsSound_example =
    Run-IsSound (BoundPlan digest_of) (empty-BoundPlan digest_of) config fatal_runtime
      fatal_runtime-Run

lookup_request-fatal_example :
    (open_runtime opened fatal_runtime ≡ (ok fatal, fatal_runtime))
    × FatalAnswer request fatal_runtime (lookup_request answers request fatal_runtime)
lookup_request-fatal_example =
    lookup_request-fatal (BoundPlan digest_of) (empty-BoundPlan digest_of) config fatal_runtime
      fatal_runtime-Run answers request opened request-IsRequest fatal_state
