-- ===== src/Tests.antt =====
-- Small inputs for the tests: a prompt with three query segments, two of which overlap, a cache
-- that holds the records of all of them and a stale one, and one request's life.
pub mod Planning
mod Requests
mod Checks
mod Planes
mod Segmenting
mod Layouts
mod Stages
mod Lookups
mod Sidecars
mod Schedulers
use cacheblend_gpt_oss.Prelude.{
  ℕ, List, [], ◌∷◌, length, Text, Option, none, some, Value, nat, nats, str, ok, Result, raise,
  if◌then◌else◌, holds,
}
use cacheblend_gpt_oss.Planner.Models.{
  CacheNamespace, SegmentFingerprint, CacheRecord, TokenRange, TokenSegment,
  SegmentFingerprint-discrete,
}
use cacheblend_gpt_oss.Planner.Matching.{Fingerprinter, RecordLookup, MatchPlan, plan}
use cacheblend_gpt_oss.ControlPlane.Records.{
  RequestPlan, RequestAllocation, CacheGroupLayout, GroupedBlockAllocation, ValidationReceipt,
  allocated, looked_up,
}
use cacheblend_gpt_oss.ControlPlane.Lifecycle.{LifecycleState, initial_state}

abbrev pub namespace : CacheNamespace
namespace = record {
  schema_version = 1;
  model_id = 1 ∷ [];
  model_revision = 2 ∷ [];
  tokenizer_id = 3 ∷ [];
  tokenizer_revision = 4 ∷ [];
  model_config_digest = 5 ∷ [];
  kv_cache_config_digest = 6 ∷ [];
  adapter_revision = 7 ∷ [];
  vllm_version = 8 ∷ [];
  lmcache_version = 9 ∷ [];
  torch_version = 10 ∷ [];
  cuda_runtime = 11 ∷ [];
}

-- Some digest that tells the inputs apart: the tokens themselves.
abbrev pub tokens_digest : Fingerprinter
tokens_digest ns ids = record { digest = ids }

abbrev pub span : ℕ → ℕ → TokenRange
span s e = record { start = s; end = e }

abbrev pub segment : ℕ → ℕ → List ℕ → TokenSegment
segment s e ids = record { token_range = span s e; token_ids = ids }

abbrev pub long_segment : TokenSegment
long_segment = segment 0 3 (7 ∷ 8 ∷ 9 ∷ [])

abbrev pub middle_segment : TokenSegment
middle_segment = segment 2 4 (9 ∷ 5 ∷ [])

abbrev pub late_segment : TokenSegment
late_segment = segment 4 5 (6 ∷ [])

abbrev pub queries : List TokenSegment
queries = middle_segment ∷ late_segment ∷ long_segment ∷ []

abbrev pub cached_record : TokenSegment → Text → CacheRecord
cached_record s key = record {
  namespace = namespace;
  fingerprint = tokens_digest namespace s.token_ids;
  token_ids = s.token_ids;
  source_range = s.token_range;
  cache_key = key;
}

abbrev pub stale_record : CacheRecord
stale_record = record (cached_record late_segment (4 ∷ [])) { token_ids = 1 ∷ [] }

abbrev pub lookup_digest : List CacheRecord → SegmentFingerprint → List CacheRecord
lookup_digest [] fp = []
lookup_digest (r ∷ rs) fp =
    if holds (SegmentFingerprint-discrete r.fingerprint fp)
    then r ∷ lookup_digest rs fp
    else lookup_digest rs fp

abbrev pub records : List CacheRecord
records =
    cached_record long_segment (1 ∷ [])
    ∷ cached_record middle_segment (2 ∷ [])
    ∷ cached_record late_segment (3 ∷ [])
    ∷ stale_record
    ∷ []

abbrev pub cache : RecordLookup
cache ns fp = lookup_digest records fp

abbrev pub match_plan : MatchPlan
match_plan = plan tokens_digest cache namespace queries

abbrev pub group_layout : CacheGroupLayout
group_layout = record { layer_names_by_group = ((1 ∷ []) ∷ []) ∷ ((2 ∷ []) ∷ []) ∷ [] }

abbrev pub blocks : GroupedBlockAllocation
blocks = record {
  group_layout = group_layout;
  groups =
      record { group_index = 0; layer_names = (1 ∷ []) ∷ []; block_ids = 3 ∷ 5 ∷ [] }
      ∷ record { group_index = 1; layer_names = (2 ∷ []) ∷ []; block_ids = 4 ∷ [] }
      ∷ [];
}

abbrev pub no_matches : RequestPlan
no_matches = record {
  request_id = 1 ∷ [];
  prompt_tokens = 6;
  query_segments = late_segment ∷ [];
  match_plan = record { matches = []; rejected_candidates = []; requested_tokens = 1 };
}

abbrev pub allocation : RequestAllocation
allocation = record {
  request_id = 1 ∷ [];
  allocation_generation = 2;
  grouped_blocks = blocks;
  external_scheduler_tokens = 0;
}

-- A request that was preempted twice and holds a new allocation.
abbrev pub allocated_state : LifecycleState
allocated_state = record (initial_state no_matches) {
  phase = allocated;
  allocation_generation = 2;
  allocation = some allocation;
  preemption_count = 2;
}

abbrev pub receipt : ValidationReceipt
receipt = record {
  request_id = 1 ∷ [];
  allocation = allocation;
  loaded_match_indexes = [];
  rejected_match_indexes = [];
}
