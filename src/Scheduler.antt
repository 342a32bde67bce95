-- ===== src/Scheduler.antt =====
-- The values of the scheduler's lookup: src/cacheblend_gpt_oss/vllm_compat/v0_19_1/scheduler_runtime.py.
pub mod Runtime
pub mod Calls
pub mod Plans
pub mod Requests
pub mod Accepted
pub mod Sound
pub mod Searches
pub mod Replies
pub mod Runs
pub mod Planning
pub mod Total
pub mod Lookups
use cacheblend_gpt_oss.Prelude.{
  ℕ, zero, suc, ◌+◌, ◌-◌, Bool, true, false, not, ◌||◌, ◌&&◌, List, [], ◌∷◌, map, Text, Value, int,
  str, nat, nats, pos, Option, none, some, Result, ok, raise, ◌>>=◌, ◌>>◌, raise_if, ltb, ◌==◌,
  length, sum, range_from, any, holds, if◌then◌else◌, ℕ_discrete,
}
use cacheblend_gpt_oss.Planner.Models.{
  Checked, TokenRange, TokenSegment, range_len, segment_len, normalize_token_ids,
}
use cacheblend_gpt_oss.Planner.Matching.{VerifiedMatch, match_target, MatchPlan}
use cacheblend_gpt_oss.ControlPlane.Records.{
  RequestPlan, request_plan, ErrorCode, Controlled, metadata_schema_version,
  full_recompute_external_tokens,
}
use cacheblend_gpt_oss.Staging.Config.{chunk_size}
use cacheblend_gpt_oss.Layout.Scatter.{max_context_tokens}
use cacheblend_gpt_oss.Storage.Types.{same_text}
use cacheblend_gpt_oss.Storage.Lookup.{LookupPlan}

pub data SchedulerErrorCode : Type 0 where
  invalid_config invalid_input invalid_metadata close_failed : SchedulerErrorCode

-- A `SchedulerRuntimeError`, or the error of a request plan's constructor, which is not caught.
pub data SchedulerFailure : Type 0 where
  runtime_error : SchedulerErrorCode → SchedulerFailure
  plan_error : ErrorCode → SchedulerFailure

abbrev pub Scheduled {ℓ} : Type ℓ → Type ℓ
Scheduled = Result SchedulerFailure

pub data SchedulerRuntimeState : Type 0 where
  created ready degraded fatal closed : SchedulerRuntimeState

pub data SchedulerLookupStatus : Type 0 where
  transfer_ready full_prefill_miss full_prefill_transport_error : SchedulerLookupStatus
  full_prefill_sidecar_error full_prefill_sequence_ineligible : SchedulerLookupStatus
  full_prefill_step_ineligible full_prefill_prompt_too_large : SchedulerLookupStatus
  fatal_nonzero_external_tokens fatal_protocol_drift fatal_transport_cleanup : SchedulerLookupStatus
  fatal_sidecar_corruption fatal_duplicate_conflict fatal_runtime_closed : SchedulerLookupStatus

-- The statuses whose value starts with `fatal_`.
abbrev pub is_fatal : SchedulerLookupStatus → Bool
is_fatal fatal_nonzero_external_tokens = true
is_fatal fatal_protocol_drift = true
is_fatal fatal_transport_cleanup = true
is_fatal fatal_sidecar_corruption = true
is_fatal fatal_duplicate_conflict = true
is_fatal fatal_runtime_closed = true
is_fatal _ = false

abbrev pub is_transfer_ready : SchedulerLookupStatus → Bool
is_transfer_ready transfer_ready = true
is_transfer_ready _ = false

-- The set in `windows_required`.
abbrev pub requires_windows : SchedulerLookupStatus → Bool
requires_windows transfer_ready = true
requires_windows full_prefill_miss = true
requires_windows full_prefill_transport_error = true
requires_windows full_prefill_sidecar_error = true
requires_windows _ = false

abbrev pub max_request_bytes : ℕ
max_request_bytes = 256

pub record SchedulerLookupRequest : Type 0 where
  pub request_id : Text
  pub prompt_token_ids : List ℕ
  pub sequence_count : ℕ
  pub scheduler_step_index : ℕ
  pub num_computed_tokens : ℕ
  pub num_external_tokens : ℕ
  pub preemption_count : ℕ

unfoldable pub SchedulerLookupRequest-discrete : Discrete SchedulerLookupRequest
SchedulerLookupRequest-discrete = hlevel ℕ_discrete

abbrev pub request_text : Value → Scheduled Text
request_text (str t) = do
  raise_if (length t == 0) (runtime_error invalid_input)
  raise_if (ltb max_request_bytes (length t)) (runtime_error invalid_input)
  ok t
request_text _ = raise (runtime_error invalid_input)

abbrev pub request_natural : Value → Scheduled ℕ
request_natural (int (pos n)) = ok n
request_natural _ = raise (runtime_error invalid_input)

abbrev pub request_prompt : Checked (List ℕ) → Scheduled (List ℕ)
request_prompt (ok ids) = ok ids
request_prompt (raise e) = raise (runtime_error invalid_input)

-- `SchedulerLookupRequest.__post_init__`
unfoldable pub scheduler_lookup_request :
    Value → List Value → Value → Value → Value → Value → Value → Scheduled SchedulerLookupRequest
scheduler_lookup_request id ids sequences step computed external preemptions = do
  id' ← request_text id
  prompt ← request_prompt (normalize_token_ids ids)
  raise_if (length prompt == 0 || ltb max_context_tokens (length prompt))
      (runtime_error invalid_input)
  sequences' ← request_natural sequences
  step' ← request_natural step
  computed' ← request_natural computed
  external' ← request_natural external
  preemptions' ← request_natural preemptions
  raise_if (sequences' == 0 || ltb (length prompt) computed') (runtime_error invalid_input)
  ok (record {
    request_id = id';
    prompt_token_ids = prompt;
    sequence_count = sequences';
    scheduler_step_index = step';
    num_computed_tokens = computed';
    num_external_tokens = external';
    preemption_count = preemptions';
  })

pub record SchedulerLookupMetadata : Type 0 where
  pub schema_version : ℕ
  pub request_plan : RequestPlan
  pub prompt_token_ids : List ℕ
  pub query_windows : List TokenRange
  pub lookup_plan : LookupPlan
  pub status : SchedulerLookupStatus
  pub preemption_count : ℕ
  pub allocation_generation : ℕ
  pub external_scheduler_tokens : ℕ
  pub load_kv_async : Bool

abbrev pub metadata_if : Bool → Scheduled (Unit {0})
metadata_if b = raise_if b (runtime_error invalid_metadata)

-- The test over `enumerate(windows)`, from the window `i` on.
unfoldable pub misplaced : ℕ → List TokenRange → Bool
misplaced i [] = false
misplaced i (w ∷ ws) = not (w.start == i) || (not (w.end == i + chunk_size) || misplaced (suc i) ws)

abbrev pub is_empty {ℓ} : {A : Type ℓ} → List A → Bool
is_empty [] = true
is_empty (x ∷ xs) = false

unfoldable pub matches_discrete : Discrete (List VerifiedMatch)
matches_discrete = hlevel ℕ_discrete

abbrev pub lookup_matches : LookupPlan → List VerifiedMatch
lookup_matches p = map (λ v. v.match) p.verified_candidates

abbrev pub normal_metadata : Checked (List ℕ) → Scheduled (Unit {0})
normal_metadata (ok ids) = ok tt
normal_metadata (raise e) = raise (runtime_error invalid_metadata)

-- The tests of `SchedulerLookupMetadata.__post_init__`, for values that have their types.
unfoldable pub check_fields : SchedulerLookupMetadata → Scheduled (Unit {0})
unfolding misplaced
check_fields m = do
  let count = length m.prompt_token_ids
  metadata_if (not (m.schema_version == metadata_schema_version))
  normal_metadata (normalize_token_ids (nats m.prompt_token_ids))
  metadata_if (count == 0 || not (m.request_plan.prompt_tokens == count))
  metadata_if (any (λ w. not (range_len w == chunk_size) || ltb count w.end) m.query_windows)
  metadata_if (requires_windows m.status && not (length m.query_windows == count + 1 - chunk_size))
  metadata_if (misplaced 0 m.query_windows)
  metadata_if
      (not (m.external_scheduler_tokens == full_recompute_external_tokens) || m.load_kv_async)
  metadata_if (
      not
        (holds (matches_discrete m.request_plan.match_plan.matches (lookup_matches m.lookup_plan))))
  metadata_if (
      if is_transfer_ready m.status
      then is_empty m.lookup_plan.verified_candidates || is_empty m.query_windows
      else not (is_empty (lookup_matches m.lookup_plan)))

-- `SchedulerLookupMetadata.__post_init__`; the normal prompt that is kept is the one that is given.
unfoldable pub check_metadata : SchedulerLookupMetadata → Scheduled SchedulerLookupMetadata
unfolding check_fields
check_metadata m = do check_fields m; ok m

-- `_empty_lookup_plan`
abbrev pub empty_lookup_plan : LookupPlan
empty_lookup_plan = record {
  verified_candidates = [];
  rejected_candidates = [];
  counters = record {
    raw_candidates = 0;
    raw_candidate_tokens = 0;
    found_candidates = 0;
    found_candidate_tokens = 0;
    verified_candidates = 0;
    verified_candidate_tokens = 0;
    rejected_candidates = 0;
    rejected_candidate_tokens = 0;
  };
}

abbrev pub planned_segments : LookupPlan → List TokenSegment
planned_segments p = map match_target (lookup_matches p)

-- `_request_plan`
unfoldable pub lookup_request_plan : SchedulerLookupRequest → LookupPlan → Controlled RequestPlan
lookup_request_plan q p =
    request_plan (str q.request_id) (nat (length q.prompt_token_ids)) (planned_segments p) (record {
      matches = lookup_matches p;
      rejected_candidates = [];
      requested_tokens = sum (map segment_len (planned_segments p));
    })

abbrev pub window_at : ℕ → TokenRange
window_at start = record { start = start; end = start + chunk_size }

-- `_query_windows`
unfoldable pub query_windows : ℕ → List TokenRange
query_windows prompt_tokens =
    if ltb prompt_tokens chunk_size
    then []
    else map window_at (range_from 0 (prompt_tokens + 1 - chunk_size))

abbrev pub planned_or : Controlled RequestPlan → Scheduled RequestPlan
planned_or (ok p) = ok p
planned_or (raise e) = raise (plan_error e)

-- The fields of the metadata for a request.
abbrev pub metadata_with :
    SchedulerLookupRequest
    → SchedulerLookupStatus
    → LookupPlan
    → List TokenRange
    → ℕ
    → RequestPlan
    → SchedulerLookupMetadata
metadata_with q status p windows generation plan = record {
  schema_version = metadata_schema_version;
  request_plan = plan;
  prompt_token_ids = q.prompt_token_ids;
  query_windows = windows;
  lookup_plan = p;
  status = status;
  preemption_count = q.preemption_count;
  allocation_generation = generation;
  external_scheduler_tokens = full_recompute_external_tokens;
  load_kv_async = false;
}

-- `_build_metadata`
unfoldable pub build_metadata :
    SchedulerLookupRequest
    → SchedulerLookupStatus
    → LookupPlan
    → List TokenRange
    → ℕ
    → Scheduled SchedulerLookupMetadata
unfolding check_metadata lookup_request_plan
build_metadata q status p windows generation = do
  plan ← planned_or (lookup_request_plan q p)
  check_metadata (metadata_with q status p windows generation plan)
