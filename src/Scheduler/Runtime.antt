-- ===== src/Scheduler/Runtime.antt =====
-- `SchedulerLookupRuntime` of src/cacheblend_gpt_oss/vllm_compat/v0_19_1/scheduler_runtime.py. What
-- the candidate transport, the factory of its replacements and the lookup coordinator answer during
-- a call is an argument of the call.
use cacheblend_gpt_oss.Prelude.{
  ℕ, Bool, true, false, not, ◌||◌, ◌&&◌, List, [], Text, Option, none, some, ok, raise, ltb, ◌==◌,
  length, holds, if◌then◌else◌, ℕ_discrete,
}
use cacheblend_gpt_oss.Planner.Models.{CacheNamespace, CacheNamespace-discrete}
use cacheblend_gpt_oss.Staging.Config.{chunk_size}
use cacheblend_gpt_oss.ControlPlane.Records.{full_recompute_external_tokens}
use cacheblend_gpt_oss.Storage.Types.{LmcacheCandidate}
use cacheblend_gpt_oss.Storage.Transport.{LmcacheBlendTransportConfig}
use cacheblend_gpt_oss.Storage.Lookup.{LookupPlan, LookupErrorCode}
use cacheblend_gpt_oss.Scheduler.{
  Scheduled, SchedulerRuntimeState, SchedulerLookupStatus, SchedulerLookupRequest,
  SchedulerLookupMetadata, runtime_error, invalid_config, invalid_input, created, ready, degraded,
  fatal, closed, full_prefill_sequence_ineligible, full_prefill_step_ineligible,
  full_prefill_prompt_too_large, fatal_nonzero_external_tokens, fatal_protocol_drift,
  fatal_transport_cleanup,
}

-- What the runtime reads of a `Transfer100PctConfig`.
pub record SchedulerConfig : Type 0 where
  pub namespace : CacheNamespace
  pub staging_token_capacity : ℕ

-- A transport's configuration, with the timeout that its model leaves out.
pub record TransportIdentity : Type 0 where
  pub config : LmcacheBlendTransportConfig
  pub request_timeout : Text

unfoldable pub TransportIdentity-discrete : Discrete TransportIdentity
TransportIdentity-discrete = hlevel ℕ_discrete

-- The transport's `open`: it returns, raises `LmcacheOperationError`, or another exception.
pub data OpenAnswer : Type 0 where
  opened open_operation_error open_failed : OpenAnswer

-- The factory's answer. A transport is the one that is replaced or not, has a configuration or none
-- that can be read, and its `close` returns or raises.
pub data Replacement : Type 0 where
  built : Bool → Option TransportIdentity → Bool → Replacement
  factory_operation_error factory_failed : Replacement

-- The transport's `lookup_candidates`: a tuple of candidates, another value,
-- `LmcacheOperationError`, or another exception.
pub data CandidatesAnswer : Type 0 where
  found : List LmcacheCandidate → CandidatesAnswer
  malformed lookup_operation_error lookup_failed : CandidatesAnswer

-- The coordinator's `plan`: a plan, a `LmcacheLookupError` with its code and whether a sidecar
-- corruption is among its causes, such a corruption itself, another exception, or another value.
pub data CoordinatorAnswer : Type 0 where
  planned : LookupPlan → CoordinatorAnswer
  refused : LookupErrorCode → Bool → CoordinatorAnswer
  corrupted coordinator_failed not_a_plan : CoordinatorAnswer

abbrev pub Coordinator : Type 0
Coordinator = List ℕ → CacheNamespace → List LmcacheCandidate → CoordinatorAnswer

-- What is answered during a call; `closing` tells whether the owned transport's `close` returns.
pub record Answers : Type 0 where
  pub opening : OpenAnswer
  pub closing : Bool
  pub replacement : Replacement
  pub candidates : CandidatesAnswer
  pub coordinator : Coordinator

pub record StoredRequest : Type 0 where
  pub request : SchedulerLookupRequest
  pub metadata : SchedulerLookupMetadata

pub record SchedulerRuntime : Type 0 where
  pub config : SchedulerConfig
  pub transport_config : TransportIdentity
  pub transport_needs_close : Bool
  pub state : SchedulerRuntimeState
  pub fatal_status : Option SchedulerLookupStatus
  pub requests : List (Text × StoredRequest)

-- The test that a transport's configuration is the runtime's own.
abbrev pub serves_config : SchedulerConfig → TransportIdentity → Bool
serves_config config t =
    holds (CacheNamespace-discrete t.config.namespace config.namespace)
    && t.config.chunk_size == chunk_size

-- `SchedulerLookupRuntime.__init__`; `none` for a transport without a configuration.
unfoldable pub scheduler_runtime :
    SchedulerConfig → Option TransportIdentity → Scheduled SchedulerRuntime
scheduler_runtime config none = raise (runtime_error invalid_config)
scheduler_runtime config (some t) =
    if serves_config config t
    then ok (record {
      config = config;
      transport_config = t;
      transport_needs_close = true;
      state = created;
      fatal_status = none;
      requests = [];
    })
    else raise (runtime_error invalid_config)

-- `_mark_fatal`, whose callers all pass a fatal status.
abbrev pub mark_fatal : SchedulerLookupStatus → SchedulerRuntime → SchedulerRuntime
mark_fatal status r = record r { fatal_status = some status; requests = []; state = fatal }

-- `open` of a runtime in the state `created`.
abbrev pub open_created : OpenAnswer → SchedulerRuntime → SchedulerRuntime
open_created opened r = record r { state = ready }
open_created open_operation_error r = record r { state = degraded }
open_created open_failed r = mark_fatal fatal_protocol_drift r

abbrev pub open_from :
    SchedulerRuntimeState
    → OpenAnswer
    → SchedulerRuntime
    → Scheduled SchedulerRuntimeState × SchedulerRuntime
open_from created a r = (ok (open_created a r).state, open_created a r)
open_from closed a r = (raise (runtime_error invalid_input), r)
open_from _ a r = (ok r.state, r)

-- `open`
unfoldable pub open_runtime :
    OpenAnswer → SchedulerRuntime → Scheduled SchedulerRuntimeState × SchedulerRuntime
open_runtime a r = open_from r.state a r

abbrev pub is_replacement : SchedulerRuntime → Option TransportIdentity → Bool
is_replacement r none = false
is_replacement r (some t) =
    holds (TransportIdentity-discrete t r.transport_config) && serves_config r.config t

-- What `_retry_degraded_transport_once` makes of the factory's answer.
abbrev pub replaced : OpenAnswer → Replacement → SchedulerRuntime → SchedulerRuntime
replaced opening factory_operation_error r = record r { state = degraded }
replaced opening factory_failed r = mark_fatal fatal_protocol_drift r
replaced opening (built true t closes) r = mark_fatal fatal_protocol_drift r
replaced opening (built false t closes) r =
    if is_replacement r t
    then open_created opening (record r { transport_needs_close = true; state = created })
    else if closes
    then mark_fatal fatal_protocol_drift r
    else mark_fatal fatal_transport_cleanup r

-- `_retry_degraded_transport_once`
unfoldable pub retry_degraded : Answers → SchedulerRuntime → SchedulerRuntime
retry_degraded a r =
    if r.transport_needs_close && not a.closing
    then mark_fatal fatal_transport_cleanup r
    else replaced a.opening a.replacement (record r { transport_needs_close = false })

-- The call of `open` or of `_retry_degraded_transport_once` by `lookup`.
abbrev pub connect_from : SchedulerRuntimeState → Answers → SchedulerRuntime → SchedulerRuntime
connect_from created a r = open_created a.opening r
connect_from degraded a r = retry_degraded a r
connect_from _ a r = r

-- `_eligibility_status`, which also marks the runtime as fatal for external tokens.
unfoldable pub eligibility_status :
    SchedulerConfig → SchedulerLookupRequest → Option SchedulerLookupStatus
eligibility_status config q =
    if not (q.num_external_tokens == full_recompute_external_tokens)
    then some fatal_nonzero_external_tokens
    else if not (q.sequence_count == 1)
    then some full_prefill_sequence_ineligible
    else if not (q.scheduler_step_index == 0) || not (q.num_computed_tokens == 0)
    then some full_prefill_step_ineligible
    else if ltb config.staging_token_capacity (length q.prompt_token_ids)
    then some full_prefill_prompt_too_large
    else none
