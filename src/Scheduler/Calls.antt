-- ===== src/Scheduler/Calls.antt =====
-- `lookup`, `discard` and `close` of `SchedulerLookupRuntime`:
-- src/cacheblend_gpt_oss/vllm_compat/v0_19_1/scheduler_runtime.py.
use cacheblend_gpt_oss.Prelude.{
  ℕ, ◌+◌, Bool, true, false, not, ◌||◌, ◌&&◌, List, [], Text, Option, none, some, ok, raise, ltb,
  ◌==◌, length, any, holds, if◌then◌else◌, get, put, remove,
}
use mathlib.Core.Option
use cacheblend_gpt_oss.Planner.Models.{TokenRange, range_len, tokens_discrete}
use cacheblend_gpt_oss.Staging.Config.{chunk_size}
use cacheblend_gpt_oss.Storage.Types.{LmcacheCandidate}
use cacheblend_gpt_oss.Storage.Lookup.{LookupPlan, LookupErrorCode, sidecar_lookup_failed}
use cacheblend_gpt_oss.Scheduler.{
  Scheduled, SchedulerRuntimeState, SchedulerLookupStatus, SchedulerLookupRequest,
  SchedulerLookupRequest-discrete, SchedulerLookupMetadata, runtime_error, close_failed, degraded,
  fatal, closed, is_fatal, is_empty, check_metadata, empty_lookup_plan, query_windows,
  build_metadata, transfer_ready, full_prefill_miss, full_prefill_transport_error,
  full_prefill_sidecar_error, fatal_protocol_drift, fatal_transport_cleanup,
  fatal_sidecar_corruption, fatal_duplicate_conflict, fatal_runtime_closed,
}
use cacheblend_gpt_oss.Scheduler.Runtime.{
  Answers, CandidatesAnswer, found, malformed, lookup_operation_error, lookup_failed,
  CoordinatorAnswer, planned, refused, corrupted, coordinator_failed, not_a_plan, Coordinator,
  StoredRequest, SchedulerRuntime, mark_fatal, connect_from, eligibility_status,
}

-- The transport's boundary checks of its candidates, for a number of query windows.
abbrev pub are_chunks : List LmcacheCandidate → ℕ → Bool
are_chunks cs windows =
    not (
      any
        (λ c.
          not (range_len c.source_relative_range == chunk_size)
          || not (range_len c.target_range == chunk_size))
        cs)
    && not (ltb windows (length cs))

-- A result of the search: with a fatal status the runtime is marked by it.
abbrev pub searched :
    SchedulerLookupStatus
    → LookupPlan
    → SchedulerRuntime
    → SchedulerLookupStatus × (LookupPlan × SchedulerRuntime)
searched status plan r = (status, (plan, if is_fatal status then mark_fatal status r else r))

abbrev pub plan_status : LookupPlan → SchedulerLookupStatus
plan_status p = if is_empty p.verified_candidates then full_prefill_miss else transfer_ready

abbrev pub refusal_status : LookupErrorCode → Bool → SchedulerLookupStatus
refusal_status code true = fatal_sidecar_corruption
refusal_status sidecar_lookup_failed false = full_prefill_sidecar_error
refusal_status code false = fatal_protocol_drift

abbrev pub search_status : CoordinatorAnswer → SchedulerLookupStatus
search_status (planned p) = plan_status p
search_status (refused code corrupt) = refusal_status code corrupt
search_status corrupted = fatal_sidecar_corruption
search_status coordinator_failed = fatal_protocol_drift
search_status not_a_plan = fatal_protocol_drift

abbrev pub search_plan : CoordinatorAnswer → LookupPlan
search_plan (planned p) = p
search_plan _ = empty_lookup_plan

-- `_verify_candidates`
unfoldable pub verify_candidates :
    Coordinator
    → SchedulerLookupRequest
    → List LmcacheCandidate
    → ℕ
    → SchedulerRuntime
    → SchedulerLookupStatus × (LookupPlan × SchedulerRuntime)
verify_candidates coordinator q cs windows r =
    if are_chunks cs windows
    then (let answer = coordinator q.prompt_token_ids r.config.namespace cs in
        searched (search_status answer) (search_plan answer) r)
    else searched fatal_protocol_drift empty_lookup_plan r

-- The `try` around the transport's `lookup_candidates`.
unfoldable pub search :
    Answers
    → SchedulerLookupRequest
    → ℕ
    → CandidatesAnswer
    → SchedulerRuntime
    → SchedulerLookupStatus × (LookupPlan × SchedulerRuntime)
search a q windows (found cs) r = verify_candidates a.coordinator q cs windows r
search a q windows malformed r = searched fatal_protocol_drift empty_lookup_plan r
search a q windows lookup_operation_error r =
    searched full_prefill_transport_error empty_lookup_plan (record r { state = degraded })
search a q windows lookup_failed r = searched fatal_protocol_drift empty_lookup_plan r

-- `self._requests[request.request_id] = _StoredRequest(request, metadata)`
unfoldable pub stored :
    SchedulerLookupRequest → SchedulerLookupMetadata → SchedulerRuntime → SchedulerRuntime
stored q m r = record r {
  requests = put tokens_discrete q.request_id (record { request = q; metadata = m }) r.requests;
}

abbrev pub kept :
    SchedulerLookupRequest → Scheduled SchedulerLookupMetadata → SchedulerRuntime → SchedulerRuntime
kept q (ok m) r = stored q m r
kept q (raise e) r = r

-- What a call keeps of the metadata that it built.
abbrev pub retained :
    SchedulerLookupRequest
    → SchedulerLookupStatus
    → Scheduled SchedulerLookupMetadata
    → SchedulerRuntime
    → SchedulerRuntime
retained q status m r = if is_fatal status then r else kept q m r

-- The metadata of a request that was not stored, which is retained unless its status is fatal.
abbrev pub concluded :
    SchedulerLookupRequest
    → List TokenRange
    → SchedulerLookupStatus × (LookupPlan × SchedulerRuntime)
    → Scheduled SchedulerLookupMetadata × SchedulerRuntime
concluded q windows (status, (plan, r)) =
    let m = build_metadata q status plan windows 0 in (m, retained q status m r)

abbrev pub status_or_drift : Option SchedulerLookupStatus → SchedulerLookupStatus
status_or_drift none = fatal_protocol_drift
status_or_drift (some status) = status

-- The answer of a runtime that is closed or fatal.
abbrev pub stopped :
    SchedulerLookupRequest
    → SchedulerLookupStatus
    → List TokenRange
    → ℕ
    → SchedulerRuntime
    → Scheduled SchedulerLookupMetadata × SchedulerRuntime
stopped q status windows generation r =
    (build_metadata q status empty_lookup_plan windows generation, r)

-- The branches of `lookup` behind the connection.
abbrev pub search_from :
    SchedulerRuntimeState
    → Answers
    → SchedulerLookupRequest
    → SchedulerRuntime
    → Scheduled SchedulerLookupMetadata × SchedulerRuntime
search_from degraded a q r =
    concluded q (query_windows (length q.prompt_token_ids))
      (full_prefill_transport_error, (empty_lookup_plan, r))
search_from fatal a q r =
    stopped q (status_or_drift r.fatal_status) (query_windows (length q.prompt_token_ids)) 0 r
search_from _ a q r =
    let windows = query_windows (length q.prompt_token_ids) in
    concluded q windows (search a q (length windows) a.candidates r)

-- A request that is not stored yet, with its `_eligibility_status`.
abbrev pub lookup_new :
    Option SchedulerLookupStatus
    → Answers
    → SchedulerLookupRequest
    → SchedulerRuntime
    → Scheduled SchedulerLookupMetadata × SchedulerRuntime
lookup_new (some status) a q r = concluded q [] (searched status empty_lookup_plan r)
lookup_new none a q r = let r' = connect_from r.state a r in search_from r'.state a q r'

-- The stored metadata for the next allocation, whose constructor checks it again.
abbrev pub next_metadata : StoredRequest → SchedulerLookupRequest → SchedulerLookupMetadata
next_metadata s q = record s.metadata {
  preemption_count = q.preemption_count;
  allocation_generation = s.metadata.allocation_generation + 1;
}

abbrev pub preempted : StoredRequest → SchedulerLookupRequest → Scheduled SchedulerLookupMetadata
preempted s q = check_metadata (next_metadata s q)

-- The request with the preemption count of the stored one.
abbrev pub again : SchedulerLookupRequest → StoredRequest → SchedulerLookupRequest
again q s = record q { preemption_count = s.request.preemption_count }

-- The request is neither the stored one nor its next preemption.
abbrev pub conflicts : StoredRequest → SchedulerLookupRequest → Bool
conflicts s q =
    not (q.preemption_count == s.request.preemption_count + 1)
    || not (holds (SchedulerLookupRequest-discrete (again q s) s.request))

-- `_repeat_or_preempt`; `replace` of a request that was built gives one that can be built.
unfoldable pub repeat_or_preempt :
    StoredRequest
    → SchedulerLookupRequest
    → SchedulerRuntime
    → Scheduled SchedulerLookupMetadata × SchedulerRuntime
repeat_or_preempt s q r =
    if holds (SchedulerLookupRequest-discrete q s.request)
    then (ok s.metadata, r)
    else if conflicts s q
    then stopped q fatal_duplicate_conflict [] s.metadata.allocation_generation
        (mark_fatal fatal_duplicate_conflict r)
    else (let m = preempted s q in (m, kept q m r))

abbrev pub lookup_known :
    Option StoredRequest
    → Answers
    → SchedulerLookupRequest
    → SchedulerRuntime
    → Scheduled SchedulerLookupMetadata × SchedulerRuntime
lookup_known (some s) a q r = repeat_or_preempt s q r
lookup_known none a q r = lookup_new (eligibility_status r.config q) a q r

abbrev pub lookup_from :
    SchedulerRuntimeState
    → Answers
    → SchedulerLookupRequest
    → SchedulerRuntime
    → Scheduled SchedulerLookupMetadata × SchedulerRuntime
lookup_from closed a q r = stopped q fatal_runtime_closed [] q.preemption_count r
lookup_from fatal a q r = stopped q (status_or_drift r.fatal_status) [] q.preemption_count r
lookup_from _ a q r = lookup_known (get tokens_discrete q.request_id r.requests) a q r

-- `lookup`
unfoldable pub lookup_request :
    Answers
    → SchedulerLookupRequest
    → SchedulerRuntime
    → Scheduled SchedulerLookupMetadata × SchedulerRuntime
lookup_request a q r = lookup_from r.state a q r

-- `discard`
unfoldable pub discard_request :
    Text → SchedulerRuntime → Option SchedulerLookupMetadata × SchedulerRuntime
discard_request id r = (
  Option.map (λ s. s.metadata) (get tokens_discrete id r.requests),
  record r { requests = remove tokens_discrete id r.requests },
)

-- `close` of a runtime that is not closed.
abbrev pub shut : Bool → SchedulerRuntime → Scheduled (Unit {0}) × SchedulerRuntime
shut closing r =
    if r.transport_needs_close && not closing
    then (raise (runtime_error close_failed), mark_fatal fatal_transport_cleanup r)
    else (ok tt, record r { requests = []; transport_needs_close = false; state = closed })

abbrev pub close_from :
    SchedulerRuntimeState → Bool → SchedulerRuntime → Scheduled (Unit {0}) × SchedulerRuntime
close_from closed closing r = (ok tt, r)
close_from _ closing r = shut closing r

-- `close`, where the transport's own `close` returns or raises.
unfoldable pub close_runtime : Bool → SchedulerRuntime → Scheduled (Unit {0}) × SchedulerRuntime
close_runtime closing r = close_from r.state closing r
