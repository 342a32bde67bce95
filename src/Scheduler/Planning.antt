-- ===== src/Scheduler/Planning.antt =====
-- That the branches of the scheduler's lookup build metadata:
-- src/cacheblend_gpt_oss/vllm_compat/v0_19_1/scheduler_runtime.py.
use cacheblend_gpt_oss.Prelude.{
  ℕ, suc, ◌≢◌, ◌≤◌, ◌≡◌, refl, subst, Bool, true, false, List, [], ◌∷◌, nats, ok, raise, Bool-cases,
  Result-cases, inl, inr, arith, length,
}
use cacheblend_gpt_oss.Planner.Models.{CacheNamespace, TokenRange, normalize_token_ids}
use cacheblend_gpt_oss.Storage.Types.{LmcacheCandidate}
use cacheblend_gpt_oss.Storage.Lookup.{
  LookupPlan, RecordIndex, LookupFailure, lookup_error, planner_error,
}
use cacheblend_gpt_oss.Storage.Lookup.Coordinator.{plan}
use cacheblend_gpt_oss.Storage.Lookup.Plans.{plan-Found}
use cacheblend_gpt_oss.Scheduler.{
  build_metadata, Scheduled, SchedulerLookupStatus, SchedulerLookupRequest, SchedulerLookupMetadata,
  degraded, full_prefill_transport_error, fatal_protocol_drift, is_fatal, is_transfer_ready,
  requires_windows, is_empty, empty_lookup_plan, query_windows, check_fields, check_metadata,
}
use cacheblend_gpt_oss.Scheduler.Accepted.{
  IsUsable, Searched, all, nothing, Agrees, metadata_of, build_metadata-ok, empty-IsUsable,
  plan-IsUsable,
}
use cacheblend_gpt_oss.Scheduler.Requests.{IsRequest}
use cacheblend_gpt_oss.Scheduler.Runtime.{
  SchedulerRuntime, StoredRequest, Answers, CandidatesAnswer, found, malformed,
  lookup_operation_error, lookup_failed, Coordinator, CoordinatorAnswer, planned, refused,
  corrupted, coordinator_failed, not_a_plan,
}
use cacheblend_gpt_oss.Scheduler.Calls.{
  are_chunks, searched, search_status, search_plan, plan_status, refusal_status, verify_candidates,
  search, concluded, stopped, next_metadata, preempted,
}
use cacheblend_gpt_oss.Scheduler.Runs.{coordinator_of, coordinator_answer}

-- A call that returns metadata.
abbrev pub Returns : Scheduled SchedulerLookupMetadata × SchedulerRuntime → Type 0
Returns x = (m : SchedulerLookupMetadata) × (x.0 ≡ ok m)

-- A coordinator whose plans make request plans, of no more candidates than it was given.
abbrev pub IsPlanning : Coordinator → Type 0
IsPlanning c =
    (ns : CacheNamespace) (prompt : List ℕ) (cs : List LmcacheCandidate) (p : LookupPlan)
    → normalize_token_ids (nats prompt) ≡ ok prompt
    → c prompt ns cs ≡ planned p
    → IsUsable (length prompt) p × (length p.verified_candidates ≤ length cs)

raised_no_plan :
    (corrupt : Bool) (x : LookupFailure) (p : LookupPlan)
    → coordinator_answer corrupt (raise x) ≢ planned p
raised_no_plan corrupt (lookup_error code) p h = cc
raised_no_plan corrupt (planner_error e) p h = cc

pub coordinator_of-IsPlanning :
    (sha256 : List ℕ → List ℕ) (index : RecordIndex) (corrupt : Bool)
    → IsPlanning (coordinator_of sha256 index corrupt)
unfolding coordinator_of
coordinator_of-IsPlanning sha256 index corrupt ns prompt cs p normal h =
    elim (Result-cases (plan sha256 index (nats prompt) ns cs)) [
      | inl (p', e) ↦
          let same : planned p' ≡ planned p = (rw e at h) in
          let e' : plan sha256 index (nats prompt) ns cs ≡ ok p = cc in
          let counted =
            (plan-Found sha256 index (nats prompt) ns cs prompt normal e').accounts.complete in
          (plan-IsUsable sha256 index ns cs prompt normal e', omega (arith, counted))
      | inr (x, e) ↦ absurd (raised_no_plan corrupt x p (rw e at h))
    ]

next-passes :
    (p : StoredRequest) (q : SchedulerLookupRequest)
    → check_fields p.metadata ≡ ok tt
    → check_fields (next_metadata p q) ≡ ok tt
unfolding check_fields
next-passes p q h = h

-- The metadata of a request that was kept passes for the next allocation too.
pub preempted-ok :
    (p : StoredRequest) (q : SchedulerLookupRequest)
    → check_fields p.metadata ≡ ok tt
    → preempted p q ≡ ok (next_metadata p q)
unfolding check_metadata
preempted-ok p q h = rw (next-passes p q h) refl

module _ (q : SchedulerLookupRequest) (v : IsRequest q) where
  abbrev pub count : ℕ
  count = length q.prompt_token_ids

  -- A fatal status goes with the empty plan.
  pub build_metadata-fatal :
      (status : SchedulerLookupStatus) (ws : List TokenRange) (generation : ℕ)
      → is_fatal status ≡ true
      → Searched count status ws
      → build_metadata q status empty_lookup_plan ws generation
        ≡ ok (metadata_of q status empty_lookup_plan ws generation)
  build_metadata-fatal status ws generation f s =
      build_metadata-ok q status empty_lookup_plan ws generation v (empty-IsUsable count) s
        (fatal-Agrees status f)
    where
      fatal-Agrees :
          (status : SchedulerLookupStatus)
          → is_fatal status ≡ true
          → Agrees status empty_lookup_plan ws
      fatal-Agrees status f = ground arith

  pub stopped-Returns :
      (status : SchedulerLookupStatus) (ws : List TokenRange) (generation : ℕ)
      (r : SchedulerRuntime)
      → is_fatal status ≡ true
      → Searched count status ws
      → Returns (stopped q status ws generation r)
  stopped-Returns status ws generation r f s = (
    metadata_of q status empty_lookup_plan ws generation,
    build_metadata-fatal status ws generation f s,
  )

  pub fatal-nothing :
      (status : SchedulerLookupStatus) → is_fatal status ≡ true → Searched count status []
  fatal-nothing status f = nothing (free status f)
    where
      free :
          (status : SchedulerLookupStatus)
          → is_fatal status ≡ true
          → requires_windows status ≡ false
      free status f = ground arith

  -- A status without a transfer goes with the empty plan.
  pub empty-Returns :
      (status : SchedulerLookupStatus) (ws : List TokenRange) (r : SchedulerRuntime)
      → is_transfer_ready status ≡ false
      → Searched count status ws
      → Returns (concluded q ws (searched status empty_lookup_plan r))
  empty-Returns status ws r f s = (
    metadata_of q status empty_lookup_plan ws 0,
    build_metadata-ok q status empty_lookup_plan ws 0 v (empty-IsUsable count) s (rw f refl),
  )

  verified-Returns :
      (p : LookupPlan) (r : SchedulerRuntime)
      → IsUsable count p
      → length p.verified_candidates ≤ length (query_windows count)
      → Returns (concluded q (query_windows count) (searched (plan_status p) p r))
  verified-Returns p r u few = (
    metadata_of q (plan_status p) p (query_windows count) 0,
    build_metadata-ok q (plan_status p) p (query_windows count) 0 v u all
        (agrees p.verified_candidates refl),
  )
    where
      filled : {n : ℕ} (ws : List TokenRange) → suc n ≤ length ws → is_empty ws ≡ false
      filled [] h = absurd (omega arith)
      filled (w ∷ ws) h = refl

      agrees :
          (vs : _) → p.verified_candidates ≡ vs → Agrees (plan_status p) p (query_windows count)
      agrees [] e = rw e refl
      agrees (c ∷ vs) e =
          let some_window =
            filled (query_windows count)
              (subst (λ l. length l ≤ length (query_windows count)) e few) in
          rw (e, some_window) refl

  answer-Returns :
      (answer : CoordinatorAnswer) (r : SchedulerRuntime)
      → ((p : LookupPlan)
          → answer ≡ planned p
          → IsUsable count p × (length p.verified_candidates ≤ length (query_windows count)))
      → Returns (
          concluded q
            (query_windows count)
            (searched (search_status answer) (search_plan answer) r))
  answer-Returns (planned p) r h = let (u, few) = h p refl in verified-Returns p r u few
  answer-Returns (refused code corrupt) r h =
      empty-Returns (refusal_status code corrupt) (query_windows count) r (idle code corrupt) all
    where
      idle : (code : _) (corrupt : Bool) → is_transfer_ready (refusal_status code corrupt) ≡ false
      idle code corrupt = ground arith
  answer-Returns corrupted r h = empty-Returns _ (query_windows count) r refl all
  answer-Returns coordinator_failed r h = empty-Returns _ (query_windows count) r refl all
  answer-Returns not_a_plan r h = empty-Returns _ (query_windows count) r refl all

  pub search-Returns :
      (a : Answers) (c : CandidatesAnswer) (r : SchedulerRuntime)
      → IsPlanning a.coordinator
      → Returns (concluded q (query_windows count) (search a q (length (query_windows count)) c r))
  unfolding search verify_candidates
  search-Returns a (found cs) r k =
      elim (Bool-cases (are_chunks cs (length (query_windows count)))) [
        | inl e ↦ rw e (
            answer-Returns (a.coordinator q.prompt_token_ids r.config.namespace cs) r (λ p h.
              let (u, few) = k r.config.namespace q.prompt_token_ids cs p v.normal h in
              (u, ground (arith, few, e))))
        | inr e ↦ rw e (empty-Returns fatal_protocol_drift (query_windows count) r refl all)
      ]
  search-Returns a malformed r k =
      empty-Returns fatal_protocol_drift (query_windows count) r refl all
  search-Returns a lookup_failed r k =
      empty-Returns fatal_protocol_drift (query_windows count) r refl all
  search-Returns a lookup_operation_error r k =
      empty-Returns full_prefill_transport_error (query_windows count)
        (record r { state = degraded }) refl all
