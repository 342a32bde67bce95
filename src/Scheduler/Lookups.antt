-- ===== src/Scheduler/Lookups.antt =====
-- What the calls of the scheduler's lookup runtime promise:
-- src/cacheblend_gpt_oss/vllm_compat/v0_19_1/scheduler_runtime.py.
use cacheblend_gpt_oss.Prelude.{
  ℕ, ◌+◌, ◌≡◌, refl, sym, ap, ◌∙◌, subst, Bool, true, false, List, [], nats, some, ok, Bool-cases,
  Result-cases, inl, inr, All, arith, get, holds, holds_iff, ◌==◌,
}
use cacheblend_gpt_oss.Planner.Models.{CacheNamespace, tokens_discrete, normalize_token_ids}
use cacheblend_gpt_oss.Planner.Fingerprint.{sha256_fingerprint}
use cacheblend_gpt_oss.Storage.Types.{query_digest}
use cacheblend_gpt_oss.Storage.Lookup.{RecordIndex, lookup_error, planner_error}
use cacheblend_gpt_oss.Storage.Lookup.Coordinator.{plan}
use cacheblend_gpt_oss.Storage.Lookup.Judging.{IsBound}
use cacheblend_gpt_oss.Storage.Lookup.Plans.{plan-IsBound}
use cacheblend_gpt_oss.Scheduler.{
  Scheduled, SchedulerLookupStatus, SchedulerLookupRequest, SchedulerLookupRequest-discrete,
  SchedulerLookupMetadata, SchedulerRuntimeState, created, ready, degraded, fatal, closed, is_fatal,
  empty_lookup_plan, check_fields,
}
use cacheblend_gpt_oss.Scheduler.Requests.{IsRequest}
use cacheblend_gpt_oss.Scheduler.Runtime.{
  SchedulerConfig, SchedulerRuntime, StoredRequest, Answers, OpenAnswer, open_runtime,
}
use cacheblend_gpt_oss.Scheduler.Calls.{
  next_metadata, repeat_or_preempt, lookup_from, lookup_request,
}
use cacheblend_gpt_oss.Scheduler.Sound.{PlanPredicate, is_stopped, IsAnswer, IsSound}
use cacheblend_gpt_oss.Scheduler.Searches.{IsHonest}
use cacheblend_gpt_oss.Scheduler.Replies.{lookup_request-Replies}
use cacheblend_gpt_oss.Scheduler.Runs.{coordinator_of, Run, Run-Holds}
use cacheblend_gpt_oss.Scheduler.Planning.{
  build_metadata-fatal, fatal-nothing, IsPlanning, Returns, preempted-ok,
}
use cacheblend_gpt_oss.Scheduler.Accepted.{metadata_of}
use cacheblend_gpt_oss.Scheduler.Total.{sound-Returns}

-- The verified candidates of a plan are bound to the prompt and the namespace.
abbrev pub BoundPlan : (List ℕ → List ℕ) → PlanPredicate
BoundPlan sha256 ns prompt p =
    normalize_token_ids (nats prompt) ≡ ok prompt
    → All (IsBound (sha256_fingerprint sha256) prompt (query_digest sha256 prompt) ns)
        p.verified_candidates

pub empty-BoundPlan :
    (sha256 : List ℕ → List ℕ) (ns : CacheNamespace) (prompt : List ℕ)
    → BoundPlan sha256 ns prompt empty_lookup_plan
empty-BoundPlan sha256 ns prompt normal = tt

-- The coordinator of storage/lookup.py returns such plans only.
pub coordinator_of-IsHonest :
    (sha256 : List ℕ → List ℕ) (index : RecordIndex) (corrupt : Bool)
    → IsHonest (BoundPlan sha256) (empty-BoundPlan sha256) (coordinator_of sha256 index corrupt)
unfolding coordinator_of
coordinator_of-IsHonest sha256 index corrupt ns prompt cs normal =
    elim (Result-cases (plan sha256 index (nats prompt) ns cs)) [
      | inl (p, e) ↦ rw e (plan-IsBound sha256 index (nats prompt) ns cs prompt normal e)
      | inr (lookup_error code, e) ↦ rw e tt
      | inr (planner_error x, e) ↦ rw e tt
    ]

-- A request as it comes back behind its next preemption.
abbrev pub preempted_once : SchedulerLookupRequest → SchedulerLookupRequest
preempted_once q = record q { preemption_count = q.preemption_count + 1 }

lookup_request-known :
    (b : Answers) (q : SchedulerLookupRequest) (r : SchedulerRuntime) (p : StoredRequest)
    → is_stopped r.state ≡ false
    → get tokens_discrete q.request_id r.requests ≡ some p
    → lookup_request b q r ≡ repeat_or_preempt p q r
unfolding lookup_request
lookup_request-known b q r p u at = by_state r.state u
  where
    by_state :
        (t : SchedulerRuntimeState)
        → is_stopped t ≡ false
        → lookup_from t b q r ≡ repeat_or_preempt p q r
    by_state created h = rw at refl
    by_state ready h = rw at refl
    by_state degraded h = rw at refl
    by_state fatal h = cc
    by_state closed h = cc

same_request : (q : SchedulerLookupRequest) → holds (SchedulerLookupRequest-discrete q q) ≡ true
same_request q = (holds_iff (SchedulerLookupRequest-discrete q q)).1 refl

repeat-same :
    (q : SchedulerLookupRequest) (m : SchedulerLookupMetadata) (r : SchedulerRuntime)
    → repeat_or_preempt (record { request = q; metadata = m }) q r ≡ (ok m, r)
unfolding repeat_or_preempt
repeat-same q m r = rw (same_request q) refl

repeat-next :
    (q : SchedulerLookupRequest) (m : SchedulerLookupMetadata) (r : SchedulerRuntime)
    → check_fields m ≡ ok tt
    → (repeat_or_preempt (record { request = q; metadata = m }) (preempted_once q) r).0
      ≡ ok (next_metadata (record { request = q; metadata = m }) (preempted_once q))
unfolding repeat_or_preempt
repeat-next q m r passes =
    let other : holds (SchedulerLookupRequest-discrete (preempted_once q) q) ≡ false = differs in
    let counted : (q.preemption_count + 1 == q.preemption_count + 1) ≡ true = ground arith in
    rw
      (
        other,
        counted,
        same_request q,
        preempted-ok (record { request = q; metadata = m }) (preempted_once q) passes,
      )
      refl
  where
    differs : holds (SchedulerLookupRequest-discrete (preempted_once q) q) ≡ false
    differs = elim (Bool-cases (holds (SchedulerLookupRequest-discrete (preempted_once q) q))) [
      | inl e ↦
          let same =
            ap (λ x. x.preemption_count)
              ((holds_iff (SchedulerLookupRequest-discrete (preempted_once q) q)).0 e) in
          absurd (omega (arith, same))
      | inr e ↦ e
    ]

-- What a fatal runtime answers.
abbrev pub FatalAnswer :
    SchedulerLookupRequest
    → SchedulerRuntime
    → Scheduled SchedulerLookupMetadata × SchedulerRuntime
    → Type 0
FatalAnswer q r x =
    (status : SchedulerLookupStatus) × (r.fatal_status ≡ some status)
    × (is_fatal status ≡ true)
    × (x ≡ (ok (metadata_of q status empty_lookup_plan [] q.preemption_count), r))

fatal-stays :
    (Trust : PlanPredicate) (a : Answers) (q : SchedulerLookupRequest) (o : OpenAnswer)
    (r : SchedulerRuntime)
    → IsSound Trust r
    → IsRequest q
    → r.state ≡ fatal
    → (open_runtime o r ≡ (ok fatal, r)) × FatalAnswer q r (lookup_request a q r)
unfolding lookup_request open_runtime
fatal-stays Trust a q o r s v e =
    let (status, k, f) = s.reason e in
    rw e (
      refl,
      (
        status,
        k,
        f,
        rw (k, build_metadata-fatal q v status [] q.preemption_count f (fatal-nothing q v status f))
            refl,
      ),
    )

module _ (Trust : PlanPredicate)
    (empty : (ns : CacheNamespace) (prompt : List ℕ) → Trust ns prompt empty_lookup_plan)
    (config : SchedulerConfig) (r : SchedulerRuntime) (run : Run Trust empty config r) where
  -- Every runtime that the constructor and calls lead to, with coordinators whose plans can be
  -- trusted, is sound: stopped, it keeps no requests; created or ready, it owns its transport; fatal,
  -- it knows a fatal status; and what it keeps is the metadata of the request under its key, without
  -- a fatal status.
  pub Run-IsSound : IsSound Trust r
  Run-IsSound = (Run-Holds Trust empty config r run).sound

  module _ (a : Answers) (q : SchedulerLookupRequest) where
    -- A runtime that became fatal answers each request that was built with its fatal status
    -- and no candidates, and neither a lookup nor an opening changes it.
    pub lookup_request-fatal :
        (o : OpenAnswer)
        → IsRequest q
        → r.state ≡ fatal
        → (open_runtime o r ≡ (ok fatal, r)) × FatalAnswer q r (lookup_request a q r)
    lookup_request-fatal o v e = fatal-stays Trust a q o r Run-IsSound v e

    -- With a coordinator whose plans can be trusted, the metadata that a lookup returns is about its
    -- request: it has the request's id, prompt and preemption count, passes the metadata's own
    -- checks, has a plan that can be trusted for that prompt, and is ready for a transfer only if
    -- the request is eligible. It may have been kept since an earlier call.
    pub lookup_request-IsAnswer :
        {m : SchedulerLookupMetadata}
        → IsHonest Trust empty a.coordinator
        → (lookup_request a q r).0 ≡ ok m
        → IsAnswer Trust config q m
    lookup_request-IsAnswer {m} honest h =
        subst (λ c. IsAnswer Trust c q m) (Run-Holds Trust empty config r run).same_config
          ((lookup_request-Replies Trust empty a q r Run-IsSound honest).answers m h).0

    -- For a request that was built and a coordinator whose plans have matches that are apart, in
    -- order and within the prompt, and no more than there were candidates, a lookup returns metadata
    -- in every state of the runtime and for all answers of the transport: neither the request plan's
    -- constructor nor the metadata's raises.
    pub lookup_request-Returns :
        IsRequest q → IsPlanning a.coordinator → Returns (lookup_request a q r)
    lookup_request-Returns v k = sound-Returns q v Trust a r Run-IsSound k

    -- A lookup that is repeated, whatever the transport answers by then, returns the metadata that
    -- the first one returned with a status that is not fatal, and changes nothing.
    pub lookup_request-repeated :
        (b : Answers) {m : SchedulerLookupMetadata}
        → IsHonest Trust empty a.coordinator
        → (lookup_request a q r).0 ≡ ok m
        → is_fatal m.status ≡ false
        → lookup_request b q (lookup_request a q r).1 ≡ (ok m, (lookup_request a q r).1)
    lookup_request-repeated b {m} honest h f =
        let reply = lookup_request-Replies Trust empty a q r Run-IsSound honest in
        let (at, u) = (reply.answers m h).1 f in
        lookup_request-known b q (lookup_request a q r).1 (record { request = q; metadata = m }) u
          at
        ∙ repeat-same q m (lookup_request a q r).1

    -- A lookup that is repeated with the next preemption count returns the metadata of the first one,
    -- for the next allocation, whatever the transport answers by then, unless the first status was
    -- fatal.
    pub lookup_request-preempted :
        (b : Answers) {m : SchedulerLookupMetadata}
        → IsHonest Trust empty a.coordinator
        → (lookup_request a q r).0 ≡ ok m
        → is_fatal m.status ≡ false
        → (lookup_request b (preempted_once q) (lookup_request a q r).1).0
          ≡ ok (record m {
            preemption_count = q.preemption_count + 1;
            allocation_generation = m.allocation_generation + 1;
          })
    lookup_request-preempted b {m} honest h f =
        let reply = lookup_request-Replies Trust empty a q r Run-IsSound honest in
        let (answer, retained) = reply.answers m h in
        let (at, u) = retained f in
        rw
          (lookup_request-known b (preempted_once q) (lookup_request a q r).1
            (record { request = q; metadata = m }) u at)
          (repeat-next q m (lookup_request a q r).1 answer.passes)

module _ (sha256 : List ℕ → List ℕ) (config : SchedulerConfig) (r : SchedulerRuntime)
    (run : Run (BoundPlan sha256) (empty-BoundPlan sha256) config r) where
  -- With the coordinator of storage/lookup.py, each candidate that a lookup offers for a transfer was
  -- verified for the request's own prompt and the runtime's namespace, also if it was kept.
  pub lookup_request-IsBound :
      (a : Answers) (q : SchedulerLookupRequest) {m : SchedulerLookupMetadata}
      → IsRequest q
      → (index : RecordIndex) (corrupt : Bool) → a.coordinator ≡ coordinator_of sha256 index corrupt
      → (lookup_request a q r).0 ≡ ok m
      → All
          (IsBound
            (sha256_fingerprint sha256)
            q.prompt_token_ids
            (query_digest sha256 q.prompt_token_ids)
            config.namespace)
          m.lookup_plan.verified_candidates
  lookup_request-IsBound a q v index corrupt e h =
      let honest =
        subst (IsHonest (BoundPlan sha256) (empty-BoundPlan sha256)) (sym e)
          (coordinator_of-IsHonest sha256 index corrupt) in
      (lookup_request-IsAnswer (BoundPlan sha256) (empty-BoundPlan sha256) config r run a q honest
          h).trusted
        v.normal
