-- ===== src/Scheduler/Total.antt =====
-- That the scheduler's lookup returns metadata for every request:
-- src/cacheblend_gpt_oss/vllm_compat/v0_19_1/scheduler_runtime.py.
use cacheblend_gpt_oss.Prelude.{
  ◌≡◌, ◌⊎◌, refl, false, [], some, ok, Bool-cases, Option-cases, inl, inr, All-get, arith, get,
  holds,
}
use cacheblend_gpt_oss.Planner.Models.{tokens_discrete}
use cacheblend_gpt_oss.Scheduler.{
  SchedulerLookupStatus, SchedulerLookupRequest, SchedulerLookupRequest-discrete,
  SchedulerRuntimeState, created, ready, degraded, fatal, closed, full_prefill_transport_error,
  fatal_duplicate_conflict, fatal_runtime_closed, is_transfer_ready, requires_windows,
  query_windows, check_fields,
}
use cacheblend_gpt_oss.Scheduler.Accepted.{all, nothing}
use cacheblend_gpt_oss.Scheduler.Requests.{IsRequest}
use cacheblend_gpt_oss.Scheduler.Runtime.{
  SchedulerConfig, SchedulerRuntime, StoredRequest, Answers, connect_from, mark_fatal,
  eligibility_status,
}
use cacheblend_gpt_oss.Scheduler.Calls.{
  search_from, lookup_new, next_metadata, conflicts, repeat_or_preempt, lookup_known, lookup_from,
  lookup_request,
}
use cacheblend_gpt_oss.Scheduler.Sound.{PlanPredicate, is_stopped, IsSound, IsStored, connect-Keeps}
use cacheblend_gpt_oss.Scheduler.Planning.{
  Returns, IsPlanning, preempted-ok, count, stopped-Returns, fatal-nothing, empty-Returns,
  search-Returns,
}

module _ (q : SchedulerLookupRequest) (v : IsRequest q) where
  search_from-Returns :
      (Trust : PlanPredicate) (a : Answers) (r : SchedulerRuntime)
      → IsSound Trust r
      → (is_stopped r.state ≡ false) ⊎ (r.state ≡ fatal)
      → IsPlanning a.coordinator
      → Returns (search_from r.state a q r)
  search_from-Returns Trust a r s u k = by_state r.state refl
    where
      by_state : (t : SchedulerRuntimeState) → r.state ≡ t → Returns (search_from t a q r)
      by_state created e = search-Returns q v a a.candidates r k
      by_state ready e = search-Returns q v a a.candidates r k
      by_state closed e = search-Returns q v a a.candidates r k
      by_state degraded e =
          empty-Returns q v full_prefill_transport_error (query_windows (count q v)) r refl all
      by_state fatal e =
          let (status, known, f) = s.reason e in
          rw known (stopped-Returns q v status (query_windows (count q v)) 0 r f all)

  ineligible-idle :
      (config : SchedulerConfig) {status : SchedulerLookupStatus}
      → eligibility_status config q ≡ some status
      → (is_transfer_ready status ≡ false) × (requires_windows status ≡ false)
  unfolding eligibility_status
  ineligible-idle config h = (ground arith, ground arith)

  lookup_new-Returns :
      (Trust : PlanPredicate) (a : Answers) (r : SchedulerRuntime)
      → IsSound Trust r
      → is_stopped r.state ≡ false
      → IsPlanning a.coordinator
      → Returns (lookup_new (eligibility_status r.config q) a q r)
  lookup_new-Returns Trust a r s u k = elim (Option-cases (eligibility_status r.config q)) [
    | inl e ↦
        let c = connect-Keeps Trust a r u s in
        rw e (search_from-Returns Trust a (connect_from r.state a r) c.sound c.running k)
    | inr (status, e) ↦
        let (idle, free) = ineligible-idle r.config e in
        rw e (empty-Returns q v status [] r idle (nothing free))
  ]

  repeat_or_preempt-Returns :
      (p : StoredRequest) (r : SchedulerRuntime)
      → check_fields p.metadata ≡ ok tt
      → Returns (repeat_or_preempt p q r)
  unfolding repeat_or_preempt
  repeat_or_preempt-Returns p r h =
      elim (Bool-cases (holds (SchedulerLookupRequest-discrete q p.request))) [
        | inl e ↦ rw e (p.metadata, refl)
        | inr e ↦ elim (Bool-cases (conflicts p q)) [
          | inl c ↦
              rw (e, c)
                (stopped-Returns q v fatal_duplicate_conflict [] p.metadata.allocation_generation
                  (mark_fatal fatal_duplicate_conflict r) refl
                  (fatal-nothing q v fatal_duplicate_conflict refl))
          | inr c ↦ rw (e, c) (next_metadata p q, preempted-ok p q h)
        ]
      ]

  -- Every request that was built gets metadata from a sound runtime.
  pub sound-Returns :
      (Trust : PlanPredicate) (a : Answers) (r : SchedulerRuntime)
      → IsSound Trust r
      → IsPlanning a.coordinator
      → Returns (lookup_request a q r)
  unfolding lookup_request
  sound-Returns Trust a r s k = by_state r.state refl
    where
      running :
          is_stopped r.state ≡ false
          → Returns (lookup_known (get tokens_discrete q.request_id r.requests) a q r)
      running u = elim (Option-cases (get tokens_discrete q.request_id r.requests)) [
        | inl e ↦ rw e (lookup_new-Returns Trust a r s u k)
        | inr (p, e) ↦
            let stored =
              All-get tokens_discrete (IsStored Trust r.config) q.request_id r.requests s.entries
                e in
            rw e (repeat_or_preempt-Returns p r stored.answer.passes)
      ]

      by_state : (t : SchedulerRuntimeState) → r.state ≡ t → Returns (lookup_from t a q r)
      by_state created e = running (rw e refl)
      by_state ready e = running (rw e refl)
      by_state degraded e = running (rw e refl)
      by_state fatal e =
          let (status, known, f) = s.reason e in
          rw known
            (stopped-Returns q v status [] q.preemption_count r f (fatal-nothing q v status f))
      by_state closed e =
          stopped-Returns q v fatal_runtime_closed [] q.preemption_count r refl
            (fatal-nothing q v fatal_runtime_closed refl)
