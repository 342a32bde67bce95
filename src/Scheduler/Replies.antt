-- ===== src/Scheduler/Replies.antt =====
-- What the scheduler's lookup answers and what it keeps:
-- src/cacheblend_gpt_oss/vllm_compat/v0_19_1/scheduler_runtime.py.
use cacheblend_gpt_oss.Prelude.{
  ℕ, ◌≡◌, ◌⊎◌, inl, inr, refl, sym, ap, ◌∙◌, subst, true, false, List, [], none, some, ok,
  Result-cases, Bool-cases, Option-cases, All-get, arith, holds, holds_iff, decided, length, get,
}
use cacheblend_gpt_oss.Planner.Models.{CacheNamespace, TokenRange, tokens_discrete}
use cacheblend_gpt_oss.Scheduler.{
  SchedulerRuntimeState, SchedulerLookupStatus, SchedulerLookupRequest,
  SchedulerLookupRequest-discrete, SchedulerLookupMetadata, created, ready, degraded, fatal, closed,
  fatal_duplicate_conflict, fatal_runtime_closed, full_prefill_transport_error, is_transfer_ready,
  empty_lookup_plan, query_windows,
}
use cacheblend_gpt_oss.Scheduler.Runtime.{
  SchedulerConfig, SchedulerRuntime, StoredRequest, Answers, mark_fatal, connect_from,
  eligibility_status,
}
use cacheblend_gpt_oss.Scheduler.Calls.{
  stored, kept, status_or_drift, search_from, lookup_new, next_metadata, again, conflicts,
  preempted, repeat_or_preempt, lookup_known, lookup_from, lookup_request,
}
use cacheblend_gpt_oss.Scheduler.Sound.{
  PlanPredicate, is_stopped, IsAnswer, IsStored, IsSound, mark_fatal-IsSound, connect-Keeps,
  stored-IsSound, check_metadata-ok,
}
use cacheblend_gpt_oss.Scheduler.Searches.{
  IsHonest, Replies, ok-Replies, raise-Replies, searched-IsOutcome, stopped-Replies,
  fatal_status-IsFatal, search-IsOutcome, stored-Retained, concluded-Replies,
}

module _ (Trust : PlanPredicate)
    (empty : (ns : CacheNamespace) (prompt : List ℕ) → Trust ns prompt empty_lookup_plan) where
  search_from-Replies :
      (a : Answers) (q : SchedulerLookupRequest) (r : SchedulerRuntime)
      → IsSound Trust r
      → IsHonest Trust empty a.coordinator
      → (is_stopped r.state ≡ false) ⊎ (r.state ≡ fatal)
      → eligibility_status r.config q ≡ none
      → Replies Trust empty r.config q (search_from r.state a q r)
  search_from-Replies a q r s honest u e = by_state r.state refl
    where
      windows : List TokenRange
      windows = query_windows (length q.prompt_token_ids)

      runs :
          (t : SchedulerRuntimeState)
          → r.state ≡ t
          → is_stopped t ≡ false
          → is_stopped r.state ≡ false
      runs t k h = rw k h

      by_state :
          (t : SchedulerRuntimeState)
          → r.state ≡ t
          → Replies Trust empty r.config q (search_from t a q r)
      by_state created k =
          concluded-Replies Trust empty q windows r _
            (search-IsOutcome Trust empty a q (length windows) a.candidates r s honest
              (runs created k refl))
            (λ h. e)
      by_state ready k =
          concluded-Replies Trust empty q windows r _
            (search-IsOutcome Trust empty a q (length windows) a.candidates r s honest
              (runs ready k refl))
            (λ h. e)
      by_state closed k = elim u [ inl h ↦ let c : true ≡ false = (rw k at h) in cc | inr h ↦ cc ]
      by_state degraded k =
          concluded-Replies Trust empty q windows r
            (full_prefill_transport_error, (empty_lookup_plan, r))
            (record {
              same_config = refl;
              sound = s;
              running = λ h. runs degraded k refl;
              trusted = empty r.config.namespace q.prompt_token_ids;
            })
            (λ h. e)
      by_state fatal k =
          stopped-Replies Trust empty r s q (status_or_drift r.fatal_status) windows 0
            (fatal_status-IsFatal Trust empty r s k)

  eligible-not_ready :
      (config : SchedulerConfig) (q : SchedulerLookupRequest) {status : SchedulerLookupStatus}
      → eligibility_status config q ≡ some status
      → is_transfer_ready status ≡ false
  unfolding eligibility_status
  eligible-not_ready config q h = ground arith

  lookup_new-Replies :
      (a : Answers) (q : SchedulerLookupRequest) (r : SchedulerRuntime)
      → IsSound Trust r
      → IsHonest Trust empty a.coordinator
      → is_stopped r.state ≡ false
      → Replies Trust empty r.config q (lookup_new (eligibility_status r.config q) a q r)
  lookup_new-Replies a q r s honest u = elim (Option-cases (eligibility_status r.config q)) [
    | inl e ↦
        let k = connect-Keeps Trust a r u s in
        let r' = connect_from r.state a r in
        let reply = search_from-Replies a q r' k.sound honest k.running (rw k.config e) in
        rw e (subst (λ c. Replies Trust empty c q (search_from r'.state a q r')) k.config reply)
    | inr (status, e) ↦
        let idle = eligible-not_ready r.config q e in
        rw e (
          concluded-Replies Trust empty q [] r _
            (searched-IsOutcome Trust empty r s q status empty_lookup_plan u
              (empty r.config.namespace q.prompt_token_ids))
            (λ h. cc))
  ]

  preempted-IsAnswer :
      (config : SchedulerConfig) (p : StoredRequest) (q : SchedulerLookupRequest)
      (m : SchedulerLookupMetadata)
      → IsAnswer Trust config p.request p.metadata
      → record q { preemption_count = p.request.preemption_count } ≡ p.request
      → preempted p q ≡ ok m
      → IsAnswer Trust config q m × (m.status ≡ p.metadata.status)
  unfolding eligibility_status
  preempted-IsAnswer config p q m a e h =
      let next = next_metadata p q in
      let (same, passes) = check_metadata-ok next h in
      let answer : IsAnswer Trust config q next = record {
        same_request = a.same_request ∙ sym (ap (λ x. x.request_id) e);
        same_prompt = a.same_prompt ∙ sym (ap (λ x. x.prompt_token_ids) e);
        same_preemptions = refl;
        passes = passes;
        trusted =
            subst (λ l. Trust config.namespace l p.metadata.lookup_plan)
              (sym (ap (λ x. x.prompt_token_ids) e)) a.trusted;
        eligible = λ t. subst (λ x. eligibility_status config x ≡ none) (sym e) (a.eligible t);
      } in
      (subst (IsAnswer Trust config q) (sym same) answer, ap (λ x. x.status) same)

  next-Replies :
      (p : StoredRequest) (q : SchedulerLookupRequest) (r : SchedulerRuntime)
      → IsSound Trust r
      → is_stopped r.state ≡ false
      → IsStored Trust r.config q.request_id p
      → again q p ≡ p.request
      → Replies Trust empty r.config q (let m = preempted p q in (m, kept q m r))
  unfolding stored
  next-Replies p q r s u k same = elim (Result-cases (preempted p q)) [
    | inl (m, h) ↦
        let (answer, status) = preempted-IsAnswer r.config p q m k.answer same h in
        rw h (
          ok-Replies Trust empty r.config q (stored q m r) refl
            (stored-IsSound Trust q m r u s (rw status k.harmless) answer) m answer
            (stored-Retained Trust empty q m r u))
    | inr (x, h) ↦ rw h (raise-Replies Trust empty r.config q r refl s x)
  ]

  repeat_or_preempt-Replies :
      (p : StoredRequest) (q : SchedulerLookupRequest) (r : SchedulerRuntime)
      → IsSound Trust r
      → is_stopped r.state ≡ false
      → get tokens_discrete q.request_id r.requests ≡ some p
      → Replies Trust empty r.config q (repeat_or_preempt p q r)
  unfolding repeat_or_preempt
  repeat_or_preempt-Replies p q r s u at =
      let k =
        All-get tokens_discrete (IsStored Trust r.config) q.request_id r.requests s.entries at in
      elim (Bool-cases (holds (SchedulerLookupRequest-discrete q p.request))) [
        | inl e ↦
            let same : q ≡ p.request =
              (holds_iff (SchedulerLookupRequest-discrete q p.request)).0 e in
            rw e (
              ok-Replies Trust empty r.config q r refl s p.metadata
                (subst (λ x. IsAnswer Trust r.config x p.metadata) (sym same) k.answer)
                (λ f. (
                  subst
                      (λ x.
                        get tokens_discrete q.request_id r.requests
                        ≡ some (record { request = x; metadata = p.metadata }))
                      (sym same) at,
                  u,
                )))
        | inr e ↦ elim (Bool-cases (conflicts p q)) [
          | inl c ↦
              rw (e, c)
                (stopped-Replies Trust empty (mark_fatal fatal_duplicate_conflict r)
                  (mark_fatal-IsSound Trust fatal_duplicate_conflict r refl) q
                  fatal_duplicate_conflict [] p.metadata.allocation_generation refl)
          | inr c ↦
              rw (e, c)
                (next-Replies p q r s u k
                  (decided (SchedulerLookupRequest-discrete (again q p) p.request) (ground arith)))
        ]
      ]

  -- Whatever a sound runtime answers to a request is about that request, and the runtime stays sound.
  pub lookup_request-Replies :
      (a : Answers) (q : SchedulerLookupRequest) (r : SchedulerRuntime)
      → IsSound Trust r
      → IsHonest Trust empty a.coordinator
      → Replies Trust empty r.config q (lookup_request a q r)
  unfolding lookup_request
  lookup_request-Replies a q r s honest = by_state r.state refl
    where
      running :
          is_stopped r.state ≡ false
          → Replies Trust empty r.config q
              (lookup_known (get tokens_discrete q.request_id r.requests) a q r)
      running u = elim (Option-cases (get tokens_discrete q.request_id r.requests)) [
        | inl e ↦ rw e (lookup_new-Replies a q r s honest u)
        | inr (p, e) ↦ rw e (repeat_or_preempt-Replies p q r s u e)
      ]

      by_state :
          (t : SchedulerRuntimeState)
          → r.state ≡ t
          → Replies Trust empty r.config q (lookup_from t a q r)
      by_state created e = running (rw e refl)
      by_state ready e = running (rw e refl)
      by_state degraded e = running (rw e refl)
      by_state fatal e =
          stopped-Replies Trust empty r s q (status_or_drift r.fatal_status) [] q.preemption_count
            (fatal_status-IsFatal Trust empty r s e)
      by_state closed e =
          stopped-Replies Trust empty r s q fatal_runtime_closed [] q.preemption_count refl
