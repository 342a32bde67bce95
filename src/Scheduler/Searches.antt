-- ===== src/Scheduler/Searches.antt =====
-- What a search of the scheduler's lookup leaves, and what is made of it:
-- src/cacheblend_gpt_oss/vllm_compat/v0_19_1/scheduler_runtime.py.
use cacheblend_gpt_oss.Prelude.{
  ℕ, ◌≡◌, inl, inr, refl, sym, ◌∙◌, subst, true, false, List, Text, none, some, ok, raise,
  ok-injective, Result-cases, get-put, same, Bool-cases, arith, holds_iff, get,
}
use cacheblend_gpt_oss.Planner.Models.{CacheNamespace, TokenRange, tokens_discrete}
use cacheblend_gpt_oss.Storage.Types.{LmcacheCandidate}
use cacheblend_gpt_oss.Storage.Lookup.{LookupPlan}
use cacheblend_gpt_oss.Scheduler.{
  SchedulerFailure, Scheduled, SchedulerLookupStatus, SchedulerLookupRequest,
  SchedulerLookupMetadata, fatal, fatal_protocol_drift, is_fatal, is_transfer_ready, build_metadata,
  empty_lookup_plan,
}
use cacheblend_gpt_oss.Scheduler.Runtime.{
  SchedulerConfig, SchedulerRuntime, Answers, CandidatesAnswer, found, malformed,
  lookup_operation_error, lookup_failed, Coordinator, eligibility_status,
}
use cacheblend_gpt_oss.Scheduler.Calls.{
  are_chunks, searched, verify_candidates, search, search_plan, stored, concluded, status_or_drift,
  stopped,
}
use cacheblend_gpt_oss.Scheduler.Sound.{
  PlanPredicate, is_stopped, IsAnswer, IsSound, IsBuilt, mark_fatal-IsSound, active-IsSound,
  stored-IsSound, build_metadata-IsBuilt,
}

module _ (Trust : PlanPredicate)
    (empty : (ns : CacheNamespace) (prompt : List ℕ) → Trust ns prompt empty_lookup_plan) where
  -- A coordinator whose plans can be trusted.
  abbrev pub IsHonest : Coordinator → Type 0
  IsHonest c =
      (ns : CacheNamespace) (prompt : List ℕ) (cs : List LmcacheCandidate)
      → Trust ns prompt (search_plan (c prompt ns cs))

  -- Metadata without a fatal status is kept for the request, by a runtime in use.
  abbrev pub Retained : SchedulerLookupRequest → SchedulerLookupMetadata → SchedulerRuntime → Type 0
  Retained q m r =
      is_fatal m.status ≡ false
      → (get tokens_discrete q.request_id r.requests ≡ some (record { request = q; metadata = m }))
        × (is_stopped r.state ≡ false)

  -- What a call of `lookup` returns and leaves.
  pub record Replies (config : SchedulerConfig) (q : SchedulerLookupRequest)
      (x : Scheduled SchedulerLookupMetadata × SchedulerRuntime) : Type 0 where
    pub same_config : x.1.config ≡ config
    pub sound : IsSound Trust x.1
    pub answers :
        (m : SchedulerLookupMetadata) → x.0 ≡ ok m → IsAnswer Trust config q m × Retained q m x.1

  module _ (config : SchedulerConfig) (q : SchedulerLookupRequest) (r : SchedulerRuntime)
      (same : r.config ≡ config) (sound : IsSound Trust r) where
    pub ok-Replies :
        (m : SchedulerLookupMetadata)
        → IsAnswer Trust config q m
        → Retained q m r
        → Replies config q (ok m, r)
    ok-Replies m a k = record {
      same_config = same;
      sound = sound;
      answers =
          λ m' h. subst (λ n. IsAnswer Trust config q n × Retained q n r) (ok-injective h) (a, k);
    }

    pub raise-Replies : (e : SchedulerFailure) → Replies config q (raise e, r)
    raise-Replies e = record { same_config = same; sound = sound; answers = λ m h. cc }

  IsBuilt-IsAnswer :
      (config : SchedulerConfig) (q : SchedulerLookupRequest) (status : SchedulerLookupStatus)
      (p : LookupPlan) (generation : ℕ) (m : SchedulerLookupMetadata)
      → Trust config.namespace q.prompt_token_ids p
      → (is_transfer_ready status ≡ true → eligibility_status config q ≡ none)
      → IsBuilt q status p generation m
      → IsAnswer Trust config q m
  IsBuilt-IsAnswer config q status p generation m t e b = record {
    same_request = b.same_request;
    same_prompt = b.same_prompt;
    same_preemptions = b.same_preemptions;
    passes = b.passes;
    trusted = subst (Trust config.namespace q.prompt_token_ids) (sym b.same_plan) t;
    eligible = λ h. e (subst (λ s. is_transfer_ready s ≡ true) b.same_status h);
  }

  -- A runtime behind a search, which may have become fatal.
  pub record IsOutcome (r : SchedulerRuntime) (q : SchedulerLookupRequest)
      (x : SchedulerLookupStatus × (LookupPlan × SchedulerRuntime)) : Type 0 where
    pub same_config : x.1.1.config ≡ r.config
    pub sound : IsSound Trust x.1.1
    pub running : is_fatal x.0 ≡ false → is_stopped x.1.1.state ≡ false
    pub trusted : Trust r.config.namespace q.prompt_token_ids x.1.0

  module _ (r : SchedulerRuntime) (s : IsSound Trust r) where
    pub searched-IsOutcome :
        (q : SchedulerLookupRequest) (status : SchedulerLookupStatus) (p : LookupPlan)
        → is_stopped r.state ≡ false
        → Trust r.config.namespace q.prompt_token_ids p
        → IsOutcome r q (searched status p r)
    searched-IsOutcome q status p u t = elim (Bool-cases (is_fatal status)) [
      | inl f ↦ rw f (record {
        same_config = refl;
        sound = mark_fatal-IsSound Trust status r f;
        running = λ h. cc;
        trusted = t;
      })
      | inr f ↦ rw f (record { same_config = refl; sound = s; running = λ h. u; trusted = t })
    ]

    verify_candidates-IsOutcome :
        (c : Coordinator) (q : SchedulerLookupRequest) (cs : List LmcacheCandidate) (windows : ℕ)
        → IsHonest c
        → is_stopped r.state ≡ false
        → IsOutcome r q (verify_candidates c q cs windows r)
    unfolding verify_candidates
    verify_candidates-IsOutcome c q cs windows honest u =
        elim (Bool-cases (are_chunks cs windows)) [
          | inl e ↦
              rw e (searched-IsOutcome q _ _ u (honest r.config.namespace q.prompt_token_ids cs))
          | inr e ↦ rw e (searched-IsOutcome q _ _ u (empty r.config.namespace q.prompt_token_ids))
        ]

    pub stopped-Replies :
        (q : SchedulerLookupRequest) (status : SchedulerLookupStatus) (ws : List TokenRange)
        (generation : ℕ)
        → is_fatal status ≡ true
        → Replies r.config q (stopped q status ws generation r)
    stopped-Replies q status ws generation f =
        elim (Result-cases (build_metadata q status empty_lookup_plan ws generation)) [
          | inl (m, h) ↦
              let b = build_metadata-IsBuilt q status empty_lookup_plan ws generation h in
              let answer =
                IsBuilt-IsAnswer r.config q status empty_lookup_plan generation m
                  (empty r.config.namespace q.prompt_token_ids)
                  (λ t. let idle = not_ready status f in cc) b in
              rw h (
                ok-Replies r.config q r refl s m answer
                  (λ k. let g : is_fatal m.status ≡ true = rw b.same_status f in cc))
          | inr (e, h) ↦ rw h (raise-Replies r.config q r refl s e)
        ]
      where
        not_ready :
            (status : SchedulerLookupStatus)
            → is_fatal status ≡ true
            → is_transfer_ready status ≡ false
        not_ready status f = ground arith

    pub fatal_status-IsFatal : r.state ≡ fatal → is_fatal (status_or_drift r.fatal_status) ≡ true
    fatal_status-IsFatal e = let (status, k, f) = s.reason e in rw k f

  pub search-IsOutcome :
      (a : Answers) (q : SchedulerLookupRequest) (windows : ℕ) (c : CandidatesAnswer)
      (r : SchedulerRuntime)
      → IsSound Trust r
      → IsHonest a.coordinator
      → is_stopped r.state ≡ false
      → IsOutcome r q (search a q windows c r)
  unfolding search
  search-IsOutcome a q windows (found cs) r s honest u =
      verify_candidates-IsOutcome r s a.coordinator q cs windows honest u
  search-IsOutcome a q windows malformed r s honest u =
      searched-IsOutcome r s q fatal_protocol_drift empty_lookup_plan u
        (empty r.config.namespace q.prompt_token_ids)
  search-IsOutcome a q windows lookup_failed r s honest u =
      searched-IsOutcome r s q fatal_protocol_drift empty_lookup_plan u
        (empty r.config.namespace q.prompt_token_ids)
  search-IsOutcome a q windows lookup_operation_error r s honest u = record {
    same_config = refl;
    sound = active-IsSound Trust _ refl (λ h. cc) s.entries;
    running = λ h. refl;
    trusted = empty r.config.namespace q.prompt_token_ids;
  }

  pub stored-Retained :
      (q : SchedulerLookupRequest) (m : SchedulerLookupMetadata) (r : SchedulerRuntime)
      → is_stopped r.state ≡ false
      → Retained q m (stored q m r)
  unfolding stored
  stored-Retained q m r u f = (
    get-put tokens_discrete q.request_id q.request_id _ r.requests
        ∙ rw (same_key q.request_id) refl,
    u,
  )
    where
      same_key : (id : Text) → same tokens_discrete id id ≡ true
      same_key id = (holds_iff (tokens_discrete id id)).1 refl

  pub concluded-Replies :
      (q : SchedulerLookupRequest) (ws : List TokenRange) (r : SchedulerRuntime)
      (x : SchedulerLookupStatus × (LookupPlan × SchedulerRuntime))
      → IsOutcome r q x
      → (is_transfer_ready x.0 ≡ true → eligibility_status r.config q ≡ none)
      → Replies r.config q (concluded q ws x)
  unfolding stored
  concluded-Replies q ws r (status, (p, r')) o e =
      elim (Result-cases (build_metadata q status p ws 0)) [
        | inl (m, h) ↦
            let b = build_metadata-IsBuilt q status p ws 0 h in
            let answer = IsBuilt-IsAnswer r.config q status p 0 m o.trusted e b in
            elim (Bool-cases (is_fatal status)) [
              | inl f ↦
                  rw (h, f)
                    (ok-Replies r.config q r' o.same_config o.sound m answer
                      (λ k. let g : is_fatal m.status ≡ true = rw b.same_status f in cc))
              | inr f ↦
                  rw (h, f)
                    (ok-Replies r.config q (stored q m r') o.same_config
                      (stored-IsSound Trust q m r' (o.running f) o.sound (rw b.same_status f)
                        (subst (λ c. IsAnswer Trust c q m) (sym o.same_config) answer))
                      m answer (stored-Retained q m r' (o.running f)))
            ]
        | inr (x, h) ↦ elim (Bool-cases (is_fatal status)) [
          | inl f ↦ rw (h, f) (raise-Replies r.config q r' o.same_config o.sound x)
          | inr f ↦ rw (h, f) (raise-Replies r.config q r' o.same_config o.sound x)
        ]
      ]
