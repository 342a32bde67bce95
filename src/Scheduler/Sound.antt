-- ===== src/Scheduler/Sound.antt =====
-- What is kept between the calls of the scheduler's lookup runtime:
-- src/cacheblend_gpt_oss/vllm_compat/v0_19_1/scheduler_runtime.py.
use cacheblend_gpt_oss.Prelude.{
  ℕ, ◌≡◌, ◌⊎◌, inl, inr, refl, sym, ap, subst, Bool, true, false, not, ◌&&◌, List, [], Text, none,
  some, ok, raise, >>=-eq-ok, ok-injective, Bool-cases, All, All-put, arith, same,
}
use cacheblend_gpt_oss.Planner.Models.{CacheNamespace, TokenRange, tokens_discrete}
use cacheblend_gpt_oss.ControlPlane.Records.{RequestPlan, request_plan}
use cacheblend_gpt_oss.Storage.Lookup.{LookupPlan}
use cacheblend_gpt_oss.Scheduler.{
  SchedulerRuntimeState, SchedulerLookupStatus, SchedulerLookupRequest, SchedulerLookupMetadata,
  created, ready, degraded, fatal, closed, fatal_protocol_drift, fatal_transport_cleanup, is_fatal,
  is_transfer_ready, check_fields, check_metadata, metadata_with, build_metadata,
  lookup_request_plan, planned_or,
}
use cacheblend_gpt_oss.Scheduler.Runtime.{
  SchedulerConfig, SchedulerRuntime, StoredRequest, OpenAnswer, opened, open_operation_error,
  open_failed, Replacement, built, factory_operation_error, factory_failed, Answers, mark_fatal,
  open_created, retry_degraded, replaced, connect_from, eligibility_status, is_replacement,
}
use cacheblend_gpt_oss.Scheduler.Calls.{stored}

abbrev pub is_stopped : SchedulerRuntimeState → Bool
is_stopped fatal = true
is_stopped closed = true
is_stopped _ = false

-- The states in which the runtime owns a transport that it has to close.
abbrev pub is_open : SchedulerRuntimeState → Bool
is_open created = true
is_open ready = true
is_open _ = false

-- What is known of the plans that a coordinator returns for a namespace and a prompt.
abbrev pub PlanPredicate : Type 1
PlanPredicate = CacheNamespace → List ℕ → LookupPlan → Type 0

module _ (Trust : PlanPredicate) where
  -- What metadata tells of the request that it was made for.
  pub record IsAnswer (config : SchedulerConfig) (q : SchedulerLookupRequest)
      (m : SchedulerLookupMetadata) : Type 0 where
    pub same_request : m.request_plan.request_id ≡ q.request_id
    pub same_prompt : m.prompt_token_ids ≡ q.prompt_token_ids
    pub same_preemptions : m.preemption_count ≡ q.preemption_count
    pub passes : check_fields m ≡ ok tt
    pub trusted : Trust config.namespace q.prompt_token_ids m.lookup_plan
    pub eligible : is_transfer_ready m.status ≡ true → eligibility_status config q ≡ none

  -- What is kept under a key.
  pub record IsStored (config : SchedulerConfig) (id : Text) (s : StoredRequest) : Type 0 where
    pub own_key : s.request.request_id ≡ id
    pub harmless : is_fatal s.metadata.status ≡ false
    pub answer : IsAnswer config s.request s.metadata

  -- A runtime that stopped keeps no prompts, one that is in use owns its transport, and a fatal one
  -- knows why.
  pub record IsSound (r : SchedulerRuntime) : Type 0 where
    pub stopped_empty : is_stopped r.state ≡ true → r.requests ≡ []
    pub owned : is_open r.state ≡ true → r.transport_needs_close ≡ true
    pub reason :
        r.state ≡ fatal
        → (status : SchedulerLookupStatus) × (r.fatal_status ≡ some status)
          × (is_fatal status ≡ true)
    pub entries : All (λ e. IsStored r.config e.0 e.1) r.requests

  pub mark_fatal-IsSound :
      (status : SchedulerLookupStatus) (r : SchedulerRuntime)
      → is_fatal status ≡ true
      → IsSound (mark_fatal status r)
  mark_fatal-IsSound status r f = record {
    stopped_empty = λ h. refl;
    owned = λ h. cc;
    reason = λ h. (status, refl, f);
    entries = tt;
  }

  -- A runtime in use, with the same requests in another such state.
  pub active-IsSound :
      (r : SchedulerRuntime)
      → is_stopped r.state ≡ false
      → (is_open r.state ≡ true → r.transport_needs_close ≡ true)
      → All (λ e. IsStored r.config e.0 e.1) r.requests
      → IsSound r
  active-IsSound r a o e = record {
    stopped_empty = λ h. cc;
    owned = o;
    reason = λ h. let s : is_stopped r.state ≡ true = rw h refl in cc;
    entries = e;
  }

  -- What the calls of the transport and of the factory keep: the configuration, and a sound runtime.
  pub record Keeps (r r' : SchedulerRuntime) : Type 0 where
    pub config : r'.config ≡ r.config
    pub sound : IsSound r'
    pub running : (is_stopped r'.state ≡ false) ⊎ (r'.state ≡ fatal)

  fatal-Keeps :
      (status : SchedulerLookupStatus) (r : SchedulerRuntime)
      → is_fatal status ≡ true
      → Keeps r (mark_fatal status r)
  fatal-Keeps status r f = record {
    config = refl;
    sound = mark_fatal-IsSound status r f;
    running = inr refl;
  }

  pub open_created-Keeps :
      (a : OpenAnswer) (r : SchedulerRuntime)
      → r.transport_needs_close ≡ true
      → All (λ e. IsStored r.config e.0 e.1) r.requests
      → Keeps r (open_created a r)
  open_created-Keeps opened r o e = record {
    config = refl;
    sound = active-IsSound _ refl (λ h. o) e;
    running = inl refl;
  }
  open_created-Keeps open_operation_error r o e = record {
    config = refl;
    sound = active-IsSound _ refl (λ h. cc) e;
    running = inl refl;
  }
  open_created-Keeps open_failed r o e = fatal-Keeps fatal_protocol_drift r refl

  replaced-Keeps :
      (a : OpenAnswer) (p : Replacement) (r : SchedulerRuntime)
      → r.state ≡ degraded
      → All (λ e. IsStored r.config e.0 e.1) r.requests
      → Keeps r (replaced a p r)
  replaced-Keeps a factory_operation_error r d e = record {
    config = refl;
    sound = active-IsSound _ refl (λ h. cc) e;
    running = inl refl;
  }
  replaced-Keeps a factory_failed r d e = fatal-Keeps fatal_protocol_drift r refl
  replaced-Keeps a (built true t closes) r d e = fatal-Keeps fatal_protocol_drift r refl
  replaced-Keeps a (built false t closes) r d e = elim (Bool-cases (is_replacement r t)) [
    | inl i ↦
        let k =
          open_created-Keeps a (record r { transport_needs_close = true; state = created }) refl
            e in
        rw i (record { config = k.config; sound = k.sound; running = k.running })
    | inr i ↦ elim (Bool-cases closes) [
      | inl c ↦ rw (i, c) (fatal-Keeps fatal_protocol_drift r refl)
      | inr c ↦ rw (i, c) (fatal-Keeps fatal_transport_cleanup r refl)
    ]
  ]

  retry_degraded-Keeps :
      (a : Answers) (r : SchedulerRuntime)
      → r.state ≡ degraded
      → IsSound r
      → Keeps r (retry_degraded a r)
  unfolding retry_degraded
  retry_degraded-Keeps a r d s = elim (Bool-cases (r.transport_needs_close && not a.closing)) [
    | inl e ↦ rw e (fatal-Keeps fatal_transport_cleanup r refl)
    | inr e ↦
        let k =
          replaced-Keeps a.opening a.replacement (record r { transport_needs_close = false }) d
            s.entries in
        rw e (record { config = k.config; sound = k.sound; running = k.running })
  ]

  -- The connection of a runtime that is in use.
  pub connect-Keeps :
      (a : Answers) (r : SchedulerRuntime)
      → is_stopped r.state ≡ false
      → IsSound r
      → Keeps r (connect_from r.state a r)
  connect-Keeps a r u s = by_state r.state refl
    where
      by_state : (t : SchedulerRuntimeState) → r.state ≡ t → Keeps r (connect_from t a r)
      by_state created e = open_created-Keeps a.opening r (s.owned (rw e refl)) s.entries
      by_state degraded e = retry_degraded-Keeps a r e s
      by_state ready e = record { config = refl; sound = s; running = inl u }
      by_state fatal e = record { config = refl; sound = s; running = inl u }
      by_state closed e = record { config = refl; sound = s; running = inl u }

  -- Keeping the answer to a request.
  pub stored-IsSound :
      (q : SchedulerLookupRequest) (m : SchedulerLookupMetadata) (r : SchedulerRuntime)
      → is_stopped r.state ≡ false
      → IsSound r
      → is_fatal m.status ≡ false
      → IsAnswer r.config q m
      → IsSound (stored q m r)
  unfolding stored
  stored-IsSound q m r u s f a = active-IsSound _ u s.owned (
      All-put tokens_discrete (IsStored r.config) q.request_id _ r.requests s.entries
        (record { own_key = refl; harmless = f; answer = a }))

lookup_request_plan-id :
    (q : SchedulerLookupRequest) (p : LookupPlan) {plan : RequestPlan}
    → lookup_request_plan q p ≡ ok plan
    → plan.request_id ≡ q.request_id
unfolding lookup_request_plan request_plan
lookup_request_plan-id q p h = ground arith

planned_or-ok : (c : _) {p : RequestPlan} → planned_or c ≡ ok p → c ≡ ok p
planned_or-ok (ok p) h = ap ok (ok-injective h)
planned_or-ok (raise e) h = cc

-- Metadata that was built answers its request.
pub record IsBuilt (q : SchedulerLookupRequest) (status : SchedulerLookupStatus) (p : LookupPlan)
    (generation : ℕ) (m : SchedulerLookupMetadata) : Type 0 where
  pub same_request : m.request_plan.request_id ≡ q.request_id
  pub same_prompt : m.prompt_token_ids ≡ q.prompt_token_ids
  pub same_preemptions : m.preemption_count ≡ q.preemption_count
  pub same_status : m.status ≡ status
  pub same_plan : m.lookup_plan ≡ p
  pub same_generation : m.allocation_generation ≡ generation
  pub passes : check_fields m ≡ ok tt

pub check_metadata-ok :
    (m : SchedulerLookupMetadata) {m' : SchedulerLookupMetadata}
    → check_metadata m ≡ ok m'
    → (m' ≡ m) × (check_fields m ≡ ok tt)
unfolding check_metadata
check_metadata-ok m h = let (_, e, k) = >>=-eq-ok (check_fields m) _ h in (sym (ok-injective k), e)

pub build_metadata-IsBuilt :
    (q : SchedulerLookupRequest) (status : SchedulerLookupStatus) (p : LookupPlan)
    (ws : List TokenRange) (generation : ℕ) {m : SchedulerLookupMetadata}
    → build_metadata q status p ws generation ≡ ok m
    → IsBuilt q status p generation m
unfolding build_metadata
build_metadata-IsBuilt q status p ws generation h =
    let (plan, e, k) = >>=-eq-ok (planned_or (lookup_request_plan q p)) _ h in
    let (same, passes) = check_metadata-ok (metadata_with q status p ws generation plan) k in
    subst (IsBuilt q status p generation) (sym same) (record {
      same_request = lookup_request_plan-id q p (planned_or-ok (lookup_request_plan q p) e);
      same_prompt = refl;
      same_preemptions = refl;
      same_status = refl;
      same_plan = refl;
      same_generation = refl;
      passes = passes;
    })
