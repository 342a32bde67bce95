-- ===== src/Staging/Soundness.antt =====
-- The owners of the staging tensor while a server may hold its declaration:
-- src/cacheblend_gpt_oss/vllm_compat/v0_19_1/staging.py.
use cacheblend_gpt_oss.Prelude.{
  ℕ, ◌≡◌, refl, Bool, true, false, not, ◌&&◌, List, Option, none, some, ok, ◌⊎◌, inl, inr, arith,
  ap, sym, ◌∙◌, subst,
}
use cacheblend_gpt_oss.Staging.Config.{
  StagingConfig, Failure, base_exception, staging_error, Outcome, StagingErrorCode, invalid_tensor,
  ipc_wrapper_failed, event_failed, allocation_failed, cuda_device_unavailable, registration_failed,
  synchronization_failed,
}
use cacheblend_gpt_oss.Staging.Steps.{
  StagingState, created, registered, transfer_active, failed, closed, same_state, StagingRuntime,
  Step, ◌>>=◌, ◌>>◌, mark_failed,
}
use cacheblend_gpt_oss.Staging.Runtime.{
  OpenAnswers, EventAnswers, TensorReport, WrapperReport, bad_tensor, bad_wrapper, exported,
  handle_changed, is_none, record_and_export_event, validate_tensor, validate_wrapper, open_staging,
}
use cacheblend_gpt_oss.Staging.Triples.{
  Meets, Meets-bind, Meets-get, Meets-modify, Meets->>, Meets-require_state, Meets-refuse_last,
  Meets-try_call, Meets-try_staging, Meets-refuse_if, Meets-register, held,
}

-- A server may be reading from staging, or writing to it.
abbrev pub is_live : StagingState → Bool
is_live registered = true
is_live transfer_active = true
is_live _ = false

abbrev pub has_owners : StagingRuntime → Bool
has_owners s =
    not (is_none s.tensor)
    && (not (is_none s.wrapper) && (not (is_none s.event) && not (is_none s.event_handle)))

abbrev pub is_released : StagingRuntime → Bool
is_released s =
    is_none s.tensor
    && (is_none s.wrapper
        && (is_none s.event
            && (is_none s.event_handle
                && (not s.registration_may_exist && not s.lmcache_may_hold))))

-- LMCache may hold live staging; what it may hold is noted as perhaps registered; what is noted so
-- keeps its owners; closed staging has none, and LMCache holds nothing of it.
pub record IsSound (s : StagingRuntime) : Type 0 where
  pub live_held : is_live s.state ≡ true → s.lmcache_may_hold ≡ true
  pub noted : s.lmcache_may_hold ≡ true → s.registration_may_exist ≡ true
  pub live_registered : is_live s.state ≡ true → s.registration_may_exist ≡ true
  pub owned : s.registration_may_exist ≡ true → has_owners s ≡ true
  pub closed_released : same_state s.state closed ≡ true → is_released s ≡ true

pub mark_failed-IsSound : (s : StagingRuntime) → IsSound s → IsSound (mark_failed s)
mark_failed-IsSound s h =
    ground (arith, h.live_held, h.noted, h.live_registered, h.owned, h.closed_released)

-- Sound, in one state and of one configuration.
abbrev pub At : StagingConfig → StagingState → StagingRuntime → Type 0
At c x s = IsSound s × ((s.state ≡ x) × (s.config ≡ c))

-- Failed, or interrupted where it was.
abbrev pub Stopped : StagingConfig → StagingState → Failure → StagingRuntime → Type 0
Stopped c x f s =
    IsSound s × ((s.config ≡ c) × ((s.state ≡ failed) ⊎ ((f ≡ base_exception) × (s.state ≡ x))))

pub failed_marked :
    (c : StagingConfig) (x : StagingState) (s : StagingRuntime)
    → At c x s
    → same_state x closed ≡ false
    → (f : Failure) → Stopped c x f (mark_failed s)
failed_marked c x s (h, (e, k)) n f =
    let open' : same_state s.state closed ≡ false = ap (λ y. same_state y closed) e ∙ n in
    (mark_failed-IsSound s h, (rw open' k, inl (rw open' refl)))

pub Stopped-marked :
    (c : StagingConfig) (x : StagingState) (s : StagingRuntime)
    → At c x s
    → same_state x closed ≡ false
    → (code : StagingErrorCode) → Stopped c x (staging_error code) (mark_failed s)
Stopped-marked c x s at n code = failed_marked c x s at n (staging_error code)

pub Stopped-interrupted :
    (c : StagingConfig) (x : StagingState) (s : StagingRuntime)
    → At c x s
    → Stopped c x base_exception s
Stopped-interrupted c x s (h, (e, k)) = (h, (k, inr (refl, e)))

-- The steps that the methods share, for any failures that admit the interrupted and the marked
-- runtime.
module _ (raised : Failure → StagingRuntime → Type 0) (s : StagingRuntime)
    (interrupted : raised base_exception s)
    (marked : (code : StagingErrorCode) → raised (staging_error code) (mark_failed s)) where
  -- The handle that is exported is valid, and the one that was expected.
  pub record_and_export_event-next :
      {B : Type 0} (expected : Option (List ℕ)) (a : EventAnswers) (f : List ℕ → Step B)
      (done : B → StagingRuntime → Type 0)
      → ((handle : List ℕ)
          → is_none s.event ≡ false
          → exported a ≡ ok handle
          → handle_changed expected handle ≡ false
          → Meets done raised (f handle s))
      → Meets done raised ((record_and_export_event expected a >>= f) s)
  unfolding record_and_export_event
  record_and_export_event-next expected a f done next =
      Meets-bind (record_and_export_event expected a) f
        (λ handle t.
          (t ≡ s)
          × (is_none s.event ≡ false)
          × (exported a ≡ ok handle)
          × (handle_changed expected handle ≡ false))
        done raised s
        (Meets-get _ _ _ s (
          Meets-refuse_if (is_none s.event) event_failed _ _ _ s marked λ e1. Meets->> _ _ _ _ s (
            Meets-try_call synchronization_failed a.synchronize_device _ _ _ s interrupted marked
              λ _ _.
                Meets-try_call event_failed (exported a) _ _ _ s interrupted marked λ handle e2.
                  Meets-refuse_if (handle_changed expected handle) event_failed _ _ _ s marked
                    λ e3. (refl, e1, e2, e3))))
        λ handle t (e, e1, e2, e3).
          subst (λ r. Meets done raised (f handle r)) (sym e) (next handle e1 e2 e3)

  validate_tensor-next :
      {B : Type 0} (report : Outcome TensorReport) (k : Step B) (done : B → StagingRuntime → Type 0)
      → ((r : TensorReport)
          → report ≡ ok r
          → bad_tensor s.config r ≡ false
          → Meets done raised (k s))
      → Meets done raised ((validate_tensor report >> k) s)
  unfolding validate_tensor
  validate_tensor-next report k done next = Meets->> (validate_tensor report) k done raised s (
      Meets-bind (validate_tensor report) (λ _. k)
        (λ _ t. (t ≡ s) × (r : TensorReport) × (report ≡ ok r) × (bad_tensor s.config r ≡ false))
        done raised s
        (Meets-get _ _ _ s (
          Meets-try_call invalid_tensor report _ _ _ s interrupted marked λ r e1.
            Meets-refuse_last (bad_tensor s.config r) invalid_tensor _ _ s marked
              λ e2. (refl, r, e1, e2)))
        λ _ t (e, r, e1, e2). subst (λ y. Meets done raised (k y)) (sym e) (next r e1 e2))

  validate_wrapper-next :
      {B : Type 0} (report : Outcome WrapperReport) (k : Step B)
      (done : B → StagingRuntime → Type 0)
      → ((r : WrapperReport)
          → report ≡ ok r
          → bad_wrapper s.config r ≡ false
          → Meets done raised (k s))
      → Meets done raised ((validate_wrapper report >> k) s)
  unfolding validate_wrapper
  validate_wrapper-next report k done next = Meets->> (validate_wrapper report) k done raised s (
      Meets-bind (validate_wrapper report) (λ _. k)
        (λ _ t. (t ≡ s) × (r : WrapperReport) × (report ≡ ok r) × (bad_wrapper s.config r ≡ false))
        done raised s
        (Meets-get _ _ _ s (
          Meets-try_call ipc_wrapper_failed report _ _ _ s interrupted marked λ r e1.
            Meets-refuse_last (bad_wrapper s.config r) ipc_wrapper_failed _ _ s marked
              λ e2. (refl, r, e1, e2)))
        λ _ t (e, r, e1, e2). subst (λ y. Meets done raised (k y)) (sym e) (next r e1 e2))

-- What holds behind a successful `open`: the tensor and the wrapper that were checked are owned.
pub record IsOpened (a : OpenAnswers) (c : StagingConfig) (t : ℕ) (s : StagingRuntime)
    : Type 0 where
  pub sound : IsSound s
  pub state_registered : s.state ≡ registered
  pub same_config : s.config ≡ c
  pub owned_tensor : s.tensor ≡ some t
  pub tensor_checked : (r : TensorReport) × (a.tensor_report ≡ ok r) × (bad_tensor c r ≡ false)
  pub wrapper_checked : (r : WrapperReport) × (a.wrapper_report ≡ ok r) × (bad_wrapper c r ≡ false)
  pub handle_exported : (b : List ℕ) × (exported a.export ≡ ok b) × (s.event_handle ≡ some b)
  pub registration_made : a.register ≡ ok tt

-- Opening new staging either ends registered, with a checked tensor, wrapper and event handle, or
-- raises: then staging is marked as failed, unless the call was interrupted; in every case what
-- may be registered keeps its owners.
pub open_staging-Meets :
    (a : OpenAnswers) (s : StagingRuntime)
    → IsSound s
    → s.state ≡ created
    → Meets (IsOpened a s.config) (Stopped s.config created) (open_staging a s)
unfolding open_staging
open_staging-Meets a s h e =
    let c = s.config in
    let done = IsOpened a c in
    let fails = Stopped c created in
    let at : At c created s = (h, (e, refl)) in
    Meets-require_state created _ _ _ s (rw e refl) (
      Meets->> _ _ _ _ s (
        Meets-try_staging cuda_device_unavailable a.validate_device _ _ _ s
          (Stopped-interrupted c created s at) (Stopped-marked c created s at refl)
          λ _ _.
            Meets-try_call allocation_failed a.allocate _ _ _ s (Stopped-interrupted c created s at)
              (Stopped-marked c created s at refl)
              λ t _.
                let s1 = record s { tensor = some t } in
                let at1 : At c created s1 = (
                  ground
                      (arith, h.live_held, h.noted, h.live_registered, h.owned, h.closed_released),
                  (e, refl),
                ) in
                Meets-modify _ _ _ _ s (
                  validate_tensor-next fails s1 (Stopped-interrupted c created s1 at1)
                    (Stopped-marked c created s1 at1 refl) a.tensor_report _ done
                    λ r e1 e2.
                      Meets-try_call event_failed a.create_event _ _ _ s1
                        (Stopped-interrupted c created s1 at1)
                        (Stopped-marked c created s1 at1 refl)
                        λ v _.
                          let s2 = record s1 { event = some v } in
                          let at2 : At c created s2 = (
                            ground (
                              arith, h.live_held, h.noted, h.live_registered, h.owned,
                              h.closed_released, e,
                            ),
                            (e, refl),
                          ) in
                          Meets-modify _ _ _ _ s1 (
                            record_and_export_event-next fails s2
                              (Stopped-interrupted c created s2 at2)
                              (Stopped-marked c created s2 at2 refl) none a.export _ done
                              λ b _ e3 _.
                                let s3 = record s2 { event_handle = some b } in
                                let at3 : At c created s3 = (
                                  ground (
                                    arith, h.live_held, h.noted, h.live_registered, h.owned,
                                    h.closed_released, e,
                                  ),
                                  (e, refl),
                                ) in
                                Meets-modify _ _ _ _ s2 (
                                  Meets-try_call ipc_wrapper_failed a.make_wrapper _ _ _ s3
                                    (Stopped-interrupted c created s3 at3)
                                    (Stopped-marked c created s3 at3 refl)
                                    λ w _.
                                      let s4 = record s3 { wrapper = some w } in
                                      let at4 : At c created s4 = (
                                        ground (
                                          arith, h.live_held, h.noted, h.live_registered, h.owned,
                                          h.closed_released, e,
                                        ),
                                        (e, refl),
                                      ) in
                                      Meets-modify _ _ _ _ s3 (
                                        validate_wrapper-next fails s4
                                          (Stopped-interrupted c created s4 at4)
                                          (Stopped-marked c created s4 at4 refl) a.wrapper_report _
                                          done
                                          λ q e4 e5.
                                            let s5 = record s4 { registration_may_exist = true } in
                                            let at5 : At c created s5 = (
                                              ground (
                                                arith, h.live_held, h.noted, h.live_registered,
                                                h.owned, h.closed_released, e,
                                              ),
                                              (e, refl),
                                            ) in
                                            let s6 = held s5 in
                                            let at6 : At c created s6 = (
                                              ground (
                                                arith, h.live_held, h.noted, h.live_registered,
                                                h.owned, h.closed_released, e,
                                              ),
                                              (e, refl),
                                            ) in
                                            Meets-modify _ _ _ _ s4 (
                                              Meets->> _ _ _ _ s5 (
                                                Meets-register registration_failed a.register _ _ _
                                                  s5 (Stopped-interrupted c created s6 at6)
                                                  (Stopped-marked c created s6 at6 refl)
                                                  λ _ e6. Meets-modify _ _ _ _ s6 (record {
                                                    sound = ground arith;
                                                    state_registered = refl;
                                                    same_config = refl;
                                                    owned_tensor = refl;
                                                    tensor_checked = (r, e1, e2);
                                                    wrapper_checked = (q, e4, e5);
                                                    handle_exported = (b, e3, refl);
                                                    registration_made = e6;
                                                  })))))))))
