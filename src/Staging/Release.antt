-- ===== src/Staging/Release.antt =====
-- The end of a transfer, and the release of staging:
-- src/cacheblend_gpt_oss/vllm_compat/v0_19_1/staging.py.
use cacheblend_gpt_oss.Prelude.{
  ◌≡◌, refl, true, false, ok, raise, ◌⊎◌, inl, inr, arith, ap, sym, ◌∙◌, subst, Bool-cases,
}
use cacheblend_gpt_oss.Staging.Config.{
  StagingConfig, Failure, base_exception, staging_error, Outcome, synchronization_failed,
  unregister_failed,
}
use cacheblend_gpt_oss.Staging.Steps.{
  StagingState, registered, transfer_active, failed, closed, same_state, StagingRuntime, return,
  ◌>>◌, mark_failed, modify, in_state,
}
use cacheblend_gpt_oss.Staging.Runtime.{end_transfer, released, unregister, close, body_error}
use cacheblend_gpt_oss.Staging.Triples.{
  Meets, Meets-bind, Meets->>, Meets-try_call, Meets-unregister,
}
use cacheblend_gpt_oss.Staging.Soundness.{
  IsSound, At, has_owners, is_released, Stopped-marked, failed_marked, Stopped-interrupted, Stopped,
}

-- A transfer ends registered exactly when its body and the synchronization behind it return.
pub end_transfer-Meets :
    (body sync : Outcome (Unit {0})) (s : StagingRuntime)
    → IsSound s
    → s.state ≡ transfer_active
    → Meets
        (λ _ t. (t ≡ in_state registered s) × (body ≡ ok tt) × (sync ≡ ok tt))
        (Stopped s.config transfer_active)
        (end_transfer body sync s)
unfolding end_transfer
end_transfer-Meets (ok u) sync s h e =
    let at : At s.config transfer_active s = (h, (e, refl)) in
    Meets->> _ _ _ _ s (
      Meets-try_call synchronization_failed sync _ _ _ s
        (Stopped-interrupted s.config transfer_active s at)
        (Stopped-marked s.config transfer_active s at refl) λ _ e'. (refl, refl, e'))
end_transfer-Meets (raise f) (raise base_exception) s h e =
    Stopped-interrupted s.config transfer_active s (h, (e, refl))
end_transfer-Meets (raise f) sync s h e =
    failed_marked s.config transfer_active s (h, (e, refl)) refl (body_error f)

-- Staging that LMCache did not unregister, for what it answered: it keeps its owners, what LMCache
-- may hold, and the note of the registration.
pub record IsRetained (answer : Outcome (Unit {0})) (s : StagingRuntime) (f : Failure)
    (t : StagingRuntime) : Type 0 where
  pub sound : IsSound t
  pub refused : (g : Failure) × (answer ≡ raise g)
  pub same_held : t.lmcache_may_hold ≡ s.lmcache_may_hold
  pub may_exist : t.registration_may_exist ≡ true
  pub owned : has_owners t ≡ true
  pub same_tensor : t.tensor ≡ s.tensor
  pub same_wrapper : t.wrapper ≡ s.wrapper
  pub same_config : t.config ≡ s.config
  pub marked : (t.state ≡ failed) ⊎ ((f ≡ base_exception) × (t ≡ s))

IsRetained-marked :
    (answer : Outcome (Unit {0})) (s : StagingRuntime)
    → IsSound s
    → same_state s.state closed ≡ false
    → s.registration_may_exist ≡ true
    → (g : Failure) × (answer ≡ raise g)
    → (f : Failure) → IsRetained answer s f (mark_failed s)
IsRetained-marked answer s h n m r f = rw n (record {
  sound = record {
    live_held = λ e. cc;
    noted = h.noted;
    live_registered = λ e. cc;
    owned = h.owned;
    closed_released = λ e. cc;
  };
  refused = r;
  same_held = refl;
  may_exist = m;
  owned = h.owned m;
  same_tensor = refl;
  same_wrapper = refl;
  same_config = refl;
  marked = inl refl;
})

pub same_state-eq : (x y : StagingState) → same_state x y ≡ true → x ≡ y
same_state-eq x y h = ground arith

abbrev pub IsClosed : StagingConfig → StagingRuntime → Type 0
IsClosed c t = IsSound t × ((t.config ≡ c) × ((t.state ≡ closed) × (is_released t ≡ true)))

released-IsClosed :
    (c : StagingConfig) (s : StagingRuntime)
    → s.config ≡ c
    → s.registration_may_exist ≡ false
    → s.lmcache_may_hold ≡ false
    → IsClosed c (released s)
released-IsClosed c s k m l = (
  record {
    live_held = λ e. cc;
    noted = λ e. absurd (ground arith);
    live_registered = λ e. cc;
    owned = λ e. absurd (ground arith);
    closed_released = λ _. rw (m, l) refl;
  },
  (k, (refl, rw (m, l) refl)),
)

-- Staging is closed, and either nothing was noted as registered or LMCache unregistered it.
abbrev pub ClosedBy : Outcome (Unit {0}) → StagingRuntime → StagingRuntime → Type 0
ClosedBy answer s t = IsClosed s.config t × ((s.registration_may_exist ≡ false) ⊎ (answer ≡ ok tt))

unregister-Meets :
    (answer : Outcome (Unit {0})) (s : StagingRuntime)
    → IsSound s
    → same_state s.state closed ≡ false
    → s.registration_may_exist ≡ true
    → Meets
        (λ _. ClosedBy answer s)
        (IsRetained answer s)
        ((unregister answer >> modify released) s)
unregister-Meets answer s h n m = Meets->> (unregister answer) _ _ _ s (
    Meets-bind (unregister answer) _
      (λ _ t.
        (t.config ≡ s.config)
        × (t.registration_may_exist ≡ false)
        × (t.lmcache_may_hold ≡ false)
        × (answer ≡ ok tt))
      (λ _. ClosedBy answer s) (IsRetained answer s) s
      (Meets->> _ _ _ _ s (
        Meets-unregister unregister_failed answer _ _ _ s
          (λ e. record {
            sound = h;
            refused = (base_exception, e);
            same_held = refl;
            may_exist = m;
            owned = h.owned m;
            same_tensor = refl;
            same_wrapper = refl;
            same_config = refl;
            marked = inr (refl, refl);
          })
          (λ g e code. IsRetained-marked answer s h n m (g, e) (staging_error code))
          λ e. (refl, refl, refl, e)))
      λ _ t (k, gone, given, e). (released-IsClosed s.config t k gone given, inr e))

-- Outside a transfer, closing staging raises only if LMCache refused to unregister it: then the
-- tensor and all its owners are kept, as is the note of the registration, and what LMCache may hold
-- is what it may have held before. Otherwise everything is released, LMCache holds nothing, and
-- either nothing was noted as registered or LMCache unregistered it.
pub close-Meets :
    (answer : Outcome (Unit {0})) (s : StagingRuntime)
    → IsSound s
    → same_state s.state transfer_active ≡ false
    → Meets (λ _. ClosedBy answer s) (IsRetained answer s) (close answer s)
unfolding close
close-Meets answer s h n = elim (Bool-cases (same_state s.state closed)) [
  | inl e ↦
      let gone = h.closed_released e in
      rw (e, Meets) ((h, (refl, (same_state-eq s.state closed e, gone))), inl (ground arith))
  | inr e ↦ elim (Bool-cases s.registration_may_exist) [
    | inl m ↦
        let runs : close answer s ≡ (unregister answer >> modify released) s = rw (e, n, m) refl in
        subst (Meets (λ _. ClosedBy answer s) (IsRetained answer s)) (sym runs)
          (unregister-Meets answer s h e m)
    | inr m ↦
        let runs : close answer s ≡ (return tt >> modify released) s = rw (e, n, m) refl in
        let free : s.lmcache_may_hold ≡ false = ground (arith, h.noted) in
        subst (Meets (λ _. ClosedBy answer s) (IsRetained answer s)) (sym runs) (
          Meets->> (return tt) _ _ _ s (
            Meets-bind (return tt) _ (λ _ t. t ≡ s) (λ _. ClosedBy answer s) (IsRetained answer s) s
              refl
              λ _ t e'. (
                released-IsClosed s.config t (ap (λ r. r.config) e')
                    (ap (λ r. r.registration_may_exist) e' ∙ m)
                    (ap (λ r. r.lmcache_may_hold) e' ∙ free),
                inl m,
              )))
  ]
]
