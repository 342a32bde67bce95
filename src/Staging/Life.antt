-- ===== src/Staging/Life.antt =====
-- The runtimes that calls of staging lead to:
-- src/cacheblend_gpt_oss/vllm_compat/v0_19_1/staging.py.
use cacheblend_gpt_oss.Prelude.{
  ◌≡◌, refl, Value, some, ok, raise, inl, inr, arith, sym, ◌∙◌, subst, Bool-cases,
}
use cacheblend_gpt_oss.Staging.Config.{
  StagingConfig, Failure, base_exception, other_exception, staging_error, Outcome,
  StagingTransferDirection,
}
use cacheblend_gpt_oss.Staging.Steps.{
  StagingState, created, registered, transfer_active, same_state, StagingRuntime, in_state,
}
use cacheblend_gpt_oss.Staging.Runtime.{
  EventAnswers, OpenAnswers, Versions, staging_runtime, begin_transfer, end_transfer, close,
  leased_tensor, open_staging,
}
use cacheblend_gpt_oss.Staging.Triples.{Meets}
use cacheblend_gpt_oss.Staging.Soundness.{IsSound, IsOpened, Stopped, open_staging-Meets}
use cacheblend_gpt_oss.Staging.Leases.{IsLeased, Refused, begin_transfer-Meets, in_state-IsSound}
use cacheblend_gpt_oss.Staging.Refusals.{
  open_staging-refused, begin_transfer-refused, close-refused, leased_tensor-refused,
  leased_tensor-Meets,
}
use cacheblend_gpt_oss.Staging.Release.{
  end_transfer-Meets, same_state-eq, IsRetained, ClosedBy, close-Meets,
}

-- What holds of the runtime that a step leaves, whatever its outcome.
left_behind :
    {A : Type 0} (done : A → StagingRuntime → Type 0) (raised : Failure → StagingRuntime → Type 0)
    (P : StagingRuntime → Type 0) (r : Outcome A × StagingRuntime)
    → Meets done raised r
    → ((a : A) (t : StagingRuntime) → done a t → P t)
    → ((f : Failure) (t : StagingRuntime) → raised f t → P t)
    → P r.1
left_behind done raised P (ok a, t) h d f = d a t h
left_behind done raised P (raise e, t) h d f = f e t h

-- The runtimes that calls lead to from a new one. A transfer ends only after it has begun, and,
-- since every other call is refused meanwhile, it is still running then.
pub data Reached (c : StagingConfig) : StagingRuntime → Type 0 where
  new : (v : Outcome Versions) (s : StagingRuntime) → staging_runtime c v ≡ ok s → Reached c s
  opened : (s : StagingRuntime) (a : OpenAnswers) → Reached c s → Reached c (open_staging a s).1
  begun :
      (s : StagingRuntime) (d : StagingTransferDirection) (offset extent : Value) (a : EventAnswers)
      → Reached c s
      → Reached c (begin_transfer d offset extent a s).1
  ended :
      (s : StagingRuntime) (body sync : Outcome (Unit {0}))
      → Reached c s
      → s.state ≡ transfer_active
      → Reached c (end_transfer body sync s).1
  closed_by :
      (s : StagingRuntime) (answer : Outcome (Unit {0}))
      → Reached c s
      → Reached c (close answer s).1
  read : (s : StagingRuntime) → Reached c s → Reached c (leased_tensor s).1

abbrev pub SoundFor : StagingConfig → StagingRuntime → Type 0
SoundFor c s = IsSound s × (s.config ≡ c)

new-SoundFor :
    (c : StagingConfig) (v : Outcome Versions) (s : StagingRuntime)
    → staging_runtime c v ≡ ok s
    → SoundFor c s
unfolding staging_runtime
new-SoundFor c (raise base_exception) s h = cc
new-SoundFor c (raise other_exception) s h = cc
new-SoundFor c (raise (staging_error code)) s h = cc
new-SoundFor c (ok v) s h = ground arith

Stopped-SoundFor :
    (c : StagingConfig) (x : StagingState) (f : Failure) (t : StagingRuntime)
    → Stopped c x f t
    → SoundFor c t
Stopped-SoundFor c x f t (h, (k, _)) = (h, k)

-- A call in another state than the one that it requires is refused, and one in that state leaves
-- staging sound.
module _ (c : StagingConfig) (s : StagingRuntime) (h : IsSound s) (k : s.config ≡ c) where
  open_staging-SoundFor : (a : OpenAnswers) → SoundFor c (open_staging a s).1
  open_staging-SoundFor a = elim (Bool-cases (same_state s.state created)) [
    | inl e ↦
        subst (λ d. SoundFor d (open_staging a s).1) k
          (left_behind (IsOpened a s.config) (Stopped s.config created) (SoundFor s.config)
            (open_staging a s) (open_staging-Meets a s h (same_state-eq s.state created e))
            (λ _ t o. (o.sound, o.same_config)) (Stopped-SoundFor s.config created))
    | inr e ↦ subst (λ r. SoundFor c r.1) (sym (open_staging-refused s a e)) (h, k)
  ]

  begin_transfer-SoundFor :
      (d : StagingTransferDirection) (offset extent : Value) (a : EventAnswers)
      → SoundFor c (begin_transfer d offset extent a s).1
  begin_transfer-SoundFor d offset extent a = elim (Bool-cases (same_state s.state registered)) [
    | inl e ↦
        let at = same_state-eq s.state registered e in
        left_behind (IsLeased d s) (Refused s registered) (SoundFor c)
          (begin_transfer d offset extent a s) (begin_transfer-Meets d offset extent a s h at)
          (λ l t i.
            subst (SoundFor c) (sym i.active)
              (in_state-IsSound transfer_active s refl h (rw at refl), k))
          λ f t r. elim r [
            | inl (_, same) ↦ subst (SoundFor c) (sym same) (h, k)
            | inr (u, (v, _)) ↦ (u, v ∙ k)
          ]
    | inr e ↦
        subst (λ r. SoundFor c r.1) (sym (begin_transfer-refused s d offset extent a e)) (h, k)
  ]

  end_transfer-SoundFor :
      (body sync : Outcome (Unit {0}))
      → s.state ≡ transfer_active
      → SoundFor c (end_transfer body sync s).1
  end_transfer-SoundFor body sync e =
      left_behind (λ _ t. (t ≡ in_state registered s) × (body ≡ ok tt) × (sync ≡ ok tt))
        (Stopped s.config transfer_active) (SoundFor c) (end_transfer body sync s)
        (end_transfer-Meets body sync s h e)
        (λ _ t i.
          subst (SoundFor c) (sym i.0) (in_state-IsSound registered s refl h (rw e refl), k))
        λ f t (u, (v, _)). (u, v ∙ k)

  close-SoundFor : (answer : Outcome (Unit {0})) → SoundFor c (close answer s).1
  close-SoundFor answer = elim (Bool-cases (same_state s.state transfer_active)) [
    | inl e ↦ subst (λ r. SoundFor c r.1) (sym (close-refused s answer e)) (h, k)
    | inr e ↦
        left_behind (λ _. ClosedBy answer s) (IsRetained answer s) (SoundFor c) (close answer s)
          (close-Meets answer s h e) (λ _ t ((i, (v, _)), _). (i, v ∙ k))
          λ f t r. (r.sound, r.same_config ∙ k)
  ]

  leased_tensor-SoundFor : SoundFor c (leased_tensor s).1
  leased_tensor-SoundFor = elim (Bool-cases (same_state s.state registered)) [
    | inl e ↦
        left_behind (λ t r. (r ≡ s) × (s.tensor ≡ some t)) (λ _ _. ⊥) (SoundFor c) (leased_tensor s)
          (leased_tensor-Meets s h (same_state-eq s.state registered e))
          (λ _ t (u, _). subst (SoundFor c) (sym u) (h, k)) λ f t v. absurd v
    | inr e ↦ subst (λ r. SoundFor c r.1) (sym (leased_tensor-refused s e)) (h, k)
  ]

-- Whatever calls a new runtime gets, failing, refused and interrupted ones included, it stays sound
-- and keeps its configuration: from the request to register on, and until LMCache answers a request
-- to unregister, the tensor and its owners are kept and the registration stays noted; staging that
-- is in use was so requested; and once it is closed, all of it is released and LMCache holds none.
pub Reached-SoundFor : (c : StagingConfig) (s : StagingRuntime) → Reached c s → SoundFor c s
Reached-SoundFor c _ (new v s h) = new-SoundFor c v s h
Reached-SoundFor c _ (opened s a r) =
    let (h, k) = Reached-SoundFor c s r in open_staging-SoundFor c s h k a
Reached-SoundFor c _ (begun s d offset extent a r) =
    let (h, k) = Reached-SoundFor c s r in begin_transfer-SoundFor c s h k d offset extent a
Reached-SoundFor c _ (ended s body sync r e) =
    let (h, k) = Reached-SoundFor c s r in end_transfer-SoundFor c s h k body sync e
Reached-SoundFor c _ (closed_by s answer r) =
    let (h, k) = Reached-SoundFor c s r in close-SoundFor c s h k answer
Reached-SoundFor c _ (read s r) =
    let (h, k) = Reached-SoundFor c s r in leased_tensor-SoundFor c s h k
