-- ===== src/Staging/Refusals.antt =====
-- Calls of staging in a state that they do not allow, and reads of its tensor:
-- src/cacheblend_gpt_oss/vllm_compat/v0_19_1/staging.py.
use cacheblend_gpt_oss.Prelude.{
  ℕ, ◌≡◌, refl, true, false, Value, some, ok, raise, inl, inr, arith, sym, subst, Option-cases,
}
use cacheblend_gpt_oss.Staging.Config.{
  staging_error, Outcome, invalid_state, StagingTransferDirection,
}
use cacheblend_gpt_oss.Staging.Steps.{
  created, registered, transfer_active, closed, same_state, StagingRuntime, ◌>>=◌, ◌>>◌,
}
use cacheblend_gpt_oss.Staging.Runtime.{
  EventAnswers, OpenAnswers, begin_transfer, close, leased_tensor, open_staging,
}
use cacheblend_gpt_oss.Staging.Triples.{Meets, require_state-refused}
use cacheblend_gpt_oss.Staging.Soundness.{IsSound, has_owners, is_live}

-- A method that requires another state is refused, and leaves staging as it is.
pub open_staging-refused :
    (s : StagingRuntime) (a : OpenAnswers)
    → same_state s.state created ≡ false
    → open_staging a s ≡ (raise (staging_error invalid_state), s)
unfolding open_staging
open_staging-refused s a e = require_state-refused created _ s e

pub begin_transfer-refused :
    (s : StagingRuntime) (d : StagingTransferDirection) (offset extent : Value) (v : EventAnswers)
    → same_state s.state registered ≡ false
    → begin_transfer d offset extent v s ≡ (raise (staging_error invalid_state), s)
unfolding begin_transfer
begin_transfer-refused s d offset extent v e = require_state-refused registered _ s e

pub close-refused :
    (s : StagingRuntime) (answer : Outcome (Unit {0}))
    → same_state s.state transfer_active ≡ true
    → close answer s ≡ (raise (staging_error invalid_state), s)
unfolding close
close-refused s answer e =
    let c : same_state s.state closed ≡ false = ground arith in rw (c, e) refl

pub leased_tensor-refused :
    (s : StagingRuntime)
    → same_state s.state registered ≡ false
    → leased_tensor s ≡ (raise (staging_error invalid_state), s)
unfolding leased_tensor
leased_tensor-refused s e = require_state-refused registered _ s e

tensor_given :
    (s : StagingRuntime) (t : ℕ)
    → s.state ≡ registered
    → s.tensor ≡ some t
    → leased_tensor s ≡ (ok t, s)
unfolding leased_tensor ◌>>=◌ ◌>>◌
tensor_given s t e n = ground arith

-- Registered staging always has its tensor to give.
pub leased_tensor-Meets :
    (s : StagingRuntime)
    → IsSound s
    → s.state ≡ registered
    → Meets (λ t r. (r ≡ s) × (s.tensor ≡ some t)) (λ _ _. ⊥) (leased_tensor s)
leased_tensor-Meets s h e =
    let live : is_live s.state ≡ true = rw e refl in
    let owners : has_owners s ≡ true = h.owned (h.live_registered live) in
    elim (Option-cases s.tensor) [
      | inl n ↦ absurd (ground arith)
      | inr (t, n) ↦
          subst (Meets (λ t r. (r ≡ s) × (s.tensor ≡ some t)) (λ _ _. ⊥))
            (sym (tensor_given s t e n)) (refl, n)
    ]

-- While a transfer runs, every other method is refused and leaves staging as it is.
pub active_refused :
    (s : StagingRuntime) (a : OpenAnswers) (d : StagingTransferDirection) (offset extent : Value)
    (v : EventAnswers) (answer : Outcome (Unit {0}))
    → s.state ≡ transfer_active
    → (open_staging a s ≡ (raise (staging_error invalid_state), s))
      × (begin_transfer d offset extent v s ≡ (raise (staging_error invalid_state), s))
      × (close answer s ≡ (raise (staging_error invalid_state), s))
      × (leased_tensor s ≡ (raise (staging_error invalid_state), s))
active_refused s a d offset extent v answer e = (
  open_staging-refused s a (rw e refl),
  begin_transfer-refused s d offset extent v (rw e refl),
  close-refused s answer (rw e refl),
  leased_tensor-refused s (rw e refl),
)
