-- ===== src/Staging/Steps.antt =====
-- The runtime that owns the staging tensor, and the steps its methods are made of: each takes the
-- runtime and leaves a result beside the runtime behind it.
-- src/cacheblend_gpt_oss/vllm_compat/v0_19_1/staging.py.
use cacheblend_gpt_oss.Prelude.{ℕ, Bool, true, false, List, Option, ok, raise, if◌then◌else◌}
use cacheblend_gpt_oss.Staging.Config.{
  StagingConfig, StagingErrorCode, invalid_state, staging_error, base_exception, other_exception,
  Outcome,
}

pub data StagingState : Type 0 where
  created registered transfer_active failed closed : StagingState

abbrev pub same_state : StagingState → StagingState → Bool
same_state created created = true
same_state registered registered = true
same_state transfer_active transfer_active = true
same_state failed failed = true
same_state closed closed = true
same_state _ _ = false

-- Tensors, wrappers and events stand for themselves, by their identity. The last field is no
-- attribute of the class but LMCache's side, which the class cannot see: whether LMCache was asked to
-- register the staging buffer and has not answered a request to unregister it since. Only the two
-- calls of the transport, `register_staging` and `unregister_staging`, change it.
pub record StagingRuntime : Type 0 where
  pub config : StagingConfig
  pub state : StagingState
  pub tensor : Option ℕ
  pub wrapper : Option ℕ
  pub event : Option ℕ
  pub event_handle : Option (List ℕ)
  pub registration_may_exist : Bool
  pub lmcache_may_hold : Bool

abbrev pub Step {ℓ} : Type ℓ → Type ℓ
Step A = StagingRuntime → Outcome A × StagingRuntime

abbrev pub return {ℓ} : {A : Type ℓ} → A → Step A
return a s = (ok a, s)

infixl 5 ◌>>=◌ ◌>>◌
unfoldable pub ◌>>=◌ {ℓ κ} : {A : Type ℓ} {B : Type κ} → Step A → (A → Step B) → Step B
◌>>=◌ m f s = elim (m s).0 [ ok a ↦ f a (m s).1 | raise e ↦ (raise e, (m s).1) ]

unfoldable pub ◌>>◌ {κ} : {B : Type κ} → Step (Unit {0}) → Step B → Step B
m >> k = m >>= λ _. k

-- `_mark_failed`
abbrev pub mark_failed : StagingRuntime → StagingRuntime
mark_failed s = if same_state s.state closed then s else record s { state = failed }

abbrev pub require_state : StagingState → Step (Unit {0})
require_state expected s =
    if same_state s.state expected then (ok tt, s) else (raise (staging_error invalid_state), s)

-- A constructor or test outside every `try`.
abbrev pub checked {ℓ} : {A : Type ℓ} → Outcome A → Step A
checked o s = (o, s)

-- A call under `except Exception`, which marks the runtime as failed and raises the code instead.
abbrev pub try_call {ℓ} : {A : Type ℓ} → StagingErrorCode → Outcome A → Step A
try_call code (ok a) s = (ok a, s)
try_call code (raise base_exception) s = (raise base_exception, s)
try_call code (raise other_exception) s = (raise (staging_error code), mark_failed s)
try_call code (raise (staging_error c)) s = (raise (staging_error code), mark_failed s)

-- The same, around a call that has an effect.
abbrev pub try_step {ℓ} : {A : Type ℓ} → StagingErrorCode → Step A → Step A
try_step code m s = try_call code (m s).0 (m s).1

-- `register_staging_buffer` of the transport: LMCache may hold the buffer from the request on, also
-- if the call raises.
abbrev pub register_staging : Outcome (Unit {0}) → Step (Unit {0})
register_staging answer s = (answer, record s { lmcache_may_hold = true })

-- `unregister_staging_buffer` of the transport: LMCache gave the buffer up when the call returns.
abbrev pub unregister_staging : Outcome (Unit {0}) → Step (Unit {0})
unregister_staging (ok _) s = (ok tt, record s { lmcache_may_hold = false })
unregister_staging (raise e) s = (raise e, s)

-- The same, with `except StagingError` before it, which raises the error on.
abbrev pub try_staging {ℓ} : {A : Type ℓ} → StagingErrorCode → Outcome A → Step A
try_staging code (ok a) s = (ok a, s)
try_staging code (raise base_exception) s = (raise base_exception, s)
try_staging code (raise other_exception) s = (raise (staging_error code), mark_failed s)
try_staging code (raise (staging_error c)) s = (raise (staging_error c), mark_failed s)

-- A test that marks the runtime as failed before it raises.
abbrev pub refuse_if : Bool → StagingErrorCode → Step (Unit {0})
refuse_if true code s = (raise (staging_error code), mark_failed s)
refuse_if false code s = (ok tt, s)

abbrev pub modify : (StagingRuntime → StagingRuntime) → Step (Unit {0})
modify f s = (ok tt, f s)

abbrev pub get : Step StagingRuntime
get s = (ok s, s)

abbrev pub in_state : StagingState → StagingRuntime → StagingRuntime
in_state x s = record s { state = x }
