-- ===== src/Staging/Runtime.antt =====
-- The methods of `StagingRuntime`: src/cacheblend_gpt_oss/vllm_compat/v0_19_1/staging.py. What the
-- backend and the transport answer to a method's calls are its arguments.
use cacheblend_gpt_oss.Prelude.{
  ℕ, ◌+◌, ◌%◌, pos, Bool, true, false, not, ◌&&◌, ◌||◌, List, [], ◌∷◌, length, Text, Value, bool,
  int, nat, bytes, Option, none, some, ok, raise, ltb, ◌==◌, if◌then◌else◌, member,
}
use cacheblend_gpt_oss.Targets.{pinned_target}
use cacheblend_gpt_oss.Planner.Models.{tokens_discrete}
use cacheblend_gpt_oss.Staging.Config.{
  StagingConfig, Outcome, Failure, staging_error, base_exception, invalid_config, invalid_state,
  cuda_device_unavailable, allocation_failed, invalid_tensor, event_failed, ipc_wrapper_failed,
  registration_failed, synchronization_failed, transfer_failed, unregister_failed,
  dependency_missing, torch_version_mismatch, cuda_version_mismatch, lmcache_version_mismatch,
  chunk_size, require_plain_int, staging_shape, staging_dtype, contiguous_stride,
  validate_event_handle, StagingTransferDirection, is_store, StagingTransferLease,
  staging_transfer_lease, fail_if,
}
use cacheblend_gpt_oss.Staging.Steps.{
  created, registered, transfer_active, closed, same_state, StagingRuntime, Step, return, ◌>>=◌,
  ◌>>◌, mark_failed, require_state, checked, try_call, try_step, try_staging, register_staging,
  unregister_staging, refuse_if, modify, get, in_state,
}

-- Equality of two texts or shapes.
abbrev pub same_list : List ℕ → List ℕ → Bool
same_list xs ys = member tokens_discrete xs (ys ∷ [])

-- `isinstance(offset, bool) or not isinstance(offset, int) or offset != 0`
abbrev pub nonzero_offset : Value → Bool
nonzero_offset (int (pos n)) = not (n == 0)
nonzero_offset _ = true

abbrev pub is_true : Value → Bool
is_true (bool b) = b
is_true _ = false

pub record Versions : Type 0 where
  pub torch_version : Text
  pub cuda_runtime : Text
  pub lmcache_version : Text

-- The constructor, which ends with `_validate_versions`.
unfoldable pub staging_runtime : StagingConfig → Outcome Versions → Outcome StagingRuntime
staging_runtime config (raise base_exception) = raise base_exception
staging_runtime config (raise _) = raise (staging_error dependency_missing)
staging_runtime config (ok v) =
    if not (same_list v.torch_version pinned_target.torch_version)
    then raise (staging_error torch_version_mismatch)
    else if not (same_list v.cuda_runtime pinned_target.cuda_runtime)
    then raise (staging_error cuda_version_mismatch)
    else if not (same_list v.lmcache_version pinned_target.lmcache_version)
    then raise (staging_error lmcache_version_mismatch)
    else ok (record {
      config = config;
      state = created;
      tensor = none;
      wrapper = none;
      event = none;
      event_handle = none;
      registration_may_exist = false;
      lmcache_may_hold = false;
    })

-- What the backend tells of a tensor, or the first failure.
pub record TensorReport : Type 0 where
  pub shape : List ℕ
  pub dtype_name : Text
  pub device_name : Text
  pub contiguous : Value
  pub storage_offset : Value

pub record WrapperReport : Type 0 where
  pub shape : List ℕ
  pub dtype_name : Text
  pub storage_offset : Value
  pub stride : List ℕ
  pub device_uuid : Text
  pub expected_device_uuid : Text
  pub has_handle : Value

abbrev pub bad_tensor : StagingConfig → TensorReport → Bool
bad_tensor c r =
    not (same_list r.shape (staging_shape c))
    || (not (same_list r.dtype_name staging_dtype)
        || (not (same_list r.device_name c.device)
            || (not (is_true r.contiguous) || nonzero_offset r.storage_offset)))

abbrev pub bad_wrapper : StagingConfig → WrapperReport → Bool
bad_wrapper c r =
    not (same_list r.shape (staging_shape c))
    || (not (same_list r.dtype_name staging_dtype)
        || (nonzero_offset r.storage_offset
            || (not (same_list r.stride (contiguous_stride (staging_shape c)))
                || (length r.device_uuid == 0
                    || (not (same_list r.device_uuid r.expected_device_uuid)
                        || not (is_true r.has_handle))))))

-- The answers to one synchronization of the device, and to one recording and export of the event.
pub record EventAnswers : Type 0 where
  pub synchronize_device : Outcome (Unit {0})
  pub record_event : Outcome (Unit {0})
  pub synchronize_event : Outcome (Unit {0})
  pub event_ipc_handle : Outcome Value

pub record OpenAnswers : Type 0 where
  pub validate_device : Outcome (Unit {0})
  pub allocate : Outcome ℕ
  pub tensor_report : Outcome TensorReport
  pub create_event : Outcome ℕ
  pub export : EventAnswers
  pub make_wrapper : Outcome ℕ
  pub wrapper_report : Outcome WrapperReport
  pub register : Outcome (Unit {0})

abbrev pub chain {ℓ κ} : {A : Type ℓ} {B : Type κ} → Outcome A → (A → Outcome B) → Outcome B
chain (ok a) f = f a
chain (raise e) f = raise e

-- The body of the `try` of `_record_and_export_event`.
abbrev pub exported : EventAnswers → Outcome (List ℕ)
exported a =
    chain a.record_event
      λ _. chain a.synchronize_event λ _. chain a.event_ipc_handle validate_event_handle

-- `expected_handle is not None and handle != expected_handle`
abbrev pub handle_changed : Option (List ℕ) → List ℕ → Bool
handle_changed none handle = false
handle_changed (some expected) handle = not (same_list handle expected)

abbrev pub is_none {ℓ} : {A : Type ℓ} → Option A → Bool
is_none none = true
is_none (some a) = false

-- `_record_and_export_event`. The failures of `_synchronize_device` have its code.
unfoldable pub record_and_export_event : Option (List ℕ) → EventAnswers → Step (List ℕ)
record_and_export_event expected a = do
  s ← get
  refuse_if (is_none s.event) event_failed
  try_call synchronization_failed a.synchronize_device
  handle ← try_call event_failed (exported a)
  refuse_if (handle_changed expected handle) event_failed
  return handle

unfoldable pub validate_tensor : Outcome TensorReport → Step (Unit {0})
validate_tensor report = do
  s ← get
  r ← try_call invalid_tensor report
  refuse_if (bad_tensor s.config r) invalid_tensor

unfoldable pub validate_wrapper : Outcome WrapperReport → Step (Unit {0})
validate_wrapper report = do
  s ← get
  r ← try_call ipc_wrapper_failed report
  refuse_if (bad_wrapper s.config r) ipc_wrapper_failed

-- `open`; the layout and the registration that it builds of a configuration pass their own tests.
unfoldable pub open_staging : OpenAnswers → Step ℕ
unfolding record_and_export_event validate_tensor validate_wrapper
open_staging a = do
  require_state created
  try_staging cuda_device_unavailable a.validate_device
  tensor ← try_call allocation_failed a.allocate
  modify (λ s. record s { tensor = some tensor })
  validate_tensor a.tensor_report
  event ← try_call event_failed a.create_event
  modify (λ s. record s { event = some event })
  handle ← record_and_export_event none a.export
  modify (λ s. record s { event_handle = some handle })
  wrapper ← try_call ipc_wrapper_failed a.make_wrapper
  modify (λ s. record s { wrapper = some wrapper })
  validate_wrapper a.wrapper_report
  modify (λ s. record s { registration_may_exist = true })
  try_step registration_failed (register_staging a.register)
  modify (in_state registered)
  return tensor

-- `synchronous_transfer` up to its `yield`.
unfoldable pub begin_transfer :
    StagingTransferDirection → Value → Value → EventAnswers → Step StagingTransferLease
unfolding record_and_export_event
begin_transfer direction offset extent a = do
  require_state registered
  offset' ← checked (require_plain_int 0 offset)
  extent' ← checked (require_plain_int 1 extent)
  s ← get
  checked (fail_if (ltb s.config.token_capacity (offset' + extent')) invalid_config)
  checked (fail_if (is_store direction && not (extent' % chunk_size == 0)) invalid_config)
  handle ← record_and_export_event s.event_handle a
  lease ← checked (
      staging_transfer_lease direction (nat offset') (nat extent') (nat s.config.token_capacity)
        (bytes handle))
  modify (in_state transfer_active)
  return lease

abbrev pub body_error : Failure → Failure
body_error base_exception = base_exception
body_error _ = staging_error transfer_failed

-- What follows the `yield`, for what the body raised, if anything, and the answer to the
-- synchronization: a failed one is ignored behind an exception, unless it is an interrupt itself.
unfoldable pub end_transfer : Outcome (Unit {0}) → Outcome (Unit {0}) → Step (Unit {0})
end_transfer (ok _) sync = do try_call synchronization_failed sync; modify (in_state registered)
end_transfer (raise e) (raise base_exception) = λ s. (raise base_exception, s)
end_transfer (raise e) sync = λ s. (raise (body_error e), mark_failed s)

abbrev pub released : StagingRuntime → StagingRuntime
released s = record s {
  tensor = none;
  wrapper = none;
  event = none;
  event_handle = none;
  state = closed;
}

abbrev pub unregister : Outcome (Unit {0}) → Step (Unit {0})
unregister answer = do
  try_step unregister_failed (unregister_staging answer)
  modify (λ s. record s { registration_may_exist = false })

unfoldable pub close : Outcome (Unit {0}) → Step (Unit {0})
close answer s =
    if same_state s.state closed
    then (ok tt, s)
    else if same_state s.state transfer_active
    then (raise (staging_error invalid_state), s)
    else ((if s.registration_may_exist then unregister answer else return tt) >> modify released) s

-- The property `tensor`.
unfoldable pub leased_tensor : Step ℕ
leased_tensor = do
  require_state registered
  s ← get
  refuse_if (is_none s.tensor) invalid_state
  elim s.tensor [ some t ↦ return t | none ↦ λ r. (raise (staging_error invalid_state), r) ]
