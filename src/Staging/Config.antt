-- ===== src/Staging/Config.antt =====
-- The configuration and the leases of staging: src/cacheblend_gpt_oss/vllm_compat/v0_19_1/staging.py,
-- and `validate_event_handle` of src/cacheblend_gpt_oss/storage/lmcache_types.py. A device name is the
-- list of its code points. What `isdigit` and `int` make of a character beyond ASCII stands outside:
-- `foreign` tells a digit without a decimal value from one that has it.
use cacheblend_gpt_oss.Prelude.{
  ℕ, zero, suc, ◌+◌, ◌-◌, ◌*◌, ◌/◌, ◌%◌, pos, Bool, true, false, not, ◌||◌, List, [], ◌∷◌, Text,
  codes, Value, int, str, bytes, Option, none, some, Result, ok, raise, ◌>>=◌, ◌>>◌, raise_if, ltb,
  leb, ◌==◌, length, any, if◌then◌else◌, member,
}
use cacheblend_gpt_oss.Planner.Models.{tokens_discrete}
use cacheblend_gpt_oss.Layout.Names.{behind}
use cacheblend_gpt_oss.Layout.Scatter.{max_context_tokens}

pub data StagingErrorCode : Type 0 where
  invalid_config invalid_state dependency_missing torch_version_mismatch : StagingErrorCode
  lmcache_version_mismatch cuda_version_mismatch cuda_device_unavailable gpu_mismatch :
      StagingErrorCode
  allocation_failed invalid_tensor event_failed ipc_wrapper_failed : StagingErrorCode
  registration_failed synchronization_failed transfer_failed unregister_failed : StagingErrorCode

-- What a call can raise: a `StagingError`, another `Exception`, or a `BaseException` that is none,
-- such as an interrupt.
pub data Failure : Type 0 where
  staging_error : StagingErrorCode → Failure
  other_exception base_exception : Failure

abbrev pub Outcome {ℓ} : Type ℓ → Type ℓ
Outcome = Result Failure

-- The source's `_fail`, under a test.
abbrev pub fail_if : Bool → StagingErrorCode → Outcome (Unit {0})
fail_if b code = raise_if b (staging_error code)

abbrev pub chunk_size : ℕ
chunk_size = 256

abbrev pub max_event_handle_bytes : ℕ
max_event_handle_bytes = 16384

unfoldable pub require_plain_int : ℕ → Value → Outcome ℕ
require_plain_int minimum (int (pos n)) = do fail_if (ltb n minimum) invalid_config; ok n
require_plain_int minimum _ = raise (staging_error invalid_config)

-- `str(n)`: the digits of a number, the last ones first; it has at most as many as its fuel.
abbrev pub digits_down : ℕ → ℕ → Text
digits_down zero n = []
digits_down (suc fuel) n =
    let rest = digits_down fuel (n / 10) in (48 + n % 10) ∷ (if ltb n 10 then [] else rest)

abbrev pub flip_onto : Text → Text → Text
flip_onto [] out = out
flip_onto (c ∷ cs) out = flip_onto cs (c ∷ out)

abbrev pub decimal_text : ℕ → ℕ → Text
decimal_text fuel n = flip_onto (digits_down fuel n) []

abbrev pub cuda_prefix : Text
cuda_prefix = codes "cuda:"

abbrev pub max_suffix : ℕ
max_suffix = 6

module _ (foreign : ℕ → Option (Option ℕ)) where
  -- No digit, a digit without a decimal value, or one with it.
  unfoldable pub digit_of : ℕ → Option (Option ℕ)
  digit_of c =
      if ltb c 48
      then none
      else if leb c 57
      then some (some (c - 48))
      else if ltb c 128
      then none
      else foreign c

  abbrev pub is_digit : ℕ → Bool
  is_digit c = elim (digit_of c) [ none ↦ false | some v ↦ true ]

  -- `int(suffix)`, for a suffix of digits; a digit without a decimal value is a `ValueError`.
  unfoldable pub int_of : ℕ → Text → Outcome ℕ
  unfolding digit_of
  int_of acc [] = ok acc
  int_of acc (c ∷ cs) = elim (digit_of c) [
    | some (some v) ↦ int_of (acc * 10 + v) cs
    | _ ↦ raise other_exception
  ]

  unfoldable pub parse_suffix : Text → Outcome ℕ
  unfolding int_of
  parse_suffix suffix = do
    fail_if (length suffix == 0 || any (λ c. not (is_digit c)) suffix) invalid_config
    fail_if (ltb max_suffix (length suffix)) invalid_config
    n ← int_of 0 suffix
    fail_if (not (member tokens_discrete (decimal_text (suc max_suffix) n) (suffix ∷ [])))
        invalid_config
    ok n

  unfoldable pub parse_indexed_cuda_device : Value → Outcome ℕ
  unfolding parse_suffix
  parse_indexed_cuda_device (str device) = elim (behind cuda_prefix device) [
    | none ↦ raise (staging_error invalid_config)
    | some suffix ↦ parse_suffix suffix
  ]
  parse_indexed_cuda_device _ = raise (staging_error invalid_config)

pub record StagingConfig : Type 0 where
  pub instance_id : ℕ
  pub token_capacity : ℕ
  pub device : Text

abbrev pub text_of : Value → Text
text_of (str t) = t
text_of _ = []

unfoldable pub staging_config :
    (ℕ → Option (Option ℕ)) → Value → Value → Value → Outcome StagingConfig
unfolding require_plain_int parse_indexed_cuda_device
staging_config foreign instance capacity device = do
  instance' ← require_plain_int 0 instance
  capacity' ← require_plain_int chunk_size capacity
  fail_if (not (capacity' % chunk_size == 0)) invalid_config
  fail_if (ltb max_context_tokens capacity') invalid_config
  index ← parse_indexed_cuda_device foreign device
  ok (record { instance_id = instance'; token_capacity = capacity'; device = text_of device })

abbrev pub staging_shape : StagingConfig → List ℕ
staging_shape c = 2 ∷ 24 ∷ c.token_capacity ∷ 512 ∷ []

abbrev pub staging_dtype : Text
staging_dtype = codes "torch.bfloat16"

-- The loop over the reversed shape, and what it has collected.
abbrev pub strides : ℕ → List ℕ → List ℕ → List ℕ
strides stride [] out = out
strides stride (d ∷ ds) out = strides (stride * d) ds (stride ∷ out)

abbrev pub contiguous_stride : List ℕ → List ℕ
contiguous_stride shape = strides 1 (flip_onto shape []) []

pub data StagingTransferDirection : Type 0 where
  store retrieve : StagingTransferDirection

abbrev pub is_store : StagingTransferDirection → Bool
is_store store = true
is_store retrieve = false

-- A `LmcacheConfigurationError` is no `StagingError`.
unfoldable pub validate_event_handle : Value → Outcome (List ℕ)
validate_event_handle (bytes b) = do
  raise_if (length b == 0) other_exception
  raise_if (ltb max_event_handle_bytes (length b)) other_exception
  ok b
validate_event_handle _ = raise other_exception

pub record StagingTransferLease : Type 0 where
  pub direction : StagingTransferDirection
  pub buffer_offset : ℕ
  pub token_extent : ℕ
  pub capacity : ℕ
  pub event_ipc_handle : List ℕ

unfoldable pub staging_transfer_lease :
    StagingTransferDirection → Value → Value → Value → Value → Outcome StagingTransferLease
unfolding require_plain_int validate_event_handle
staging_transfer_lease direction offset extent capacity handle = do
  offset' ← require_plain_int 0 offset
  extent' ← require_plain_int 1 extent
  capacity' ← require_plain_int 1 capacity
  fail_if (ltb capacity' (offset' + extent')) invalid_config
  handle' ← validate_event_handle handle
  ok (record {
    direction = direction;
    buffer_offset = offset';
    token_extent = extent';
    capacity = capacity';
    event_ipc_handle = handle';
  })

abbrev pub end_offset : StagingTransferLease → ℕ
end_offset l = l.buffer_offset + l.token_extent

unfoldable pub staging_position : StagingTransferLease → Value → Outcome ℕ
unfolding require_plain_int
staging_position l position = do
  p ← require_plain_int 0 position
  fail_if (leb l.token_extent p) invalid_config
  ok (l.buffer_offset + p)
