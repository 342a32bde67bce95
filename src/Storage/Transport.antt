-- ===== src/Storage/Transport.antt =====
-- The configuration of the LMCache transport, the name that it stores under, and the tests of its
-- arguments: src/cacheblend_gpt_oss/storage/lmcache_types.py. SHA-256 is an argument.
use cacheblend_gpt_oss.Prelude.{
  ℕ, ◌+◌, Bool, true, false, not, ◌||◌, List, [], ◌∷◌, ◌++◌, Text, codes, Value, str, bytes, ok,
  raise, ◌>>=◌, ◌>>◌, raise_if, ltb, ◌==◌, length,
}
use cacheblend_gpt_oss.Targets.{pinned_target}
use cacheblend_gpt_oss.Planner.Models.{CacheNamespace}
use cacheblend_gpt_oss.Planner.Fingerprint.{length_prefix, canonical_fields, fields_before, decimal}
use cacheblend_gpt_oss.Staging.Config.{chunk_size}
use cacheblend_gpt_oss.Storage.Types.{
  Wired, configuration_error, LmcacheServerAttestation, validate_attestation, validate_namespace,
  require_plain_int, require_receipt_int, LmcacheStagingLayout, hex,
}

pub data LmcacheTransportState : Type 0 where
  created ready registered failed closed : LmcacheTransportState

-- What the constructor's tests tell of a timeout: a finite positive number, or anything else.
pub data Timeout : Type 0 where
  positive_timeout other_timeout : Timeout

abbrev is_positive : Timeout → Bool
is_positive positive_timeout = true
is_positive other_timeout = false

pub record LmcacheBlendTransportConfig : Type 0 where
  pub namespace : CacheNamespace
  pub server_attestation : LmcacheServerAttestation
  pub world_size : ℕ
  pub worker_id : ℕ
  pub chunk_size : ℕ

-- `LmcacheBlendTransportConfig.__post_init__`
unfoldable pub transport_config :
    CacheNamespace
    → LmcacheServerAttestation
    → Value
    → Value
    → Value
    → Timeout
    → Wired LmcacheBlendTransportConfig
unfolding require_plain_int
transport_config ns attestation world worker size timeout = do
  validate_attestation attestation
  validate_namespace ns
  world' ← require_plain_int world 1
  worker' ← require_plain_int worker 0
  size' ← require_plain_int size 1
  raise_if (not (world' == 1) || not (worker' == 0)) configuration_error
  raise_if (not (size' == chunk_size)) configuration_error
  raise_if (not (is_positive timeout)) configuration_error
  ok (record {
    namespace = ns;
    server_attestation = attestation;
    world_size = world';
    worker_id = worker';
    chunk_size = size';
  })

-- `cacheblend-gpt-oss\x00lmcache-storage-namespace\x00v1\x00`
abbrev pub storage_domain : List ℕ
storage_domain =
    codes "cacheblend-gpt-oss"
    ++ 0 ∷ (codes "lmcache-storage-namespace" ++ 0 ∷ (codes "v1" ++ 0 ∷ []))

-- All that `storage_model_name` feeds to the digest.
unfoldable pub storage_model_input : LmcacheBlendTransportConfig → List ℕ
unfolding fields_before canonical_fields length_prefix decimal
storage_model_input config =
    storage_domain
    ++ fields_before (canonical_fields config.namespace) (
        length_prefix (decimal config.world_size)
        ++ (length_prefix (decimal config.chunk_size)
            ++ (length_prefix config.server_attestation.protocol
                ++ length_prefix config.server_attestation.hash_algorithm)))

-- The property `storage_model_name`.
unfoldable pub storage_model_name : (List ℕ → List ℕ) → LmcacheBlendTransportConfig → Text
unfolding storage_model_input hex
storage_model_name sha256 config =
    pinned_target.model_id ++ (codes "#cacheblend-v1-" ++ hex (sha256 (storage_model_input config)))

-- The property `shape`.
abbrev pub layout_shape : LmcacheStagingLayout → ℕ × (ℕ × (ℕ × ℕ))
layout_shape l = (2, (l.layer_count, (l.token_capacity, l.kv_width)))

-- With the payload as a tuple of anything.
pub record LmcacheStagingRegistration (A : Type 0) : Type 0 where
  pub instance_id : ℕ
  pub kv_cache_payload : List A
  pub layout : LmcacheStagingLayout

unfoldable pub staging_registration :
    {A : Type 0} → Value → List A → LmcacheStagingLayout → Wired (LmcacheStagingRegistration A)
unfolding require_plain_int
staging_registration instance payload layout = do
  instance' ← require_plain_int instance 0
  raise_if (not (length payload == 1)) configuration_error
  ok (record { instance_id = instance'; kv_cache_payload = payload; layout = layout })

pub record LmcacheRetrieveReceipt : Type 0 where
  pub retrieved_tokens : ℕ
  pub retrieved_chunks : ℕ

unfoldable pub retrieve_receipt : Value → Value → Wired LmcacheRetrieveReceipt
unfolding require_receipt_int
retrieve_receipt tokens chunks = do
  tokens' ← require_receipt_int tokens
  chunks' ← require_receipt_int chunks
  ok (record { retrieved_tokens = tokens'; retrieved_chunks = chunks' })

abbrev pub max_request_id_bytes : ℕ
max_request_id_bytes = 256

unfoldable pub validate_request_id : Value → Wired (Unit {0})
validate_request_id (str t) = do
  raise_if (length t == 0) configuration_error
  raise_if (ltb max_request_id_bytes (length t)) configuration_error
validate_request_id _ = raise configuration_error

abbrev pub max_event_handle_bytes : ℕ
max_event_handle_bytes = 16384

unfoldable pub validate_event_handle : Value → Wired (Unit {0})
validate_event_handle (bytes b) = do
  raise_if (length b == 0) configuration_error
  raise_if (ltb max_event_handle_bytes (length b)) configuration_error
validate_event_handle _ = raise configuration_error

unfoldable pub validate_buffer_range : Value → Value → Value → Wired (Unit {0})
unfolding require_plain_int
validate_buffer_range start length capacity = do
  start' ← require_plain_int start 0
  length' ← require_plain_int length 0
  capacity' ← require_plain_int capacity 0
  raise_if (ltb capacity' (start' + length')) configuration_error
