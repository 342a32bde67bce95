-- ===== src/Storage/Sidecar.antt =====
-- The rows of the persistent index of exact tokens: src/cacheblend_gpt_oss/storage/sidecar.py. SHA-256
-- is an argument, and so is SQLite: what a SELECT answers. A row's columns are dynamic values.
pub mod Rows
pub mod Codec
pub mod RoundTrip
pub mod Reading
pub mod Writing
pub mod Batches
use cacheblend_gpt_oss.Prelude.{
  ℕ, ◌+◌, ◌*◌, ◌/◌, ◌%◌, pos, Bool, false, not, ◌||◌, List, [], ◌∷◌, ◌++◌, take, drop, Text, codes,
  nats, Result, ok, raise, ◌>>=◌, ◌>>◌, raise_if, ltb, ◌==◌, ℤ, length, elem, if◌then◌else◌,
}
use cacheblend_gpt_oss.Planner.Models.{
  Checked, CacheNamespace, SegmentFingerprint, CacheRecord, normalize_token_ids, range_len,
}
use cacheblend_gpt_oss.Planner.Fingerprint.{pack_u64, pack_all, canonical_fields}
use cacheblend_gpt_oss.Storage.Types.{same_text}

pub data SidecarErrorCode : Type 0 where
  invalid_mode invalid_path database_not_found open_failed closed_index write_forbidden :
      SidecarErrorCode
  invalid_namespace invalid_fingerprint invalid_record schema_mismatch database_corrupt :
      SidecarErrorCode
  record_corrupt checksum_collision collision_bucket_limit sqlite_operation_failed :
      SidecarErrorCode

-- The subclasses of `SidecarError`, each with its code.
pub data SidecarError : Type 0 where
  configuration mode_error closed_error schema_error corruption operation_failed :
      SidecarErrorCode → SidecarError

abbrev pub Kept {ℓ} : Type ℓ → Type ℓ
Kept = Result SidecarError

abbrev pub max_namespace_bytes : ℕ
max_namespace_bytes = 1024

abbrev pub max_cache_key_bytes : ℕ
max_cache_key_bytes = 2048

abbrev pub max_tokens_per_record : ℕ
max_tokens_per_record = 131072

abbrev pub max_token_position : ℕ
max_token_position = 131072

abbrev pub max_bucket_records : ℕ
max_bucket_records = 1024

abbrev pub max_schema_version : ℕ
max_schema_version = 2147483647

-- `_bounded_text`, with the code that its caller gives the error.
unfoldable pub bounded_text : SidecarErrorCode → ℕ → Text → Kept (Unit {0})
bounded_text code maximum t = do
  raise_if (length t == 0) (configuration code)
  raise_if (elem 0 t) (configuration code)
  raise_if (ltb maximum (length t)) (configuration code)

abbrev pub schema_version_name : Text
schema_version_name = codes "schema_version"

-- The loop over the canonical fields.
unfoldable pub check_texts : List (Text × Text) → Kept (Unit {0})
unfolding bounded_text
check_texts [] = ok tt
check_texts ((name, value) ∷ fields) = do
  (if same_text name schema_version_name
      then ok tt
      else bounded_text invalid_namespace max_namespace_bytes value)
  check_texts fields

-- `_validate_namespace`; the canonical fields have the expected names by their definition.
unfoldable pub check_namespace : CacheNamespace → Kept (Unit {0})
unfolding check_texts canonical_fields
check_namespace ns = do
  raise_if (ns.schema_version == 0) (configuration invalid_namespace)
  raise_if (ltb max_schema_version ns.schema_version) (configuration invalid_namespace)
  check_texts (canonical_fields ns)

-- `_validate_fingerprint`
unfoldable pub check_fingerprint : SegmentFingerprint → Kept (Unit {0})
check_fingerprint fp = do
  raise_if (not (length fp.digest == 32)) (configuration invalid_fingerprint)

abbrev pub normal_tokens : Checked (List ℕ) → Kept (List ℕ)
normal_tokens (ok ids) = ok ids
normal_tokens (raise e) = raise (configuration invalid_record)

-- `_validate_record`
unfoldable pub check_record : CacheRecord → Kept (Unit {0})
unfolding check_namespace check_fingerprint bounded_text
check_record r = do
  check_namespace r.namespace
  check_fingerprint r.fingerprint
  bounded_text invalid_record max_cache_key_bytes r.cache_key
  ids ← normal_tokens (normalize_token_ids (nats r.token_ids))
  raise_if (length ids == 0) (configuration invalid_record)
  raise_if (ltb max_tokens_per_record (length ids)) (configuration invalid_record)
  raise_if (ltb max_token_position r.source_range.end) (configuration invalid_record)
  raise_if (not (range_len r.source_range == length ids)) (configuration invalid_record)

-- `struct.pack(">I", n)`
unfoldable pub pack_u32 : ℕ → List ℕ
pack_u32 n = (n / 16777216 % 256) ∷ (n / 65536 % 256) ∷ (n / 256 % 256) ∷ (n % 256) ∷ []

-- `_update_field`
unfoldable pub field_bytes : Text → List ℕ → List ℕ
unfolding pack_u32 pack_u64
field_bytes name value = pack_u32 (length name) ++ (name ++ (pack_u64 (length value) ++ value))

-- The updates of a loop over fields.
unfoldable pub fields_bytes : List (Text × Text) → List ℕ
unfolding field_bytes
fields_bytes [] = []
fields_bytes ((name, value) ∷ fields) = field_bytes name value ++ fields_bytes fields

abbrev pub namespace_key_domain : List ℕ
namespace_key_domain =
    codes "cacheblend-gpt-oss" ++ 0 ∷ (codes "sidecar-namespace" ++ 0 ∷ (codes "v1" ++ 0 ∷ []))

abbrev pub record_checksum_domain : List ℕ
record_checksum_domain =
    codes "cacheblend-gpt-oss" ++ 0 ∷ (codes "sidecar-record" ++ 0 ∷ (codes "v1" ++ 0 ∷ []))

abbrev pub token_blob_magic : List ℕ
token_blob_magic = codes "CBT1"

-- `_encode_token_ids`
unfoldable pub encode_token_ids : List ℕ → List ℕ
unfolding pack_u64 pack_all
encode_token_ids ids = token_blob_magic ++ (pack_u64 (length ids) ++ pack_all ids)

-- `struct.unpack(">Q", value)` of eight bytes, and `struct.iter_unpack` of as many as come in eights.
unfoldable pub unpack_u64 : List ℕ → ℕ
unpack_u64 (a ∷ b ∷ c ∷ d ∷ e ∷ f ∷ g ∷ h ∷ r) =
    ((((((a * 256 + b) * 256 + c) * 256 + d) * 256 + e) * 256 + f) * 256 + g) * 256 + h
unpack_u64 _ = 0

unfoldable pub unpack_all : List ℕ → List ℕ
unfolding unpack_u64
unpack_all (a ∷ b ∷ c ∷ d ∷ e ∷ f ∷ g ∷ h ∷ r) =
    unpack_u64 (a ∷ b ∷ c ∷ d ∷ e ∷ f ∷ g ∷ h ∷ []) ∷ unpack_all r
unpack_all _ = []

abbrev pub corrupt_if : Bool → Kept (Unit {0})
corrupt_if b = raise_if b (corruption record_corrupt)

-- A count that the database gives as an integer.
abbrev pub is_count : ℤ → ℕ → Bool
is_count (pos n) m = n == m
is_count _ m = false

-- `_decode_token_ids`
unfoldable pub decode_token_ids : List ℕ → ℤ → Kept (List ℕ)
unfolding unpack_u64 unpack_all
decode_token_ids value expected = do
  corrupt_if (ltb (length value) 12)
  corrupt_if (not (same_text (take 4 value) token_blob_magic))
  let count = unpack_u64 (take 8 (drop 4 value))
  corrupt_if (not (is_count expected count))
  corrupt_if (count == 0)
  corrupt_if (ltb max_tokens_per_record count)
  corrupt_if (not (length value == 12 + count * 8))
  ok (unpack_all (drop 12 value))
