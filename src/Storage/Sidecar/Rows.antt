-- ===== src/Storage/Sidecar/Rows.antt =====
-- Rows of src/cacheblend_gpt_oss/storage/sidecar.py: what is written for a record, what is made of a
-- row that is read, and a look-up. A failure of SQLite comes as the error that it is translated to.
use cacheblend_gpt_oss.Prelude.{
  ℕ, ◌+◌, pos, ℤ, ◌-ℤ◌, ltb_ℤ, eqb_ℤ, is_negative, pos_part, Bool, not, ◌||◌, List, ◌++◌, Text,
  codes, Value, int, str, bytes, nat, nats, ok, raise, ◌>>=◌, ◌>>◌, raise_if, each, ltb, length,
  holds,
}
use cacheblend_gpt_oss.Planner.Models.{
  Checked, token_range, CacheNamespace, cache_namespace, SegmentFingerprint, segment_fingerprint,
  CacheRecord, cache_record, CacheNamespace-discrete,
}
use cacheblend_gpt_oss.Planner.Fingerprint.{pack_u64, canonical_fields}
use cacheblend_gpt_oss.Storage.Types.{same_text}
use cacheblend_gpt_oss.Storage.Sidecar.{
  SidecarError, configuration, closed_error, corruption, Kept, record_corrupt, closed_index,
  collision_bucket_limit, invalid_record, max_token_position, max_cache_key_bytes,
  max_bucket_records, bounded_text, check_namespace, check_fingerprint, check_record, field_bytes,
  fields_bytes, namespace_key_domain, record_checksum_domain, encode_token_ids, decode_token_ids,
  corrupt_if,
}

-- `sqlite3.Row`, by `_RECORD_COLUMN_NAMES`.
pub record Row : Type 0 where
  pub namespace_key : Value
  pub namespace_schema_version : Value
  pub model_id : Value
  pub model_revision : Value
  pub tokenizer_id : Value
  pub tokenizer_revision : Value
  pub model_config_digest : Value
  pub kv_cache_config_digest : Value
  pub adapter_revision : Value
  pub vllm_version : Value
  pub lmcache_version : Value
  pub torch_version : Value
  pub cuda_runtime : Value
  pub fingerprint : Value
  pub cache_key : Value
  pub source_start : Value
  pub source_end : Value
  pub token_count : Value
  pub token_ids : Value
  pub record_checksum : Value

unfoldable pub db_int : Value → Kept ℤ
db_int (int z) = ok z
db_int _ = raise (corruption record_corrupt)

unfoldable pub db_text : Value → Kept Text
db_text (str t) = ok t
db_text _ = raise (corruption record_corrupt)

unfoldable pub db_blob : Value → Kept (List ℕ)
db_blob (bytes b) = ok b
db_blob _ = raise (corruption record_corrupt)

-- `except (TypeError, ValueError, SidecarConfigurationError)`: such an error means a corrupt record.
abbrev pub rebuilt : {A : Type 0} → Checked A → Kept A
rebuilt (ok a) = ok a
rebuilt (raise e) = raise (corruption record_corrupt)

abbrev pub means_corrupt : SidecarError → SidecarError
means_corrupt (configuration code) = corruption record_corrupt
means_corrupt e = e

abbrev pub revalidated : Kept (Unit {0}) → Kept (Unit {0})
revalidated (ok u) = ok u
revalidated (raise e) = raise (means_corrupt e)

-- `_namespace_from_row`
unfoldable pub namespace_from_row : Row → Kept CacheNamespace
unfolding db_int db_text cache_namespace check_namespace
namespace_from_row row = do
  version ← db_int row.namespace_schema_version
  a ← db_text row.model_id
  b ← db_text row.model_revision
  c ← db_text row.tokenizer_id
  d ← db_text row.tokenizer_revision
  e ← db_text row.model_config_digest
  f ← db_text row.kv_cache_config_digest
  g ← db_text row.adapter_revision
  h ← db_text row.vllm_version
  i ← db_text row.lmcache_version
  j ← db_text row.torch_version
  k ← db_text row.cuda_runtime
  ns ← rebuilt (
      cache_namespace (int version) (str a) (str b) (str c) (str d) (str e) (str f) (str g) (str h)
        (str i) (str j) (str k))
  revalidated (check_namespace ns)
  ok ns

-- From the construction of the record on.
unfoldable pub record_of : CacheNamespace → List ℕ → List ℕ → ℤ → ℤ → Text → Kept CacheRecord
unfolding segment_fingerprint token_range cache_record check_record
record_of ns digest ids start end key = do
  fp ← rebuilt (segment_fingerprint (bytes digest))
  source ← rebuilt (token_range (int start) (int end))
  r ← rebuilt (cache_record ns fp (nats ids) source (str key))
  revalidated (check_record r)
  ok r

module _ (sha256 : List ℕ → List ℕ) where
  -- `_namespace_key`
  unfoldable pub namespace_key : CacheNamespace → List ℕ
  unfolding fields_bytes canonical_fields
  namespace_key ns = sha256 (namespace_key_domain ++ fields_bytes (canonical_fields ns))

  -- `_record_checksum`
  unfoldable pub record_checksum : CacheNamespace → List ℕ → Text → ℕ → ℕ → List ℕ → List ℕ
  unfolding fields_bytes canonical_fields field_bytes pack_u64
  record_checksum ns digest key start end blob = sha256 (
      record_checksum_domain
      ++ (fields_bytes (canonical_fields ns)
          ++ (field_bytes (codes "fingerprint") digest
              ++ (field_bytes (codes "cache_key") key
                  ++ (field_bytes (codes "source_start") (pack_u64 start)
                      ++ (field_bytes (codes "source_end") (pack_u64 end)
                          ++ field_bytes (codes "token_ids") blob))))))

  -- `_EncodedRecord.from_record` and `database_values`.
  unfoldable pub database_values : CacheRecord → Row
  unfolding namespace_key record_checksum encode_token_ids
  database_values r =
      let blob = encode_token_ids r.token_ids in
      record {
        namespace_key = bytes (namespace_key r.namespace);
        namespace_schema_version = nat r.namespace.schema_version;
        model_id = str r.namespace.model_id;
        model_revision = str r.namespace.model_revision;
        tokenizer_id = str r.namespace.tokenizer_id;
        tokenizer_revision = str r.namespace.tokenizer_revision;
        model_config_digest = str r.namespace.model_config_digest;
        kv_cache_config_digest = str r.namespace.kv_cache_config_digest;
        adapter_revision = str r.namespace.adapter_revision;
        vllm_version = str r.namespace.vllm_version;
        lmcache_version = str r.namespace.lmcache_version;
        torch_version = str r.namespace.torch_version;
        cuda_runtime = str r.namespace.cuda_runtime;
        fingerprint = bytes r.fingerprint.digest;
        cache_key = str r.cache_key;
        source_start = nat r.source_range.start;
        source_end = nat r.source_range.end;
        token_count = nat (length r.token_ids);
        token_ids = bytes blob;
        record_checksum = bytes (
            record_checksum r.namespace r.fingerprint.digest r.cache_key r.source_range.start
              r.source_range.end blob);
      }

  unfoldable pub encode_record : CacheRecord → Kept Row
  unfolding check_record database_values
  encode_record r = do check_record r; ok (database_values r)

  -- `_record_from_row` from the token count on; the start is natural where the checksum is made.
  unfoldable pub read_rest : Row → CacheNamespace → List ℕ → Kept CacheRecord
  unfolding db_blob db_int db_text decode_token_ids record_of
  read_rest row ns digest = do
    count ← db_int row.token_count
    blob ← db_blob row.token_ids
    ids ← decode_token_ids blob count
    start ← db_int row.source_start
    end ← db_int row.source_end
    cache_key ← db_text row.cache_key
    corrupt_if (
        is_negative start
        || (ltb_ℤ (pos max_token_position) end || not (eqb_ℤ (end -ℤ start) count)))
    revalidated (bounded_text invalid_record max_cache_key_bytes cache_key)
    checksum ← db_blob row.record_checksum
    corrupt_if (
        not (
          same_text checksum
            (record_checksum ns digest cache_key (pos_part start) (pos_part end) blob)))
    record_of ns digest ids start end cache_key

  -- `_record_from_row`
  unfoldable pub record_from_row : Row → CacheNamespace → SegmentFingerprint → Kept CacheRecord
  unfolding namespace_from_row db_blob read_rest
  record_from_row row expected fp = do
    ns ← namespace_from_row row
    key ← db_blob row.namespace_key
    corrupt_if (
        not (same_text key (namespace_key ns)) || not (holds (CacheNamespace-discrete ns expected)))
    digest ← db_blob row.fingerprint
    corrupt_if (not (same_text digest fp.digest))
    read_rest row ns digest

  -- The rows of the first so many with the key and the digest, in order; the transaction's failures
  -- are those of the SELECT.
  abbrev pub Select : Type 0
  Select = List ℕ → List ℕ → ℕ → Kept (List Row)

  -- `lookup` of an index that is closed or not.
  unfoldable pub lookup :
      Select → Bool → CacheNamespace → SegmentFingerprint → Kept (List CacheRecord)
  unfolding record_from_row each
  lookup select closed ns fp = do
    raise_if closed (closed_error closed_index)
    check_namespace ns
    check_fingerprint fp
    rows ← select (namespace_key ns) fp.digest (max_bucket_records + 1)
    raise_if (ltb max_bucket_records (length rows)) (corruption collision_bucket_limit)
    each (λ row. record_from_row row ns fp) rows
