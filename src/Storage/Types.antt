-- ===== src/Storage/Types.antt =====
-- The values on the wire to LMCache: src/cacheblend_gpt_oss/storage/lmcache_types.py. SHA-256 is an
-- argument. A size that the source does not bound is an unbounded number.
use cacheblend_gpt_oss.Prelude.{
  ℕ, ◌+◌, ◌*◌, ◌/◌, ◌%◌, pos, Bool, not, ◌||◌, List, [], ◌∷◌, ◌++◌, Text, codes, Value, int, str,
  bytes, bool, Option, none, some, Result, ok, raise, ◌>>=◌, ◌>>◌, raise_if, ltb, ◌==◌, length,
  elem, holds, if◌then◌else◌, ℕ_discrete,
}
use cacheblend_gpt_oss.Targets.{pinned_target}
use cacheblend_gpt_oss.Planner.Models.{
  TokenRange, CacheNamespace, CacheRecord, range_len, tokens_discrete, TokenRange-discrete,
  CacheNamespace-discrete, SegmentFingerprint-discrete, segment_len,
}
use cacheblend_gpt_oss.Planner.Fingerprint.{pack_u64, pack_all, canonical_fields}
use cacheblend_gpt_oss.Planner.Matching.{Fingerprinter, VerifiedMatch, match_target}
use cacheblend_gpt_oss.Staging.Config.{chunk_size}

-- The subclasses of `LmcacheTransportError` that this module raises.
pub data TransportError : Type 0 where
  configuration_error protocol_error : TransportError

abbrev pub Wired {ℓ} : Type ℓ → Type ℓ
Wired = Result TransportError

abbrev pub same_text : List ℕ → List ℕ → Bool
same_text a b = holds (tokens_discrete a b)

-- A non-empty text without NUL.
unfoldable pub plain_text : TransportError → Value → Wired Text
plain_text e (str t) = do raise_if (length t == 0) e; raise_if (elem 0 t) e; ok t
plain_text e _ = raise e

-- Exactly `size` bytes.
unfoldable pub digest_bytes : Value → Wired (List ℕ)
digest_bytes (bytes b) = do raise_if (not (length b == 32)) protocol_error; ok b
digest_bytes _ = raise protocol_error

unfoldable pub require_plain_int : Value → ℕ → Wired ℕ
require_plain_int (int (pos n)) minimum = do raise_if (ltb n minimum) configuration_error; ok n
require_plain_int _ minimum = raise configuration_error

-- `_require_receipt_int`
unfoldable pub require_receipt_int : Value → Wired ℕ
require_receipt_int (int (pos n)) = ok n
require_receipt_int _ = raise protocol_error

pub record LmcacheServerAttestation : Type 0 where
  pub lmcache_version : Text
  pub source_commit : Text
  pub protocol : Text
  pub hash_algorithm : Text

unfoldable pub server_attestation : Value → Value → Value → Value → Wired LmcacheServerAttestation
unfolding plain_text
server_attestation version commit protocol algorithm = do
  version' ← plain_text configuration_error version
  commit' ← plain_text configuration_error commit
  protocol' ← plain_text configuration_error protocol
  algorithm' ← plain_text configuration_error algorithm
  ok (record {
    lmcache_version = version';
    source_commit = commit';
    protocol = protocol';
    hash_algorithm = algorithm';
  })

abbrev pub lmcache_source_commit : Text
lmcache_source_commit = codes "7f326118a2f1afc7801988dd02e3055bdf21ef6b"

abbrev pub blend_protocol : Text
blend_protocol = codes "multiprocess-blend-v2"

abbrev pub hash_algorithm_name : Text
hash_algorithm_name = codes "blake3"

-- `LmcacheServerAttestation.validate`
unfoldable pub validate_attestation : LmcacheServerAttestation → Wired (Unit {0})
validate_attestation a = do
  raise_if (not (same_text a.lmcache_version pinned_target.lmcache_version)) configuration_error
  raise_if (not (same_text a.source_commit lmcache_source_commit)) configuration_error
  raise_if (not (same_text a.protocol blend_protocol)) configuration_error
  raise_if (not (same_text a.hash_algorithm hash_algorithm_name)) configuration_error

abbrev pub max_namespace_field_bytes : ℕ
max_namespace_field_bytes = 1024

-- The loop over the canonical fields.
unfoldable pub check_field_lengths : List (Text × Text) → Wired (Unit {0})
check_field_lengths [] = ok tt
check_field_lengths ((name, value) ∷ fields) = do
  raise_if (ltb max_namespace_field_bytes (length value)) configuration_error
  check_field_lengths fields

-- `_validate_namespace`
unfoldable pub validate_namespace : CacheNamespace → Wired (Unit {0})
unfolding check_field_lengths canonical_fields
validate_namespace ns = do
  raise_if (not (ns.schema_version == 1)) configuration_error
  raise_if (not (same_text ns.model_id pinned_target.model_id)) configuration_error
  raise_if (not (same_text ns.tokenizer_id pinned_target.model_id)) configuration_error
  raise_if (not (same_text ns.vllm_version pinned_target.vllm_version)) configuration_error
  raise_if (not (same_text ns.lmcache_version pinned_target.lmcache_version)) configuration_error
  raise_if (not (same_text ns.torch_version pinned_target.torch_version)) configuration_error
  raise_if (not (same_text ns.cuda_runtime pinned_target.cuda_runtime)) configuration_error
  check_field_lengths (canonical_fields ns)

pub record LmcacheStagingLayout : Type 0 where
  pub layer_count : ℕ
  pub token_capacity : ℕ
  pub kv_width : ℕ
  pub dtype_name : Text

unfoldable pub lmcache_staging_layout : Value → Value → Value → Value → Wired LmcacheStagingLayout
unfolding require_plain_int plain_text
lmcache_staging_layout layers capacity width dtype = do
  layers' ← require_plain_int layers 1
  capacity' ← require_plain_int capacity 1
  width' ← require_plain_int width 1
  dtype' ← plain_text configuration_error dtype
  raise_if (ltb 128 (length dtype')) configuration_error
  raise_if (ltb capacity' chunk_size) configuration_error
  ok (record {
    layer_count = layers';
    token_capacity = capacity';
    kv_width = width';
    dtype_name = dtype';
  })

pub record LmcacheCandidate : Type 0 where
  pub source_relative_range : TokenRange
  pub target_range : TokenRange
  pub storage_hash : List ℕ
  pub storage_model_name : Text
  pub query_digest : List ℕ

unfoldable pub lmcache_candidate :
    TokenRange → TokenRange → Value → Value → Value → Wired LmcacheCandidate
unfolding digest_bytes plain_text
lmcache_candidate source target hash model digest = do
  raise_if (range_len source == 0 || range_len target == 0) protocol_error
  raise_if (not (range_len source == range_len target)) protocol_error
  hash' ← digest_bytes hash
  model' ← plain_text protocol_error model
  digest' ← digest_bytes digest
  ok (record {
    source_relative_range = source;
    target_range = target;
    storage_hash = hash';
    storage_model_name = model';
    query_digest = digest';
  })

unfoldable pub LmcacheCandidate-discrete : Discrete LmcacheCandidate
LmcacheCandidate-discrete = hlevel ℕ_discrete

-- A hexadecimal digit, and `bytes.hex`.
abbrev pub hex_digit : ℕ → ℕ
hex_digit n = if ltb n 10 then 48 + n else 87 + n

unfoldable pub hex : List ℕ → Text
hex [] = []
hex (b ∷ bs) = hex_digit (b / 16) ∷ hex_digit (b % 16) ∷ hex bs

abbrev pub cache_key_prefix : Text
cache_key_prefix = codes "lmcache:0.4.3:blake3:"

-- The property `cache_key`.
unfoldable pub candidate_cache_key : LmcacheCandidate → Text
unfolding hex
candidate_cache_key c = cache_key_prefix ++ hex c.storage_hash

pub record VerifiedLmcacheCandidate : Type 0 where
  pub candidate : LmcacheCandidate
  pub match : VerifiedMatch

-- `VerifiedLmcacheCandidate.bind`
unfoldable pub bind :
    Fingerprinter
    → CacheNamespace
    → LmcacheCandidate
    → VerifiedMatch
    → Wired VerifiedLmcacheCandidate
bind fingerprint ns c m = do
  let cached = m.candidate.cached
  let target = match_target m
  raise_if (not (holds (CacheNamespace-discrete cached.namespace ns))) protocol_error
  raise_if (not (holds (TokenRange-discrete c.target_range target.token_range))) protocol_error
  raise_if (not (same_text (candidate_cache_key c) cached.cache_key)) protocol_error
  raise_if (not (same_text cached.token_ids target.token_ids)) protocol_error
  raise_if
      (not (
          holds (
            SegmentFingerprint-discrete m.candidate.query_fingerprint
              (fingerprint ns target.token_ids)))
        || not (
            holds
              (SegmentFingerprint-discrete cached.fingerprint (fingerprint ns target.token_ids))))
      protocol_error
  raise_if (not (range_len c.target_range == segment_len target)) protocol_error
  ok (record { candidate = c; match = m })

-- `cacheblend-gpt-oss\x00lmcache-query\x00v1\x00`
abbrev pub query_domain : List ℕ
query_domain =
    codes "cacheblend-gpt-oss" ++ 0 ∷ (codes "lmcache-query" ++ 0 ∷ (codes "v1" ++ 0 ∷ []))

-- For token ids that were normalized.
unfoldable pub query_digest : (List ℕ → List ℕ) → List ℕ → List ℕ
unfolding pack_u64 pack_all
query_digest sha256 ids = sha256 (query_domain ++ (pack_u64 (length ids) ++ pack_all ids))

pub record LmcacheStoreReceipt : Type 0 where
  pub stored_tokens : ℕ
  pub stored_chunks : ℕ
  pub candidate_lookup_required : Bool
  pub sidecar_records : List CacheRecord

-- The end and the namespace of the record before, if there is one.
abbrev pub follows : Option (ℕ × CacheNamespace) → CacheRecord → Wired (Unit {0})
follows none r = ok tt
follows (some (end, ns)) r = do
  raise_if (not (r.source_range.start == end)) protocol_error
  raise_if (not (holds (CacheNamespace-discrete r.namespace ns))) protocol_error

-- The loop over the records of a receipt.
unfoldable pub check_receipt_records :
    Fingerprinter → Option (ℕ × CacheNamespace) → List CacheRecord → Wired (Unit {0})
check_receipt_records fingerprint before [] = ok tt
check_receipt_records fingerprint before (r ∷ rs) = do
  raise_if (not (length r.token_ids == chunk_size)) protocol_error
  follows before r
  raise_if
      (not
        (holds (SegmentFingerprint-discrete r.fingerprint (fingerprint r.namespace r.token_ids))))
      protocol_error
  check_receipt_records fingerprint (some (r.source_range.end, r.namespace)) rs

abbrev pub boolean : Value → Wired Bool
boolean (bool b) = ok b
boolean _ = raise protocol_error

-- The tests on a receipt whose counts are numbers.
unfoldable pub counted_receipt :
    Fingerprinter → ℕ → ℕ → Bool → List CacheRecord → Wired LmcacheStoreReceipt
unfolding check_receipt_records
counted_receipt fingerprint tokens chunks required records = do
  raise_if (not (tokens == chunks * chunk_size)) protocol_error
  (if not required
      then raise_if (not (length records == 0)) protocol_error
      else (raise_if (not (length records == chunks)) protocol_error
          >> check_receipt_records fingerprint none records))
  ok (record {
    stored_tokens = tokens;
    stored_chunks = chunks;
    candidate_lookup_required = required;
    sidecar_records = records;
  })

unfoldable pub store_receipt :
    Fingerprinter → Value → Value → Value → List CacheRecord → Wired LmcacheStoreReceipt
unfolding require_receipt_int counted_receipt
store_receipt fingerprint tokens chunks required records = do
  tokens' ← require_receipt_int tokens
  chunks' ← require_receipt_int chunks
  required' ← boolean required
  counted_receipt fingerprint tokens' chunks' required' records
