-- ===== src/Planner/Fingerprint.antt =====
-- The bytes that identify a segment: src/cacheblend_gpt_oss/planner/fingerprint.py, and
-- `CacheNamespace.canonical_fields` of src/cacheblend_gpt_oss/planner/models.py. SHA-256 is an argument.
-- `struct.pack` refuses numbers of more than 64 bits; token ids have no more, and no text is as long.
pub mod Injective
use cacheblend_gpt_oss.Prelude.{
  ℕ, zero, suc, ◌+◌, ◌*◌, ◌/◌, ◌%◌, ◌^◌, List, [], ◌∷◌, ◌++◌, Text, codes, length, ltb,
  if◌then◌else◌, rev_onto,
}
use cacheblend_gpt_oss.Planner.Models.{CacheNamespace, SegmentFingerprint}

-- `struct.pack(">Q", n)`: eight bytes, the highest first.
unfoldable pub pack_u64 : ℕ → List ℕ
pack_u64 n =
    (n / 72057594037927936 % 256)
    ∷ (n / 281474976710656 % 256)
    ∷ (n / 1099511627776 % 256)
    ∷ (n / 4294967296 % 256)
    ∷ (n / 16777216 % 256)
    ∷ (n / 65536 % 256)
    ∷ (n / 256 % 256)
    ∷ (n % 256)
    ∷ []

unfoldable pub length_prefix : List ℕ → List ℕ
unfolding pack_u64
length_prefix value = pack_u64 (length value) ++ value

unfoldable pub pack_all : List ℕ → List ℕ
unfolding pack_u64
pack_all [] = []
pack_all (t ∷ ts) = pack_u64 t ++ pack_all ts

-- `cacheblend-gpt-oss\x00token-sequence\x00u64be-v1\x00`
abbrev pub token_encoding_domain : List ℕ
token_encoding_domain =
    codes "cacheblend-gpt-oss" ++ 0 ∷ (codes "token-sequence" ++ 0 ∷ (codes "u64be-v1" ++ 0 ∷ []))

-- `cacheblend-gpt-oss\x00segment-fingerprint\x00v1\x00`
abbrev pub fingerprint_domain : List ℕ
fingerprint_domain =
    codes "cacheblend-gpt-oss" ++ 0 ∷ (codes "segment-fingerprint" ++ 0 ∷ (codes "v1" ++ 0 ∷ []))

-- For token ids that were normalized.
unfoldable pub canonical_token_bytes : List ℕ → List ℕ
unfolding pack_u64 pack_all
canonical_token_bytes ids = token_encoding_domain ++ (pack_u64 (length ids) ++ pack_all ids)

-- The decimal digits of a number, the last one first; as much fuel as the number is enough.
unfoldable pub digits_from : ℕ → ℕ → Text
digits_from zero n = []
digits_from (suc fuel) n =
    let rest = digits_from fuel (n / 10) in (48 + n % 10) ∷ (if ltb n 10 then [] else rest)

-- `str(n)`
unfoldable pub decimal : ℕ → Text
unfolding digits_from
decimal n = rev_onto (digits_from (suc n) n) []

unfoldable pub canonical_fields : CacheNamespace → List (Text × Text)
unfolding decimal
canonical_fields ns =
    (codes "schema_version", decimal ns.schema_version)
    ∷ (codes "model_id", ns.model_id)
    ∷ (codes "model_revision", ns.model_revision)
    ∷ (codes "tokenizer_id", ns.tokenizer_id)
    ∷ (codes "tokenizer_revision", ns.tokenizer_revision)
    ∷ (codes "model_config_digest", ns.model_config_digest)
    ∷ (codes "kv_cache_config_digest", ns.kv_cache_config_digest)
    ∷ (codes "adapter_revision", ns.adapter_revision)
    ∷ (codes "vllm_version", ns.vllm_version)
    ∷ (codes "lmcache_version", ns.lmcache_version)
    ∷ (codes "torch_version", ns.torch_version)
    ∷ (codes "cuda_runtime", ns.cuda_runtime)
    ∷ []

-- The updates for the namespace's fields, in order, before what follows them.
unfoldable pub fields_before : List (Text × Text) → List ℕ → List ℕ
unfolding length_prefix
fields_before [] rest = rest
fields_before ((name, value) ∷ fields) rest =
    length_prefix name ++ (length_prefix value ++ fields_before fields rest)

-- All that `Sha256SegmentFingerprinter.fingerprint` feeds to the digest.
unfoldable pub fingerprint_input : CacheNamespace → List ℕ → List ℕ
unfolding fields_before canonical_fields length_prefix canonical_token_bytes
fingerprint_input ns ids =
    fingerprint_domain
    ++ fields_before (canonical_fields ns) (length_prefix (canonical_token_bytes ids))

unfoldable pub sha256_fingerprint : (List ℕ → List ℕ) → CacheNamespace → List ℕ → SegmentFingerprint
unfolding fingerprint_input
sha256_fingerprint sha256 ns ids = record { digest = sha256 (fingerprint_input ns ids) }
