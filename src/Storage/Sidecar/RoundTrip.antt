-- ===== src/Storage/Sidecar/RoundTrip.antt =====
-- What is read back of a row of src/cacheblend_gpt_oss/storage/sidecar.py.
use cacheblend_gpt_oss.Prelude.{
  ℕ, ◌≤◌, ◌<◌, ◌≡◌, refl, ap, subst, ◌∙◌, pos, ◌-◌, ◌-ℤ◌, eqb_ℤ, ltb_ℤ, true, false, List, [], ◌∷◌,
  Text, str, nats, ok, raise, >>=-eq-ok, Result-cases, length, All, arith, ltb, ◌==◌, ℕ_discrete,
  refuted, Bool-cases, inl, inr,
}
use cacheblend_gpt_oss.Planner.Models.{
  range_len, segment_fingerprint, token_range, ordered_range, cache_record, text_key,
  cache_namespace, namespace_text, positive_version, CacheRecord, tokens_discrete,
  normalize_token_ids, CacheNamespace-discrete,
}
use cacheblend_gpt_oss.Planner.Fingerprint.{canonical_fields}
use cacheblend_gpt_oss.Planner.Models.Laws.{normalize-nats_same, normalized-All}
use cacheblend_gpt_oss.Storage.Types.{same_text}
use cacheblend_gpt_oss.Storage.Sidecar.{
  invalid_record, max_cache_key_bytes, max_token_position, normal_tokens, check_fingerprint,
  invalid_namespace, max_namespace_bytes, check_texts, bounded_text, check_namespace, check_record,
  schema_version_name, encode_token_ids, max_tokens_per_record, max_schema_version,
}
use cacheblend_gpt_oss.Storage.Sidecar.Rows.{
  Row, namespace_key, record_checksum, database_values, encode_record, namespace_from_row, db_int,
  db_text, db_blob, record_of, read_rest, record_from_row,
}
use cacheblend_gpt_oss.Storage.Sidecar.Codec.{decode-encode}

-- A text that is bounded is one that a namespace takes.
namespace_text_of :
    (code : _) (maximum : ℕ) (t : Text)
    → bounded_text code maximum t ≡ ok tt
    → namespace_text (str t) ≡ ok t
unfolding bounded_text namespace_text
namespace_text_of code maximum t h = ground arith

check_texts-All :
    (fields : List (Text × Text))
    → check_texts fields ≡ ok tt
    → All
        (λ f. same_text f.0 schema_version_name ≡ false → namespace_text (str f.1) ≡ ok f.1)
        fields
unfolding check_texts
check_texts-All [] h = tt
check_texts-All ((name, value) ∷ fields) h =
    elim (Bool-cases (same_text name schema_version_name)) [
      | inl e ↦ (λ f. cc, check_texts-All fields (rw e at h))
      | inr e ↦
          let (_, first, rest) =
            >>=-eq-ok (bounded_text invalid_namespace max_namespace_bytes value)
              (λ _. check_texts fields) (rw e at h) in
          (
            λ _. namespace_text_of invalid_namespace max_namespace_bytes value first,
            check_texts-All fields rest,
          )
    ]

namespace_from_row-eq :
    (sha256 : List ℕ → List ℕ) (r : CacheRecord)
    → check_namespace r.namespace ≡ ok tt
    → namespace_from_row (database_values sha256 r) ≡ ok r.namespace
unfolding namespace_from_row check_namespace cache_namespace canonical_fields database_values db_int
    db_text positive_version tokens_discrete ℕ_discrete
namespace_from_row-eq sha256 r h =
    let ns = r.namespace in
    let positive : (ns.schema_version == 0) ≡ false = ground arith in
    let bounded : ltb max_schema_version ns.schema_version ≡ false = ground arith in
    let texts : check_texts (canonical_fields ns) ≡ ok tt = ground arith in
    let version : ltb ns.schema_version 1 ≡ false = ground (arith, positive) in
    let t = (check_texts-All (canonical_fields ns) texts).1 in
    rw
      (
        version,
        t.0 refl,
        t.1.0 refl,
        t.1.1.0 refl,
        t.1.1.1.0 refl,
        t.1.1.1.1.0 refl,
        t.1.1.1.1.1.0 refl,
        t.1.1.1.1.1.1.0 refl,
        t.1.1.1.1.1.1.1.0 refl,
        t.1.1.1.1.1.1.1.1.0 refl,
        t.1.1.1.1.1.1.1.1.1.0 refl,
        t.1.1.1.1.1.1.1.1.1.1.0 refl,
        positive,
        bounded,
        texts,
      )
      refl

-- What a record that passes the tests is known for.
pub record IsKept (r : CacheRecord) : Type 0 where
  pub valid_namespace : check_namespace r.namespace ≡ ok tt
  pub digest_size : length r.fingerprint.digest ≡ 32
  pub bounded_key : bounded_text invalid_record max_cache_key_bytes r.cache_key ≡ ok tt
  pub normal : normalize_token_ids (nats r.token_ids) ≡ ok r.token_ids
  pub nonempty : 0 < length r.token_ids
  pub bounded : length r.token_ids ≤ max_tokens_per_record
  pub positioned : r.source_range.end ≤ max_token_position
  pub fits : range_len r.source_range ≡ length r.token_ids

normal_tokens-ok :
    (ids : List ℕ) {got : List ℕ}
    → normal_tokens (normalize_token_ids (nats ids)) ≡ ok got
    → (got ≡ ids) × (normalize_token_ids (nats ids) ≡ ok ids)
normal_tokens-ok ids {got} h = elim (Result-cases (normalize_token_ids (nats ids))) [
  | inl (ids', e) ↦
      let at : normal_tokens (ok ids') ≡ ok got = rw e at h in
      let same = normalize-nats_same ids e in (cc, e ∙ ap ok same)
  | inr (x, e) ↦ let at : normal_tokens (raise x) ≡ ok got = rw e at h in cc
]

pub check_record-IsKept : (r : CacheRecord) → check_record r ≡ ok tt → IsKept r
unfolding check_record check_fingerprint
check_record-IsKept r h =
    let (_, space, h₁) = >>=-eq-ok (check_namespace r.namespace) _ h in
    let (_, mark, h₂) = >>=-eq-ok (check_fingerprint r.fingerprint) _ h₁ in
    let (_, key, h₃) =
      >>=-eq-ok (bounded_text invalid_record max_cache_key_bytes r.cache_key) _ h₂ in
    let (ids, e, h₄) = >>=-eq-ok (normal_tokens (normalize_token_ids (nats r.token_ids))) _ h₃ in
    let (same, normal) = normal_tokens-ok r.token_ids e in
    let size = ap length same in
    record {
      valid_namespace = space;
      digest_size = ground arith;
      bounded_key = key;
      normal = normal;
      nonempty = ground (arith, size);
      bounded = ground (arith, size);
      positioned = ground arith;
      fits = ground (arith, size);
    }

record_of-eq :
    (r : CacheRecord)
    → check_record r ≡ ok tt
    → record_of r.namespace r.fingerprint.digest r.token_ids
        (pos r.source_range.start)
        (pos r.source_range.end)
        r.cache_key
      ≡ ok r
unfolding record_of segment_fingerprint token_range ordered_range cache_record text_key bounded_text
record_of-eq r h =
    let k = check_record-IsKept r h in
    let size : (length r.fingerprint.digest == 32) ≡ true = ground (arith, k.digest_size) in
    let some_tokens : (length r.token_ids == 0) ≡ false = ground (arith, k.nonempty) in
    let fit : (range_len r.source_range == length r.token_ids) ≡ true = ground (arith, k.fits) in
    let some_key : (length r.cache_key == 0) ≡ false = ground (arith, k.bounded_key) in
    let ordered : ltb r.source_range.end r.source_range.start ≡ false =
      ground (arith, k.fits, k.nonempty) in
    rw (size, ordered, k.normal, some_tokens, fit, some_key, h) refl

ltb_ℤ-pos : (a b : ℕ) → b ≤ a → ltb_ℤ (pos a) (pos b) ≡ false
ltb_ℤ-pos a b h = ground arith

eqb_ℤ-pos : (a b n : ℕ) → 0 < n → b - a ≡ n → eqb_ℤ (pos b -ℤ pos a) (pos n) ≡ true
eqb_ℤ-pos a b n p h = ground arith

pub record_from_row-written :
    (sha256 : List ℕ → List ℕ) (r : CacheRecord)
    → check_record r ≡ ok tt
    → record_from_row sha256 (database_values sha256 r) r.namespace r.fingerprint ≡ ok r
unfolding record_from_row read_rest database_values db_int db_text db_blob
record_from_row-written sha256 r h =
    let k = check_record-IsKept r h in
    let blob = encode_token_ids r.token_ids in
    let decoded =
      decode-encode r.token_ids k.nonempty k.bounded (normalized-All (nats r.token_ids) k.normal) in
    let before_end : ltb_ℤ (pos max_token_position) (pos r.source_range.end) ≡ false =
      ltb_ℤ-pos max_token_position r.source_range.end k.positioned in
    let spans : eqb_ℤ (pos r.source_range.end -ℤ pos r.source_range.start)
          (pos (length r.token_ids))
        ≡ true =
      eqb_ℤ-pos r.source_range.start r.source_range.end (length r.token_ids) k.nonempty k.fits in
    rw
      (
        namespace_from_row-eq sha256 r k.valid_namespace,
        refuted
            (tokens_discrete (namespace_key sha256 r.namespace) (namespace_key sha256 r.namespace))
            refl,
        refuted (CacheNamespace-discrete r.namespace r.namespace) refl,
        refuted (tokens_discrete r.fingerprint.digest r.fingerprint.digest) refl,
        decoded,
        before_end,
        spans,
        k.bounded_key,
        refuted
            (tokens_discrete
              (record_checksum sha256 r.namespace r.fingerprint.digest r.cache_key
                r.source_range.start r.source_range.end blob)
              (record_checksum sha256 r.namespace r.fingerprint.digest r.cache_key
                r.source_range.start r.source_range.end blob))
            refl,
      )
      (record_of-eq r h)

-- Whatever is written for a record is read back as that record.
pub record_from_row-encode :
    (sha256 : List ℕ → List ℕ) (r : CacheRecord) {row : Row}
    → encode_record sha256 r ≡ ok row
    → record_from_row sha256 row r.namespace r.fingerprint ≡ ok r
unfolding encode_record
record_from_row-encode sha256 r {row} h =
    let (_, valid, e) = >>=-eq-ok (check_record r) _ h in
    let same : database_values sha256 r ≡ row = cc in
    subst (λ row. record_from_row sha256 row r.namespace r.fingerprint ≡ ok r) same
      (record_from_row-written sha256 r valid)
