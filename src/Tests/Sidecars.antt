-- ===== src/Tests/Sidecars.antt =====
-- Rows written and read on small inputs; the sum of the bytes stands for SHA-256.
use cacheblend_gpt_oss.Prelude.{
  ℕ, ◌≤◌, ◌≡◌, ◌⊎◌, inl, refl, subst, refuted, ok-injective, Bool, true, false, List, [], ◌∷◌,
  Value, ok, sum, All, arith, each, ℕ_discrete,
}
use cacheblend_gpt_oss.Planner.Models.{
  CacheRecord-discrete, CacheRecord, normalize_token_ids, normalize_token_id, tokens_discrete,
}
use cacheblend_gpt_oss.Planner.Fingerprint.{canonical_fields, decimal, digits_from}
use cacheblend_gpt_oss.Storage.Sidecar.{
  check_namespace, check_fingerprint, check_record, check_texts, bounded_text,
}
use cacheblend_gpt_oss.Storage.Sidecar.Rows.{
  Row, database_values, encode_record, record_from_row, lookup, Select,
}
use cacheblend_gpt_oss.Storage.Sidecar.RoundTrip.{record_from_row-encode}
use cacheblend_gpt_oss.Storage.Sidecar.Reading.{IsRead, lookup-IsRead, lookup-written}
use cacheblend_gpt_oss.Storage.Sidecar.Writing.{
  Statements, IsTable, worker_read_write, encode_batch, confirm_existing, insert_record,
  insert_batch, add_many,
}
use cacheblend_gpt_oss.Storage.Sidecar.Batches.{Readable, Grows, add_many-Stored}
use cacheblend_gpt_oss.Tests.{namespace, span}

abbrev digest_of : List ℕ → List ℕ
digest_of b = sum b ∷ []

abbrev digest : List ℕ
digest =
    1 ∷ 2 ∷ 3 ∷ 4 ∷ 5 ∷ 6 ∷ 7 ∷ 8 ∷ 9 ∷ 10 ∷ 11 ∷ 12 ∷ 13 ∷ 14 ∷ 15 ∷ 16 ∷ 17 ∷ 18 ∷ 19 ∷ 20 ∷ 21
    ∷ 22 ∷ 23 ∷ 24 ∷ 25 ∷ 26 ∷ 27 ∷ 28 ∷ 29 ∷ 30 ∷ 31 ∷ 32 ∷ []

abbrev kept : CacheRecord
kept = record {
  namespace = namespace;
  fingerprint = record { digest = digest };
  token_ids = 300 ∷ 70000 ∷ [];
  source_range = span 5 7;
  cache_key = 1 ∷ 2 ∷ [];
}

kept_valid : check_record kept ≡ ok tt
unfolding check_record check_namespace check_fingerprint check_texts bounded_text canonical_fields
    decimal digits_from normalize_token_ids normalize_token_id each tokens_discrete ℕ_discrete
kept_valid = refl

kept_encoded : encode_record digest_of kept ≡ ok (database_values digest_of kept)
unfolding encode_record
kept_encoded = rw kept_valid refl

record_from_row-encode_example :
    record_from_row digest_of
      (database_values digest_of kept)
      namespace
      (record { digest = digest })
    ≡ ok kept
record_from_row-encode_example = record_from_row-encode digest_of kept kept_encoded

-- A table of this one record.
abbrev one_row : Select digest_of
one_row key fp limit = ok (database_values digest_of kept ∷ [])

valid_namespace : check_namespace namespace ≡ ok tt
unfolding check_namespace check_texts bounded_text canonical_fields decimal digits_from
    tokens_discrete ℕ_discrete
valid_namespace = refl

valid_fingerprint : check_fingerprint (record { digest = digest }) ≡ ok tt
unfolding check_fingerprint
valid_fingerprint = refl

looked_up : lookup digest_of one_row false namespace (record { digest = digest }) ≡ ok (kept ∷ [])
looked_up =
    lookup-written digest_of one_row namespace (record { digest = digest }) (kept ∷ [])
      ((refl, refl, kept_valid), tt) (omega arith) valid_namespace valid_fingerprint refl

lookup-written_example :
    lookup digest_of one_row false namespace (record { digest = digest }) ≡ ok (kept ∷ [])
lookup-written_example =
    lookup-written digest_of one_row namespace (record { digest = digest }) (kept ∷ [])
      ((refl, refl, kept_valid), tt) (omega arith) valid_namespace valid_fingerprint refl

lookup-IsRead_example : All (IsRead namespace (record { digest = digest })) (kept ∷ [])
lookup-IsRead_example =
    lookup-IsRead digest_of one_row false namespace (record { digest = digest }) looked_up

-- A table that holds one row: the first that is inserted.
abbrev slot : Statements (List Row)
slot = record {
  insert = λ t row. elim t [ [] ↦ ok (true, row ∷ []) | old ∷ rest ↦ ok (false, old ∷ rest) ];
  by_checksum = λ t checksum. elim t [ [] ↦ ok [] | old ∷ rest ↦ ok (old ∷ []) ];
}

abbrev Has : List Row → Row → Type 0
Has [] row = ⊥
Has (old ∷ rest) row = (old ≡ row) ⊎ Has rest row

has_inserted :
    (t : List Row) (row : Row) (t' : List Row) → slot.insert t row ≡ ok (true, t') → Has t' row
has_inserted [] row t' h = subst (λ p. Has p.1 row) (ok-injective h) (inl refl)
has_inserted (old ∷ rest) row t' h = cc

has_kept :
    (t : List Row) (row : Row) (fresh : Bool) (t' : List Row)
    → slot.insert t row ≡ ok (fresh, t')
    → (other : Row) → Has t other
    → Has t' other
has_kept [] row fresh t' h other there = absurd there
has_kept (old ∷ rest) row fresh t' h other there = subst (λ p. Has p.1 other) (ok-injective h) there

has_found :
    (t : List Row) (checksum : Value) (rows : List Row)
    → slot.by_checksum t checksum ≡ ok rows
    → All (Has t) rows
has_found [] checksum rows h = subst (All (Has [])) (ok-injective h) tt
has_found (old ∷ rest) checksum rows h =
    subst (All (Has (old ∷ rest))) (ok-injective h) (inl refl, tt)

slot-IsTable : IsTable slot Has
slot-IsTable = record { inserted = has_inserted; kept = has_kept; found = has_found }

batch_run :
    add_many digest_of slot worker_read_write false (kept ∷ kept ∷ []) []
    ≡ (ok 1, database_values digest_of kept ∷ [])
unfolding add_many encode_batch insert_batch insert_record confirm_existing CacheRecord-discrete
batch_run =
    rw
      (
        kept_encoded,
        record_from_row-encode digest_of kept kept_encoded,
        refuted (CacheRecord-discrete kept kept) refl,
      )
      refl

add_many-Stored_example :
    All
      (Readable digest_of slot Has slot-IsTable (database_values digest_of kept ∷ []))
      (kept ∷ kept ∷ [])
    × Grows digest_of slot Has slot-IsTable [] (database_values digest_of kept ∷ [])
    × (1 ≤ 2)
add_many-Stored_example =
    add_many-Stored digest_of slot Has slot-IsTable worker_read_write false (kept ∷ kept ∷ []) []
      batch_run
