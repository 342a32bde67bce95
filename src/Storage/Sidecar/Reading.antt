-- ===== src/Storage/Sidecar/Reading.antt =====
-- What is known of a record that src/cacheblend_gpt_oss/storage/sidecar.py reads, and of a look-up.
use mathlib.Core.Path.{subst₂}
use cacheblend_gpt_oss.Prelude.{
  ℕ, ◌+◌, ◌≤◌, ◌≡◌, refl, ap, subst, ◌∙◌, pos, pos_part, ℤ, ◌-ℤ◌, ltb_ℤ, eqb_ℤ, is_negative, Bool,
  true, false, not, ◌||◌, List, [], ◌∷◌, map, Text, Value, int, str, bytes, nats, ok, raise,
  >>=-eq-ok, >>=-with, ok-injective, length-map, raise_if-eq-ok, raise_if, each, length, All, arith,
  ltb, decided, holds,
}
use cacheblend_gpt_oss.Planner.Models.{
  TokenRange, CacheNamespace, SegmentFingerprint, CacheRecord, segment_fingerprint, token_range,
  cache_record, tokens_discrete, CacheNamespace-discrete,
}
use cacheblend_gpt_oss.Storage.Types.{same_text}
use cacheblend_gpt_oss.Storage.Sidecar.{
  Kept, closed_error, closed_index, corruption, collision_bucket_limit, check_namespace,
  check_fingerprint, check_record, bounded_text, decode_token_ids, corrupt_if, invalid_record,
  max_cache_key_bytes, max_token_position, max_bucket_records,
}
use cacheblend_gpt_oss.Storage.Sidecar.Rows.{
  Row, db_int, db_text, db_blob, rebuilt, revalidated, namespace_from_row, record_of, namespace_key,
  record_checksum, read_rest, database_values, record_from_row, Select, lookup,
}
use cacheblend_gpt_oss.Storage.Sidecar.RoundTrip.{record_from_row-written}

revalidated-ok : (u : Kept (Unit {0})) → revalidated u ≡ ok tt → u ≡ ok tt
revalidated-ok (ok tt) h = refl
revalidated-ok (raise e) h = cc

segment_fingerprint-digest :
    (digest : List ℕ) {fp : SegmentFingerprint}
    → rebuilt (segment_fingerprint (bytes digest)) ≡ ok fp
    → fp ≡ record { digest = digest }
unfolding segment_fingerprint
segment_fingerprint-digest digest h = ground arith

cache_record-fields :
    (ns : CacheNamespace) (fp : SegmentFingerprint) (ids : List Value) (source : TokenRange)
    (key : Text) {r : CacheRecord}
    → rebuilt (cache_record ns fp ids source (str key)) ≡ ok r
    → (r.namespace ≡ ns) × (r.fingerprint ≡ fp)
unfolding cache_record
cache_record-fields ns fp ids source key h = ground arith

record_of-fields :
    (ns : CacheNamespace) (digest ids : List ℕ) (start end : ℤ) (key : Text) {r : CacheRecord}
    → record_of ns digest ids start end key ≡ ok r
    → (r.namespace ≡ ns) × (r.fingerprint ≡ record { digest = digest }) × (check_record r ≡ ok tt)
unfolding record_of
record_of-fields ns digest ids start end key {r} h =
    let (fp, e, h₁) = >>=-eq-ok (rebuilt (segment_fingerprint (bytes digest))) _ h in
    let (source, _, h₂) = >>=-eq-ok (rebuilt (token_range (int start) (int end))) _ h₁ in
    let (r', f, h₃) = >>=-eq-ok (rebuilt (cache_record ns fp (nats ids) source (str key))) _ h₂ in
    let (_, g, h₄) = >>=-eq-ok (revalidated (check_record r')) _ h₃ in
    let (p, q) = cache_record-fields ns fp (nats ids) source key f in
    let same : r' ≡ r = cc in
    let checked : check_record r' ≡ ok tt = revalidated-ok (check_record r') g in
    subst
      (λ r.
        (r.namespace ≡ ns)
        × (r.fingerprint ≡ record { digest = digest })
        × (check_record r ≡ ok tt))
      same (p, q ∙ segment_fingerprint-digest digest e, checked)

-- What a record that was read is known for.
abbrev pub IsRead : CacheNamespace → SegmentFingerprint → CacheRecord → Type 0
IsRead ns fp r = (r.namespace ≡ ns) × (r.fingerprint ≡ fp) × (check_record r ≡ ok tt)

second_false : (a : Bool) {b : Bool} → (a || b) ≡ false → b ≡ false
second_false true h = cc
second_false false h = h

module _ (sha256 : List ℕ → List ℕ) where
  read_rest-fields :
      (row : Row) (ns : CacheNamespace) (digest : List ℕ) {r : CacheRecord}
      → read_rest sha256 row ns digest ≡ ok r
      → (r.namespace ≡ ns) × (r.fingerprint ≡ record { digest = digest }) × (check_record r ≡ ok tt)
  unfolding read_rest
  read_rest-fields row ns digest h = >>=-with (db_int row.token_count) _ h λ count _ h.
      >>=-with (db_blob row.token_ids) _ h λ blob _ h.
        >>=-with (decode_token_ids blob count) _ h λ ids _ h.
          >>=-with (db_int row.source_start) _ h λ start _ h.
            >>=-with (db_int row.source_end) _ h λ end _ h.
              >>=-with (db_text row.cache_key) _ h λ key _ h.
                >>=-with
                  (corrupt_if (
                    is_negative start
                    || (ltb_ℤ (pos max_token_position) end || not (eqb_ℤ (end -ℤ start) count))))
                  _ h
                  λ _ _ h.
                    >>=-with (revalidated (bounded_text invalid_record max_cache_key_bytes key)) _ h
                      λ _ _ h. >>=-with (db_blob row.record_checksum) _ h λ checksum _ h.
                        >>=-with
                          (corrupt_if (
                            not (
                              same_text checksum (
                                record_checksum sha256 ns digest key (pos_part start) (pos_part end)
                                  blob))))
                          _ h λ _ _ h. record_of-fields ns digest ids start end key h

  -- Whatever a row has, a record that is read of it has the namespace and the fingerprint that were
  -- asked for, and passes the tests for records.
  pub record_from_row-IsRead :
      (row : Row) (expected : CacheNamespace) (fp : SegmentFingerprint) {r : CacheRecord}
      → record_from_row sha256 row expected fp ≡ ok r
      → IsRead expected fp r
  unfolding record_from_row
  record_from_row-IsRead row expected fp {r} h = >>=-with (namespace_from_row row) _ h λ ns _ h.
      >>=-with (db_blob row.namespace_key) _ h λ key _ h.
        >>=-with
          (corrupt_if (
            not (same_text key (namespace_key sha256 ns))
            || not (holds (CacheNamespace-discrete ns expected))))
          _ h
          λ _ e h. >>=-with (db_blob row.fingerprint) _ h λ digest _ h.
            >>=-with (corrupt_if (not (same_text digest fp.digest))) _ h λ _ f h.
              let same_namespace : ns ≡ expected = decided (CacheNamespace-discrete ns expected) (
                second_false (not (same_text key (namespace_key sha256 ns)))
                  (raise_if-eq-ok _ _ e)) in
              let same_digest : digest ≡ fp.digest =
                decided (tokens_discrete digest fp.digest) (raise_if-eq-ok _ _ f) in
              let (p, q, checked) = read_rest-fields row ns digest h in
              (p ∙ same_namespace, q ∙ ap (λ d. record { digest = d }) same_digest, checked)

  each-All :
      {A B : Type 0} (f : A → Kept B) (P : B → Type 0)
      → ((a : A) (b : B) → f a ≡ ok b → P b)
      → (xs : List A) {ys : List B} → each f xs ≡ ok ys
      → All P ys
  unfolding each
  each-All f P step [] h = subst (All P) (ok-injective h) tt
  each-All f P step (x ∷ xs) h = >>=-with (f x) _ h λ y e h.
      >>=-with (each f xs) _ h
        λ ys e' h. subst (All P) (ok-injective h) (step x y e, each-All f P step xs e')

  -- A look-up that succeeds answers with records of the namespace and the fingerprint that were asked
  -- for alone, which pass the tests for records, whatever the rows are.
  pub lookup-IsRead :
      (select : Select sha256) (closed : Bool) (ns : CacheNamespace) (fp : SegmentFingerprint)
      {rs : List CacheRecord}
      → lookup sha256 select closed ns fp ≡ ok rs
      → All (IsRead ns fp) rs
  unfolding lookup
  lookup-IsRead select closed ns fp h =
      >>=-with (raise_if closed (closed_error closed_index)) _ h λ _ _ h.
        >>=-with (check_namespace ns) _ h λ _ _ h. >>=-with (check_fingerprint fp) _ h λ _ _ h.
          >>=-with (select (namespace_key sha256 ns) fp.digest (max_bucket_records + 1)) _ h
            λ rows _ h.
              >>=-with
                (raise_if (ltb max_bucket_records (length rows))
                  (corruption collision_bucket_limit))
                _ h
                λ _ _ h.
                  each-All (λ row. record_from_row sha256 row ns fp) (IsRead ns fp)
                    (λ row r e. record_from_row-IsRead row ns fp e) rows h

  each-written :
      (ns : CacheNamespace) (fp : SegmentFingerprint) (rs : List CacheRecord)
      → All (IsRead ns fp) rs
      → each (λ row. record_from_row sha256 row ns fp) (map (database_values sha256) rs) ≡ ok rs
  unfolding each
  each-written ns fp [] h = refl
  each-written ns fp (r ∷ rs) ((e, f, c), h) =
      let head : record_from_row sha256 (database_values sha256 r) ns fp ≡ ok r =
        subst₂ (λ n p. record_from_row sha256 (database_values sha256 r) n p ≡ ok r) e f
          (record_from_row-written sha256 r c) in
      rw (head, each-written ns fp rs h) refl

  -- If an open index selects the rows that were written for some valid records of a namespace and a
  -- fingerprint, no more than a bucket holds, a look-up of these answers with the very records.
  pub lookup-written :
      (select : Select sha256) (ns : CacheNamespace) (fp : SegmentFingerprint)
      (rs : List CacheRecord)
      → All (IsRead ns fp) rs
      → length rs ≤ max_bucket_records
      → check_namespace ns ≡ ok tt
      → check_fingerprint fp ≡ ok tt
      → select (namespace_key sha256 ns) fp.digest (max_bucket_records + 1)
        ≡ ok (map (database_values sha256) rs)
      → lookup sha256 select false ns fp ≡ ok rs
  unfolding lookup
  lookup-written select ns fp rs read few space mark e =
      let few_rows : ltb max_bucket_records (length (map (database_values sha256) rs)) ≡ false =
        ground (arith, length-map (database_values sha256) rs, few) in
      rw (space, mark, e, few_rows) (each-written ns fp rs read)
