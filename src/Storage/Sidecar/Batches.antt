-- ===== src/Storage/Sidecar/Batches.antt =====
-- What a batch leaves in the table of src/cacheblend_gpt_oss/storage/sidecar.py.
use cacheblend_gpt_oss.Prelude.{
  ℕ, suc, ◌+◌, ◌≤◌, ◌≡◌, refl, sym, ap, subst, ◌∙◌, Bool, true, false, not, List, [], ◌∷◌, map, ok,
  raise, raise_if, raise_if-eq-ok, >>=-with, ok-injective, length, All, arith, ltb, leb, decided,
  Result-cases, inl, inr,
}
use cacheblend_gpt_oss.Planner.Models.{CacheRecord-discrete, CacheRecord}
use cacheblend_gpt_oss.Storage.Sidecar.{
  Kept, configuration, mode_error, closed_error, invalid_record, closed_index, write_forbidden,
  check_record,
}
use cacheblend_gpt_oss.Storage.Sidecar.Rows.{Row, database_values, encode_record, record_from_row}
use cacheblend_gpt_oss.Storage.Sidecar.RoundTrip.{record_from_row-written}
use cacheblend_gpt_oss.Storage.Sidecar.Writing.{
  Statements, IsTable, SidecarMode, may_write, max_transaction_records, max_transaction_tokens,
  encode_batch, confirm_existing, insert_record, insert_batch, committed, add_many,
}

module _ (sha256 : List ℕ → List ℕ) where
  -- A record with the row that is written for it.
  abbrev IsEncoded : CacheRecord × Row → Type 0
  IsEncoded e = (check_record e.0 ≡ ok tt) × (e.1 ≡ database_values sha256 e.0)

  encode_record-row :
      (r : CacheRecord) {row : Row} → encode_record sha256 r ≡ ok row → IsEncoded (r, row)
  unfolding encode_record
  encode_record-row r h = >>=-with (check_record r) _ h λ u c h. (c, sym (ok-injective h))

  encode_batch-IsEncoded :
      (count total : ℕ) (rs : List CacheRecord) {encoded : List (CacheRecord × Row)}
      → encode_batch sha256 count total rs ≡ ok encoded
      → All IsEncoded encoded × (map (λ e. e.0) encoded ≡ rs)
  unfolding encode_batch
  encode_batch-IsEncoded count total [] h =
      subst (λ es. All IsEncoded es × (map (λ e. e.0) es ≡ [])) (ok-injective h) (tt, refl)
  encode_batch-IsEncoded count total (r ∷ rs) h =
      >>=-with (raise_if (leb max_transaction_records count) (configuration invalid_record)) _ h
        λ _ _ h. >>=-with (encode_record sha256 r) _ h λ row e h.
          >>=-with
            (raise_if (ltb max_transaction_tokens (total + length r.token_ids))
              (configuration invalid_record))
            _ h
            λ _ _ h.
              >>=-with (encode_batch sha256 (suc count) (total + length r.token_ids) rs) _ h
                λ rest e' h.
                  let (all, same) =
                    encode_batch-IsEncoded (suc count) (total + length r.token_ids) rs e' in
                  subst (λ es. All IsEncoded es × (map (λ e. e.0) es ≡ r ∷ rs)) (ok-injective h)
                    ((encode_record-row r e, all), ap (λ l. r ∷ l) same)

  confirm_existing-reads :
      (r : CacheRecord) (rows : List Row)
      → confirm_existing sha256 r rows ≡ ok tt
      → (row : Row) × (rows ≡ row ∷ [])
        × (record_from_row sha256 row r.namespace r.fingerprint ≡ ok r)
  unfolding confirm_existing
  confirm_existing-reads r [] h = cc
  confirm_existing-reads r (row ∷ []) h =
      >>=-with (record_from_row sha256 row r.namespace r.fingerprint) _ h λ existing e h.
        (row, refl, e ∙ ap ok (decided (CacheRecord-discrete existing r) (raise_if-eq-ok _ _ h)))
  confirm_existing-reads r (row ∷ other ∷ rows) h = cc

  module _ {T : Type 0} (statements : Statements T) (Has : T → Row → Type 0)
      (table : IsTable statements Has) where
    -- Some row of the table reads back as the record.
    abbrev pub Readable : T → CacheRecord → Type 0
    Readable t r =
        (row : Row) × Has t row × (record_from_row sha256 row r.namespace r.fingerprint ≡ ok r)

    abbrev pub Grows : T → T → Type 0
    Grows t t' = (row : Row) → Has t row → Has t' row

    -- After one round the record is readable, all rows are still there, and at most one is new.
    abbrev Added : CacheRecord → ℕ → T → ℕ × T → Type 0
    Added r n t (n', t') = Readable t' r × Grows t t' × (n' ≤ suc n)

    insert_record-Added :
        (r : CacheRecord) (row : Row) (n : ℕ) (t : T) (fresh : Bool) (t₁ : T) {out : ℕ × T}
        → IsEncoded (r, row)
        → statements.insert t row ≡ ok (fresh, t₁)
        → insert_record sha256 statements r row n t ≡ ok out
        → Added r n t out
    unfolding insert_record
    insert_record-Added r row n t true t₁ {out} (c, same) e h =
        let at : ok (suc n, t₁) ≡ ok out = rw e at h in
        let reads =
          subst (λ row. record_from_row sha256 row r.namespace r.fingerprint ≡ ok r) (sym same)
            (record_from_row-written sha256 r c) in
        subst (Added r n t) (ok-injective at)
          ((row, table.inserted t row t₁ e, reads), table.kept t row true t₁ e, omega arith)
    insert_record-Added r row n t false t₁ {out} (c, same) e h =
        >>=-with (statements.by_checksum t₁ row.record_checksum) _ (rw e at h) λ rows q h.
          >>=-with (confirm_existing sha256 r rows) _ h λ _ d h.
            let (old, one, reads) = confirm_existing-reads r rows d in
            let there = subst (All (Has t₁)) one (table.found t₁ row.record_checksum rows q) in
            subst (Added r n t) (ok-injective h)
              ((old, there.0, reads), table.kept t row false t₁ e, omega arith)

    insert_round :
        (r : CacheRecord) (row : Row) (n : ℕ) (t : T) {out : ℕ × T}
        → IsEncoded (r, row)
        → insert_record sha256 statements r row n t ≡ ok out
        → Added r n t out
    unfolding insert_record
    insert_round r row n t {out} valid h = elim (Result-cases (statements.insert t row)) [
      | inl (got, e) ↦ insert_record-Added r row n t got.0 got.1 valid e h
      | inr (error, e) ↦ let at : raise error ≡ ok out = rw e at h in cc
    ]

    abbrev Stored : List CacheRecord → ℕ → T → ℕ × T → Type 0
    Stored rs n t (n', t') = All (Readable t') rs × Grows t t' × (n' ≤ n + length rs)

    grown-Readable : (t t' : T) (r : CacheRecord) → Grows t t' → Readable t r → Readable t' r
    grown-Readable t t' r grows (row, there, reads) = (row, grows row there, reads)

    insert_batch-Stored :
        (encoded : List (CacheRecord × Row)) (n : ℕ) (t : T) {out : ℕ × T}
        → All IsEncoded encoded
        → insert_batch sha256 statements encoded n t ≡ ok out
        → Stored (map (λ e. e.0) encoded) n t out
    unfolding insert_batch
    insert_batch-Stored [] n t valid h =
        subst (Stored [] n t) (ok-injective h) (tt, (λ row there. there), omega arith)
    insert_batch-Stored ((r, row) ∷ encoded) n t {out} (valid, all) h =
        >>=-with (insert_record sha256 statements r row n t) _ h λ got e h.
          let (reads, grows, few) = insert_round r row n t valid e in
          let (rest, grows', few') = insert_batch-Stored encoded got.0 got.1 all h in
          (
            (grown-Readable got.1 out.1 r grows' reads, rest),
            λ other there. grows' other (grows other there),
            omega (arith, few, few'),
          )

    committed-ok :
        (t : T) (result : Kept (ℕ × T)) {n : ℕ} {t' : T}
        → committed sha256 statements t result ≡ (ok n, t')
        → result ≡ ok (n, t')
    committed-ok t (ok got) h = cc
    committed-ok t (raise e) h = cc

    -- After a batch was added, each of its records is read back from some row of the table, every
    -- row that was there before still is, and no more rows were inserted than records were given.
    pub add_many-Stored :
        (mode : SidecarMode) (closed : Bool) (rs : List CacheRecord) (t : T) {n : ℕ} {t' : T}
        → add_many sha256 statements mode closed rs t ≡ (ok n, t')
        → All (Readable t') rs × Grows t t' × (n ≤ length rs)
    unfolding add_many
    add_many-Stored mode closed rs t {n} {t'} h =
        >>=-with (raise_if closed (closed_error closed_index)) _ (committed-ok t _ h) λ _ _ h.
          >>=-with (raise_if (not (may_write mode)) (mode_error write_forbidden)) _ h λ _ _ h.
            >>=-with (encode_batch sha256 0 0 rs) _ h λ encoded e h.
              let (valid, same) = encode_batch-IsEncoded 0 0 rs e in
              let stored : Stored rs 0 t (n, t') =
                subst (λ l. Stored l 0 t (n, t')) same (insert_batch-Stored encoded 0 t valid h) in
              (stored.0, stored.1, omega (arith, stored.2))
