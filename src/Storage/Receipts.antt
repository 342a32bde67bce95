-- ===== src/Storage/Receipts.antt =====
-- What the receipt of a store admits: `LmcacheStoreReceipt.__post_init__` of
-- src/cacheblend_gpt_oss/storage/lmcache_types.py.
use cacheblend_gpt_oss.Prelude.{
  ℕ, zero, suc, ◌+◌, ◌*◌, ◌≤◌, ◌≡◌, ◌∙◌, ap, sym, All, get_elem?, refl, Bool, true, false, List, [],
  ◌∷◌, Option, none, some, Value, ok, >>=-eq-ok, length, subst, if◌then◌else◌, arith, decided,
}
use cacheblend_gpt_oss.Planner.Models.{
  CacheNamespace, CacheRecord, CacheNamespace-discrete, SegmentFingerprint-discrete,
}
use cacheblend_gpt_oss.Planner.Models.Laws.{IsCacheRecord}
use cacheblend_gpt_oss.Planner.Matching.{Fingerprinter}
use cacheblend_gpt_oss.Staging.Config.{chunk_size}
use cacheblend_gpt_oss.Storage.Types.{
  follows, check_receipt_records, require_receipt_int, boolean, LmcacheStoreReceipt,
  counted_receipt, store_receipt,
}

abbrev pub Follows : Option (ℕ × CacheNamespace) → CacheRecord → Type 0
Follows none r = Unit
Follows (some (end, ns)) r = (r.source_range.start ≡ end) × (r.namespace ≡ ns)

module _ (fingerprint : Fingerprinter) where
  -- The records are chunks with their own fingerprints, each where the one before ends and in its
  -- namespace.
  abbrev pub IsChain : Option (ℕ × CacheNamespace) → List CacheRecord → Type 0
  IsChain before [] = Unit
  IsChain before (r ∷ rs) =
      (length r.token_ids ≡ chunk_size)
      × Follows before r
      × (r.fingerprint ≡ fingerprint r.namespace r.token_ids)
      × IsChain (some (r.source_range.end, r.namespace)) rs

  follows-Follows :
      (before : Option (ℕ × CacheNamespace)) (r : CacheRecord)
      → follows before r ≡ ok tt
      → Follows before r
  follows-Follows none r h = tt
  follows-Follows (some (end, ns)) r h =
      (ground arith, decided (CacheNamespace-discrete r.namespace ns) (ground arith))

  check_receipt_records-IsChain :
      (before : Option (ℕ × CacheNamespace)) (rs : List CacheRecord)
      → check_receipt_records fingerprint before rs ≡ ok tt
      → IsChain before rs
  unfolding check_receipt_records
  check_receipt_records-IsChain before [] h = tt
  check_receipt_records-IsChain before (r ∷ rs) h =
      let first : follows before r ≡ ok tt = ground arith in
      let rest : check_receipt_records fingerprint (some (r.source_range.end, r.namespace)) rs
          ≡ ok tt =
        ground arith in
      (
        ground arith,
        follows-Follows before r first,
        decided (SegmentFingerprint-discrete r.fingerprint (fingerprint r.namespace r.token_ids))
            (ground arith),
        check_receipt_records-IsChain (some (r.source_range.end, r.namespace)) rs rest,
      )

  abbrev pub IsReceipt : LmcacheStoreReceipt → Type 0
  IsReceipt r =
      (r.stored_tokens ≡ r.stored_chunks * chunk_size)
      × (length r.sidecar_records ≡ (if r.candidate_lookup_required then r.stored_chunks else 0))
      × IsChain none r.sidecar_records

  counted_receipt-IsReceipt :
      (tokens chunks : ℕ) (required : Bool) (records : List CacheRecord)
      {receipt : LmcacheStoreReceipt}
      → counted_receipt fingerprint tokens chunks required records ≡ ok receipt
      → IsReceipt receipt
  unfolding counted_receipt
  counted_receipt-IsReceipt tokens chunks true records {receipt} h =
      let whole : tokens ≡ chunks * chunk_size = ground arith in
      let as_many : length records ≡ chunks = ground arith in
      let chain = check_receipt_records-IsChain none records (ground arith) in
      let same : record {
        stored_tokens = tokens;
        stored_chunks = chunks;
        candidate_lookup_required = true;
        sidecar_records = records;
      }
          ≡ receipt =
        ground arith in
      subst IsReceipt same (whole, as_many, chain)
  counted_receipt-IsReceipt tokens chunks false [] {receipt} h =
      let whole : tokens ≡ chunks * chunk_size = ground arith in
      let same : record {
        stored_tokens = tokens;
        stored_chunks = chunks;
        candidate_lookup_required = false;
        sidecar_records = [];
      }
          ≡ receipt =
        ground arith in
      subst IsReceipt same (whole, refl, tt)
  counted_receipt-IsReceipt tokens chunks false (r ∷ rs) h = ground arith

  store_receipt-IsReceipt :
      (tokens chunks required : Value) (records : List CacheRecord) {receipt : LmcacheStoreReceipt}
      → store_receipt fingerprint tokens chunks required records ≡ ok receipt
      → IsReceipt receipt
  unfolding store_receipt
  store_receipt-IsReceipt tokens chunks required records h =
      let (t, _, h₁) = >>=-eq-ok (require_receipt_int tokens) _ h in
      let (c, _, h₂) = >>=-eq-ok (require_receipt_int chunks) _ h₁ in
      let (b, _, h₃) = >>=-eq-ok (boolean required) _ h₂ in
      counted_receipt-IsReceipt t c b records h₃

  counted_receipt-keeps :
      (tokens chunks : ℕ) (required : Bool) (records : List CacheRecord)
      {receipt : LmcacheStoreReceipt}
      → counted_receipt fingerprint tokens chunks required records ≡ ok receipt
      → receipt.sidecar_records ≡ records
  unfolding counted_receipt
  counted_receipt-keeps tokens chunks true records h = ground arith
  counted_receipt-keeps tokens chunks false records h = ground arith

  store_receipt-keeps :
      (tokens chunks required : Value) (records : List CacheRecord) {receipt : LmcacheStoreReceipt}
      → store_receipt fingerprint tokens chunks required records ≡ ok receipt
      → receipt.sidecar_records ≡ records
  unfolding store_receipt
  store_receipt-keeps tokens chunks required records h =
      let (t, _, h₁) = >>=-eq-ok (require_receipt_int tokens) _ h in
      let (c, _, h₂) = >>=-eq-ok (require_receipt_int chunks) _ h₁ in
      let (b, _, h₃) = >>=-eq-ok (boolean required) _ h₂ in counted_receipt-keeps t c b records h₃

  -- The record's place in the source and in the namespace, as the number-th chunk from a position on.
  abbrev pub IsChunk : ℕ → CacheNamespace → ℕ → CacheRecord → Type 0
  IsChunk start ns i r =
      (r.source_range.start ≡ start + i * chunk_size)
      × (r.source_range.end ≡ start + (i + 1) * chunk_size)
      × (r.namespace ≡ ns)
      × (r.fingerprint ≡ fingerprint ns r.token_ids)

  first-IsChunk :
      (start : ℕ) (ns : CacheNamespace) (r : CacheRecord)
      → r.source_range.start ≡ start
      → r.namespace ≡ ns
      → length r.token_ids ≡ chunk_size
      → IsCacheRecord r
      → r.fingerprint ≡ fingerprint r.namespace r.token_ids
      → IsChunk start ns 0 r
  first-IsChunk start ns r e n l v p =
      (omega (arith, e), omega (arith, v.fits, e, l), n, p ∙ ap (λ m. fingerprint m r.token_ids) n)

  chain-IsChunk :
      (end : ℕ) (ns : CacheNamespace) (rs : List CacheRecord) (i : ℕ) {r : CacheRecord}
      → All IsCacheRecord rs
      → IsChain (some (end, ns)) rs
      → get_elem? rs i ≡ some r
      → IsChunk end ns i r × (suc i ≤ length rs)
  chain-IsChunk end ns [] i v c e = cc
  chain-IsChunk end ns (q ∷ rs) zero {r} v (l, (s, n), p, c) e =
      let same : q ≡ r = cc in
      (subst (IsChunk end ns 0) same (first-IsChunk end ns q s n l v.0 p), omega arith)
  chain-IsChunk end ns (q ∷ rs) (suc i) {r} v (l, (s, n), p, c) e =
      let ((a, b, m, d), u) = chain-IsChunk q.source_range.end q.namespace rs i v.1 c e in
      let fit = v.0.fits in
      (
        (
          omega (arith, a, fit, s, l),
          omega (arith, b, fit, s, l),
          m ∙ n,
          d ∙ ap (λ k. fingerprint k r.token_ids) n,
        ),
        omega (arith, u),
      )

  -- If the records of an accepted receipt are valid, they tile its source: the record with the
  -- number `i` is the chunk that starts `i` chunks after the start of the first one, in the namespace
  -- of the first one and with the fingerprint of its tokens there, and it ends within the stored
  -- tokens.
  pub store_receipt-tiles :
      (tokens chunks required : Value) (f : CacheRecord) (rs : List CacheRecord) (i : ℕ)
      {r : CacheRecord} {receipt : LmcacheStoreReceipt}
      → All IsCacheRecord (f ∷ rs)
      → store_receipt fingerprint tokens chunks required (f ∷ rs) ≡ ok receipt
      → get_elem? (f ∷ rs) i ≡ some r
      → IsChunk f.source_range.start f.namespace i r
        × ((i + 1) * chunk_size ≤ receipt.stored_tokens)
  store_receipt-tiles tokens chunks required f rs i {r} {receipt} v h e =
      let kept = store_receipt-keeps tokens chunks required (f ∷ rs) h in
      let (whole, count, chain) = store_receipt-IsReceipt tokens chunks required (f ∷ rs) h in
      let (l, _, p, c) = subst (IsChain none) kept chain in
      let (k, u) =
        chain-IsChunk f.source_range.start f.namespace (f ∷ rs) i v (l, (refl, refl), p, c) e in
      let as_many : length (f ∷ rs)
          ≡ (if receipt.candidate_lookup_required then receipt.stored_chunks else 0) =
        sym (ap length kept) ∙ count in
      (k, enough receipt.candidate_lookup_required receipt.stored_chunks as_many whole u)
    where
      enough :
          (b : Bool) (m : ℕ) {n t i : ℕ}
          → suc n ≡ (if b then m else 0)
          → t ≡ m * chunk_size
          → suc i ≤ suc n
          → (i + 1) * chunk_size ≤ t
      enough true m c w u = omega (arith, c, w, u)
      enough false m c w u = cc
