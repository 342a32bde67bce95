-- ===== src/Storage/Lookup/Buckets.antt =====
-- The buckets of src/cacheblend_gpt_oss/storage/lookup.py, from the cache or from the index.
use cacheblend_gpt_oss.Prelude.{
  ◌≡◌, ◌⊎◌, refl, List, Option, none, some, ok, raise, All, All-get, All-put, get, put,
  Option-cases, inl, inr, sorted,
}
use cacheblend_gpt_oss.Planner.Models.{
  CacheNamespace, SegmentFingerprint, CacheRecord, SegmentFingerprint-discrete,
}
use cacheblend_gpt_oss.Storage.Lookup.{
  Looked, lookup_error, sidecar_lookup_failed, RecordIndex, Scan, lookup_bucket, bucket_from,
  cached_bucket, record_order_key, record_order,
}

module _ (index : RecordIndex) (ns : CacheNamespace) where
  -- The bucket is what the index answers, in order.
  abbrev pub FromIndex : SegmentFingerprint → List CacheRecord → Type 0
  FromIndex fp bucket =
      (records : List CacheRecord) × (index ns fp ≡ some records)
      × (bucket ≡ sorted ⦃o = record_order⦄ record_order_key records)

  abbrev pub IsCached : Scan → Type 0
  IsCached s = All (λ e. FromIndex e.0 e.1) s.bucket_cache

  abbrev pub with_cache : List (SegmentFingerprint × List CacheRecord) → Scan → Scan
  with_cache cache s = record s { bucket_cache = cache }

  -- The bucket was found, or the index raised.
  abbrev Answer : SegmentFingerprint → Looked (List CacheRecord) → Type 0
  Answer fp result =
      ((bucket : List CacheRecord) × (result ≡ ok bucket) × FromIndex fp bucket)
      ⊎ ((result ≡ raise (lookup_error sidecar_lookup_failed)) × (index ns fp ≡ none))

  lookup_bucket-Answer : (fp : SegmentFingerprint) → Answer fp (lookup_bucket index ns fp)
  unfolding lookup_bucket
  lookup_bucket-Answer fp = elim (Option-cases (index ns fp)) [
    | inl n ↦ inr (rw n refl, n)
    | inr (records, a) ↦
        inl (sorted ⦃o = record_order⦄ record_order_key records, rw a refl, (records, a, refl))
  ]

  abbrev pub Cached : SegmentFingerprint → Scan → Looked (List CacheRecord × Scan) → Type 0
  Cached fp s result =
      ((bucket : List CacheRecord) × (cache : List (SegmentFingerprint × List CacheRecord))
        × (result ≡ ok (bucket, with_cache cache s))
        × FromIndex fp bucket
        × IsCached (with_cache cache s))
      ⊎ ((result ≡ raise (lookup_error sidecar_lookup_failed)) × (index ns fp ≡ none))

  bucket_from-Cached :
      (fp : SegmentFingerprint) (s : Scan) (o : Option (List CacheRecord))
      → IsCached s
      → get SegmentFingerprint-discrete fp s.bucket_cache ≡ o
      → Cached fp s (bucket_from index ns fp s o)
  bucket_from-Cached fp s (some b) h g = inl (
    b,
    s.bucket_cache,
    refl,
    All-get SegmentFingerprint-discrete FromIndex fp s.bucket_cache h g,
    h,
  )
  bucket_from-Cached fp s none h g = elim (lookup_bucket-Answer fp) [
    | inl (b, e, from) ↦ inl (
      b,
      put SegmentFingerprint-discrete fp b s.bucket_cache,
      rw e refl,
      from,
      All-put SegmentFingerprint-discrete FromIndex fp b s.bucket_cache h from,
    )
    | inr (e, n) ↦ inr (rw e refl, n)
  ]

  pub cached_bucket-Cached :
      (fp : SegmentFingerprint) (s : Scan) → IsCached s → Cached fp s (cached_bucket index ns fp s)
  unfolding cached_bucket
  cached_bucket-Cached fp s h =
      bucket_from-Cached fp s (get SegmentFingerprint-discrete fp s.bucket_cache) h refl
