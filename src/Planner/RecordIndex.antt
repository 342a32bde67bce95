-- ===== src/Planner/RecordIndex.antt =====
-- The in-memory record index: `InMemoryRecordIndex` of
-- src/cacheblend_gpt_oss/planner/matching.py.
use cacheblend_gpt_oss.Prelude.{
  ℕ, Bool, false, List, [], ◌∷◌, ◌++◌, Text, holds, if◌then◌else◌, sorted, nat_order, pair_order,
  list_order,
}
use cacheblend_gpt_oss.Planner.Models.{
  CacheNamespace, SegmentFingerprint, CacheRecord, CacheNamespace-discrete,
  SegmentFingerprint-discrete,
}
use cacheblend_gpt_oss.Planner.Matching.{RecordLookup}

-- `InMemoryRecordIndex`: the dict, a bucket of records for each namespace and digest.
abbrev pub Buckets : Type 0
Buckets = List ((CacheNamespace × SegmentFingerprint) × List CacheRecord)

abbrev pub same_key :
    CacheNamespace × SegmentFingerprint → CacheNamespace × SegmentFingerprint → Bool
same_key (n, f) (m, g) =
    if holds (CacheNamespace-discrete n m) then holds (SegmentFingerprint-discrete f g) else false

-- `self._records.setdefault(key, []).append(record)`
unfoldable pub append_record : CacheNamespace × SegmentFingerprint → CacheRecord → Buckets → Buckets
append_record k r [] = (k, r ∷ []) ∷ []
append_record k r ((j, rs) ∷ b) =
    if same_key j k then (j, rs ++ r ∷ []) ∷ b else (j, rs) ∷ append_record k r b

unfoldable pub bucket : CacheNamespace × SegmentFingerprint → Buckets → List CacheRecord
bucket k [] = []
bucket k ((j, rs) ∷ b) = if same_key j k then rs else bucket k b

unfoldable pub index_add : Buckets → CacheRecord → Buckets
unfolding append_record
index_add b r = append_record (r.namespace, r.fingerprint) r b

unfoldable pub index_of : Buckets → List CacheRecord → Buckets
unfolding index_add
index_of b [] = b
index_of b (r ∷ rs) = index_of (index_add b r) rs

abbrev pub record_sort_key : CacheRecord → Text × (ℕ × ℕ)
record_sort_key r = (r.cache_key, (r.source_range.start, r.source_range.end))

unfoldable pub index_lookup : Buckets → RecordLookup
unfolding bucket sorted
index_lookup b ns fp = sorted record_sort_key (bucket (ns, fp) b)
