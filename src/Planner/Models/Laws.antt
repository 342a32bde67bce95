-- ===== src/Planner/Models/Laws.antt =====
-- What the constructors of src/cacheblend_gpt_oss/planner/models.py admit.
use cacheblend_gpt_oss.Prelude.{
  ℕ, ◌+◌, ◌≤◌, ◌<◌, ◌≡◌, refl, List, [], ◌∷◌, Value, str, int, nat, nats, pos, negsuc, ok, each,
  >>=-eq-ok, length, All, arith, ap,
}
use cacheblend_gpt_oss.Planner.Models.{
  max_token_id, normalize_token_id, normalize_token_ids, TokenRange, token_range, TokenSegment,
  token_segment, segment_at, CacheRecord, cache_record, CacheNamespace, SegmentFingerprint,
  range_len,
}

pub record IsRange (r : TokenRange) : Type 0 where
  pub ordered : r.start ≤ r.end

-- What `__post_init__` leaves of a segment: a non-empty range that is as long as its tokens.
pub record IsSegment (s : TokenSegment) : Type 0 where
  pub nonempty : 0 < length s.token_ids
  pub fits : s.token_range.start + length s.token_ids ≡ s.token_range.end
  pub bounded : All (λ t. t ≤ max_token_id) s.token_ids

pub record IsCacheRecord (r : CacheRecord) : Type 0 where
  pub nonempty : 0 < length r.token_ids
  pub fits : r.source_range.start + length r.token_ids ≡ r.source_range.end
  pub bounded : All (λ t. t ≤ max_token_id) r.token_ids
  pub keyed : 0 < length r.cache_key

normalize_bounded : (v : Value) (n : ℕ) → normalize_token_id v ≡ ok n → n ≤ max_token_id
unfolding normalize_token_id
normalize_bounded v n h = ground arith

pub normalized-All :
    (vs : List Value) {ns : List ℕ}
    → normalize_token_ids vs ≡ ok ns
    → All (λ t. t ≤ max_token_id) ns
unfolding normalize_token_ids
normalized-All [] h = ground arith
normalized-All (v ∷ vs) h =
    let (n, e, h') = >>=-eq-ok (normalize_token_id v) _ h in
    let (ns, e', h'') = >>=-eq-ok (each normalize_token_id vs) _ h' in
    ground (arith, normalize_bounded v n e, normalized-All vs e')

pub normalize-nats :
    (ns : List ℕ) → All (λ t. t ≤ max_token_id) ns → normalize_token_ids (nats ns) ≡ ok ns
unfolding normalize_token_ids
normalize-nats [] h = refl
normalize-nats (n ∷ ns) h = ground (arith, normalize-nats ns h.1)

-- A natural start and end make a range exactly when they are in order.
pub token_range-eq-ok :
    (s e : ℕ) → s ≤ e → token_range (nat s) (nat e) ≡ ok (record { start = s; end = e })
unfolding token_range
token_range-eq-ok s e h = ground arith

-- A range that was built does not end before it starts.
pub token_range-IsRange : (s e : Value) {r : TokenRange} → token_range s e ≡ ok r → IsRange r
unfolding token_range
token_range-IsRange (int (pos s)) (int (pos e)) h = ground arith
token_range-IsRange (int (pos s)) (int (negsuc e)) h = cc
token_range-IsRange (int (negsuc s)) (int e) h = cc
token_range-IsRange _ _ h = cc

-- A segment that was built is non-empty, as long as its range, and holds token ids within bounds,
-- at the range that was asked for.
pub token_segment-IsSegment :
    (r : TokenRange) (ids : List Value) {s : TokenSegment}
    → token_segment r ids ≡ ok s
    → IsSegment s × (s.token_range ≡ r)
unfolding token_segment
token_segment-IsSegment r ids h =
    let (ns, e, h') = >>=-eq-ok (normalize_token_ids ids) _ h in
    ground (arith, normalized-All ids e)

-- A segment that meets the tests is rebuilt as it is from its own fields.
pub token_segment_of_IsSegment :
    (s : TokenSegment) → IsSegment s → token_segment s.token_range (nats s.token_ids) ≡ ok s
unfolding token_segment
token_segment_of_IsSegment s v = ground (arith, normalize-nats s.token_ids v.bounded)

normalize_id-nat : (x : ℕ) {n : ℕ} → normalize_token_id (nat x) ≡ ok n → n ≡ x
unfolding normalize_token_id
normalize_id-nat x h = ground arith

pub normalize-nats_same :
    (xs : List ℕ) {ns : List ℕ} → normalize_token_ids (nats xs) ≡ ok ns → ns ≡ xs
unfolding normalize_token_ids
normalize-nats_same [] h = cc
normalize-nats_same (x ∷ xs) h =
    let (n, e, h') = >>=-eq-ok (normalize_token_id (nat x)) _ h in
    let (ns, e', h'') = >>=-eq-ok (each normalize_token_id (nats xs)) _ h' in
    cc (normalize_id-nat x e, normalize-nats_same xs e')

-- A segment of numbers has those very numbers, at the range that was asked for.
pub token_segment-nats :
    (r : TokenRange) (xs : List ℕ) {s : TokenSegment}
    → token_segment r (nats xs) ≡ ok s
    → (s ≡ record { token_range = r; token_ids = xs }) × (0 < length xs) × (range_len r ≡ length xs)
unfolding token_segment
token_segment-nats r xs h =
    let (ns, e, h') = >>=-eq-ok (normalize_token_ids (nats xs)) _ h in
    let same = normalize-nats_same xs e in ground (arith, ap length same)

-- Non-empty token ids within bounds make a segment at any start, over as many positions.
pub segment_at-eq-ok :
    (start : ℕ) (ids : List ℕ)
    → 0 < length ids
    → All (λ t. t ≤ max_token_id) ids
    → segment_at (nat start) (nats ids)
      ≡ ok (record {
        token_range = record { start = start; end = start + length ids };
        token_ids = ids;
      })
unfolding segment_at
segment_at-eq-ok start ids h b = ground (arith, normalize-nats ids b)

-- A record that meets the tests is rebuilt as it is from its own fields.
pub cache_record_of_IsCacheRecord :
    (r : CacheRecord)
    → IsCacheRecord r
    → cache_record r.namespace r.fingerprint (nats r.token_ids) r.source_range (str r.cache_key)
      ≡ ok r
unfolding cache_record
cache_record_of_IsCacheRecord r v = ground (arith, normalize-nats r.token_ids v.bounded)

-- A record that was built is non-empty, as long as its source range, holds token ids within
-- bounds, and has a key.
pub cache_record-IsCacheRecord :
    (ns : CacheNamespace) (fp : SegmentFingerprint) (ids : List Value) (source : TokenRange)
    (key : Value) {r : CacheRecord}
    → cache_record ns fp ids source key ≡ ok r
    → IsCacheRecord r
unfolding cache_record
cache_record-IsCacheRecord ns fp ids source key h =
    let (ts, e, h') = >>=-eq-ok (normalize_token_ids ids) _ h in
    ground (arith, normalized-All ids e)
