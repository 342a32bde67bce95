-- ===== src/Planner/Models.antt =====
-- The planner's value objects: src/cacheblend_gpt_oss/planner/models.py. A constructor with a
-- `__post_init__` is a function into `Result`; fields that passed its tests have the tested type.
pub mod Laws
use cacheblend_gpt_oss.Prelude.{
  ℕ, suc, ◌+◌, ◌-◌, ℤ, pos, negsuc, sub_ℕ, add_ℕ, Bool, true, false, not, ◌&&◌, List, [], ◌∷◌, Text,
  Value, bool, int, str, bytes, other, nat, nats, Result, ok, raise, ◌>>=◌, ◌>>◌, raise_if, each,
  ltb, ◌==◌, elem, length, if◌then◌else◌, ℕ_discrete,
}

pub data PlannerError : Type 0 where
  type_error value_error : PlannerError

abbrev pub Checked : Type 0 → Type 0
Checked = Result PlannerError

abbrev pub max_token_id : ℕ
max_token_id = 18446744073709551615

unfoldable pub normalize_token_id : Value → Checked ℕ
normalize_token_id (int (pos n)) = do raise_if (ltb max_token_id n) value_error; ok n
normalize_token_id (int (negsuc n)) = raise value_error
normalize_token_id _ = raise type_error

unfoldable pub normalize_token_ids : List Value → Checked (List ℕ)
unfolding each normalize_token_id
normalize_token_ids = each normalize_token_id

pub record TokenRange : Type 0 where
  pub start : ℕ
  pub end : ℕ

-- The two sign tests of `TokenRange.__post_init__`.
unfoldable pub ordered_range : ℤ → ℤ → Checked TokenRange
ordered_range (negsuc s) e = raise value_error
ordered_range (pos s) (negsuc e) = raise value_error
ordered_range (pos s) (pos e) = do
  raise_if (ltb e s) value_error
  ok (record { start = s; end = e })

unfoldable pub token_range : Value → Value → Checked TokenRange
unfolding ordered_range
token_range (int s) (int e) = ordered_range s e
token_range _ _ = raise type_error

abbrev pub range_len : TokenRange → ℕ
range_len r = r.end - r.start

abbrev pub overlaps : TokenRange → TokenRange → Bool
overlaps a b = ltb a.start b.end && ltb b.start a.end

pub record TokenSegment : Type 0 where
  pub token_range : TokenRange
  pub token_ids : List ℕ

unfoldable pub token_segment : TokenRange → List Value → Checked TokenSegment
unfolding normalize_token_ids
token_segment r ids = do
  normalized ← normalize_token_ids ids
  raise_if (length normalized == 0) value_error
  raise_if (not (range_len r == length normalized)) value_error
  ok (record { token_range = r; token_ids = normalized })

-- `TokenSegment.at`: a `start` that is no `int` fails in the sum or in `TokenRange`.
unfoldable pub segment_at : Value → List Value → Checked TokenSegment
unfolding token_segment token_range
segment_at (int start) ids = do
  normalized ← normalize_token_ids ids
  r ← token_range (int start) (int (add_ℕ start (length normalized)))
  token_segment r (nats normalized)
segment_at _ ids = do normalize_token_ids ids >>= λ _. raise type_error

abbrev pub segment_len : TokenSegment → ℕ
segment_len s = length s.token_ids

pub record CacheNamespace : Type 0 where
  pub schema_version : ℕ
  pub model_id : Text
  pub model_revision : Text
  pub tokenizer_id : Text
  pub tokenizer_revision : Text
  pub model_config_digest : Text
  pub kv_cache_config_digest : Text
  pub adapter_revision : Text
  pub vllm_version : Text
  pub lmcache_version : Text
  pub torch_version : Text
  pub cuda_runtime : Text

unfoldable pub positive_version : Value → Checked ℕ
positive_version (int (pos n)) = do raise_if (ltb n 1) value_error; ok n
positive_version (int (negsuc n)) = raise value_error
positive_version _ = raise type_error

-- The body of the loop over the textual fields.
unfoldable pub namespace_text : Value → Checked Text
namespace_text (str t) = do
  raise_if (length t == 0) value_error
  raise_if (elem 0 t) value_error
  ok t
namespace_text _ = raise type_error

unfoldable pub cache_namespace :
    Value
    → Value
    → Value
    → Value
    → Value
    → Value
    → Value
    → Value
    → Value
    → Value
    → Value
    → Value
    → Checked CacheNamespace
unfolding positive_version namespace_text
cache_namespace version a b c d e f g h i j k = do
  version' ← positive_version version
  a' ← namespace_text a
  b' ← namespace_text b
  c' ← namespace_text c
  d' ← namespace_text d
  e' ← namespace_text e
  f' ← namespace_text f
  g' ← namespace_text g
  h' ← namespace_text h
  i' ← namespace_text i
  j' ← namespace_text j
  k' ← namespace_text k
  ok (record {
    schema_version = version';
    model_id = a';
    model_revision = b';
    tokenizer_id = c';
    tokenizer_revision = d';
    model_config_digest = e';
    kv_cache_config_digest = f';
    adapter_revision = g';
    vllm_version = h';
    lmcache_version = i';
    torch_version = j';
    cuda_runtime = k';
  })

pub record SegmentFingerprint : Type 0 where
  pub digest : List ℕ

unfoldable pub segment_fingerprint : Value → Checked SegmentFingerprint
segment_fingerprint (bytes b) = do
  raise_if (not (length b == 32)) value_error
  ok (record { digest = b })
segment_fingerprint _ = raise type_error

pub record CacheRecord : Type 0 where
  pub namespace : CacheNamespace
  pub fingerprint : SegmentFingerprint
  pub token_ids : List ℕ
  pub source_range : TokenRange
  pub cache_key : Text

unfoldable pub text_key : Value → Checked Text
text_key (str t) = do raise_if (length t == 0) value_error; ok t
text_key _ = raise type_error

unfoldable pub cache_record :
    CacheNamespace → SegmentFingerprint → List Value → TokenRange → Value → Checked CacheRecord
unfolding normalize_token_ids text_key
cache_record ns fp ids source key = do
  normalized ← normalize_token_ids ids
  raise_if (length normalized == 0) value_error
  raise_if (not (range_len source == length normalized)) value_error
  key' ← text_key key
  ok (record {
    namespace = ns;
    fingerprint = fp;
    token_ids = normalized;
    source_range = source;
    cache_key = key';
  })

pub record CandidateMatch : Type 0 where
  pub target_segment : TokenSegment
  pub query_fingerprint : SegmentFingerprint
  pub cached : CacheRecord

-- The RoPE shift from the cached to the requested position.
unfoldable pub position_delta : CandidateMatch → ℤ
position_delta c = sub_ℕ c.target_segment.token_range.start c.cached.source_range.start

unfoldable pub tokens_discrete : Discrete (List ℕ)
tokens_discrete = hlevel ℕ_discrete

unfoldable pub text_lists_discrete : Discrete (List (List ℕ))
text_lists_discrete = hlevel ℕ_discrete

unfoldable pub TokenRange-discrete : Discrete TokenRange
TokenRange-discrete = hlevel ℕ_discrete

unfoldable pub TokenSegment-discrete : Discrete TokenSegment
TokenSegment-discrete = hlevel ℕ_discrete

unfoldable pub CacheNamespace-discrete : Discrete CacheNamespace
CacheNamespace-discrete = hlevel ℕ_discrete

unfoldable pub SegmentFingerprint-discrete : Discrete SegmentFingerprint
SegmentFingerprint-discrete = hlevel ℕ_discrete

unfoldable pub CacheRecord-discrete : Discrete CacheRecord
CacheRecord-discrete = hlevel ℕ_discrete

unfoldable pub CandidateMatch-discrete : Discrete CandidateMatch
CandidateMatch-discrete = hlevel ℕ_discrete
