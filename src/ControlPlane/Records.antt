-- ===== src/ControlPlane/Records.antt =====
-- The immutable values of the request control plane, with their `__post_init__` tests:
-- src/cacheblend_gpt_oss/connector/control_plane.py.
use cacheblend_gpt_oss.Prelude.{
  ℕ, suc, Bool, false, not, ◌||◌, List, [], ◌∷◌, ◌++◌, map, Text, Value, int, str, pos, nat, Result,
  ok, raise, ◌>>=◌, ◌>>◌, raise_if, each, ltb, ◌==◌, length, any, sorted, Option, none, some,
  member, has_duplicates, same, nat_order, pair_order, list_order, ℕ_discrete,
}
use cacheblend_gpt_oss.Planner.Models.{
  TokenRange, TokenSegment, overlaps, TokenSegment-discrete, tokens_discrete, text_lists_discrete,
  SegmentFingerprint-discrete,
}
use cacheblend_gpt_oss.Planner.Coverage
use cacheblend_gpt_oss.Planner.Matching.{MatchPlan, VerifiedMatch, match_target, matched_tokens}

pub data RequestPhase : Type 0 where
  looked_up allocated handed_off worker_validated finished : RequestPhase

pub data ErrorCode : Type 0 where
  unknown_request duplicate_request_conflict lifecycle_misuse invalid_request_plan : ErrorCode
  invalid_group_layout group_count_mismatch group_layout_mismatch invalid_block_id : ErrorCode
  nonzero_external_tokens metadata_schema_mismatch stale_allocation : ErrorCode
  invalid_worker_result : ErrorCode

-- A call that returns, or fails with `ControlPlaneError`.
abbrev pub Controlled {ℓ} : Type ℓ → Type ℓ
Controlled = Result ErrorCode

abbrev pub metadata_schema_version : ℕ
metadata_schema_version = 1

abbrev pub full_recompute_external_tokens : ℕ
full_recompute_external_tokens = 0

-- The module's own copy of the planner's sweep.
abbrev pub covered_token_count : List TokenSegment → ℕ
covered_token_count = Coverage.covered_token_count

abbrev pub segment_sort_key : TokenSegment → ℕ × (ℕ × List ℕ)
segment_sort_key s = (s.token_range.start, (s.token_range.end, s.token_ids))

abbrev pub natural_or : ErrorCode → Value → Controlled ℕ
natural_or e (int (pos n)) = ok n
natural_or e _ = raise e

-- A non-empty `str`.
abbrev pub text_or : ErrorCode → Value → Controlled Text
text_or e (str t) = do raise_if (length t == 0) e; ok t
text_or e _ = raise e

pub record CacheGroupLayout : Type 0 where
  pub layer_names_by_group : List (List Text)

abbrev pub flattened : List (List Text) → List Text
flattened [] = []
flattened (g ∷ gs) = g ++ flattened gs

unfoldable pub cache_group_layout : List (List Value) → Controlled CacheGroupLayout
unfolding each has_duplicates
cache_group_layout groups = do
  raise_if (length groups == 0 || any (λ g. length g == 0) groups) invalid_group_layout
  named ← each (each (text_or invalid_group_layout)) groups
  raise_if (has_duplicates tokens_discrete (flattened named)) invalid_group_layout
  ok (record { layer_names_by_group = named })

abbrev pub group_count : CacheGroupLayout → ℕ
group_count l = length l.layer_names_by_group

pub record GroupBlockSnapshot : Type 0 where
  pub group_index : ℕ
  pub layer_names : List Text
  pub block_ids : List ℕ

unfoldable pub group_block_snapshot :
    Value → List Value → List Value → Controlled GroupBlockSnapshot
unfolding each has_duplicates
group_block_snapshot index names blocks = do
  index' ← natural_or invalid_group_layout index
  raise_if (length names == 0) invalid_group_layout
  names' ← each (text_or invalid_group_layout) names
  blocks' ← each (natural_or invalid_block_id) blocks
  raise_if (has_duplicates ℕ_discrete blocks') invalid_block_id
  ok (record { group_index = index'; layer_names = names'; block_ids = blocks' })

pub record GroupedBlockAllocation : Type 0 where
  pub group_layout : CacheGroupLayout
  pub groups : List GroupBlockSnapshot

-- The loop over the groups; the two sequences have one length by then.
unfoldable pub check_groups : ℕ → List (List Text) → List GroupBlockSnapshot → Controlled (Unit {0})
check_groups i (names ∷ layout) (g ∷ gs) = do
  raise_if (not (g.group_index == i)) invalid_group_layout
  raise_if (not (same (text_lists_discrete) g.layer_names names)) group_layout_mismatch
  check_groups (suc i) layout gs
check_groups i _ _ = ok tt

unfoldable pub grouped_block_allocation :
    CacheGroupLayout → List GroupBlockSnapshot → Controlled GroupedBlockAllocation
unfolding check_groups
grouped_block_allocation layout groups = do
  raise_if (not (length groups == group_count layout)) group_count_mismatch
  check_groups 0 layout.layer_names_by_group groups
  ok (record { group_layout = layout; groups = groups })

-- The snapshots of `capture`, for the groups from `i` on.
unfoldable pub capture_groups :
    ℕ → List (List Text) → List (List Value) → Controlled (List GroupBlockSnapshot)
unfolding group_block_snapshot
capture_groups i (names ∷ layout) (blocks ∷ groups) = do
  g ← group_block_snapshot (nat i) (map str names) blocks
  gs ← capture_groups (suc i) layout groups
  ok (g ∷ gs)
capture_groups i _ _ = ok []

unfoldable pub capture : CacheGroupLayout → List (List Value) → Controlled GroupedBlockAllocation
unfolding capture_groups grouped_block_allocation
capture layout blocks = do
  raise_if (not (length blocks == group_count layout)) group_count_mismatch
  groups ← capture_groups 0 layout.layer_names_by_group blocks
  grouped_block_allocation layout groups

pub record RequestPlan : Type 0 where
  pub request_id : Text
  pub prompt_tokens : ℕ
  pub query_segments : List TokenSegment
  pub match_plan : MatchPlan

abbrev pub precedes : TokenSegment → Option TokenSegment → Bool
precedes s none = false
precedes s (some previous) =
    not ((pair_order ⦃o = nat_order⦄).le (segment_sort_key previous) (segment_sort_key s))

-- The loop over the matches: the ranges so far, and the previous target.
unfoldable pub check_matches :
    List TokenSegment
    → List TokenRange
    → Option TokenSegment
    → List VerifiedMatch
    → Controlled (Unit {0})
check_matches queries ranges previous [] = ok tt
check_matches queries ranges previous (m ∷ ms) = do
  let target = match_target m
  let cached = m.candidate.cached
  raise_if (not (member TokenSegment-discrete target queries)) invalid_request_plan
  raise_if (not (same tokens_discrete target.token_ids cached.token_ids)) invalid_request_plan
  raise_if (not (same SegmentFingerprint-discrete m.candidate.query_fingerprint cached.fingerprint))
      invalid_request_plan
  raise_if (any (overlaps target.token_range) ranges) invalid_request_plan
  raise_if (precedes target previous) invalid_request_plan
  check_matches queries (ranges ++ target.token_range ∷ []) (some target) ms

unfoldable pub request_plan : Value → Value → List TokenSegment → MatchPlan → Controlled RequestPlan
request_plan id prompt segments matches = do
  id' ← text_or invalid_request_plan id
  prompt' ← natural_or invalid_request_plan prompt
  let queries = sorted segment_sort_key segments
  raise_if (has_duplicates TokenSegment-discrete queries) invalid_request_plan
  raise_if (any (λ s. ltb prompt' s.token_range.end) queries) invalid_request_plan
  raise_if (not (matches.requested_tokens == covered_token_count queries)) invalid_request_plan
  raise_if (ltb matches.requested_tokens (matched_tokens matches)) invalid_request_plan
  check_matches queries [] none matches.matches
  raise_if
      (any (λ r. not (member TokenSegment-discrete r.candidate.target_segment queries))
        matches.rejected_candidates)
      invalid_request_plan
  ok (record {
    request_id = id';
    prompt_tokens = prompt';
    query_segments = queries;
    match_plan = matches;
  })

-- `RequestPlan.external_scheduler_tokens`
abbrev pub plan_external_tokens : RequestPlan → ℕ
plan_external_tokens p = full_recompute_external_tokens

pub record RequestAllocation : Type 0 where
  pub request_id : Text
  pub allocation_generation : ℕ
  pub grouped_blocks : GroupedBlockAllocation
  pub external_scheduler_tokens : ℕ

unfoldable pub request_allocation :
    Value → Value → GroupedBlockAllocation → Value → Controlled RequestAllocation
request_allocation id generation blocks external = do
  id' ← text_or invalid_request_plan id
  generation' ← natural_or stale_allocation generation
  external' ← natural_or nonzero_external_tokens external
  raise_if (not (external' == full_recompute_external_tokens)) nonzero_external_tokens
  ok (record {
    request_id = id';
    allocation_generation = generation';
    grouped_blocks = blocks;
    external_scheduler_tokens = external';
  })

pub record HandoffMetadata : Type 0 where
  pub schema_version : ℕ
  pub plan : RequestPlan
  pub allocation : RequestAllocation

unfoldable pub handoff_metadata :
    Value → RequestPlan → RequestAllocation → Controlled HandoffMetadata
handoff_metadata version plan allocation = do
  version' ← natural_or metadata_schema_mismatch version
  raise_if (not (version' == metadata_schema_version)) metadata_schema_mismatch
  raise_if (not (same tokens_discrete plan.request_id allocation.request_id)) invalid_request_plan
  raise_if (not (plan_external_tokens plan == allocation.external_scheduler_tokens))
      nonzero_external_tokens
  ok (record { schema_version = version'; plan = plan; allocation = allocation })

unfoldable pub normalize_match_indexes : List Value → Controlled (List ℕ)
unfolding each has_duplicates sorted
normalize_match_indexes indexes = do
  normalized ← each (natural_or invalid_worker_result) indexes
  raise_if (has_duplicates ℕ_discrete normalized) invalid_worker_result
  ok (sorted (λ i. i) normalized)

pub record ValidationReceipt : Type 0 where
  pub request_id : Text
  pub allocation : RequestAllocation
  pub loaded_match_indexes : List ℕ
  pub rejected_match_indexes : List ℕ

unfoldable pub validation_receipt :
    Text → RequestAllocation → List Value → List Value → Controlled ValidationReceipt
unfolding normalize_match_indexes
validation_receipt id allocation loaded rejected = do
  raise_if (not (same tokens_discrete id allocation.request_id)) invalid_worker_result
  loaded' ← normalize_match_indexes loaded
  rejected' ← normalize_match_indexes rejected
  raise_if (any (λ i. member ℕ_discrete i rejected') loaded') invalid_worker_result
  ok (record {
    request_id = id;
    allocation = allocation;
    loaded_match_indexes = loaded';
    rejected_match_indexes = rejected';
  })
