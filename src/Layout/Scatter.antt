-- ===== src/Layout/Scatter.antt =====
-- Block tables, transfers and scatter plans: src/cacheblend_gpt_oss/gpt_oss/layout.py.
pub mod Slots
pub mod Plans
use cacheblend_gpt_oss.Prelude.{
  ℕ, zero, suc, ◌+◌, ◌*◌, ◌/◌, ◌%◌, ◌-◌, min, ℤ, pos, sub_ℕ, Bool, true, false, not, ◌&&◌, ◌||◌,
  List, [], ◌∷◌, ◌++◌, map, Text, Value, int, Option, none, some, Result, ok, raise, ◌>>=◌, ◌>>◌,
  raise_if, each, ltb, leb, ◌==◌, length, any, elem, filter, if◌then◌else◌, has_duplicates, member,
  sorted, range_from, get_elem?, nat_order, ℕ_discrete,
}
use cacheblend_gpt_oss.Planner.Models.{TokenRange, range_len, tokens_discrete}
use cacheblend_gpt_oss.Planner.Segmentation.{joined}
use cacheblend_gpt_oss.Layout.Names.{
  HybridLayoutErrorCode, invalid_block_id, empty_transfer, range_length_mismatch,
  position_out_of_range, duplicate_block_table, unexpected_block_table, missing_block_table,
  block_size_mismatch, block_table_too_short, block_unavailable, unknown_group, unknown_layer, Laid,
}
use cacheblend_gpt_oss.Layout.Groups.{
  AttentionKind, CacheGroupLayout, AttentionLayerLayout, GptOssHybridCacheLayout, valid_group_id,
  valid_block_size, group_ids, find_group,
}

abbrev pub max_context_tokens : ℕ
max_context_tokens = 131072

abbrev pub max_vllm_block_id : ℕ
max_vllm_block_id = 2147483647

pub record GroupBlockTable : Type 0 where
  pub group_id : ℕ
  pub block_size : ℕ
  pub block_ids : List (Option ℕ)

unfoldable pub valid_block_id : Option Value → Laid (Option ℕ)
valid_block_id none = ok none
valid_block_id (some (int (pos n))) = do
  raise_if (ltb max_vllm_block_id n) invalid_block_id
  ok (some n)
valid_block_id (some _) = raise invalid_block_id

unfoldable pub group_block_table : Value → Value → List (Option Value) → Laid GroupBlockTable
unfolding valid_group_id valid_block_size each valid_block_id
group_block_table id size blocks = do
  id' ← valid_group_id id
  size' ← valid_block_size size
  blocks' ← each valid_block_id blocks
  ok (record { group_id = id'; block_size = size'; block_ids = blocks' })

abbrev pub capacity_tokens : GroupBlockTable → ℕ
capacity_tokens t = length t.block_ids * t.block_size

pub record TokenTransfer : Type 0 where
  pub source_range : TokenRange
  pub target_range : TokenRange

unfoldable pub token_transfer : TokenRange → TokenRange → Laid TokenTransfer
token_transfer source target = do
  raise_if (range_len source == 0 || range_len target == 0) empty_transfer
  raise_if (not (range_len source == range_len target)) range_length_mismatch
  raise_if (ltb max_context_tokens source.end || ltb max_context_tokens target.end)
      position_out_of_range
  ok (record { source_range = source; target_range = target })

abbrev pub transfer_delta : TokenTransfer → ℤ
transfer_delta t = sub_ℕ t.target_range.start t.source_range.start

pub record GroupTokenScatterSpan : Type 0 where
  pub group_id : ℕ
  pub attention_kind : AttentionKind
  pub source_range : TokenRange
  pub target_range : TokenRange
  pub logical_block_index : ℕ
  pub block_id : ℕ
  pub block_size : ℕ
  pub block_offset : ℕ
  pub physical_slot_start : ℕ

pub record LayerTokenScatterSpan : Type 0 where
  pub layer_name : Text
  pub layer_index : ℕ
  pub group_span : GroupTokenScatterSpan

pub record TokenScatterPlan : Type 0 where
  pub transfer : TokenTransfer
  pub group_spans : List GroupTokenScatterSpan
  pub layer_spans : List LayerTokenScatterSpan

unfoldable pub spans_for_group : TokenScatterPlan → ℕ → Laid (List GroupTokenScatterSpan)
spans_for_group p id = do
  let spans = filter (λ s. s.group_id == id) p.group_spans
  raise_if (length spans == 0) unknown_group
  ok spans

unfoldable pub spans_for_layer : TokenScatterPlan → Text → Laid (List LayerTokenScatterSpan)
spans_for_layer p name = do
  let spans = filter (λ s. member tokens_discrete s.layer_name (name ∷ [])) p.layer_spans
  raise_if (length spans == 0) unknown_layer
  ok spans

-- A call fails with a code, or, where the source relies on its preflight, with `KeyError`,
-- `IndexError` or `AssertionError`; a loop that the fuel does not let end is told apart from them.
pub data ScatterError : Type 0 where
  coded : HybridLayoutErrorCode → ScatterError
  key_error index_error assertion_error out_of_fuel : ScatterError

abbrev pub Scattered {ℓ} : Type ℓ → Type ℓ
Scattered = Result ScatterError

abbrev pub fails {ℓ} : {A : Type ℓ} → Laid A → Scattered A
fails (ok a) = ok a
fails (raise e) = raise (coded e)

-- `by_id[group_id]`
abbrev pub table_by_id : ℕ → List GroupBlockTable → Scattered GroupBlockTable
table_by_id id [] = raise key_error
table_by_id id (t ∷ ts) = let rest = table_by_id id ts in if t.group_id == id then ok t else rest

abbrev pub is_unavailable : Option (Option ℕ) → Bool
is_unavailable (some none) = true
is_unavailable _ = false

-- The blocks of the positions `start .. end - 1` are in the table and available.
unfoldable pub check_blocks : ℕ → ℕ → ℕ → List (Option ℕ) → Scattered (Unit {0})
check_blocks size start end blocks = do
  let first = start / size
  let last = (end - 1) / size
  raise_if (leb (length blocks) last) (coded block_table_too_short)
  raise_if (any (λ b. is_unavailable (get_elem? blocks b)) (range_from first (last + 1 - first)))
      (coded block_unavailable)

-- The loop over the groups in order of their ids.
unfoldable pub ordered_tables :
    List GroupBlockTable → TokenTransfer → List CacheGroupLayout → Scattered (List GroupBlockTable)
unfolding check_blocks
ordered_tables tables transfer [] = ok []
ordered_tables tables transfer (g ∷ gs) = do
  t ← table_by_id g.group_id tables
  raise_if (not (t.block_size == g.block_size)) (coded block_size_mismatch)
  check_blocks g.block_size transfer.target_range.start transfer.target_range.end t.block_ids
  ts ← ordered_tables tables transfer gs
  ok (t ∷ ts)

abbrev pub table_ids : List GroupBlockTable → List ℕ
table_ids = map (λ t. t.group_id)

abbrev pub group_id_of : CacheGroupLayout → ℕ
group_id_of g = g.group_id

unfoldable pub validated_tables :
    GptOssHybridCacheLayout
    → List GroupBlockTable
    → TokenTransfer
    → Scattered (List GroupBlockTable)
validated_tables layout tables transfer = do
  raise_if (has_duplicates ℕ_discrete (table_ids tables)) (coded duplicate_block_table)
  raise_if (any (λ i. not (elem i (group_ids layout.groups))) (table_ids tables))
      (coded unexpected_block_table)
  raise_if (any (λ i. not (elem i (table_ids tables))) (group_ids layout.groups))
      (coded missing_block_table)
  ordered_tables tables transfer (sorted group_id_of layout.groups)

-- The block that holds a position, or how its look-up fails.
unfoldable pub block_at : List (Option ℕ) → ℕ → Scattered ℕ
block_at blocks i = elim (get_elem? blocks i) [
  | none ↦ raise index_error
  | some none ↦ raise assertion_error
  | some (some b) ↦ ok b
]

abbrev pub span_tokens : CacheGroupLayout → TokenTransfer → ℕ → ℕ
span_tokens g t cursor = min (t.target_range.end - cursor) (g.block_size - cursor % g.block_size)

abbrev pub source_of : TokenTransfer → ℕ → ℕ
source_of t cursor = t.source_range.start + cursor - t.target_range.start

-- The span that the loop appends at a cursor.
abbrev pub span_at : CacheGroupLayout → TokenTransfer → ℕ → ℕ → GroupTokenScatterSpan
span_at g t cursor block = record {
  group_id = g.group_id;
  attention_kind = g.attention_kind;
  source_range = record {
    start = source_of t cursor;
    end = source_of t cursor + span_tokens g t cursor;
  };
  target_range = record { start = cursor; end = cursor + span_tokens g t cursor };
  logical_block_index = cursor / g.block_size;
  block_id = block;
  block_size = g.block_size;
  block_offset = cursor % g.block_size;
  physical_slot_start = block * g.block_size + cursor % g.block_size;
}

-- The `while` loop of `_scatter_group`, on fuel.
unfoldable pub scatter_from :
    CacheGroupLayout
    → List (Option ℕ)
    → TokenTransfer
    → ℕ
    → ℕ
    → Scattered (List GroupTokenScatterSpan)
unfolding block_at
scatter_from g blocks t zero cursor =
    if ltb cursor t.target_range.end then raise out_of_fuel else ok []
scatter_from g blocks t (suc fuel) cursor =
    let rest = scatter_from g blocks t fuel (cursor + span_tokens g t cursor) in
    if ltb cursor t.target_range.end
    then (block_at blocks (cursor / g.block_size) >>= λ b.
        rest >>= λ spans. ok (span_at g t cursor b ∷ spans))
    else ok []

-- Each round passes at least one position.
unfoldable pub scatter_group :
    CacheGroupLayout → GroupBlockTable → TokenTransfer → Scattered (List GroupTokenScatterSpan)
unfolding scatter_from
scatter_group g table t =
    scatter_from g table.block_ids t (range_len t.target_range) t.target_range.start

-- The loop over the tables: the spans of each group, beside its id.
unfoldable pub scatter_tables :
    GptOssHybridCacheLayout
    → TokenTransfer
    → List GroupBlockTable
    → Scattered (List (ℕ × List GroupTokenScatterSpan))
unfolding scatter_group
scatter_tables layout t [] = ok []
scatter_tables layout t (table ∷ tables) = do
  g ← fails (find_group table.group_id layout.groups)
  spans ← scatter_group g table t
  rest ← scatter_tables layout t tables
  ok ((g.group_id, spans) ∷ rest)

-- `spans_by_group[group_id]`
abbrev pub spans_by_group :
    ℕ → List (ℕ × List GroupTokenScatterSpan) → Scattered (List GroupTokenScatterSpan)
spans_by_group id [] = raise key_error
spans_by_group id (e ∷ es) = let rest = spans_by_group id es in if e.0 == id then ok e.1 else rest

abbrev pub layer_span : AttentionLayerLayout → GroupTokenScatterSpan → LayerTokenScatterSpan
layer_span l s = record { layer_name = l.layer_name; layer_index = l.layer_index; group_span = s }

unfoldable pub scatter_layers :
    List (ℕ × List GroupTokenScatterSpan)
    → List AttentionLayerLayout
    → Scattered (List LayerTokenScatterSpan)
scatter_layers by_group [] = ok []
scatter_layers by_group (l ∷ ls) = do
  spans ← spans_by_group l.group_id by_group
  rest ← scatter_layers by_group ls
  ok (map (layer_span l) spans ++ rest)

abbrev pub second {ℓ κ} : {A : Type ℓ} {B : Type κ} → A × B → B
second p = p.1

unfoldable pub plan_token_scatter :
    GptOssHybridCacheLayout → List GroupBlockTable → TokenTransfer → Scattered TokenScatterPlan
unfolding validated_tables scatter_tables scatter_layers
plan_token_scatter layout tables t = do
  ordered ← validated_tables layout tables t
  by_group ← scatter_tables layout t ordered
  layer_spans ← scatter_layers by_group layout.layers
  ok (record {
    transfer = t;
    group_spans = joined (map second by_group);
    layer_spans = layer_spans;
  })
