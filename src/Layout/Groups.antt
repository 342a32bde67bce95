-- ===== src/Layout/Groups.antt =====
-- Cache groups and the complete layout: src/cacheblend_gpt_oss/gpt_oss/layout.py. Layer names are
-- texts, as annotated.
use cacheblend_gpt_oss.Prelude.{
  ℕ, ◌%◌, ℤ, pos, eqb_ℤ, Bool, true, false, not, ◌&&◌, ◌||◌, List, [], ◌∷◌, ◌++◌, map, Text, Value,
  int, Option, none, some, ok, raise, ◌>>=◌, ◌>>◌, raise_if, ltb, ◌==◌, length, any, elem, sum,
  filter, if◌then◌else◌, has_duplicates, member, sorted, range_from, nat_order, ℕ_discrete,
}
use cacheblend_gpt_oss.Planner.Models.{tokens_discrete}
use cacheblend_gpt_oss.Layout.Names.{
  invalid_group_count, invalid_group_id, duplicate_group_id, invalid_layer_count,
  duplicate_layer_name, duplicate_layer_index, attention_pattern_mismatch, sliding_window_mismatch,
  invalid_block_size, unknown_group, unknown_layer, Laid, num_layers, extract_gpt_oss_layer_index,
}

pub data AttentionKind : Type 0 where
  sliding full : AttentionKind

abbrev pub same_kind : AttentionKind → AttentionKind → Bool
same_kind sliding sliding = true
same_kind full full = true
same_kind _ _ = false

abbrev pub num_cache_groups : ℕ
num_cache_groups = 2

abbrev pub sliding_window_tokens : ℤ
sliding_window_tokens = pos 128

pub record CacheGroupLayout : Type 0 where
  pub group_id : ℕ
  pub attention_kind : AttentionKind
  pub layer_names : List Text
  pub block_size : ℕ
  pub sliding_window : Option ℤ

unfoldable pub valid_group_id : Value → Laid ℕ
valid_group_id (int (pos n)) = ok n
valid_group_id _ = raise invalid_group_id

unfoldable pub valid_block_size : Value → Laid ℕ
valid_block_size (int (pos n)) = do raise_if (n == 0) invalid_block_size; ok n
valid_block_size _ = raise invalid_block_size

abbrev pub window_mismatch : AttentionKind → Option ℤ → Bool
window_mismatch sliding none = true
window_mismatch sliding (some w) = not (eqb_ℤ w sliding_window_tokens)
window_mismatch full none = false
window_mismatch full (some w) = true

unfoldable pub cache_group_layout :
    Value → AttentionKind → List Text → Value → Option ℤ → Laid CacheGroupLayout
unfolding valid_group_id valid_block_size
cache_group_layout id kind names size window = do
  id' ← valid_group_id id
  size' ← valid_block_size size
  raise_if (window_mismatch kind window) sliding_window_mismatch
  ok (record {
    group_id = id';
    attention_kind = kind;
    layer_names = names;
    block_size = size';
    sliding_window = window;
  })

pub record AttentionLayerLayout : Type 0 where
  pub layer_name : Text
  pub layer_index : ℕ
  pub group_id : ℕ
  pub attention_kind : AttentionKind
  pub sliding_window : Option ℤ
  pub block_size : ℕ

pub record GptOssHybridCacheLayout : Type 0 where
  pub groups : List CacheGroupLayout
  pub layers : List AttentionLayerLayout

abbrev pub expected_kind : ℕ → AttentionKind
expected_kind i = if i % 2 == 0 then sliding else full

abbrev pub group_ids : List CacheGroupLayout → List ℕ
group_ids = map (λ g. g.group_id)

abbrev pub layer_index_of : AttentionLayerLayout → ℕ
layer_index_of l = l.layer_index

abbrev pub layer_name_of : AttentionLayerLayout → Text
layer_name_of l = l.layer_name

-- `set(xs) != set(range(n))`
abbrev pub not_range : ℕ → List ℕ → Bool
not_range n xs = any (λ x. not (ltb x n)) xs || any (λ i. not (elem i xs)) (range_from 0 n)

abbrev pub bound_layer : CacheGroupLayout → Text → ℕ → AttentionLayerLayout
bound_layer g name index = record {
  layer_name = name;
  layer_index = index;
  group_id = g.group_id;
  attention_kind = g.attention_kind;
  sliding_window = g.sliding_window;
  block_size = g.block_size;
}

module _ (foreign : ℕ → Option ℕ) where
  -- The loop over a group's names. `seen_names` and `seen_indexes` hold those of `layers`.
  unfoldable pub bind_names :
      CacheGroupLayout → List Text → List AttentionLayerLayout → Laid (List AttentionLayerLayout)
  bind_names g [] layers = ok layers
  bind_names g (name ∷ names) layers = do
    raise_if (member tokens_discrete name (map layer_name_of layers)) duplicate_layer_name
    index ← extract_gpt_oss_layer_index foreign name
    raise_if (elem index (map layer_index_of layers)) duplicate_layer_index
    raise_if (not (same_kind g.attention_kind (expected_kind index))) attention_pattern_mismatch
    bind_names g names (layers ++ bound_layer g name index ∷ [])

  unfoldable pub bind_groups :
      List CacheGroupLayout → List AttentionLayerLayout → Laid (List AttentionLayerLayout)
  unfolding bind_names
  bind_groups [] layers = ok layers
  bind_groups (g ∷ gs) layers = do
    layers' ← bind_names g g.layer_names layers
    bind_groups gs layers'

  unfoldable pub hybrid_cache_layout : List CacheGroupLayout → Laid GptOssHybridCacheLayout
  hybrid_cache_layout groups = do
    raise_if (not (length groups == num_cache_groups)) invalid_group_count
    raise_if (has_duplicates ℕ_discrete (group_ids groups)) duplicate_group_id
    raise_if (not_range num_cache_groups (group_ids groups)) invalid_group_id
    raise_if
        (not (
          any (λ g. same_kind g.attention_kind sliding) groups
          && any (λ g. same_kind g.attention_kind full) groups))
        attention_pattern_mismatch
    raise_if (not (sum (map (λ g. length g.layer_names) groups) == num_layers)) invalid_layer_count
    layers ← bind_groups groups []
    raise_if (not_range num_layers (map layer_index_of layers)) invalid_layer_count
    ok (record { groups = groups; layers = sorted layer_index_of layers })

abbrev pub find_group : ℕ → List CacheGroupLayout → Laid CacheGroupLayout
find_group id [] = raise unknown_group
find_group id (g ∷ gs) = let rest = find_group id gs in if g.group_id == id then ok g else rest

-- `GptOssHybridCacheLayout.group`
abbrev pub group_of : GptOssHybridCacheLayout → ℕ → Laid CacheGroupLayout
group_of l id = find_group id l.groups

abbrev pub find_layer : Text → List AttentionLayerLayout → Laid AttentionLayerLayout
find_layer name [] = raise unknown_layer
find_layer name (l ∷ ls) =
    let rest = find_layer name ls in
    if member tokens_discrete name (l.layer_name ∷ []) then ok l else rest

-- `GptOssHybridCacheLayout.layer`
abbrev pub layer_of : GptOssHybridCacheLayout → Text → Laid AttentionLayerLayout
layer_of l name = find_layer name l.layers

unfoldable pub layers_in_group : GptOssHybridCacheLayout → ℕ → Laid (List AttentionLayerLayout)
layers_in_group l id = do group_of l id >>= λ _. ok (filter (λ a. a.group_id == id) l.layers)
