-- ===== src/Tests/Layouts.antt =====
-- A complete layout of 24 layers in two groups, with block tables and a transfer across blocks.
use cacheblend_gpt_oss.Prelude.{
  ℕ, ◌≡◌, ◌==◌, ◌+◌, ◌*◌, ◌/◌, ◌%◌, refl, List, [], ◌∷◌, ◌++◌, map, Text, Option, none, some, nat,
  pos, ok, raise, All, ltb, if◌then◌else◌, arith, range_from, ℕ_discrete, has_duplicates, sorted,
}
use cacheblend_gpt_oss.Planner.Models.{tokens_discrete, range_len}
use cacheblend_gpt_oss.Planner.Segmentation.{joined}
use cacheblend_gpt_oss.Layout.Names.{
  name_prefix, name_suffix, num_layers, extract_gpt_oss_layer_index, invalid_layer_name,
  layer_index_out_of_range, block_unavailable, block_table_too_short,
}
use cacheblend_gpt_oss.Layout.Groups.{
  sliding, full, CacheGroupLayout, AttentionLayerLayout, GptOssHybridCacheLayout,
  hybrid_cache_layout, bind_groups, layer_index_of, cache_group_layout,
}
use cacheblend_gpt_oss.Layout.Layers.{IsPatterned, hybrid_cache_layout-layers}
use cacheblend_gpt_oss.Layout.Scatter.{
  GroupBlockTable, TokenTransfer, GroupTokenScatterSpan, TokenScatterPlan, token_transfer,
  check_blocks, scatter_group, validated_tables, ordered_tables, plan_token_scatter, coded,
}
use cacheblend_gpt_oss.Layout.Scatter.Slots.{IsTransfer, placed, written, scatter_group-placed}
use cacheblend_gpt_oss.Layout.Scatter.Plans.{placements, plan_token_scatter-placed}
use cacheblend_gpt_oss.Tests.{span}

-- No character beyond ASCII is a digit.
abbrev no_digit : ℕ → Option ℕ
no_digit c = none

abbrev index_text : ℕ → Text
index_text i = if ltb i 10 then (48 + i) ∷ [] else (48 + i / 10) ∷ (48 + i % 10) ∷ []

abbrev layer_name : ℕ → Text
layer_name i = name_prefix ++ index_text i ++ name_suffix

abbrev names_from : ℕ → List Text
names_from i = map (λ k. layer_name (i + 2 * k)) (range_from 0 12)

abbrev sliding_group : CacheGroupLayout
sliding_group = record {
  group_id = 0;
  attention_kind = sliding;
  layer_names = names_from 0;
  block_size = 4;
  sliding_window = some (pos 128);
}

abbrev full_group : CacheGroupLayout
full_group = record {
  group_id = 1;
  attention_kind = full;
  layer_names = names_from 1;
  block_size = 2;
  sliding_window = none;
}

abbrev both_groups : List CacheGroupLayout
both_groups = full_group ∷ sliding_group ∷ []

abbrev layer_at : ℕ → AttentionLayerLayout
layer_at i =
    if i % 2 == 0
    then record {
      layer_name = layer_name i;
      layer_index = i;
      group_id = 0;
      attention_kind = sliding;
      sliding_window = some (pos 128);
      block_size = 4;
    }
    else record {
      layer_name = layer_name i;
      layer_index = i;
      group_id = 1;
      attention_kind = full;
      sliding_window = none;
      block_size = 2;
    }

abbrev whole : GptOssHybridCacheLayout
whole = record { groups = both_groups; layers = map layer_at (range_from 0 24) }

extract_test : extract_gpt_oss_layer_index no_digit (layer_name 17) ≡ ok 17
unfolding extract_gpt_oss_layer_index
extract_test = refl

extract-zero_test :
    extract_gpt_oss_layer_index no_digit (name_prefix ++ 48 ∷ 51 ∷ [] ++ name_suffix)
    ≡ raise invalid_layer_name
unfolding extract_gpt_oss_layer_index
extract-zero_test = refl

extract-long_test :
    extract_gpt_oss_layer_index no_digit (layer_name 24) ≡ raise layer_index_out_of_range
unfolding extract_gpt_oss_layer_index
extract-long_test = refl

group_test :
    cache_group_layout (nat 0) sliding (names_from 0) (nat 4) (some (pos 128)) ≡ ok sliding_group
unfolding cache_group_layout
group_test = refl

whole_built : hybrid_cache_layout no_digit both_groups ≡ ok whole
unfolding hybrid_cache_layout bind_groups tokens_discrete ℕ_discrete has_duplicates
    extract_gpt_oss_layer_index sorted
whole_built = refl

abbrev transfer : TokenTransfer
transfer = record { source_range = span 20 26; target_range = span 3 9 }

transfer_test : token_transfer (span 20 26) (span 3 9) ≡ ok transfer
unfolding token_transfer
transfer_test = refl

transfer-IsTransfer : IsTransfer transfer
transfer-IsTransfer = record { filled = omega arith; equal = refl }

abbrev sliding_table : GroupBlockTable
sliding_table = record {
  group_id = 0;
  block_size = 4;
  block_ids = some 7 ∷ some 5 ∷ some 9 ∷ none ∷ [];
}

abbrev full_table : GroupBlockTable
full_table = record {
  group_id = 1;
  block_size = 2;
  block_ids = none ∷ some 30 ∷ some 31 ∷ some 40 ∷ some 33 ∷ [];
}

sliding_checked : check_blocks 4 3 9 sliding_table.block_ids ≡ ok tt
unfolding check_blocks
sliding_checked = refl

tables_checked :
    validated_tables whole (sliding_table ∷ full_table ∷ []) transfer
    ≡ ok (sliding_table ∷ full_table ∷ [])
unfolding validated_tables ordered_tables check_blocks ℕ_discrete has_duplicates sorted
tables_checked = refl

-- A block that the transfer needs is not there.
unavailable_test : check_blocks 2 0 9 full_table.block_ids ≡ raise (coded block_unavailable)
unfolding check_blocks
unavailable_test = refl

short_test : check_blocks 2 3 11 full_table.block_ids ≡ raise (coded block_table_too_short)
unfolding check_blocks
short_test = refl

hybrid_cache_layout-layers_example :
    (whole.groups ≡ both_groups)
    × (map layer_index_of whole.layers ≡ range_from 0 num_layers)
    × All (IsPatterned both_groups) whole.layers
hybrid_cache_layout-layers_example = hybrid_cache_layout-layers no_digit both_groups whole_built

scatter_group-placed_example :
    (spans : List GroupTokenScatterSpan) × (scatter_group sliding_group sliding_table transfer
      ≡ ok spans)
    × (joined (map written spans)
        ≡ map
            (placed sliding_table.block_ids 4 transfer)
            (range_from 3 (range_len transfer.target_range)))
scatter_group-placed_example =
    scatter_group-placed sliding_group sliding_table transfer (omega arith) transfer-IsTransfer
      sliding_checked

plan_token_scatter-placed_example :
    (plan : TokenScatterPlan) × (plan_token_scatter whole (sliding_table ∷ full_table ∷ []) transfer
      ≡ ok plan)
    × (joined (map written plan.group_spans)
        ≡ joined (map (placements transfer) (sliding_table ∷ full_table ∷ [])))
plan_token_scatter-placed_example =
    plan_token_scatter-placed no_digit both_groups whole (sliding_table ∷ full_table ∷ [])
      (sliding_table ∷ full_table ∷ []) transfer whole_built (omega arith, (omega arith, tt))
      transfer-IsTransfer tables_checked
