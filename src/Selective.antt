-- ===== src/Selective.antt =====
-- Row plans of the selective data plane: src/cacheblend_gpt_oss/gpt_oss/selective.py.
pub mod Rows
use cacheblend_gpt_oss.Prelude.{
  ℕ, suc, ◌+◌, ◌-◌, Bool, true, false, not, ◌&&◌, ◌||◌, List, [], ◌∷◌, map, Value, int, pos, nat,
  Option, none, some, Result, ok, raise, ◌>>=◌, ◌>>◌, raise_if, ltb, leb, ◌==◌, length, sum, sorted,
  same, if◌then◌else◌, get_elem?, nat_order, pair_order, range_from, each, ℕ_discrete,
}
use cacheblend_gpt_oss.Planner.Models.{TokenRange, range_len, overlaps, TokenRange-discrete}
use cacheblend_gpt_oss.Planner.Coverage.{range_key}

pub data SelectivePlanErrorCode : Type 0 where
  invalid_prompt_length invalid_layer_count invalid_layer_index : SelectivePlanErrorCode
  invalid_range range_out_of_bounds overlapping_ranges : SelectivePlanErrorCode
  non_canonical_ranges active_context missing_context : SelectivePlanErrorCode

abbrev pub Planned {ℓ} : Type ℓ → Type ℓ
Planned = Result SelectivePlanErrorCode

abbrev pub num_layers : ℕ
num_layers = 24

abbrev pub max_context_tokens : ℕ
max_context_tokens = 131072

unfoldable pub validate_prompt_tokens : Value → Planned ℕ
validate_prompt_tokens (int (pos n)) = do
  raise_if (ltb max_context_tokens n) invalid_prompt_length
  ok n
validate_prompt_tokens _ = raise invalid_prompt_length

unfoldable pub ranges_discrete : Discrete (List TokenRange)
ranges_discrete = hlevel ℕ_discrete

-- The loop over the ranges.
unfoldable pub check_ranges : ℕ → List TokenRange → Planned (Unit {0})
check_ranges prompt [] = ok tt
check_ranges prompt (r ∷ rs) = do
  raise_if (range_len r == 0) invalid_range
  raise_if (ltb prompt r.end) range_out_of_bounds
  check_ranges prompt rs

-- `any(left.overlaps(right) for left, right in pairwise(ordered))`
abbrev pub neighbours_overlap : List TokenRange → Bool
neighbours_overlap [] = false
neighbours_overlap (r ∷ []) = false
neighbours_overlap (r ∷ s ∷ rs) = overlaps r s || neighbours_overlap (s ∷ rs)

unfoldable pub normalize_ranges : Value → List TokenRange → Planned (List TokenRange)
unfolding validate_prompt_tokens check_ranges
normalize_ranges prompt ranges = do
  prompt' ← validate_prompt_tokens prompt
  check_ranges prompt' ranges
  let ordered = sorted range_key ranges
  raise_if (not (same ranges_discrete ordered ranges)) non_canonical_ranges
  raise_if (neighbours_overlap ordered) overlapping_ranges
  ok ordered

-- The loop of `_complement` from a cursor on.
unfoldable pub complement_from : ℕ → ℕ → List TokenRange → List TokenRange
complement_from prompt cursor [] =
    if ltb cursor prompt then record { start = cursor; end = prompt } ∷ [] else []
complement_from prompt cursor (r ∷ rs) =
    let rest = complement_from prompt r.end rs in
    if ltb cursor r.start then record { start = cursor; end = r.start } ∷ rest else rest

unfoldable pub complement : ℕ → List TokenRange → List TokenRange
unfolding complement_from
complement prompt excluded = complement_from prompt 0 excluded

abbrev pub range_token_count : List TokenRange → ℕ
range_token_count rs = sum (map range_len rs)

pub record LayerRowSelection : Type 0 where
  pub layer_index : ℕ
  pub prompt_tokens : ℕ
  pub recompute_ranges : List TokenRange

unfoldable pub valid_layer_index : Value → Planned ℕ
valid_layer_index (int (pos n)) = do raise_if (leb num_layers n) invalid_layer_index; ok n
valid_layer_index _ = raise invalid_layer_index

unfoldable pub layer_row_selection : Value → Value → List TokenRange → Planned LayerRowSelection
unfolding valid_layer_index validate_prompt_tokens normalize_ranges
layer_row_selection index prompt ranges = do
  index' ← valid_layer_index index
  prompt' ← validate_prompt_tokens prompt
  ranges' ← normalize_ranges (nat prompt') ranges
  ok (record { layer_index = index'; prompt_tokens = prompt'; recompute_ranges = ranges' })

abbrev pub layer_recompute_tokens : LayerRowSelection → ℕ
layer_recompute_tokens l = range_token_count l.recompute_ranges

abbrev pub cached_ranges : LayerRowSelection → List TokenRange
cached_ranges l = complement l.prompt_tokens l.recompute_ranges

abbrev pub layer_cached_tokens : LayerRowSelection → ℕ
layer_cached_tokens l = range_token_count (cached_ranges l)

abbrev pub covers_prompt : LayerRowSelection → Bool
covers_prompt l = layer_recompute_tokens l + layer_cached_tokens l == l.prompt_tokens

pub record ForwardRowPlan : Type 0 where
  pub prompt_tokens : ℕ
  pub layers : List LayerRowSelection

-- The loop over the layers, from the expected index on.
unfoldable pub check_layers : ℕ → ℕ → List LayerRowSelection → Planned (Unit {0})
unfolding complement
check_layers prompt i [] = ok tt
check_layers prompt i (l ∷ ls) = do
  raise_if (not (l.layer_index == i)) invalid_layer_index
  raise_if (not (l.prompt_tokens == prompt) || not (covers_prompt l)) invalid_prompt_length
  check_layers prompt (suc i) ls

unfoldable pub forward_row_plan : Value → List LayerRowSelection → Planned ForwardRowPlan
unfolding validate_prompt_tokens
forward_row_plan prompt layers = do
  prompt' ← validate_prompt_tokens prompt
  raise_if (not (length layers == num_layers)) invalid_layer_count
  check_layers prompt' 0 layers
  ok (record { prompt_tokens = prompt'; layers = layers })

-- The selections of the layers from `i` on.
unfoldable pub select_layers : ℕ → ℕ → List (List TokenRange) → Planned (List LayerRowSelection)
select_layers prompt i [] = ok []
select_layers prompt i (rs ∷ more) = do
  l ← layer_row_selection (nat i) (nat prompt) rs
  ls ← select_layers prompt (suc i) more
  ok (l ∷ ls)

unfoldable pub from_recompute_ranges : Value → List (List TokenRange) → Planned ForwardRowPlan
unfolding validate_prompt_tokens
from_recompute_ranges prompt ranges = do
  prompt' ← validate_prompt_tokens prompt
  raise_if (not (length ranges == num_layers)) invalid_layer_count
  layers ← select_layers prompt' 0 ranges
  forward_row_plan (nat prompt') layers

abbrev pub full_range : ℕ → List TokenRange
full_range prompt = if prompt == 0 then [] else record { start = 0; end = prompt } ∷ []

-- `full_recompute` builds the layers of `range(24)` over one range.
unfoldable pub full_recompute : Value → Planned ForwardRowPlan
unfolding validate_prompt_tokens
full_recompute prompt = do
  prompt' ← validate_prompt_tokens prompt
  layers ← select_layers prompt' 0 (map (λ i. full_range prompt') (range_from 0 num_layers))
  forward_row_plan (nat prompt') layers

abbrev pub plan_recompute_tokens : ForwardRowPlan → ℕ
plan_recompute_tokens p = sum (map layer_recompute_tokens p.layers)

abbrev pub plan_cached_tokens : ForwardRowPlan → ℕ
plan_cached_tokens p = sum (map layer_cached_tokens p.layers)

abbrev pub is_full_recompute : ForwardRowPlan → Bool
is_full_recompute p = plan_cached_tokens p == 0

-- `ForwardRowPlan.layer`; a plan has an entry for each index that passes the test.
unfoldable pub plan_layer : ForwardRowPlan → Value → Planned LayerRowSelection
plan_layer p index = do
  index' ← valid_layer_index index
  elim (get_elem? p.layers index') [ none ↦ raise invalid_layer_index | some l ↦ ok l ]

-- The context variable `_ACTIVE_PLAN`.
abbrev pub Context : Type 0
Context = Option ForwardRowPlan

-- `with ForwardRowPlanContext.bind(plan): body`; the body returns its value beside the context that
-- it leaves, and the token resets the context to what it was.
unfoldable pub bind {ℓ} :
    {A : Type ℓ} → ForwardRowPlan → (Context → A × Context) → Context → Planned A × Context
bind plan body none = (ok (body (some plan)).0, none)
bind plan body (some active) = (raise active_context, some active)

unfoldable pub current : Context → Planned ForwardRowPlan
current none = raise missing_context
current (some plan) = ok plan
