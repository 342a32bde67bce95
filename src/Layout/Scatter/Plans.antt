-- ===== src/Layout/Scatter/Plans.antt =====
-- Scatter plans behind a passed preflight: src/cacheblend_gpt_oss/gpt_oss/layout.py.
use cacheblend_gpt_oss.Prelude.{
  ℕ, ◌<◌, ◌≡◌, refl, sym, subst, ap, ap₂, ◌∙◌, true, false, not, ◌||◌, List, [], ◌∷◌, ◌++◌, map,
  Option, ok, >>=-eq-ok, raise_if, ◌==◌, any, elem, arith, All, All-map, All-zip, Pairwise, same,
  holds_iff, sorted, sorted-All, any-sorted, nat_order, ℕ_discrete, Bool-cases, inl, inr,
  has_duplicates, range_from,
}
use cacheblend_gpt_oss.Planner.Models.{range_len}
use cacheblend_gpt_oss.Planner.Segmentation.{joined}
use cacheblend_gpt_oss.Layout.Names.{
  block_size_mismatch, duplicate_block_table, unexpected_block_table, missing_block_table,
}
use cacheblend_gpt_oss.Layout.Groups.{
  CacheGroupLayout, AttentionLayerLayout, GptOssHybridCacheLayout, find_group, group_ids,
  hybrid_cache_layout,
}
use cacheblend_gpt_oss.Layout.Layers.{hybrid_cache_layout-layers, layout_ids}
use cacheblend_gpt_oss.Layout.Scatter.{
  GroupBlockTable, TokenTransfer, GroupTokenScatterSpan, LayerTokenScatterSpan, TokenScatterPlan,
  coded, table_by_id, check_blocks, ordered_tables, validated_tables, scatter_tables,
  scatter_layers, spans_by_group, layer_span, plan_token_scatter, group_id_of, table_ids, second,
}
use cacheblend_gpt_oss.Layout.Scatter.Slots.{
  IsTransfer, Placement, placed, written, scatter_group-placed,
}

-- A group that its id leads back to, and whose blocks hold positions.
abbrev IsFound : List CacheGroupLayout → CacheGroupLayout → Type 0
IsFound groups g = (find_group g.group_id groups ≡ ok g) × (0 < g.block_size)

same_ids : (i j : ℕ) → same ℕ_discrete i j ≡ false → (i == j) ≡ false
same_ids i j h = elim (Bool-cases (i == j)) [
  | inl e ↦ ground (arith, holds_iff (ℕ_discrete i j))
  | inr e ↦ e
]

find_behind :
    (g : CacheGroupLayout) (gs rest : List CacheGroupLayout)
    → All (λ i. same ℕ_discrete g.group_id i ≡ false) (group_ids rest)
    → All (λ a. find_group a.group_id gs ≡ ok a) rest
    → All (λ a. find_group a.group_id (g ∷ gs) ≡ ok a) rest
find_behind g gs [] d h = tt
find_behind g gs (a ∷ rest) d h =
    (rw (same_ids g.group_id a.group_id d.0) h.0, find_behind g gs rest d.1 h.1)

find_each :
    (gs : List CacheGroupLayout)
    → Pairwise (λ i j. same ℕ_discrete i j ≡ false) (group_ids gs)
    → All (λ a. find_group a.group_id gs ≡ ok a) gs
find_each [] d = tt
find_each (g ∷ gs) d = (ground arith, find_behind g gs gs d.0 (find_each gs d.1))

table_by_id-group_id :
    (id : ℕ) (ts : List GroupBlockTable) {t : GroupBlockTable}
    → table_by_id id ts ≡ ok t
    → t.group_id ≡ id
table_by_id-group_id id [] h = cc
table_by_id-group_id id (u ∷ ts) {t} h = elim (Bool-cases (u.group_id == id)) [
  | inl e ↦ let k : u ≡ t = ground arith in ground arith
  | inr e ↦ table_by_id-group_id id ts {t = t} (ground arith)
]

-- What the slot mapping says of each table's group, in order.
abbrev pub placements : TokenTransfer → GroupBlockTable → List Placement
placements t table =
    map (placed table.block_ids table.block_size t)
      (range_from t.target_range.start (range_len t.target_range))

abbrev pub keys : List (ℕ × List GroupTokenScatterSpan) → List ℕ
keys = map (λ e. e.0)

written-append :
    (xs ys : List GroupTokenScatterSpan)
    → joined (map written (xs ++ ys)) ≡ joined (map written xs) ++ joined (map written ys)
written-append [] ys = refl
written-append (x ∷ xs) ys =
    ap (◌++◌ (written x)) (written-append xs ys) ∙ append_assoc (written x) _ _
  where
    append_assoc : (as' bs cs : List Placement) → as' ++ (bs ++ cs) ≡ (as' ++ bs) ++ cs
    append_assoc [] bs cs = refl
    append_assoc (a ∷ as') bs cs = ap (◌∷◌ a) (append_assoc as' bs cs)

module _ (layout : GptOssHybridCacheLayout) (tables : List GroupBlockTable) (t : TokenTransfer)
    (valid : IsTransfer t) where
  -- The tables that pass for groups give spans for those groups.
  scatter_tables-ok :
      (gs : List CacheGroupLayout) (ts : List GroupBlockTable)
      → All (IsFound layout.groups) gs
      → ordered_tables tables t gs ≡ ok ts
      → (spans : List (ℕ × List GroupTokenScatterSpan)) × (scatter_tables layout t ts ≡ ok spans)
        × (keys spans ≡ group_ids gs)
        × (joined (map written (joined (map second spans))) ≡ joined (map (placements t) ts))
  unfolding ordered_tables scatter_tables
  scatter_tables-ok [] ts f h = let e : ts ≡ [] = ground arith in rw e ([], refl, refl, refl)
  scatter_tables-ok (g ∷ gs) ts f h =
      let (table, by_id, h1) = >>=-eq-ok (table_by_id g.group_id tables) _ h in
      let (_, sized, h2) =
        >>=-eq-ok (raise_if (not (table.block_size == g.block_size)) (coded block_size_mismatch)) _
          h1 in
      let (u, checked, h3) =
        >>=-eq-ok
          (check_blocks g.block_size t.target_range.start t.target_range.end table.block_ids) _
          h2 in
      let (ts', more, h4) = >>=-eq-ok (ordered_tables tables t gs) _ h3 in
      let same_size : table.block_size ≡ g.block_size = ground arith in
      let (here, ran, placed_here) = scatter_group-placed g table t f.0.1 valid checked in
      let (spans, ran', keyed, placed_rest) = scatter_tables-ok gs ts' f.1 more in
      let e : ts ≡ table ∷ ts' = ground arith in
      let found : find_group table.group_id layout.groups ≡ ok g =
        subst (λ i. find_group i layout.groups ≡ ok g)
          (sym (table_by_id-group_id g.group_id tables by_id)) f.0.0 in
      subst
        (λ z.
          (spans : List (ℕ × List GroupTokenScatterSpan)) × (scatter_tables layout t z ≡ ok spans)
          × (keys spans ≡ group_ids (g ∷ gs))
          × (joined (map written (joined (map second spans))) ≡ joined (map (placements t) z)))
        (sym e)
        (
          (g.group_id, here) ∷ spans,
          rw (found, ran, ran') refl,
          ap (◌∷◌ g.group_id) keyed,
          written-append here (joined (map second spans))
              ∙ ap₂ ◌++◌
                  (subst
                    (λ n.
                      joined (map written here)
                      ≡ map (placed table.block_ids n t)
                          (range_from t.target_range.start (range_len t.target_range)))
                    (sym same_size) placed_here)
                  placed_rest,
        )

  spans_by_group-ok :
      (id : ℕ) (spans : List (ℕ × List GroupTokenScatterSpan))
      → elem id (keys spans) ≡ true
      → (ss : List GroupTokenScatterSpan) × (spans_by_group id spans ≡ ok ss)
  spans_by_group-ok id [] h = cc
  spans_by_group-ok id (e ∷ es) h = elim (Bool-cases (e.0 == id)) [
    | inl k ↦ (e.1, rw k refl)
    | inr k ↦ let (ss, r) = spans_by_group-ok id es (ground arith) in (ss, rw (k, r) refl)
  ]

  scatter_layers-ok :
      (spans : List (ℕ × List GroupTokenScatterSpan)) (ls : List AttentionLayerLayout)
      → All (λ l. elem l.group_id (keys spans) ≡ true) ls
      → (out : List LayerTokenScatterSpan) × (scatter_layers spans ls ≡ ok out)
  unfolding scatter_layers
  scatter_layers-ok spans [] h = ([], refl)
  scatter_layers-ok spans (l ∷ ls) h =
      let (ss, e) = spans_by_group-ok l.group_id spans h.0 in
      let (out, e') = scatter_layers-ok spans ls h.1 in
      (map (layer_span l) ss ++ out, rw (e, e') refl)

  validated-ordered :
      {ts : List GroupBlockTable}
      → validated_tables layout tables t ≡ ok ts
      → ordered_tables tables t (sorted group_id_of layout.groups) ≡ ok ts
  unfolding validated_tables
  validated-ordered h =
      let (_, _, h1) =
        >>=-eq-ok
          (raise_if (has_duplicates ℕ_discrete (table_ids tables)) (coded duplicate_block_table)) _
          h in
      let (_, _, h2) =
        >>=-eq-ok
          (raise_if (any (λ i. not (elem i (group_ids layout.groups))) (table_ids tables))
            (coded unexpected_block_table))
          _ h1 in
      let (_, _, h3) =
        >>=-eq-ok
          (raise_if (any (λ i. not (elem i (table_ids tables))) (group_ids layout.groups))
            (coded missing_block_table))
          _ h2 in
      h3

elem-group_ids :
    (i : ℕ) (gs : List CacheGroupLayout) → elem i (group_ids gs) ≡ any (λ g. i == g.group_id) gs
elem-group_ids i [] = refl
elem-group_ids i (g ∷ gs) = ap (◌||◌ (i == g.group_id)) (elem-group_ids i gs)

elem-sorted_ids :
    (i : ℕ) (gs : List CacheGroupLayout)
    → elem i (group_ids (sorted group_id_of gs)) ≡ elem i (group_ids gs)
elem-sorted_ids i gs =
    elem-group_ids i (sorted group_id_of gs)
    ∙ any-sorted group_id_of (λ g. i == g.group_id) gs
    ∙ sym (elem-group_ids i gs)

-- For a layout that was built of groups with positive block sizes, and a valid transfer: once the
-- preflight passes the tables, the plan is returned, since no loop runs out of fuel and no look-up
-- or assertion fails; and its group spans write what the slot mapping says, table by table.
pub plan_token_scatter-placed :
    (foreign : ℕ → Option ℕ) (groups : List CacheGroupLayout) (layout : GptOssHybridCacheLayout)
    (tables ordered : List GroupBlockTable) (t : TokenTransfer)
    → hybrid_cache_layout foreign groups ≡ ok layout
    → All (λ g. 0 < g.block_size) groups
    → IsTransfer t
    → validated_tables layout tables t ≡ ok ordered
    → (plan : TokenScatterPlan) × (plan_token_scatter layout tables t ≡ ok plan)
      × (joined (map written plan.group_spans) ≡ joined (map (placements t) ordered))
unfolding plan_token_scatter
plan_token_scatter-placed foreign groups layout tables ordered t built sized valid passed =
    let (same_groups, _, patterned) = hybrid_cache_layout-layers foreign groups built in
    let found : All (IsFound groups) groups =
      All-zip (λ g. find_group g.group_id groups ≡ ok g) (λ g. 0 < g.block_size) groups
        (find_each groups (layout_ids foreign groups built)) sized in
    let found' : All (IsFound layout.groups) (sorted group_id_of layout.groups) =
      sorted-All group_id_of (IsFound layout.groups) layout.groups
        (subst (λ gs. All (IsFound gs) gs) (sym same_groups) found) in
    let (spans, ran, keyed, wrote) =
      scatter_tables-ok layout tables t valid (sorted group_id_of layout.groups) ordered found'
        (validated-ordered layout tables t valid passed) in
    let (layer_spans, ran') = scatter_layers-ok layout tables t valid spans layout.layers (
      All-map
        (λ l h.
          ap (elem l.group_id) keyed
          ∙ elem-sorted_ids l.group_id layout.groups
          ∙ ap (λ gs. elem l.group_id (group_ids gs)) same_groups
          ∙ h.1)
        layout.layers patterned) in
    (
      record { transfer = t; group_spans = joined (map second spans); layer_spans = layer_spans },
      rw (passed, ran, ran') refl,
      wrote,
    )
