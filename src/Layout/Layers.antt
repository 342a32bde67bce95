-- ===== src/Layout/Layers.antt =====
-- The layers of a complete layout: src/cacheblend_gpt_oss/gpt_oss/layout.py.
use cacheblend_gpt_oss.Prelude.{
  ℕ, zero, suc, ◌+◌, ◌≤◌, ◌<◌, ◌≡◌, refl, sym, subst, ap, ◌∙◌, true, false, not, ◌&&◌, ◌||◌, List,
  [], ◌∷◌, ◌++◌, map, Text, Option, ok, >>=-eq-ok, raise_if, ltb, ◌==◌, length, any, elem, sum,
  range_from, arith, All, All-append, All-map, Pairwise, Pairwise-zip, Pairwise-map, All-zip, same,
  has_duplicates, has_duplicates-false, member, sorted, sorted-All, sorted-Pairwise,
  sorted-Ascending, any-sorted, Bool-cases, inl, inr, nat_order, ℕ_discrete,
}
use cacheblend_gpt_oss.Planner.Models.{tokens_discrete}
use cacheblend_gpt_oss.Layout.Names.{
  extract_gpt_oss_layer_index, duplicate_layer_name, duplicate_layer_index,
  attention_pattern_mismatch, invalid_layer_count, num_layers, invalid_group_count,
  duplicate_group_id, invalid_group_id,
}
use cacheblend_gpt_oss.Layout.Groups.{
  AttentionKind, sliding, full, CacheGroupLayout, AttentionLayerLayout, GptOssHybridCacheLayout,
  same_kind, expected_kind, group_ids, layer_index_of, layer_name_of, bound_layer, bind_names,
  bind_groups, hybrid_cache_layout, not_range, num_cache_groups,
}

same_kind-eq : (a b : AttentionKind) → same_kind a b ≡ true → a ≡ b
same_kind-eq sliding sliding h = refl
same_kind-eq full full h = refl
same_kind-eq sliding full h = cc
same_kind-eq full sliding h = cc

-- The parity of a layer's index tells its kind, and its group is one of the layout's.
abbrev pub IsPatterned : List CacheGroupLayout → AttentionLayerLayout → Type 0
IsPatterned groups l =
    (l.attention_kind ≡ expected_kind l.layer_index) × (elem l.group_id (group_ids groups) ≡ true)

abbrev Distinct : AttentionLayerLayout → AttentionLayerLayout → Type 0
Distinct a b = (a.layer_index == b.layer_index) ≡ false

Distinct-symm : (a b : AttentionLayerLayout) → Distinct a b → Distinct b a
Distinct-symm a b h = ground arith

-- The state of the loops: patterned layers with different indexes.
abbrev Bound : List CacheGroupLayout → List AttentionLayerLayout → Type 0
Bound groups layers = All (IsPatterned groups) layers × Pairwise Distinct layers

All-unseen :
    (index : ℕ) (layers : List AttentionLayerLayout) (l : AttentionLayerLayout)
    → l.layer_index ≡ index
    → elem index (map layer_index_of layers) ≡ false
    → All (λ a. Distinct a l) layers
All-unseen index [] l e h = tt
All-unseen index (a ∷ rest) l e h = (ground arith, All-unseen index rest l e (ground arith))

Pairwise-snoc {ℓ κ} :
    {A : Type ℓ} (R : A → A → Type κ) (xs : List A) (x : A)
    → Pairwise R xs
    → All (λ a. R a x) xs
    → Pairwise R (xs ++ x ∷ [])
Pairwise-snoc R [] x p h = (tt, tt)
Pairwise-snoc R (y ∷ xs) x p h =
    (All-append (R y) xs (x ∷ []) p.0 (h.0, tt), Pairwise-snoc R xs x p.1 h.1)

module _ (foreign : ℕ → Option ℕ) (groups : List CacheGroupLayout) where
  bind_names-Bound :
      (g : CacheGroupLayout) (names : List Text) (layers : List AttentionLayerLayout)
      {out : List AttentionLayerLayout}
      → elem g.group_id (group_ids groups) ≡ true
      → Bound groups layers
      → bind_names foreign g names layers ≡ ok out
      → Bound groups out
  unfolding bind_names
  bind_names-Bound g [] layers {out} m b h =
      let e : layers ≡ out = ground arith in subst (Bound groups) e b
  bind_names-Bound g (name ∷ names) layers m b h =
      let (_, _, h1) =
        >>=-eq-ok
          (raise_if (member tokens_discrete name (map layer_name_of layers)) duplicate_layer_name) _
          h in
      let (index, _, h2) = >>=-eq-ok (extract_gpt_oss_layer_index foreign name) _ h1 in
      let (_, new, h3) =
        >>=-eq-ok (raise_if (elem index (map layer_index_of layers)) duplicate_layer_index) _ h2 in
      let (_, kind, h4) =
        >>=-eq-ok
          (raise_if (not (same_kind g.attention_kind (expected_kind index)))
            attention_pattern_mismatch)
          _ h3 in
      let l = bound_layer g name index in
      bind_names-Bound g names (layers ++ l ∷ []) m
        (
          All-append (IsPatterned groups) layers (l ∷ []) b.0
              ((same_kind-eq g.attention_kind (expected_kind index) (ground arith), m), tt),
          Pairwise-snoc Distinct layers l b.1 (All-unseen index layers l refl (ground arith)),
        )
        h4

  bind_groups-Bound :
      (gs : List CacheGroupLayout) (layers : List AttentionLayerLayout)
      {out : List AttentionLayerLayout}
      → All (λ g. elem g.group_id (group_ids groups) ≡ true) gs
      → Bound groups layers
      → bind_groups foreign gs layers ≡ ok out
      → Bound groups out
  unfolding bind_groups
  bind_groups-Bound [] layers {out} m b h =
      let e : layers ≡ out = ground arith in subst (Bound groups) e b
  bind_groups-Bound (g ∷ gs) layers m b h =
      let (layers', e, h') = >>=-eq-ok (bind_names foreign g g.layer_names layers) _ h in
      bind_groups-Bound gs layers' m.1 (bind_names-Bound g g.layer_names layers m.0 b e) h'

own_ids : (gs : List CacheGroupLayout) → All (λ g. elem g.group_id (group_ids gs) ≡ true) gs
own_ids [] = tt
own_ids (g ∷ gs) = (ground arith, All-map (λ a h. ground (arith, h)) gs (own_ids gs))

-- The indexes of a range are all there, and no others.
abbrev Fills : ℕ → ℕ → List AttentionLayerLayout → Type 0
Fills lo n ls = (i : ℕ) → lo ≤ i → i < lo + n → elem i (map layer_index_of ls) ≡ true

-- In strictly rising order.
abbrev Rises : AttentionLayerLayout → AttentionLayerLayout → Type 0
Rises a b = a.layer_index < b.layer_index

not_below :
    (i : ℕ) (l : AttentionLayerLayout) (ls : List AttentionLayerLayout)
    → All (Rises l) ls
    → i ≤ l.layer_index
    → elem i (map layer_index_of ls) ≡ false
not_below i l [] h e = refl
not_below i l (a ∷ rest) h e = ground (arith, not_below i l rest h.1 e)

indexes_of_rising :
    (lo n : ℕ) (ls : List AttentionLayerLayout)
    → Pairwise Rises ls
    → All (λ l. (lo ≤ l.layer_index) × (l.layer_index < lo + n)) ls
    → Fills lo n ls
    → map layer_index_of ls ≡ range_from lo n
indexes_of_rising lo zero [] r b f = refl
indexes_of_rising lo zero (l ∷ ls) r b f = absurd (omega (arith, b.0.0, b.0.1))
indexes_of_rising lo (suc n) [] r b f = absurd (ground (arith, f lo (omega arith) (omega arith)))
indexes_of_rising lo (suc n) (l ∷ ls) r b f =
    let first : l.layer_index ≡ lo =
      ground (arith, f lo (omega arith) (omega arith), not_below lo l ls r.0 b.0.0, b.0) in
    let rest : map layer_index_of ls ≡ range_from (suc lo) n =
      indexes_of_rising (suc lo) n ls r.1
        (All-map (λ a h. (omega (arith, h.0), omega (arith, h.1.1))) ls
          (All-zip (Rises l) (λ a. (lo ≤ a.layer_index) × (a.layer_index < lo + suc n)) ls r.0 b.1))
        (λ i p q. ground (arith, f i (omega arith) (omega arith))) in
    cc

elem-map :
    (i : ℕ) (ls : List AttentionLayerLayout)
    → elem i (map layer_index_of ls) ≡ any (λ l. i == l.layer_index) ls
elem-map i [] = refl
elem-map i (l ∷ ls) = ap (◌||◌ (i == l.layer_index)) (elem-map i ls)

within_of_any :
    (n : ℕ) (ls : List AttentionLayerLayout)
    → any (λ x. not (ltb x n)) (map layer_index_of ls) ≡ false
    → All (λ l. (0 ≤ l.layer_index) × (l.layer_index < 0 + n)) ls
within_of_any n [] h = tt
within_of_any n (l ∷ ls) h = ((omega arith, ground arith), within_of_any n ls (ground arith))

fills_of_any :
    (xs : List ℕ) (lo n : ℕ)
    → any (λ i. not (elem i xs)) (range_from lo n) ≡ false
    → (i : ℕ) → lo ≤ i
    → i < lo + n
    → elem i xs ≡ true
fills_of_any xs lo zero h i p q = absurd (omega arith)
fills_of_any xs lo (suc n) h i p q = elim (Bool-cases (i == lo)) [
  | inl e ↦ let e' : i ≡ lo = ground arith in rw e' (ground arith)
  | inr e ↦ fills_of_any xs (suc lo) n (ground arith) i (ground arith) (omega arith)
]

sorted_layers :
    (ls : List AttentionLayerLayout)
    → Pairwise Distinct ls
    → not_range num_layers (map layer_index_of ls) ≡ false
    → map layer_index_of (sorted layer_index_of ls) ≡ range_from 0 num_layers
sorted_layers ls d h =
    let out = sorted layer_index_of ls in
    let rises : Pairwise Rises out =
      Pairwise-map (λ a b h. ground (arith, h.0, h.1)) out
        (Pairwise-zip _ Distinct out (sorted-Ascending layer_index_of ls)
          (sorted-Pairwise layer_index_of Distinct Distinct-symm ls d)) in
    indexes_of_rising 0 num_layers out rises
      (sorted-All layer_index_of _ ls (within_of_any num_layers ls (ground arith)))
      (λ i p q.
        elem-map i out
        ∙ any-sorted layer_index_of (λ l. i == l.layer_index) ls
        ∙ sym (elem-map i ls)
        ∙ fills_of_any (map layer_index_of ls) 0 num_layers (ground arith) i p q)

module _ (foreign : ℕ → Option ℕ) where
  layout_parts :
      (groups : List CacheGroupLayout) {l : GptOssHybridCacheLayout}
      → hybrid_cache_layout foreign groups ≡ ok l
      → (has_duplicates ℕ_discrete (group_ids groups) ≡ false)
        × (ls : List AttentionLayerLayout) × (bind_groups foreign groups [] ≡ ok ls)
        × (not_range num_layers (map layer_index_of ls) ≡ false)
        × (l ≡ record { groups = groups; layers = sorted layer_index_of ls })
  unfolding hybrid_cache_layout
  layout_parts groups h =
      let (_, _, h1) =
        >>=-eq-ok (raise_if (not (length groups == num_cache_groups)) invalid_group_count) _ h in
      let (_, d, h2) =
        >>=-eq-ok (raise_if (has_duplicates ℕ_discrete (group_ids groups)) duplicate_group_id) _
          h1 in
      let (_, _, h3) =
        >>=-eq-ok (raise_if (not_range num_cache_groups (group_ids groups)) invalid_group_id) _
          h2 in
      let (_, _, h4) =
        >>=-eq-ok
          (raise_if
            (not (
              any (λ g. same_kind g.attention_kind sliding) groups
              && any (λ g. same_kind g.attention_kind full) groups))
            attention_pattern_mismatch)
          _ h3 in
      let (_, _, h5) =
        >>=-eq-ok
          (raise_if (not (sum (map (λ g. length g.layer_names) groups) == num_layers))
            invalid_layer_count)
          _ h4 in
      let (ls, e, h6) = >>=-eq-ok (bind_groups foreign groups []) _ h5 in
      let (_, r, h7) =
        >>=-eq-ok (raise_if (not_range num_layers (map layer_index_of ls)) invalid_layer_count) _
          h6 in
      (ground (arith, d), ls, e, ground (arith, r), ground (arith, h7))

  -- A layout that was built has the layers 0 to 23, each once and in order; the even ones are
  -- sliding and the odd ones full, and the group of each is one of the groups that were given.
  pub hybrid_cache_layout-layers :
      (groups : List CacheGroupLayout) {l : GptOssHybridCacheLayout}
      → hybrid_cache_layout foreign groups ≡ ok l
      → (l.groups ≡ groups)
        × (map layer_index_of l.layers ≡ range_from 0 num_layers)
        × All (IsPatterned groups) l.layers
  hybrid_cache_layout-layers groups h =
      let (d, ls, e, r, k) = layout_parts groups h in
      let b = bind_groups-Bound foreign groups groups [] (own_ids groups) (tt, tt) e in
      rw k (refl, sorted_layers ls b.1 r, sorted-All layer_index_of (IsPatterned groups) ls b.0)

  -- The groups of a layout that was built have different ids.
  pub layout_ids :
      (groups : List CacheGroupLayout) {l : GptOssHybridCacheLayout}
      → hybrid_cache_layout foreign groups ≡ ok l
      → Pairwise (λ i j. same ℕ_discrete i j ≡ false) (group_ids groups)
  layout_ids groups h = has_duplicates-false ℕ_discrete (group_ids groups) (layout_parts groups h).0
