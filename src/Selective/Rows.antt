-- ===== src/Selective/Rows.antt =====
-- Recomputed and cached rows of one layer: src/cacheblend_gpt_oss/gpt_oss/selective.py.
use cacheblend_gpt_oss.Prelude.{
  ℕ, ◌+◌, ◌≤◌, ◌<◌, ◌≡◌, refl, sym, subst, ◌∙◌, true, false, not, ◌&&◌, List, [], ◌∷◌, Value, nat,
  ok, >>=-eq-ok, arith, between, All, All-map, All-of, Ascending, sorted, sorted-Ascending,
  nat_order, pair_order, holds_iff,
}
use cacheblend_gpt_oss.Planner.Models.{TokenRange}
use cacheblend_gpt_oss.Planner.Coverage.{covers, range_key}
use cacheblend_gpt_oss.Selective.{
  check_ranges, neighbours_overlap, normalize_ranges, validate_prompt_tokens, complement,
  complement_from, range_token_count, LayerRowSelection, layer_row_selection, covers_prompt,
  layer_recompute_tokens, layer_cached_tokens, cached_ranges, ranges_discrete, valid_layer_index,
}

-- Non-empty ranges within the prompt, each from the end of the one before it on.
abbrev pub IsCanonical : ℕ → ℕ → List TokenRange → Type 0
IsCanonical cursor prompt [] = cursor ≤ prompt
IsCanonical cursor prompt (r ∷ rs) =
    (cursor ≤ r.start) × (r.start < r.end) × IsCanonical r.end prompt rs

behind_canonical :
    (c n : ℕ) (rs : List TokenRange) (x : ℕ) → IsCanonical c n rs → x < c → covers rs x ≡ false
behind_canonical c n [] x h l = refl
behind_canonical c n (r ∷ rs) x h l = ground (arith, behind_canonical r.end n rs x h.2)

canonical-le : (c n : ℕ) (rs : List TokenRange) → IsCanonical c n rs → c ≤ n
canonical-le c n [] h = h
canonical-le c n (r ∷ rs) h = omega (arith, canonical-le r.end n rs h.2)

covers-complement_from :
    (n c : ℕ) (rs : List TokenRange) (x : ℕ)
    → IsCanonical c n rs
    → covers (complement_from n c rs) x ≡ (between c n x && not (covers rs x))
unfolding complement_from
covers-complement_from n c [] x h = ground arith
covers-complement_from n c (r ∷ rs) x h = ground (
  arith,
  covers-complement_from n r.end rs x h.2,
  behind_canonical r.end n rs x h.2,
  canonical-le r.end n rs h.2,
)

complement_from-count :
    (n c : ℕ) (rs : List TokenRange)
    → IsCanonical c n rs
    → range_token_count rs + range_token_count (complement_from n c rs) + c ≡ n
unfolding complement_from
complement_from-count n c [] h = ground arith
complement_from-count n c (r ∷ rs) h = ground (arith, complement_from-count n r.end rs h.2)

check_ranges-parts :
    (n : ℕ) (r : TokenRange) (rs : List TokenRange)
    → check_ranges n (r ∷ rs) ≡ ok tt
    → (r.start < r.end) × (r.end ≤ n) × (check_ranges n rs ≡ ok tt)
unfolding check_ranges
check_ranges-parts n r rs h = (ground arith, ground arith, ground arith)

starts_after :
    (c : ℕ) (r : TokenRange) (rs : List TokenRange)
    → c ≤ r.start
    → Ascending range_key (r ∷ rs)
    → All (λ s. c ≤ s.start) (r ∷ rs)
starts_after c r rs h k = (
  h,
  All-map (λ (s : TokenRange) (q : pair_order.le (range_key r) (range_key s) ≡ true). ground arith)
      rs k.0,
)

-- The ranges that pass the checks, in order, are canonical.
IsCanonical-of_checks :
    (n c : ℕ) (rs : List TokenRange)
    → c ≤ n
    → All (λ r. c ≤ r.start) rs
    → check_ranges n rs ≡ ok tt
    → Ascending range_key rs
    → neighbours_overlap rs ≡ false
    → IsCanonical c n rs
IsCanonical-of_checks n c [] l a h s o = l
IsCanonical-of_checks n c (r ∷ []) l a h s o =
    let (f, e, h') = check_ranges-parts n r [] h in (a.0, f, e)
IsCanonical-of_checks n c (r ∷ t ∷ rs) l a h s o =
    let (f, e, h') = check_ranges-parts n r (t ∷ rs) h in
    let (g, _, _) = check_ranges-parts n t rs h' in
    (
      a.0,
      f,
      IsCanonical-of_checks n r.end (t ∷ rs) e (starts_after r.end t rs (ground (arith, s.0.0)) s.1)
          h' s.1 (ground arith),
    )

validated-eq : (n : ℕ) {m : ℕ} → validate_prompt_tokens (nat n) ≡ ok m → m ≡ n
unfolding validate_prompt_tokens
validated-eq n h = ground arith

-- Ranges that pass the checks are non-empty, within the prompt, in order and disjoint, and are
-- returned as they were given.
pub normalize_ranges-IsCanonical :
    (n : ℕ) (rs : List TokenRange) {out : List TokenRange}
    → normalize_ranges (nat n) rs ≡ ok out
    → IsCanonical 0 n out × (out ≡ rs)
unfolding normalize_ranges
normalize_ranges-IsCanonical n rs {out} h =
    let (n', p, h') = >>=-eq-ok (validate_prompt_tokens (nat n)) _ h in
    let (u, q, h'') = >>=-eq-ok (check_ranges n' rs) _ h' in
    let e : n' ≡ n = validated-eq n p in
    let ordered : sorted range_key rs ≡ rs =
      ground (arith, holds_iff (ranges_discrete (sorted range_key rs) rs)) in
    let clear : neighbours_overlap (sorted range_key rs) ≡ false = ground arith in
    let out_eq : out ≡ sorted range_key rs = ground arith in
    (
      subst (IsCanonical 0 n) (sym (out_eq ∙ ordered)) (
          IsCanonical-of_checks n 0 rs (omega arith) (All-of _ (λ r. omega arith) rs)
            (subst (λ k. check_ranges k rs ≡ ok tt) e q)
            (subst (Ascending range_key) ordered (sorted-Ascending range_key rs))
            (subst (λ l. neighbours_overlap l ≡ false) ordered clear)),
      out_eq ∙ ordered,
    )

rows_of_canonical :
    (m : LayerRowSelection)
    → IsCanonical 0 m.prompt_tokens m.recompute_ranges
    → (layer_recompute_tokens m + layer_cached_tokens m ≡ m.prompt_tokens)
      × ((x : ℕ)
          → x < m.prompt_tokens
          → covers (cached_ranges m) x ≡ not (covers m.recompute_ranges x))
unfolding complement
rows_of_canonical m h = (
  omega (arith, complement_from-count m.prompt_tokens 0 m.recompute_ranges h),
  λ x l. ground (arith, covers-complement_from m.prompt_tokens 0 m.recompute_ranges x h),
)

selection_of :
    (index prompt : Value) (ranges : List TokenRange) {l : LayerRowSelection}
    → layer_row_selection index prompt ranges ≡ ok l
    → IsCanonical 0 l.prompt_tokens l.recompute_ranges × (l.recompute_ranges ≡ ranges)
unfolding layer_row_selection
selection_of index prompt ranges {l} h =
    let (i, _, h') = >>=-eq-ok (valid_layer_index index) _ h in
    let (n, _, h'') = >>=-eq-ok (validate_prompt_tokens prompt) _ h' in
    let (rs, made, h3) = >>=-eq-ok (normalize_ranges (nat n) ranges) _ h'' in
    let k : l ≡ record { layer_index = i; prompt_tokens = n; recompute_ranges = rs } =
      ground arith in
    subst
      (λ (m : LayerRowSelection).
        IsCanonical 0 m.prompt_tokens m.recompute_ranges × (m.recompute_ranges ≡ ranges))
      (sym k) (normalize_ranges-IsCanonical n ranges made)

-- A layer's selection that was built has the ranges that were asked for, and its recomputed and
-- cached rows add up to the prompt: such a selection always covers the prompt.
pub layer_row_selection-covers_prompt :
    (index prompt : Value) (ranges : List TokenRange) {l : LayerRowSelection}
    → layer_row_selection index prompt ranges ≡ ok l
    → (l.recompute_ranges ≡ ranges)
      × (layer_recompute_tokens l + layer_cached_tokens l ≡ l.prompt_tokens)
      × (covers_prompt l ≡ true)
layer_row_selection-covers_prompt index prompt ranges {l} h =
    let (c, e) = selection_of index prompt ranges h in
    let rows = rows_of_canonical l c in (e, rows.0, ground (arith, rows.0))

-- In a layer's selection that was built, a position of the prompt is cached exactly when no
-- recomputed range holds it.
pub layer_row_selection-rows :
    (index prompt : Value) (ranges : List TokenRange) {l : LayerRowSelection} (x : ℕ)
    → layer_row_selection index prompt ranges ≡ ok l
    → x < l.prompt_tokens
    → covers (cached_ranges l) x ≡ not (covers l.recompute_ranges x)
layer_row_selection-rows index prompt ranges {l} x h =
    (rows_of_canonical l (selection_of index prompt ranges h).0).1 x
