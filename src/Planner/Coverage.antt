-- ===== src/Planner/Coverage.antt =====
-- How many token positions a set of segments covers: `_covered_token_count` of
-- src/cacheblend_gpt_oss/planner/matching.py.
use cacheblend_gpt_oss.Prelude.{
  sym, Pairwise, ap, All-map, leb→le, ℕ, ◌+◌, ◌-◌, ◌≤◌, ◌<◌, max, ◌≡◌, refl, ◌∙◌, Bool, true, false,
  ◌||◌, List, [], ◌∷◌, map, leb, if◌then◌else◌, sorted, any, All, arith, Ascending,
  sorted-Ascending, any-sorted, sorted-All, sum, count_below, between, count_below_cong,
  count_below_or, count_below-between, count_below_none, nat_order, pair_order, Bool-cases, inl,
  inr,
}
use cacheblend_gpt_oss.Planner.Models.{TokenRange, TokenSegment, range_len, overlaps}

abbrev pub range_key : TokenRange → ℕ × ℕ
range_key r = (r.start, r.end)

pub record Sweep : Type 0 where
  pub covered : ℕ
  pub current_start : ℕ
  pub current_end : ℕ

unfoldable pub sweep_step : Sweep → TokenRange → Sweep
sweep_step s r =
    if leb r.start s.current_end
    then record s { current_end = max s.current_end r.end }
    else record {
      covered = s.covered + (s.current_end - s.current_start);
      current_start = r.start;
      current_end = r.end;
    }

unfoldable pub sweep_loop : Sweep → List TokenRange → ℕ
unfolding sweep_step
sweep_loop s [] = s.covered + s.current_end - s.current_start
sweep_loop s (r ∷ rs) = sweep_loop (sweep_step s r) rs

unfoldable pub sweep_ranges : List TokenRange → ℕ
unfolding sweep_loop
sweep_ranges [] = 0
sweep_ranges (r ∷ rs) =
    sweep_loop (record { covered = 0; current_start = r.start; current_end = r.end }) rs

unfoldable pub covered_token_count : List TokenSegment → ℕ
unfolding sweep_ranges
covered_token_count segments = sweep_ranges (sorted range_key (map (λ s. s.token_range) segments))

-- The position lies in one of the ranges.
abbrev pub covers : List TokenRange → ℕ → Bool
covers rs x = any (λ r. between r.start r.end x) rs

abbrev pub targets : List TokenSegment → List TokenRange
targets = map (λ s. s.token_range)

starts_above :
    (a x : ℕ) (rs : List TokenRange) → All (λ r. a ≤ r.start) rs → x < a → covers rs x ≡ false
starts_above a x [] h l = refl
starts_above a x (r ∷ rs) h l = ground (arith, starts_above a x rs)

-- In order, a range starts no later than those behind it.
starts_in_order :
    (r : TokenRange) (rs : List TokenRange)
    → Ascending range_key (r ∷ rs)
    → All (λ y. r.start ≤ y.start) rs
starts_in_order r rs k =
    All-map
      (λ (y : TokenRange) (h : pair_order.le (range_key r) (range_key y) ≡ true).
        leb→le r.start y.start (ground arith))
      rs k.0

module _ (n : ℕ) where
  sweep_loop-count :
      (s : Sweep) (rs : List TokenRange)
      → s.current_start ≤ s.current_end
      → s.current_end ≤ n
      → All (λ r. r.end ≤ n) rs
      → All (λ r. r.start ≤ r.end) rs
      → All (λ r. s.current_start ≤ r.start) rs
      → Ascending range_key rs
      → sweep_loop s rs
        ≡ s.covered + count_below n (λ x. between s.current_start s.current_end x || covers rs x)
  unfolding sweep_loop
  sweep_loop-count s [] h b e o a k = omega (
    arith,
    count_below_cong n (λ x. between s.current_start s.current_end x || false)
        (between s.current_start s.current_end) (λ x l. ground arith),
    count_below-between s.current_start s.current_end n b,
  )
  sweep_loop-count s (r ∷ rs) h b e o a k = elim (Bool-cases (leb r.start s.current_end)) [
    | inl near ↦
        rw (near, sweep_step)
          (sweep_loop-count (record s { current_end = max s.current_end r.end }) rs (omega arith)
              (omega arith) e.1 o.1 a.1 k.1
            ∙ ap (◌+◌ s.covered) (count_below_cong n _ _ (λ x l. ground (arith, o.0, a.0))))
    | inr far ↦
        rw (far, sweep_step)
          (sweep_loop-count
              (record {
                covered = s.covered + (s.current_end - s.current_start);
                current_start = r.start;
                current_end = r.end;
              })
              rs o.0 e.0 e.1 o.1 (starts_in_order r rs k) k.1
            ∙ omega (
              arith,
              count_below_or n (between s.current_start s.current_end) (covers (r ∷ rs)) (λ x l.
                  starts_above (s.current_end + 1) x (r ∷ rs)
                    (ground arith, All-map (λ y g. ground arith) rs (starts_in_order r rs k))
                    (ground arith)),
              count_below-between s.current_start s.current_end n b,
            ))
  ]

  sweep_ranges-count :
      (rs : List TokenRange)
      → All (λ r. r.end ≤ n) rs
      → All (λ r. r.start ≤ r.end) rs
      → Ascending range_key rs
      → sweep_ranges rs ≡ count_below n (covers rs)
  unfolding sweep_ranges
  sweep_ranges-count [] e o k = sym (count_below_none n)
  sweep_ranges-count (r ∷ rs) e o k = omega (
    arith,
    sweep_loop-count (record { covered = 0; current_start = r.start; current_end = r.end }) rs o.0
        e.0 e.1 o.1 (starts_in_order r rs k) k.1,
  )

  -- For segments whose ranges do not end before they start and lie below a bound, the sweep is
  -- the number of positions below the bound that lie in some segment, each counted once.
  pub covered_token_count-count :
      (segments : List TokenSegment)
      → All (λ r. r.end ≤ n) (targets segments)
      → All (λ r. r.start ≤ r.end) (targets segments)
      → covered_token_count segments ≡ count_below n (covers (targets segments))
  unfolding covered_token_count
  covered_token_count-count segments e o =
      sweep_ranges-count (sorted range_key (targets segments))
        (sorted-All range_key _ (targets segments) e) (sorted-All range_key _ (targets segments) o)
        (sorted-Ascending range_key (targets segments))
      ∙ count_below_cong n _ _ (λ x l. any-sorted range_key _ (targets segments))

-- Disjoint ranges cover as many positions as their lengths add up to.
abbrev pub Apart : TokenRange → TokenRange → Type 0
Apart a b = overlaps a b ≡ false

disjoint_tail :
    (r : TokenRange) (rs : List TokenRange) (x : ℕ)
    → All (Apart r) rs
    → between r.start r.end x ≡ true
    → covers rs x ≡ false
disjoint_tail r [] x h l = refl
disjoint_tail r (s ∷ rs) x h l = ground (arith, disjoint_tail r rs x)

pub count_below-disjoint :
    (n : ℕ) (rs : List TokenRange)
    → All (λ r. r.end ≤ n) rs
    → Pairwise Apart rs
    → count_below n (covers rs) ≡ sum (map (λ r. range_len r) rs)
count_below-disjoint n [] e d = count_below_none n
count_below-disjoint n (r ∷ rs) e d = omega (
  arith,
  count_below_or n (between r.start r.end) (covers rs) (λ x. disjoint_tail r rs x d.0),
  count_below-between r.start r.end n e.0,
  count_below-disjoint n rs e.1 d.1,
)
