-- ===== src/Planner/Segmentation/Windows.antt =====
-- The rolling windows of src/cacheblend_gpt_oss/planner/segmentation.py, all of them and no other.
use cacheblend_gpt_oss.Prelude.{
  ℕ, ◌+◌, ◌-◌, ◌%◌, drop, ◌≤◌, ◌<◌, ◌≡◌, ◌∙◌, ◌↔◌, ap, refl, subst, List, [], ◌∷◌, map, ok, each,
  ◌==◌, arith, leb, All, All-Occurs, All-take, All-drop, length, length-take, length-drop, inl, inr,
  Result, Occurs, Occurs-append, Occurs-filter, Occurs-map, Occurs-range_from, range_from,
}
use cacheblend_gpt_oss.Planner.Models.{TokenSegment, segment_len, max_token_id}
use cacheblend_gpt_oss.Planner.Models.Laws.{
  IsSegment, token_segment_of_IsSegment, token_range-eq-ok,
}
use cacheblend_gpt_oss.Planner.Segmentation.{
  RollingQuerySegmenter, windows_at, region_windows, window_segment, region_candidates, slice,
  joined, stepped,
}

-- The loop over results that are all there.
each-eq-ok {ℓ κ μ} :
    {E : Type μ} {A : Type ℓ} {B : Type κ} (f : A → Result E B) (g : A → B) (xs : List A)
    → All (λ x. f x ≡ ok (g x)) xs
    → each f xs ≡ ok (map g xs)
unfolding each
each-eq-ok f g [] h = refl
each-eq-ok f g (x ∷ xs) h = rw (h.0, each-eq-ok f g xs h.1) refl

Occurs-joined :
    {A B : Type 0} (f : A → List B) (y : B) (xs : List A)
    → Occurs y (joined (map f xs)) ↔ ((x : A) × Occurs x xs × Occurs y (f x))
Occurs-joined f y [] = (λ h. absurd h, λ h. absurd h.1)
Occurs-joined f y (x ∷ xs) =
    let (there, back) = Occurs-joined f y xs in
    let (split, join) = Occurs-append y (f x) (joined (map f xs)) in
    (
      λ h. elim (split h) [
        | inl o ↦ (x, inl refl, o)
        | inr k ↦ let (z, a, b) = there k in (z, inr a, b)
      ],
      λ h. elim h.1 [
        | inl e ↦ join (inl (subst (λ z. Occurs y (f z)) e h.2))
        | inr o ↦ join (inr (back (h.0, o, h.2)))
      ],
    )

Occurs-All : {A : Type 0} (P : A → Type 0) (xs : List A) → ((x : A) → Occurs x xs → P x) → All P xs
Occurs-All P [] h = tt
Occurs-All P (x ∷ xs) h = (h x (inl refl), Occurs-All P xs (λ y o. h y (inr o)))

-- The starts are the multiples of the step below the bound.
Occurs-stepped : (i n step : ℕ) → Occurs i (stepped n step) ↔ ((i % step ≡ 0) × (i < n))
Occurs-stepped i n step =
    let (there, back) = Occurs-filter (λ i. i % step == 0) i (range_from 0 n) in
    let (low, high) = Occurs-range_from i 0 n in
    (
      λ h. let (e, o) = there h in (ground arith, omega (arith, (low o).1)),
      λ h. back (ground (arith, h.0), high (omega arith, omega (arith, h.1))),
    )

-- A window of the region from a start: its positions and its tokens.
abbrev pub window : TokenSegment → ℕ × ℕ → TokenSegment
window region w = record {
  token_range = record {
    start = region.token_range.start + w.0;
    end = region.token_range.start + w.1;
  };
  token_ids = slice w.0 w.1 region.token_ids;
}

-- One of the sizes, from a multiple of the stride, to an end within the region.
abbrev pub IsPlace : RollingQuerySegmenter → TokenSegment → ℕ × ℕ → Type 0
IsPlace q region w =
    (size : ℕ) × Occurs size q.window_sizes
    × (w.0 % q.stride ≡ 0)
    × (w.1 ≡ w.0 + size)
    × (w.1 ≤ segment_len region)

module _ (q : RollingQuerySegmenter) (region : TokenSegment)
    (positive : All (λ n. 0 < n) q.window_sizes) where
  place_at :
      (i : ℕ) (w : ℕ × ℕ)
      → Occurs w (windows_at q.window_sizes region i) ↔ (
          (size : ℕ) × Occurs size q.window_sizes
          × (w ≡ (i, i + size))
          × (w.1 ≤ segment_len region))
  place_at i w =
      let (there, back) =
        Occurs-filter (λ w. leb w.1 (segment_len region)) w
          (map (λ size. (i, i + size)) q.window_sizes) in
      let (from, to) = Occurs-map (λ size. (i, i + size)) w q.window_sizes in
      (
        λ h. let (e, o) = there h in let (size, m, k) = from o in (size, m, k, ground arith),
        λ h. back (ground (arith, h.3), to (h.0, h.1, h.2)),
      )

  -- The windows that the code lists are those places.
  Occurs-windows : (w : ℕ × ℕ) → Occurs w (region_windows q region) ↔ IsPlace q region w
  Occurs-windows w =
      let (there, back) =
        Occurs-joined (windows_at q.window_sizes region) w
          (stepped (segment_len region) q.stride) in
      (
        λ h.
            let (i, o, k) = there h in
            let (size, m, e, l) = (place_at i w).0 k in
            let (d, b) = (Occurs-stepped i (segment_len region) q.stride).0 o in
            (size, m, ap (λ z. z.0 % q.stride) e ∙ d, moved i size w e, l),
        λ (size, m, d, e, l).
            let room = All-Occurs (λ n. 0 < n) size q.window_sizes positive m in
            back (
              w.0,
              (Occurs-stepped w.0 (segment_len region) q.stride).1 (d, omega (arith, room, e, l)),
              (place_at w.0 w).1 (size, m, (λ j. (w.0, e j)), l),
            ),
      )
    where
      moved : (i size : ℕ) (w : ℕ × ℕ) → w ≡ (i, i + size) → w.1 ≡ w.0 + size
      moved i size w e =
          let a : w.0 ≡ i = ap (λ z. z.0) e in
          let b : w.1 ≡ i + size = ap (λ z. z.1) e in omega (arith, a, b)

-- The segment of a window that ends within its region passes its constructor.
window_segment-eq-ok :
    (region : TokenSegment) (w : ℕ × ℕ)
    → IsSegment region
    → w.0 < w.1
    → w.1 ≤ segment_len region
    → window_segment region w ≡ ok (window region w)
unfolding window_segment
window_segment-eq-ok region w v p l =
    let size : length (slice w.0 w.1 region.token_ids) ≡ w.1 - w.0 = omega (
      arith,
      length-take (w.1 - w.0) (drop w.0 region.token_ids),
      length-drop w.0 region.token_ids,
      l,
    ) in
    rw
      (token_range-eq-ok (region.token_range.start + w.0) (region.token_range.start + w.1)
        (omega (arith, p)))
      (token_segment_of_IsSegment (window region w) (record {
        nonempty = omega (arith, size, p);
        fits = omega (arith, size, p);
        bounded =
            All-take (λ t. t ≤ max_token_id) (w.1 - w.0) (drop w.0 region.token_ids)
              (All-drop (λ t. t ≤ max_token_id) w.0 region.token_ids v.bounded);
      }))

-- One of the windows of the region.
abbrev pub IsWindow : RollingQuerySegmenter → TokenSegment → TokenSegment → Type 0
IsWindow q region s = (w : ℕ × ℕ) × IsPlace q region w × (s ≡ window region w)

-- Of a valid region, with a positive stride and positive window sizes, the rolling segmenter gives its candidates without
-- failing, and a segment is among them exactly when it is a window of one of the sizes that starts
-- at a multiple of the stride and ends within the region, with the region's tokens there.
pub region_candidates-IsWindow :
    (q : RollingQuerySegmenter) (region : TokenSegment)
    → IsSegment region
    → 0 < q.stride
    → All (λ n. 0 < n) q.window_sizes
    → (out : List TokenSegment) × (region_candidates q region ≡ ok out)
      × ((s : TokenSegment) → Occurs s out ↔ IsWindow q region s)
unfolding region_candidates
region_candidates-IsWindow q region v _ positive = (
  map (window region) (region_windows q region),
  each-eq-ok (window_segment region) (window region) (region_windows q region) (
      Occurs-All (λ w. window_segment region w ≡ ok (window region w)) (region_windows q region)
        (λ w o.
          let (size, m, d, e, l) = (Occurs-windows q region positive w).0 o in
          let room = All-Occurs (λ n. 0 < n) size q.window_sizes positive m in
          window_segment-eq-ok region w v (omega (arith, room, e)) l)),
  λ s.
      let (there, back) = Occurs-map (window region) s (region_windows q region) in
      (
        λ h. let (w, o, e) = there h in (w, (Occurs-windows q region positive w).0 o, e),
        λ (w, k, e). back (w, (Occurs-windows q region positive w).1 k, e),
      ),
)
