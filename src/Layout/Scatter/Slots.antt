-- ===== src/Layout/Scatter/Slots.antt =====
-- The slots that a scatter writes, against the slot of each position on its own:
-- src/cacheblend_gpt_oss/gpt_oss/layout.py.
use cacheblend_gpt_oss.Prelude.{
  ℕ, zero, suc, ◌+◌, ◌*◌, ◌/◌, ◌%◌, ◌-◌, ◌≤◌, ◌<◌, ◌≡◌, refl, sym, subst, ap, ap₂, ◌∙◌, false, List,
  [], ◌∷◌, ◌++◌, map, Option, none, some, ok, ltb, ◌==◌, length, any, range_from, get_elem?, arith,
  Bool-cases, inl, inr,
}
use mathlib.Core.List.{map-append}
use cacheblend_gpt_oss.Planner.Models.{range_len}
use cacheblend_gpt_oss.Planner.Segmentation.{joined}
use cacheblend_gpt_oss.Layout.Groups.{CacheGroupLayout}
use cacheblend_gpt_oss.Layout.Scatter.{
  GroupBlockTable, TokenTransfer, GroupTokenScatterSpan, check_blocks, is_unavailable, block_at,
  span_tokens, source_of, span_at, scatter_from, scatter_group,
}

div_step : (c s k : ℕ) → 0 < s → k < s - c % s → ((c + k) / s ≡ c / s) × ((c + k) % s ≡ c % s + k)
div_step c s k p h = (grind arith, grind arith)

div_mono : (a b s : ℕ) → 0 < s → a ≤ b → a / s ≤ b / s
div_mono a b s p h = grind arith

-- A transfer that `__post_init__` admits: as many positions on both sides, and some.
pub record IsTransfer (t : TokenTransfer) : Type 0 where
  pub filled : t.target_range.start < t.target_range.end
  pub equal : range_len t.source_range ≡ range_len t.target_range

-- The slot of one position: its block, and its place in the block.
abbrev pub slot_in : Option (Option ℕ) → ℕ → ℕ → Option ℕ
slot_in (some (some b)) size p = some (b * size + p % size)
slot_in _ size p = none

abbrev pub slot_of : List (Option ℕ) → ℕ → ℕ → Option ℕ
slot_of blocks size p = slot_in (get_elem? blocks (p / size)) size p

-- A source position, its target position, and the slot of the target.
abbrev pub Placement : Type 0
Placement = ℕ × (ℕ × Option ℕ)

abbrev pub placed : List (Option ℕ) → ℕ → TokenTransfer → ℕ → Placement
placed blocks size t p = (source_of t p, (p, slot_of blocks size p))

-- What a span writes, position by position.
abbrev pub written_at : GroupTokenScatterSpan → ℕ → Placement
written_at s k =
    (s.source_range.start + k, (s.target_range.start + k, some (s.physical_slot_start + k)))

abbrev pub written : GroupTokenScatterSpan → List Placement
written s = map (written_at s) (range_from 0 (range_len s.target_range))

map-range_from {ℓ} :
    {A : Type ℓ} (f h : ℕ → A) (i c m : ℕ)
    → ((k : ℕ) → k < m → f (i + k) ≡ h (c + k))
    → map f (range_from i m) ≡ map h (range_from c m)
map-range_from f h i c zero e = refl
map-range_from f h i c (suc m) e =
    let i' : i + 0 ≡ i = omega arith in
    let c' : c + 0 ≡ c = omega arith in
    let first : f i ≡ h c =
      subst (λ x. f x ≡ h c) i' (subst (λ x. f (i + 0) ≡ h x) c' (e 0 (omega arith))) in
    let rest : map f (range_from (suc i) m) ≡ map h (range_from (suc c) m) =
      map-range_from f h (suc i) (suc c) m (λ k l.
        let i'' : i + suc k ≡ suc i + k = omega arith in
        let c'' : c + suc k ≡ suc c + k = omega arith in
        subst (λ x. f x ≡ h (suc c + k)) i''
          (subst (λ x. f (i + suc k) ≡ h x) c'' (e (suc k) (omega arith)))) in
    cc

range_from-append : (c m n : ℕ) → range_from c (m + n) ≡ range_from c m ++ range_from (c + m) n
range_from-append c zero n = ground arith
range_from-append c (suc m) n =
    let left : suc m + n ≡ suc (m + n) = omega arith in
    let right : c + suc m ≡ suc c + m = omega arith in
    rw (left, right) (ap (◌∷◌ c) (range_from-append (suc c) m n))

-- The block of every position of the transfer is there.
abbrev Available : List (Option ℕ) → ℕ → TokenTransfer → Type 0
Available blocks size t =
    (p : ℕ)
    → t.target_range.start ≤ p
    → p < t.target_range.end
    → (b : ℕ) × (get_elem? blocks (p / size) ≡ some (some b))

written-span :
    (g : CacheGroupLayout) (blocks : List (Option ℕ)) (t : TokenTransfer) (c b : ℕ)
    → 0 < g.block_size
    → t.target_range.start ≤ c
    → get_elem? blocks (c / g.block_size) ≡ some (some b)
    → written (span_at g t c b)
      ≡ map (placed blocks g.block_size t) (range_from c (span_tokens g t c))
written-span g blocks t c b p l e =
    let m : (c + span_tokens g t c) - c ≡ span_tokens g t c = omega arith in
    rw m (
      map-range_from (written_at (span_at g t c b)) (placed blocks g.block_size t) 0 c
        (span_tokens g t c)
        (λ k k'.
          let (q, r) = div_step c g.block_size k p (omega arith) in
          let z : 0 + k ≡ k = omega arith in
          let s : source_of t c + k ≡ source_of t (c + k) = omega arith in
          let w : b * g.block_size + c % g.block_size + k
              ≡ b * g.block_size + (c % g.block_size + k) =
            omega arith in
          rw (z, q, e, r, s, w) refl))

block_at-eq-ok :
    (blocks : List (Option ℕ)) (i b : ℕ)
    → get_elem? blocks i ≡ some (some b)
    → block_at blocks i ≡ ok b
unfolding block_at
block_at-eq-ok blocks i b e = rw (e, block_at) refl

placed-append :
    (blocks : List (Option ℕ)) (size : ℕ) (t : TokenTransfer) (c m n k : ℕ)
    → k ≡ m + n
    → map (placed blocks size t) (range_from c k)
      ≡ map (placed blocks size t) (range_from c m)
        ++ map (placed blocks size t) (range_from (c + m) n)
placed-append blocks size t c m n k e =
    ap (λ x. map (placed blocks size t) (range_from c x)) e
    ∙ ap (map (placed blocks size t)) (range_from-append c m n)
    ∙ map-append (placed blocks size t) (range_from c m) (range_from (c + m) n)

-- With enough fuel the loop ends, and its spans write every position from the cursor on.
scatter_from-placed :
    (g : CacheGroupLayout) (blocks : List (Option ℕ)) (t : TokenTransfer) (fuel c : ℕ)
    → 0 < g.block_size
    → t.target_range.start ≤ c
    → c ≤ t.target_range.end
    → t.target_range.end - c ≤ fuel
    → Available blocks g.block_size t
    → (spans : List GroupTokenScatterSpan) × (scatter_from g blocks t fuel c ≡ ok spans)
      × (joined (map written spans)
          ≡ map (placed blocks g.block_size t) (range_from c (t.target_range.end - c)))
unfolding scatter_from
scatter_from-placed g blocks t zero c p l u f a =
    let done : ltb c t.target_range.end ≡ false = ground arith in
    let none_left : t.target_range.end - c ≡ 0 = omega arith in
    ([], rw done refl, rw none_left refl)
scatter_from-placed g blocks t (suc fuel) c p l u f a =
    elim (Bool-cases (ltb c t.target_range.end)) [
      | inr done ↦
          let none_left : t.target_range.end - c ≡ 0 = ground arith in
          ([], rw done refl, rw none_left refl)
      | inl more ↦
          let under : c < t.target_range.end = ground arith in
          let m = span_tokens g t c in
          let inside : c % g.block_size < g.block_size = grind arith in
          let (b, e) = a c l under in
          let (spans, r, w) =
            scatter_from-placed g blocks t fuel (c + m) p (omega arith) (omega arith) (omega arith)
              a in
          let split : t.target_range.end - c ≡ m + (t.target_range.end - (c + m)) = omega arith in
          (
            span_at g t c b ∷ spans,
            rw (more, block_at-eq-ok blocks (c / g.block_size) b e, r) refl,
            ap₂ ◌++◌ (written-span g blocks t c b p l e) w
                ∙ sym (
                    placed-append blocks g.block_size t c m (t.target_range.end - (c + m))
                      (t.target_range.end - c) split),
          )
    ]

-- The preflight checks the blocks of all positions of the transfer.
available_of_any :
    (blocks : List (Option ℕ)) (i n : ℕ)
    → any (λ b. is_unavailable (get_elem? blocks b)) (range_from i n) ≡ false
    → (k : ℕ) → i ≤ k
    → k < i + n
    → is_unavailable (get_elem? blocks k) ≡ false
available_of_any blocks i zero h k l u = absurd (omega arith)
available_of_any blocks i (suc n) h k l u = elim (Bool-cases (k == i)) [
  | inl e ↦ let e' : k ≡ i = ground arith in rw e' (ground arith)
  | inr e ↦ available_of_any blocks (suc i) n (ground arith) k (ground arith) (omega arith)
]

get_elem?-inside :
    {A : Type 0} (xs : List A) (i : ℕ) → i < length xs → (x : A) × (get_elem? xs i ≡ some x)
get_elem?-inside [] i l = absurd (omega arith)
get_elem?-inside (x ∷ xs) zero l = (x, refl)
get_elem?-inside (x ∷ xs) (suc i) l = get_elem?-inside xs i (omega arith)

present : (o : Option ℕ) → is_unavailable (some o) ≡ false → (b : ℕ) × (o ≡ some b)
present none h = cc
present (some b) h = (b, refl)

check_blocks-Available :
    (size : ℕ) (blocks : List (Option ℕ)) (t : TokenTransfer)
    → 0 < size
    → check_blocks size t.target_range.start t.target_range.end blocks ≡ ok tt
    → Available blocks size t
unfolding check_blocks
check_blocks-Available size blocks t p h x l u =
    let first = t.target_range.start / size in
    let last = (t.target_range.end - 1) / size in
    let below : first ≤ x / size = div_mono t.target_range.start x size p l in
    let above : x / size ≤ last = div_mono x (t.target_range.end - 1) size p (omega arith) in
    let long : last < length blocks = ground arith in
    let clear : any (λ b. is_unavailable (get_elem? blocks b)) (range_from first (last + 1 - first))
        ≡ false =
      ground arith in
    let (o, e) = get_elem?-inside blocks (x / size) (omega arith) in
    let (b, e') = present o (
      subst (λ z. is_unavailable z ≡ false) e
        (available_of_any blocks first (last + 1 - first) clear (x / size) below (omega arith))) in
    (b, e ∙ ap some e')

-- If the preflight passes a group's table, for a valid transfer and a positive block size, the
-- loop ends without running out of fuel and without any failure, and its spans write, position by
-- position and in order, exactly what the slot mapping of each single position says.
pub scatter_group-placed :
    (g : CacheGroupLayout) (table : GroupBlockTable) (t : TokenTransfer)
    → 0 < g.block_size
    → IsTransfer t
    → check_blocks g.block_size t.target_range.start t.target_range.end table.block_ids ≡ ok tt
    → (spans : List GroupTokenScatterSpan) × (scatter_group g table t ≡ ok spans)
      × (joined (map written spans)
          ≡ map
              (placed table.block_ids g.block_size t)
              (range_from t.target_range.start (range_len t.target_range)))
unfolding scatter_group
scatter_group-placed g table t p v h =
    scatter_from-placed g table.block_ids t (range_len t.target_range) t.target_range.start p
      (omega arith) (omega (arith, v.filled)) (omega arith)
      (check_blocks-Available g.block_size table.block_ids t p h)
