-- ===== src/ControlPlane/Accepted.antt =====
-- The planner's result and the control plane's own checks of it.
-- src/cacheblend_gpt_oss/connector/control_plane.py and .../planner/matching.py.
use cacheblend_gpt_oss.Prelude.{
  ℕ, ◌≤◌, ◌<◌, ◌≡◌, refl, sym, ap, ◌∙◌, Bool, true, false, not, ◌||◌, List, [], ◌∷◌, ◌++◌, Text,
  str, nat, Option, none, some, ok, All, All-map, All-zip, Pairwise, Pairwise-map, Pairwise-zip,
  Pairwise-of_All, between, arith, any, member, same, holds, has_duplicates, length, sorted,
  any-sorted, sorted-All, ltb, ◌==◌, max, count_below_cong, nat_order, pair_order, list_order,
}
use cacheblend_gpt_oss.Planner.Models.{
  TokenRange, TokenSegment, overlaps, TokenSegment-discrete, tokens_discrete,
  SegmentFingerprint-discrete, CacheNamespace,
}
use cacheblend_gpt_oss.Planner.Models.Laws.{IsSegment}
use cacheblend_gpt_oss.Planner.Coverage.{
  covered_token_count, covered_token_count-count, covers, targets,
}
use cacheblend_gpt_oss.Planner.Matching.Chosen.{ApartMatch}
use cacheblend_gpt_oss.Planner.Matching.{
  Fingerprinter, RecordLookup, VerifiedMatch, MatchPlan, match_target, match_sort_key, plan,
  matched_tokens,
}
use cacheblend_gpt_oss.Planner.Matching.Plans.{
  plan-IsVerified, plan-targets, plan-apart, matches-Ascending, matched_tokens-le-requested,
  requested_tokens-plan, rejected-targets, IsSegment-filled, IsSegment-ordered, last_end, ends-le,
}
use cacheblend_gpt_oss.ControlPlane.Records.{
  request_plan, check_matches, precedes, segment_sort_key,
}

refuted {ℓ} : {P : Type ℓ} (d : Dec P) → P → not (holds d) ≡ false
refuted (yes p) h = refl
refuted (no p) h = absurd (p h)

any-append {ℓ} :
    {A : Type ℓ} (p : A → Bool) (xs ys : List A) → any p (xs ++ ys) ≡ (any p xs || any p ys)
any-append p [] ys = refl
any-append p (x ∷ xs) ys = ground (arith, any-append p xs ys)

-- What the loop asks of one match.
pub record Passes (queries : List TokenSegment) (m : VerifiedMatch) : Type 0 where
  pub requested : member TokenSegment-discrete (match_target m) queries ≡ true
  pub same_tokens : (match_target m).token_ids ≡ m.candidate.cached.token_ids
  pub same_digest : m.candidate.query_fingerprint ≡ m.candidate.cached.fingerprint

-- What it asks of a match and a later one.
abbrev pub InOrder : VerifiedMatch → VerifiedMatch → Type 0
InOrder m n =
    (overlaps (match_target n).token_range (match_target m).token_range ≡ false)
    × (precedes (match_target n) (some (match_target m)) ≡ false)

-- What it asks of a match and the state of the loop.
abbrev pub FitsBehind : List TokenRange → Option TokenSegment → VerifiedMatch → Type 0
FitsBehind ranges previous m =
    (any (overlaps (match_target m).token_range) ranges ≡ false)
    × (precedes (match_target m) previous ≡ false)

fits_next :
    (ranges : List TokenRange) (m n : VerifiedMatch) (previous : Option TokenSegment)
    → FitsBehind ranges previous n
    → InOrder m n
    → FitsBehind (ranges ++ (match_target m).token_range ∷ []) (some (match_target m)) n
fits_next ranges m n previous f o = (
  ground (
    arith,
    any-append (overlaps (match_target n).token_range) ranges ((match_target m).token_range ∷ []),
  ),
  o.1,
)

pub check_matches-ok :
    (queries : List TokenSegment) (ranges : List TokenRange) (previous : Option TokenSegment)
    (ms : List VerifiedMatch)
    → All (Passes queries) ms
    → Pairwise InOrder ms
    → All (FitsBehind ranges previous) ms
    → check_matches queries ranges previous ms ≡ ok tt
unfolding check_matches
check_matches-ok queries ranges previous [] p o f = refl
check_matches-ok queries ranges previous (m ∷ ms) p o f =
    rw
      (
        p.0.requested,
        refuted (tokens_discrete (match_target m).token_ids m.candidate.cached.token_ids)
            p.0.same_tokens,
        refuted
            (SegmentFingerprint-discrete m.candidate.query_fingerprint
              m.candidate.cached.fingerprint)
            p.0.same_digest,
        f.0.0,
        f.0.1,
      )
      (check_matches-ok queries (ranges ++ (match_target m).token_range ∷ [])
        (some (match_target m)) ms p.1 o.1
        (All-map (λ n h. fits_next ranges m n previous h.0 h.1) ms
          (All-zip (FitsBehind ranges previous) (InOrder m) ms f.1 o.0)))

abbrev pub IsFilledTarget : VerifiedMatch → Type 0
IsFilledTarget m = (match_target m).token_range.start < (match_target m).token_range.end

abbrev pub KeyLe : VerifiedMatch → VerifiedMatch → Type 0
KeyLe m n = (pair_order ⦃o = nat_order⦄).le (match_sort_key m) (match_sort_key n) ≡ true

pub in_order :
    (m n : VerifiedMatch)
    → IsFilledTarget m
    → IsFilledTarget n
    → KeyLe m n
    → ApartMatch m.candidate n.candidate
    → InOrder m n
in_order m n f g k a = (ground arith, ground arith)

pub any-All-false {ℓ} :
    {A : Type ℓ} (p : A → Bool) (xs : List A) → All (λ x. p x ≡ false) xs → any p xs ≡ false
any-All-false p [] h = refl
any-All-false p (x ∷ xs) h = rw (h.0) (any-All-false p xs h.1)

member_self : (s : TokenSegment) → same TokenSegment-discrete s s ≡ true
member_self s = elim (TokenSegment-discrete s s) as (λ d. holds d ≡ true) [
  | yes p ↦ refl
  | no p ↦ absurd (p refl)
]

pub members : (qs : List TokenSegment) → All (λ q. member TokenSegment-discrete q qs ≡ true) qs
members [] = tt
members (q ∷ qs) = (rw (member_self q), All-map (λ s h. ground (arith, h)) qs (members qs))

covers-segments :
    (x : ℕ) (qs : List TokenSegment)
    → covers (targets qs) x ≡ any (λ q. between q.token_range.start q.token_range.end x) qs
covers-segments x [] = refl
covers-segments x (q ∷ qs) =
    ap (◌||◌ (between q.token_range.start q.token_range.end x)) (covers-segments x qs)

pub covers-sorted :
    (qs : List TokenSegment) (x : ℕ)
    → covers (targets (sorted segment_sort_key qs)) x ≡ covers (targets qs) x
covers-sorted qs x =
    covers-segments x (sorted segment_sort_key qs)
    ∙ any-sorted segment_sort_key (λ q. between q.token_range.start q.token_range.end x) qs
    ∙ sym (covers-segments x qs)

-- The sorted queries cover what the queries cover.
covered-sorted :
    (qs : List TokenSegment)
    → All IsSegment qs
    → covered_token_count (sorted segment_sort_key qs) ≡ covered_token_count qs
covered-sorted qs h =
    let sq = sorted segment_sort_key qs in
    let n = max (last_end qs) (last_end sq) in
    covered_token_count-count n sq (ends-le n sq (omega arith))
      (IsSegment-ordered sq (sorted-All segment_sort_key IsSegment qs h))
    ∙ count_below_cong n _ _ (λ x l. covers-sorted qs x)
    ∙ sym (covered_token_count-count n qs (ends-le n qs (omega arith)) (IsSegment-ordered qs h))

module _ (fingerprint : Fingerprinter) (lookup : RecordLookup) (ns : CacheNamespace)
    (queries : List TokenSegment) (valid : All IsSegment queries) where
  abbrev planned : MatchPlan
  planned = plan fingerprint lookup ns queries

  abbrev asked : List TokenSegment
  asked = sorted segment_sort_key queries

  asked-member : All (λ q. member TokenSegment-discrete q asked ≡ true) queries
  asked-member =
      All-map (λ q h. any-sorted segment_sort_key (same TokenSegment-discrete q) queries ∙ h)
        queries (members queries)

  planned-Passes : All (Passes asked) planned.matches
  planned-Passes =
      All-map
        (λ m h. record {
          requested = h.0;
          same_tokens = sym h.1.0.same_tokens;
          same_digest = sym h.1.0.same_fingerprint;
        })
        planned.matches
        (All-zip _ _ planned.matches
          (plan-targets fingerprint lookup ns queries
            (λ q. member TokenSegment-discrete q asked ≡ true) asked-member)
          (plan-IsVerified fingerprint lookup ns queries))

  planned-InOrder : Pairwise InOrder planned.matches
  planned-InOrder =
      Pairwise-map (λ m n h. in_order m n h.0.0 h.0.1 h.1.0 h.1.1) planned.matches
        (Pairwise-zip _ _ planned.matches
          (Pairwise-of_All IsFilledTarget planned.matches (
            plan-targets fingerprint lookup ns queries
              (λ s. s.token_range.start < s.token_range.end) (IsSegment-filled queries valid)))
          (Pairwise-zip _ _ planned.matches (matches-Ascending fingerprint lookup ns queries)
            (plan-apart fingerprint lookup ns queries (IsSegment-filled queries valid))))

  -- For valid, distinct query segments within the prompt, the control plane accepts whatever the
  -- planner plans, and records the queries in order beside the plan.
  pub request_plan-planned :
      (id : Text) (prompt : ℕ)
      → 0 < length id
      → has_duplicates TokenSegment-discrete asked ≡ false
      → All (λ s. s.token_range.end ≤ prompt) queries
      → request_plan (str id) (nat prompt) queries planned
        ≡ ok (record {
          request_id = id;
          prompt_tokens = prompt;
          query_segments = asked;
          match_plan = planned;
        })
  unfolding request_plan
  request_plan-planned id prompt named distinct within =
      let counted : (length id == 0) ≡ false = ground arith in
      let inside : any (λ s. ltb prompt s.token_range.end) asked ≡ false =
        any-All-false _ asked
          (sorted-All segment_sort_key _ queries (All-map (λ s h. ground arith) queries within)) in
      let covered : (planned.requested_tokens == covered_token_count asked) ≡ true = ground (
        arith,
        requested_tokens-plan fingerprint lookup ns queries,
        covered-sorted queries valid,
      ) in
      let matched : ltb planned.requested_tokens (matched_tokens planned) ≡ false =
        ground (arith, matched_tokens-le-requested fingerprint lookup ns queries valid) in
      let checked : check_matches asked [] none planned.matches ≡ ok tt =
        check_matches-ok asked [] none planned.matches planned-Passes planned-InOrder
          (All-map (λ m h. (refl, refl)) planned.matches planned-Passes) in
      let rejected : any (λ r. not (member TokenSegment-discrete r.candidate.target_segment asked))
            planned.rejected_candidates
          ≡ false =
        any-All-false _ planned.rejected_candidates (
          All-map (λ r h. ap not h) planned.rejected_candidates
            (rejected-targets fingerprint lookup ns queries _ asked-member)) in
      rw (counted, distinct, inside, covered, matched, checked, rejected)
