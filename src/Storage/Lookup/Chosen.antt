-- ===== src/Storage/Lookup/Chosen.antt =====
-- The selected candidates of a scan, and those that were passed over: the end of `plan` in
-- src/cacheblend_gpt_oss/storage/lookup.py.
use cacheblend_gpt_oss.Prelude.{
  ℕ, ◌+◌, ◌≤◌, ◌<◌, ◌≡◌, ap, ◌∙◌, Bool, not, List, map, length, sum, All, All-map_on, Pairwise,
  Pairwise-map_on, sorted-All, sorted-Pairwise, sorted-Ascending, Ascending, length-sorted,
  sum-sorted, length-map, sum-map_on, length-append, sum-append, arith, nat_order, pair_order,
  list_order,
}
use cacheblend_gpt_oss.Planner.Coverage.{Apart}
use cacheblend_gpt_oss.Planner.Selection.{pick}
use cacheblend_gpt_oss.Planner.Selection.Views.{All-pick, view-apart, view_maximal}
use cacheblend_gpt_oss.Storage.Types.{VerifiedLmcacheCandidate}
use cacheblend_gpt_oss.Storage.Lookup.{
  verified_target, PotentialCandidate, potential_item, selects, Scan,
}
use cacheblend_gpt_oss.Storage.Lookup.Coordinator.{
  lookup_tokens, selected_sort_key, selected_candidates, all_rejected,
}
use cacheblend_gpt_oss.Storage.Lookup.Counting.{potential_tokens, rejected_tokens}

abbrev pub IsFilledTarget : PotentialCandidate → Type 0
IsFilledTarget p = p.verified.candidate.target_range.start < p.verified.candidate.target_range.end

abbrev pub ApartTargets : VerifiedLmcacheCandidate → VerifiedLmcacheCandidate → Type 0
ApartTargets a b = Apart (verified_target a) (verified_target b)

abbrev pub verified_tokens : List VerifiedLmcacheCandidate → ℕ
verified_tokens vs = sum (map (λ v. lookup_tokens v.candidate) vs)

module _ (s : Scan) where
  abbrev pub chosen : List PotentialCandidate
  chosen = pick (selects s.potentials) s.potentials

  abbrev pub unchosen : List PotentialCandidate
  unchosen = pick (λ i. not (selects s.potentials i)) s.potentials

  pub length-selected : length (selected_candidates s) ≡ length chosen
  unfolding selected_candidates
  length-selected = length-sorted selected_sort_key _ ∙ length-map _ chosen

  pub sum-selected : verified_tokens (selected_candidates s) ≡ sum (map potential_tokens chosen)
  unfolding selected_candidates
  sum-selected = sum-sorted selected_sort_key _ _ ∙ sum-map_on _ _ chosen

  pub length-rejected : length (all_rejected s) ≡ length s.rejected + length unchosen
  unfolding all_rejected
  length-rejected =
      length-append s.rejected _ ∙ ap (◌+◌ (length s.rejected)) (length-map _ unchosen)

  pub sum-rejected :
      sum (map rejected_tokens (all_rejected s))
      ≡ sum (map rejected_tokens s.rejected) + sum (map potential_tokens unchosen)
  unfolding all_rejected
  sum-rejected =
      sum-append rejected_tokens s.rejected _
      ∙ ap (◌+◌ (sum (map rejected_tokens s.rejected))) (sum-map_on _ rejected_tokens unchosen)

  -- The selected candidates are some of the potential ones,
  pub selected-All :
      (P : VerifiedLmcacheCandidate → Type 0)
      → All (λ p. P p.verified) s.potentials
      → All P (selected_candidates s)
  unfolding selected_candidates
  selected-All P h = sorted-All selected_sort_key P _ (
      All-map_on (λ p. p.verified) P chosen
        (All-pick (λ p. P p.verified) 0 (selects s.potentials) s.potentials h))

  -- and they do not overlap one another.
  pub selected-Apart :
      All IsFilledTarget s.potentials → Pairwise ApartTargets (selected_candidates s)
  unfolding selected_candidates
  selected-Apart h =
      sorted-Pairwise selected_sort_key ApartTargets (λ a b k. ground (arith, k)) _
        (Pairwise-map_on (λ p. p.verified) ApartTargets chosen
          (view-apart potential_item s.potentials h))

  -- They are in the order of their sort keys.
  pub selected-Ascending : Ascending selected_sort_key (selected_candidates s)
  unfolding selected_candidates
  selected-Ascending = sorted-Ascending selected_sort_key _

  -- No choice of potential candidates that do not overlap one another has more tokens.
  pub selected_maximal :
      (test : ℕ → Bool)
      → All IsFilledTarget s.potentials
      → Pairwise (λ a b. ApartTargets a.verified b.verified) (pick test s.potentials)
      → sum (map potential_tokens (pick test s.potentials))
        ≤ verified_tokens (selected_candidates s)
  selected_maximal test h apart =
      omega (arith, sum-selected, view_maximal potential_item s.potentials test h apart)
