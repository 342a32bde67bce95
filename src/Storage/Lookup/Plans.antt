-- ===== src/Storage/Lookup/Plans.antt =====
-- What `LmcacheCandidateLookupCoordinator.plan` of src/cacheblend_gpt_oss/storage/lookup.py returns,
-- and when it raises.
use cacheblend_gpt_oss.Prelude.{
  ℕ, ◌+◌, ◌≤◌, ◌≡◌, ◌⊎◌, refl, sym, subst, ◌∙◌, Bool, List, map, some, Value, ok, raise, length,
  sum, All, All-map, Pairwise, length-sorted, sum-sorted, length-map, sum-map_on, get_elem?, arith,
  inl, inr, sorted, Ascending, nat_order, pair_order, list_order,
}
use cacheblend_gpt_oss.Planner.Models.{CacheNamespace, normalize_token_ids}
use cacheblend_gpt_oss.Planner.Fingerprint.{sha256_fingerprint}
use cacheblend_gpt_oss.Planner.Selection.{pick}
use cacheblend_gpt_oss.Planner.Selection.Views.{length-pick, sum-pick}
use cacheblend_gpt_oss.Storage.Types.{LmcacheCandidate, query_digest}
use cacheblend_gpt_oss.Storage.Lookup.{
  Looked, LookupFailure, LookupCounters, check_counters, LookupPlan, PotentialCandidate, selects,
  RecordIndex, Scan,
}
use cacheblend_gpt_oss.Storage.Lookup.Coordinator.{
  lookup_tokens, selected_sort_key, tokens_at, rejection_sort_key, selected_candidates,
  all_rejected, conclude, empty_scan, judge_candidates, plan,
}
use cacheblend_gpt_oss.Storage.Lookup.Judging.{IsBound}
use cacheblend_gpt_oss.Storage.Lookup.Scanning.{Excused, IsGood, IsUnambiguous}
use cacheblend_gpt_oss.Storage.Lookup.Counting.{
  potential_tokens, rejected_tokens, IsScanned, scan-Scanned,
}
use cacheblend_gpt_oss.Storage.Lookup.Chosen.{
  IsFilledTarget, ApartTargets, verified_tokens, length-selected, sum-selected, length-rejected,
  sum-rejected, selected-All, selected-Apart, selected-Ascending, selected_maximal,
}

check_counters-ok :
    (c : LookupCounters)
    → c.raw_candidates ≡ c.verified_candidates + c.rejected_candidates
    → c.raw_candidate_tokens ≡ c.verified_candidate_tokens + c.rejected_candidate_tokens
    → c.found_candidates ≤ c.raw_candidates
    → c.found_candidate_tokens ≤ c.raw_candidate_tokens
    → c.verified_candidates ≤ c.found_candidates
    → c.verified_candidate_tokens ≤ c.found_candidate_tokens
    → check_counters c ≡ ok c
unfolding check_counters
check_counters-ok c h i j k l m = ground arith

-- Each raw candidate is verified or rejected, and so is each of their tokens.
pub record Accounts (raw : List LmcacheCandidate) (p : LookupPlan) : Type 0 where
  pub complete : length p.verified_candidates + length p.rejected_candidates ≡ length raw
  pub complete_tokens :
      verified_tokens p.verified_candidates
        + sum (map (λ r. lookup_tokens r.candidate) p.rejected_candidates)
      ≡ sum (map lookup_tokens raw)

module _ (fingerprint : _) (index : RecordIndex) (prompt digest : List ℕ) (ns : CacheNamespace)
    (raw : List LmcacheCandidate) where
  -- The counts of a scan that judged each candidate are those of a plan.
  conclude-Accounts :
      (s : Scan)
      → IsScanned fingerprint index prompt digest ns raw raw s
      → (p : LookupPlan) × (conclude raw s ≡ ok p)
        × (p.verified_candidates ≡ selected_candidates s)
        × Accounts raw p
  unfolding conclude
  conclude-Accounts s h =
      let rejections = map (λ r. r.1) (sorted rejection_sort_key (all_rejected s)) in
      let count : length rejections ≡ length (all_rejected s) =
        length-map (λ r. r.1) (sorted rejection_sort_key (all_rejected s))
        ∙ length-sorted rejection_sort_key (all_rejected s) in
      let weight : sum (map (λ r. lookup_tokens r.candidate) rejections)
          ≡ sum (map rejected_tokens (all_rejected s)) =
        sum-map_on (λ r. r.1) (λ r. lookup_tokens r.candidate)
          (sorted rejection_sort_key (all_rejected s))
        ∙ sum-sorted rejection_sort_key rejected_tokens (all_rejected s) in
      let picked = length-pick 0 (selects s.potentials) s.potentials in
      let weighed = sum-pick potential_tokens 0 (selects s.potentials) s.potentials in
      let all : length (selected_candidates s) + length rejections ≡ length raw =
        omega (arith, count, picked, length-selected s, length-rejected s, h.counted) in
      let tokens : verified_tokens (selected_candidates s)
            + sum (map (λ r. lookup_tokens r.candidate) rejections)
          ≡ sum (map lookup_tokens raw) =
        omega (arith, weight, weighed, sum-selected s, sum-rejected s, h.weighed) in
      let counters : LookupCounters = record {
        raw_candidates = length raw;
        raw_candidate_tokens = sum (map lookup_tokens raw);
        found_candidates = length s.found_raw_indexes;
        found_candidate_tokens = sum (map (tokens_at raw) s.found_raw_indexes);
        verified_candidates = length (selected_candidates s);
        verified_candidate_tokens = verified_tokens (selected_candidates s);
        rejected_candidates = length rejections;
        rejected_candidate_tokens = sum (map (λ r. lookup_tokens r.candidate) rejections);
      } in
      let passes : check_counters counters ≡ ok counters =
        check_counters-ok counters (sym all) (sym tokens) h.raw_count h.raw_tokens
          (omega (arith, picked, length-selected s, h.found))
          (omega (arith, weighed, sum-selected s, h.found_tokens)) in
      (
        record {
          verified_candidates = selected_candidates s;
          rejected_candidates = rejections;
          counters = counters;
        },
        rw passes refl,
        refl,
        record { complete = all; complete_tokens = tokens },
      )

module _ (sha256 : List ℕ → List ℕ) (index : RecordIndex) (ids : List Value) (ns : CacheNamespace)
    (raw : List LmcacheCandidate) where
  -- What is known of a plan for a prompt.
  pub record Found (prompt : List ℕ) (p : LookupPlan) : Type 0 where
    pub good :
        All
          (IsGood (sha256_fingerprint sha256) index prompt (query_digest sha256 prompt) ns)
          p.verified_candidates
    pub apart : Pairwise ApartTargets p.verified_candidates
    pub ascending : Ascending selected_sort_key p.verified_candidates
    pub accounts : Accounts raw p

  abbrev pub scan : List ℕ → Looked Scan
  scan prompt =
      judge_candidates (sha256_fingerprint sha256) index prompt (query_digest sha256 prompt) ns 0
        raw empty_scan

  good-IsFilledTarget :
      (prompt : List ℕ) (p : PotentialCandidate)
      → IsGood (sha256_fingerprint sha256) index prompt (query_digest sha256 prompt) ns p.verified
      → IsFilledTarget p
  good-IsFilledTarget prompt p g = omega (arith, g.bound.nonempty, g.bound.fits)

  -- A raw candidate with the cause of the error, or a plan.
  abbrev pub Planned : List ℕ → Looked LookupPlan → Type 0
  Planned prompt result =
      ((e : LookupFailure) × (i : ℕ) × (c : LmcacheCandidate) × (result ≡ raise e)
        × (get_elem? raw i ≡ some c)
        × Excused index prompt ns c e)
      ⊎ ((p : LookupPlan) × (result ≡ ok p) × Found prompt p)

  -- For a prompt that normalizes, the lookup either returns a plan or raises because of one of the
  -- raw candidates: its target ends behind the prompt, the index failed, or its target's slice
  -- makes no segment. The checks of the binding and of the accounting never fail.
  pub plan-Planned :
      (prompt : List ℕ)
      → normalize_token_ids ids ≡ ok prompt
      → Planned prompt (plan sha256 index ids ns raw)
  unfolding plan
  plan-Planned prompt n =
      elim (scan-Scanned (sha256_fingerprint sha256) index prompt (query_digest sha256 prompt) ns
        raw) [
          | inl (e, i, c, r, at, x) ↦ inl (e, i, c, rw (n, r) refl, at, x)
          | inr (s, r, h) ↦
              let (p, q, v, accounts) =
                conclude-Accounts (sha256_fingerprint sha256) index prompt
                  (query_digest sha256 prompt) ns raw s h in
              let filled = All-map (good-IsFilledTarget prompt) s.potentials h.good in
              inr (
                p,
                rw (n, r) q,
                record {
                  good = subst (All _) (sym v) (selected-All s _ h.good);
                  apart = subst (Pairwise ApartTargets) (sym v) (selected-Apart s filled);
                  ascending = subst (Ascending selected_sort_key) (sym v) (selected-Ascending s);
                  accounts = accounts;
                },
              )
        ]

  pub plan-Found :
      (prompt : List ℕ) {p : LookupPlan}
      → normalize_token_ids ids ≡ ok prompt
      → plan sha256 index ids ns raw ≡ ok p
      → Found prompt p
  plan-Found prompt {p = p'} n h = elim (plan-Planned prompt n) [
    | inl (e, i, c, r, at, x) ↦ cc
    | inr (p, r, f) ↦ let same : p ≡ p' = cc in subst (Found prompt) same f
  ]

  -- Each verified candidate of a plan asks for the prompt's own digest, its target lies within the
  -- prompt, and its record has the target's very tokens, the namespace that was asked for, the
  -- fingerprint of both and the key of the candidate's stored chunk.
  pub plan-IsBound :
      (prompt : List ℕ) {p : LookupPlan}
      → normalize_token_ids ids ≡ ok prompt
      → plan sha256 index ids ns raw ≡ ok p
      → All
          (IsBound (sha256_fingerprint sha256) prompt (query_digest sha256 prompt) ns)
          p.verified_candidates
  plan-IsBound prompt {p} n h =
      All-map (λ v g. g.bound) p.verified_candidates (plan-Found prompt n h).good

  -- Whatever else the index has with the key, the namespace, the fingerprint and the tokens of a
  -- verified candidate's record comes from the same position as that record.
  pub plan-IsUnambiguous :
      (prompt : List ℕ) {p : LookupPlan}
      → normalize_token_ids ids ≡ ok prompt
      → plan sha256 index ids ns raw ≡ ok p
      → All (IsUnambiguous index) p.verified_candidates
  plan-IsUnambiguous prompt {p} n h =
      All-map (λ v g. g.unambiguous) p.verified_candidates (plan-Found prompt n h).good

  -- The targets of a plan's verified candidates do not overlap one another.
  pub plan-ApartTargets :
      (prompt : List ℕ) {p : LookupPlan}
      → normalize_token_ids ids ≡ ok prompt
      → plan sha256 index ids ns raw ≡ ok p
      → Pairwise ApartTargets p.verified_candidates
  plan-ApartTargets prompt n h = (plan-Found prompt n h).apart

  -- Among the potential candidates of a prompt's scan, none that do not overlap one another have
  -- more tokens than the scan's selected ones.
  pub scan_maximal :
      (prompt : List ℕ) {s : Scan} (test : ℕ → Bool)
      → scan prompt ≡ ok s
      → Pairwise (λ a b. ApartTargets a.verified b.verified) (pick test s.potentials)
      → sum (map potential_tokens (pick test s.potentials))
        ≤ verified_tokens (selected_candidates s)
  scan_maximal prompt {s} test h apart =
      elim (scan-Scanned (sha256_fingerprint sha256) index prompt (query_digest sha256 prompt) ns
        raw) [
          | inl (e, i, c, r, at, x) ↦ cc
          | inr (s', r, k) ↦
              let same : s' ≡ s = cc in
              let good =
                (subst (IsScanned _ index prompt (query_digest sha256 prompt) ns raw raw) same
                  k).good in
              selected_maximal s test (All-map (good-IsFilledTarget prompt) s.potentials good) apart
        ]
