-- ===== src/Scheduler/Accepted.antt =====
-- When the scheduler's metadata is built: `_build_metadata` of
-- src/cacheblend_gpt_oss/vllm_compat/v0_19_1/scheduler_runtime.py.
use cacheblend_gpt_oss.Prelude.{
  ℕ, if◌then◌else◌, ◌&&◌, ◌+◌, ◌-◌, ◌≤◌, ◌≡◌, refl, sym, ap, ◌∙◌, true, false, not, ◌||◌, List, [],
  map, nats, ok, All, All-map, All-map_on, Pairwise, Pairwise-map, Pairwise-zip, Pairwise-of_All,
  Pairwise-map_on, arith, refuted, length, ◌==◌, Ascending, nat_order, pair_order, list_order,
}
use cacheblend_gpt_oss.Planner.Models.{CacheNamespace, TokenRange, normalize_token_ids}
use cacheblend_gpt_oss.Planner.Fingerprint.{sha256_fingerprint}
use cacheblend_gpt_oss.Planner.Matching.{Fingerprinter, match_target}
use cacheblend_gpt_oss.ControlPlane.Records.{RequestPlan, segment_sort_key}
use cacheblend_gpt_oss.ControlPlane.Accepted.{InOrder}
use cacheblend_gpt_oss.Staging.Config.{chunk_size}
use cacheblend_gpt_oss.Storage.Types.{LmcacheCandidate, VerifiedLmcacheCandidate, query_digest}
use cacheblend_gpt_oss.Storage.Lookup.{LookupPlan, RecordIndex}
use cacheblend_gpt_oss.Storage.Lookup.Judging.{IsBound}
use cacheblend_gpt_oss.Storage.Lookup.Chosen.{ApartTargets}
use cacheblend_gpt_oss.Storage.Lookup.Coordinator.{plan, selected_sort_key}
use cacheblend_gpt_oss.Storage.Lookup.Plans.{plan-Found}
use cacheblend_gpt_oss.Prelude.{sum, sorted}
use cacheblend_gpt_oss.Planner.Models.{segment_len}
use cacheblend_gpt_oss.Scheduler.{
  SchedulerLookupRequest, SchedulerLookupStatus, SchedulerLookupMetadata, is_transfer_ready,
  requires_windows, misplaced, is_empty, matches_discrete, lookup_matches, planned_segments,
  lookup_request_plan, query_windows, empty_lookup_plan, check_fields, check_metadata,
  metadata_with, build_metadata,
}
use cacheblend_gpt_oss.Scheduler.Plans.{IsPlannable, ApartSegments, request_plan-matches}
use cacheblend_gpt_oss.Scheduler.Requests.{
  IsRequest, AreWindows, query_windows-AreWindows, query_windows-length,
}

-- What a plan must have for its request plan and metadata to be built.
pub record IsUsable (prompt : ℕ) (p : LookupPlan) : Type 0 where
  pub plannable : All (IsPlannable prompt) (lookup_matches p)
  pub ordered : Pairwise InOrder (lookup_matches p)
  pub apart : Pairwise (λ m n. ApartSegments (match_target m) (match_target n)) (lookup_matches p)

-- The request plan, and the metadata, of a request.
abbrev pub plan_of : SchedulerLookupRequest → LookupPlan → RequestPlan
plan_of q p = record {
  request_id = q.request_id;
  prompt_tokens = length q.prompt_token_ids;
  query_segments = sorted segment_sort_key (planned_segments p);
  match_plan = record {
    matches = lookup_matches p;
    rejected_candidates = [];
    requested_tokens = sum (map segment_len (planned_segments p));
  };
}

abbrev pub metadata_of :
    SchedulerLookupRequest
    → SchedulerLookupStatus
    → LookupPlan
    → List TokenRange
    → ℕ
    → SchedulerLookupMetadata
metadata_of q status p windows generation =
    metadata_with q status p windows generation (plan_of q p)

-- The windows that a status goes with: all of the prompt's, or none where none are required.
pub data Searched (count : ℕ) (status : SchedulerLookupStatus) : List TokenRange → Type 0 where
  all : Searched count status (query_windows count)
  nothing : requires_windows status ≡ false → Searched count status []

windows_agree :
    (count : ℕ) (status : SchedulerLookupStatus) (ws : List TokenRange)
    → Searched count status ws
    → AreWindows count ws
      × ((requires_windows status && not (length ws == count + 1 - chunk_size)) ≡ false)
unfolding misplaced
windows_agree count status _ all =
    (query_windows-AreWindows count, ground (arith, query_windows-length count))
windows_agree count status _ (nothing e) = (record { within = refl; placed = refl }, rw e refl)

-- The status agrees with what the plan verified.
abbrev pub Agrees : SchedulerLookupStatus → LookupPlan → List TokenRange → Type 0
Agrees status p ws =
    (if is_transfer_ready status
      then is_empty p.verified_candidates || is_empty ws
      else not (is_empty (lookup_matches p)))
    ≡ false

-- Every request that was built gets its metadata, for a usable plan that agrees with the status.
pub build_metadata-ok :
    (q : SchedulerLookupRequest) (status : SchedulerLookupStatus) (p : LookupPlan)
    (ws : List TokenRange) (generation : ℕ)
    → IsRequest q
    → IsUsable (length q.prompt_token_ids) p
    → Searched (length q.prompt_token_ids) status ws
    → Agrees status p ws
    → build_metadata q status p ws generation ≡ ok (metadata_of q status p ws generation)
unfolding build_metadata check_metadata check_fields lookup_request_plan
build_metadata-ok q status p ws generation v u s agrees =
    let planned =
      request_plan-matches q.request_id (length q.prompt_token_ids) (lookup_matches p) v.named
        u.plannable u.ordered u.apart in
    let (w, counted) = windows_agree (length q.prompt_token_ids) status ws s in
    let filled : (length q.prompt_token_ids == 0) ≡ false = let n = v.nonempty in ground arith in
    let same : (length q.prompt_token_ids == length q.prompt_token_ids) ≡ true = ground arith in
    let matched = refuted (matches_discrete (lookup_matches p) (lookup_matches p)) refl in
    rw (planned, v.normal, filled, same, w.within, w.placed, counted, matched, agrees) refl

pub empty-IsUsable : (count : ℕ) → IsUsable count empty_lookup_plan
empty-IsUsable count = record { plannable = tt; ordered = tt; apart = tt }

IsBound-IsPlannable :
    (fingerprint : Fingerprinter) (prompt digest : List ℕ) (ns : CacheNamespace)
    (v : VerifiedLmcacheCandidate)
    → IsBound fingerprint prompt digest ns v
    → IsPlannable (length prompt) v.match
IsBound-IsPlannable fingerprint prompt digest ns v b =
    let start = ap (λ r. r.start) b.same_target in
    let end = ap (λ r. r.end) b.same_target in
    let tokens = ap length b.target_tokens in
    record {
      filled = omega (arith, start, end, b.nonempty, b.fits);
      sized = omega (arith, start, end, tokens, b.fits);
      within = omega (arith, end, b.within);
      same_tokens = b.target_tokens ∙ sym b.same_tokens;
      same_digest = b.same_query_fingerprint ∙ sym b.same_fingerprint;
    }

apart-InOrder :
    (prompt : ℕ) (a b : VerifiedLmcacheCandidate)
    → IsPlannable prompt a.match
    → (match_target a.match).token_range ≡ a.candidate.target_range
    → IsPlannable prompt b.match
    → (match_target b.match).token_range ≡ b.candidate.target_range
    → ApartTargets a b
    → (pair_order ⦃o = pair_order⦄).le (selected_sort_key a) (selected_sort_key b) ≡ true
    → InOrder a.match b.match × ApartSegments (match_target a.match) (match_target b.match)
apart-InOrder prompt a b p s q t d k =
    let f = p.filled in
    let g = q.filled in
    let sa = ap (λ r. r.start) s in
    let ea = ap (λ r. r.end) s in
    let sb = ap (λ r. r.start) t in
    let eb = ap (λ r. r.end) t in
    let before : (match_target a.match).token_range.end ≤ (match_target b.match).token_range.start =
      ground arith in
    ((ground arith, ground arith), ground arith)

targets-ordered :
    (prompt : ℕ) (vs : List VerifiedLmcacheCandidate)
    → All
        (λ v.
          IsPlannable prompt v.match
          × ((match_target v.match).token_range ≡ v.candidate.target_range))
        vs
    → Pairwise ApartTargets vs
    → Ascending selected_sort_key vs
    → Pairwise
        (λ a b.
          InOrder a.match b.match × ApartSegments (match_target a.match) (match_target b.match))
        vs
targets-ordered prompt vs h apart ascending =
    Pairwise-map (λ a b x. apart-InOrder prompt a b x.0.0.0 x.0.0.1 x.0.1.0 x.0.1.1 x.1.0 x.1.1) vs
      (Pairwise-zip _ _ vs (Pairwise-of_All _ vs h) (
        Pairwise-zip ApartTargets
          (λ a b.
            (pair_order ⦃o = pair_order⦄).le (selected_sort_key a) (selected_sort_key b) ≡ true)
          vs apart ascending))

-- Every plan of the coordinator is usable.
pub plan-IsUsable :
    (sha256 : List ℕ → List ℕ) (index : RecordIndex) (ns : CacheNamespace)
    (raw : List LmcacheCandidate) (prompt : List ℕ) {p : LookupPlan}
    → normalize_token_ids (nats prompt) ≡ ok prompt
    → plan sha256 index (nats prompt) ns raw ≡ ok p
    → IsUsable (length prompt) p
plan-IsUsable sha256 index ns raw prompt {p} normal h =
    let found = plan-Found sha256 index (nats prompt) ns raw prompt normal h in
    let vs = p.verified_candidates in
    let plannable =
      All-map
        (λ v g. (
          IsBound-IsPlannable (sha256_fingerprint sha256) prompt (query_digest sha256 prompt) ns v
              g.bound,
          g.bound.same_target,
        ))
        vs found.good in
    let ordered = targets-ordered (length prompt) vs plannable found.apart found.ascending in
    record {
      plannable = All-map_on (λ v. v.match) _ vs (All-map (λ v h. h.0) vs plannable);
      ordered = Pairwise-map_on (λ v. v.match) _ vs (Pairwise-map (λ a b h. h.0) vs ordered);
      apart = Pairwise-map_on (λ v. v.match) _ vs (Pairwise-map (λ a b h. h.1) vs ordered);
    }
