-- ===== src/ControlPlane/Lifecycle.antt =====
-- `RequestLifecycleState`: one request on the scheduler's or the worker's side.
-- src/cacheblend_gpt_oss/connector/control_plane.py.
use cacheblend_gpt_oss.Prelude.{
  ℕ, ◌+◌, ◌-◌, Bool, true, false, not, ◌||◌, ◌&&◌, List, [], ◌∷◌, ◌++◌, map, Value, pos, nat,
  Result, ok, raise, ◌>>=◌, ◌>>◌, raise_if, ltb, ◌==◌, length, any, if◌then◌else◌, Option, none,
  some, filter, get_elem?, range_from, member, same, ℕ_discrete,
}
use cacheblend_gpt_oss.Planner.Models.{
  TokenSegment, TokenSegment-discrete, tokens_discrete, segment_len,
}
use cacheblend_gpt_oss.Planner.Matching.{MatchPlan, VerifiedMatch, match_target}
use cacheblend_gpt_oss.Metrics.{RequestMetricCounters}
use cacheblend_gpt_oss.ControlPlane.Records.{
  RequestPhase, looked_up, allocated, handed_off, worker_validated, finished, ErrorCode,
  duplicate_request_conflict, lifecycle_misuse, invalid_request_plan, stale_allocation,
  nonzero_external_tokens, metadata_schema_mismatch, group_layout_mismatch, invalid_worker_result,
  Controlled, RequestPlan, RequestAllocation, HandoffMetadata, ValidationReceipt, CacheGroupLayout,
  request_allocation, handoff_metadata, capture, natural_or, metadata_schema_version,
  full_recompute_external_tokens, covered_token_count,
}

pub record LifecycleState : Type 0 where
  pub plan : RequestPlan
  pub phase : RequestPhase
  pub allocation_generation : ℕ
  pub allocation : Option RequestAllocation
  pub handoff : Option HandoffMetadata
  pub worker_validation : Option ValidationReceipt
  pub preemption_count : ℕ

unfoldable pub CacheGroupLayout-discrete : Discrete CacheGroupLayout
CacheGroupLayout-discrete = hlevel ℕ_discrete

unfoldable pub RequestPlan-discrete : Discrete RequestPlan
RequestPlan-discrete = hlevel ℕ_discrete

unfoldable pub RequestAllocation-discrete : Discrete RequestAllocation
RequestAllocation-discrete = hlevel ℕ_discrete

unfoldable pub HandoffMetadata-discrete : Discrete HandoffMetadata
HandoffMetadata-discrete = hlevel ℕ_discrete

unfoldable pub ValidationReceipt-discrete : Discrete ValidationReceipt
ValidationReceipt-discrete = hlevel ℕ_discrete

abbrev pub is_some {ℓ} : {A : Type ℓ} → Option A → Bool
is_some none = false
is_some (some a) = true

-- The part of `__post_init__` behind the test of the phase `LOOKED_UP`, in three steps.
unfoldable pub check_validated : RequestAllocation → LifecycleState → Controlled (Unit {0})
check_validated a s = elim s.worker_validation [
  | none ↦ raise lifecycle_misuse
  | some r ↦ raise_if (not (same RequestAllocation-discrete r.allocation a)) stale_allocation
]

unfoldable pub check_handed_off : RequestAllocation → LifecycleState → Controlled (Unit {0})
unfolding check_validated
check_handed_off a s = elim s.handoff [
  | none ↦ raise lifecycle_misuse
  | some m ↦ do
    raise_if
        (not (same RequestPlan-discrete m.plan s.plan)
          || not (same RequestAllocation-discrete m.allocation a))
        stale_allocation
    elim s.phase [
      | handed_off ↦ raise_if (is_some s.worker_validation) lifecycle_misuse
      | _ ↦ check_validated a s
    ]
]

unfoldable pub check_allocated : RequestAllocation → LifecycleState → Controlled (Unit {0})
unfolding check_handed_off
check_allocated a s = do
  raise_if (not (same tokens_discrete a.request_id s.plan.request_id)) invalid_request_plan
  raise_if (not (a.allocation_generation == s.allocation_generation)) stale_allocation
  elim s.phase [
    | allocated ↦ raise_if (is_some s.handoff || is_some s.worker_validation) lifecycle_misuse
    | _ ↦ check_handed_off a s
  ]

-- `__post_init__`; every `replace` runs it again.
unfoldable pub check_state : LifecycleState → Controlled LifecycleState
unfolding check_allocated
check_state s = do
  elim s.phase [
    | looked_up ↦
        raise_if (is_some s.allocation || (is_some s.handoff || is_some s.worker_validation))
          lifecycle_misuse
    | _ ↦ elim s.allocation [ none ↦ raise lifecycle_misuse | some a ↦ check_allocated a s ]
  ]
  ok s

abbrev pub initial_state : RequestPlan → LifecycleState
initial_state p = record {
  plan = p;
  phase = looked_up;
  allocation_generation = 0;
  allocation = none;
  handoff = none;
  worker_validation = none;
  preemption_count = 0;
}

unfoldable pub from_handoff : HandoffMetadata → CacheGroupLayout → Controlled LifecycleState
from_handoff m layout = do
  raise_if (not (m.schema_version == metadata_schema_version)) metadata_schema_mismatch
  raise_if (not (same CacheGroupLayout-discrete m.allocation.grouped_blocks.group_layout layout))
      group_layout_mismatch
  check_state (record {
    plan = m.plan;
    phase = handed_off;
    allocation_generation = m.allocation.allocation_generation;
    allocation = some m.allocation;
    handoff = some m;
    worker_validation = none;
    preemption_count = 0;
  })

abbrev pub has_allocation : LifecycleState → RequestAllocation → Bool
has_allocation s a = elim s.allocation [
  | none ↦ false
  | some b ↦ same RequestAllocation-discrete b a
]

-- What `allocate` does with the new allocation, by phase.
unfoldable pub bind_allocation : RequestAllocation → LifecycleState → Controlled LifecycleState
bind_allocation a s = elim s.phase [
  | looked_up ↦ check_state (record s { phase = allocated; allocation = some a })
  | finished ↦ if has_allocation s a then ok s else raise lifecycle_misuse
  | _ ↦ if has_allocation s a then ok s else raise duplicate_request_conflict
]

unfoldable pub allocate :
    CacheGroupLayout → List (List Value) → Value → LifecycleState → Controlled LifecycleState
unfolding bind_allocation
allocate layout blocks external s = do
  external' ← natural_or nonzero_external_tokens external
  raise_if (not (external' == full_recompute_external_tokens)) nonzero_external_tokens
  grouped ← capture layout blocks
  a ←
      request_allocation (Value.str s.plan.request_id) (nat s.allocation_generation) grouped
        external
  bind_allocation a s

unfoldable pub hand_off : LifecycleState → Controlled LifecycleState
hand_off s = elim s.phase [
  | looked_up ↦ raise lifecycle_misuse
  | allocated ↦ elim s.allocation [
    | none ↦ raise lifecycle_misuse
    | some a ↦ do
      m ← handoff_metadata (nat metadata_schema_version) s.plan a
      check_state (record s { phase = handed_off; handoff = some m })
  ]
  | _ ↦ if is_some s.handoff then ok s else raise lifecycle_misuse
]

-- `set(loaded) | set(rejected) == set(range(n))`
abbrev pub same_indexes : List ℕ → List ℕ → Bool
same_indexes xs ys =
    not (any (λ x. not (member ℕ_discrete x ys)) xs)
    && not (any (λ y. not (member ℕ_discrete y xs)) ys)

-- A second receipt for a request that has one.
unfoldable pub repeat_receipt : ValidationReceipt → LifecycleState → Controlled LifecycleState
repeat_receipt r s = elim s.worker_validation [
  | none ↦ raise duplicate_request_conflict
  | some q ↦ if same ValidationReceipt-discrete q r then ok s else raise duplicate_request_conflict
]

-- What `apply_worker_validation` does with an accepted receipt, by phase.
unfoldable pub record_receipt : ValidationReceipt → LifecycleState → Controlled LifecycleState
unfolding repeat_receipt
record_receipt r s = elim s.phase [
  | handed_off ↦ check_state (record s { phase = worker_validated; worker_validation = some r })
  | worker_validated ↦ repeat_receipt r s
  | finished ↦ repeat_receipt r s
  | _ ↦ raise lifecycle_misuse
]

-- The tests of `apply_worker_validation` before it looks at the phase.
unfoldable pub check_receipt : ValidationReceipt → LifecycleState → Controlled (Unit {0})
check_receipt r s = do
  raise_if (not (same tokens_discrete r.request_id s.plan.request_id)) duplicate_request_conflict
  raise_if (not (r.allocation.allocation_generation == s.allocation_generation)) stale_allocation
  raise_if (not (has_allocation s r.allocation)) stale_allocation
  raise_if
      (not (
        same_indexes (r.loaded_match_indexes ++ r.rejected_match_indexes)
          (range_from 0 (length s.plan.match_plan.matches))))
      invalid_worker_result

unfoldable pub apply_worker_validation :
    ValidationReceipt → LifecycleState → Controlled LifecycleState
unfolding check_receipt record_receipt
apply_worker_validation r s = check_receipt r s >>= λ _. record_receipt r s

unfoldable pub preempt : LifecycleState → Controlled LifecycleState
preempt s = elim s.phase [
  | finished ↦ raise lifecycle_misuse
  | looked_up ↦ ok s
  | _ ↦ check_state (record s {
    phase = looked_up;
    allocation_generation = s.allocation_generation + 1;
    allocation = none;
    handoff = none;
    worker_validation = none;
    preemption_count = s.preemption_count + 1;
  })
]

unfoldable pub finish : LifecycleState → Controlled LifecycleState
finish s = elim s.phase [
  | finished ↦ ok s
  | worker_validated ↦ check_state (record s { phase = finished })
  | _ ↦ raise lifecycle_misuse
]

-- `matches[index]` out of range is Python's `IndexError`, apart from the coded failures.
pub data CountersError : Type 0 where
  failed : ErrorCode → CountersError
  index_error : CountersError

unfoldable pub loaded_tokens : List VerifiedMatch → List ℕ → Result CountersError ℕ
loaded_tokens matches [] = ok 0
loaded_tokens matches (i ∷ is) = elim (get_elem? matches i) [
  | none ↦ raise index_error
  | some m ↦ do rest ← loaded_tokens matches is; ok (segment_len (match_target m) + rest)
]

abbrev pub candidate_targets : MatchPlan → List TokenSegment
candidate_targets p =
    map match_target p.matches ++ map (λ r. r.candidate.target_segment) p.rejected_candidates

-- `sum(query in verified_targets for query in query_segments)`
abbrev pub document_hits : RequestPlan → ℕ
document_hits p = length (
    filter (λ q. member TokenSegment-discrete q (map match_target p.match_plan.matches))
      p.query_segments)

unfoldable pub counters_of_receipt :
    RequestPlan → ValidationReceipt → Result CountersError RequestMetricCounters
counters_of_receipt p r = do
  loaded ← loaded_tokens p.match_plan.matches r.loaded_match_indexes
  let found = covered_token_count (candidate_targets p.match_plan)
  raise_if (ltb found loaded) (failed invalid_worker_result)
  raise_if
      (not (
        length r.loaded_match_indexes + length r.rejected_match_indexes
        == length p.match_plan.matches))
      (failed invalid_worker_result)
  ok (record {
    prompt_tokens = pos p.prompt_tokens;
    reusable_documents_requested = pos (length p.query_segments);
    reusable_documents_hit = pos (document_hits p);
    reusable_document_tokens_requested = pos p.match_plan.requested_tokens;
    kv_tokens_found = pos found;
    kv_tokens_loaded = pos loaded;
    kv_tokens_rejected = pos (found - loaded);
    tokens_recomputed = pos p.prompt_tokens;
    prefill_tokens_avoided = pos 0;
  })

abbrev pub has_receipt_phase : RequestPhase → Bool
has_receipt_phase worker_validated = true
has_receipt_phase finished = true
has_receipt_phase _ = false

unfoldable pub derive_metric_counters : LifecycleState → Result CountersError RequestMetricCounters
unfolding counters_of_receipt
derive_metric_counters s = do
  raise_if (not (has_receipt_phase s.phase)) (failed lifecycle_misuse)
  elim s.worker_validation [
    | none ↦ raise (failed lifecycle_misuse)
    | some r ↦ counters_of_receipt s.plan r
  ]
