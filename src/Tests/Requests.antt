-- ===== src/Tests/Requests.antt =====
-- Runs of the control plane on small inputs.
use cacheblend_gpt_oss.Prelude.{
  ◌≡◌, refl, List, [], ◌∷◌, nat, Value, str, some, ok, raise, arith, sorted, nat_order, pair_order,
  list_order, false, ℕ_discrete, has_duplicates,
}
use cacheblend_gpt_oss.Planner.Models.{TokenSegment-discrete, tokens_discrete, text_lists_discrete}
use cacheblend_gpt_oss.ControlPlane.Records.{
  RequestAllocation, ValidationReceipt, stale_allocation, finished, request_plan, segment_sort_key,
  capture, request_allocation, handoff_metadata,
}
use cacheblend_gpt_oss.ControlPlane.Lifecycle.{
  LifecycleState, initial_state, check_state, hand_off, from_handoff, preempt, finish,
  apply_worker_validation, allocate, RequestPlan-discrete, RequestAllocation-discrete,
}
use cacheblend_gpt_oss.ControlPlane.Coherence.{IsCoherent}
use cacheblend_gpt_oss.ControlPlane.Steps.{
  Becomes, finish-ok, finished_state, preempted_state, handed_state, receipted_state,
}
use cacheblend_gpt_oss.ControlPlane.Lifetime.{
  Operation, allocate_op, hand_off_op, preempt_op, finish_op, validate_op, run, Follows,
  run-Follows, finished_validated,
}
use cacheblend_gpt_oss.ControlPlane.Preemption.{run-stale}
use cacheblend_gpt_oss.ControlPlane.Completion.{completed_state, run-completes}
use cacheblend_gpt_oss.ControlPlane.Handshake.{metadata, worker_state, handshake}
use cacheblend_gpt_oss.ControlPlane.Accepted.{request_plan-planned}
use cacheblend_gpt_oss.Tests.Planning.{queries-IsSegment}
use cacheblend_gpt_oss.Tests.{
  namespace, tokens_digest, queries, cache, match_plan, group_layout, no_matches, allocation,
  allocated_state, receipt,
}

asked_distinct : has_duplicates TokenSegment-discrete (sorted segment_sort_key queries) ≡ false
unfolding has_duplicates sorted TokenSegment-discrete ℕ_discrete
asked_distinct = refl

request_plan-planned_example :
    request_plan (str (1 ∷ [])) (nat 6) queries match_plan
    ≡ ok (record {
      request_id = 1 ∷ [];
      prompt_tokens = 6;
      query_segments = sorted segment_sort_key queries;
      match_plan = match_plan;
    })
request_plan-planned_example =
    request_plan-planned tokens_digest cache namespace queries queries-IsSegment (1 ∷ []) 6
      (omega arith) asked_distinct (omega arith, (omega arith, (omega arith, tt)))

allocated_state-IsCoherent : IsCoherent allocated_state
allocated_state-IsCoherent = (allocation, (refl, refl, refl), refl, refl)

check_state_passes : check_state allocated_state ≡ ok allocated_state
unfolding check_state tokens_discrete ℕ_discrete
check_state_passes = refl

abbrev handed : LifecycleState
handed = handed_state allocated_state allocation

handed-IsCoherent : IsCoherent handed
handed-IsCoherent =
    (allocation, metadata no_matches allocation, (refl, refl, refl), (refl, refl, refl), refl)

-- The allocation after a preemption.
abbrev allocate_again : List Operation
allocate_again = allocate_op group_layout (((nat 3) ∷ []) ∷ ((nat 4) ∷ []) ∷ []) (nat 0) ∷ []

-- The receipt for the allocation after the preemption.
abbrev next_receipt : ValidationReceipt
next_receipt = record receipt { allocation = record allocation { allocation_generation = 3 } }

abbrev new_blocks : List (List Value)
new_blocks = (nat 3 ∷ nat 5 ∷ []) ∷ (nat 4 ∷ []) ∷ []

captured : capture group_layout new_blocks ≡ ok allocation.grouped_blocks
unfolding capture text_lists_discrete tokens_discrete ℕ_discrete
captured = refl

run-completes_example :
    run
      (preempt_op
        ∷ allocate_op group_layout new_blocks (nat 0)
        ∷ hand_off_op
        ∷ validate_op next_receipt
        ∷ finish_op
        ∷ [])
      handed
    ≡ completed_state handed group_layout new_blocks allocation.grouped_blocks next_receipt
run-completes_example =
    run-completes handed group_layout new_blocks allocation.grouped_blocks next_receipt allocation
      handed-IsCoherent refl (λ e. cc) (omega arith) captured refl refl refl

-- A handoff, a preemption, and the lost receipt.
abbrev lost : List Operation
lost = hand_off_op ∷ preempt_op ∷ validate_op receipt ∷ []

run-Follows_example : Follows allocated_state (run lost allocated_state)
run-Follows_example = run-Follows lost allocated_state allocated_state-IsCoherent refl

run-stale_example :
    apply_worker_validation receipt (run (preempt_op ∷ allocate_again) handed)
    ≡ raise stale_allocation
unfolding tokens_discrete ℕ_discrete
run-stale_example =
    run-stale allocate_again handed allocation receipt handed-IsCoherent refl (λ e. cc) refl

-- A whole life: two preemptions, then the allocation that is validated.
abbrev life : List Operation
life =
    allocate_op group_layout (((nat 3) ∷ []) ∷ ((nat 4) ∷ []) ∷ []) (nat 0)
    ∷ preempt_op
    ∷ allocate_op group_layout (((nat 3) ∷ []) ∷ ((nat 4) ∷ []) ∷ []) (nat 0)
    ∷ preempt_op
    ∷ allocate_op group_layout (((nat 3) ∷ (nat 5) ∷ []) ∷ ((nat 4) ∷ []) ∷ []) (nat 0)
    ∷ hand_off_op
    ∷ validate_op receipt
    ∷ finish_op
    ∷ []

life_finished : (run life (initial_state no_matches)).phase ≡ finished
unfolding run finish apply_worker_validation allocate capture text_lists_discrete request_allocation
    preempt hand_off check_state handoff_metadata tokens_discrete ℕ_discrete RequestPlan-discrete
    RequestAllocation-discrete
life_finished = refl

finished_validated_example :
    (a : RequestAllocation) × (r : ValidationReceipt) × ((run life
        (initial_state no_matches)).worker_validation
      ≡ some r)
    × (r.allocation ≡ a)
    × (a.allocation_generation ≡ (run life (initial_state no_matches)).preemption_count)
    × ((run life (initial_state no_matches)).allocation ≡ some a)
finished_validated_example = finished_validated life no_matches life_finished

hand_off-handed : hand_off allocated_state ≡ ok handed
unfolding hand_off handoff_metadata check_state tokens_discrete ℕ_discrete RequestPlan-discrete
    RequestAllocation-discrete
hand_off-handed = refl

abbrev worker : LifecycleState
worker = worker_state (metadata no_matches allocation)

handshake_example :
    (hand_off allocated_state ≡ ok handed)
    × (from_handoff (metadata no_matches allocation) group_layout ≡ ok worker)
    × (apply_worker_validation receipt handed ≡ ok (receipted_state handed receipt))
    × (apply_worker_validation receipt worker ≡ ok (receipted_state worker receipt))
unfolding tokens_discrete ℕ_discrete RequestAllocation-discrete
handshake_example =
    handshake allocated_state allocation group_layout receipt allocated_state-IsCoherent refl refl
      refl refl

preempt_moves : preempt handed ≡ ok (preempted_state handed)
unfolding preempt check_state
preempt_moves = refl

abbrev validated : LifecycleState
validated = receipted_state worker receipt

finish_moves : finish validated ≡ ok (finished_state validated)
unfolding finish check_state tokens_discrete ℕ_discrete RequestPlan-discrete
    RequestAllocation-discrete
finish_moves = refl

finish-ok_example : Becomes validated (finished_state validated) (finished_state validated)
finish-ok_example = finish-ok validated finish_moves
