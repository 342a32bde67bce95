-- ===== src/ControlPlane/Completion.antt =====
-- The way of a preempted request to its end.
-- src/cacheblend_gpt_oss/connector/control_plane.py.
use cacheblend_gpt_oss.Prelude.{
  ◌<◌, ◌≡◌, ◌∙◌, refl, sym, true, List, [], ◌∷◌, ◌++◌, Value, nat, some, ok, length, range_from,
  arith,
}
use cacheblend_gpt_oss.Planner.Models.{tokens_discrete}
use cacheblend_gpt_oss.ControlPlane.Records.{
  finished, RequestAllocation, ValidationReceipt, CacheGroupLayout, GroupedBlockAllocation, capture,
  request_allocation,
}
use cacheblend_gpt_oss.ControlPlane.Lifecycle.{
  LifecycleState, allocate, bind_allocation, finish, apply_worker_validation, same_indexes,
  RequestAllocation-discrete,
}
use cacheblend_gpt_oss.ControlPlane.Coherence.{IsCoherent, check_state_of_IsCoherent}
use cacheblend_gpt_oss.ControlPlane.Steps.{
  preempted_state, bound_state, handed_state, receipted_state, finished_state,
}
use cacheblend_gpt_oss.ControlPlane.Lifetime.{
  preempt_op, allocate_op, hand_off_op, validate_op, finish_op, run, perform,
}
use cacheblend_gpt_oss.ControlPlane.Preemption.{preempt-eq-ok}
use cacheblend_gpt_oss.ControlPlane.Handshake.{
  hand_off-eq-ok, apply_worker_validation-eq, metadata, confirmed,
}

-- The allocation of captured blocks to a state's request, in its generation.
abbrev pub allocation_of : LifecycleState → GroupedBlockAllocation → RequestAllocation
allocation_of s g = record {
  request_id = s.plan.request_id;
  allocation_generation = s.allocation_generation;
  grouped_blocks = g;
  external_scheduler_tokens = 0;
}

request_allocation-eq-ok :
    (s : LifecycleState) (g : GroupedBlockAllocation)
    → 0 < length s.plan.request_id
    → request_allocation (Value.str s.plan.request_id) (nat s.allocation_generation) g (nat 0)
      ≡ ok (allocation_of s g)
unfolding request_allocation
request_allocation-eq-ok s g n = ground arith

module _ (t : LifecycleState) (layout : CacheGroupLayout) (blocks : List (List Value))
    (g : GroupedBlockAllocation) (r : ValidationReceipt) where
  -- The state after a preemption, the new allocation, and the states on the way to the end.
  abbrev pub resumed : LifecycleState
  resumed = preempted_state t

  abbrev pub next_allocation : RequestAllocation
  next_allocation = allocation_of resumed g

  abbrev pub bound_again : LifecycleState
  bound_again = bound_state resumed next_allocation

  abbrev pub handed_again : LifecycleState
  handed_again = handed_state bound_again next_allocation

  abbrev pub completed_state : LifecycleState
  completed_state = finished_state (receipted_state handed_again r)

  allocate-again :
      0 < length t.plan.request_id
      → capture layout blocks ≡ ok g
      → allocate layout blocks (nat 0) resumed ≡ ok bound_again
  unfolding allocate bind_allocation
  allocate-again n k =
      rw (k, request_allocation-eq-ok resumed g n)
        (check_state_of_IsCoherent bound_again (next_allocation, (refl, refl, refl), refl, refl))

  receive-again :
      r.request_id ≡ t.plan.request_id
      → r.allocation ≡ next_allocation
      → same_indexes
          (r.loaded_match_indexes ++ r.rejected_match_indexes)
          (range_from 0 (length t.plan.match_plan.matches))
        ≡ true
      → apply_worker_validation r handed_again ≡ ok (receipted_state handed_again r)
  receive-again i b x =
      apply_worker_validation-eq r handed_again next_allocation (metadata t.plan next_allocation)
        refl (refl, refl, refl) (refl, refl, refl)
      ∙ rw
          (
            confirmed (tokens_discrete r.request_id t.plan.request_id) i,
            confirmed (RequestAllocation-discrete next_allocation r.allocation) (sym b),
            x,
          )
          refl

  finish-again :
      r.allocation ≡ next_allocation → finish (receipted_state handed_again r) ≡ ok completed_state
  unfolding finish
  finish-again b = check_state_of_IsCoherent completed_state (
    next_allocation,
    metadata t.plan next_allocation,
    r,
    (refl, refl, refl),
    (refl, refl, refl),
    refl,
    b,
  )

  -- A coherent request with an id that is not empty, which holds an allocation and is not finished,
  -- can be preempted and then completed: with blocks that are captured for the layout, the handoff,
  -- a receipt for its request and the new allocation whose indexes are those of the planned matches,
  -- and `finish`, it ends finished in the next generation, with that allocation, its metadata and
  -- that receipt.
  pub run-completes :
      (a : RequestAllocation)
      → IsCoherent t
      → t.allocation ≡ some a
      → ¬ (t.phase ≡ finished)
      → 0 < length t.plan.request_id
      → capture layout blocks ≡ ok g
      → r.request_id ≡ t.plan.request_id
      → r.allocation ≡ next_allocation
      → same_indexes
          (r.loaded_match_indexes ++ r.rejected_match_indexes)
          (range_from 0 (length t.plan.match_plan.matches))
        ≡ true
      → run
          (preempt_op
            ∷ allocate_op layout blocks (nat 0)
            ∷ hand_off_op
            ∷ validate_op r
            ∷ finish_op
            ∷ [])
          t
        ≡ completed_state
  unfolding run perform
  run-completes a c e n l k i b x =
      rw
        (
          (preempt-eq-ok t a t.phase refl c e n).0,
          allocate-again l k,
          hand_off-eq-ok bound_again next_allocation
              (next_allocation, (refl, refl, refl), refl, refl) refl refl refl,
          receive-again i b x,
          finish-again b,
        )
        refl
