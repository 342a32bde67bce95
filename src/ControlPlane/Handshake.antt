-- ===== src/ControlPlane/Handshake.antt =====
-- The exchange between the scheduler's and the worker's control plane over one request.
-- src/cacheblend_gpt_oss/connector/control_plane.py.
use cacheblend_gpt_oss.Prelude.{
  ◌≡◌, refl, sym, subst, false, not, holds, nat, none, some, ok, arith, raise, true, same,
  Bool-cases, inl, inr, if◌then◌else◌, ◌++◌, length, range_from, ◌==◌,
}
use cacheblend_gpt_oss.Planner.Models.{tokens_discrete}
use cacheblend_gpt_oss.ControlPlane.Records.{
  allocated, handed_off, RequestAllocation, RequestPlan, HandoffMetadata, ValidationReceipt,
  CacheGroupLayout, handoff_metadata, metadata_schema_version, Controlled,
  duplicate_request_conflict, stale_allocation, invalid_worker_result,
}
use cacheblend_gpt_oss.ControlPlane.Lifecycle.{
  LifecycleState, hand_off, from_handoff, check_receipt, record_receipt, apply_worker_validation,
  CacheGroupLayout-discrete, RequestAllocation-discrete, same_indexes, check_state,
}
use cacheblend_gpt_oss.ControlPlane.Coherence.{
  IsCoherent, CoherentAt, IsBound, IsFrozen, check_state_of_IsCoherent,
}
use cacheblend_gpt_oss.ControlPlane.Steps.{frozen_metadata, handed_state, receipted_state}

-- What the worker installs from the metadata.
abbrev pub worker_state : HandoffMetadata → LifecycleState
worker_state m = record {
  plan = m.plan;
  phase = handed_off;
  allocation_generation = m.allocation.allocation_generation;
  allocation = some m.allocation;
  handoff = some m;
  worker_validation = none;
  preemption_count = 0;
}

refuted {ℓ} : {P : Type ℓ} (d : Dec P) → P → not (holds d) ≡ false
refuted (yes p) h = refl
refuted (no p) h = absurd (p h)

handoff_metadata-eq-ok :
    (p : RequestPlan) (a : RequestAllocation)
    → a.request_id ≡ p.request_id
    → a.external_scheduler_tokens ≡ 0
    → handoff_metadata (nat metadata_schema_version) p a
      ≡ ok (record { schema_version = metadata_schema_version; plan = p; allocation = a })
unfolding handoff_metadata
handoff_metadata-eq-ok p a h k =
    rw (refuted (tokens_discrete p.request_id a.request_id) (sym h)) (ground arith)

IsBound-same :
    (a b : RequestAllocation) (s : LifecycleState)
    → IsBound b s
    → s.allocation ≡ some a
    → IsBound a s
IsBound-same a b s h f = let e : b ≡ a = cc (h.0, f) in subst (λ x. IsBound x s) e h

pub hand_off-eq-ok :
    (s : LifecycleState) (a : RequestAllocation)
    → IsCoherent s
    → s.phase ≡ allocated
    → s.allocation ≡ some a
    → a.external_scheduler_tokens ≡ 0
    → hand_off s ≡ ok (handed_state s a)
unfolding hand_off
hand_off-eq-ok s a c e f x =
    let (b, bound, n, v) = subst (λ p. CoherentAt p s) e c in
    let (_, i, g) = IsBound-same a b s bound f in
    ground (
      arith,
      handoff_metadata-eq-ok s.plan a i x,
      check_state_of_IsCoherent (handed_state s a)
          (a, frozen_metadata s a, (f, i, g), (refl, refl, refl), v),
    )

abbrev pub metadata : RequestPlan → RequestAllocation → HandoffMetadata
metadata p a = record { schema_version = metadata_schema_version; plan = p; allocation = a }

from_handoff-eq-ok :
    (p : RequestPlan) (a : RequestAllocation) (layout : CacheGroupLayout)
    → a.grouped_blocks.group_layout ≡ layout
    → a.request_id ≡ p.request_id
    → from_handoff (metadata p a) layout ≡ ok (worker_state (metadata p a))
unfolding from_handoff
from_handoff-eq-ok p a layout l i =
    rw (refuted (CacheGroupLayout-discrete a.grouped_blocks.group_layout layout) l) (
      check_state_of_IsCoherent (worker_state (metadata p a))
        (a, metadata p a, (refl, i, refl), (refl, refl, refl), refl))

pub confirmed {ℓ} : {P : Type ℓ} (d : Dec P) → P → holds d ≡ true
confirmed (yes p) h = refl
confirmed (no p) h = absurd (p h)

denied {ℓ} : {P : Type ℓ} (d : Dec P) → ¬ P → holds d ≡ false
denied (yes p) h = absurd (h p)
denied (no p) h = refl

other_request :
    (r : ValidationReceipt) (w : LifecycleState)
    → same tokens_discrete r.request_id w.plan.request_id ≡ false
    → apply_worker_validation r w ≡ raise duplicate_request_conflict
unfolding apply_worker_validation check_receipt
other_request r w i = rw i refl

-- What a side with the allocation answers to a receipt: the request, the allocation and the indexes
-- of the planned matches are compared, and the receipt is recorded.
abbrev pub receipt_answer :
    RequestAllocation → ValidationReceipt → LifecycleState → Controlled LifecycleState
receipt_answer a r w =
    if not (same tokens_discrete r.request_id w.plan.request_id)
    then raise duplicate_request_conflict
    else if not (same RequestAllocation-discrete a r.allocation)
    then raise stale_allocation
    else if not (
        same_indexes (r.loaded_match_indexes ++ r.rejected_match_indexes)
          (range_from 0 (length w.plan.match_plan.matches)))
    then raise invalid_worker_result
    else ok (receipted_state w r)

module _ (r : ValidationReceipt) (w : LifecycleState) (a : RequestAllocation) (m : HandoffMetadata)
    (phase_is : w.phase ≡ handed_off) (bound : IsBound a w) (frozen : IsFrozen m a w) where
  other_allocation :
      ¬ (a ≡ r.allocation)
      → same tokens_discrete r.request_id w.plan.request_id ≡ true
      → apply_worker_validation r w ≡ raise stale_allocation
  unfolding apply_worker_validation check_receipt
  other_allocation n i =
      elim (Bool-cases (r.allocation.allocation_generation == w.allocation_generation)) [
        | inl e ↦
            rw (i, e, bound.0) (rw (denied (RequestAllocation-discrete a r.allocation) n) refl)
        | inr e ↦ rw (i, e) refl
      ]

  own_allocation :
      a ≡ r.allocation
      → same tokens_discrete r.request_id w.plan.request_id ≡ true
      → apply_worker_validation r w ≡ (
          if not (
            same_indexes
              (r.loaded_match_indexes ++ r.rejected_match_indexes)
              (range_from 0 (length w.plan.match_plan.matches)))
          then raise invalid_worker_result
          else ok (receipted_state w r))
  unfolding apply_worker_validation check_receipt record_receipt
  own_allocation q i =
      let number : a.allocation_generation ≡ r.allocation.allocation_generation =
        (λ j. (q j).allocation_generation) in
      let e : (r.allocation.allocation_generation == w.allocation_generation) ≡ true =
        ground (arith, bound.2) in
      let recorded : check_state (receipted_state w r) ≡ ok (receipted_state w r) =
        check_state_of_IsCoherent (receipted_state w r) (a, m, r, bound, frozen, refl, sym q) in
      elim (Bool-cases (
        same_indexes (r.loaded_match_indexes ++ r.rejected_match_indexes)
          (range_from 0 (length w.plan.match_plan.matches)))) [
            | inl k ↦
                rw (i, e, bound.0)
                  (rw (confirmed (RequestAllocation-discrete a r.allocation) q, k, phase_is)
                    (rw bound.0 at recorded))
            | inr k ↦
                rw (i, e, bound.0)
                  (rw (confirmed (RequestAllocation-discrete a r.allocation) q, k) refl)
          ]

  pub apply_worker_validation-eq : apply_worker_validation r w ≡ receipt_answer a r w
  apply_worker_validation-eq =
      elim (Bool-cases (same tokens_discrete r.request_id w.plan.request_id)) [
        | inr i ↦ rw i (other_request r w i)
        | inl i ↦ elim (RequestAllocation-discrete a r.allocation) [
          | yes q ↦
              rw (i, confirmed (RequestAllocation-discrete a r.allocation) q) (own_allocation q i)
          | no n ↦
              rw (i, denied (RequestAllocation-discrete a r.allocation) n) (other_allocation n i)
        ]
      ]

-- A coherent allocated state without credit hands off its plan and allocation, a worker with the
-- same layout installs them, and the two sides then answer every receipt alike, by one
-- description: it is refused for another request, for another allocation, or for indexes that are
-- not those of the planned matches, and recorded otherwise.
pub handshake :
    (s : LifecycleState) (a : RequestAllocation) (layout : CacheGroupLayout) (r : ValidationReceipt)
    → IsCoherent s
    → s.phase ≡ allocated
    → s.allocation ≡ some a
    → a.external_scheduler_tokens ≡ 0
    → a.grouped_blocks.group_layout ≡ layout
    → (hand_off s ≡ ok (handed_state s a))
      × (from_handoff (metadata s.plan a) layout ≡ ok (worker_state (metadata s.plan a)))
      × (apply_worker_validation r (handed_state s a) ≡ receipt_answer a r (handed_state s a))
      × (apply_worker_validation r (worker_state (metadata s.plan a))
          ≡ receipt_answer a r (worker_state (metadata s.plan a)))
handshake s a layout r c e f x l =
    let (b, bound, n, v) = subst (λ p. CoherentAt p s) e c in
    let (_, i, g) = IsBound-same a b s bound f in
    (
      hand_off-eq-ok s a c e f x,
      from_handoff-eq-ok s.plan a layout l i,
      apply_worker_validation-eq r (handed_state s a) a (metadata s.plan a) refl (f, i, g)
          (refl, refl, refl),
      apply_worker_validation-eq r (worker_state (metadata s.plan a)) a (metadata s.plan a) refl
          (refl, i, refl) (refl, refl, refl),
    )
