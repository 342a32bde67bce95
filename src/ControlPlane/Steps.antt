-- ===== src/ControlPlane/Steps.antt =====
-- Successful lifecycle operations and the states that they leave:
-- src/cacheblend_gpt_oss/connector/control_plane.py.
use cacheblend_gpt_oss.Prelude.{
  ◌+◌, ◌≡◌, refl, ◌⊎◌, inl, inr, nat, Option, none, some, ok, >>=-eq-ok, arith,
}
use cacheblend_gpt_oss.ControlPlane.Records.{
  RequestPhase, looked_up, allocated, handed_off, worker_validated, finished, RequestAllocation,
  RequestPlan, HandoffMetadata, ValidationReceipt, handoff_metadata, metadata_schema_version,
}
use cacheblend_gpt_oss.ControlPlane.Lifecycle.{
  LifecycleState, check_state, finish, preempt, hand_off, bind_allocation, record_receipt,
}
use cacheblend_gpt_oss.ControlPlane.Coherence.{IsCoherent, check_state-IsCoherent}

-- The state is unchanged, or it is `u` and coherent.
abbrev pub Becomes : LifecycleState → LifecycleState → LifecycleState → Type 0
Becomes s u t = (t ≡ s) ⊎ (IsCoherent u × (t ≡ u))

abbrev pub finished_state : LifecycleState → LifecycleState
finished_state s = record s { phase = finished }

finish_at :
    (s : LifecycleState) {t : LifecycleState} (ph : RequestPhase)
    → s.phase ≡ ph
    → finish s ≡ ok t
    → Becomes s (finished_state s) t
unfolding finish
finish_at s looked_up e h = ground arith
finish_at s allocated e h = ground arith
finish_at s handed_off e h = ground arith
finish_at s worker_validated e h =
    inr (check_state-IsCoherent (finished_state s) (rw (e, finish) at h))
finish_at s finished e h = inl (ground arith)

-- A successful `finish` leaves a finished state as it is, and otherwise only moves the phase.
pub finish-ok :
    (s : LifecycleState) {t : LifecycleState} → finish s ≡ ok t → Becomes s (finished_state s) t
finish-ok s h = finish_at s s.phase refl h

abbrev pub preempted_state : LifecycleState → LifecycleState
preempted_state s = record s {
  phase = looked_up;
  allocation_generation = s.allocation_generation + 1;
  allocation = none;
  handoff = none;
  worker_validation = none;
  preemption_count = s.preemption_count + 1;
}

preempt_at :
    (s : LifecycleState) {t : LifecycleState} (ph : RequestPhase)
    → s.phase ≡ ph
    → preempt s ≡ ok t
    → ((s.phase ≡ looked_up) × (t ≡ s)) ⊎ (IsCoherent (preempted_state s) × (t ≡ preempted_state s))
unfolding preempt
preempt_at s looked_up e h = inl (e, ground arith)
preempt_at s allocated e h = inr (check_state-IsCoherent (preempted_state s) (rw (e, preempt) at h))
preempt_at s handed_off e h =
    inr (check_state-IsCoherent (preempted_state s) (rw (e, preempt) at h))
preempt_at s worker_validated e h =
    inr (check_state-IsCoherent (preempted_state s) (rw (e, preempt) at h))
preempt_at s finished e h = ground arith

-- A successful `preempt` leaves a looked-up state as it is, and moves any other to the next
-- generation, without allocation, metadata and receipt; the new state is coherent.
pub preempt-ok :
    (s : LifecycleState) {t : LifecycleState}
    → preempt s ≡ ok t
    → ((s.phase ≡ looked_up) × (t ≡ s)) ⊎ (IsCoherent (preempted_state s) × (t ≡ preempted_state s))
preempt-ok s h = preempt_at s s.phase refl h

abbrev pub frozen_metadata : LifecycleState → RequestAllocation → HandoffMetadata
frozen_metadata s a = record {
  schema_version = metadata_schema_version;
  plan = s.plan;
  allocation = a;
}

abbrev pub handed_state : LifecycleState → RequestAllocation → LifecycleState
handed_state s a = record s { phase = handed_off; handoff = some (frozen_metadata s a) }

-- The metadata constructor either refuses, or freezes exactly the plan and the allocation.
handoff_metadata-ok :
    (p : RequestPlan) (a : RequestAllocation) {m : HandoffMetadata}
    → handoff_metadata (nat metadata_schema_version) p a ≡ ok m
    → m ≡ record { schema_version = metadata_schema_version; plan = p; allocation = a }
unfolding handoff_metadata
handoff_metadata-ok p a h = ground arith

hand_off_at :
    (s : LifecycleState) {t : LifecycleState} (ph : RequestPhase) (o : Option RequestAllocation)
    → s.phase ≡ ph
    → s.allocation ≡ o
    → hand_off s ≡ ok t
    → (t ≡ s)
      ⊎ ((a : RequestAllocation) × (s.allocation ≡ some a)
          × IsCoherent (handed_state s a)
          × (t ≡ handed_state s a))
unfolding hand_off
hand_off_at s looked_up o e f h = ground arith
hand_off_at s allocated none e f h = ground arith
hand_off_at s allocated (some a) e f h =
    let (m, made, next) =
      >>=-eq-ok (handoff_metadata (nat metadata_schema_version) s.plan a)
        (λ m. check_state (record s { phase = handed_off; handoff = some m }))
        (rw (e, f, hand_off) at h) in
    let q = handoff_metadata-ok s.plan a made in
    let (c, k) = check_state-IsCoherent (handed_state s a) (rw q at next) in inr (a, f, c, k)
hand_off_at s handed_off o e f h = inl (ground arith)
hand_off_at s worker_validated o e f h = inl (ground arith)
hand_off_at s finished o e f h = inl (ground arith)

-- A successful `handoff` changes nothing, or freezes the state's plan and allocation.
pub hand_off-ok :
    (s : LifecycleState) {t : LifecycleState}
    → hand_off s ≡ ok t
    → (t ≡ s)
      ⊎ ((a : RequestAllocation) × (s.allocation ≡ some a)
          × IsCoherent (handed_state s a)
          × (t ≡ handed_state s a))
hand_off-ok s h = hand_off_at s s.phase s.allocation refl refl h

abbrev pub bound_state : LifecycleState → RequestAllocation → LifecycleState
bound_state s a = record s { phase = allocated; allocation = some a }

bind_allocation_at :
    (a : RequestAllocation) (s : LifecycleState) {t : LifecycleState} (ph : RequestPhase)
    → s.phase ≡ ph
    → bind_allocation a s ≡ ok t
    → Becomes s (bound_state s a) t
unfolding bind_allocation
bind_allocation_at a s looked_up e h =
    inr (check_state-IsCoherent (bound_state s a) (rw (e, bind_allocation) at h))
bind_allocation_at a s allocated e h = inl (ground arith)
bind_allocation_at a s handed_off e h = inl (ground arith)
bind_allocation_at a s worker_validated e h = inl (ground arith)
bind_allocation_at a s finished e h = inl (ground arith)

pub bind_allocation-ok :
    (a : RequestAllocation) (s : LifecycleState) {t : LifecycleState}
    → bind_allocation a s ≡ ok t
    → Becomes s (bound_state s a) t
bind_allocation-ok a s h = bind_allocation_at a s s.phase refl h

abbrev pub receipted_state : LifecycleState → ValidationReceipt → LifecycleState
receipted_state s r = record s { phase = worker_validated; worker_validation = some r }

record_receipt_at :
    (r : ValidationReceipt) (s : LifecycleState) {t : LifecycleState} (ph : RequestPhase)
    → s.phase ≡ ph
    → record_receipt r s ≡ ok t
    → Becomes s (receipted_state s r) t
unfolding record_receipt
record_receipt_at r s looked_up e h = ground arith
record_receipt_at r s allocated e h = ground arith
record_receipt_at r s handed_off e h =
    inr (check_state-IsCoherent (receipted_state s r) (rw (e, record_receipt) at h))
record_receipt_at r s worker_validated e h = inl (ground arith)
record_receipt_at r s finished e h = inl (ground arith)

pub record_receipt-ok :
    (r : ValidationReceipt) (s : LifecycleState) {t : LifecycleState}
    → record_receipt r s ≡ ok t
    → Becomes s (receipted_state s r) t
record_receipt-ok r s h = record_receipt_at r s s.phase refl h
