-- ===== src/ControlPlane/Coherence.antt =====
-- The lifecycle invariant and its relation to `__post_init__`:
-- src/cacheblend_gpt_oss/connector/control_plane.py.
use cacheblend_gpt_oss.Prelude.{
  ℕ, ◌≡◌, refl, false, Option, none, some, ok, arith, holds, not, holds_iff,
}
use cacheblend_gpt_oss.Planner.Models.{tokens_discrete}
use cacheblend_gpt_oss.ControlPlane.Records.{
  RequestPhase, looked_up, allocated, handed_off, worker_validated, finished, RequestAllocation,
  RequestPlan, HandoffMetadata, ValidationReceipt,
}
use cacheblend_gpt_oss.ControlPlane.Lifecycle.{
  LifecycleState, check_state, RequestPlan-discrete, RequestAllocation-discrete,
}

-- The allocation of the state, bound to its request and generation.
abbrev pub IsBound : RequestAllocation → LifecycleState → Type 0
IsBound a s =
    (s.allocation ≡ some a)
    × (a.request_id ≡ s.plan.request_id)
    × (a.allocation_generation ≡ s.allocation_generation)

-- The metadata of the state freezes its plan and its allocation.
abbrev pub IsFrozen : HandoffMetadata → RequestAllocation → LifecycleState → Type 0
IsFrozen m a s = (s.handoff ≡ some m) × (m.plan ≡ s.plan) × (m.allocation ≡ a)

-- What each phase holds.
abbrev pub CoherentAt : RequestPhase → LifecycleState → Type 0
CoherentAt looked_up s = (s.allocation ≡ none) × (s.handoff ≡ none) × (s.worker_validation ≡ none)
CoherentAt allocated s =
    (a : RequestAllocation) × IsBound a s × (s.handoff ≡ none) × (s.worker_validation ≡ none)
CoherentAt handed_off s =
    (a : RequestAllocation) × (m : HandoffMetadata) × IsBound a s
    × IsFrozen m a s
    × (s.worker_validation ≡ none)
CoherentAt worker_validated s =
    (a : RequestAllocation) × (m : HandoffMetadata) × (r : ValidationReceipt) × IsBound a s
    × IsFrozen m a s
    × (s.worker_validation ≡ some r)
    × (r.allocation ≡ a)
CoherentAt finished s =
    (a : RequestAllocation) × (m : HandoffMetadata) × (r : ValidationReceipt) × IsBound a s
    × IsFrozen m a s
    × (s.worker_validation ≡ some r)
    × (r.allocation ≡ a)

abbrev pub IsCoherent : LifecycleState → Type 0
IsCoherent s = CoherentAt s.phase s

make :
    RequestPlan
    → RequestPhase
    → ℕ
    → Option RequestAllocation
    → Option HandoffMetadata
    → Option ValidationReceipt
    → ℕ
    → LifecycleState
make p ph g a h r c = record {
  plan = p;
  phase = ph;
  allocation_generation = g;
  allocation = a;
  handoff = h;
  worker_validation = r;
  preemption_count = c;
}

check_parts :
    (p : RequestPlan) (ph : RequestPhase) (g : ℕ) (a : Option RequestAllocation)
    (h : Option HandoffMetadata) (r : Option ValidationReceipt) (c : ℕ) {t : LifecycleState}
    → check_state (make p ph g a h r c) ≡ ok t
    → IsCoherent (make p ph g a h r c) × (t ≡ make p ph g a h r c)
unfolding make check_state
check_parts p looked_up g none none none c e = ((refl, refl, refl), ground arith)
check_parts p looked_up g none none (some r) c e = cc
check_parts p looked_up g none (some h) r c e = cc
check_parts p looked_up g (some a) h r c e = cc
check_parts p allocated g none h r c e = cc
check_parts p allocated g (some a) none none c e = (
  (
    a,
    (refl, ground (arith, holds_iff (tokens_discrete a.request_id p.request_id)), ground arith),
    refl,
    refl,
  ),
  ground arith,
)
check_parts p allocated g (some a) none (some r) c e = ground arith
check_parts p allocated g (some a) (some h) r c e = ground arith
check_parts p handed_off g none h r c e = cc
check_parts p handed_off g (some a) none r c e = ground arith
check_parts p handed_off g (some a) (some h) none c e = (
  (
    a,
    h,
    (refl, ground (arith, holds_iff (tokens_discrete a.request_id p.request_id)), ground arith),
    (
      refl,
      ground (arith, holds_iff (RequestPlan-discrete h.plan p)),
      ground (arith, holds_iff (RequestAllocation-discrete h.allocation a)),
    ),
    refl,
  ),
  ground arith,
)
check_parts p handed_off g (some a) (some h) (some r) c e = ground arith
check_parts p worker_validated g none h r c e = cc
check_parts p worker_validated g (some a) none r c e = ground arith
check_parts p worker_validated g (some a) (some h) none c e = ground arith
check_parts p worker_validated g (some a) (some h) (some r) c e = (
  (
    a,
    h,
    r,
    (refl, ground (arith, holds_iff (tokens_discrete a.request_id p.request_id)), ground arith),
    (
      refl,
      ground (arith, holds_iff (RequestPlan-discrete h.plan p)),
      ground (arith, holds_iff (RequestAllocation-discrete h.allocation a)),
    ),
    refl,
    ground (arith, holds_iff (RequestAllocation-discrete r.allocation a)),
  ),
  ground arith,
)
check_parts p finished g none h r c e = cc
check_parts p finished g (some a) none r c e = ground arith
check_parts p finished g (some a) (some h) none c e = ground arith
check_parts p finished g (some a) (some h) (some r) c e = (
  (
    a,
    h,
    r,
    (refl, ground (arith, holds_iff (tokens_discrete a.request_id p.request_id)), ground arith),
    (
      refl,
      ground (arith, holds_iff (RequestPlan-discrete h.plan p)),
      ground (arith, holds_iff (RequestAllocation-discrete h.allocation a)),
    ),
    refl,
    ground (arith, holds_iff (RequestAllocation-discrete r.allocation a)),
  ),
  ground arith,
)

-- A state that passes `__post_init__` is coherent, and is returned as it is.
pub check_state-IsCoherent :
    (s : LifecycleState) {t : LifecycleState} → check_state s ≡ ok t → IsCoherent s × (t ≡ s)
unfolding make
check_state-IsCoherent s e =
    check_parts s.plan s.phase s.allocation_generation s.allocation s.handoff s.worker_validation
      s.preemption_count e

refuted {ℓ} : {P : Type ℓ} (d : Dec P) → P → not (holds d) ≡ false
refuted (yes p) h = refl
refuted (no p) h = absurd (p h)

coherent_parts :
    (p : RequestPlan) (ph : RequestPhase) (g : ℕ) (a : Option RequestAllocation)
    (h : Option HandoffMetadata) (r : Option ValidationReceipt) (c : ℕ)
    → IsCoherent (make p ph g a h r c)
    → check_state (make p ph g a h r c) ≡ ok (make p ph g a h r c)
unfolding make check_state
coherent_parts p looked_up g a h r c (e, f, q) = ground arith
coherent_parts p allocated g a h r c (a', (e, i, n), f, q) =
    rw (e, f, q) (rw (refuted (tokens_discrete a'.request_id p.request_id) i) (ground arith))
coherent_parts p handed_off g a h r c (a', m, (e, i, n), (f, k, l), q) =
    rw (e, f, q)
      (rw
        (
          refuted (tokens_discrete a'.request_id p.request_id) i,
          refuted (RequestPlan-discrete m.plan p) k,
          refuted (RequestAllocation-discrete m.allocation a') l,
        )
        (ground arith))
coherent_parts p worker_validated g a h r c (a', m, r', (e, i, n), (f, k, l), q, o) =
    rw (e, f, q)
      (rw
        (
          refuted (tokens_discrete a'.request_id p.request_id) i,
          refuted (RequestPlan-discrete m.plan p) k,
          refuted (RequestAllocation-discrete m.allocation a') l,
          refuted (RequestAllocation-discrete r'.allocation a') o,
        )
        (ground arith))
coherent_parts p finished g a h r c (a', m, r', (e, i, n), (f, k, l), q, o) =
    rw (e, f, q)
      (rw
        (
          refuted (tokens_discrete a'.request_id p.request_id) i,
          refuted (RequestPlan-discrete m.plan p) k,
          refuted (RequestAllocation-discrete m.allocation a') l,
          refuted (RequestAllocation-discrete r'.allocation a') o,
        )
        (ground arith))

-- A coherent state passes `__post_init__`.
pub check_state_of_IsCoherent : (s : LifecycleState) → IsCoherent s → check_state s ≡ ok s
unfolding make
check_state_of_IsCoherent s h =
    coherent_parts s.plan s.phase s.allocation_generation s.allocation s.handoff s.worker_validation
      s.preemption_count h
