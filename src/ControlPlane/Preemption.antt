-- ===== src/ControlPlane/Preemption.antt =====
-- What a preemption does to the receipts of the generation before it.
-- src/cacheblend_gpt_oss/connector/control_plane.py.
use cacheblend_gpt_oss.Prelude.{
  ◌+◌, ◌≤◌, ◌<◌, ◌≡◌, refl, sym, subst, ◌∙◌, inl, inr, List, ◌∷◌, none, some, ok, raise, arith,
  ◌==◌, ℕ, same, Bool-cases, if◌then◌else◌, false,
}
use cacheblend_gpt_oss.Planner.Models.{tokens_discrete}
use cacheblend_gpt_oss.ControlPlane.Records.{
  RequestPhase, looked_up, allocated, handed_off, worker_validated, finished, RequestAllocation,
  ValidationReceipt, stale_allocation, duplicate_request_conflict,
}
use cacheblend_gpt_oss.ControlPlane.Lifecycle.{
  LifecycleState, check_receipt, preempt, apply_worker_validation,
}
use cacheblend_gpt_oss.ControlPlane.Coherence.{IsCoherent, CoherentAt, check_state_of_IsCoherent}
use cacheblend_gpt_oss.ControlPlane.Steps.{preempted_state}
use cacheblend_gpt_oss.ControlPlane.Lifetime.{Operation, preempt_op, run, run-Follows, perform}

none≢some {ℓ} : {A : Type ℓ} {x : A} → ¬ (none ≡ some x)
none≢some e = cc

same_generation :
    (t : LifecycleState) (a b : RequestAllocation)
    → t.allocation ≡ some b
    → t.allocation ≡ some a
    → b.allocation_generation ≡ t.allocation_generation
    → a.allocation_generation ≡ t.allocation_generation
same_generation t a b k f g = cc

earlier :
    (r : ValidationReceipt) (a : RequestAllocation) (t : LifecycleState) {n : ℕ}
    → t.allocation_generation + 1 ≤ n
    → r.allocation ≡ a
    → a.allocation_generation ≡ t.allocation_generation
    → r.allocation.allocation_generation < n
earlier r a t h q g =
    let same : r.allocation.allocation_generation ≡ a.allocation_generation = cc in
    omega (arith, same, g, h)

-- The preemption of a coherent request that holds an allocation and is not finished.
pub preempt-eq-ok :
    (t : LifecycleState) (a : RequestAllocation) (ph : RequestPhase)
    → t.phase ≡ ph
    → CoherentAt ph t
    → t.allocation ≡ some a
    → ¬ (ph ≡ finished)
    → (preempt t ≡ ok (preempted_state t)) × (a.allocation_generation ≡ t.allocation_generation)
unfolding preempt
preempt-eq-ok t a looked_up e c f n = absurd (none≢some (sym c.0 ∙ f))
preempt-eq-ok t a allocated e (b, (k, i, g), o, o2) f n = (
  rw (e, preempt) (check_state_of_IsCoherent (preempted_state t) (refl, refl, refl)),
  same_generation t a b k f g,
)
preempt-eq-ok t a handed_off e (b, m, (k, i, g), o, o2) f n = (
  rw (e, preempt) (check_state_of_IsCoherent (preempted_state t) (refl, refl, refl)),
  same_generation t a b k f g,
)
preempt-eq-ok t a worker_validated e (b, m, r, (k, i, g), o, o2, o3) f n = (
  rw (e, preempt) (check_state_of_IsCoherent (preempted_state t) (refl, refl, refl)),
  same_generation t a b k f g,
)
preempt-eq-ok t a finished e c f n = absurd (n refl)

-- The answer to a receipt of an earlier generation than the state's.
check_receipt-stale :
    (r : ValidationReceipt) (t : LifecycleState)
    → r.allocation.allocation_generation < t.allocation_generation
    → apply_worker_validation r t
      ≡ raise (
          if same tokens_discrete r.request_id t.plan.request_id
          then stale_allocation
          else duplicate_request_conflict)
unfolding apply_worker_validation check_receipt
check_receipt-stale r t h =
    let apart : (r.allocation.allocation_generation == t.allocation_generation) ≡ false =
      ground arith in
    elim (Bool-cases (same tokens_discrete r.request_id t.plan.request_id)) [
      | inl e ↦ rw (e, apart) refl
      | inr e ↦ rw e refl
    ]

-- Once a coherent request that holds an allocation and is not finished is
-- preempted, a receipt for that allocation is refused as stale, or as one of another request,
-- whatever operations follow the preemption.
pub run-stale :
    (os : List Operation) (t : LifecycleState) (a : RequestAllocation) (r : ValidationReceipt)
    → IsCoherent t
    → t.allocation ≡ some a
    → ¬ (t.phase ≡ finished)
    → r.allocation ≡ a
    → apply_worker_validation r (run (preempt_op ∷ os) t)
      ≡ raise (
          if same tokens_discrete r.request_id t.plan.request_id
          then stale_allocation
          else duplicate_request_conflict)
unfolding run perform
run-stale os t a r c e n q =
    let (moves, g) = preempt-eq-ok t a t.phase refl c e n in
    let f = run-Follows os (preempted_state t) (refl, refl, refl) tt in
    rw moves (
      subst
        (λ p.
          apply_worker_validation r (run os (preempted_state t))
          ≡ raise (
              if same tokens_discrete r.request_id p.request_id
              then stale_allocation
              else duplicate_request_conflict))
        f.same_plan
        (check_receipt-stale r (run os (preempted_state t)) (earlier r a t f.later q g)))
