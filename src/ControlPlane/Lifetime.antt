-- ===== src/ControlPlane/Lifetime.antt =====
-- Sequences of lifecycle operations on one request; one that raises leaves the state as it is.
-- src/cacheblend_gpt_oss/connector/control_plane.py.
use cacheblend_gpt_oss.Prelude.{
  ◌+◌, ◌≤◌, ◌≡◌, refl, sym, subst, ◌∙◌, inl, inr, true, not, List, [], ◌∷◌, Value, nat, Option,
  none, some, ok, raise, ◌++◌, length, range_from, raise_if, >>=-eq-ok, arith, holds_iff, ◌==◌,
}
use cacheblend_gpt_oss.Planner.Models.{tokens_discrete}
use cacheblend_gpt_oss.ControlPlane.Records.{
  RequestPhase, finished, RequestAllocation, RequestPlan, ValidationReceipt, CacheGroupLayout,
  GroupedBlockAllocation, Controlled, stale_allocation, text_or, invalid_request_plan,
  request_allocation, nonzero_external_tokens, capture, natural_or, full_recompute_external_tokens,
}
use cacheblend_gpt_oss.ControlPlane.Lifecycle.{
  LifecycleState, check_receipt, has_allocation, same_indexes, finish, preempt, hand_off, allocate,
  apply_worker_validation, initial_state, bind_allocation, record_receipt,
}
use cacheblend_gpt_oss.ControlPlane.Coherence.{IsCoherent, CoherentAt}
use cacheblend_gpt_oss.ControlPlane.Steps.{
  Becomes, finish-ok, preempt-ok, hand_off-ok, bind_allocation-ok, record_receipt-ok,
  finished_state, bound_state, receipted_state,
}

pub data Operation : Type 0 where
  allocate_op : CacheGroupLayout → List (List Value) → Value → Operation
  hand_off_op preempt_op finish_op : Operation
  validate_op : ValidationReceipt → Operation

unfoldable pub perform : Operation → LifecycleState → Controlled LifecycleState
perform (allocate_op layout blocks external) s = allocate layout blocks external s
perform hand_off_op s = hand_off s
perform preempt_op s = preempt s
perform finish_op s = finish s
perform (validate_op r) s = apply_worker_validation r s

abbrev pub or_same : LifecycleState → Controlled LifecycleState → LifecycleState
or_same s (ok t) = t
or_same s (raise e) = s

unfoldable pub run : List Operation → LifecycleState → LifecycleState
unfolding perform
run [] s = s
run (o ∷ os) s = run os (or_same s (perform o s))

-- No allocation credits the scheduler with external tokens.
abbrev pub CreditsNone : Option RequestAllocation → Type 0
CreditsNone none = Unit
CreditsNone (some a) = a.external_scheduler_tokens ≡ 0

abbrev pub IsUncredited : LifecycleState → Type 0
IsUncredited s = CreditsNone s.allocation

-- The states that can follow a state: coherent, without credit, for one plan, and with a
-- generation that counts its preemptions.
pub record Follows (s t : LifecycleState) : Type 0 where
  pub coherent : IsCoherent t
  pub uncredited : IsUncredited t
  pub same_plan : t.plan ≡ s.plan
  pub generations :
      t.allocation_generation + s.preemption_count ≡ s.allocation_generation + t.preemption_count
  pub later : s.allocation_generation ≤ t.allocation_generation

request_allocation-uncredited :
    (id g : Value) (b : GroupedBlockAllocation) (x : Value) {a : RequestAllocation}
    → request_allocation id g b x ≡ ok a
    → a.external_scheduler_tokens ≡ 0
unfolding request_allocation
request_allocation-uncredited id g b x {a} h =
    let (i, e, h') = >>=-eq-ok (text_or invalid_request_plan id) _ h in
    let (n, f, h'') = >>=-eq-ok (natural_or stale_allocation g) _ h' in
    let (y, k, h3) = >>=-eq-ok (natural_or nonzero_external_tokens x) _ h'' in ground arith

-- A successful `allocate` binds an allocation without credit, or changes nothing.
pub allocate-ok :
    (layout : CacheGroupLayout) (blocks : List (List Value)) (x : Value) (s : LifecycleState)
    {t : LifecycleState}
    → allocate layout blocks x s ≡ ok t
    → (a : RequestAllocation) × (a.external_scheduler_tokens ≡ 0) × Becomes s (bound_state s a) t
unfolding allocate
allocate-ok layout blocks x s h =
    let (y, e, h') = >>=-eq-ok (natural_or nonzero_external_tokens x) _ h in
    let (u, f, h'') =
      >>=-eq-ok (raise_if (not (y == full_recompute_external_tokens)) nonzero_external_tokens) _
        h' in
    let (g, k, h3) = >>=-eq-ok (capture layout blocks) _ h'' in
    let (a, m, h4) =
      >>=-eq-ok (request_allocation (Value.str s.plan.request_id) (nat s.allocation_generation) g x)
        (λ a. bind_allocation a s) h3 in
    (a, request_allocation-uncredited _ _ g x m, bind_allocation-ok a s h4)

-- The tests pass a receipt for the plan's request, for the state's own allocation, whose two
-- index sets make up the indexes of the planned matches.
pub check_receipt-ok :
    (r : ValidationReceipt) (s : LifecycleState) {u : Unit {0}}
    → check_receipt r s ≡ ok u
    → (r.request_id ≡ s.plan.request_id)
      × (r.allocation.allocation_generation ≡ s.allocation_generation)
      × (has_allocation s r.allocation ≡ true)
      × (same_indexes
            (r.loaded_match_indexes ++ r.rejected_match_indexes)
            (range_from 0 (length s.plan.match_plan.matches))
          ≡ true)
unfolding check_receipt
check_receipt-ok r s h = (
  ground (arith, holds_iff (tokens_discrete r.request_id s.plan.request_id)),
  ground arith,
  ground arith,
  ground arith,
)

-- An accepted receipt passed the tests, and is recorded or was there.
pub apply_worker_validation-ok :
    (r : ValidationReceipt) (s : LifecycleState) {t : LifecycleState}
    → apply_worker_validation r s ≡ ok t
    → (check_receipt r s ≡ ok tt) × Becomes s (receipted_state s r) t
unfolding apply_worker_validation
apply_worker_validation-ok r s h =
    let (u, e, h') = >>=-eq-ok (check_receipt r s) (λ _. record_receipt r s) h in
    (e, record_receipt-ok r s h')

module _ (s : LifecycleState) where
  Follows-Becomes :
      (t u v : LifecycleState)
      → Follows s t
      → (IsCoherent u → Follows s u)
      → Becomes t u v
      → Follows s v
  Follows-Becomes t u v f g (inl e) = subst (Follows s) (sym e) f
  Follows-Becomes t u v f g (inr (c, e)) = subst (Follows s) (sym e) (g c)

  perform-Follows :
      (o : Operation) (t : LifecycleState) {v : LifecycleState}
      → Follows s t
      → perform o t ≡ ok v
      → Follows s v
  unfolding perform
  perform-Follows (allocate_op layout blocks x) t f h =
      let (a, z, b) = allocate-ok layout blocks x t h in
      Follows-Becomes t (bound_state t a) _ f
        (λ c. record {
          coherent = c;
          uncredited = z;
          same_plan = f.same_plan;
          generations = f.generations;
          later = f.later;
        })
        b
  perform-Follows hand_off_op t f h = elim (hand_off-ok t h) [
    | inl e ↦ subst (Follows s) (sym e) f
    | inr (a, e, c, k) ↦ subst (Follows s) (sym k) (record {
      coherent = c;
      uncredited = f.uncredited;
      same_plan = f.same_plan;
      generations = f.generations;
      later = f.later;
    })
  ]
  perform-Follows preempt_op t f h = elim (preempt-ok t h) [
    | inl e ↦ subst (Follows s) (sym e.1) f
    | inr (c, k) ↦ subst (Follows s) (sym k) (record {
      coherent = c;
      uncredited = tt;
      same_plan = f.same_plan;
      generations = omega (arith, f.generations);
      later = omega (arith, f.later);
    })
  ]
  perform-Follows finish_op t f h =
      Follows-Becomes t (finished_state t) _ f
        (λ c. record {
          coherent = c;
          uncredited = f.uncredited;
          same_plan = f.same_plan;
          generations = f.generations;
          later = f.later;
        })
        (finish-ok t h)
  perform-Follows (validate_op r) t f h =
      Follows-Becomes t (receipted_state t r) _ f
        (λ c. record {
          coherent = c;
          uncredited = f.uncredited;
          same_plan = f.same_plan;
          generations = f.generations;
          later = f.later;
        })
        (apply_worker_validation-ok r t h).1

  or_same-Follows :
      (t : LifecycleState) (r : Controlled LifecycleState)
      → ((v : LifecycleState) → r ≡ ok v → Follows s v)
      → Follows s t
      → Follows s (or_same t r)
  or_same-Follows t (ok v) g f = g v refl
  or_same-Follows t (raise e) g f = f

  run-Follows_from : (os : List Operation) (t : LifecycleState) → Follows s t → Follows s (run os t)
  unfolding run
  run-Follows_from [] t f = f
  run-Follows_from (o ∷ os) t f =
      run-Follows_from os (or_same t (perform o t))
        (or_same-Follows t (perform o t) (λ v e. perform-Follows o t f e) f)

Follows-refl : (s : LifecycleState) → IsCoherent s → IsUncredited s → Follows s s
Follows-refl s c u = record {
  coherent = c;
  uncredited = u;
  same_plan = refl;
  generations = refl;
  later = omega arith;
}

-- Whatever operations follow, failing ones included, a coherent state without credit leads to one
-- for the same plan, whose generation has moved on by the preemptions in between.
pub run-Follows :
    (os : List Operation) (s : LifecycleState)
    → IsCoherent s
    → IsUncredited s
    → Follows s (run os s)
run-Follows os s c u = run-Follows_from s os s (Follows-refl s c u)

CoherentAt-finished :
    (t : LifecycleState) (ph : RequestPhase)
    → t.phase ≡ ph
    → ph ≡ finished
    → IsCoherent t
    → (a : RequestAllocation) × (r : ValidationReceipt) × (t.worker_validation ≡ some r)
      × (r.allocation ≡ a)
      × (a.allocation_generation ≡ t.allocation_generation)
      × (t.allocation ≡ some a)
CoherentAt-finished t ph e f c =
    let (a, m, r, b, k, v, o) = subst (λ p. CoherentAt p t) (e ∙ f) c in (a, r, v, o, b.2, b.0)

-- A request that finished, however it got there from its lookup, has a worker's receipt for the
-- allocation of its last generation.
pub finished_validated :
    (os : List Operation) (p : RequestPlan)
    → (run os (initial_state p)).phase ≡ finished
    → (a : RequestAllocation) × (r : ValidationReceipt) × ((run os
          (initial_state p)).worker_validation
        ≡ some r)
      × (r.allocation ≡ a)
      × (a.allocation_generation ≡ (run os (initial_state p)).preemption_count)
      × ((run os (initial_state p)).allocation ≡ some a)
finished_validated os p e =
    let f = run-Follows os (initial_state p) (refl, refl, refl) tt in
    let (a, r, v, o, g, b) = CoherentAt-finished (run os (initial_state p)) _ refl e f.coherent in
    (a, r, v, o, omega (arith, f.generations), b)
