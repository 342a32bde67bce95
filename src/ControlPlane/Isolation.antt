-- ===== src/ControlPlane/Isolation.antt =====
-- Calls on the control plane of src/cacheblend_gpt_oss/connector/control_plane.py, and the requests
-- that they are not for.
use cacheblend_gpt_oss.Prelude.{
  ◌≡◌, ◌≢◌, refl, ◌∙◌, List, [], ◌∷◌, Text, Value, ok, raise, ◌>>=◌, inl, inr, false, get-put,
  get-remove, same, holds, All, Result-cases, Option-cases, Bool-cases,
}
use cacheblend_gpt_oss.Planner.Models.{TokenSegment, tokens_discrete}
use cacheblend_gpt_oss.Planner.Matching.{MatchPlan}
use cacheblend_gpt_oss.ControlPlane.Records.{
  Controlled, HandoffMetadata, ValidationReceipt, RequestPlan, request_plan,
}
use cacheblend_gpt_oss.ControlPlane.Lifecycle.{
  LifecycleState, initial_state, check_state, RequestPlan-discrete,
}
use cacheblend_gpt_oss.ControlPlane.Plane.{
  Plane, state_of, commit, install, lookup, allocate, handoff, accept_handoff, validate_worker,
  apply_worker_validation, preempt, finish, discard, require_state, receipt_for, has_metadata,
}

pub data Call : Type 0 where
  lookup_call : Text → Value → List TokenSegment → MatchPlan → Call
  allocate_call : Text → List (List Value) → Value → Call
  handoff_call preempt_call finish_call discard_call : Text → Call
  accept_call : HandoffMetadata → Call
  validate_call : Text → List Value → List Value → Call
  apply_call : ValidationReceipt → Call

-- The request that a call is for.
abbrev pub target : Call → Text
target (lookup_call id prompt segments matches) = id
target (allocate_call id blocks external) = id
target (handoff_call id) = id
target (preempt_call id) = id
target (finish_call id) = id
target (discard_call id) = id
target (accept_call m) = m.plan.request_id
target (validate_call id loaded rejected) = id
target (apply_call r) = r.request_id

-- The plane that a call leaves, whether it returned or raised.
unfoldable pub call : Call → Plane → Plane
call (lookup_call id prompt segments matches) p = (lookup id prompt segments matches p).1
call (allocate_call id blocks external) p = (allocate id blocks external p).1
call (handoff_call id) p = (handoff id p).1
call (preempt_call id) p = (preempt id p).1
call (finish_call id) p = (finish id p).1
call (discard_call id) p = (discard id p).1
call (accept_call m) p = (accept_handoff m p).1
call (validate_call id loaded rejected) p = (validate_worker id loaded rejected p).1
call (apply_call r) p = (apply_worker_validation r p).1

unfoldable pub calls : List Call → Plane → Plane
unfolding call
calls [] p = p
calls (c ∷ cs) p = calls cs (call c p)

-- The states of the other request are as they were.
abbrev Leaves : Text → Plane → Plane → Type 0
Leaves other p q = (state_of q other ≡ state_of p other) × (q.group_layout ≡ p.group_layout)

different : (id other : Text) → id ≢ other → same tokens_discrete id other ≡ false
different id other n = elim (tokens_discrete id other) as (λ d. holds d ≡ false) [
  | yes e ↦ absurd (n e)
  | no k ↦ refl
]

commit-Leaves :
    (id other : Text) (r : Controlled LifecycleState) (p : Plane)
    → id ≢ other
    → Leaves other p (commit id r p).1
commit-Leaves id other (ok s) p n =
    (get-put tokens_discrete id other s p.states ∙ (rw (different id other n) refl), refl)
commit-Leaves id other (raise e) p n = (refl, refl)

install-Leaves :
    (id other : Text) (plan : RequestPlan) (p : Plane)
    → id ≢ other
    → Leaves other p (install id plan p).1
unfolding install
install-Leaves id other plan p n = elim (Option-cases (state_of p id)) [
  | inl e ↦ rw (e, install) (commit-Leaves id other (check_state (initial_state plan)) p n)
  | inr (s, e) ↦ elim (Bool-cases (same RequestPlan-discrete s.plan plan)) [
    | inl t ↦ rw (e, install, t) (refl, refl)
    | inr f ↦ rw (e, install, f) (refl, refl)
  ]
]

call-Leaves : (c : Call) (other : Text) (p : Plane) → target c ≢ other → Leaves other p (call c p)
unfolding call lookup allocate handoff preempt finish discard accept_handoff validate_worker
    apply_worker_validation
call-Leaves (lookup_call id prompt segments matches) other p n =
    elim (Result-cases (request_plan (Value.str id) prompt segments matches)) [
      | inl (plan, e) ↦ rw (e, call, lookup) (install-Leaves id other plan p n)
      | inr (x, e) ↦ rw (e, call, lookup) (refl, refl)
    ]
call-Leaves (allocate_call id blocks external) other p n = commit-Leaves id other _ p n
call-Leaves (handoff_call id) other p n = commit-Leaves id other _ p n
call-Leaves (preempt_call id) other p n = commit-Leaves id other _ p n
call-Leaves (finish_call id) other p n = commit-Leaves id other _ p n
call-Leaves (discard_call id) other p n =
    (get-remove tokens_discrete id other p.states ∙ (rw (different id other n) refl), refl)
call-Leaves (accept_call m) other p n = elim (Option-cases (state_of p m.plan.request_id)) [
  | inl e ↦ rw (e, call, accept_handoff) (commit-Leaves m.plan.request_id other _ p n)
  | inr (s, e) ↦ elim (Bool-cases (has_metadata s m)) [
    | inl t ↦ rw (e, call, accept_handoff, t) (refl, refl)
    | inr f ↦ rw (e, call, accept_handoff, f) (refl, refl)
  ]
]
call-Leaves (validate_call id loaded rejected) other p n =
    elim (Result-cases (require_state p id >>= receipt_for id loaded rejected)) [
      | inl (r, e) ↦ rw (e, call, validate_worker) (commit-Leaves id other _ p n)
      | inr (x, e) ↦ rw (e, call, validate_worker) (refl, refl)
    ]
call-Leaves (apply_call r) other p n = commit-Leaves r.request_id other _ p n

-- Whatever calls are made for other requests, failing ones included, a request's state and the
-- group layout are as they were.
pub calls-isolated :
    (cs : List Call) (other : Text) (p : Plane)
    → All (λ c. target c ≢ other) cs
    → (state_of (calls cs p) other ≡ state_of p other)
      × ((calls cs p).group_layout ≡ p.group_layout)
unfolding calls
calls-isolated [] other p n = (refl, refl)
calls-isolated (c ∷ cs) other p n =
    let (s, g) = call-Leaves c other p n.0 in
    let (s', g') = calls-isolated cs other (call c p) n.1 in (s' ∙ s, g' ∙ g)
