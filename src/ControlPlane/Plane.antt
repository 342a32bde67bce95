-- ===== src/ControlPlane/Plane.antt =====
-- `RequestControlPlane`: the states of all requests, by request id.
-- src/cacheblend_gpt_oss/connector/control_plane.py. A method returns its result, or the error
-- that it raised, beside the plane that it leaves.
use cacheblend_gpt_oss.Prelude.{
  ℕ, Bool, false, List, Text, Value, Option, none, some, ok, raise, ◌>>=◌, get, put, remove, same,
  if◌then◌else◌,
}
use cacheblend_gpt_oss.Planner.Models.{TokenSegment, tokens_discrete}
use cacheblend_gpt_oss.Planner.Matching.{MatchPlan}
use cacheblend_gpt_oss.ControlPlane.Records.{
  Controlled, CacheGroupLayout, HandoffMetadata, ValidationReceipt, unknown_request,
  duplicate_request_conflict, lifecycle_misuse, request_plan, validation_receipt,
  plan_external_tokens, RequestPlan,
}
use cacheblend_gpt_oss.ControlPlane.Lifecycle
use cacheblend_gpt_oss.ControlPlane.Lifecycle.{
  LifecycleState, initial_state, RequestPlan-discrete, HandoffMetadata-discrete,
}

pub record Plane : Type 0 where
  pub group_layout : CacheGroupLayout
  pub states : List (Text × LifecycleState)

abbrev pub Method : Type 0 → Type 0
Method A = Plane → Controlled A × Plane

abbrev pub state_of : Plane → Text → Option LifecycleState
state_of p id = get tokens_discrete id p.states

-- `self._states[request_id] = state`
abbrev pub store : Text → LifecycleState → Plane → Plane
store id s p = record p { states = put tokens_discrete id s p.states }

unfoldable pub require_state : Plane → Text → Controlled LifecycleState
unfolding get
require_state p id = elim (state_of p id) [ none ↦ raise unknown_request | some s ↦ ok s ]

-- The shape of the methods: a step of one state, stored only when it did not raise.
abbrev pub commit : Text → Controlled LifecycleState → Method LifecycleState
commit id (ok s) p = (ok s, store id s p)
commit id (raise e) p = (raise e, p)

unfoldable pub install : Text → RequestPlan → Method LifecycleState
unfolding get put Lifecycle.check_state
install id plan p = elim (state_of p id) [
  | none ↦ commit id (Lifecycle.check_state (initial_state plan)) p
  | some s ↦
      if same RequestPlan-discrete s.plan plan
      then (ok s, p)
      else (raise duplicate_request_conflict, p)
]

-- `lookup`; the request id is a `str` once the plan was built.
unfoldable pub lookup : Text → Value → List TokenSegment → MatchPlan → Method LifecycleState
unfolding install request_plan
lookup id prompt segments matches p = elim (request_plan (Value.str id) prompt segments matches) [
  | ok plan ↦ install id plan p
  | raise e ↦ (raise e, p)
]

unfoldable pub external_scheduler_tokens : Plane → Text → Controlled ℕ
unfolding require_state
external_scheduler_tokens p id = do s ← require_state p id; ok (plan_external_tokens s.plan)

unfoldable pub allocate : Text → List (List Value) → Value → Method LifecycleState
unfolding require_state Lifecycle.allocate put
allocate id blocks external p =
    commit id (require_state p id >>= Lifecycle.allocate p.group_layout blocks external) p

abbrev pub metadata_of : LifecycleState → Controlled HandoffMetadata
metadata_of s = elim s.handoff [ none ↦ raise lifecycle_misuse | some m ↦ ok m ]

unfoldable pub handoff : Text → Method HandoffMetadata
unfolding require_state Lifecycle.hand_off put
handoff id p =
    let (r, p') = commit id (require_state p id >>= Lifecycle.hand_off) p in (r >>= metadata_of, p')

abbrev pub has_metadata : LifecycleState → HandoffMetadata → Bool
has_metadata s m = elim s.handoff [ none ↦ false | some k ↦ same HandoffMetadata-discrete k m ]

unfoldable pub accept_handoff : HandoffMetadata → Method LifecycleState
unfolding get put Lifecycle.from_handoff
accept_handoff m p = elim (state_of p m.plan.request_id) [
  | none ↦ commit m.plan.request_id (Lifecycle.from_handoff m p.group_layout) p
  | some s ↦ if has_metadata s m then (ok s, p) else (raise duplicate_request_conflict, p)
]

abbrev pub receipt_for :
    Text → List Value → List Value → LifecycleState → Controlled ValidationReceipt
receipt_for id loaded rejected s = elim s.allocation [
  | none ↦ raise lifecycle_misuse
  | some a ↦ validation_receipt id a loaded rejected
]

unfoldable pub validate_worker : Text → List Value → List Value → Method ValidationReceipt
unfolding require_state validation_receipt Lifecycle.apply_worker_validation put
validate_worker id loaded rejected p =
    elim (require_state p id >>= receipt_for id loaded rejected) [
      | ok receipt ↦
          let (r, p') =
            commit id (require_state p id >>= Lifecycle.apply_worker_validation receipt) p in
          (r >>= λ _. ok receipt, p')
      | raise e ↦ (raise e, p)
    ]

unfoldable pub apply_worker_validation : ValidationReceipt → Method LifecycleState
unfolding require_state Lifecycle.apply_worker_validation put
apply_worker_validation r p =
    commit r.request_id (require_state p r.request_id >>= Lifecycle.apply_worker_validation r) p

unfoldable pub preempt : Text → Method LifecycleState
unfolding require_state Lifecycle.preempt put
preempt id p = commit id (require_state p id >>= Lifecycle.preempt) p

unfoldable pub finish : Text → Method LifecycleState
unfolding require_state Lifecycle.finish put
finish id p = commit id (require_state p id >>= Lifecycle.finish) p

-- `discard` never raises.
unfoldable pub discard : Text → Plane → Option LifecycleState × Plane
unfolding get remove
discard id p = (state_of p id, record p { states = remove tokens_discrete id p.states })
