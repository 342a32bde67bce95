-- ===== src/Tests/Planes.antt =====
-- Runs of the whole control plane on small inputs.
use cacheblend_gpt_oss.Prelude.{◌≡◌, List, [], ◌∷◌, nat}
use cacheblend_gpt_oss.ControlPlane.Plane.{Plane, state_of}
use cacheblend_gpt_oss.ControlPlane.Isolation.{
  Call, allocate_call, preempt_call, discard_call, calls, calls-isolated,
}
use cacheblend_gpt_oss.Tests.{group_layout, allocated_state}

abbrev plane : Plane
plane = record {
  group_layout = group_layout;
  states = (1 ∷ [], allocated_state) ∷ (2 ∷ [], allocated_state) ∷ [];
}

abbrev others : List Call
others = preempt_call (2 ∷ []) ∷ allocate_call (3 ∷ []) [] (nat 1) ∷ discard_call (2 ∷ []) ∷ []

calls-isolated_example :
    (state_of (calls others plane) (1 ∷ []) ≡ state_of plane (1 ∷ []))
    × ((calls others plane).group_layout ≡ group_layout)
calls-isolated_example =
    calls-isolated others (1 ∷ []) plane ((λ e. cc), ((λ e. cc), ((λ e. cc), tt)))
