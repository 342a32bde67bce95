-- ===== src/ControlPlane.antt =====
-- The request control plane of the full-recompute milestone:
-- src/cacheblend_gpt_oss/connector/control_plane.py.
pub mod Records
pub mod Lifecycle
pub mod Plane
pub mod Coherence
pub mod Steps
pub mod Lifetime
pub mod Preemption
pub mod Handshake
pub mod Accepted
pub mod Isolation
pub mod Completion
