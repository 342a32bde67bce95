-- ===== src/Staging.antt =====
-- The staging tensor that the worker shares with LMCache: its configuration, its leases and the
-- runtime that owns it. src/cacheblend_gpt_oss/vllm_compat/v0_19_1/staging.py.
pub mod Config
pub mod Steps
pub mod Runtime
pub mod Triples
pub mod Soundness
pub mod Leases
pub mod Refusals
pub mod Release
pub mod Life
