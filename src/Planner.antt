-- ===== src/Planner.antt =====
-- The cache-match planner: src/cacheblend_gpt_oss/planner.
pub mod Models
pub mod Coverage
pub mod Fingerprint
pub mod Selection
pub mod Matching
pub mod RecordIndex
pub mod Segmentation
