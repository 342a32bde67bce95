-- ===== src/Storage.antt =====
-- The storage side: src/cacheblend_gpt_oss/storage.
pub mod Types
pub mod Receipts
pub mod Transport
pub mod Naming
pub mod Sidecar
pub mod Lookup
