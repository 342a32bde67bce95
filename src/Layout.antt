-- ===== src/Layout.antt =====
-- The hybrid KV-cache layout of GPT-OSS-20B and its scatter plans:
-- src/cacheblend_gpt_oss/gpt_oss/layout.py.
pub mod Names
pub mod Groups
pub mod Layers
pub mod Scatter
