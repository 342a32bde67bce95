-- ===== src/Targets.antt =====
-- The one runtime that the program supports: src/cacheblend_gpt_oss/targets.py.
use cacheblend_gpt_oss.Prelude.{Text, codes}

pub record RuntimeTarget : Type 0 where
  pub model_id : Text
  pub vllm_version : Text
  pub lmcache_version : Text
  pub torch_version : Text
  pub cuda_runtime : Text
  pub gpu_name : Text

abbrev pub pinned_target : RuntimeTarget
pinned_target = record {
  model_id = codes "openai/gpt-oss-20b";
  vllm_version = codes "0.19.1";
  lmcache_version = codes "0.4.3";
  torch_version = codes "2.10.0+cu128";
  cuda_runtime = codes "12.8";
  gpu_name = codes "NVIDIA A100-SXM4-80GB";
}
