-- ===== src/Tests/Stages.antt =====
-- Runs of staging on small inputs: it is opened, lent for a store, and released.
use cacheblend_gpt_oss.Prelude.{
  ◌≡◌, refl, [], ◌∷◌, true, false, ℕ_discrete, nat, str, bytes, bool, none, some, ok, raise, arith,
}
use cacheblend_gpt_oss.Planner.Models.{tokens_discrete}
use cacheblend_gpt_oss.Staging.Config.{
  StagingConfig, staging_config, staging_shape, staging_dtype, contiguous_stride, other_exception,
  validate_event_handle,
}
use cacheblend_gpt_oss.Targets.{pinned_target}
use cacheblend_gpt_oss.Staging.Steps
use cacheblend_gpt_oss.Staging.Steps.{
  StagingRuntime, created, registered, transfer_active, in_state,
}
use cacheblend_gpt_oss.Staging.Runtime.{
  Versions, staging_runtime, EventAnswers, OpenAnswers, open_staging, close,
}
use cacheblend_gpt_oss.Staging.Triples.{Meets}
use cacheblend_gpt_oss.Staging.Soundness.{IsSound, IsOpened, Stopped, open_staging-Meets}
use cacheblend_gpt_oss.Staging.Release.{ClosedBy, IsRetained, close-Meets}
use cacheblend_gpt_oss.Staging.Life.{new, opened, closed_by, SoundFor, Reached-SoundFor}

-- `cuda:3`
abbrev config : StagingConfig
config = record {
  instance_id = 7;
  token_capacity = 512;
  device = 99 ∷ 117 ∷ 100 ∷ 97 ∷ 58 ∷ 51 ∷ [];
}

config_built : staging_config (λ c. none) (nat 7) (nat 512) (str config.device) ≡ ok config
unfolding staging_config tokens_discrete ℕ_discrete
config_built = refl

abbrev versions : Versions
versions = record {
  torch_version = pinned_target.torch_version;
  cuda_runtime = pinned_target.cuda_runtime;
  lmcache_version = pinned_target.lmcache_version;
}

abbrev new_staging : StagingRuntime
new_staging = record {
  config = config;
  state = created;
  tensor = none;
  wrapper = none;
  event = none;
  event_handle = none;
  registration_may_exist = false;
  lmcache_may_hold = false;
}

new_staging_built : staging_runtime config (ok versions) ≡ ok new_staging
unfolding staging_runtime tokens_discrete ℕ_discrete
new_staging_built = refl

abbrev answers : EventAnswers
answers = record {
  synchronize_device = ok tt;
  record_event = ok tt;
  synchronize_event = ok tt;
  event_ipc_handle = ok (bytes (9 ∷ []));
}

abbrev open_answers : OpenAnswers
open_answers = record {
  validate_device = ok tt;
  allocate = ok 1;
  tensor_report = ok (record {
    shape = staging_shape config;
    dtype_name = staging_dtype;
    device_name = config.device;
    contiguous = bool true;
    storage_offset = nat 0;
  });
  create_event = ok 2;
  export = answers;
  make_wrapper = ok 3;
  wrapper_report = ok (record {
    shape = staging_shape config;
    dtype_name = staging_dtype;
    storage_offset = nat 0;
    stride = contiguous_stride (staging_shape config);
    device_uuid = 5 ∷ [];
    expected_device_uuid = 5 ∷ [];
    has_handle = bool true;
  });
  register = ok tt;
}

abbrev open_runtime : StagingRuntime
open_runtime = record {
  config = config;
  state = registered;
  tensor = some 1;
  wrapper = some 3;
  event = some 2;
  event_handle = some (9 ∷ []);
  registration_may_exist = true;
  lmcache_may_hold = true;
}

opens : open_staging open_answers new_staging ≡ (ok 1, open_runtime)
unfolding open_staging Steps.◌>>=◌ Steps.◌>>◌ validate_event_handle tokens_discrete ℕ_discrete
opens = refl

new_staging-IsSound : IsSound new_staging
new_staging-IsSound = ground arith

open_runtime-IsSound : IsSound open_runtime
open_runtime-IsSound = ground arith

open_staging-Meets_example :
    Meets
      (IsOpened open_answers config)
      (Stopped config created)
      (open_staging open_answers new_staging)
open_staging-Meets_example = open_staging-Meets open_answers new_staging new_staging-IsSound refl

close-Meets_example :
    Meets
      (λ _. ClosedBy (raise other_exception) open_runtime)
      (IsRetained (raise other_exception) open_runtime)
      (close (raise other_exception) open_runtime)
close-Meets_example = close-Meets (raise other_exception) open_runtime open_runtime-IsSound refl

-- Opened, lent, given back, and released when LMCache had refused that once.
Reached-SoundFor_example :
    SoundFor config
      (close (ok tt) (close (raise other_exception) (open_staging open_answers new_staging).1).1).1
Reached-SoundFor_example =
    Reached-SoundFor config
      (close (ok tt) (close (raise other_exception) (open_staging open_answers new_staging).1).1).1
      (closed_by _ (ok tt) (
        closed_by _ (raise other_exception)
          (opened new_staging open_answers (new (ok versions) new_staging new_staging_built))))

abbrev lent_runtime : StagingRuntime
lent_runtime = in_state transfer_active open_runtime
