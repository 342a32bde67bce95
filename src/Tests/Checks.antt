-- ===== src/Tests/Checks.antt =====
-- Runs of the metric and the row checks on small inputs.
use cacheblend_gpt_oss.Prelude.{
  ◌≡◌, ◌↔◌, refl, List, [], ◌∷◌, nat, none, some, ok, arith, not, sorted, ℕ_discrete,
}
use cacheblend_gpt_oss.Planner.Models.{TokenRange}
use cacheblend_gpt_oss.Planner.Coverage.{covers}
use cacheblend_gpt_oss.Metrics.{
  RequestMetricTimers, RequestCorrectnessMetrics, valid, validate_request_metrics, timer_fields,
  error_fields,
}
use cacheblend_gpt_oss.Metrics.Laws.{
  Counts, counters_of, IsReconciled, IsQuiet, validate_request_metrics-nil,
}
use cacheblend_gpt_oss.Selective.{
  ranges_discrete, LayerRowSelection, normalize_ranges, layer_row_selection, cached_ranges,
}
use cacheblend_gpt_oss.Selective.Rows.{layer_row_selection-rows}
use cacheblend_gpt_oss.Tests.{span}

abbrev counts : Counts
counts = record {
  prompt = 10;
  documents = 2;
  hits = 1;
  requested = 6;
  found = 4;
  loaded = 3;
  rejected = 1;
  recomputed = 10;
  avoided = 0;
}

abbrev timers : RequestMetricTimers
timers = record {
  lookup_latency_seconds = valid;
  transfer_latency_seconds = valid;
  position_correction_latency_seconds = valid;
  selective_recomputation_latency_seconds = valid;
  ttft_seconds = none;
  prefill_latency_seconds = valid;
  store_latency_seconds = valid;
  queue_latency_seconds = none;
  decode_latency_seconds = some valid;
  end_to_end_latency_seconds = none;
}

abbrev errors : RequestCorrectnessMetrics
errors = record { max_abs_logit_error = none; mean_abs_logit_error = some valid }

validate_request_metrics-nil_example :
    (validate_request_metrics
        (record { counters = counters_of counts; timers = timers; correctness = errors })
      ≡ [])
    ↔ (IsReconciled counts × IsQuiet (timer_fields timers) × IsQuiet (error_fields errors))
validate_request_metrics-nil_example = validate_request_metrics-nil counts timers errors

abbrev ranges : List TokenRange
ranges = span 1 3 ∷ span 3 4 ∷ []

ranges_pass : normalize_ranges (nat 6) ranges ≡ ok ranges
unfolding normalize_ranges ranges_discrete sorted ℕ_discrete
ranges_pass = refl

abbrev selection : LayerRowSelection
selection = record { layer_index = 2; prompt_tokens = 6; recompute_ranges = ranges }

selection_built : layer_row_selection (nat 2) (nat 6) ranges ≡ ok selection
unfolding layer_row_selection ranges_discrete sorted ℕ_discrete
selection_built = refl

layer_row_selection-rows_example :
    covers (cached_ranges selection) 4 ≡ not (covers selection.recompute_ranges 4)
layer_row_selection-rows_example =
    layer_row_selection-rows (nat 2) (nat 6) ranges 4 selection_built (omega arith)
