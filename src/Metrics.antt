-- ===== src/Metrics.antt =====
-- Request metrics and their consistency checks: src/cacheblend_gpt_oss/metrics/request.py.
-- Counters are integers, as annotated, so that the code `invalid_counter_type` is never given. Of a timer or an error
-- the checks read only what `Reading` tells apart.
pub mod Laws
use cacheblend_gpt_oss.Prelude.{
  ℕ, ◌≡◌, ℤ, pos, negsuc, is_negative, ltb_ℤ, eqb_ℤ, ◌+ℤ◌, ◌-ℤ◌, Bool, true, false, not, ◌&&◌, List,
  [], ◌∷◌, ◌++◌, Option, none, some, if◌then◌else◌, Result, ok, raise,
}

pub data MetricField : Type 0 where
  prompt_tokens reusable_documents_requested reusable_documents_hit : MetricField
  reusable_document_tokens_requested kv_tokens_found kv_tokens_loaded : MetricField
  kv_tokens_rejected tokens_recomputed prefill_tokens_avoided : MetricField
  lookup_latency_seconds transfer_latency_seconds : MetricField
  position_correction_latency_seconds selective_recomputation_latency_seconds : MetricField
  ttft_seconds prefill_latency_seconds store_latency_seconds queue_latency_seconds : MetricField
  decode_latency_seconds end_to_end_latency_seconds : MetricField
  max_abs_logit_error mean_abs_logit_error : MetricField

pub data MetricInvariantCode : Type 0 where
  invalid_counter_type negative_counter invalid_timer_type invalid_error_type : MetricInvariantCode
  nonfinite_or_negative_timer nonfinite_or_negative_error : MetricInvariantCode
  document_hits_exceed_requests reusable_tokens_exceed_prompt : MetricInvariantCode
  found_tokens_exceed_requested loaded_tokens_exceed_found : MetricInvariantCode
  rejected_token_reconciliation_failed recomputed_tokens_exceed_prompt : MetricInvariantCode
  saved_tokens_exceed_prompt saved_token_reconciliation_failed : MetricInvariantCode
  full_recompute_reported_savings : MetricInvariantCode

pub record RequestMetricCounters : Type 0 where
  pub prompt_tokens : ℤ
  pub reusable_documents_requested : ℤ
  pub reusable_documents_hit : ℤ
  pub reusable_document_tokens_requested : ℤ
  pub kv_tokens_found : ℤ
  pub kv_tokens_loaded : ℤ
  pub kv_tokens_rejected : ℤ
  pub tokens_recomputed : ℤ
  pub prefill_tokens_avoided : ℤ

abbrev pub is_full_recomputation : RequestMetricCounters → Bool
is_full_recomputation c = eqb_ℤ c.tokens_recomputed c.prompt_tokens

-- A value that is no number; a NaN, an infinity or a negative number; any other number.
pub data Reading : Type 0 where
  wrong_type nonfinite_or_negative valid : Reading

pub record RequestMetricTimers : Type 0 where
  pub lookup_latency_seconds : Reading
  pub transfer_latency_seconds : Reading
  pub position_correction_latency_seconds : Reading
  pub selective_recomputation_latency_seconds : Reading
  pub ttft_seconds : Option Reading
  pub prefill_latency_seconds : Reading
  pub store_latency_seconds : Reading
  pub queue_latency_seconds : Option Reading
  pub decode_latency_seconds : Option Reading
  pub end_to_end_latency_seconds : Option Reading

pub record RequestCorrectnessMetrics : Type 0 where
  pub max_abs_logit_error : Option Reading
  pub mean_abs_logit_error : Option Reading

pub record RequestMetrics : Type 0 where
  pub counters : RequestMetricCounters
  pub timers : RequestMetricTimers
  pub correctness : RequestCorrectnessMetrics

pub record MetricInvariantIssue : Type 0 where
  pub code : MetricInvariantCode
  pub field : Option MetricField

abbrev pub Issues : Type 0
Issues = List MetricInvariantIssue

-- `if test: issues.append(...)`
abbrev pub issue_if : Bool → MetricInvariantCode → Option MetricField → Issues
issue_if true c f = record { code = c; field = f } ∷ []
issue_if false c f = []

unfoldable pub counter_sign_issues : List (MetricField × ℤ) → Issues
counter_sign_issues [] = []
counter_sign_issues ((f, v) ∷ l) =
    issue_if (is_negative v) negative_counter (some f) ++ counter_sign_issues l

abbrev pub reading_issue :
    MetricInvariantCode → MetricInvariantCode → MetricField → Option Reading → Issues
reading_issue wrong bad f none = []
reading_issue wrong bad f (some wrong_type) = record { code = wrong; field = some f } ∷ []
reading_issue wrong bad f (some nonfinite_or_negative) = record { code = bad; field = some f } ∷ []
reading_issue wrong bad f (some valid) = []

unfoldable pub reading_issues :
    MetricInvariantCode → MetricInvariantCode → List (MetricField × Option Reading) → Issues
reading_issues wrong bad [] = []
reading_issues wrong bad ((f, r) ∷ l) = reading_issue wrong bad f r ++ reading_issues wrong bad l

abbrev pub counter_fields : RequestMetricCounters → List (MetricField × ℤ)
counter_fields c =
    (MetricField.prompt_tokens, c.prompt_tokens)
    ∷ (MetricField.reusable_documents_requested, c.reusable_documents_requested)
    ∷ (MetricField.reusable_documents_hit, c.reusable_documents_hit)
    ∷ (MetricField.reusable_document_tokens_requested, c.reusable_document_tokens_requested)
    ∷ (MetricField.kv_tokens_found, c.kv_tokens_found)
    ∷ (MetricField.kv_tokens_loaded, c.kv_tokens_loaded)
    ∷ (MetricField.kv_tokens_rejected, c.kv_tokens_rejected)
    ∷ (MetricField.tokens_recomputed, c.tokens_recomputed)
    ∷ (MetricField.prefill_tokens_avoided, c.prefill_tokens_avoided)
    ∷ []

abbrev pub timer_fields : RequestMetricTimers → List (MetricField × Option Reading)
timer_fields t =
    (MetricField.lookup_latency_seconds, some t.lookup_latency_seconds)
    ∷ (MetricField.transfer_latency_seconds, some t.transfer_latency_seconds)
    ∷ (MetricField.position_correction_latency_seconds, some t.position_correction_latency_seconds)
    ∷ (
      MetricField.selective_recomputation_latency_seconds,
      some t.selective_recomputation_latency_seconds,
    )
    ∷ (MetricField.ttft_seconds, t.ttft_seconds)
    ∷ (MetricField.prefill_latency_seconds, some t.prefill_latency_seconds)
    ∷ (MetricField.store_latency_seconds, some t.store_latency_seconds)
    ∷ (MetricField.queue_latency_seconds, t.queue_latency_seconds)
    ∷ (MetricField.decode_latency_seconds, t.decode_latency_seconds)
    ∷ (MetricField.end_to_end_latency_seconds, t.end_to_end_latency_seconds)
    ∷ []

abbrev pub error_fields : RequestCorrectnessMetrics → List (MetricField × Option Reading)
error_fields e =
    (MetricField.max_abs_logit_error, e.max_abs_logit_error)
    ∷ (MetricField.mean_abs_logit_error, e.mean_abs_logit_error)
    ∷ []

-- `expected_saved_tokens >= 0` and the difference that it guards.
abbrev pub saved_mismatch : RequestMetricCounters → Bool
saved_mismatch c =
    let expected = c.prompt_tokens -ℤ c.tokens_recomputed in
    not (is_negative expected) && not (eqb_ℤ c.prefill_tokens_avoided expected)

unfoldable pub counter_relation_issues : RequestMetricCounters → Issues
counter_relation_issues c =
    issue_if (ltb_ℤ c.reusable_documents_requested c.reusable_documents_hit)
      document_hits_exceed_requests (some MetricField.reusable_documents_hit)
    ++ (issue_if (ltb_ℤ c.prompt_tokens c.reusable_document_tokens_requested)
          reusable_tokens_exceed_prompt (some MetricField.reusable_document_tokens_requested)
        ++ (issue_if (ltb_ℤ c.reusable_document_tokens_requested c.kv_tokens_found)
              found_tokens_exceed_requested (some MetricField.kv_tokens_found)
            ++ (issue_if (ltb_ℤ c.kv_tokens_found c.kv_tokens_loaded) loaded_tokens_exceed_found
                  (some MetricField.kv_tokens_loaded)
                ++ (issue_if
                      (not (eqb_ℤ c.kv_tokens_found (c.kv_tokens_loaded +ℤ c.kv_tokens_rejected)))
                      rejected_token_reconciliation_failed none
                    ++ (issue_if (ltb_ℤ c.prompt_tokens c.tokens_recomputed)
                          recomputed_tokens_exceed_prompt (some MetricField.tokens_recomputed)
                        ++ (issue_if (ltb_ℤ c.prompt_tokens c.prefill_tokens_avoided)
                              saved_tokens_exceed_prompt (some MetricField.prefill_tokens_avoided)
                            ++ (issue_if (saved_mismatch c) saved_token_reconciliation_failed
                                  (some MetricField.prefill_tokens_avoided)
                                ++ issue_if
                                    (is_full_recomputation c
                                      && not (eqb_ℤ c.prefill_tokens_avoided (pos 0)))
                                    full_recompute_reported_savings
                                    (some MetricField.prefill_tokens_avoided))))))))

unfoldable pub validate_request_metrics : RequestMetrics → Issues
unfolding counter_sign_issues reading_issues counter_relation_issues
validate_request_metrics m =
    counter_sign_issues (counter_fields m.counters)
    ++ (reading_issues invalid_timer_type nonfinite_or_negative_timer (timer_fields m.timers)
        ++ (reading_issues invalid_error_type nonfinite_or_negative_error
              (error_fields m.correctness)
            ++ counter_relation_issues m.counters))

unfoldable pub require_valid_request_metrics : RequestMetrics → Result Issues (Unit {0})
unfolding validate_request_metrics
require_valid_request_metrics m = elim (validate_request_metrics m) [
  | [] ↦ ok tt
  | i ∷ is ↦ raise (i ∷ is)
]
