-- ===== src/Metrics/Laws.antt =====
-- When the checks of src/cacheblend_gpt_oss/metrics/request.py find nothing.
use cacheblend_gpt_oss.Prelude.{
  ℕ, ◌+◌, ◌≤◌, ◌≡◌, refl, pos, Bool, true, false, List, [], ◌∷◌, ◌++◌, none, some, arith, not, ◌&&◌,
  ltb_ℤ, eqb_ℤ, ◌+ℤ◌, ◌↔◌, ◌⊎◌, inl, inr, Option,
}
use cacheblend_gpt_oss.Metrics.{
  RequestMetricCounters, RequestMetricTimers, RequestCorrectnessMetrics, Reading, wrong_type,
  nonfinite_or_negative, valid, Issues, issue_if, counter_relation_issues, counter_sign_issues,
  counter_fields, reading_issues, timer_fields, error_fields, document_hits_exceed_requests,
  reusable_tokens_exceed_prompt, found_tokens_exceed_requested, loaded_tokens_exceed_found,
  rejected_token_reconciliation_failed, recomputed_tokens_exceed_prompt, saved_tokens_exceed_prompt,
  saved_token_reconciliation_failed, full_recompute_reported_savings, saved_mismatch,
  is_full_recomputation, invalid_timer_type, invalid_error_type, nonfinite_or_negative_timer,
  nonfinite_or_negative_error, validate_request_metrics, MetricInvariantCode, MetricField,
}

-- Counters as natural numbers.
pub record Counts : Type 0 where
  pub prompt : ℕ
  pub documents : ℕ
  pub hits : ℕ
  pub requested : ℕ
  pub found : ℕ
  pub loaded : ℕ
  pub rejected : ℕ
  pub recomputed : ℕ
  pub avoided : ℕ

abbrev pub counters_of : Counts → RequestMetricCounters
counters_of k = record {
  prompt_tokens = pos k.prompt;
  reusable_documents_requested = pos k.documents;
  reusable_documents_hit = pos k.hits;
  reusable_document_tokens_requested = pos k.requested;
  kv_tokens_found = pos k.found;
  kv_tokens_loaded = pos k.loaded;
  kv_tokens_rejected = pos k.rejected;
  tokens_recomputed = pos k.recomputed;
  prefill_tokens_avoided = pos k.avoided;
}

-- What a consistent snapshot promises.
pub record IsReconciled (k : Counts) : Type 0 where
  pub hits_bound : k.hits ≤ k.documents
  pub requested_bound : k.requested ≤ k.prompt
  pub found_bound : k.found ≤ k.requested
  pub loaded_split : k.found ≡ k.loaded + k.rejected
  pub saved : k.recomputed + k.avoided ≡ k.prompt

append-nil_parts {ℓ} : {A : Type ℓ} (xs ys : List A) → xs ++ ys ≡ [] → (xs ≡ []) × (ys ≡ [])
append-nil_parts [] ys h = (refl, h)
append-nil_parts (x ∷ xs) ys h = cc

issue_if-nil :
    (b : Bool) (c : MetricInvariantCode) (f : Option MetricField) → issue_if b c f ≡ [] → b ≡ false
issue_if-nil true c f h = cc
issue_if-nil false c f h = refl

issue_if-false :
    (b : Bool) (c : MetricInvariantCode) (f : Option MetricField) → b ≡ false → issue_if b c f ≡ []
issue_if-false true c f h = cc
issue_if-false false c f h = refl

quiet :
    (b : Bool) (c : MetricInvariantCode) (f : Option MetricField) {rest : Issues}
    → b ≡ false
    → rest ≡ []
    → issue_if b c f ++ rest ≡ []
quiet true c f h k = cc
quiet false c f h k = k

relation-nil_of_IsReconciled :
    (k : Counts) → IsReconciled k → counter_relation_issues (counters_of k) ≡ []
unfolding counter_relation_issues
relation-nil_of_IsReconciled k h =
    let c = counters_of k in
    quiet (ltb_ℤ c.reusable_documents_requested c.reusable_documents_hit)
      document_hits_exceed_requests (some MetricField.reusable_documents_hit) (ground arith)
      (quiet (ltb_ℤ c.prompt_tokens c.reusable_document_tokens_requested)
        reusable_tokens_exceed_prompt (some MetricField.reusable_document_tokens_requested)
        (ground arith)
        (quiet (ltb_ℤ c.reusable_document_tokens_requested c.kv_tokens_found)
          found_tokens_exceed_requested (some MetricField.kv_tokens_found) (ground arith)
          (quiet (ltb_ℤ c.kv_tokens_found c.kv_tokens_loaded) loaded_tokens_exceed_found
            (some MetricField.kv_tokens_loaded) (ground arith)
            (quiet (not (eqb_ℤ c.kv_tokens_found (c.kv_tokens_loaded +ℤ c.kv_tokens_rejected)))
              rejected_token_reconciliation_failed none (ground arith)
              (quiet (ltb_ℤ c.prompt_tokens c.tokens_recomputed) recomputed_tokens_exceed_prompt
                (some MetricField.tokens_recomputed) (ground arith)
                (quiet (ltb_ℤ c.prompt_tokens c.prefill_tokens_avoided) saved_tokens_exceed_prompt
                  (some MetricField.prefill_tokens_avoided) (ground arith)
                  (quiet (saved_mismatch c) saved_token_reconciliation_failed
                    (some MetricField.prefill_tokens_avoided) (ground arith)
                    (issue_if-false
                      (is_full_recomputation c && not (eqb_ℤ c.prefill_tokens_avoided (pos 0)))
                      full_recompute_reported_savings (some MetricField.prefill_tokens_avoided)
                      (ground arith)))))))))

IsReconciled-of_relation_nil :
    (k : Counts) → counter_relation_issues (counters_of k) ≡ [] → IsReconciled k
unfolding counter_relation_issues
IsReconciled-of_relation_nil k h = ground arith

-- Every reading of a list is absent or valid.
abbrev pub IsQuiet : List (MetricField × Option Reading) → Type 0
IsQuiet [] = Unit
IsQuiet ((f, r) ∷ l) = ((r ≡ none) ⊎ (r ≡ some valid)) × IsQuiet l

reading_issues-nil :
    (w b : MetricInvariantCode) (l : List (MetricField × Option Reading))
    → (reading_issues w b l ≡ []) ↔ IsQuiet l
unfolding reading_issues
reading_issues-nil w b [] = (λ _. tt, λ _. refl)
reading_issues-nil w b ((f, none) ∷ l) =
    (λ h. (inl refl, (reading_issues-nil w b l).0 h), λ h. (reading_issues-nil w b l).1 h.1)
reading_issues-nil w b ((f, some valid) ∷ l) =
    (λ h. (inr refl, (reading_issues-nil w b l).0 h), λ h. (reading_issues-nil w b l).1 h.1)
reading_issues-nil w b ((f, some wrong_type) ∷ l) = (λ h. cc, λ h. ground arith)
reading_issues-nil w b ((f, some nonfinite_or_negative) ∷ l) = (λ h. cc, λ h. ground arith)

counts_signs : (k : Counts) → counter_sign_issues (counter_fields (counters_of k)) ≡ []
unfolding counter_sign_issues
counts_signs k = refl

-- A snapshot with natural counters is accepted exactly when the counters reconcile and every
-- timer and error that is present is finite and not negative.
pub validate_request_metrics-nil :
    (k : Counts) (t : RequestMetricTimers) (e : RequestCorrectnessMetrics)
    → (validate_request_metrics (record { counters = counters_of k; timers = t; correctness = e })
        ≡ [])
      ↔ (IsReconciled k × IsQuiet (timer_fields t) × IsQuiet (error_fields e))
unfolding validate_request_metrics
validate_request_metrics-nil k t e = (
  λ h.
      let a =
        append-nil_parts
          (reading_issues invalid_timer_type nonfinite_or_negative_timer (timer_fields t)) _ h in
      let b =
        append-nil_parts
          (reading_issues invalid_error_type nonfinite_or_negative_error (error_fields e)) _ a.1 in
      (
        IsReconciled-of_relation_nil k b.1,
        (reading_issues-nil _ _ (timer_fields t)).0 a.0,
        (reading_issues-nil _ _ (error_fields e)).0 b.0,
      ),
  λ h. rw (
    (reading_issues-nil invalid_timer_type nonfinite_or_negative_timer (timer_fields t)).1 h.1,
    (reading_issues-nil invalid_error_type nonfinite_or_negative_error (error_fields e)).1 h.2,
    relation-nil_of_IsReconciled k h.0,
  ),
)
