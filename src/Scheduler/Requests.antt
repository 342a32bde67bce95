-- ===== src/Scheduler/Requests.antt =====
-- The requests that can be built, and their query windows:
-- src/cacheblend_gpt_oss/vllm_compat/v0_19_1/scheduler_runtime.py.
use cacheblend_gpt_oss.Prelude.{
  ℕ, zero, suc, ◌+◌, ◌-◌, ◌≤◌, ◌<◌, ◌≡◌, refl, ap, false, not, ◌||◌, inl, inr, List, [], ◌∷◌, map,
  Text, Value, str, int, pos, negsuc, nat, nats, ok, raise, >>=-eq-ok, ok-injective, raise_if,
  subst, Bool-cases, arith, any, length, range_from, ltb, ◌==◌, nat_order, pair_order, list_order,
  each,
}
use cacheblend_gpt_oss.Planner.Models.{
  Checked, TokenRange, range_len, normalize_token_id, normalize_token_ids,
}
use cacheblend_gpt_oss.Staging.Config.{chunk_size}
use cacheblend_gpt_oss.Layout.Scatter.{max_context_tokens}
use cacheblend_gpt_oss.Scheduler.{
  runtime_error, invalid_input, SchedulerLookupRequest, scheduler_lookup_request, request_text,
  request_natural, request_prompt, misplaced, window_at, query_windows,
}

-- What holds of every request that was built.
pub record IsRequest (q : SchedulerLookupRequest) : Type 0 where
  pub named : 0 < length q.request_id
  pub normal : normalize_token_ids (nats q.prompt_token_ids) ≡ ok q.prompt_token_ids
  pub nonempty : 0 < length q.prompt_token_ids

normalize_token_id-again :
    (v : Value) {n : ℕ} → normalize_token_id v ≡ ok n → normalize_token_id (nat n) ≡ ok n
unfolding normalize_token_id
normalize_token_id-again (int (pos k)) h = ground arith
normalize_token_id-again (int (negsuc k)) h = cc
normalize_token_id-again _ h = cc

normalize_token_ids-again :
    (ids : List Value) {ns : List ℕ}
    → normalize_token_ids ids ≡ ok ns
    → normalize_token_ids (nats ns) ≡ ok ns
unfolding normalize_token_ids each
normalize_token_ids-again [] h = cc
normalize_token_ids-again (v ∷ ids) h =
    let (n, a, h₁) = >>=-eq-ok (normalize_token_id v) _ h in
    let (ns, b, e) = >>=-eq-ok (each normalize_token_id ids) _ h₁ in
    let n' = normalize_token_id-again v a in
    let ns' = normalize_token_ids-again ids b in
    let same = ok-injective e in
    subst (λ l. each normalize_token_id (nats l) ≡ ok l) same (rw (n', ns') refl)

request_text-named : (v : Value) {t : Text} → request_text v ≡ ok t → 0 < length t
request_text-named (str t) h = ground arith
request_text-named _ h = cc

request_prompt-ok :
    (c : Checked (List ℕ)) {prompt : List ℕ} → request_prompt c ≡ ok prompt → c ≡ ok prompt
request_prompt-ok (ok ids) h = ap ok (ok-injective h)
request_prompt-ok (raise e) h = cc

pub scheduler_lookup_request-IsRequest :
    (id : Value) (ids : List Value) (sequences step computed external preemptions : Value)
    {q : SchedulerLookupRequest}
    → scheduler_lookup_request id ids sequences step computed external preemptions ≡ ok q
    → IsRequest q
unfolding scheduler_lookup_request
scheduler_lookup_request-IsRequest id ids sequences step computed external preemptions {q} h =
    let (id', named, h₁) = >>=-eq-ok (request_text id) _ h in
    let (prompt, again, h₂) = >>=-eq-ok (request_prompt (normalize_token_ids ids)) _ h₁ in
    let (_, some_tokens, h₃) =
      >>=-eq-ok
        (raise_if (length prompt == 0 || ltb max_context_tokens (length prompt))
          (runtime_error invalid_input))
        _ h₂ in
    let (n, _, h₄) = >>=-eq-ok (request_natural sequences) _ h₃ in
    let (_, _, h₅) = >>=-eq-ok (request_natural step) _ h₄ in
    let (c, _, h₆) = >>=-eq-ok (request_natural computed) _ h₅ in
    let (_, _, h₇) = >>=-eq-ok (request_natural external) _ h₆ in
    let (_, _, h₈) = >>=-eq-ok (request_natural preemptions) _ h₇ in
    let (_, _, e) =
      >>=-eq-ok (raise_if (n == 0 || ltb (length prompt) c) (runtime_error invalid_input)) _ h₈ in
    let same = ok-injective e in
    let normal =
      normalize_token_ids-again ids (request_prompt-ok (normalize_token_ids ids) again) in
    let filled : 0 < length prompt = ground arith in
    record {
      named = subst (λ t. 0 < length t) (ap (λ r. r.request_id) same) (request_text-named id named);
      normal =
          subst (λ l. normalize_token_ids (nats l) ≡ ok l) (ap (λ r. r.prompt_token_ids) same)
            normal;
      nonempty = subst (λ l. 0 < length l) (ap (λ r. r.prompt_token_ids) same) filled;
    }

-- The windows from a start on.
windows-start : (start n : ℕ) → misplaced start (map window_at (range_from start n)) ≡ false
unfolding misplaced
windows-start start zero = refl
windows-start start (suc n) = ground (arith, windows-start (suc start) n)

windows-length : (start n : ℕ) → length (map window_at (range_from start n)) ≡ n
windows-length start zero = refl
windows-length start (suc n) = omega (arith, windows-length (suc start) n)

windows-within :
    (start n count : ℕ)
    → start + n + chunk_size ≤ count + 1
    → any
        (λ w. not (range_len w == chunk_size) || ltb count w.end)
        (map window_at (range_from start n))
      ≡ false
windows-within start zero count h = refl
windows-within start (suc n) count h =
    ground (arith, windows-within (suc start) n count (omega arith))

-- What the metadata asks of its windows.
pub record AreWindows (count : ℕ) (ws : List TokenRange) : Type 0 where
  pub within : any (λ w. not (range_len w == chunk_size) || ltb count w.end) ws ≡ false
  pub placed : misplaced 0 ws ≡ false

pub query_windows-AreWindows : (count : ℕ) → AreWindows count (query_windows count)
unfolding query_windows misplaced
query_windows-AreWindows count = elim (Bool-cases (ltb count chunk_size)) [
  | inl e ↦ rw e (record { within = refl; placed = refl })
  | inr e ↦ rw e (record {
    within = windows-within 0 (count + 1 - chunk_size) count (ground arith);
    placed = windows-start 0 (count + 1 - chunk_size);
  })
]

pub query_windows-length : (count : ℕ) → length (query_windows count) ≡ count + 1 - chunk_size
unfolding query_windows
query_windows-length count = elim (Bool-cases (ltb count chunk_size)) [
  | inl e ↦ rw e (ground arith)
  | inr e ↦ rw e (windows-length 0 (count + 1 - chunk_size))
]
