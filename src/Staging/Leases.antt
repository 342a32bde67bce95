-- ===== src/Staging/Leases.antt =====
-- Transfers over registered staging, and its release:
-- src/cacheblend_gpt_oss/vllm_compat/v0_19_1/staging.py.
use cacheblend_gpt_oss.Prelude.{
  ℕ, ◌+◌, ◌%◌, ◌≤◌, ◌≡◌, refl, Bool, true, false, not, ◌&&◌, List, Value, nat, bytes, int, str,
  bool, other, length, Option, none, some, ok, raise, ◌⊎◌, inl, inr, arith, ltb, ◌==◌, ap, sym,
  subst, holds_iff,
}
use cacheblend_gpt_oss.Planner.Models.{tokens_discrete}
use cacheblend_gpt_oss.Staging.Config.{
  Failure, staging_error, Outcome, StagingErrorCode, invalid_config, StagingTransferDirection,
  store, StagingTransferLease, require_plain_int, fail_if, staging_transfer_lease, chunk_size,
  is_store, validate_event_handle, max_event_handle_bytes,
}
use cacheblend_gpt_oss.Staging.Steps.{
  StagingState, registered, transfer_active, closed, same_state, StagingRuntime, in_state,
}
use cacheblend_gpt_oss.Staging.Runtime.{
  EventAnswers, chain, exported, handle_changed, is_none, same_list, begin_transfer,
}
use cacheblend_gpt_oss.Staging.Triples.{
  Meets, Meets-get, Meets-modify, Meets->>, Meets-checked, Meets-require_state,
}
use cacheblend_gpt_oss.Staging.Soundness.{
  IsSound, At, has_owners, is_live, Stopped-marked, Stopped-interrupted,
  record_and_export_event-next, Stopped,
}

-- Refused without a trace, or stopped.
abbrev pub Refused : StagingRuntime → StagingState → Failure → StagingRuntime → Type 0
Refused s x f t = ((f ≡ staging_error invalid_config) × (t ≡ s)) ⊎ Stopped s.config x f t

-- The lease of a running transfer lies within the tensor, and has the event that was registered.
pub record IsLeased (direction : StagingTransferDirection) (s : StagingRuntime)
    (l : StagingTransferLease) (t : StagingRuntime) : Type 0 where
  pub active : t ≡ in_state transfer_active s
  pub same_direction : l.direction ≡ direction
  pub inside : l.buffer_offset + l.token_extent ≤ s.config.token_capacity
  pub nonempty : 1 ≤ l.token_extent
  pub whole_chunks : direction ≡ store → l.token_extent % chunk_size ≡ 0
  pub same_event : s.event_handle ≡ some l.event_ipc_handle

require_plain_int-ok :
    (minimum : ℕ) (v : Value) {n : ℕ} → require_plain_int minimum v ≡ ok n → minimum ≤ n
unfolding require_plain_int
require_plain_int-ok minimum v h = ground arith

require_plain_int-raise :
    (minimum : ℕ) (v : Value) {e : Failure}
    → require_plain_int minimum v ≡ raise e
    → e ≡ staging_error invalid_config
unfolding require_plain_int
require_plain_int-raise minimum v h = ground arith

fail_if-raise :
    (b : Bool) {e : Failure} → fail_if b invalid_config ≡ raise e → e ≡ staging_error invalid_config
fail_if-raise true h = ground arith
fail_if-raise false h = ground arith

fail_if-ok : (b : Bool) (code : StagingErrorCode) {u : Unit {0}} → fail_if b code ≡ ok u → b ≡ false
fail_if-ok true code h = cc
fail_if-ok false code h = refl

same_list-eq : (xs ys : List ℕ) → same_list xs ys ≡ true → xs ≡ ys
same_list-eq xs ys h = (holds_iff (tokens_discrete xs ys)).0 (ground arith)

staging_transfer_lease-ok :
    (d : StagingTransferDirection) (o n c : ℕ) (b : List ℕ)
    → 1 ≤ n
    → o + n ≤ c
    → validate_event_handle (bytes b) ≡ ok b
    → staging_transfer_lease d (nat o) (nat n) (nat c) (bytes b)
      ≡ ok (record {
        direction = d;
        buffer_offset = o;
        token_extent = n;
        capacity = c;
        event_ipc_handle = b;
      })
unfolding staging_transfer_lease
staging_transfer_lease-ok d o n c b p q h =
    let some_bytes : (length b == 0) ≡ false = ground arith in
    let few_bytes : ltb max_event_handle_bytes (length b) ≡ false = ground arith in
    let e1 : ltb o 0 ≡ false = ground arith in
    let e2 : ltb n 1 ≡ false = ground arith in
    let e3 : ltb c 1 ≡ false = ground arith in
    let e4 : ltb c (o + n) ≡ false = ground arith in rw (e1, e2, e3, e4, some_bytes, few_bytes) refl

chain-ok :
    {A B : Type 0} (o : Outcome A) (f : A → Outcome B) {b : B}
    → chain o f ≡ ok b
    → (a : A) × (o ≡ ok a) × (f a ≡ ok b)
chain-ok (ok a) f h = (a, refl, h)
chain-ok (raise e) f h = cc

handle_kept :
    (v : Value) {b : List ℕ}
    → validate_event_handle v ≡ ok b
    → validate_event_handle (bytes b) ≡ ok b
unfolding validate_event_handle
handle_kept (bytes b') {b} h = let e : b' ≡ b = ground arith in ground arith
handle_kept (int z) h = cc
handle_kept (str t) h = cc
handle_kept (bool t) h = cc
handle_kept other h = cc

exported-ok :
    (a : EventAnswers) {b : List ℕ} → exported a ≡ ok b → validate_event_handle (bytes b) ≡ ok b
exported-ok a h =
    let (_, _, h1) = chain-ok a.record_event _ h in
    let (_, _, h2) = chain-ok a.synchronize_event _ h1 in
    let (v, _, h3) = chain-ok a.event_ipc_handle validate_event_handle h2 in handle_kept v h3

handle_same :
    (o : Option (List ℕ)) (h : List ℕ) → is_none o ≡ false → handle_changed o h ≡ false → o ≡ some h
handle_same none h n e = cc
handle_same (some x) h n e = ap some (sym (same_list-eq h x (ground arith)))

event_handle-of_IsSound :
    (s : StagingRuntime) → IsSound s → s.state ≡ registered → is_none s.event_handle ≡ false
event_handle-of_IsSound s h e =
    let live : is_live s.state ≡ true = rw e refl in
    let owners : has_owners s ≡ true = h.owned (h.live_registered live) in ground arith

pub in_state-IsSound :
    (x : StagingState) (s : StagingRuntime)
    → same_state x closed ≡ false
    → IsSound s
    → is_live s.state ≡ true
    → IsSound (in_state x s)
in_state-IsSound x s n h l = record {
  live_held = λ _. h.live_held l;
  noted = h.noted;
  live_registered = λ _. h.live_registered l;
  owned = h.owned;
  closed_released = λ e. ground arith;
}

ok-raise : {A : Type 0} (o : Outcome A) {a : A} {f : Failure} → o ≡ ok a → o ≡ raise f → ⊥
ok-raise (ok b) p h = cc
ok-raise (raise e) p h = cc

ok-same : {A : Type 0} (o : Outcome A) {a b : A} → o ≡ ok a → o ≡ ok b → a ≡ b
ok-same (ok x) p h = cc
ok-same (raise e) p h = cc

whole :
    (d : StagingTransferDirection) (n : ℕ)
    → d ≡ store
    → (is_store d && not (n % chunk_size == 0)) ≡ false
    → n % chunk_size ≡ 0
whole d n k h = let e : is_store d ≡ true = ap is_store k in ground arith

pub begin_transfer-Meets :
    (direction : StagingTransferDirection) (offset extent : Value) (a : EventAnswers)
    (s : StagingRuntime)
    → IsSound s
    → s.state ≡ registered
    → Meets
        (IsLeased direction s)
        (Refused s registered)
        (begin_transfer direction offset extent a s)
unfolding begin_transfer
begin_transfer-Meets direction offset extent a s h e =
    let c = s.config in
    let done = IsLeased direction s in
    let fails = Refused s registered in
    let at : At c registered s = (h, (e, refl)) in
    Meets-require_state registered _ _ _ s (rw e refl) (
      Meets-checked (require_plain_int 0 offset) _ done fails s
        (λ f r. inl (require_plain_int-raise 0 offset r, refl))
        λ o e1.
          Meets-checked (require_plain_int 1 extent) _ done fails s
            (λ f r. inl (require_plain_int-raise 1 extent r, refl))
            λ n e2. Meets-get _ _ _ s (
              Meets->> _ _ _ _ s (
                Meets-checked (fail_if (ltb c.token_capacity (o + n)) invalid_config) _ done fails s
                  (λ f r. inl (fail_if-raise _ r, refl))
                  λ _ e3. Meets->> _ _ _ _ s (
                    Meets-checked
                      (fail_if (is_store direction && not (n % chunk_size == 0)) invalid_config) _
                      done fails s (λ f r. inl (fail_if-raise _ r, refl))
                      λ _ e4.
                        let fits : o + n ≤ c.token_capacity =
                          ground (arith, fail_if-ok _ invalid_config e3) in
                        let some_tokens = require_plain_int-ok 1 extent e2 in
                        record_and_export_event-next fails s
                          (inr (Stopped-interrupted c registered s at))
                          (λ code. inr (Stopped-marked c registered s at refl code)) s.event_handle
                          a _ done
                          λ b _ e5 e6.
                            let lease : StagingTransferLease = record {
                              direction = direction;
                              buffer_offset = o;
                              token_extent = n;
                              capacity = c.token_capacity;
                              event_ipc_handle = b;
                            } in
                            let built : staging_transfer_lease direction (nat o) (nat n)
                                  (nat c.token_capacity) (bytes b)
                                ≡ ok lease =
                              staging_transfer_lease-ok direction o n c.token_capacity b some_tokens
                                fits (exported-ok a e5) in
                            Meets-checked
                              (staging_transfer_lease direction (nat o) (nat n)
                                (nat c.token_capacity) (bytes b))
                              _ done fails s (λ f r. absurd (ok-raise _ built r))
                              λ l e7. Meets-modify _ _ _ _ s (
                                subst (λ x. IsLeased direction s x (in_state transfer_active s))
                                  (ok-same _ built e7)
                                  (record {
                                    active = refl;
                                    same_direction = refl;
                                    inside = fits;
                                    nonempty = some_tokens;
                                    whole_chunks =
                                        λ k. whole direction n k (fail_if-ok _ invalid_config e4);
                                    same_event =
                                        handle_same s.event_handle b (event_handle-of_IsSound s h e)
                                          e6;
                                  }))))))
