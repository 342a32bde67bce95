-- ===== src/Scheduler/Runs.antt =====
-- The runs of the scheduler's lookup runtime, with the coordinator of
-- src/cacheblend_gpt_oss/storage/lookup.py behind it:
-- src/cacheblend_gpt_oss/vllm_compat/v0_19_1/scheduler_runtime.py.
use cacheblend_gpt_oss.Prelude.{
  ℕ, ◌≡◌, refl, sym, ap, ◌∙◌, subst, Bool, true, not, ◌&&◌, List, [], ◌∷◌, Text, nats, Option, some,
  none, ok, raise, ok-injective, Bool-cases, inl, inr, All, remove, same,
}
use cacheblend_gpt_oss.Planner.Models.{CacheNamespace, tokens_discrete}
use cacheblend_gpt_oss.Storage.Lookup.{LookupPlan, RecordIndex, Looked, lookup_error, planner_error}
use cacheblend_gpt_oss.Storage.Lookup.Coordinator.{plan}
use cacheblend_gpt_oss.Scheduler.{
  Scheduled, runtime_error, invalid_config, SchedulerLookupRequest, SchedulerRuntimeState, created,
  ready, degraded, fatal, closed, fatal_transport_cleanup, empty_lookup_plan,
}
use cacheblend_gpt_oss.Scheduler.Runtime.{
  SchedulerConfig, SchedulerRuntime, StoredRequest, Answers, OpenAnswer, TransportIdentity,
  Coordinator, CoordinatorAnswer, planned, refused, coordinator_failed, scheduler_runtime,
  serves_config, open_runtime, open_from,
}
use cacheblend_gpt_oss.Scheduler.Calls.{
  lookup_request, discard_request, close_runtime, close_from, shut,
}
use cacheblend_gpt_oss.Scheduler.Sound.{
  PlanPredicate, IsStored, IsSound, mark_fatal-IsSound, active-IsSound, open_created-Keeps,
}
use cacheblend_gpt_oss.Scheduler.Searches.{IsHonest}
use cacheblend_gpt_oss.Scheduler.Replies.{lookup_request-Replies}

-- The coordinator of storage/lookup.py, for an index; `corrupt` tells whether the index failed of a
-- corruption.
abbrev pub coordinator_answer : Bool → Looked LookupPlan → CoordinatorAnswer
coordinator_answer corrupt (ok p) = planned p
coordinator_answer corrupt (raise (lookup_error code)) = refused code corrupt
coordinator_answer corrupt (raise (planner_error e)) = coordinator_failed

unfoldable pub coordinator_of : (List ℕ → List ℕ) → RecordIndex → Bool → Coordinator
coordinator_of sha256 index corrupt prompt ns cs =
    coordinator_answer corrupt (plan sha256 index (nats prompt) ns cs)

module _ (Trust : PlanPredicate)
    (empty : (ns : CacheNamespace) (prompt : List ℕ) → Trust ns prompt empty_lookup_plan)
    (config : SchedulerConfig) where
  -- The runtimes that calls lead to, with coordinators whose plans can be trusted.
  pub data Run : SchedulerRuntime → Type 0 where
    start :
        (t : Option TransportIdentity) (r : SchedulerRuntime)
        → scheduler_runtime config t ≡ ok r
        → Run r
    opening : (a : OpenAnswer) (r : SchedulerRuntime) → Run r → Run (open_runtime a r).1
    looking :
        (a : Answers) (q : SchedulerLookupRequest) (r : SchedulerRuntime)
        → IsHonest Trust empty a.coordinator
        → Run r
        → Run (lookup_request a q r).1
    discarding : (id : Text) (r : SchedulerRuntime) → Run r → Run (discard_request id r).1
    closing : (answer : Bool) (r : SchedulerRuntime) → Run r → Run (close_runtime answer r).1

  pub record Holds (r : SchedulerRuntime) : Type 0 where
    pub same_config : r.config ≡ config
    pub sound : IsSound Trust r

  start-Holds :
      (t : Option TransportIdentity) (r : SchedulerRuntime)
      → scheduler_runtime config t ≡ ok r
      → Holds r
  unfolding scheduler_runtime
  start-Holds none r h = cc
  start-Holds (some t) r h = elim (Bool-cases (serves_config config t)) [
    | inl e ↦
        let new : SchedulerRuntime = record {
          config = config;
          transport_config = t;
          transport_needs_close = true;
          state = created;
          fatal_status = none;
          requests = [];
        } in
        let result : Scheduled SchedulerRuntime = ok new in
        let built : result ≡ ok r = (rw e at h) in
        subst Holds (ok-injective built)
          (record { same_config = refl; sound = active-IsSound Trust new refl (λ k. refl) tt })
    | inr e ↦
        let result : Scheduled SchedulerRuntime = raise (runtime_error invalid_config) in
        let refusal : result ≡ ok r = (rw e at h) in cc
  ]

  open-Holds : (a : OpenAnswer) (r : SchedulerRuntime) → Holds r → Holds (open_runtime a r).1
  unfolding open_runtime
  open-Holds a r h = by_state r.state refl
    where
      by_state : (s : SchedulerRuntimeState) → r.state ≡ s → Holds (open_from s a r).1
      by_state created e =
          let k = open_created-Keeps Trust a r (h.sound.owned (rw e refl)) h.sound.entries in
          record { same_config = k.config ∙ h.same_config; sound = k.sound }
      by_state ready e = h
      by_state degraded e = h
      by_state fatal e = h
      by_state closed e = h

  All-remove :
      (id : Text) (d : List (Text × StoredRequest))
      → All (λ e. IsStored Trust config e.0 e.1) d
      → All (λ e. IsStored Trust config e.0 e.1) (remove tokens_discrete id d)
  unfolding remove
  All-remove id [] h = tt
  All-remove id ((j, s) ∷ d) h = elim (Bool-cases (same tokens_discrete j id)) [
    | inl e ↦ rw e (All-remove id d h.1)
    | inr e ↦ rw e (h.0, All-remove id d h.1)
  ]

  discard-Holds : (id : Text) (r : SchedulerRuntime) → Holds r → Holds (discard_request id r).1
  unfolding discard_request remove
  discard-Holds id r h = record {
    same_config = h.same_config;
    sound = record {
      stopped_empty = λ k. ap (remove tokens_discrete id) (h.sound.stopped_empty k);
      owned = h.sound.owned;
      reason = h.sound.reason;
      entries =
          subst (λ c. All (λ e. IsStored Trust c e.0 e.1) (remove tokens_discrete id r.requests))
            (sym h.same_config)
            (All-remove id r.requests (
              subst (λ c. All (λ e. IsStored Trust c e.0 e.1) r.requests) h.same_config
                h.sound.entries));
    };
  }

  close-Holds : (answer : Bool) (r : SchedulerRuntime) → Holds r → Holds (close_runtime answer r).1
  unfolding close_runtime
  close-Holds answer r h = by_state r.state refl
    where
      closes : Holds (shut answer r).1
      closes = elim (Bool-cases (r.transport_needs_close && not answer)) [
        | inl e ↦ rw e (record {
          same_config = h.same_config;
          sound = mark_fatal-IsSound Trust fatal_transport_cleanup r refl;
        })
        | inr e ↦ rw e (record {
          same_config = h.same_config;
          sound = record {
            stopped_empty = λ _. refl;
            owned = λ k. cc;
            reason = λ k. cc;
            entries = tt;
          };
        })
      ]

      by_state : (s : SchedulerRuntimeState) → r.state ≡ s → Holds (close_from s answer r).1
      by_state created e = closes
      by_state ready e = closes
      by_state degraded e = closes
      by_state fatal e = closes
      by_state closed e = h

  -- Every runtime that calls lead to keeps its configuration and is sound.
  pub Run-Holds : (r : SchedulerRuntime) → Run r → Holds r
  Run-Holds _ (start t r h) = start-Holds t r h
  Run-Holds _ (opening a r h) = open-Holds a r (Run-Holds r h)
  Run-Holds _ (looking a q r honest h) =
      let k = Run-Holds r h in
      let reply = lookup_request-Replies Trust empty a q r k.sound honest in
      record { same_config = reply.same_config ∙ k.same_config; sound = reply.sound }
  Run-Holds _ (discarding id r h) = discard-Holds id r (Run-Holds r h)
  Run-Holds _ (closing answer r h) = close-Holds answer r (Run-Holds r h)
