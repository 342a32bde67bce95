-- ===== src/Lib.antt =====
-- Verification library of the CacheBlend prototype for GPT-OSS.
--
-- The program plans which parts of a prompt can take their KV cache from an external store, follows
-- each request through the scheduler's and the worker's side of the connector, and accounts for what
-- was found, loaded and recomputed. Its deterministic core is modelled here:
--
-- Planner/Models: the value objects of src/cacheblend_gpt_oss/planner/models.py (TokenRange,
-- TokenSegment, CacheNamespace, SegmentFingerprint, CacheRecord, CandidateMatch). A constructor
-- with a `__post_init__` is a function from dynamic values (Prelude/Values) into a result.
-- Planner/Coverage, Planner/Selection, Planner/Matching, Planner/RecordIndex: `_covered_token_count`,
-- `_select_non_overlapping`, `MatchPlanner` and `InMemoryRecordIndex` of
-- src/cacheblend_gpt_oss/planner/matching.py. The fingerprinter and the record lookup are arguments.
-- Planner/Selection works on items, which the planner's matches and the storage side's candidates are
-- viewed as, since src/cacheblend_gpt_oss/storage/lookup.py has the same algorithm for its own type.
-- Planner/Fingerprint: what `Sha256SegmentFingerprinter` of src/cacheblend_gpt_oss/planner/fingerprint.py
-- hashes.
-- Storage/Types, Storage/Transport, Storage/Receipts, Storage/Naming: the values of
-- src/cacheblend_gpt_oss/storage/lmcache_types.py (bind is `VerifiedLmcacheCandidate.bind`).
-- Storage/Lookup: `LmcacheCandidateLookupCoordinator` of src/cacheblend_gpt_oss/storage/lookup.py, which
-- takes what the sidecar index answers as an argument. Coordinator has the loop over the candidates;
-- Judging, Outcomes, Buckets and Scanning hold the proofs for a round, Counting the loop's invariant,
-- Chosen and Plans what comes of it.
-- Storage/Sidecar: the rows of `SqliteSidecarIndex` of src/cacheblend_gpt_oss/storage/sidecar.py, its
-- look-up and its batches; the statements of SQLite are arguments. Rows and Writing have the
-- definitions, Codec, RoundTrip, Reading and Batches the proofs.
-- Staging: `StagingRuntime` of src/cacheblend_gpt_oss/vllm_compat/v0_19_1/staging.py, a state
-- machine whose steps take the answers of the device and of LMCache; a transfer is two steps around
-- the caller's body. Its state also carries whether LMCache may hold the buffer (lmcache_may_hold),
-- which only the two calls of the transport change and no code reads. Targets: src/cacheblend_gpt_oss/targets.py.
-- Scheduler: src/cacheblend_gpt_oss/vllm_compat/v0_19_1/scheduler_runtime.py, which asks the transport
-- for candidates, has Storage/Lookup verify them and makes a request plan for the control plane.
-- Scheduler has the values, Runtime and Calls `SchedulerLookupRuntime` (open_runtime is `open`,
-- lookup_request `lookup`, discard_request `discard`, close_runtime `close`), whose calls return a
-- result beside the runtime that they leave and take what the transport, its factory and the
-- coordinator answer during the call. Runs has the sequences of calls; Plans, Requests, Accepted,
-- Planning and Total hold the proofs that lookups return, Sound, Searches and Replies those of what
-- they return and keep, Lookups what comes of both.
-- ControlPlane/Records, ControlPlane/Lifecycle, ControlPlane/Plane: the values of
-- src/cacheblend_gpt_oss/connector/control_plane.py, `RequestLifecycleState` (check_state is its
-- `__post_init__`, which every `replace` runs again; hand_off is `handoff`), and
-- `RequestControlPlane`, whose methods return a result beside the plane that they leave.
-- Lifetime, Preemption, Completion and Handshake hold the proofs on sequences of operations and on the
-- two sides. It takes the planner's plan (`request_plan`) and derives the counters that Metrics checks.
-- Metrics: `validate_request_metrics` of src/cacheblend_gpt_oss/metrics/request.py.
-- Selective: row selections, forward plans and their context, of
-- src/cacheblend_gpt_oss/gpt_oss/selective.py.
-- Planner/Segmentation: the delimiter, fixed-chunk and rolling segmenters of
-- src/cacheblend_gpt_oss/planner/segmentation.py, which cut prompts and documents into segments.
-- Layout/Names, Layout/Groups, Layout/Scatter: src/cacheblend_gpt_oss/gpt_oss/layout.py. Layer
-- names lead to indexes (`extract_gpt_oss_layer_index`), cache groups to the complete layout
-- (hybrid_cache_layout is `GptOssHybridCacheLayout.__post_init__`), and a layout with block tables and
-- a transfer to a scatter plan (`plan_token_scatter`). Layout/Layers, Layout/Scatter/Slots and
-- Layout/Scatter/Plans hold the proofs.
-- Prelude holds the shared types (results, dynamic values, integers over the native numbers, sets and
-- maps as lists) and the lemmas on lists, orders, sorting and counting. Tests runs the definitions
-- on small inputs.
--
-- Conventions. Natural numbers are unbounded as Python's integers are; token ids keep their 64-bit
-- bound. A text stands for its UTF-8 bytes. An argument that the source annotates with one of its own
-- dataclasses has that type, so that the tests of its class do not appear; arguments whose numbers,
-- texts or bytes the source tests are dynamic values. Sets and dicts are lists with decidable
-- equality, `sorted` is a stable insertion sort. Loops run over lists, save
-- the scatter loop, which has as much fuel as the transfer has positions: each round takes one or
-- more, and Layout/Scatter/Slots shows that it never runs out.
--
-- Not modelled: SHA-256; floating-point fractions; the readings of timers and errors beyond what the
-- checks tell apart; the opening of SQLite's database and its schema; the tensor code, the storage
-- transports, the vLLM adapter besides the staging and the scheduler's lookup, and the benchmark and
-- correctness tools.
pub mod Prelude
pub mod Targets
pub mod Planner
pub mod ControlPlane
pub mod Metrics
pub mod Selective
pub mod Layout
pub mod Storage
pub mod Staging
pub mod Scheduler
mod Tests
