-- ===== src/Lib.antt =====
-- RivetCache: the core of the cache, modelled from src/*.rs of the repository.
--
-- RivetCache stores opaque bytes under keys, in a bounded memory tier and in an injected persistent
-- store.
--
--   Prelude    shared names; lists, hash maps as association lists, 64-bit words that saturate,
--              `io::Result` as `Result` and stateful operations as `Op`
--   Policy     src/policy.rs: keys, `LruEviction`, the events
--   Store      src/store.rs: the trait `PersistentStore` as a record of operations, `VolatileStore`
--              (Store/Volatile), `LayeredStore` (Store/Layered); Store/Contract is what a backend
--              promises
--   Cache      src/lib.rs: the state `Inner` and its helpers; the two tiers (Cache/Memory, Cache/Disk),
--              `get` (Cache/Get), `put` (Cache/Put), the batch operations, `invalidate`, `clear` and
--              `stats` (Cache/Batch), `from_builder` (Cache/Open)
--   Kv         src/kv.rs: the blocks and entries; the envelope of an entry (Kv/Envelope), `KvBlockKey`
--              (Kv/Key), `KvCaptureRequest` (Kv/Capture), `PrefixIndex` (Kv/Prefix), and
--              `KvEngine` (Kv/Engine): `get` (Kv/Engine/Get), `put`, `put_to`, `invalidate` and
--              `clear` (Kv/Engine/Put), `set_pinned` (Kv/Engine/Move), `move_block`
--              (Kv/Engine/Transfer), `prefetch_worker` (Kv/Engine/Prefetch), `capture_from` and
--              `restore_into` (Kv/Engine/Runtime); `ContextCacheTier` and the checks of
--              `KvEngineBuilder::build` (Kv/CacheTier)
--   Codec      src/codec.rs: `RleCodec`
--   Reuse      src/reuse.rs: `longest_common_substring` row by row (Reuse/Matching), `align_to_blocks`
--              (Reuse/Align), `SegmentIndex` (Reuse/Index), `restore_reuse` (Reuse/Restore)
--   Quality    src/quality.rs: the policy; `merge_ranges` and `boundary_ranges` (Quality/Ranges),
--              `plan_quality_reuse` (Quality/Planning), `apply_quality_reuse` (Quality/Apply)
--   Control    src/control.rs: `QuotaManager`, `RequestLease` and `StorageReservation`
--              (Control/Quota), all sequences of their calls (Control/Quota/Calls), and
--              `FleetRegistry` (Control/Fleet)
--
-- A string is the list of its UTF-8 bytes. A hash map is an association list whose order is one
-- iteration order: an injected policy is any function of that list, so the theorems for every
-- policy cover every order. An operation takes the second that the clock shows as an argument, and
-- returns the result with the new state; the state before the error is kept on `?`. The metrics sink
-- is the list of events. SHA-256 and `hex::encode` are parameters. An error is its kind.
--
-- The two eviction loops take fuel: one round more than the tier has entries. Each round removes an
-- entry, so the loops end by their own test. The planning loop takes `max_segments` as its fuel: each
-- round adds a span, and the loop ends when it has that many.
--
-- A caller of the quota manager drops a lease or a reservation at any time; a run of the program is a
-- list of calls, in any order. The runtime adapters of src/reuse.rs and src/quality.rs are parameters
-- over a state of their own.
--
-- Not modelled: `FileStore` and the file system, poisoned locks (nothing panics under a lock), the
-- setters of the builders, of src/kv.rs `health` and the thread on which `prefetch_to` runs
-- `prefetch_worker`, of src/codec.rs all but `RleCodec`, of src/control.rs the metrics and the HTTP
-- server, and the modules of the other servers, the adapters and the bindings.
pub mod Prelude
pub mod Policy
pub mod Store
pub mod Cache
pub mod Kv
pub mod Codec
pub mod Reuse
pub mod Quality
pub mod Control
