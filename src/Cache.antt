-- ===== src/Cache.antt =====
-- src/lib.rs: the state of a `ContextCache` and its small helpers. A `Duration` is its whole seconds
-- and its nanoseconds. The mutex around `Inner` is the order of the calls; it is never poisoned,
-- since no operation panics under it. Metrics are the list of events recorded so far.
pub mod Count
pub mod Memory
pub mod Disk
pub mod Get
pub mod Put
pub mod Batch
pub mod Open
pub mod Invariant
mod Tests
use rivet_cache.Prelude.{
  ℕ, ◌+◌, ◌-◌, Bool, true, false, not, ◌&&◌, List, [], ◌∷◌, ◌++◌, Option, none, some, leb, ltb,
  ◌==◌, if◌then◌else◌, max,
}
use rivet_cache.Prelude.Lists.{Bytes, Bytes-discrete}
use rivet_cache.Prelude.Maps.{remove}
use rivet_cache.Prelude.Words.{sat_add}
use rivet_cache.Prelude.Results.{
  ErrorKind, invalid_input, invalid_data, unexpected_eof, Result, ok, err,
}
use rivet_cache.Prelude.States.{Op}
use rivet_cache.Policy.{EvictionPolicy, CacheEvent}
use rivet_cache.Store.{StoreRecord, PersistentStore}

pub record CacheStats : Type 0 where
  pub memory_hits : ℕ
  pub disk_hits : ℕ
  pub misses : ℕ
  pub writes : ℕ
  pub memory_evictions : ℕ
  pub disk_evictions : ℕ
  pub expirations : ℕ
  pub corruptions : ℕ
  pub memory_entries : ℕ
  pub disk_entries : ℕ
  pub memory_bytes : ℕ
  pub disk_bytes : ℕ

pub record MemoryRecord : Type 0 where
  pub value : Bytes
  pub expires_at : ℕ
  pub pinned : Bool
  pub last_access : ℕ

pub record Inner : Type 0 where
  pub memory : List (Bytes × MemoryRecord)
  pub disk : List (Bytes × StoreRecord)
  pub memory_bytes : ℕ
  pub disk_bytes : ℕ
  pub tick : ℕ
  pub stats : CacheStats

pub record Duration : Type 0 where
  pub secs : ℕ
  pub nanos : ℕ

-- The fields of a `ContextCache` that never change. `validate` is the key strategy's.
pub record ContextCache (S : Type 0) : Type 0 where
  pub max_memory_bytes : ℕ
  pub max_disk_bytes : ℕ
  pub default_ttl : Duration
  pub store : Option (PersistentStore S)
  pub validate : Bytes → Result (Unit {0})
  pub eviction_policy : EvictionPolicy

-- The fields that change: `inner`, the backend behind `store`, and what the metrics sink got.
pub record World (S : Type 0) : Type 0 where
  pub inner : Inner
  pub backend : S
  pub events : List CacheEvent

abbrev pub no_stats : CacheStats
no_stats = record {
  memory_hits = 0;
  disk_hits = 0;
  misses = 0;
  writes = 0;
  memory_evictions = 0;
  disk_evictions = 0;
  expirations = 0;
  corruptions = 0;
  memory_entries = 0;
  disk_entries = 0;
  memory_bytes = 0;
  disk_bytes = 0;
}

-- `Inner::default()`.
abbrev pub no_inner : Inner
no_inner = record {
  memory = [];
  disk = [];
  memory_bytes = 0;
  disk_bytes = 0;
  tick = 0;
  stats = no_stats;
}

abbrev pub is_zero : Duration → Bool
is_zero d = d.secs == 0 && d.nanos == 0

unfoldable pub is_expired : ℕ → ℕ → Bool
is_expired expires_at now = not (expires_at == 0) && leb expires_at now

-- The second at which an entry that is written now expires; 0 for never.
unfoldable pub expiry : ℕ → Duration → ℕ
expiry now ttl = if is_zero ttl then 0 else sat_add now (max ttl.secs 1)

unfoldable pub is_corruption_error : ErrorKind → Bool
is_corruption_error invalid_data = true
is_corruption_error unexpected_eof = true
is_corruption_error _ = false

unfoldable pub next_tick : Inner → ℕ × Inner
next_tick i = (sat_add i.tick 1, record i { tick = sat_add i.tick 1 })

-- The entry of a key leaves the index of the persistent tier.
abbrev pub forget_disk : Bytes → ℕ → Inner → Inner
forget_disk key stored_bytes i = record i {
  disk = remove Bytes-discrete key i.disk;
  disk_bytes = i.disk_bytes - stored_bytes;
}

module _ {S : Type 0} where
  abbrev pub on_inner : (Inner → Inner) → World S → World S
  on_inner f w = record w { inner = f w.inner }

  abbrev pub emit : CacheEvent → World S → World S
  emit e w = record w { events = w.events ++ e ∷ [] }

  -- An event with a count is recorded if the count is not 0.
  abbrev pub emit_some : (ℕ → CacheEvent) → ℕ → World S → World S
  emit_some e n w = record w { events = if ltb 0 n then w.events ++ e n ∷ [] else w.events }

  -- A call of the injected store.
  abbrev pub call : {A : Type 0} → Op S A → Op (World S) A
  call f w = let (r, s) = f w.backend in (r, record w { backend = s })
