-- ===== src/Store/Volatile.antt =====
-- src/store.rs: `VolatileStore`, the in-process backend. `fetch_add` on the tick wraps around.
use rivet_cache.Prelude.{ℕ, ◌+◌, ◌%◌, ◌^◌, true, false, List, [], map, Option, none, some, length}
use rivet_cache.Prelude.Lists.{Bytes, Bytes-discrete}
use rivet_cache.Prelude.Maps.{lookup, insert, remove as map_remove}
use rivet_cache.Prelude.Words.{sat_add}
use rivet_cache.Prelude.Results.{ok}
use rivet_cache.Prelude.States.{Op}
use rivet_cache.Store.{StoredEntry, StoreRecord, StoreSnapshot, PutOutcome, PersistentStore}

pub record VolatileStore : Type 0 where
  pub entries : List (Bytes × (StoredEntry × ℕ))
  pub tick : ℕ

abbrev pub new : VolatileStore
new = record { entries = []; tick = 0 }

pub next_tick : VolatileStore → ℕ × VolatileStore
next_tick s = (sat_add s.tick 1, record s { tick = (s.tick + 1) % 2 ^ 64 })

abbrev pub record_of : Bytes × (StoredEntry × ℕ) → StoreRecord
record_of (key, (entry, last_access)) = record {
  key = key;
  stored_bytes = length entry.value;
  expires_at = entry.expires_at;
  pinned = entry.pinned;
  last_access = last_access;
}

unfoldable pub load_index : Op VolatileStore StoreSnapshot
load_index s = (ok (record { entries = map record_of s.entries; corruptions = 0 }), s)

unfoldable pub get : Bytes → Op VolatileStore (Option StoredEntry)
unfolding next_tick
get key s =
    let (tick, s') = next_tick s in
    elim (lookup Bytes-discrete key s'.entries) [
      | none ↦ (ok none, s')
      | some (entry, _) ↦ (
        ok (some entry),
        record s' { entries = insert Bytes-discrete key (entry, tick) s'.entries },
      )
    ]

unfoldable pub put_if_absent : Bytes → StoredEntry → Op VolatileStore PutOutcome
unfolding next_tick
put_if_absent key entry s =
    let (tick, s') = next_tick s in
    elim (lookup Bytes-discrete key s'.entries) [
      | some (existing, _) ↦
          (ok (record { inserted = false; stored_bytes = length existing.value }), s')
      | none ↦ (
        ok (record { inserted = true; stored_bytes = length entry.value }),
        record s' { entries = insert Bytes-discrete key (entry, tick) s'.entries },
      )
    ]

unfoldable pub remove : Bytes → Op VolatileStore (Unit {0})
remove key s = (ok tt, record s { entries = map_remove Bytes-discrete key s.entries })

unfoldable pub clear : Op VolatileStore (Unit {0})
clear s = (ok tt, record s { entries = [] })

abbrev pub store : PersistentStore VolatileStore
store = record {
  load_index = load_index;
  get = get;
  put_if_absent = put_if_absent;
  remove = remove;
  clear = clear;
}
