-- ===== src/Cache/Get.antt =====
-- src/lib.rs: `ContextCache::get`. `now` is what the clock shows when the operation starts.
pub mod Sound
use rivet_cache.Prelude.{
  ℕ, ◌+◌, ◌-◌, Bool, true, false, not, ◌&&◌, ◌||◌, List, [], ◌∷◌, Option, none, some, length, ltb,
  leb, ◌==◌, bool_eq, if◌then◌else◌,
}
use rivet_cache.Prelude.Lists.{Bytes, Bytes-discrete}
use rivet_cache.Prelude.Maps.{lookup, insert}
use rivet_cache.Prelude.Words.{sat_add}
use rivet_cache.Prelude.Results.{Result, ok, err}
use rivet_cache.Prelude.States.{Op}
use rivet_cache.Policy.{
  CacheEvent, memory_hit, persistent_hit, miss, memory_eviction, expiration, corruption,
}
use rivet_cache.Store.{StoredEntry, StoreRecord, PersistentStore}
use rivet_cache.Cache.{
  Inner, MemoryRecord, ContextCache, World, is_expired, is_corruption_error, next_tick, forget_disk,
  on_inner, emit, emit_some, call,
}
use rivet_cache.Cache.Count
use rivet_cache.Cache.Memory.{forget_memory, insert_memory_locked, evict_memory_locked}
use rivet_cache.Cache.Disk.{remove_disk_record_locked}

-- A hit in memory: the entry becomes the one used last.
unfoldable pub touch_memory : Bytes → MemoryRecord → Inner → Inner
unfolding next_tick
touch_memory key r i =
    let (tick, i') = next_tick i in
    Count.memory_hit
      (record i' { memory = insert Bytes-discrete key (record r { last_access = tick }) i'.memory })

-- A hit in the store: the index notes the use, if it has the key.
unfoldable pub touch_disk : Bytes → Inner → Inner
unfolding next_tick
touch_disk key i =
    let (tick, i') = next_tick i in
    Count.disk_hit (record i' {
      disk = elim (lookup Bytes-discrete key i'.disk) [
        | none ↦ i'.disk
        | some r ↦ insert Bytes-discrete key (record r { last_access = tick }) i'.disk
      ];
    })

module _ {S : Type 0} (c : ContextCache S) (now : ℕ) (key : Bytes) where
  -- The ways to end with a miss, each with its events.
  unfoldable pub answer_miss : ℕ → Op (World S) (Option Bytes)
  answer_miss expirations w =
      (ok none, emit miss (emit_some expiration expirations (on_inner Count.miss w)))

  -- The entry leaves the index, and the backend too where `store.remove` was called before.
  unfoldable pub answer_gone : StoreRecord → Op (World S) (Option Bytes)
  answer_gone r w =
      (ok none, emit miss (on_inner (λ i. Count.miss (forget_disk key r.stored_bytes i)) w))

  unfoldable pub answer_corrupt : PersistentStore S → StoreRecord → Op (World S) (Option Bytes)
  answer_corrupt store r w =
      let (done, w') = call (store.remove key) w in
      elim done [
        | err e ↦ (err e, w')
        | ok _ ↦ (
          ok none,
          emit miss (
              emit (corruption 1) (
                on_inner (λ i. Count.miss (Count.corruption 1 (forget_disk key r.stored_bytes i)))
                  w')),
        )
      ]

  -- The value goes into the memory tier if it fits there.
  unfoldable pub cache_value : StoredEntry → Inner → ℕ × Inner
  cache_value entry i =
      if ltb 0 c.max_memory_bytes && leb (length entry.value) c.max_memory_bytes
      then evict_memory_locked c.max_memory_bytes c.eviction_policy
          (insert_memory_locked key entry.value entry.expires_at entry.pinned i)
      else (0, i)

  unfoldable pub answer_hit : ℕ → StoredEntry → Op (World S) (Option Bytes)
  answer_hit expirations entry w =
      let (evictions, i) = cache_value entry (touch_disk key w.inner) in
      (
        ok (some entry.value),
        emit persistent_hit (
            emit_some memory_eviction evictions
              (emit_some expiration expirations (record w { inner = i }))),
      )

  -- What the store returned for a key of the index.
  unfoldable pub read_entry :
      PersistentStore S
      → ℕ
      → StoreRecord
      → Result (Option StoredEntry)
      → Op (World S) (Option Bytes)
  read_entry store expirations r (err e) w =
      if is_corruption_error e then answer_corrupt store r w else (err e, w)
  read_entry store expirations r (ok none) w = answer_gone r w
  read_entry store expirations r (ok (some entry)) w =
      if not (entry.expires_at == r.expires_at) || not (bool_eq entry.pinned r.pinned)
      then answer_corrupt store r w
      else answer_hit expirations entry w

  unfoldable pub read_store :
      ℕ → StoreRecord → Option (PersistentStore S) → Op (World S) (Option Bytes)
  read_store expirations r none w = answer_gone r w
  read_store expirations r (some store) w =
      let (found, w') = call (store.get key) w in read_entry store expirations r found w'

  -- An entry of the index that has expired is removed from the store.
  unfoldable pub expire_disk : ℕ → Op (World S) (Option Bytes)
  expire_disk expirations w =
      let (done, w') = remove_disk_record_locked c key true w in
      elim done [
        | err e ↦ (err e, w')
        | ok _ ↦ (
          ok none,
          emit miss (emit (expiration (sat_add expirations 1)) (on_inner Count.miss w')),
        )
      ]

  unfoldable pub read_disk : ℕ → Op (World S) (Option Bytes)
  read_disk expirations w = elim (lookup Bytes-discrete key w.inner.disk) [
    | none ↦ answer_miss expirations w
    | some r ↦
        if is_expired r.expires_at now
        then expire_disk expirations w
        else read_store expirations r c.store w
  ]

  unfoldable pub read_memory : Op (World S) (Option Bytes)
  read_memory w = elim (lookup Bytes-discrete key w.inner.memory) [
    | none ↦ read_disk 0 w
    | some r ↦
        if is_expired r.expires_at now
        then read_disk 1 (on_inner (λ i. Count.expiration (forget_memory key i)) w)
        else (ok (some r.value), emit memory_hit (on_inner (touch_memory key r) w))
  ]

  unfoldable pub get : Op (World S) (Option Bytes)
  get w = elim (c.validate key) [ err e ↦ (err e, w) | ok _ ↦ read_memory w ]
