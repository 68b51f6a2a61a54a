-- ===== src/Cache/Put.antt =====
-- src/lib.rs: `ContextCache::put`. `now` is what the clock shows when the operation starts.
pub mod Reads
use rivet_cache.Prelude.{
  ℕ, ◌+◌, Bool, true, false, not, ◌&&◌, List, [], ◌∷◌, Option, none, some, length, ltb, leb, ◌==◌,
  if◌then◌else◌,
}
use rivet_cache.Prelude.Lists.{Bytes, Bytes-discrete}
use rivet_cache.Prelude.Maps.{lookup, insert}
use rivet_cache.Prelude.Words.{sat_add}
use rivet_cache.Prelude.Results.{Result, ok, err}
use rivet_cache.Prelude.States.{Op}
use rivet_cache.Policy.{CacheEvent, write, memory_eviction, persistent_eviction, expiration}
use rivet_cache.Store.{StoredEntry, StoreRecord, PutOutcome, PersistentStore}
use rivet_cache.Cache.{
  Inner, Duration, ContextCache, World, is_expired, expiry, next_tick, on_inner, emit, emit_some,
  call,
}
use rivet_cache.Cache.Count
use rivet_cache.Cache.Memory.{insert_memory_locked, evict_memory_locked}
use rivet_cache.Cache.Disk.{remove_disk_record_locked, evict_disk_locked}

-- The index notes an entry that the store has just taken.
unfoldable pub note_disk : Bytes → StoredEntry → ℕ → Inner → Inner
unfolding next_tick
note_disk key entry stored_bytes i =
    let (tick, i') = next_tick i in
    record i' {
      disk_bytes = sat_add i'.disk_bytes stored_bytes;
      disk =
          insert Bytes-discrete key
            (record {
              key = key;
              stored_bytes = stored_bytes;
              expires_at = entry.expires_at;
              pinned = entry.pinned;
              last_access = tick;
            })
            i'.disk;
    }

abbrev pub is_none {ℓ} : {A : Type ℓ} → Option A → Bool
is_none none = true
is_none (some _) = false

abbrev pub ttl_or : Duration → Option Duration → Duration
ttl_or d none = d
ttl_or d (some ttl) = ttl

module _ {S : Type 0} (c : ContextCache S) (now : ℕ) (key : Bytes) where
  -- An index entry of the key that has expired goes first. The number of expirations is returned.
  unfoldable pub expire_old : Op (World S) ℕ
  expire_old w = elim (lookup Bytes-discrete key w.inner.disk) [
    | none ↦ (ok 0, w)
    | some existing ↦
        if is_expired existing.expires_at now
        then (let (done, w') = remove_disk_record_locked c key true w in
            elim done [ err e ↦ (err e, w') | ok _ ↦ (ok 1, w') ])
        else (ok 0, w)
  ]

  -- The entry goes to the store if the index does not have the key. The number of evictions is
  -- returned.
  unfoldable pub store_new : PersistentStore S → StoredEntry → Op (World S) ℕ
  store_new store entry w =
      if is_none (lookup Bytes-discrete key w.inner.disk)
      then (let (outcome, w') = call (store.put_if_absent key entry) w in
          elim outcome [
            | err e ↦ (err e, w')
            | ok o ↦
                if o.inserted
                then evict_disk_locked c (on_inner (note_disk key entry o.stored_bytes) w')
                else (ok 0, w')
          ])
      else (ok 0, w)

  -- The persistent half of `put`: how many entries expired, and how many were evicted.
  unfoldable pub put_disk : StoredEntry → Op (World S) (ℕ × ℕ)
  put_disk entry w =
      if ltb 0 c.max_disk_bytes && leb (length entry.value) c.max_disk_bytes
      then elim c.store [
        | none ↦ (ok (0, 0), w)
        | some store ↦
            let (expired, w') = expire_old w in
            elim expired [
              | err e ↦ (err e, w')
              | ok n ↦
                  let (evicted, w'') = store_new store entry w' in
                  elim evicted [ err e ↦ (err e, w'') | ok m ↦ (ok (n, m), w'') ]
            ]
      ]
      else (ok (0, 0), w)

  -- The memory half of `put`.
  unfoldable pub put_memory : StoredEntry → Inner → ℕ × Inner
  put_memory entry i =
      if ltb 0 c.max_memory_bytes && leb (length entry.value) c.max_memory_bytes
      then evict_memory_locked c.max_memory_bytes c.eviction_policy
          (insert_memory_locked key entry.value entry.expires_at entry.pinned i)
      else (0, i)

  -- `put` behind its checks.
  unfoldable pub put_entry : StoredEntry → Op (World S) (Unit {0})
  put_entry entry w =
      let (done, w') = put_disk entry w in
      elim done [
        | err e ↦ (err e, w')
        | ok counts ↦
            let (evictions, i) = put_memory entry w'.inner in
            (
              ok tt,
              emit write (
                  emit_some persistent_eviction counts.1 (
                    emit_some memory_eviction evictions
                      (emit_some expiration counts.0 (record w' { inner = Count.write i })))),
            )
      ]

  unfoldable pub put : Bytes → Option Duration → Bool → Op (World S) (Unit {0})
  put value ttl pinned w = elim (c.validate key) [
    | err e ↦ (err e, w)
    | ok _ ↦
        if length value == 0
        then (ok tt, w)
        else put_entry
            (record {
              value = value;
              expires_at = expiry now (ttl_or c.default_ttl ttl);
              pinned = pinned;
            })
            w
  ]
