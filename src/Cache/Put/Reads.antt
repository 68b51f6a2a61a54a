-- ===== src/Cache/Put/Reads.antt =====
-- What can be read after a `put`, and what a failed one leaves.
use rivet_cache.Prelude.{
  ℕ, ◌+◌, ◌≤◌, ◌<◌, ◌≡◌, refl, ap, ◌∙◌, ◌⊎◌, inl, inr, Bool, true, false, Option, some, arith,
  length, Option-cases,
}
use rivet_cache.Prelude.Lists.{Bytes, Bytes-discrete}
use rivet_cache.Prelude.Maps.{
  lookup, remove, Distinct, lookup-insert_self, insert-Distinct, remove-Distinct,
}
use rivet_cache.Prelude.Words.{sat_add}
use rivet_cache.Prelude.Results.{ErrorKind, ok, err, Result-cases}
use rivet_cache.Store.{StoredEntry, PersistentStore}
use rivet_cache.Cache.{
  Inner, MemoryRecord, Duration, ContextCache, World, on_inner, is_expired, expiry,
}
use rivet_cache.Cache.Memory.{insert_memory_locked}
use rivet_cache.Cache.Memory.Accounting.{
  memory_bytes-insert_memory-le, evict_memory-pinned, evict_memory_idle,
}
use rivet_cache.Cache.Disk.Frame.{
  OnlyDisk, OnlyDisk-trans, remove_disk_record-OnlyDisk, evict_disk-OnlyDisk,
}
use rivet_cache.Cache.Put.{
  note_disk, expire_old, store_new, put_disk, put_memory, put_entry, put, ttl_or,
}
use rivet_cache.Cache.Get.{get}
use rivet_cache.Cache.Get.Sound.{get_hit}

module _ {S : Type 0} (c : ContextCache S) (now : ℕ) (key : Bytes) where
  expire_old-OnlyDisk : (w : World S) → OnlyDisk w (expire_old c now key w).1
  unfolding expire_old
  expire_old-OnlyDisk w = ground (arith, remove_disk_record-OnlyDisk c key true w)

  store_new-OnlyDisk :
      (store : PersistentStore S) (entry : StoredEntry) (w : World S)
      → OnlyDisk w (store_new c now key store entry w).1
  unfolding store_new note_disk
  store_new-OnlyDisk store entry w =
      elim (Result-cases (store.put_if_absent key entry w.backend).0) [
        | inr (e, fails) ↦ ground arith
        | inl (o, done) ↦
            let w' : World S = record w { backend = (store.put_if_absent key entry w.backend).1 } in
            ground (arith, evict_disk-OnlyDisk c (on_inner (note_disk key entry o.stored_bytes) w'))
      ]

  -- The persistent half of `put` leaves the memory tier alone.
  pub put_disk-OnlyDisk :
      (entry : StoredEntry) (w : World S) → OnlyDisk w (put_disk c now key entry w).1
  unfolding put_disk
  put_disk-OnlyDisk entry w = elim (Option-cases c.store) [
    | inl unset ↦ ground arith
    | inr (store, there) ↦
        let w' = (expire_old c now key w).1 in
        let w'' = (store_new c now key store entry w').1 in
        ground
          (arith, expire_old-OnlyDisk w, store_new-OnlyDisk store entry w', OnlyDisk-trans w w' w'')
  ]

  -- A `put` that fails has left the memory tier, the events and the count of writes as they were.
  pub put_fails :
      (value : Bytes) (ttl : Option Duration) (pinned : Bool) (w : World S) (e : ErrorKind)
      → (put c now key value ttl pinned w).0 ≡ err e
      → OnlyDisk w (put c now key value ttl pinned w).1
  unfolding put put_entry
  put_fails value ttl pinned w e h = ground (
    arith,
    put_disk-OnlyDisk
        (record {
          value = value;
          expires_at = expiry now (ttl_or c.default_ttl ttl);
          pinned = pinned;
        })
        w,
  )

  -- What `put` does to the memory tier when it succeeds on a value that is not empty.
  put-memory :
      (value : Bytes) (ttl : Option Duration) (pinned : Bool) (w : World S)
      → (put c now key value ttl pinned w).0 ≡ ok tt
      → 0 < length value
      → (i : Inner) × (i.memory ≡ w.inner.memory)
        × (i.memory_bytes ≡ w.inner.memory_bytes)
        × ((put c now key value ttl pinned w).1.inner.memory
            ≡ (put_memory c now key
                (record {
                  value = value;
                  expires_at = expiry now (ttl_or c.default_ttl ttl);
                  pinned = pinned;
                })
                i).1.memory)
  unfolding put put_entry
  put-memory value ttl pinned w h long =
      let entry : StoredEntry = record {
        value = value;
        expires_at = expiry now (ttl_or c.default_ttl ttl);
        pinned = pinned;
      } in
      let frame = put_disk-OnlyDisk entry w in
      ((put_disk c now key entry w).1.inner, frame.memory, frame.memory_bytes, ground arith)

module _ {S : Type 0} (c : ContextCache S) (now : ℕ) (key : Bytes) (entry : StoredEntry)
    (i : Inner) where
  -- The value that went into the memory tier is still there: it is pinned, or there was room.
  put_memory-lookup :
      0 < length entry.value
      → length entry.value ≤ c.max_memory_bytes
      → Distinct Bytes-discrete i.memory
      → (entry.pinned ≡ true) ⊎ (i.memory_bytes + length entry.value ≤ c.max_memory_bytes)
      → (r : MemoryRecord) × (lookup Bytes-discrete key (put_memory c now key entry i).1.memory
          ≡ some r)
        × (r.value ≡ entry.value)
        × (r.expires_at ≡ entry.expires_at)
  unfolding put_memory
  put_memory-lookup long fits d safe =
      let j = insert_memory_locked key entry.value entry.expires_at entry.pinned i in
      let r : MemoryRecord = record {
        value = entry.value;
        expires_at = entry.expires_at;
        pinned = entry.pinned;
        last_access = sat_add i.tick 1;
      } in
      let there : lookup Bytes-discrete key j.memory ≡ some r =
        unfold insert_memory_locked in
        lookup-insert_self Bytes-discrete key r (remove Bytes-discrete key i.memory) in
      let distinct : Distinct Bytes-discrete j.memory =
        unfold insert_memory_locked in
        insert-Distinct Bytes-discrete key r (remove Bytes-discrete key i.memory)
          (remove-Distinct Bytes-discrete key i.memory d) in
      (
        r,
        elim safe [
          | inl held ↦ ground (
            arith,
            evict_memory-pinned c.max_memory_bytes c.eviction_policy j key r distinct there held,
          )
          | inr room ↦ ground (
            arith,
            there,
            evict_memory_idle c.max_memory_bytes c.eviction_policy j key (
                omega (
                  arith,
                  memory_bytes-insert_memory-le key entry.value entry.expires_at entry.pinned i,
                )),
          )
        ],
        refl,
        refl,
      )

module _ {S : Type 0} (c : ContextCache S) (now : ℕ) (key value : Bytes) (ttl : Option Duration)
    (pinned : Bool) (w : World S) where
  put-valid : (put c now key value ttl pinned w).0 ≡ ok tt → c.validate key ≡ ok tt
  unfolding put
  put-valid h = elim (Result-cases (c.validate key)) [
    | inl (_, valid) ↦ valid
    | inr (e, invalid) ↦ absurd (ground arith)
  ]

  -- After a successful `put` of a value that is not empty and fits in the memory tier, a `get` before
  -- the entry expires returns it: always if it is pinned, and if not, then where the tier had room.
  -- The memory tier held no key twice.
  pub get-put :
      (later : ℕ)
      → (put c now key value ttl pinned w).0 ≡ ok tt
      → 0 < length value
      → length value ≤ c.max_memory_bytes
      → Distinct Bytes-discrete w.inner.memory
      → (pinned ≡ true) ⊎ (w.inner.memory_bytes + length value ≤ c.max_memory_bytes)
      → is_expired (expiry now (ttl_or c.default_ttl ttl)) later ≡ false
      → (get c later key (put c now key value ttl pinned w).1).0 ≡ ok (some value)
  get-put later h long fits d safe fresh =
      let entry : StoredEntry = record {
        value = value;
        expires_at = expiry now (ttl_or c.default_ttl ttl);
        pinned = pinned;
      } in
      let (i, same, bytes, e) = put-memory c now key value ttl pinned w h long in
      let (r, there, v, x) =
        put_memory-lookup c now key entry i long fits (rw (same) d)
          (elim safe [ inl held ↦ inl held | inr room ↦ inr (omega arith) ]) in
      get_hit c later key (put c now key value ttl pinned w).1 r (put-valid h) (rw e there)
        (rw x fresh)
      ∙ ap (λ u. ok (some u)) v
