-- ===== src/Cache/Invariant/Get.antt =====
-- `get` keeps the invariant of the memory tier.
use rivet_cache.Prelude.{
  ℕ, ◌≡◌, refl, inl, inr, true, Option, none, some, arith, Bool-cases, Option-cases, ◌||◌, not,
  bool_eq, ◌==◌,
}
use rivet_cache.Prelude.Lists.{Bytes, Bytes-discrete}
use rivet_cache.Prelude.Maps.{lookup}
use rivet_cache.Prelude.Results.{Result, ok, err, Result-cases}
use rivet_cache.Policy.{choose_victim}
use rivet_cache.Store.{StoredEntry, StoreRecord, PersistentStore}
use rivet_cache.Cache.{is_corruption_error, ContextCache, World, is_expired}
use rivet_cache.Cache.Count
use rivet_cache.Cache.Memory.{forget_memory}
use rivet_cache.Cache.Memory.Accounting.{give_back_le}
use rivet_cache.Cache.Disk.Frame.{remove_disk_record-OnlyDisk}
use rivet_cache.Cache.Get.{
  get, read_memory, read_disk, read_store, read_entry, expire_disk, answer_miss, answer_gone,
  answer_corrupt, answer_hit, cache_value, touch_disk,
}
use rivet_cache.Cache.Put.{put_memory}
use rivet_cache.Cache.Invariant.{
  IsSound, HasRoom, IsSound-transport, forget_memory-IsSound, touch_memory-IsSound,
  put_memory-IsSound,
}

module _ {S : Type 0} (c : ContextCache S) (lru : c.eviction_policy ≡ choose_victim) (now : ℕ)
    (key : Bytes) where
  answer_corrupt-IsSound :
      (store : PersistentStore S) (r : StoreRecord) (w : World S)
      → IsSound c.max_memory_bytes w.inner
      → IsSound c.max_memory_bytes (answer_corrupt c now key store r w).1.inner
  unfolding answer_corrupt
  answer_corrupt-IsSound store r w v =
      IsSound-transport c.max_memory_bytes w.inner (answer_corrupt c now key store r w).1.inner
        (ground arith) (ground arith) v

  read_entry-IsSound :
      (store : PersistentStore S) (n : ℕ) (r : StoreRecord) (found : Result (Option StoredEntry))
      (w : World S)
      → HasRoom c w.inner
      → IsSound c.max_memory_bytes w.inner
      → IsSound c.max_memory_bytes (read_entry c now key store n r found w).1.inner
  unfolding read_entry answer_gone answer_hit
  read_entry-IsSound store n r (ok none) w room v =
      IsSound-transport c.max_memory_bytes w.inner _ refl refl v
  read_entry-IsSound store n r (err e) w room v = elim (Bool-cases (is_corruption_error e)) [
    | inl corrupt ↦ rw (corrupt, read_entry) (answer_corrupt-IsSound store r w v)
    | inr other ↦ rw (other, read_entry) v
  ]
  read_entry-IsSound store n r (ok (some e)) w room v =
      elim (Bool-cases (not (e.expires_at == r.expires_at) || not (bool_eq e.pinned r.pinned))) [
        | inl differs ↦ rw (differs, read_entry) (answer_corrupt-IsSound store r w v)
        | inr agrees ↦
            let i = touch_disk key w.inner in
            let u : IsSound c.max_memory_bytes i =
              IsSound-transport c.max_memory_bytes w.inner i (unfold touch_disk in refl)
                (unfold touch_disk in refl) v in
            let q : IsSound c.max_memory_bytes (cache_value c now key e i).1 =
              unfold cache_value put_memory in
              (put_memory-IsSound c lru now key e i (unfold touch_disk in room) u) in
            rw (agrees, read_entry)
              (IsSound-transport c.max_memory_bytes (cache_value c now key e i).1 _ refl refl q)
      ]

  read_store-IsSound :
      (n : ℕ) (r : StoreRecord) (o : Option (PersistentStore S)) (w : World S)
      → HasRoom c w.inner
      → IsSound c.max_memory_bytes w.inner
      → IsSound c.max_memory_bytes (read_store c now key n r o w).1.inner
  unfolding read_store answer_gone
  read_store-IsSound n r none w room v = IsSound-transport c.max_memory_bytes w.inner _ refl refl v
  read_store-IsSound n r (some store) w room v =
      read_entry-IsSound store n r (store.get key w.backend).0
        (record w { backend = (store.get key w.backend).1 }) room v

  read_disk-IsSound :
      (n : ℕ) (w : World S)
      → HasRoom c w.inner
      → IsSound c.max_memory_bytes w.inner
      → IsSound c.max_memory_bytes (read_disk c now key n w).1.inner
  unfolding read_disk expire_disk answer_miss
  read_disk-IsSound n w room v = elim (Option-cases (lookup Bytes-discrete key w.inner.disk)) [
    | inl absent ↦
        rw (absent, read_disk) (IsSound-transport c.max_memory_bytes w.inner _ refl refl v)
    | inr (r, there) ↦ elim (Bool-cases (is_expired r.expires_at now)) [
      | inl stale ↦
          let f = remove_disk_record-OnlyDisk c key true w in
          IsSound-transport c.max_memory_bytes w.inner (read_disk c now key n w).1.inner
            (ground arith) (ground arith) v
      | inr fresh ↦ rw (there, read_disk, fresh) (read_store-IsSound n r c.store w room v)
    ]
  ]

  -- Under the least-recently-used policy, and where `memory_bytes` has room in 64 bits for one more
  -- value of the size of the memory tier, `get` keeps the invariant of the memory tier, whatever it
  -- returns: no key twice, an exact byte count, and a tier above its capacity has only pinned entries.
  pub get-IsSound :
      (w : World S)
      → HasRoom c w.inner
      → IsSound c.max_memory_bytes w.inner
      → IsSound c.max_memory_bytes (get c now key w).1.inner
  unfolding get read_memory
  get-IsSound w room v = elim (Result-cases (c.validate key)) [
    | inr (e, invalid) ↦ rw (invalid, get) v
    | inl (_, valid) ↦ elim (Option-cases (lookup Bytes-discrete key w.inner.memory)) [
      | inl absent ↦ rw (valid, get, absent, read_memory) (read_disk-IsSound 0 w room v)
      | inr (r, there) ↦ elim (Bool-cases (is_expired r.expires_at now)) [
        | inr fresh ↦
            rw (valid, get, there, read_memory, fresh)
              (touch_memory-IsSound c.max_memory_bytes key r w.inner there v)
        | inl stale ↦
            let i = forget_memory key w.inner in
            let u = forget_memory-IsSound c.max_memory_bytes key w.inner v in
            let j = Count.expiration i in
            rw (valid, get, there, read_memory, stale)
              (read_disk-IsSound 1 (record w { inner = j })
                (unfold forget_memory in
                  omega (
                    arith,
                    give_back_le w.inner.memory_bytes (lookup Bytes-discrete key w.inner.memory),
                  ))
                (IsSound-transport c.max_memory_bytes i j refl refl u))
      ]
    ]
  ]
