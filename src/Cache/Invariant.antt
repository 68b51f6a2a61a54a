-- ===== src/Cache/Invariant.antt =====
-- The invariant of the memory tier across the whole operations of a cache under the
-- least-recently-used policy.
pub mod Put
pub mod Get
use rivet_cache.Prelude.{
  ℕ, suc, ◌+◌, ◌-◌, ◌≤◌, ◌<◌, ◌≡◌, ◌≢◌, refl, sym, ap, ◌∙◌, ◌⊎◌, inl, inr, Bool, true, false, List,
  [], ◌∷◌, Option, none, some, arith, length, ltb, leb, if◌then◌else◌, Bool-cases, Option-cases,
  ◌&&◌, ◌||◌, not, bool_eq, ◌==◌,
}
use rivet_cache.Prelude.Lists.{Bytes, Bytes-discrete, All}
use rivet_cache.Prelude.Maps.{
  lookup, insert, remove, total, total-insert, total-remove, insert-Distinct,
}
use rivet_cache.Prelude.Words.{sat_add, u64_max}
use rivet_cache.Prelude.Results.{ErrorKind, Result, ok, err, Result-cases}
use rivet_cache.Policy.{choose_victim}
use rivet_cache.Store.{StoredEntry, StoreRecord, PersistentStore}
use rivet_cache.Cache.{
  is_corruption_error, Inner, MemoryRecord, Duration, ContextCache, World, on_inner, is_expired,
  expiry,
}
use rivet_cache.Cache.Count
use rivet_cache.Cache.Memory.{forget_memory, insert_memory_locked, evict_memory_locked}
use rivet_cache.Cache.Memory.Accounting.{
  give_back_le, size, IsCounted, IsBounded, forget_memory-IsCounted, insert_memory-IsCounted,
  evict_memory-IsCounted, evict_memory-IsBounded,
}
use rivet_cache.Cache.Disk.Frame.{OnlyDisk, remove_disk_record-OnlyDisk}
use rivet_cache.Cache.Get.{
  get, read_memory, read_disk, read_store, read_entry, expire_disk, answer_miss, answer_gone,
  answer_corrupt, answer_hit, cache_value, touch_memory, touch_disk,
}
use rivet_cache.Cache.Put.{put_disk, put_memory, put_entry, put, ttl_or}
use rivet_cache.Cache.Put.Reads.{put_disk-OnlyDisk}

-- The memory tier of a cache with the given capacity: no key twice, `memory_bytes` is the sum of
-- the values' lengths, and above the capacity every entry is pinned.
pub record IsSound (max_memory_bytes : ℕ) (i : Inner) : Type 0 where
  pub count : IsCounted i
  pub bound : IsBounded max_memory_bytes i

-- The invariant speaks of two fields.
pub IsSound-transport :
    (n : ℕ) (i j : Inner)
    → j.memory ≡ i.memory
    → j.memory_bytes ≡ i.memory_bytes
    → IsSound n i
    → IsSound n j
IsSound-transport n i j m b v = record {
  count = record { distinct = rw m v.count.distinct; counted = rw (m, b) v.count.counted };
  bound = rw (m, b) v.bound;
}

All-remove :
    (key : Bytes) (m : List (Bytes × MemoryRecord))
    → All (λ x. x.1.pinned ≡ true) m
    → All (λ x. x.1.pinned ≡ true) (remove Bytes-discrete key m)
unfolding remove
All-remove key [] h = tt
All-remove key ((k, r) ∷ m) h = ground (arith, All-remove key m h.1)

All-lookup :
    (key : Bytes) (r : MemoryRecord) (m : List (Bytes × MemoryRecord))
    → All (λ x. x.1.pinned ≡ true) m
    → lookup Bytes-discrete key m ≡ some r
    → r.pinned ≡ true
unfolding lookup
All-lookup key r [] h e = cc
All-lookup key r ((k, s) ∷ m) h e = ground (arith, All-lookup key r m h.1)

pub forget_memory-IsSound :
    (n : ℕ) (key : Bytes) (i : Inner) → IsSound n i → IsSound n (forget_memory key i)
forget_memory-IsSound n key i v = record {
  count = forget_memory-IsCounted key i v.count;
  bound = elim v.bound [
    | inl small ↦ inl (
        unfold forget_memory in
        omega (arith, give_back_le i.memory_bytes (lookup Bytes-discrete key i.memory)))
    | inr held ↦ inr (unfold forget_memory in All-remove key i.memory held)
  ];
}

pub touch_memory-IsSound :
    (n : ℕ) (key : Bytes) (r : MemoryRecord) (i : Inner)
    → lookup Bytes-discrete key i.memory ≡ some r
    → IsSound n i
    → IsSound n (touch_memory key r i)
unfolding touch_memory insert
touch_memory-IsSound n key r i there v = record {
  count = record {
    distinct =
        insert-Distinct Bytes-discrete key (record r { last_access = sat_add i.tick 1 }) i.memory
          v.count.distinct;
    counted = omega (
      arith,
      v.count.counted,
      rw there at (total-remove Bytes-discrete size key i.memory v.count.distinct),
    );
  };
  bound = elim v.bound [
    | inl small ↦ inl small
    | inr held ↦ inr (All-lookup key r i.memory held there, All-remove key i.memory held)
  ];
}

-- To insert a value that fits, and to evict.
insert_evict-IsSound :
    (n : ℕ) (key value : Bytes) (expires_at : ℕ) (pinned : Bool) (i : Inner)
    → i.memory_bytes + length value ≤ u64_max
    → IsSound n i
    → IsSound n
        (evict_memory_locked n choose_victim (insert_memory_locked key value expires_at pinned i)).1
insert_evict-IsSound n key value expires_at pinned i room v =
    let q = insert_memory-IsCounted key value expires_at pinned i room v.count in
    record {
      count = evict_memory-IsCounted n choose_victim _ q;
      bound = evict_memory-IsBounded n _ q;
    }

-- Room in 64 bits for one more value of the size of the memory tier.
abbrev pub HasRoom : {S : Type 0} → ContextCache S → Inner → Type 0
HasRoom c i = i.memory_bytes + c.max_memory_bytes ≤ u64_max

module _ {S : Type 0} (c : ContextCache S) (lru : c.eviction_policy ≡ choose_victim) (now : ℕ)
    (key : Bytes) where
  pub put_memory-IsSound :
      (entry : StoredEntry) (i : Inner)
      → HasRoom c i
      → IsSound c.max_memory_bytes i
      → IsSound c.max_memory_bytes (put_memory c now key entry i).1
  unfolding put_memory
  put_memory-IsSound entry i room v =
      elim (Bool-cases (ltb 0 c.max_memory_bytes && leb (length entry.value) c.max_memory_bytes)) [
        | inr large ↦ rw (large, put_memory) v
        | inl fits ↦
            rw (fits, put_memory, lru)
              (insert_evict-IsSound c.max_memory_bytes key entry.value entry.expires_at entry.pinned
                i (ground arith) v)
      ]
