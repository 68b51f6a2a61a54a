-- ===== src/Cache/Tests.antt =====
-- Runs of src/lib.rs over a `VolatileStore`, and its theorems at concrete inputs.
use rivet_cache.Prelude.{
  ℕ, ◌≡◌, refl, ◌⊎◌, inl, inr, Bool, true, false, [], ◌∷◌, none, some, arith, replicate, ◌≤◌, ◌+◌,
}
use rivet_cache.Prelude.Lists.{Bytes, Bytes-discrete, All}
use rivet_cache.Prelude.Maps.{lookup, insert, remove, total}
use rivet_cache.Prelude.Words.{sat_add}
use rivet_cache.Prelude.Results.{ok, err, other, invalid_input}
use rivet_cache.Policy.{validate, choose_victim}
use rivet_cache.Store.{StoreRecord}
use rivet_cache.Store.Volatile
use rivet_cache.Store.Volatile.{VolatileStore}
use rivet_cache.Cache.{
  Inner, MemoryRecord, ContextCache, World, no_inner, is_expired, expiry, next_tick,
  is_corruption_error,
}
use rivet_cache.Cache.Memory
use rivet_cache.Cache.Memory.Accounting.{IsBounded, evict_memory-IsBounded, evict_memory-pinned}
use rivet_cache.Cache.Disk
use rivet_cache.Cache.Disk.Accounting.{
  IsCovered, stored, evict_disk-IsCovered, evict_disk-IsBounded, remove_disk_record_leaks,
}
use rivet_cache.Cache.Get
use rivet_cache.Cache.Get.{get}
use rivet_cache.Cache.Get.Sound.{FromMemory, FromStore, get-source}
use rivet_cache.Cache.Put
use rivet_cache.Cache.Put.{put}
use rivet_cache.Cache.Put.Reads.{get-put}
use rivet_cache.Cache.Batch.{
  Write, put_many, invalidate_many, invalidate, clear, validate_all, keys_of,
}
use rivet_cache.Cache.Batch
use rivet_cache.Cache.Batch.Laws.{get-invalidate}
use rivet_cache.Cache.Invariant.{IsSound}
use rivet_cache.Cache.Invariant.Put.{put-IsSound}
use rivet_cache.Cache.Invariant.Get.{get-IsSound}

program : Unit {0}
unfolding get Get.read_memory Get.read_disk Get.read_store Get.read_entry Get.expire_disk
    Get.answer_miss Get.answer_gone Get.answer_corrupt Get.answer_hit Get.cache_value
    Get.touch_memory Get.touch_disk put Put.put_entry Put.put_disk Put.put_memory Put.expire_old
    Put.store_new Put.note_disk invalidate Batch.forget_indexed clear Memory.forget_memory
    Memory.insert_memory_locked Memory.evict_memory_locked Memory.victim Memory.evict_loop
    Memory.evict_one Memory.candidates Disk.remove_disk_record_locked Disk.evict_disk_locked
    Disk.victim Disk.evict_loop Disk.candidates lookup insert remove Bytes-discrete sat_add validate
    choose_victim is_expired expiry next_tick is_corruption_error Volatile.get
    Volatile.put_if_absent Volatile.remove Volatile.clear
program = tt

abbrev key_a : Bytes
key_a = replicate 64 b'a'

abbrev key_b : Bytes
key_b = replicate 64 b'b'

abbrev key_c : Bytes
key_c = replicate 64 b'c'

abbrev cache : ContextCache VolatileStore
cache = record {
  max_memory_bytes = 6;
  max_disk_bytes = 6;
  default_ttl = record { secs = 60; nanos = 0 };
  store = some Volatile.store;
  validate = validate;
  eviction_policy = choose_victim;
}

abbrev memory_only : ContextCache VolatileStore
memory_only = record cache { max_disk_bytes = 0; store = none }

abbrev fresh : World VolatileStore
fresh = record { inner = no_inner; backend = Volatile.new; events = [] }

abbrev three : ℕ → Bytes
three x = x ∷ x ∷ x ∷ []

-- The runs of `memory_cache_evicts_least_recently_used_entry`.
abbrev two : World VolatileStore
two =
    (put memory_only 100 key_b (three 2) none false
      (put memory_only 100 key_a (three 1) none false fresh).1).1

abbrev full : World VolatileStore
full = (put memory_only 100 key_c (three 3) none false (get memory_only 100 key_a two).1).1

lru_runs :
    ((get memory_only 100 key_a two).0 ≡ ok (some (three 1)))
    × ((get memory_only 100 key_a full).0 ≡ ok (some (three 1)))
    × ((get memory_only 100 key_b full).0 ≡ ok none)
    × ((get memory_only 100 key_c full).0 ≡ ok (some (three 3)))
    × ((get memory_only 160 key_c full).0 ≡ ok none)
unfolding program
lru_runs = (refl, refl, refl, refl, refl)

-- A put over both tiers, and a read behind a lost memory tier.
abbrev stored_a : World VolatileStore
stored_a = (put cache 100 key_a (three 1) none false fresh).1

abbrev cold : World VolatileStore
cold = record stored_a { inner = record (stored_a.inner) { memory = []; memory_bytes = 0 } }

put_runs : (put cache 100 key_a (three 1) none false fresh).0 ≡ ok tt
unfolding program
put_runs = refl

cold_runs : (get cache 100 key_a cold).0 ≡ ok (some (three 1))
unfolding program
cold_runs = refl

get-put_example : (get cache 159 key_a stored_a).0 ≡ ok (some (three 1))
unfolding program
get-put_example =
    get-put cache 100 key_a (three 1) none false fresh 159 refl (omega arith) (omega arith) tt
      (inr (omega arith)) refl

fresh-IsSound : IsSound 6 no_inner
fresh-IsSound = record {
  count = record { distinct = tt; counted = refl };
  bound = inl (omega arith);
}

put-IsSound_example : IsSound 6 (put cache 100 key_a (three 1) none false fresh).1.inner
put-IsSound_example =
    put-IsSound cache refl 100 key_a (three 1) none false fresh (omega arith) fresh-IsSound

get-IsSound_example : IsSound 6 (get cache 100 key_a stored_a).1.inner
unfolding program
get-IsSound_example = get-IsSound cache refl 100 key_a stored_a (omega arith) put-IsSound_example

-- A bad key.
put_fails_runs : (put cache 100 [] (three 1) none false fresh).0 ≡ err invalid_input
unfolding program
put_fails_runs = refl

get-source_example :
    FromMemory cache 100 key_a cold (three 1) ⊎ FromStore cache 100 key_a cold (three 1)
get-source_example = get-source cache 100 key_a cold (three 1) cold_runs

invalidate_runs : (invalidate cache key_a stored_a).0 ≡ ok tt
unfolding program
invalidate_runs = refl

get-invalidate_example : (get cache 100 key_a (invalidate cache key_a stored_a).1).0 ≡ ok none
get-invalidate_example = get-invalidate cache 100 key_a stored_a invalidate_runs

clear_runs : (clear cache stored_a).0 ≡ ok tt
unfolding program
clear_runs = refl

-- An index above its capacity, with one entry pinned.
abbrev index_record : Bytes → Bool → ℕ → StoreRecord
index_record key pinned tick = record {
  key = key;
  stored_bytes = 5;
  expires_at = 0;
  pinned = pinned;
  last_access = tick;
}

abbrev crowded : World VolatileStore
crowded = record fresh {
  inner = record no_inner {
    disk = (key_a, index_record key_a true 1) ∷ (key_b, index_record key_b false 2) ∷ [];
    disk_bytes = 10;
  };
}

evict_disk_runs : (Disk.evict_disk_locked cache crowded).0 ≡ ok 1
unfolding program
evict_disk_runs = refl

evict_disk-IsBounded_example :
    let i = (Disk.evict_disk_locked cache crowded).1.inner in
    (i.disk_bytes ≤ 6) ⊎ All (λ x. x.1.pinned ≡ true) i.disk
unfolding lookup Bytes-discrete
evict_disk-IsBounded_example =
    evict_disk-IsBounded cache crowded 1 refl (refl, (refl, tt)) evict_disk_runs

evict_disk-IsCovered_example :
    let w = (Disk.evict_disk_locked cache crowded).1 in IsCovered w.inner.disk w.inner.disk_bytes
unfolding lookup Bytes-discrete
evict_disk-IsCovered_example =
    evict_disk-IsCovered cache crowded
      (record { distinct = (refl, (refl, tt)); covered = omega arith })

-- A store that never removes anything.
abbrev stubborn : ContextCache VolatileStore
stubborn = record cache {
  store = some (record (Volatile.store) { remove = λ key s. (err other, s) });
}

remove_disk_record_leaks_example :
    let i = (Disk.remove_disk_record_locked stubborn key_b false crowded).1.inner in
    (i.disk ≡ remove Bytes-discrete key_b crowded.inner.disk)
    × (i.disk_bytes ≡ total stored i.disk + 5)
unfolding lookup Bytes-discrete Disk.remove_disk_record_locked
remove_disk_record_leaks_example =
    remove_disk_record_leaks stubborn crowded key_b false (index_record key_b false 2) other
      (refl, (refl, tt)) refl refl refl

abbrev memory_record : Bytes → Bool → ℕ → MemoryRecord
memory_record value pinned tick = record {
  value = value;
  expires_at = 0;
  pinned = pinned;
  last_access = tick;
}

abbrev heavy : Inner
heavy = record no_inner {
  memory =
      (key_a, memory_record (three 1) true 1)
      ∷ (key_b, memory_record (three 2) false 2)
      ∷ (key_c, memory_record (three 3) false 3)
      ∷ [];
  memory_bytes = 9;
}

evict_memory_runs :
    (Memory.evict_memory_locked 6 choose_victim heavy).1.memory
    ≡ (key_a, memory_record (three 1) true 1) ∷ (key_c, memory_record (three 3) false 3) ∷ []
unfolding program
evict_memory_runs = refl

evict_memory-IsBounded_example : IsBounded 6 (Memory.evict_memory_locked 6 choose_victim heavy).1
unfolding lookup Bytes-discrete
evict_memory-IsBounded_example =
    evict_memory-IsBounded 6 heavy
      (record { distinct = (refl, (refl, (refl, tt))); counted = refl })

evict_memory-pinned_example :
    lookup Bytes-discrete key_a (Memory.evict_memory_locked 6 choose_victim heavy).1.memory
    ≡ some (memory_record (three 1) true 1)
unfolding lookup Bytes-discrete
evict_memory-pinned_example =
    evict_memory-pinned 6 choose_victim heavy key_a (memory_record (three 1) true 1)
      (refl, (refl, (refl, tt))) refl refl
