-- ===== src/Kv/CacheTier/Tests.antt =====
-- Runs of a tier over a cache, and its theorem at a concrete input.
use rivet_cache.Prelude.{◌≡◌, refl, inl, true, [], ◌∷◌, ◌++◌, some, none, arith, replicate}
use rivet_cache.Prelude.Lists.{Bytes, Bytes-discrete, codes}
use rivet_cache.Prelude.Maps.{lookup}
use rivet_cache.Prelude.Words.{to_le_bytes}
use rivet_cache.Prelude.Results.{ok, err, invalid_input}
use rivet_cache.Policy.{choose_victim}
use rivet_cache.Cache.{World, no_inner}
use rivet_cache.Cache.Put
use rivet_cache.Kv.{KvBlockKey, KvTierEntry}
use rivet_cache.Kv.Envelope.{encode_tier_entry}
use rivet_cache.Kv.CacheTier.{ContextCacheTier, tier_get, tier_put, build}
use rivet_cache.Kv.CacheTier.Stored.{tier_get-tier_put}
use rivet_cache.Kv.Engine
use rivet_cache.Kv.Engine.{KvTier, KvWritePolicy, KvEngine, KvEngineInner}
use rivet_cache.Kv.Engine.Get.Fresh.{handed_out}
use rivet_cache.Kv.CacheTier.Primary.{at_second, get-put_primary}
use rivet_cache.Cache.{Duration, is_expired, expiry}
use rivet_cache.Prelude.Words.{sat_add}
use rivet_cache.Kv.CacheTier.{cache_tier, zero_stats}
use rivet_cache.Prelude.{Option}

abbrev key : KvBlockKey
key = record {
  model_fingerprint = codes "m";
  sequence_hash = replicate 32 7;
  block_index = 1;
  token_start = 2;
  token_count = 2;
  layer_start = 0;
  layer_count = 4;
  layout_version = 1;
}

abbrev entry : KvTierEntry
entry = record {
  block = record { key = key; bytes = 1 ∷ 2 ∷ 3 ∷ [] };
  expires_at = 300;
  pinned = true;
}

abbrev sent : Bytes
sent =
    codes "RKV01\n"
    ++ (44 ∷ 1 ∷ 0 ∷ 0 ∷ 0 ∷ 0 ∷ 0 ∷ 0 ∷ 1 ∷ 3 ∷ 0 ∷ 0 ∷ 0 ∷ 0 ∷ 0 ∷ 0 ∷ 0 ∷ 1 ∷ 2 ∷ 3 ∷ [])

encode_runs : encode_tier_entry entry ≡ ok sent
unfolding encode_tier_entry to_le_bytes
encode_runs = refl

abbrev tier : ContextCacheTier (Unit {0})
tier = record {
  name = codes "ram";
  cache = record {
    max_memory_bytes = 100;
    max_disk_bytes = 0;
    default_ttl = record { secs = 60; nanos = 0 };
    store = none;
    validate = λ k. ok tt;
    eviction_policy = choose_victim;
  };
}

abbrev fresh : World (Unit {0})
fresh = record { inner = no_inner; backend = tt; events = [] }

-- A digest that keeps its input.
abbrev as_is : Bytes → Bytes
as_is x = x

put_runs : (tier_put as_is as_is tier 100 entry fresh).0 ≡ ok tt
unfolding tier_put encode_tier_entry to_le_bytes Put.put Put.put_entry Put.put_disk Put.put_memory
    Put.expire_old lookup
put_runs = refl

tier_get-tier_put_example :
    (tier_get as_is as_is tier 5000 key (tier_put as_is as_is tier 100 entry fresh).1).0
    ≡ ok (some entry)
tier_get-tier_put_example =
    tier_get-tier_put as_is as_is tier 100 5000 entry sent fresh (omega arith) (omega arith)
      encode_runs (omega arith) tt (inl refl) put_runs

-- An engine over such tiers; its `tier` is that of the second of each call.
abbrev engine : KvEngine (World (Unit {0}))
engine = record {
  tier = cache_tier as_is as_is tier 100;
  transport = λ k bytes source destination. ok bytes;
  allocator = ok;
  promote_on_read = true;
  write_policy = KvWritePolicy.primary;
}

abbrev two_caches : KvEngineInner (World (Unit {0}))
two_caches = record { tiers = fresh ∷ fresh ∷ []; stats = zero_stats }

abbrev time : Option Duration
time = some (record { secs = 200; nanos = 0 })

engine_put_runs :
    (Engine.Put.put (at_second as_is as_is tier engine 100) 100 entry.block time true two_caches).0
    ≡ ok tt
unfolding Engine.Put.put Engine.Put.put_by_policy Engine.Put.put_entry_to Engine.Put.finish_put
    cache_tier tier_put encode_tier_entry to_le_bytes Put.put Put.put_entry Put.put_disk
    Put.put_memory Put.expire_old lookup expiry sat_add
engine_put_runs = refl

get-put_primary_example :
    (Engine.Get.get
      (at_second as_is as_is tier engine 250)
      250
      key
      (Engine.Put.put
        (at_second as_is as_is tier engine 100)
        100
        entry.block
        time
        true
        two_caches).1).0
    ≡ ok (some entry.block)
unfolding handed_out is_expired expiry sat_add
get-put_primary_example =
    get-put_primary as_is as_is tier engine 100 250 entry.block time true sent two_caches fresh
      (fresh ∷ []) refl refl (omega arith) (omega arith) encode_runs (omega arith) tt (inl refl)
      engine_put_runs refl

-- Two tiers with one name.
abbrev named : KvTier Bytes
named = record {
  name = λ name. name;
  get = λ k s. (ok none, s);
  put = λ entry s. (ok tt, s);
  remove = λ k s. (ok tt, s);
  clear = λ s. (ok tt, s);
}

build_runs : build named (codes "a" ∷ codes "b" ∷ codes "a" ∷ []) ≡ err invalid_input
unfolding build Bytes-discrete
build_runs = refl
