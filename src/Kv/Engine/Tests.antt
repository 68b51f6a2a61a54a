-- ===== src/Kv/Engine/Tests.antt =====
-- Runs of the engine over two tiers, and its theorems at concrete inputs.
use rivet_cache.Prelude.{
  Bool, ◌≡◌, refl, true, false, [], ◌∷◌, Option, none, some, arith, replicate, ite, map, ℕ_discrete,
}
use rivet_cache.Prelude.Lists.{Bytes-discrete, codes}
use rivet_cache.Prelude.Words.{sat_add}
use rivet_cache.Prelude.Results.{ok, err, out_of_memory}
use rivet_cache.Prelude.States.{Op}
use rivet_cache.Cache.{Duration, is_expired, expiry}
use rivet_cache.Kv.{KvBlockKey-discrete, KvBlock, KvBlockKey, KvTierEntry}
use rivet_cache.Kv.Engine.{KvTier, KvWritePolicy, KvEngine, KvEngineInner, KvEngineStats, View}
use rivet_cache.Kv.Engine.Get
use rivet_cache.Kv.Engine.Get.{get}
use rivet_cache.Kv.Engine.Get.Fresh.{first_fresh, handed_out, get-first_fresh}
use rivet_cache.Kv.Engine.Put
use rivet_cache.Kv.Engine.Put.{put, entry_of, invalidate}
use rivet_cache.Kv.Engine.Put.All.{IsUndone, put-undoes_written}
use rivet_cache.Kv.Engine.Move
use rivet_cache.Kv.Engine.Move.{set_pinned}
use rivet_cache.Kv.Engine.Move.Pinned.{AllRepinned, set_pinned-AllRepinned}
use rivet_cache.Prelude.{List, length}
use rivet_cache.Prelude.Lists.{Bytes}
use rivet_cache.Prelude.Results.{Result}
use rivet_cache.Kv.Capture.{
  KvCaptureRequest, block_keys, div_ceil, as_u32, chunks, key_chunks, block_key,
}
use rivet_cache.Kv.Key.{from_prefix, prefix_material, token_bytes}
use rivet_cache.Prelude.Words.{to_le_bytes, sat_mul}
use rivet_cache.Kv.Engine.Runtime.{any_differs}
use rivet_cache.Kv.Engine.Get.{transfer_entry}
use rivet_cache.Kv.Engine.Transfer.{move_block}
use rivet_cache.Kv.Engine.Prefetch.{PrefetchReport}
use rivet_cache.Kv.Engine.Runtime.{RuntimeKvAdapter, put_blocks, capture_from}
use rivet_cache.Kv.Engine.Runtime.Captured.{keys_in, Takes, capture_from-Takes}

-- A tier that keeps the entries of the keys it was given, or refuses to be written.
record Slots : Type 0 where
  entries : View
  full : Bool

change : Slots → KvBlockKey → Option KvTierEntry → Slots
change s k o = record s { entries = λ j. ite (KvBlockKey-discrete k j) o (s.entries j) }

put_slot : KvTierEntry → Op Slots (Unit {0})
put_slot entry s = elim s.full [
  | true ↦ (err out_of_memory, s)
  | false ↦ (ok tt, change s entry.block.key (some entry))
]

abbrev tier : KvTier Slots
tier = record {
  name = λ s. codes "slots";
  get = λ k s. (ok (s.entries k), s);
  put = put_slot;
  remove = λ k s. (ok tt, change s k none);
  clear = λ s. (ok tt, record s { entries = λ k. none });
}

abbrev view : Slots → View
view s = s.entries

tier-Reads :
    (k : KvBlockKey) (t : Slots) (o : Option KvTierEntry) → (tier.get k t).0 ≡ ok o → o ≡ view t k
tier-Reads k t o h = ground arith

abbrev key : KvBlockKey
key = record {
  model_fingerprint = codes "m";
  sequence_hash = replicate 32 7;
  block_index = 1;
  token_start = 2;
  token_count = 2;
  layer_start = 0;
  layer_count = 4;
  layout_version = 1;
}

abbrev block : KvBlock
block = record { key = key; bytes = 1 ∷ 2 ∷ 3 ∷ [] }

abbrev engine : KvWritePolicy → KvEngine Slots
engine policy = record {
  tier = tier;
  transport = λ k bytes source destination. ok bytes;
  allocator = ok;
  promote_on_read = true;
  write_policy = policy;
}

abbrev zero_stats : KvEngineStats
zero_stats = record {
  hits = 0;
  misses = 0;
  writes = 0;
  promotions = 0;
  transfers = 0;
  bytes_transferred = 0;
  invalidations = 0;
  expirations = 0;
  prefetches = 0;
}

abbrev slots : Bool → Slots
slots full = record { entries = λ k. none; full = full }

abbrev two_open : KvEngineInner Slots
two_open = record { tiers = slots false ∷ slots false ∷ []; stats = zero_stats }

abbrev one_full : KvEngineInner Slots
one_full = record { tiers = slots false ∷ slots true ∷ []; stats = zero_stats }

abbrev minute : Option Duration
minute = some (record { secs = 60; nanos = 0 })

abbrev entry : KvTierEntry
entry = record { block = block; expires_at = 160; pinned = false }

put_runs :
    ((put (engine KvWritePolicy.all) 100 block minute false one_full).0 ≡ err out_of_memory)
    × ((put (engine KvWritePolicy.all) 100 block minute false two_open).0 ≡ ok tt)
    × ((put (engine KvWritePolicy.primary) 100 block minute false one_full).0 ≡ ok tt)
unfolding put Put.put_by_policy Put.put_entry_to Put.put_all Put.finish_put put_slot
put_runs = (refl, refl, refl)

put-undoes_written_example :
    IsUndone
      (engine KvWritePolicy.all)
      (entry_of 100 block minute false)
      one_full.tiers
      out_of_memory
      (put (engine KvWritePolicy.all) 100 block minute false one_full).1.tiers
put-undoes_written_example =
    put-undoes_written (engine KvWritePolicy.all) 100 block minute false one_full out_of_memory refl
      put_runs.0

-- The second tier holds the entry.
abbrev slots_entry : Slots
slots_entry = record { entries = λ k. some entry; full = false }

abbrev second_has : KvEngineInner Slots
second_has = record { tiers = slots false ∷ slots_entry ∷ []; stats = zero_stats }

get_runs :
    ((get (engine KvWritePolicy.primary) 110 key second_has).0 ≡ ok (some block))
    × ((get (engine KvWritePolicy.primary) 160 key second_has).0 ≡ ok none)
unfolding get Get.get_from Get.answer_hit Get.promote Get.transfer_entry put_slot is_expired
get_runs = (refl, refl)

get-first_fresh_example :
    handed_out ok (first_fresh 110 key (map view second_has.tiers)) ≡ ok (some block)
get-first_fresh_example =
    get-first_fresh (engine KvWritePolicy.primary) view tier-Reads 110 key second_has (some block)
      get_runs.0

put_get_runs :
    (get
      (engine KvWritePolicy.primary)
      110
      key
      (put (engine KvWritePolicy.primary) 100 block minute false one_full).1).0
    ≡ ok (some block)
unfolding get Get.get_from Get.answer_hit Get.promote Get.transfer_entry put_slot is_expired put
    Put.put_by_policy Put.put_entry_to Put.finish_put change KvBlockKey-discrete Bytes-discrete
    ℕ_discrete sat_add expiry
put_get_runs = refl

invalidate_runs :
    ((invalidate (engine KvWritePolicy.primary) key second_has).0 ≡ ok tt)
    × ((get
          (engine KvWritePolicy.primary)
          110
          key
          (invalidate (engine KvWritePolicy.primary) key second_has).1).0
        ≡ ok none)
unfolding get Get.get_from invalidate Put.invalidate_all change KvBlockKey-discrete Bytes-discrete
    ℕ_discrete
invalidate_runs = (refl, refl)

set_pinned_runs : (set_pinned (engine KvWritePolicy.primary) 110 key true second_has).0 ≡ ok true
unfolding set_pinned Move.pin_all is_expired put_slot
set_pinned_runs = refl

set_pinned-AllRepinned_example :
    AllRepinned
      (engine KvWritePolicy.primary)
      110
      key
      true
      second_has.tiers
      true
      (set_pinned (engine KvWritePolicy.primary) 110 key true second_has).1.tiers
set_pinned-AllRepinned_example =
    set_pinned-AllRepinned (engine KvWritePolicy.primary) 110 key true second_has true
      set_pinned_runs

-- The second tier gives its entry to the first one.
move_runs : (move_block (engine KvWritePolicy.primary) 110 key 1 0 true second_has).0 ≡ ok true
unfolding move_block is_expired transfer_entry put_slot
move_runs = refl

abbrev report : PrefetchReport
report = record { requested = 1; populated = 1; missed = 0 }

-- A digest that keeps its input, and a runtime that gives a block for each key.
abbrev as_is : Bytes → Bytes
as_is x = x

abbrev blocks_of : Result (List KvBlockKey) → Result (List KvBlock)
blocks_of (err x) = err x
blocks_of (ok keys) = ok (map (λ k. record { key = k; bytes = 1 ∷ [] }) keys)

abbrev runtime : RuntimeKvAdapter (Unit {0})
runtime = record {
  capture = λ request r. (blocks_of (block_keys as_is request), r);
  restore = λ blocks r. (ok tt, r);
}

abbrev request : KvCaptureRequest
request = record {
  model_fingerprint = codes "m";
  tokens = 5 ∷ 6 ∷ 7 ∷ [];
  block_tokens = 2;
  layer_start = 0;
  layer_count = 4;
  layout_version = 1;
}

capture_runs :
    (capture_from
      (engine KvWritePolicy.primary)
      as_is
      runtime
      (λ i. 100)
      request
      minute
      false
      (two_open, tt)).0
    ≡ ok 2
unfolding capture_from block_keys div_ceil key_chunks chunks KvBlockKey-discrete Bytes-discrete
    block_key from_prefix prefix_material to_le_bytes sat_add sat_mul token_bytes as_u32 put
    put_slot change ℕ_discrete expiry Put.finish_put Put.put_by_policy Put.put_entry_to any_differs
    put_blocks
capture_runs = refl

capture_from-Takes_example :
    (blocks : List KvBlock) × (blocks_of (block_keys as_is request) ≡ ok blocks)
    × (block_keys as_is request ≡ ok (keys_in blocks))
    × (2 ≡ length blocks)
    × ((last : Slots) × ((capture_from
            (engine KvWritePolicy.primary)
            as_is
            runtime
            (λ i. 100)
            request
            minute
            false
            (two_open, tt)).1.0.tiers
          ≡ last ∷ slots false ∷ [])
        × Takes (engine KvWritePolicy.primary) (λ i. 100) 0 minute false (slots false) blocks last)
capture_from-Takes_example =
    capture_from-Takes (engine KvWritePolicy.primary) as_is runtime (λ i. 100) request minute false
      two_open tt 2 (slots false) (slots false ∷ []) refl refl capture_runs
