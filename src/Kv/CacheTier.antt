-- ===== src/Kv/CacheTier.antt =====
-- src/kv.rs: `ContextCacheTier`, a tier whose blocks are encoded entries of a cache, and the checks
-- of `KvEngineBuilder::build`. An operation of the cache takes the second that its clock shows.
pub mod Stored
pub mod Primary
mod Tests
use rivet_cache.Prelude.{
  ℕ, zero, suc, ◌≤◌, ◌<◌, ◌+◌, ◌≡◌, ◌∙◌, ◌⊎◌, refl, sym, Bool, true, false, ◌||◌, List, [], ◌∷◌,
  Option, none, some, arith, length, if◌then◌else◌, Bool-cases, inl, inr, ite,
}
use rivet_cache.Prelude.Lists.{Bytes, Bytes-discrete}
use rivet_cache.Prelude.Maps.{Distinct}
use rivet_cache.Prelude.Words.{u64_max}
use rivet_cache.Prelude.Text.{is_blank}
use rivet_cache.Prelude.Results.{Result, ok, err, invalid_input, Result-cases, err≢ok}
use rivet_cache.Prelude.States.{Op}
use rivet_cache.Cache.{ContextCache, World, Duration, is_expired, expiry}
use rivet_cache.Cache.Get
use rivet_cache.Cache.Put
use rivet_cache.Cache.Batch
use rivet_cache.Cache.Put.Reads.{get-put}
use rivet_cache.Kv.{KvBlockKey, KvTierEntry}
use rivet_cache.Kv.Key.{cache_key}
use rivet_cache.Kv.Envelope.{encode_tier_entry, decode_tier_entry}
use rivet_cache.Kv.Envelope.RoundTrip.{decode-encode}
use rivet_cache.Kv.Prefix.{is_empty}
use rivet_cache.Kv.Engine.{KvTier, KvEngineInner, KvEngineStats}

abbrev pub no_time : Duration
no_time = record { secs = 0; nanos = 0 }

pub record ContextCacheTier (S : Type 0) : Type 0 where
  pub name : Bytes
  pub cache : ContextCache S

unfoldable pub new_tier : {S : Type 0} → Bytes → ContextCache S → Result (ContextCacheTier S)
new_tier name cache =
    if is_blank name then err invalid_input else ok (record { name = name; cache = cache })

module _ {S : Type 0} (sha256 hex_encode : Bytes → Bytes) (t : ContextCacheTier S) where
  abbrev pub key_of : KvBlockKey → Bytes
  key_of key = cache_key sha256 hex_encode key

  unfoldable pub tier_get : ℕ → KvBlockKey → Op (World S) (Option KvTierEntry)
  tier_get now key w =
      let (r, w') = Get.get t.cache now (key_of key) w in
      elim r [
        | err x ↦ (err x, w')
        | ok none ↦ (ok none, w')
        | ok (some encoded) ↦ elim (decode_tier_entry key encoded) [
          | err x ↦ (err x, w')
          | ok entry ↦ (ok (some entry), w')
        ]
      ]

  unfoldable pub tier_put : ℕ → KvTierEntry → Op (World S) (Unit {0})
  tier_put now entry w = elim (encode_tier_entry entry) [
    | err x ↦ (err x, w)
    | ok encoded ↦
        Put.put t.cache now (key_of entry.block.key) encoded (some no_time) entry.pinned w
  ]

  -- The tier that the engine sees at a second of the clock.
  unfoldable pub cache_tier : ℕ → KvTier (World S)
  unfolding tier_get tier_put
  cache_tier now = record {
    name = λ w. t.name;
    get = tier_get now;
    put = tier_put now;
    remove = λ key. Batch.invalidate t.cache (key_of key);
    clear = Batch.clear t.cache;
  }

-- Whether a name stands twice, or is among those seen.
unfoldable pub has_duplicate : List Bytes → List Bytes → Bool
has_duplicate seen [] = false
has_duplicate seen (name ∷ names) =
    let rest = has_duplicate (name ∷ seen) names in is_seen name seen || rest
  where
    is_seen : Bytes → List Bytes → Bool
    is_seen name [] = false
    is_seen name (other ∷ others) = ite (Bytes-discrete name other) true (is_seen name others)

abbrev pub names_of : {T : Type 0} → KvTier T → List T → List Bytes
names_of tier [] = []
names_of tier (t ∷ ts) = tier.name t ∷ names_of tier ts

abbrev pub zero_stats : KvEngineStats
zero_stats = record {
  hits = 0;
  misses = 0;
  writes = 0;
  promotions = 0;
  transfers = 0;
  bytes_transferred = 0;
  invalidations = 0;
  expirations = 0;
  prefetches = 0;
}

-- The state of the engine that `build` gives, where the fields that never change are those of the
-- builder.
unfoldable pub build : {T : Type 0} → KvTier T → List T → Result (KvEngineInner T)
unfolding has_duplicate
build tier tiers =
    if is_empty tiers
    then err invalid_input
    else if has_duplicate [] (names_of tier tiers)
    then err invalid_input
    else ok (record { tiers = tiers; stats = zero_stats })
