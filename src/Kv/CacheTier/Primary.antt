-- ===== src/Kv/CacheTier/Primary.antt =====
-- A block that the engine puts into a cache as its first tier, and gets from it.
use rivet_cache.Prelude.{
  ℕ, ◌≤◌, ◌+◌, ◌≡◌, ◌⊎◌, ap, ◌∙◌, Bool, true, false, List, [], ◌∷◌, Option, some, length,
  Bool-cases, inl, inr,
}
use rivet_cache.Prelude.Lists.{Bytes, Bytes-discrete}
use rivet_cache.Prelude.Maps.{Distinct}
use rivet_cache.Prelude.Words.{u64_max}
use rivet_cache.Prelude.Results.{ok, Result-cases}
use rivet_cache.Cache.{World, Duration, is_expired}
use rivet_cache.Kv.{KvBlock, KvBlockKey, KvTierEntry}
use rivet_cache.Kv.Envelope.{encode_tier_entry}
use rivet_cache.Kv.Engine.{KvWritePolicy, KvEngine, KvEngineInner, KvEngineStats}
use rivet_cache.Kv.Engine.Get.{get, get_from, answer_hit, promote}
use rivet_cache.Kv.Engine.Get.Fresh.{handed_out}
use rivet_cache.Kv.Engine.Put.{put, entry_of}
use rivet_cache.Kv.Engine.Put.First.{put-first}
use rivet_cache.Kv.CacheTier.{ContextCacheTier, tier_put, cache_tier}
use rivet_cache.Kv.CacheTier.Stored.{tier_get-tier_put}

answer_hit-first :
    {T : Type 0} (e : KvEngine T) (entry : KvTierEntry) (t : T) (ts : List T)
    (stats : KvEngineStats)
    → (answer_hit e entry [] t ts stats).0 ≡ handed_out e.allocator (some entry)
unfolding answer_hit promote handed_out
answer_hit-first e entry t ts stats = elim (Bool-cases e.promote_on_read) [
  | inl promotes ↦ elim (Result-cases (e.allocator entry.block.bytes)) [
    | inl (bytes, q) ↦ rw (promotes, answer_hit, handed_out, q)
    | inr (x, q) ↦ rw (promotes, answer_hit, handed_out, q)
  ]
  | inr not_ ↦ elim (Result-cases (e.allocator entry.block.bytes)) [
    | inl (bytes, q) ↦ rw (not_, answer_hit, handed_out, q)
    | inr (x, q) ↦ rw (not_, answer_hit, handed_out, q)
  ]
]

get-first :
    {T : Type 0} (e : KvEngine T) (now : ℕ) (key : KvBlockKey) (inner : KvEngineInner T) (t : T)
    (ts : List T) (entry : KvTierEntry)
    → inner.tiers ≡ t ∷ ts
    → (e.tier.get key t).0 ≡ ok (some entry)
    → is_expired entry.expires_at now ≡ false
    → (get e now key inner).0 ≡ handed_out e.allocator (some entry)
unfolding get get_from
get-first e now key inner t ts entry there answer fresh =
    ap (λ us. (get_from e now key [] us inner.stats).0) there
    ∙ rw (get_from, answer, fresh) (answer_hit-first e entry (e.tier.get key t).1 ts _)

-- The engine over caches of one configuration, at a second of the clock.
abbrev pub at_second :
    {S : Type 0}
    → (Bytes → Bytes)
    → (Bytes → Bytes)
    → ContextCacheTier S
    → KvEngine (World S)
    → ℕ
    → KvEngine (World S)
at_second sha256 hex_encode t e now = record e { tier = cache_tier sha256 hex_encode t now }

-- The tiers are caches of one configuration and the policy is `Primary`. After a successful `put` of a
-- block whose encoded entry fits in the memory tier of the first cache, a `get` before the entry
-- expires answers as the allocator does for the bytes of the block: with a copy, or with its error.
-- The block is pinned, or the memory tier had room for it; the memory tier held no key twice, and the
-- expiry and the length of the block fit in 64 bits.
pub get-put_primary :
    {S : Type 0} (sha256 hex_encode : Bytes → Bytes) (t : ContextCacheTier S)
    (e : KvEngine (World S)) (now later : ℕ) (block : KvBlock) (ttl : Option Duration)
    (pinned : Bool) (encoded : Bytes) (inner : KvEngineInner (World S)) (w : World S)
    (ws : List (World S))
    → e.write_policy ≡ KvWritePolicy.primary
    → inner.tiers ≡ w ∷ ws
    → (entry_of now block ttl pinned).expires_at ≤ u64_max
    → length block.bytes ≤ u64_max
    → encode_tier_entry (entry_of now block ttl pinned) ≡ ok encoded
    → length encoded ≤ t.cache.max_memory_bytes
    → Distinct Bytes-discrete w.inner.memory
    → (pinned ≡ true) ⊎ (w.inner.memory_bytes + length encoded ≤ t.cache.max_memory_bytes)
    → (put (at_second sha256 hex_encode t e now) now block ttl pinned inner).0 ≡ ok tt
    → is_expired (entry_of now block ttl pinned).expires_at later ≡ false
    → (get
        (at_second sha256 hex_encode t e later)
        later
        block.key
        (put (at_second sha256 hex_encode t e now) now block ttl pinned inner).1).0
      ≡ handed_out e.allocator (some (entry_of now block ttl pinned))
unfolding cache_tier
get-put_primary sha256 hex_encode t e now later block ttl pinned encoded inner w ws primary there
      short_expiry short enc fits distinct safe h fresh =
    let entry = entry_of now block ttl pinned in
    let (stored, tiers) =
      put-first (at_second sha256 hex_encode t e now) now block ttl pinned inner w ws primary there
        h in
    let answer =
      tier_get-tier_put sha256 hex_encode t now later entry encoded w short_expiry short enc fits
        distinct safe stored in
    get-first (at_second sha256 hex_encode t e later) later block.key
      (put (at_second sha256 hex_encode t e now) now block ttl pinned inner).1
      (tier_put sha256 hex_encode t now entry w).1 ws entry tiers answer fresh
