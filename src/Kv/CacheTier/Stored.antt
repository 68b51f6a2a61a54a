-- ===== src/Kv/CacheTier/Stored.antt =====
-- A block in a tier over a cache: the laws of the cache and of the envelope together.
use mathlib.Core.Path.{subst}
use rivet_cache.Prelude.{
  ℕ, ◌≤◌, ◌<◌, ◌+◌, ◌≡◌, ◌⊎◌, refl, true, false, some, arith, length, Bool-cases, inl, inr, ◌==◌,
}
use rivet_cache.Prelude.Lists.{Bytes, Bytes-discrete}
use rivet_cache.Prelude.Maps.{Distinct}
use rivet_cache.Prelude.Words.{u64_max}
use rivet_cache.Prelude.Results.{ok, err≢ok, ok-injective}
use rivet_cache.Cache.{World, is_expired, expiry}
use rivet_cache.Cache.Put.Reads.{get-put}
use rivet_cache.Kv.{KvTierEntry}
use rivet_cache.Kv.Envelope.{encode_tier_entry}
use rivet_cache.Kv.Envelope.RoundTrip.{decode-encode}
use rivet_cache.Kv.CacheTier.{ContextCacheTier, no_time, key_of, tier_get, tier_put}

never_expires : (now later : ℕ) → is_expired (expiry now no_time) later ≡ false
unfolding is_expired expiry
never_expires now later = refl

encode_long :
    (entry : KvTierEntry) (encoded : Bytes)
    → encode_tier_entry entry ≡ ok encoded
    → 0 < length encoded
unfolding encode_tier_entry
encode_long entry encoded h = elim (Bool-cases (length entry.block.bytes == 0)) [
  | inl empty ↦ absurd (err≢ok (rw (empty, encode_tier_entry) at h))
  | inr some_ ↦
      subst (λ x. 0 < length x) (ok-injective (rw (some_, encode_tier_entry) at h)) (omega arith)
]

-- After a successful `put` of an entry whose encoding fits in the memory tier of the cache, a `get`
-- at any time gives the entry back: always if it is pinned, and if not, then where the memory tier had
-- room for it. The memory tier held no key twice, and the expiry and the length of the block fit in
-- 64 bits.
pub tier_get-tier_put :
    {S : Type 0} (sha256 hex_encode : Bytes → Bytes) (t : ContextCacheTier S) (now later : ℕ)
    (entry : KvTierEntry) (encoded : Bytes) (w : World S)
    → entry.expires_at ≤ u64_max
    → length entry.block.bytes ≤ u64_max
    → encode_tier_entry entry ≡ ok encoded
    → length encoded ≤ t.cache.max_memory_bytes
    → Distinct Bytes-discrete w.inner.memory
    → (entry.pinned ≡ true) ⊎ (w.inner.memory_bytes + length encoded ≤ t.cache.max_memory_bytes)
    → (tier_put sha256 hex_encode t now entry w).0 ≡ ok tt
    → (tier_get sha256 hex_encode t later entry.block.key
        (tier_put sha256 hex_encode t now entry w).1).0
      ≡ ok (some entry)
unfolding tier_put tier_get
tier_get-tier_put sha256 hex_encode t now later entry encoded w he hl enc fits d safe h =
    let key = key_of sha256 hex_encode t entry.block.key in
    let stored = rw (enc, tier_put) at h in
    let read =
      get-put t.cache now key encoded (some no_time) entry.pinned w later stored
        (encode_long entry encoded enc) fits d safe (never_expires now later) in
    rw (enc, tier_put, tier_get, read, decode-encode entry encoded he hl enc)
