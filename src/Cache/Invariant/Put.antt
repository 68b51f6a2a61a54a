-- ===== src/Cache/Invariant/Put.antt =====
-- `put` keeps the invariant of the memory tier.
use rivet_cache.Prelude.{ℕ, ◌≡◌, refl, inl, inr, Bool, Option, arith, length, Bool-cases, ◌==◌}
use rivet_cache.Prelude.Lists.{Bytes}
use rivet_cache.Prelude.Results.{Result-cases}
use rivet_cache.Policy.{choose_victim}
use rivet_cache.Store.{StoredEntry}
use rivet_cache.Cache.{Duration, ContextCache, World, expiry}
use rivet_cache.Cache.Put.{put_disk, put_memory, put_entry, put, ttl_or}
use rivet_cache.Cache.Put.Reads.{put_disk-OnlyDisk}
use rivet_cache.Cache.Invariant.{IsSound, HasRoom, IsSound-transport, put_memory-IsSound}

module _ {S : Type 0} (c : ContextCache S) (lru : c.eviction_policy ≡ choose_victim) (now : ℕ)
    (key : Bytes) where
  -- Under the least-recently-used policy, and where `memory_bytes` has room in 64 bits for one more
  -- value of the size of the memory tier, `put` keeps the invariant of the memory tier, whatever it
  -- returns: no key twice, an exact byte count, and a tier above its capacity has only pinned entries.
  pub put-IsSound :
      (value : Bytes) (ttl : Option Duration) (pinned : Bool) (w : World S)
      → HasRoom c w.inner
      → IsSound c.max_memory_bytes w.inner
      → IsSound c.max_memory_bytes (put c now key value ttl pinned w).1.inner
  unfolding put put_entry
  put-IsSound value ttl pinned w room v = elim (Result-cases (c.validate key)) [
    | inr (e, invalid) ↦ rw (invalid, put) v
    | inl (_, valid) ↦ elim (Bool-cases (length value == 0)) [
      | inl empty ↦ rw (valid, put, empty) v
      | inr long ↦
          let entry : StoredEntry = record {
            value = value;
            expires_at = expiry now (ttl_or c.default_ttl ttl);
            pinned = pinned;
          } in
          let w' = (put_disk c now key entry w).1 in
          let f = put_disk-OnlyDisk c now key entry w in
          let v' =
            IsSound-transport c.max_memory_bytes w.inner w'.inner f.memory f.memory_bytes v in
          elim (Result-cases (put_disk c now key entry w).0) [
            | inr (e, fails) ↦ rw (valid, put, long, put_entry, fails) v'
            | inl (counts, done) ↦
                let q = put_memory-IsSound c lru now key entry w'.inner (omega arith) v' in
                rw (valid, put, long, put_entry, done)
                  (IsSound-transport c.max_memory_bytes (put_memory c now key entry w'.inner).1 _
                    refl refl q)
          ]
    ]
  ]
