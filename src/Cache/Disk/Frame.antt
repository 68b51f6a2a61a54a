-- ===== src/Cache/Disk/Frame.antt =====
-- What the operations on the persistent tier leave alone: the memory tier, the events, and the
-- counters of hits, misses and writes.
use rivet_cache.Prelude.{ℕ, zero, suc, ◌+◌, ◌≡◌, inl, inr, Bool, false, arith, length, Option-cases}
use rivet_cache.Prelude.Lists.{Bytes}
use rivet_cache.Prelude.Words.{sat_add}
use rivet_cache.Prelude.Results.{Result-cases}
use rivet_cache.Cache.{ContextCache, World, on_inner}
use rivet_cache.Cache.Count
use rivet_cache.Cache.Disk.{remove_disk_record_locked, victim, evict_loop, evict_disk_locked}

-- From `w` to `w'` only the persistent tier, the tick and its own counters changed.
pub record OnlyDisk {S : Type 0} (w w' : World S) : Type 0 where
  pub memory : w'.inner.memory ≡ w.inner.memory
  pub memory_bytes : w'.inner.memory_bytes ≡ w.inner.memory_bytes
  pub memory_hits : w'.inner.stats.memory_hits ≡ w.inner.stats.memory_hits
  pub disk_hits : w'.inner.stats.disk_hits ≡ w.inner.stats.disk_hits
  pub misses : w'.inner.stats.misses ≡ w.inner.stats.misses
  pub writes : w'.inner.stats.writes ≡ w.inner.stats.writes
  pub events : w'.events ≡ w.events

module _ {S : Type 0} where
  pub OnlyDisk-refl : (w : World S) → OnlyDisk w w
  OnlyDisk-refl w = ground arith

  pub OnlyDisk-trans : (u v w : World S) → OnlyDisk u v → OnlyDisk v w → OnlyDisk u w
  OnlyDisk-trans u v w p q = ground arith

module _ {S : Type 0} (c : ContextCache S) where
  pub remove_disk_record-OnlyDisk :
      (key : Bytes) (expired : Bool) (w : World S)
      → OnlyDisk w (remove_disk_record_locked c key expired w).1
  unfolding remove_disk_record_locked
  remove_disk_record-OnlyDisk key expired w = ground arith

  evict_loop-OnlyDisk :
      (fuel evicted : ℕ) (w : World S) → OnlyDisk w (evict_loop c fuel evicted w).1
  unfolding evict_loop
  evict_loop-OnlyDisk zero evicted w = ground arith
  evict_loop-OnlyDisk (suc fuel) evicted w = elim (Option-cases (victim c w.inner)) [
    | inl ends ↦ rw (ends, evict_loop) (OnlyDisk-refl w)
    | inr (v, chosen) ↦
        let removed = remove_disk_record_locked c v.key false w in
        let first = remove_disk_record-OnlyDisk v.key false w in
        elim (Result-cases removed.0) [
          | inr (e, fails) ↦ rw (chosen, evict_loop, fails) first
          | inl (_, done) ↦
              let next = on_inner Count.disk_eviction removed.1 in
              rw (chosen, evict_loop, done)
                (OnlyDisk-trans w next (evict_loop c fuel (sat_add evicted 1) next).1
                  (OnlyDisk-trans w removed.1 next first (ground arith))
                  (evict_loop-OnlyDisk fuel (sat_add evicted 1) next))
        ]
  ]

  pub evict_disk-OnlyDisk : (w : World S) → OnlyDisk w (evict_disk_locked c w).1
  unfolding evict_disk_locked
  evict_disk-OnlyDisk w = evict_loop-OnlyDisk (length w.inner.disk + 1) 0 w
