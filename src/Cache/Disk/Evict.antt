-- ===== src/Cache/Disk/Evict.antt =====
-- The eviction loop of the persistent tier, with a store that may fail.
use rivet_cache.Prelude.{
  ℕ, zero, suc, ◌-◌, ◌<◌, ◌≡◌, inl, inr, Bool, false, List, [], ◌∷◌, none, some, arith, length,
  get_elem?, ltb, Bool-cases, Option-cases,
}
use rivet_cache.Prelude.Lists.{Bytes, Bytes-discrete}
use rivet_cache.Prelude.Maps.{
  lookup, remove, Distinct, remove-Distinct, length-remove-lt, lookup-tail,
}
use rivet_cache.Prelude.Words.{sat_add}
use rivet_cache.Prelude.Results.{ErrorKind, ok, err, Result-cases}
use rivet_cache.Policy.{EvictionCandidate}
use rivet_cache.Store.{StoreRecord}
use rivet_cache.Cache.{Inner, ContextCache, World, on_inner}
use rivet_cache.Cache.Count
use rivet_cache.Cache.Disk.{candidates, victim, remove_disk_record_locked, evict_loop}

abbrev pub Index : Type 0
Index = List (Bytes × StoreRecord)

candidates-lookup :
    (m : Index) (n : ℕ) (c : EvictionCandidate)
    → Distinct Bytes-discrete m
    → get_elem? (candidates m) n ≡ some c
    → (r : StoreRecord) × (lookup Bytes-discrete c.key m ≡ some r) × (r.pinned ≡ false)
unfolding candidates lookup
candidates-lookup [] n c d h = cc
candidates-lookup ((k, r) ∷ m) zero c d h = elim (Bool-cases r.pinned) [
  | inl held ↦
      let (x, e, free) = candidates-lookup m zero c d.1 (rw (held, candidates) at h) in
      (x, lookup-tail Bytes-discrete c.key k r x m d.0 e, free)
  | inr free ↦ (r, ground arith, free)
]
candidates-lookup ((k, r) ∷ m) (suc n) c d h = elim (Bool-cases r.pinned) [
  | inl held ↦
      let (x, e, free) = candidates-lookup m (suc n) c d.1 (rw (held, candidates) at h) in
      (x, lookup-tail Bytes-discrete c.key k r x m d.0 e, free)
  | inr free ↦
      let (x, e, free') = candidates-lookup m n c d.1 (rw (free, candidates) at h) in
      (x, lookup-tail Bytes-discrete c.key k r x m d.0 e, free')
]

module _ {S : Type 0} (c : ContextCache S) where
  victim-lookup :
      (i : Inner) (v : EvictionCandidate)
      → Distinct Bytes-discrete i.disk
      → victim c i ≡ some v
      → (r : StoreRecord) × (lookup Bytes-discrete v.key i.disk ≡ some r) × (r.pinned ≡ false)
  unfolding victim
  victim-lookup i v d h = elim (Bool-cases (ltb c.max_disk_bytes i.disk_bytes)) [
    | inr small ↦ cc (rw (small, victim) at h)
    | inl large ↦ elim (Option-cases (c.eviction_policy (candidates i.disk))) [
      | inl none_picked ↦ absurd (ground arith)
      | inr (n, picks) ↦ candidates-lookup i.disk n v d (rw (large, victim, picks) at h)
    ]
  ]

  -- The record leaves the index whatever the store says; its bytes are given back only if the store
  -- removed the entry.
  pub remove_disk_record-index :
      (key : Bytes) (expired : Bool) (r : StoreRecord) (w : World S)
      → lookup Bytes-discrete key w.inner.disk ≡ some r
      → let x = remove_disk_record_locked c key expired w in
        (x.1.inner.disk ≡ remove Bytes-discrete key w.inner.disk)
        × (x.0 ≡ ok tt → x.1.inner.disk_bytes ≡ w.inner.disk_bytes - r.stored_bytes)
        × ((e : ErrorKind) → x.0 ≡ err e → x.1.inner.disk_bytes ≡ w.inner.disk_bytes)
  unfolding remove_disk_record_locked
  remove_disk_record-index key expired r w there = (ground arith, ground arith, λ e. ground arith)

  -- What holds of the index and its byte count before the loop, and across the removal of one
  -- victim, whether or not the bytes were given back, holds behind the loop.
  pub evict_loop-induction {ℓ} :
      (P : Index → ℕ → Type ℓ)
      → ((m : Index) (n : ℕ) (key : Bytes) (r : StoreRecord)
          → Distinct Bytes-discrete m
          → lookup Bytes-discrete key m ≡ some r
          → r.pinned ≡ false
          → P m n
          → P (remove Bytes-discrete key m) (n - r.stored_bytes)
            × P (remove Bytes-discrete key m) n)
      → (fuel evicted : ℕ) (w : World S) → Distinct Bytes-discrete w.inner.disk
      → P w.inner.disk w.inner.disk_bytes
      → let w' = (evict_loop c fuel evicted w).1 in P w'.inner.disk w'.inner.disk_bytes
  unfolding evict_loop
  evict_loop-induction P keep zero evicted w d p = p
  evict_loop-induction P keep (suc fuel) evicted w d p = elim (Option-cases (victim c w.inner)) [
    | inl ends ↦ rw (ends, evict_loop) p
    | inr (v, chosen) ↦
        let (r, there, free) = victim-lookup w.inner v d chosen in
        let (gone, given, kept) = remove_disk_record-index v.key false r w there in
        let (less, same) = keep w.inner.disk w.inner.disk_bytes v.key r d there free p in
        let removed = remove_disk_record_locked c v.key false w in
        elim (Result-cases removed.0) [
          | inr (e, fails) ↦ rw (chosen, evict_loop, fails) (rw (gone, kept e fails) same)
          | inl (_, done) ↦
              let next = on_inner Count.disk_eviction removed.1 in
              rw (chosen, evict_loop, done)
                (evict_loop-induction P keep fuel (sat_add evicted 1) next
                  (rw gone (remove-Distinct Bytes-discrete v.key w.inner.disk d))
                  (rw (gone, given done) less))
        ]
  ]

  -- With a round for each entry and one more, a loop that does not fail ends by its own test.
  pub evict_loop-ends :
      (fuel evicted n : ℕ) (w : World S)
      → Distinct Bytes-discrete w.inner.disk
      → length w.inner.disk < fuel
      → (evict_loop c fuel evicted w).0 ≡ ok n
      → victim c (evict_loop c fuel evicted w).1.inner ≡ none
  unfolding evict_loop
  evict_loop-ends zero evicted n w d h e = elim h [ ]
  evict_loop-ends (suc fuel) evicted n w d h e = elim (Option-cases (victim c w.inner)) [
    | inl ends ↦ rw (ends, evict_loop) ends
    | inr (v, chosen) ↦
        let (r, there, free) = victim-lookup w.inner v d chosen in
        let (gone, given, kept) = remove_disk_record-index v.key false r w there in
        let removed = remove_disk_record_locked c v.key false w in
        elim (Result-cases removed.0) [
          | inr (x, fails) ↦ cc (rw (chosen, evict_loop, fails) at e)
          | inl (_, done) ↦
              let next = on_inner Count.disk_eviction removed.1 in
              rw (chosen, evict_loop, done)
                (evict_loop-ends fuel (sat_add evicted 1) n next
                  (rw gone (remove-Distinct Bytes-discrete v.key w.inner.disk d))
                  (rw gone
                    (omega (arith, length-remove-lt Bytes-discrete v.key w.inner.disk r there)))
                  (rw (chosen, evict_loop, done) at e))
        ]
  ]
