-- ===== src/Cache/Disk/Accounting.antt =====
-- `disk_bytes` against the sizes in the index, the capacity of the persistent tier, and what a store
-- that fails to remove an entry does to them.
use rivet_cache.Prelude.{
  ℕ, ◌+◌, ◌-◌, ◌≤◌, ◌≡◌, refl, ◌∙◌, ◌⊎◌, inl, inr, Bool, true, List, [], ◌∷◌, none, some, arith,
  length, get_elem?, ltb, Bool-cases,
}
use rivet_cache.Prelude.Lists.{Bytes, Bytes-discrete, All}
use rivet_cache.Prelude.Maps.{
  lookup, remove, Distinct, remove-Distinct, lookup-remove_ne, total, total-remove,
}
use rivet_cache.Prelude.Results.{ErrorKind, ok, err}
use rivet_cache.Policy.{EvictionCandidate, choose_victim}
use rivet_cache.Policy.Lru.{choose_victim-IsLeast}
use rivet_cache.Store.{StoreRecord}
use rivet_cache.Cache.{Inner, ContextCache, World}
use rivet_cache.Cache.Disk.{candidates, victim, remove_disk_record_locked, evict_disk_locked}
use rivet_cache.Cache.Disk.Evict.{
  Index, remove_disk_record-index, evict_loop-induction, evict_loop-ends,
}

abbrev pub stored : StoreRecord → ℕ
stored r = r.stored_bytes

-- No key twice, and the byte count covers the sizes of the entries.
pub record IsCovered (m : Index) (disk_bytes : ℕ) : Type 0 where
  pub distinct : Distinct Bytes-discrete m
  pub covered : total stored m ≤ disk_bytes

remove-IsCovered :
    (m : Index) (n : ℕ) (key : Bytes) (r : StoreRecord)
    → lookup Bytes-discrete key m ≡ some r
    → IsCovered m n
    → IsCovered (remove Bytes-discrete key m) (n - r.stored_bytes)
      × IsCovered (remove Bytes-discrete key m) n
remove-IsCovered m n key r there v =
    let sum = rw there at (total-remove Bytes-discrete stored key m v.distinct) in
    let d = remove-Distinct Bytes-discrete key m v.distinct in
    (
      record { distinct = d; covered = omega (arith, sum, v.covered) },
      record { distinct = d; covered = omega (arith, sum, v.covered) },
    )

All-pinned : (m : Index) → candidates m ≡ [] → All (λ x. x.1.pinned ≡ true) m
unfolding candidates
All-pinned [] h = tt
All-pinned ((k, r) ∷ m) h = elim (Bool-cases r.pinned) [
  | inl held ↦ (held, All-pinned m (rw (held, candidates) at h))
  | inr free ↦ absurd (ground arith)
]

module _ {S : Type 0} (c : ContextCache S) (w : World S) where
  -- Eviction keeps the index covered, whether or not the store fails on the way.
  pub evict_disk-IsCovered :
      IsCovered w.inner.disk w.inner.disk_bytes
      → let w' = (evict_disk_locked c w).1 in IsCovered w'.inner.disk w'.inner.disk_bytes
  unfolding evict_disk_locked
  evict_disk-IsCovered v =
      evict_loop-induction c IsCovered
        (λ m n key r d there free p. remove-IsCovered m n key r there p) (length w.inner.disk + 1) 0
        w v.distinct v

  -- A pinned entry of the index survives eviction, by any policy and any store.
  evict_disk-pinned :
      (key : Bytes) (r : StoreRecord)
      → Distinct Bytes-discrete w.inner.disk
      → lookup Bytes-discrete key w.inner.disk ≡ some r
      → r.pinned ≡ true
      → lookup Bytes-discrete key (evict_disk_locked c w).1.inner.disk ≡ some r
  unfolding evict_disk_locked
  evict_disk-pinned key r d there held =
      evict_loop-induction c (λ m n. lookup Bytes-discrete key m ≡ some r)
        (λ m n key' r' d' there' free p.
          let kept : lookup Bytes-discrete key (remove Bytes-discrete key' m) ≡ some r =
            elim (Bytes-discrete key key') [
              | yes same ↦ absurd (ground arith)
              | no other ↦ lookup-remove_ne Bytes-discrete key key' m other ∙ p
            ] in
          (kept, kept))
        (length w.inner.disk + 1) 0 w d there

  le_of_victim-none :
      (i : Inner) (v : EvictionCandidate) (vs : List EvictionCandidate) (u : EvictionCandidate)
      (n : ℕ)
      → c.eviction_policy ≡ choose_victim
      → victim c i ≡ none
      → candidates i.disk ≡ v ∷ vs
      → choose_victim (v ∷ vs) ≡ some n
      → get_elem? (v ∷ vs) n ≡ some u
      → i.disk_bytes ≤ c.max_disk_bytes
  unfolding victim
  le_of_victim-none i v vs u n lru ends e picks found =
      elim (Bool-cases (ltb c.max_disk_bytes i.disk_bytes)) [
        | inl large ↦ cc (rw (large, victim, lru, e, picks, found) at ends)
        | inr small ↦ ground arith
      ]

  -- Under the least-recently-used policy an eviction that does not fail brings the persistent tier
  -- within its capacity, or leaves only pinned entries in the index.
  pub evict_disk-IsBounded :
      (n : ℕ)
      → c.eviction_policy ≡ choose_victim
      → Distinct Bytes-discrete w.inner.disk
      → (evict_disk_locked c w).0 ≡ ok n
      → let i = (evict_disk_locked c w).1.inner in
        (i.disk_bytes ≤ c.max_disk_bytes) ⊎ All (λ x. x.1.pinned ≡ true) i.disk
  unfolding evict_disk_locked
  evict_disk-IsBounded n lru d h = settle (candidates i.disk) refl
    where
      i : Inner
      i = (evict_disk_locked c w).1.inner

      settle :
          (vs : List EvictionCandidate)
          → candidates i.disk ≡ vs
          → (i.disk_bytes ≤ c.max_disk_bytes) ⊎ All (λ x. x.1.pinned ≡ true) i.disk
      settle [] e = inr (All-pinned i.disk e)
      settle (v ∷ vs) e =
          let (k, picks, here) = choose_victim-IsLeast v vs in
          inl (
            le_of_victim-none i v vs here.candidate k lru
              (evict_loop-ends c (length w.inner.disk + 1) 0 n w d (omega arith) h) e picks
              here.found)

  -- Where the byte count was exact and the store fails to remove an entry, the entry leaves the
  -- index and its bytes stay in the count.
  pub remove_disk_record_leaks :
      (key : Bytes) (expired : Bool) (r : StoreRecord) (e : ErrorKind)
      → Distinct Bytes-discrete w.inner.disk
      → w.inner.disk_bytes ≡ total stored w.inner.disk
      → lookup Bytes-discrete key w.inner.disk ≡ some r
      → (remove_disk_record_locked c key expired w).0 ≡ err e
      → let i = (remove_disk_record_locked c key expired w).1.inner in
        (i.disk ≡ remove Bytes-discrete key w.inner.disk)
        × (i.disk_bytes ≡ total stored i.disk + r.stored_bytes)
  remove_disk_record_leaks key expired r e d exact there fails =
      let (gone, given, kept) = remove_disk_record-index c key expired r w there in
      let sum = rw there at (total-remove Bytes-discrete stored key w.inner.disk d) in
      (gone, kept e fails ∙ rw gone (omega arith))
