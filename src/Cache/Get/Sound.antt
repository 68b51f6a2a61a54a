-- ===== src/Cache/Get/Sound.antt =====
-- What `get` returns, and where it comes from.
use rivet_cache.Prelude.{
  ℕ, ◌≡◌, refl, ◌⊎◌, inl, inr, false, Option, none, some, arith, Bool-cases, Option-cases,
}
use rivet_cache.Prelude.Lists.{Bytes, Bytes-discrete}
use rivet_cache.Prelude.Maps.{lookup}
use rivet_cache.Prelude.Results.{Result, ok, err}
use rivet_cache.Store.{StoredEntry, StoreRecord, PersistentStore}
use rivet_cache.Cache.{MemoryRecord, ContextCache, World, on_inner, is_expired}
use rivet_cache.Cache.Count
use rivet_cache.Cache.Memory.{forget_memory}
use rivet_cache.Cache.Get.{
  get, read_memory, read_disk, read_store, read_entry, expire_disk, answer_miss, answer_gone,
  answer_corrupt, answer_hit,
}

module _ {S : Type 0} (c : ContextCache S) (now : ℕ) (key : Bytes) (w : World S) where
  -- A record of the memory tier that has not expired is answered.
  pub get_hit :
      (r : MemoryRecord)
      → c.validate key ≡ ok tt
      → lookup Bytes-discrete key w.inner.memory ≡ some r
      → is_expired r.expires_at now ≡ false
      → (get c now key w).0 ≡ ok (some r.value)
  unfolding get read_memory
  get_hit r valid there fresh = rw (valid, get, there, read_memory, fresh) refl

  -- Where the value of a hit may come from.
  pub record FromMemory (value : Bytes) : Type 0 where
    pub held : MemoryRecord
    pub found : lookup Bytes-discrete key w.inner.memory ≡ some held
    pub fresh : is_expired held.expires_at now ≡ false
    pub same : value ≡ held.value

  pub record FromStore (value : Bytes) : Type 0 where
    pub indexed : StoreRecord
    pub entry : StoredEntry
    pub store : PersistentStore S
    pub found : lookup Bytes-discrete key w.inner.disk ≡ some indexed
    pub fresh : is_expired indexed.expires_at now ≡ false
    pub injected : c.store ≡ some store
    pub answered : (store.get key w.backend).0 ≡ ok (some entry)
    pub expires_agrees : entry.expires_at ≡ indexed.expires_at
    pub pinned_agrees : entry.pinned ≡ indexed.pinned
    pub same : value ≡ entry.value

module _ {S : Type 0} (c : ContextCache S) (now : ℕ) (key : Bytes) where
  read_entry-value :
      (store : PersistentStore S) (n : ℕ) (r : StoreRecord) (found : Result (Option StoredEntry))
      (w : World S) (value : Bytes)
      → (read_entry c now key store n r found w).0 ≡ ok (some value)
      → (e : StoredEntry) × (found ≡ ok (some e))
        × (e.expires_at ≡ r.expires_at)
        × (e.pinned ≡ r.pinned)
        × (value ≡ e.value)
  unfolding read_entry answer_gone answer_corrupt answer_hit
  read_entry-value store n r (err e) w value h = absurd (ground arith)
  read_entry-value store n r (ok none) w value h = absurd (ground arith)
  read_entry-value store n r (ok (some e)) w value h =
      (e, refl, ground arith, ground arith, ground arith)

  read_disk-value :
      (n : ℕ) (w : World S) (value : Bytes)
      → (read_disk c now key n w).0 ≡ ok (some value)
      → FromStore c now key w value
  unfolding read_disk read_store answer_miss answer_gone expire_disk
  read_disk-value n w value h = elim (Option-cases (lookup Bytes-discrete key w.inner.disk)) [
    | inl absent ↦ absurd (ground arith)
    | inr (r, there) ↦ elim (Bool-cases (is_expired r.expires_at now)) [
      | inl stale ↦ absurd (ground arith)
      | inr fresh ↦ elim (Option-cases c.store) [
        | inl unset ↦ absurd (ground arith)
        | inr (store, set) ↦
            let (e, answered, expires, pinned, same) =
              read_entry-value store n r (store.get key w.backend).0
                (record w { backend = (store.get key w.backend).1 }) value (ground arith) in
            record {
              indexed = r;
              entry = e;
              store = store;
              found = there;
              fresh = fresh;
              injected = set;
              answered = answered;
              expires_agrees = expires;
              pinned_agrees = pinned;
              same = same;
            }
      ]
    ]
  ]

  -- A value that `get` returns has not expired. It is that of the memory tier, or the injected store
  -- returned it for an entry of the index with the same expiry and pin.
  pub get-source :
      (w : World S) (value : Bytes)
      → (get c now key w).0 ≡ ok (some value)
      → FromMemory c now key w value ⊎ FromStore c now key w value
  unfolding get read_memory
  get-source w value h = elim (Option-cases (lookup Bytes-discrete key w.inner.memory)) [
    | inl absent ↦ inr (read_disk-value 0 w value (ground arith))
    | inr (r, there) ↦ elim (Bool-cases (is_expired r.expires_at now)) [
      | inr fresh ↦ inl (record { held = r; found = there; fresh = fresh; same = ground arith })
      | inl stale ↦
          let w' = on_inner (λ i. Count.expiration (forget_memory key i)) w in
          let source = read_disk-value 1 w' value (ground arith) in
          inr (
            unfold forget_memory in
            record {
              indexed = source.indexed;
              entry = source.entry;
              store = source.store;
              found = source.found;
              fresh = source.fresh;
              injected = source.injected;
              answered = source.answered;
              expires_agrees = source.expires_agrees;
              pinned_agrees = source.pinned_agrees;
              same = source.same;
            })
    ]
  ]

  -- A key that neither tier has is a miss, whatever the store would say.
  pub get_absent :
      (w : World S)
      → c.validate key ≡ ok tt
      → lookup Bytes-discrete key w.inner.memory ≡ none
      → lookup Bytes-discrete key w.inner.disk ≡ none
      → (get c now key w).0 ≡ ok none
  unfolding get read_memory read_disk answer_miss
  get_absent w valid absent unindexed = ground arith
