-- ===== src/Cache/Open.antt =====
-- src/lib.rs: `ContextCache::from_builder`, which rebuilds the index from the store.
use rivet_cache.Prelude.{ℕ, true, false, List, [], ◌∷◌, none, some, ltb, if◌then◌else◌, max}
use rivet_cache.Prelude.Lists.{Bytes-discrete}
use rivet_cache.Prelude.Maps.{insert}
use rivet_cache.Prelude.Words.{sat_add}
use rivet_cache.Prelude.Results.{Result, ok, err}
use rivet_cache.Prelude.States.{Op}
use rivet_cache.Policy.{corruption, expiration, persistent_eviction}
use rivet_cache.Store.{StoreRecord, PersistentStore}
use rivet_cache.Cache.{Inner, ContextCache, World, no_inner, is_expired, on_inner, emit_some, call}
use rivet_cache.Cache.Count
use rivet_cache.Cache.Disk.{evict_disk_locked}

-- A record of the snapshot that has not expired joins the index.
unfoldable pub adopt : StoreRecord → Inner → Inner
adopt r i = record i {
  tick = max i.tick r.last_access;
  disk_bytes = sat_add i.disk_bytes r.stored_bytes;
  disk = insert Bytes-discrete r.key r i.disk;
}

module _ {S : Type 0} (c : ContextCache S) (now : ℕ) where
  -- The loop over the snapshot; `expired` counts the records removed.
  unfoldable pub adopt_all : PersistentStore S → ℕ → List StoreRecord → Op (World S) ℕ
  adopt_all store expired [] w = (ok expired, w)
  adopt_all store expired (r ∷ rs) w = elim (is_expired r.expires_at now) [
    | true ↦
        let (done, w') = call (store.remove r.key) w in
        elim done [
          | err e ↦ (err e, w')
          | ok _ ↦ adopt_all store (sat_add expired 1) rs (on_inner Count.expiration w')
        ]
    | false ↦ adopt_all store expired rs (on_inner (adopt r) w)
  ]

  -- How many entries were corrupt, had expired, and were evicted.
  unfoldable pub rebuild : PersistentStore S → Op (World S) (ℕ × ℕ × ℕ)
  rebuild store w =
      let (loaded, w') = call store.load_index w in
      elim loaded [
        | err e ↦ (err e, w')
        | ok snapshot ↦
            let (adopted, w'') =
              adopt_all store 0 snapshot.entries
                (on_inner (Count.corruption snapshot.corruptions) w') in
            elim adopted [
              | err e ↦ (err e, w'')
              | ok expired ↦
                  let (evicted, w''') = evict_disk_locked c w'' in
                  elim evicted [
                    | err e ↦ (err e, w''')
                    | ok n ↦ (ok (snapshot.corruptions, expired, n), w''')
                  ]
            ]
      ]

  unfoldable pub index_store : Op (World S) (ℕ × ℕ × ℕ)
  index_store w =
      if ltb 0 c.max_disk_bytes
      then elim c.store [ none ↦ (ok (0, 0, 0), w) | some store ↦ rebuild store w ]
      else (ok (0, 0, 0), w)

  -- A new cache over a backend in a given state.
  unfoldable pub from_builder : S → Result (Unit {0}) × World S
  from_builder backend =
      let (indexed, w) =
        index_store (record { inner = no_inner; backend = backend; events = [] }) in
      elim indexed [
        | err e ↦ (err e, w)
        | ok counts ↦ (
          ok tt,
          emit_some persistent_eviction counts.2
              (emit_some expiration counts.1 (emit_some corruption counts.0 w)),
        )
      ]
