-- ===== src/Cache/Batch.antt =====
-- src/lib.rs: the batch operations, `invalidate`, `clear` and `stats`.
pub mod Laws
use rivet_cache.Prelude.{suc, ℕ, Bool, true, false, List, [], ◌∷◌, Option, none, some, length}
use rivet_cache.Prelude.Lists.{Bytes, Bytes-discrete}
use rivet_cache.Prelude.Maps.{lookup}
use rivet_cache.Prelude.Results.{Result, ok, err}
use rivet_cache.Prelude.States.{Op}
use rivet_cache.Policy.{CacheEvent, clear as cleared, invalidation}
use rivet_cache.Store.{StoreRecord, PersistentStore}
use rivet_cache.Cache.{
  Inner, CacheStats, Duration, ContextCache, World, forget_disk, on_inner, emit, call,
}
use rivet_cache.Cache.Memory.{forget_memory}
use rivet_cache.Cache.Disk.{store_remove}
use rivet_cache.Cache.Get.{get}
use rivet_cache.Cache.Put.{put}

-- Take a key out of the index of the persistent tier, if it is there.
unfoldable pub forget_indexed : Bytes → Inner → Inner
forget_indexed key i = elim (lookup Bytes-discrete key i.disk) [
  | none ↦ i
  | some r ↦ forget_disk key r.stored_bytes i
]

abbrev pub store_clear : {S : Type 0} → Option (PersistentStore S) → Op (World S) (Unit {0})
store_clear none w = (ok tt, w)
store_clear (some store) w = call store.clear w

-- The arguments of one `put`.
pub record Write : Type 0 where
  pub key : Bytes
  pub value : Bytes
  pub ttl : Option Duration
  pub pinned : Bool

abbrev pub keys_of : List Write → List Bytes
keys_of [] = []
keys_of (x ∷ xs) = x.key ∷ keys_of xs

module _ {S : Type 0} (c : ContextCache S) where
  -- The clock may show a later second at each key: it is read from `clock`, in order.
  unfoldable pub get_many : (ℕ → ℕ) → ℕ → List Bytes → Op (World S) (List (Option Bytes))
  get_many clock n [] w = (ok [], w)
  get_many clock n (key ∷ keys) w =
      let (found, w') = get c (clock n) key w in
      elim found [
        | err e ↦ (err e, w')
        | ok value ↦
            let (rest, w'') = get_many clock (suc n) keys w' in
            elim rest [ err e ↦ (err e, w'') | ok values ↦ (ok (value ∷ values), w'') ]
      ]

  unfoldable pub validate_all : List Bytes → Result (Unit {0})
  validate_all [] = ok tt
  validate_all (key ∷ keys) = elim (c.validate key) [ err e ↦ err e | ok _ ↦ validate_all keys ]

  unfoldable pub write_all : (ℕ → ℕ) → ℕ → List Write → Op (World S) (Unit {0})
  write_all clock n [] w = (ok tt, w)
  write_all clock n (x ∷ xs) w =
      let (done, w') = put c (clock n) x.key x.value x.ttl x.pinned w in
      elim done [ err e ↦ (err e, w') | ok _ ↦ write_all clock (suc n) xs w' ]

  unfoldable pub put_many : (ℕ → ℕ) → List Write → Op (World S) (Unit {0})
  put_many clock xs w = elim (validate_all (keys_of xs)) [
    | err e ↦ (err e, w)
    | ok _ ↦ write_all clock 0 xs w
  ]

  -- The store is asked first; only then does the entry leave the two tiers.
  unfoldable pub invalidate : Bytes → Op (World S) (Unit {0})
  invalidate key w = elim (c.validate key) [
    | err e ↦ (err e, w)
    | ok _ ↦
        let (done, w') = store_remove c.store key w in
        elim done [
          | err e ↦ (err e, w')
          | ok _ ↦ (
            ok tt,
            emit (invalidation 1) (on_inner (λ i. forget_indexed key (forget_memory key i)) w'),
          )
        ]
  ]

  unfoldable pub invalidate_all : List Bytes → Op (World S) (Unit {0})
  invalidate_all [] w = (ok tt, w)
  invalidate_all (key ∷ keys) w =
      let (done, w') = invalidate key w in
      elim done [ err e ↦ (err e, w') | ok _ ↦ invalidate_all keys w' ]

  unfoldable pub invalidate_many : List Bytes → Op (World S) (Unit {0})
  invalidate_many keys w = elim (validate_all keys) [
    | err e ↦ (err e, w)
    | ok _ ↦ invalidate_all keys w
  ]

  unfoldable pub clear : Op (World S) (Unit {0})
  clear w =
      let (done, w') = store_clear c.store w in
      elim done [
        | err e ↦ (err e, w')
        | ok _ ↦ (
          ok tt,
          emit cleared (
              on_inner (λ i. record i { memory = []; disk = []; memory_bytes = 0; disk_bytes = 0 })
                w'),
        )
      ]

  unfoldable pub stats : World S → CacheStats
  stats w = record (w.inner.stats) {
    memory_entries = length w.inner.memory;
    disk_entries = length w.inner.disk;
    memory_bytes = w.inner.memory_bytes;
    disk_bytes = w.inner.disk_bytes;
  }
