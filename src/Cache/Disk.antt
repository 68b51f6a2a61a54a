-- ===== src/Cache/Disk.antt =====
-- src/lib.rs: the index of the persistent tier, `remove_disk_record_locked` and
-- `evict_disk_locked`. The loop takes fuel: one round more than there are entries.
pub mod Frame
pub mod Evict
pub mod Accounting
use rivet_cache.Prelude.{
  ℕ, zero, suc, ◌+◌, ◌-◌, Bool, true, false, List, [], ◌∷◌, Option, none, some, length, get_elem?,
  ltb, if◌then◌else◌,
}
use rivet_cache.Prelude.Lists.{Bytes, Bytes-discrete}
use rivet_cache.Prelude.Maps.{lookup, remove}
use rivet_cache.Prelude.Words.{sat_add}
use rivet_cache.Prelude.Results.{Result, ok, err}
use rivet_cache.Prelude.States.{Op}
use rivet_cache.Policy.{EvictionCandidate, EvictionPolicy}
use rivet_cache.Store.{StoreRecord, PersistentStore}
use rivet_cache.Cache.{Inner, ContextCache, World, on_inner, call}
use rivet_cache.Cache.Count
use rivet_cache.Cache.Memory.{picked}

abbrev pub drop_index : Bytes → Inner → Inner
drop_index key i = record i { disk = remove Bytes-discrete key i.disk }

abbrev pub settle : ℕ → Bool → Inner → Inner
settle stored_bytes expired i =
    let i' : Inner = record i { disk_bytes = i.disk_bytes - stored_bytes } in
    if expired then Count.expiration i' else i'

-- `self.store.as_ref()`, and then `store.remove(key)?`.
abbrev pub store_remove :
    {S : Type 0} → Option (PersistentStore S) → Bytes → Op (World S) (Unit {0})
store_remove none key w = (ok tt, w)
store_remove (some store) key w = call (store.remove key) w

abbrev pub candidate : Bytes → StoreRecord → EvictionCandidate
candidate key r = record { key = key; last_access = r.last_access; size_bytes = r.stored_bytes }

unfoldable pub candidates : List (Bytes × StoreRecord) → List EvictionCandidate
candidates [] = []
candidates ((key, r) ∷ m) = if r.pinned then candidates m else candidate key r ∷ candidates m

module _ {S : Type 0} (c : ContextCache S) where
  -- The record leaves the index first. If the store then fails, its bytes stay in `disk_bytes`.
  unfoldable pub remove_disk_record_locked : Bytes → Bool → Op (World S) (Unit {0})
  remove_disk_record_locked key expired w = elim (lookup Bytes-discrete key w.inner.disk) [
    | none ↦ (ok tt, w)
    | some r ↦
        let (done, w') = store_remove c.store key (on_inner (drop_index key) w) in
        elim done [
          | err e ↦ (err e, w')
          | ok _ ↦ (ok tt, on_inner (settle r.stored_bytes expired) w')
        ]
  ]

  unfoldable pub victim : Inner → Option EvictionCandidate
  victim i =
      if ltb c.max_disk_bytes i.disk_bytes
      then picked (candidates i.disk) (c.eviction_policy (candidates i.disk))
      else none

  unfoldable pub evict_loop : ℕ → ℕ → Op (World S) ℕ
  evict_loop zero evicted w = (ok evicted, w)
  evict_loop (suc fuel) evicted w = elim (victim w.inner) [
    | none ↦ (ok evicted, w)
    | some v ↦
        let (done, w') = remove_disk_record_locked v.key false w in
        elim done [
          | err e ↦ (err e, w')
          | ok _ ↦ evict_loop fuel (sat_add evicted 1) (on_inner Count.disk_eviction w')
        ]
  ]

  unfoldable pub evict_disk_locked : Op (World S) ℕ
  evict_disk_locked w = evict_loop (length w.inner.disk + 1) 0 w
