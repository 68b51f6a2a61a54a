-- ===== src/Cache/Memory.antt =====
-- src/lib.rs: the memory tier, `insert_memory_locked` and `evict_memory_locked`. The `while` loop of
-- the eviction takes fuel: one round more than there are entries.
pub mod Evict
pub mod Accounting
use rivet_cache.Prelude.{
  ℕ, zero, suc, ◌+◌, ◌-◌, Bool, true, false, not, List, [], ◌∷◌, Option, none, some, length,
  get_elem?, ltb, if◌then◌else◌,
}
use rivet_cache.Prelude.Lists.{Bytes, Bytes-discrete}
use rivet_cache.Prelude.Maps.{lookup, insert, remove}
use rivet_cache.Prelude.Words.{sat_add}
use rivet_cache.Policy.{EvictionCandidate, EvictionPolicy}
use rivet_cache.Cache.{Inner, MemoryRecord, next_tick}
use rivet_cache.Cache.Count

-- `memory_bytes` without the value of the record that was taken out, if any.
abbrev pub give_back : ℕ → Option MemoryRecord → ℕ
give_back memory_bytes none = memory_bytes
give_back memory_bytes (some previous) = memory_bytes - length previous.value

-- Take a key out of the memory tier.
unfoldable pub forget_memory : Bytes → Inner → Inner
forget_memory key i = record i {
  memory = remove Bytes-discrete key i.memory;
  memory_bytes = give_back i.memory_bytes (lookup Bytes-discrete key i.memory);
}

unfoldable pub insert_memory_locked : Bytes → Bytes → ℕ → Bool → Inner → Inner
unfolding forget_memory next_tick
insert_memory_locked key value expires_at pinned i =
    let (tick, i') = next_tick (forget_memory key i) in
    record i' {
      memory_bytes = sat_add i'.memory_bytes (length value);
      memory =
          insert Bytes-discrete key
            (record { value = value; expires_at = expires_at; pinned = pinned; last_access = tick })
            i'.memory;
    }

abbrev pub candidate : Bytes → MemoryRecord → EvictionCandidate
candidate key r = record { key = key; last_access = r.last_access; size_bytes = length r.value }

-- The entries that are not pinned, as the policy sees them.
unfoldable pub candidates : List (Bytes × MemoryRecord) → List EvictionCandidate
candidates [] = []
candidates ((key, r) ∷ m) = if r.pinned then candidates m else candidate key r ∷ candidates m

-- The candidate at the index that the policy picks, if both are there.
abbrev pub picked : List EvictionCandidate → Option ℕ → Option EvictionCandidate
picked cs none = none
picked cs (some index) = get_elem? cs index

-- The body of the loop behind the choice.
unfoldable pub evict_one : EvictionCandidate → ℕ × Inner → ℕ × Inner
evict_one c (evicted, i) = elim (lookup Bytes-discrete c.key i.memory) [
  | none ↦ (evicted, i)
  | some _ ↦ (sat_add evicted 1, Count.memory_eviction (forget_memory c.key i))
]

module _ (max_memory_bytes : ℕ) (policy : EvictionPolicy) where
  -- What the loop removes next; `none` where it ends, by its test or by `break`.
  unfoldable pub victim : Inner → Option EvictionCandidate
  unfolding candidates
  victim i =
      if ltb max_memory_bytes i.memory_bytes
      then picked (candidates i.memory) (policy (candidates i.memory))
      else none

  unfoldable pub evict_loop : ℕ → ℕ × Inner → ℕ × Inner
  evict_loop zero x = x
  evict_loop (suc fuel) x = elim (victim x.1) [
    | none ↦ x
    | some c ↦ evict_loop fuel (evict_one c x)
  ]

  unfoldable pub evict_memory_locked : Inner → ℕ × Inner
  unfolding evict_loop victim evict_one forget_memory
  evict_memory_locked i = evict_loop (length i.memory + 1) (0, i)
