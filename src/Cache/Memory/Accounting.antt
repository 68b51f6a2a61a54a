-- ===== src/Cache/Memory/Accounting.antt =====
-- The invariant of the memory tier: no key twice, `memory_bytes` is the sum of the values' lengths,
-- and above the capacity every entry is pinned. Each step of the tier keeps it.
use rivet_cache.Prelude.{
  ℕ, ◌+◌, ◌-◌, ◌≤◌, ◌≡◌, refl, ◌∙◌, ◌⊎◌, inl, inr, Bool, true, List, [], ◌∷◌, Option, none, some,
  arith, length, get_elem?, ltb, Bool-cases,
}
use rivet_cache.Prelude.Lists.{Bytes, Bytes-discrete, All}
use rivet_cache.Prelude.Maps.{
  remove_absent, lookup-remove_self, lookup, remove, Distinct, remove-Distinct, insert-Distinct,
  total, total-remove, total-insert, weight, lookup-remove_ne, lookup-remove,
}
use rivet_cache.Prelude.Words.{u64_max, sat_add-le, sat_add_bounds}
use rivet_cache.Policy.{EvictionCandidate, EvictionPolicy, choose_victim}
use rivet_cache.Policy.Lru.{choose_victim-IsLeast}
use rivet_cache.Cache.{Inner, MemoryRecord}
use rivet_cache.Cache.Memory.{
  candidates, victim, evict_memory_locked, forget_memory, insert_memory_locked, give_back,
}
use rivet_cache.Cache.Memory.Evict.{
  Memory, evict_loop-induction, evict_memory-ends, evict_loop_idle,
}

abbrev pub size : MemoryRecord → ℕ
size r = length r.value

pub record IsCounted (i : Inner) : Type 0 where
  pub distinct : Distinct Bytes-discrete i.memory
  pub counted : i.memory_bytes ≡ total size i.memory

-- The tier fits in its capacity, or nothing in it may be evicted.
abbrev pub IsBounded : ℕ → Inner → Type 0
IsBounded max_memory_bytes i =
    (i.memory_bytes ≤ max_memory_bytes) ⊎ All (λ x. x.1.pinned ≡ true) i.memory

give_back-weight :
    (n : ℕ) (o : Option MemoryRecord) → give_back n o ≡ n - weight Bytes-discrete size o
give_back-weight n none = omega arith
give_back-weight n (some r) = refl

pub give_back_le : (n : ℕ) (o : Option MemoryRecord) → give_back n o ≤ n
give_back_le n o = omega (arith, give_back-weight n o)

pub forget_memory-IsCounted :
    (key : Bytes) (i : Inner) → IsCounted i → IsCounted (forget_memory key i)
unfolding forget_memory
forget_memory-IsCounted key i v = record {
  distinct = remove-Distinct Bytes-discrete key i.memory v.distinct;
  counted = omega (
    arith,
    v.counted,
    give_back-weight i.memory_bytes (lookup Bytes-discrete key i.memory),
    total-remove Bytes-discrete size key i.memory v.distinct,
  );
}

-- An insertion keeps the count as long as the sum fits in 64 bits.
pub insert_memory-IsCounted :
    (key value : Bytes) (expires_at : ℕ) (pinned : Bool) (i : Inner)
    → i.memory_bytes + length value ≤ u64_max
    → IsCounted i
    → IsCounted (insert_memory_locked key value expires_at pinned i)
unfolding insert_memory_locked
insert_memory-IsCounted key value expires_at pinned i room v =
    let rest = remove Bytes-discrete key i.memory in
    let q = forget_memory-IsCounted key i v in
    let fits = give_back_le i.memory_bytes (lookup Bytes-discrete key i.memory) in
    record {
      distinct = insert-Distinct Bytes-discrete key _ rest q.distinct;
      counted =
          sat_add-le (give_back i.memory_bytes (lookup Bytes-discrete key i.memory)) (length value)
            (omega arith)
          ∙ rw (total-insert) (
              rw
                (remove_absent Bytes-discrete key rest
                  (lookup-remove_self Bytes-discrete key i.memory))
                (omega (arith, q.counted)));
    }

pub memory_bytes-insert_memory-le :
    (key value : Bytes) (expires_at : ℕ) (pinned : Bool) (i : Inner)
    → (insert_memory_locked key value expires_at pinned i).memory_bytes
      ≤ i.memory_bytes + length value
unfolding insert_memory_locked
memory_bytes-insert_memory-le key value expires_at pinned i = omega (
  arith,
  sat_add_bounds (give_back i.memory_bytes (lookup Bytes-discrete key i.memory)) (length value),
  give_back_le i.memory_bytes (lookup Bytes-discrete key i.memory),
)

-- Eviction, by whatever policy, keeps the count.
pub evict_memory-IsCounted :
    (max_memory_bytes : ℕ) (policy : EvictionPolicy) (i : Inner)
    → IsCounted i
    → IsCounted (evict_memory_locked max_memory_bytes policy i).1
unfolding evict_memory_locked
evict_memory-IsCounted max_memory_bytes policy i v =
    evict_loop-induction max_memory_bytes policy IsCounted
      (λ j c r d there free p.
        let q = forget_memory-IsCounted c.key j p in
        record { distinct = q.distinct; counted = q.counted })
      (length i.memory + 1) (0, i) v.distinct v

-- What no candidate is left of is pinned throughout.
All-pinned : (m : Memory) → candidates m ≡ [] → All (λ x. x.1.pinned ≡ true) m
unfolding candidates
All-pinned [] h = tt
All-pinned ((k, r) ∷ m) h = elim (Bool-cases r.pinned) [
  | inl held ↦ (held, All-pinned m (rw (held, candidates) at h))
  | inr free ↦ absurd (ground arith)
]

-- A loop that ends although the policy names an entry has ended by its test.
le_of_victim-none :
    (max_memory_bytes : ℕ) (i : Inner) (c : EvictionCandidate) (cs : List EvictionCandidate)
    (d : EvictionCandidate) (n : ℕ)
    → victim max_memory_bytes choose_victim i ≡ none
    → candidates i.memory ≡ c ∷ cs
    → choose_victim (c ∷ cs) ≡ some n
    → get_elem? (c ∷ cs) n ≡ some d
    → i.memory_bytes ≤ max_memory_bytes
unfolding victim
le_of_victim-none max_memory_bytes i c cs d n ends e picks found =
    elim (Bool-cases (ltb max_memory_bytes i.memory_bytes)) [
      | inl large ↦ cc (rw (large, victim, e, picks, found) at ends)
      | inr small ↦ ground arith
    ]

-- Under the least-recently-used policy the eviction brings the tier within its capacity, or leaves
-- only pinned entries.
pub evict_memory-IsBounded :
    (max_memory_bytes : ℕ) (i : Inner)
    → IsCounted i
    → IsBounded max_memory_bytes (evict_memory_locked max_memory_bytes choose_victim i).1
evict_memory-IsBounded max_memory_bytes i v = settle (candidates j.memory) refl
  where
    j : Inner
    j = (evict_memory_locked max_memory_bytes choose_victim i).1

    settle : (cs : List EvictionCandidate) → candidates j.memory ≡ cs → IsBounded max_memory_bytes j
    settle [] e = inr (All-pinned j.memory e)
    settle (c ∷ cs) e =
        let (n, picks, here) = choose_victim-IsLeast c cs in
        inl (
          le_of_victim-none max_memory_bytes j c cs here.candidate n
            (evict_memory-ends max_memory_bytes choose_victim i v.distinct) e picks here.found)

module _ (max_memory_bytes : ℕ) (policy : EvictionPolicy) (i : Inner) (key : Bytes) where
  -- No policy evicts a pinned entry.
  pub evict_memory-pinned :
      (r : MemoryRecord)
      → Distinct Bytes-discrete i.memory
      → lookup Bytes-discrete key i.memory ≡ some r
      → r.pinned ≡ true
      → lookup Bytes-discrete key (evict_memory_locked max_memory_bytes policy i).1.memory ≡ some r
  unfolding evict_memory_locked
  evict_memory-pinned r d₀ there held =
      evict_loop-induction max_memory_bytes policy
        (λ j. lookup Bytes-discrete key j.memory ≡ some r)
        (λ j c r' d there' free p. elim (Bytes-discrete key c.key) [
          | yes same ↦ absurd (ground arith)
          | no other ↦
              unfold forget_memory in (lookup-remove_ne Bytes-discrete key c.key j.memory other ∙ p)
        ])
        (length i.memory + 1) (0, i) d₀ there

  -- Eviction removes entries and changes none.
  pub evict_memory-lookup :
      Distinct Bytes-discrete i.memory
      → let after =
          lookup Bytes-discrete key (evict_memory_locked max_memory_bytes policy i).1.memory in
        (after ≡ none) ⊎ (after ≡ lookup Bytes-discrete key i.memory)
  unfolding evict_memory_locked
  evict_memory-lookup d₀ =
      evict_loop-induction max_memory_bytes policy
        (λ j.
          (lookup Bytes-discrete key j.memory ≡ none)
          ⊎ (lookup Bytes-discrete key j.memory ≡ lookup Bytes-discrete key i.memory))
        (λ j c r' d there' free p.
          unfold forget_memory in ground (arith, lookup-remove Bytes-discrete key c.key j.memory))
        (length i.memory + 1) (0, i) d₀ (inr refl)

  -- Nothing is evicted from a tier that fits.
  pub evict_memory_idle :
      i.memory_bytes ≤ max_memory_bytes → evict_memory_locked max_memory_bytes policy i ≡ (0, i)
  unfolding evict_memory_locked
  evict_memory_idle fits = evict_loop_idle max_memory_bytes policy (length i.memory + 1) i fits
