-- ===== src/Cache/Memory/Evict.antt =====
-- The eviction loop of the memory tier: an induction rule, its end, and what it never removes.
use rivet_cache.Prelude.{
  ℕ, zero, suc, ◌+◌, ◌≤◌, ◌<◌, ◌≡◌, refl, inl, inr, false, List, [], ◌∷◌, none, some, arith, length,
  get_elem?, ltb, Bool-cases, Option-cases,
}
use rivet_cache.Prelude.Lists.{Bytes, Bytes-discrete}
use rivet_cache.Prelude.Maps.{lookup-tail, lookup, Distinct, remove-Distinct, length-remove-lt}
use rivet_cache.Policy.{EvictionCandidate, EvictionPolicy}
use rivet_cache.Cache.{Inner, MemoryRecord}
use rivet_cache.Cache.Count
use rivet_cache.Cache.Memory.{
  candidates, victim, evict_one, evict_loop, evict_memory_locked, forget_memory,
}

abbrev pub Memory : Type 0
Memory = List (Bytes × MemoryRecord)

-- A candidate is an entry that is not pinned.
candidates-lookup :
    (m : Memory) (n : ℕ) (c : EvictionCandidate)
    → Distinct Bytes-discrete m
    → get_elem? (candidates m) n ≡ some c
    → (r : MemoryRecord) × (lookup Bytes-discrete c.key m ≡ some r) × (r.pinned ≡ false)
unfolding candidates lookup
candidates-lookup [] n c d h = cc
candidates-lookup ((k, r) ∷ m) zero c d h = elim (Bool-cases r.pinned) [
  | inl held ↦
      let (x, e, free) = candidates-lookup m zero c d.1 (rw (held, candidates) at h) in
      (x, lookup-tail Bytes-discrete c.key k r x m d.0 e, free)
  | inr free ↦ (r, ground arith, free)
]
candidates-lookup ((k, r) ∷ m) (suc n) c d h = elim (Bool-cases r.pinned) [
  | inl held ↦
      let (x, e, free) = candidates-lookup m (suc n) c d.1 (rw (held, candidates) at h) in
      (x, lookup-tail Bytes-discrete c.key k r x m d.0 e, free)
  | inr free ↦
      let (x, e, free') = candidates-lookup m n c d.1 (rw (free, candidates) at h) in
      (x, lookup-tail Bytes-discrete c.key k r x m d.0 e, free')
]

module _ (max_memory_bytes : ℕ) (policy : EvictionPolicy) where
  -- The loop chooses an entry that is there and not pinned.
  pub victim-lookup :
      (i : Inner) (c : EvictionCandidate)
      → Distinct Bytes-discrete i.memory
      → victim max_memory_bytes policy i ≡ some c
      → (r : MemoryRecord) × (lookup Bytes-discrete c.key i.memory ≡ some r) × (r.pinned ≡ false)
  unfolding victim
  victim-lookup i c d h = elim (Bool-cases (ltb max_memory_bytes i.memory_bytes)) [
    | inr small ↦ cc (rw (small, victim) at h)
    | inl large ↦ elim (Option-cases (policy (candidates i.memory))) [
      | inl none_picked ↦ absurd (ground arith)
      | inr (n, picks) ↦ candidates-lookup i.memory n c d (rw (large, victim, picks) at h)
    ]
  ]

  evict_one_lem :
      (x : ℕ × Inner) (c : EvictionCandidate) (r : MemoryRecord)
      → lookup Bytes-discrete c.key x.1.memory ≡ some r
      → (evict_one c x).1 ≡ Count.memory_eviction (forget_memory c.key x.1)
  unfolding evict_one
  evict_one_lem x c r e = rw (e, evict_one)

  -- What holds before the loop and across the removal of one victim holds behind the loop.
  pub evict_loop-induction {ℓ} :
      (P : Inner → Type ℓ)
      → ((i : Inner) (c : EvictionCandidate) (r : MemoryRecord)
          → Distinct Bytes-discrete i.memory
          → lookup Bytes-discrete c.key i.memory ≡ some r
          → r.pinned ≡ false
          → P i
          → P (Count.memory_eviction (forget_memory c.key i)))
      → (fuel : ℕ) (x : ℕ × Inner) → Distinct Bytes-discrete x.1.memory
      → P x.1
      → P (evict_loop max_memory_bytes policy fuel x).1
  unfolding evict_loop
  evict_loop-induction P keep zero x d p = p
  evict_loop-induction P keep (suc fuel) x d p =
      elim (Option-cases (victim max_memory_bytes policy x.1)) [
        | inl done ↦ rw (done, evict_loop) p
        | inr (c, chosen) ↦
            let (r, there, free) = victim-lookup x.1 c d chosen in
            let e = evict_one_lem x c r there in
            rw (chosen, evict_loop)
              (evict_loop-induction P keep fuel (evict_one c x)
                (rw e (unfold forget_memory in remove-Distinct Bytes-discrete c.key x.1.memory d))
                (rw e (keep x.1 c r d there free p)))
      ]

  -- With a round for each entry and one more, the loop ends by its own test.
  evict_loop-ends :
      (fuel : ℕ) (x : ℕ × Inner)
      → Distinct Bytes-discrete x.1.memory
      → length x.1.memory < fuel
      → victim max_memory_bytes policy (evict_loop max_memory_bytes policy fuel x).1 ≡ none
  unfolding evict_loop
  evict_loop-ends zero x d h = elim h [ ]
  evict_loop-ends (suc fuel) x d h = elim (Option-cases (victim max_memory_bytes policy x.1)) [
    | inl done ↦ rw (done, evict_loop) done
    | inr (c, chosen) ↦
        let (r, there, free) = victim-lookup x.1 c d chosen in
        let e = evict_one_lem x c r there in
        rw (chosen, evict_loop)
          (evict_loop-ends fuel (evict_one c x)
            (rw e (unfold forget_memory in remove-Distinct Bytes-discrete c.key x.1.memory d))
            (rw e (
              unfold forget_memory in
              omega (arith, length-remove-lt Bytes-discrete c.key x.1.memory r there))))
  ]

  -- The eviction ends because the tier is small enough or the policy names no entry.
  pub evict_memory-ends :
      (i : Inner)
      → Distinct Bytes-discrete i.memory
      → victim max_memory_bytes policy (evict_memory_locked max_memory_bytes policy i).1 ≡ none
  unfolding evict_memory_locked
  evict_memory-ends i d = evict_loop-ends (length i.memory + 1) (0, i) d (omega arith)

  pub evict_loop_idle :
      (fuel : ℕ) (i : Inner)
      → i.memory_bytes ≤ max_memory_bytes
      → evict_loop max_memory_bytes policy fuel (0, i) ≡ (0, i)
  unfolding evict_loop victim
  evict_loop_idle zero i h = refl
  evict_loop_idle (suc fuel) i h = ground arith
