-- ===== src/Policy/Lru.antt =====
-- `LruEviction::choose_victim` picks a candidate that was used least recently.
use rivet_cache.Prelude.{
  ap, ℕ, suc, ◌+◌, ◌≤◌, ◌<◌, ◌≡◌, refl, List, [], ◌∷◌, some, arith, get_elem?, ltb, ◌⊎◌, inl, inr,
  Bool-cases,
}
use rivet_cache.Prelude.Lists.{All}
use rivet_cache.Policy.{EvictionCandidate, least_from, choose_victim}

-- Index `i` of the list holds a least recently used candidate.
pub record IsLeast (cs : List EvictionCandidate) (i : ℕ) : Type 0 where
  pub candidate : EvictionCandidate
  pub found : get_elem? cs i ≡ some candidate
  pub least : All (λ d. candidate.last_access ≤ d.last_access) cs

All-weaken :
    (a b : ℕ) (cs : List EvictionCandidate)
    → a ≤ b
    → All (λ d. b ≤ d.last_access) cs
    → All (λ d. a ≤ d.last_access) cs
All-weaken a b [] h all = tt
All-weaken a b (c ∷ cs) h all = (omega arith, All-weaken a b cs h all.1)

-- The running best stays the best, or a later candidate is strictly less.
least_from_cases :
    (i best access : ℕ) (cs : List EvictionCandidate)
    → ((least_from i best access cs ≡ best) × All (λ d. access ≤ d.last_access) cs)
      ⊎ ((j : ℕ) × (d : EvictionCandidate) × (least_from i best access cs ≡ i + j)
          × (get_elem? cs j ≡ some d)
          × (d.last_access < access)
          × All (λ e. d.last_access ≤ e.last_access) cs)
unfolding least_from
least_from_cases i best access [] = inl (refl, tt)
least_from_cases i best access (c ∷ cs) = elim (Bool-cases (ltb c.last_access access)) [
  | inl less ↦ elim (least_from_cases (i + 1) i c.last_access cs) [
    | inl (e, all) ↦ inr (0, c, rw less (omega (arith, e)), refl, ground arith, (omega arith, all))
    | inr (j, d, e, found, lt, all) ↦
        inr (suc j, d, rw less (omega (arith, e)), found, ground arith, (omega arith, all))
  ]
  | inr more ↦ elim (least_from_cases (i + 1) best access cs) [
    | inl (e, all) ↦ inl (rw more e, (ground arith, all))
    | inr (j, d, e, found, lt, all) ↦
        inr (suc j, d, rw more (omega (arith, e)), found, lt, (ground arith, all))
  ]
]

-- Of a list with a candidate the policy picks one, and none was used less recently.
pub choose_victim-IsLeast :
    (c : EvictionCandidate) (cs : List EvictionCandidate)
    → (i : ℕ) × (choose_victim (c ∷ cs) ≡ some i) × IsLeast (c ∷ cs) i
unfolding choose_victim
choose_victim-IsLeast c cs = elim (least_from_cases 1 0 c.last_access cs) [
  | inl (e, all) ↦
      (0, ap some e, record { candidate = c; found = refl; least = (omega arith, all) })
  | inr (j, d, e, found, lt, all) ↦ (
    suc j,
    ap some (omega (arith, e)),
    record { candidate = d; found = found; least = (omega arith, all) },
  )
]
