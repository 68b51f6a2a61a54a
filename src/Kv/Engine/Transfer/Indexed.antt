-- ===== src/Kv/Engine/Transfer/Indexed.antt =====
-- The list of the tiers at an index and elsewhere.
use rivet_cache.Prelude.{
  ℕ, zero, suc, ◌≡◌, ◌≢◌, refl, ap, List, [], ◌∷◌, none, some, inl, inr, arith, get_elem?, set, leb,
  length, true, false, Bool-cases, sym, ◌∙◌,
}
use rivet_cache.Prelude.States.{Op}
use rivet_cache.Kv.Engine.{KvEngineInner}
use rivet_cache.Kv.Engine.Transfer.{at_tier, is_out}

pub get_elem?-set :
    {A : Type 0} (i : ℕ) (xs : List A) (v x : A)
    → get_elem? xs i ≡ some x
    → get_elem? (set xs i v) i ≡ some v
get_elem?-set i [] v x h = absurd (ground arith)
get_elem?-set zero (y ∷ ys) v x h = refl
get_elem?-set (suc i) (y ∷ ys) v x h = get_elem?-set i ys v x h

pub get_elem?-set_ne :
    {A : Type 0} (i j : ℕ) (xs : List A) (v : A) → i ≢ j → get_elem? (set xs i v) j ≡ get_elem? xs j
get_elem?-set_ne i j [] v h = refl
get_elem?-set_ne zero zero (y ∷ ys) v h = absurd (h refl)
get_elem?-set_ne zero (suc j) (y ∷ ys) v h = refl
get_elem?-set_ne (suc i) zero (y ∷ ys) v h = refl
get_elem?-set_ne (suc i) (suc j) (y ∷ ys) v h = get_elem?-set_ne i j ys v (λ q. h (ap suc q))

get_elem?-beyond :
    {A : Type 0} (i : ℕ) (xs : List A) → leb (length xs) i ≡ true → get_elem? xs i ≡ none
get_elem?-beyond i [] h = refl
get_elem?-beyond zero (x ∷ xs) h = absurd (ground arith)
get_elem?-beyond (suc i) (x ∷ xs) h = get_elem?-beyond i xs (ground arith)

pub is_out-there :
    {T : Type 0} (i : ℕ) (inner : KvEngineInner T) (t : T)
    → get_elem? inner.tiers i ≡ some t
    → is_out i inner ≡ false
is_out-there i inner t there = elim (Bool-cases (leb (length inner.tiers) i)) [
  | inr inside ↦ inside
  | inl out ↦ absurd (ground (arith, sym (get_elem?-beyond i inner.tiers out) ∙ there))
]

pub at_tier-there :
    {T A : Type 0} (i : ℕ) (op : Op T A) (inner : KvEngineInner T) (t : T)
    → get_elem? inner.tiers i ≡ some t
    → at_tier i op inner ≡ ((op t).0, record inner { tiers = set inner.tiers i (op t).1 })
unfolding at_tier
at_tier-there i op inner t there = rw (there, at_tier)
