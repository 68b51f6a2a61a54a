-- ===== src/Policy/Tests.antt =====
-- Runs of src/policy.rs, and its theorems at concrete inputs.
use rivet_cache.Prelude.{ℕ, ◌≡◌, refl, ◌⊎◌, [], ◌∷◌, ◌++◌, some, arith, replicate}
use rivet_cache.Prelude.Lists.{Bytes, codes}
use rivet_cache.Prelude.Results.{ok, err, invalid_input}
use rivet_cache.Policy.{EvictionCandidate, validate, choose_victim}
use rivet_cache.Policy.Lru.{IsLeast, choose_victim-IsLeast}
use rivet_cache.Policy.Keys.{Collision, make_key-injective}

abbrev hex_key : Bytes
hex_key = replicate 63 b'0' ++ b'f' ∷ []

validate_runs :
    (validate hex_key ≡ ok tt)
    × (validate (replicate 64 b'g') ≡ err invalid_input)
    × (validate (replicate 63 b'0') ≡ err invalid_input)
unfolding validate
validate_runs = (refl, refl, refl)

abbrev used_at : ℕ → EvictionCandidate
used_at tick = record { key = tick ∷ []; last_access = tick; size_bytes = 1 }

-- Of equally old candidates the first is picked.
choose_victim_runs : choose_victim (used_at 7 ∷ used_at 3 ∷ used_at 9 ∷ used_at 3 ∷ []) ≡ some 1
unfolding choose_victim
choose_victim_runs = refl

choose_victim-IsLeast_example :
    (i : ℕ) × (choose_victim (used_at 7 ∷ used_at 3 ∷ []) ≡ some i)
    × IsLeast (used_at 7 ∷ used_at 3 ∷ []) i
choose_victim-IsLeast_example = choose_victim-IsLeast (used_at 7) (used_at 3 ∷ [])

-- A digest that keeps its input, and an encoder that does.
abbrev as_is : Bytes → Bytes
as_is x = x

make_key-injective_example :
    ((codes "kv" ≡ codes "kv") × (codes "m" ≡ codes "m") × (codes "p" ≡ codes "p"))
    ⊎ Collision as_is
make_key-injective_example =
    make_key-injective as_is as_is (λ x y h. h) (codes "kv") (codes "m") (codes "p") (codes "kv")
      (codes "m") (codes "p") (omega arith) (omega arith) (omega arith) (omega arith) (omega arith)
      (omega arith) refl
