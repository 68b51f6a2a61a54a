-- ===== src/Prelude/Results.antt =====
-- `std::io::Result`, and the monad of a stateful operation that may fail. An error is its
-- `io::ErrorKind`; the text of the message is not modelled. The state survives an error.
use mathlib.Core.Path.{◌≡◌, refl}
use mathlib.Core.Logic.{◌⊎◌, inl, inr}

pub data ErrorKind : Type 0 where
  invalid_input invalid_data unexpected_eof unsupported not_found : ErrorKind
  already_exists broken_pipe would_block out_of_memory other : ErrorKind

pub data Result {ℓ} (A : Type ℓ) : Type ℓ where
  ok : A → Result A
  err : ErrorKind → Result A

-- A chain of fallible steps without state.
infixl 5 ◌>>=◌
abbrev pub ◌>>=◌ {ℓ κ} : {A : Type ℓ} {B : Type κ} → Result A → (A → Result B) → Result B
err e >>= f = err e
ok a >>= f = f a

pub Result-cases {ℓ} :
    {A : Type ℓ} (r : Result A) → ((a : A) × (r ≡ ok a)) ⊎ ((e : ErrorKind) × (r ≡ err e))
Result-cases (ok a) = inl (a, refl)
Result-cases (err e) = inr (e, refl)

pub ok-injective {ℓ} : {A : Type ℓ} {a b : A} → ◌≡◌ {A = Result A} (ok a) (ok b) → a ≡ b
ok-injective h = cc

pub err≢ok {ℓ} : {A : Type ℓ} {x : ErrorKind} {a : A} → ◌≡◌ {A = Result A} (err x) (ok a) → ⊥
err≢ok h = cc
