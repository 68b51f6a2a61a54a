-- ===== src/Prelude/States.antt =====
-- A stateful operation that may fail, as a monad: the state of the moment of the error is kept,
-- as `?` in the source keeps every effect made before it.
use rivet_cache.Prelude.Results.{ErrorKind, Result, ok, err}
use mathlib.Core.Bool.{Bool, true, false}

abbrev pub Op : Type 0 → Type 0 → Type 0
Op S A = S → Result A × S

abbrev pub return : {S A : Type 0} → A → Op S A
return a s = (ok a, s)

abbrev pub fail : {S A : Type 0} → ErrorKind → Op S A
fail e s = (err e, s)

infixl 5 ◌>>=◌ ◌>>◌
abbrev pub ◌>>=◌ : {S A B : Type 0} → Op S A → (A → Op S B) → Op S B
◌>>=◌ m f s = let (r, s') = m s in elim r [ ok a ↦ f a s' | err e ↦ (err e, s') ]

abbrev pub ◌>>◌ : {S A B : Type 0} → Op S A → Op S B → Op S B
m >> k = m >>= λ _. k

-- A step that cannot fail.
abbrev pub modify : {S : Type 0} → (S → S) → Op S (Unit {0})
modify f s = (ok tt, f s)

abbrev pub ensure : {S : Type 0} → Bool → ErrorKind → Op S (Unit {0})
ensure true e s = (ok tt, s)
ensure false e s = (err e, s)

-- The first error of a sequence of steps that are all made.
abbrev pub first_error : Result (Unit {0}) → Result (Unit {0}) → Result (Unit {0})
first_error (ok tt) later = later
first_error (err e) later = err e
