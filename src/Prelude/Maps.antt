-- ===== src/Prelude/Maps.antt =====
-- Hash maps as association lists. `insert` replaces the entry of its key, as `HashMap::insert`
-- does. The order of the list is one iteration order.
use Prim.Native.Nat.{ℕ, ◌+◌, ◌≤◌, ◌<◌}
use mathlib.Core.Path.{◌≡◌, refl}
use mathlib.Core.Logic.{◌≢◌, ite}
use mathlib.Core.List.{List, [], ◌∷◌}
use mathlib.Core.Option.{Option, none, some}
use native.Mathlib.Omega.{arith}
use rivet_cache.Prelude.Lists.{length}

module _ {ℓ} {K V : Type ℓ} (dec : Discrete K) where
  unfoldable pub lookup : K → List (K × V) → Option V
  lookup k [] = none
  lookup k ((j, v) ∷ m) = ite (dec k j) (some v) (lookup k m)

  unfoldable pub remove : K → List (K × V) → List (K × V)
  remove k [] = []
  remove k ((j, v) ∷ m) = ite (dec k j) (remove k m) ((j, v) ∷ remove k m)

  unfoldable pub insert : K → V → List (K × V) → List (K × V)
  insert k v m = (k, v) ∷ remove k m

  -- No key stands twice.
  abbrev pub Distinct : List (K × V) → Type ℓ
  Distinct [] = Unit
  Distinct ((k, v) ∷ m) = (lookup k m ≡ none) × Distinct m

  pub lookup-remove :
      (j k : K) (m : List (K × V)) → lookup j (remove k m) ≡ ite (dec j k) none (lookup j m)
  unfolding lookup remove
  lookup-remove j k [] = ground arith
  lookup-remove j k ((i, v) ∷ m) = ground (arith, lookup-remove j k m)

  pub lookup-insert :
      (j k : K) (v : V) (m : List (K × V))
      → lookup j (insert k v m) ≡ ite (dec j k) (some v) (lookup j m)
  unfolding lookup insert
  lookup-insert j k v m = ground (arith, lookup-remove j k m)

  pub lookup-remove_self : (k : K) (m : List (K × V)) → lookup k (remove k m) ≡ none
  lookup-remove_self k m = ground (arith, lookup-remove k k m)

  pub lookup-insert_self : (k : K) (v : V) (m : List (K × V)) → lookup k (insert k v m) ≡ some v
  lookup-insert_self k v m = ground (arith, lookup-insert k k v m)

  pub lookup-remove_ne : (j k : K) (m : List (K × V)) → j ≢ k → lookup j (remove k m) ≡ lookup j m
  lookup-remove_ne j k m h = ground (arith, lookup-remove j k m)

  pub lookup-insert_ne :
      (j k : K) (v : V) (m : List (K × V)) → j ≢ k → lookup j (insert k v m) ≡ lookup j m
  lookup-insert_ne j k v m h = ground (arith, lookup-insert j k v m)

  pub remove-Distinct : (k : K) (m : List (K × V)) → Distinct m → Distinct (remove k m)
  unfolding remove
  remove-Distinct k [] d = tt
  remove-Distinct k ((j, v) ∷ m) d = ground (arith, remove-Distinct k m d.1, lookup-remove j k m)

  pub insert-Distinct : (k : K) (v : V) (m : List (K × V)) → Distinct m → Distinct (insert k v m)
  unfolding insert
  insert-Distinct k v m d = (lookup-remove_self k m, remove-Distinct k m d)

  pub remove_absent : (k : K) (m : List (K × V)) → lookup k m ≡ none → remove k m ≡ m
  unfolding lookup remove
  remove_absent k [] h = refl
  remove_absent k ((j, v) ∷ m) h = ground (arith, remove_absent k m)

  -- What stands behind an entry of another key is found past it.
  pub lookup-tail :
      (j k : K) (v w : V) (m : List (K × V))
      → lookup k m ≡ none
      → lookup j m ≡ some w
      → lookup j ((k, v) ∷ m) ≡ some w
  unfolding lookup
  lookup-tail j k v w m absent there = elim (dec j k) [
    | yes same ↦ absurd (ground arith)
    | no other ↦ ground arith
  ]

  -- What an optional value weighs.
  abbrev pub weight : (V → ℕ) → Option V → ℕ
  weight size none = 0
  weight size (some v) = size v

module _ {ℓ} {K V : Type ℓ} where
  -- The sum of a measure over the values.
  abbrev pub total : (V → ℕ) → List (K × V) → ℕ
  total size [] = 0
  total size ((k, v) ∷ m) = size v + total size m

module _ {ℓ} {K V : Type ℓ} (dec : Discrete K) (size : V → ℕ) where
  pub total-remove :
      (k : K) (m : List (K × V))
      → Distinct dec m
      → total size (remove dec k m) + weight dec size (lookup dec k m) ≡ total size m
  unfolding lookup remove
  total-remove k [] d = omega arith
  total-remove k ((j, v) ∷ m) d = ground (arith, total-remove k m d.1, remove_absent dec k m)

  pub total-insert :
      (k : K) (v : V) (m : List (K × V))
      → total size (insert dec k v m) ≡ size v + total size (remove dec k m)
  unfolding insert
  total-insert k v m = refl

  pub weight-le-total : (k : K) (m : List (K × V)) → weight dec size (lookup dec k m) ≤ total size m
  unfolding lookup
  weight-le-total k [] = omega arith
  weight-le-total k ((j, v) ∷ m) = ground (arith, weight-le-total k m)

module _ {ℓ} {K V : Type ℓ} (dec : Discrete K) where
  pub length-remove-le : (k : K) (m : List (K × V)) → length (remove dec k m) ≤ length m
  unfolding remove
  length-remove-le k [] = omega arith
  length-remove-le k ((j, v) ∷ m) = ground (arith, length-remove-le k m)

  -- To remove a key that is there makes the map smaller.
  pub length-remove-lt :
      (k : K) (m : List (K × V)) (v : V)
      → lookup dec k m ≡ some v
      → length (remove dec k m) < length m
  unfolding lookup remove
  length-remove-lt k [] v h = cc
  length-remove-lt k ((j, w) ∷ m) v h = ground (arith, length-remove-lt k m v, length-remove-le k m)
