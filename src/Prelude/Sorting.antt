-- ===== src/Prelude/Sorting.antt =====
-- `sort_by_key` on a numeric key: a stable sort, here by insertion.
use Prim.Native.Nat.{ℕ, ◌≤◌}
use mathlib.Core.List.{List, [], ◌∷◌}
use mathlib.Core.Bool.{true, false}
use mathlib.Core.Logic.{inl, inr}
use native.Mathlib.Omega.{arith}
use rivet_cache.Prelude.Tests.{leb, leb→le, Bool-cases}
use rivet_cache.Prelude.Lists.{All}

module _ {A : Type 0} (key : A → ℕ) where
  unfoldable pub insert_sorted : A → List A → List A
  insert_sorted x [] = x ∷ []
  insert_sorted x (y ∷ ys) =
      let rest = insert_sorted x ys in
      elim (leb (key x) (key y)) [ true ↦ x ∷ y ∷ ys | false ↦ y ∷ rest ]

  unfoldable pub sort_by_key : List A → List A
  unfolding insert_sorted
  sort_by_key [] = []
  sort_by_key (x ∷ xs) = insert_sorted x (sort_by_key xs)

  -- A property of all elements survives the sort.
  insert_sorted-All :
      (P : A → Type 0) (x : A) (xs : List A) → P x → All P xs → All P (insert_sorted x xs)
  unfolding insert_sorted
  insert_sorted-All P x [] p ps = (p, tt)
  insert_sorted-All P x (y ∷ ys) p (q, qs) = elim (Bool-cases (leb (key x) (key y))) [
    | inl first ↦ rw (first, insert_sorted) (p, (q, qs))
    | inr later ↦ rw (later, insert_sorted) (q, insert_sorted-All P x ys p qs)
  ]

  pub sort_by_key-All : (P : A → Type 0) (xs : List A) → All P xs → All P (sort_by_key xs)
  unfolding sort_by_key
  sort_by_key-All P [] ps = tt
  sort_by_key-All P (x ∷ xs) (p, ps) =
      insert_sorted-All P x (sort_by_key xs) p (sort_by_key-All P xs ps)

  -- Each element is followed by none with a smaller key.
  abbrev pub IsSorted : List A → Type 0
  IsSorted [] = Unit
  IsSorted (x ∷ xs) = All (λ y. key x ≤ key y) xs × IsSorted xs

  All-le : (a b : ℕ) (xs : List A) → a ≤ b → All (λ y. b ≤ key y) xs → All (λ y. a ≤ key y) xs
  All-le a b [] h ps = tt
  All-le a b (x ∷ xs) h (p, ps) = (omega arith, All-le a b xs h ps)

  insert_sorted-IsSorted : (x : A) (xs : List A) → IsSorted xs → IsSorted (insert_sorted x xs)
  unfolding insert_sorted
  insert_sorted-IsSorted x [] s = (tt, tt)
  insert_sorted-IsSorted x (y ∷ ys) (s, ss) = elim (Bool-cases (leb (key x) (key y))) [
    | inl first ↦
        rw (first, insert_sorted)
          (
            (
              leb→le (key x) (key y) first,
              All-le (key x) (key y) ys (leb→le (key x) (key y) first) s,
            ),
            (s, ss),
          )
    | inr later ↦
        rw (later, insert_sorted)
          (
            insert_sorted-All (λ z. key y ≤ key z) x ys (ground arith) s,
            insert_sorted-IsSorted x ys ss,
          )
  ]

  pub sort_by_key-IsSorted : (xs : List A) → IsSorted (sort_by_key xs)
  unfolding sort_by_key
  sort_by_key-IsSorted [] = tt
  sort_by_key-IsSorted (x ∷ xs) =
      insert_sorted-IsSorted x (sort_by_key xs) (sort_by_key-IsSorted xs)
