-- ===== src/Reuse/Matching/Prefixes.antt =====
-- Texts read from their ends: the run with which two reversed texts begin.
use mathlib.Core.List.{reverse_aux, append_assoc}
use rivet_cache.Prelude.{
  ℕ, suc, ◌+◌, ◌-◌, ◌≤◌, ◌≡◌, refl, sym, ap, ◌∙◌, true, false, List, [], ◌∷◌, ◌++◌, ◌==◌, length,
  arith, Bool-cases, inl, inr, take, drop,
}
use rivet_cache.Prelude.Lists.{length-drop, take-append-drop}

unfoldable pub common_prefix : List ℕ → List ℕ → ℕ
common_prefix [] ys = 0
common_prefix (x ∷ xs) [] = 0
common_prefix (x ∷ xs) (y ∷ ys) =
    let rest = common_prefix xs ys in elim (x == y) [ true ↦ suc rest | false ↦ 0 ]

pub common_prefix-le : (xs ys : List ℕ) → common_prefix xs ys ≤ length xs
unfolding common_prefix
common_prefix-le [] ys = omega arith
common_prefix-le (x ∷ xs) [] = omega arith
common_prefix-le (x ∷ xs) (y ∷ ys) = ground (arith, common_prefix-le xs ys)

pub reverse_aux-append : (m r b : List ℕ) → reverse_aux (m ++ r) b ≡ reverse_aux r (reverse_aux m b)
reverse_aux-append [] r b = refl
reverse_aux-append (x ∷ m) r b = reverse_aux-append m r (x ∷ b)

pub reverse_aux-onto : (m b : List ℕ) → reverse_aux m b ≡ reverse_aux m [] ++ b
reverse_aux-onto [] b = refl
reverse_aux-onto (x ∷ m) b =
    reverse_aux-onto m (x ∷ b)
    ∙ sym (append_assoc (reverse_aux m []) (x ∷ []) b)
    ∙ ap (λ f. f ++ b) (sym (reverse_aux-onto m (x ∷ [])))

pub length-reverse_aux : (m b : List ℕ) → length (reverse_aux m b) ≡ length m + length b
length-reverse_aux [] b = omega arith
length-reverse_aux (x ∷ m) b = omega (arith, length-reverse_aux m (x ∷ b))

pub common_prefix-append : (m r s : List ℕ) → length m ≤ common_prefix (m ++ r) (m ++ s)
unfolding common_prefix
common_prefix-append [] r s = omega arith
common_prefix-append (x ∷ m) r s = ground (arith, common_prefix-append m r s)

pub common_prefix-le_right : (xs ys : List ℕ) → common_prefix xs ys ≤ length ys
unfolding common_prefix
common_prefix-le_right [] ys = omega arith
common_prefix-le_right (x ∷ xs) [] = omega arith
common_prefix-le_right (x ∷ xs) (y ∷ ys) = ground (arith, common_prefix-le_right xs ys)

-- A run at the end of both prefixes.
pub common_prefix-take :
    (xs ys : List ℕ) → take (common_prefix xs ys) xs ≡ take (common_prefix xs ys) ys
unfolding common_prefix
common_prefix-take [] ys = refl
common_prefix-take (x ∷ xs) [] = refl
common_prefix-take (x ∷ xs) (y ∷ ys) = elim (Bool-cases (x == y)) [
  | inl same ↦
      rw (same, common_prefix)
        (ap (◌∷◌ x) (common_prefix-take xs ys)
          ∙ ap (λ z. z ∷ take (common_prefix xs ys) ys) (ground arith))
  | inr other ↦ rw (other, common_prefix)
]

-- The tokens `m` stand in the text at the index.
abbrev pub OccursAt : List ℕ → ℕ → List ℕ → Type 0
OccursAt m index text =
    (before : List ℕ) × (after : List ℕ) × (text ≡ before ++ (m ++ after)) × (length before ≡ index)

-- The first tokens of a reversed prefix, read forwards.
pub occurs_reversed :
    (text rev rest : List ℕ) (n : ℕ)
    → text ≡ reverse_aux rev rest
    → n ≤ length rev
    → OccursAt (reverse_aux (take n rev) []) (length rev - n) text
occurs_reversed text rev rest n e h = (
  reverse_aux (drop n rev) [],
  rest,
  e
      ∙ ap (λ r. reverse_aux r rest) (sym (take-append-drop n rev))
      ∙ reverse_aux-append (take n rev) (drop n rev) rest
      ∙ ap (reverse_aux (drop n rev)) (reverse_aux-onto (take n rev) rest)
      ∙ reverse_aux-onto (drop n rev) _,
  omega (arith, length-reverse_aux (drop n rev) [], length-drop n rev),
)

-- The length of the run at the end of two texts that end alike.
pub common_prefix-reversed :
    (m a c : List ℕ) → length m ≤ common_prefix (reverse_aux (a ++ m) []) (reverse_aux (c ++ m) [])
common_prefix-reversed m a c =
    rw (reverse_aux-append a m [], reverse_aux-append c m [])
      (rw (reverse_aux-onto m (reverse_aux a []), reverse_aux-onto m (reverse_aux c []))
        (omega (
          arith,
          common_prefix-append (reverse_aux m []) (reverse_aux a []) (reverse_aux c []),
          length-reverse_aux m [],
        )))
