-- ===== src/Prelude/Text.antt =====
-- Texts as UTF-8 bytes: what `str::trim` takes off.
use Prim.Native.Nat.{ℕ}
use mathlib.Core.Bool.{Bool, true, ◌&&◌, ◌||◌}
use mathlib.Core.List.{[], ◌∷◌}
use rivet_cache.Prelude.Tests.{leb, ◌==◌}
use rivet_cache.Prelude.Lists.{Bytes}

abbrev between : ℕ → ℕ → ℕ → Bool
between lo hi b = leb lo b && leb b hi

-- The characters with the property White_Space, by the length of their encoding.
is_space_1 : ℕ → Bool
is_space_1 a = between 9 13 a || a == 32

is_space_2 : ℕ → ℕ → Bool
is_space_2 a b = a == 194 && (b == 133 || b == 160)

is_space_3 : ℕ → ℕ → ℕ → Bool
is_space_3 a b c =
    (a == 225 && b == 154 && c == 128)
    || (a == 226 && b == 128 && (between 128 138 c || c == 168 || c == 169 || c == 175))
    || (a == 226 && b == 129 && c == 159)
    || (a == 227 && b == 128 && c == 128)

-- `text.trim().is_empty()`: the text is white space throughout.
unfoldable pub is_blank : Bytes → Bool
unfolding is_space_1 is_space_2 is_space_3
is_blank [] = true
is_blank (a ∷ []) = is_space_1 a
is_blank (a ∷ b ∷ []) = (is_space_1 a && is_space_1 b) || is_space_2 a b
is_blank (a ∷ b ∷ c ∷ rest) =
    let after_1 = is_blank (b ∷ c ∷ rest) in
    let after_2 = is_blank (c ∷ rest) in
    let after_3 = is_blank rest in
    (is_space_1 a && after_1) || (is_space_2 a b && after_2) || (is_space_3 a b c && after_3)
