-- ===== src/Prelude/Words.antt =====
-- Unsigned machine words as natural numbers: saturating operations and little-endian bytes.
use Prim.Native.Nat.{ℕ, zero, suc, ◌+◌, ◌-◌, ◌*◌, ◌/◌, ◌%◌, ◌^◌, ◌≤◌, ◌<◌, min}
use mathlib.Core.Path.{◌≡◌, refl, ap}
use mathlib.Core.List.{[], ◌∷◌}
use native.Mathlib.Omega.{arith}
use rivet_cache.Prelude.Lists.{Bytes, length}

abbrev pub u64_max : ℕ
u64_max = 2 ^ 64 - 1

abbrev pub u32_max : ℕ
u32_max = 2 ^ 32 - 1

-- `u64::saturating_add`.
unfoldable pub sat_add : ℕ → ℕ → ℕ
sat_add a b = min (a + b) u64_max

-- `usize::saturating_mul` on 64 bits.
unfoldable pub sat_mul : ℕ → ℕ → ℕ
sat_mul a b = min (a * b) u64_max

-- `to_le_bytes` of a word of `w` bytes.
unfoldable pub to_le_bytes : ℕ → ℕ → Bytes
to_le_bytes zero n = []
to_le_bytes (suc w) n = n % 256 ∷ to_le_bytes w (n / 256)

-- `from_le_bytes`.
unfoldable pub from_le_bytes : Bytes → ℕ
from_le_bytes [] = 0
from_le_bytes (b ∷ bs) = b + 256 * from_le_bytes bs

pub sat_add-le : (a b : ℕ) → a + b ≤ u64_max → sat_add a b ≡ a + b
unfolding sat_add
sat_add-le a b h = omega arith

pub sat_add_bounds : (a b : ℕ) → (sat_add a b ≤ a + b) × (sat_add a b ≤ u64_max)
unfolding sat_add
sat_add_bounds a b = omega arith

pub length-to_le_bytes : (w n : ℕ) → length (to_le_bytes w n) ≡ w
unfolding to_le_bytes
length-to_le_bytes zero n = refl
length-to_le_bytes (suc w) n = ap suc (length-to_le_bytes w (n / 256))

-- The bound of a word of `w` bytes.
abbrev pub word_bound : ℕ → ℕ
word_bound zero = 1
word_bound (suc w) = 256 * word_bound w

pub from_le_bytes-to_le_bytes : (w n : ℕ) → n < word_bound w → from_le_bytes (to_le_bytes w n) ≡ n
unfolding from_le_bytes to_le_bytes
from_le_bytes-to_le_bytes zero n h = omega arith
from_le_bytes-to_le_bytes (suc w) n h =
    omega (arith, from_le_bytes-to_le_bytes w (n / 256) (omega arith))
