-- ===== src/Base/Int64.antt =====
-- int64 arithmetic, which wraps: by way of the 64 bits of two's complement.
use Prim.Native.Nat.{ℕ, ◌+◌, ◌-◌, ◌*◌, ◌^◌, ◌<◌}
use mathlib.Core.Path.{◌≡◌}
use native.Mathlib.Omega.{arith}
use image_assembler.Base.Int.{ℤ, pos, negsuc, wrap64, ◌≤ℤ◌}

abbrev pub bits64 : ℤ → ℕ
bits64 (pos n) = n
bits64 (negsuc n) = 2 ^ 64 - 1 - n

unfoldable pub add64 : ℤ → ℤ → ℤ
add64 a b = wrap64 (bits64 a + bits64 b)

unfoldable pub mul64 : ℤ → ℤ → ℤ
mul64 a b = wrap64 (bits64 a * bits64 b)

unfoldable pub neg64 : ℤ → ℤ
neg64 a = wrap64 (2 ^ 64 - bits64 a)

-- Adding nothing or less than nothing to a size gives at most that size.
pub add64_le :
    (size : ℕ) (diff : ℤ)
    → size < 2 ^ 63
    → diff ≤ℤ pos 0
    → negsuc (2 ^ 63 - 1) ≤ℤ diff
    → add64 (pos size) diff ≤ℤ pos size
unfolding add64 wrap64
add64_le size (pos n) hs hd lo = ground arith
add64_le size (negsuc n) hs hd lo = ground arith

pub wrap64_ge : (n : ℕ) → negsuc (2 ^ 63 - 1) ≤ℤ wrap64 n
unfolding wrap64
wrap64_ge n = ground arith

-- A product that fits is exact.
pub mul64_exact : (a b : ℕ) → a * b < 2 ^ 63 → mul64 (pos a) (pos b) ≡ pos (a * b)
unfolding mul64 wrap64
mul64_exact a b h = ground arith
