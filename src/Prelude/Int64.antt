-- ===== src/Prelude/Int64.antt =====
-- int64: a value is an integer within the width, and an addition wraps around.
use Prim.Native.Nat.{ℕ, ◌+◌, ◌-◌, ◌^◌, ◌%◌, ◌<◌}
use mathlib.Core.Path.{◌≡◌}
use native.Mathlib.Omega.{arith}
use kube_sre_mcp.Prelude.Tests.{ltb, if◌then◌else◌}
use kube_sre_mcp.Prelude.Int.{ℤ, pos, negsuc}

-- the bits of a value, as a number below 2 ^ 64
abbrev bits : ℤ → ℕ
bits (pos n) = n % 2 ^ 64
bits (negsuc n) = 2 ^ 64 - 1 - n % 2 ^ 64

-- the value of these bits
abbrev of_bits : ℕ → ℤ
of_bits m = if ltb m (2 ^ 63) then pos m else negsuc (2 ^ 64 - 1 - m)

unfoldable pub add_int64 : ℤ → ℤ → ℤ
add_int64 a b = of_bits ((bits a + bits b) % 2 ^ 64)

-- A sum that fits into the width is the sum.
pub add_int64_fits : (a b : ℕ) → a + b < 2 ^ 63 → add_int64 (pos a) (pos b) ≡ pos (a + b)
unfolding add_int64
add_int64_fits a b h =
    let e : (a % 2 ^ 64 + b % 2 ^ 64) % 2 ^ 64 ≡ a + b = omega arith in rw e (ground arith)
