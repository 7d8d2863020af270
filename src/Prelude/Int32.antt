-- ===== src/Prelude/Int32.antt =====
-- int32: a value is an integer within the width, and an addition wraps around.
use Prim.Native.Nat.{ℕ, ◌+◌, ◌-◌, ◌^◌, ◌%◌, ◌<◌}
use mathlib.Core.Path.{◌≡◌}
use mathlib.Core.Logic.{inl, inr}
use native.Mathlib.Omega.{arith}
use kube_sre_mcp.Prelude.Tests.{ltb, if◌then◌else◌, Bool-cases}
use kube_sre_mcp.Prelude.Int.{ℤ, pos, negsuc}

-- the bits of a value, as a number below 2 ^ 32
abbrev pub residue : ℤ → ℕ
residue (pos n) = n % 2 ^ 32
residue (negsuc n) = 2 ^ 32 - 1 - n % 2 ^ 32

-- the value of these bits
abbrev pub from_bits : ℕ → ℤ
from_bits m = if ltb m (2 ^ 31) then pos m else negsuc (2 ^ 32 - 1 - m)

unfoldable pub add_int32 : ℤ → ℤ → ℤ
add_int32 a b = from_bits ((residue a + residue b) % 2 ^ 32)

residue-from_bits : (m : ℕ) → m < 2 ^ 32 → residue (from_bits m) ≡ m
residue-from_bits m h = elim (Bool-cases (ltb m (2 ^ 31))) [
  | inl e ↦ rw e (omega arith)
  | inr e ↦ rw e (omega arith)
]

-- An addition adds the bits modulo 2 ^ 32.
pub residue-add_int32 : (a b : ℤ) → residue (add_int32 a b) ≡ (residue a + residue b) % 2 ^ 32
unfolding add_int32
residue-add_int32 a b = residue-from_bits ((residue a + residue b) % 2 ^ 32) (omega arith)
