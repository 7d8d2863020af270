-- ===== src/Prelude/Int.antt =====
-- Go's signed integers: a value is an unbounded integer, where the program adds nothing that could
-- leave the width of the type; `negsuc n` is -(n + 1).
use Prim.Native.Nat.{ℕ, suc, ◌+◌, ◌-◌}
use mathlib.Core.Path.{◌≡◌}
use mathlib.Core.Logic.{◌↔◌}
use mathlib.Core.Bool.{Bool, true, false}
use native.Mathlib.Omega.{arith}
use kube_sre_mcp.Prelude.Tests.{ltb, leb, eqb, if◌then◌else◌}

pub data ℤ : Type 0 where
  pos : ℕ → ℤ
  negsuc : ℕ → ℤ

abbrev pub ℤ_eq : ℤ → ℤ → Bool
ℤ_eq (pos a) (pos b) = eqb a b
ℤ_eq (negsuc a) (negsuc b) = eqb a b
ℤ_eq _ _ = false

abbrev pub ℤ_lt : ℤ → ℤ → Bool
ℤ_lt (pos a) (pos b) = ltb a b
ℤ_lt (pos a) (negsuc b) = false
ℤ_lt (negsuc a) (pos b) = true
ℤ_lt (negsuc a) (negsuc b) = ltb b a

abbrev pub is_negative : ℤ → Bool
is_negative (pos _) = false
is_negative (negsuc _) = true

pub ℤ_eq_iff : (a b : ℤ) → (ℤ_eq a b ≡ true) ↔ (a ≡ b)
ℤ_eq_iff (pos a) (pos b) = (λ h. ground arith, λ h. ground arith)
ℤ_eq_iff (pos a) (negsuc b) = (λ h. cc, λ h. cc)
ℤ_eq_iff (negsuc a) (pos b) = (λ h. cc, λ h. cc)
ℤ_eq_iff (negsuc a) (negsuc b) = (λ h. ground arith, λ h. ground arith)

-- a point in time and a duration that may be negative; no time is before the epoch
abbrev pub add_duration : ℕ → ℤ → ℕ
add_duration t (pos d) = t + d
add_duration t (negsuc d) = t - suc d

abbrev pub pos_part : ℤ → ℕ
pos_part (pos n) = n
pos_part (negsuc n) = 0

abbrev pub neg_part : ℤ → ℕ
neg_part (pos n) = 0
neg_part (negsuc n) = suc n

-- a - b, as an integer
abbrev pub sub_ℕ : ℕ → ℕ → ℤ
sub_ℕ a b = if leb b a then pos (a - b) else negsuc (b - a - 1)

infixl 65 ◌+ℤ◌
unfoldable pub ◌+ℤ◌ : ℤ → ℤ → ℤ
a +ℤ b = sub_ℕ (pos_part a + pos_part b) (neg_part a + neg_part b)

-- the function `max` of package correlation
unfoldable pub ℤ_max : ℤ → ℤ → ℤ
ℤ_max a b = if ℤ_lt b a then a else b
