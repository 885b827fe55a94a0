-- ===== src/Prelude/Int.antt =====
-- Signed integers over the native numbers, and Go's int64 as a range of them.
use Prim.Native.Nat.{ℕ, ◌<◌}
use mathlib.Core.Path.{◌≡◌}
use mathlib.Core.Bool.{Bool, true, false}
use native.Mathlib.Omega.{arith}
use s3_operator.Prelude.Tests.{◌=ℕ◌}

-- `negsuc n` is -(n + 1).
pub data ℤ : Type 0 where
  pos : ℕ → ℤ
  negsuc : ℕ → ℤ

-- The values of an int64. The bound is 2^63.
abbrev pub IsInt64 : ℤ → Type 0
IsInt64 (pos n) = n < 9223372036854775808
IsInt64 (negsuc n) = n < 9223372036854775808

infix 50 ◌=ℤ◌
abbrev pub ◌=ℤ◌ : ℤ → ℤ → Bool
pos a =ℤ pos b = a =ℕ b
pos a =ℤ negsuc b = false
negsuc a =ℤ pos b = false
negsuc a =ℤ negsuc b = a =ℕ b

pub =ℤ→eq : (a b : ℤ) → (a =ℤ b) ≡ true → a ≡ b
=ℤ→eq (pos a) (pos b) h = ground arith
=ℤ→eq (pos a) (negsuc b) h = cc
=ℤ→eq (negsuc a) (pos b) h = cc
=ℤ→eq (negsuc a) (negsuc b) h = ground arith

pub =ℤ_refl : (a : ℤ) → (a =ℤ a) ≡ true
=ℤ_refl (pos a) = ground arith
=ℤ_refl (negsuc a) = ground arith
