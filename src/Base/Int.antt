-- ===== src/Base/Int.antt =====
-- Python's `int` where it can be negative: `negsuc n` is -(n + 1).
use Prim.Native.Nat.{ℕ, suc, ◌+◌, ◌-◌, ◌≤◌}
use mathlib.Core.Path.{◌≡◌}
use mathlib.Core.Bool.{Bool, true}
use native.Mathlib.Omega.{arith}
use gpu_control.Base.Tests.{leb, ◌==◌, if◌then◌else◌}

pub data ℤ : Type 0 where
  pos : ℕ → ℤ
  negsuc : ℕ → ℤ

abbrev pub pos_part : ℤ → ℕ
pos_part (pos n) = n
pos_part (negsuc n) = 0

abbrev pub neg_part : ℤ → ℕ
neg_part (pos n) = 0
neg_part (negsuc n) = suc n

-- a - b, as an integer.
abbrev pub sub_ℕ : ℕ → ℕ → ℤ
sub_ℕ a b = if leb b a then pos (a - b) else negsuc (b - a - 1)

infix 50 ◌≤ℤ◌
abbrev pub ◌≤ℤ◌ : ℤ → ℤ → Type 0
a ≤ℤ b = pos_part a + neg_part b ≤ pos_part b + neg_part a

-- `a <= b` on Python integers.
abbrev pub int_le : ℤ → ℤ → Bool
int_le a b = leb (pos_part a + neg_part b) (pos_part b + neg_part a)

-- `a == b` on Python integers.
abbrev pub int_eq : ℤ → ℤ → Bool
int_eq a b = (pos_part a + neg_part b) == (pos_part b + neg_part a)

-- `0 < a`.
abbrev pub int_pos : ℤ → Bool
int_pos a = leb 1 (pos_part a)

-- `0 <= a`.
abbrev pub int_nonneg : ℤ → Bool
int_nonneg a = neg_part a == 0

pub int_le→≤ℤ : (a b : ℤ) → int_le a b ≡ true → a ≤ℤ b
int_le→≤ℤ a b h = ground arith

pub int_eq→eq : (a b : ℤ) → int_eq a b ≡ true → a ≡ b
int_eq→eq a b h = ground arith
