-- ===== src/Prelude/Int.antt =====
-- Signed integers over the native numbers, under the library's names: the values of Go's signed
-- types, with the two readings of a bit pattern that the parser uses.
use Prim.Native.Nat.{ℕ, suc, ◌+◌, ◌-◌, ◌*◌, ◌≤◌, ◌<◌}
use mathlib.Core.Path.{◌≡◌}
use native.Mathlib.Omega.{arith}
use flybeeper_com_map_fanet.Prelude.Tests.{ltb, leb, if◌then◌else◌}

-- `negsuc n` is -(n + 1).
pub data ℤ : Type 0 where
  pos : ℕ → ℤ
  negsuc : ℕ → ℤ

abbrev pub pos_part : ℤ → ℕ
pos_part (pos n) = n
pos_part (negsuc n) = 0

abbrev pub neg_part : ℤ → ℕ
neg_part (pos n) = 0
neg_part (negsuc n) = suc n

-- a - b, as an integer.
abbrev pub sub_ℕ : ℕ → ℕ → ℤ
sub_ℕ a b = if leb b a then pos (a - b) else negsuc (b - a - 1)

infix 50 ◌≤ℤ◌
abbrev pub ◌≤ℤ◌ : ℤ → ℤ → Type 0
a ≤ℤ b = pos_part a + neg_part b ≤ pos_part b + neg_part a

-- `a * k` for a multiplier that is not negative.
abbrev pub scale : ℤ → ℕ → ℤ
scale a k = sub_ℕ (pos_part a * k) (neg_part a * k)

-- The signed reading of a pattern below `2 * half`, by two's complement.
abbrev pub to_signed : ℕ → ℕ → ℤ
to_signed half n = if ltb n half then pos n else negsuc (2 * half - 1 - n)

-- The pattern of a signed value: the same for both readings of it.
abbrev pub to_unsigned : ℕ → ℤ → ℕ
to_unsigned half (pos n) = n
to_unsigned half (negsuc n) = 2 * half - 1 - n

pub to_unsigned-to_signed : (half n : ℕ) → n < 2 * half → to_unsigned half (to_signed half n) ≡ n
to_unsigned-to_signed half n h = ground arith

pub to_signed-to_unsigned :
    (half : ℕ) (z : ℤ)
    → pos_part z < half
    → neg_part z ≤ half
    → to_signed half (to_unsigned half z) ≡ z
to_signed-to_unsigned half (pos n) h k = ground arith
to_signed-to_unsigned half (negsuc n) h k = ground arith
