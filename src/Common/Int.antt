-- ===== src/Common/Int.antt =====
-- Signed integers over the native numbers: an `int` of the code is one of these, and its bit pattern
-- where it comes from or goes to the outside.
use Prim.Native.Nat.{ℕ, zero, suc, ◌+◌, ◌-◌, ◌*◌, ◌/◌, ◌^◌, ◌≤◌, ◌<◌}
use mathlib.Core.Path.{◌≡◌}
use mathlib.Core.Bool.{Bool, true, false}
use native.Mathlib.Omega.{arith}
use degoonification.Common.Tests.{ltb, leb, if◌then◌else◌}

-- `negsuc n` is -(n + 1).
pub data ℤ : Type 0 where
  pos : ℕ → ℤ
  negsuc : ℕ → ℤ

-- -n
abbrev pub minus : ℕ → ℤ
minus zero = pos 0
minus (suc n) = negsuc n

-- a - b
abbrev pub sub_ℕ : ℕ → ℕ → ℤ
sub_ℕ a b = if leb b a then pos (a - b) else negsuc (b - a - 1)

infixl 65 ◌+ℤ◌
unfoldable pub ◌+ℤ◌ : ℤ → ℤ → ℤ
pos a +ℤ pos b = pos (a + b)
pos a +ℤ negsuc b = sub_ℕ a (suc b)
negsuc a +ℤ pos b = sub_ℕ b (suc a)
negsuc a +ℤ negsuc b = negsuc (a + b + 1)

-- `n * z / k`, rounded towards zero.
unfoldable pub scale_ℤ : ℕ → ℕ → ℤ → ℤ
scale_ℤ n k (pos a) = pos (n * a / k)
scale_ℤ n k (negsuc a) = minus (n * (a + 1) / k)

-- `z >= 0 && z < n`
abbrev pub is_below : ℤ → ℕ → Bool
is_below (pos a) n = ltb a n
is_below (negsuc a) n = false

abbrev pub to_ℕ : ℤ → ℕ
to_ℕ (pos a) = a
to_ℕ (negsuc a) = 0

-- `std::clamp(z, lo, hi)` with bounds that are not negative.
unfoldable pub clamp_ℤ : ℤ → ℕ → ℕ → ℕ
clamp_ℤ (pos a) lo hi = if ltb a lo then lo else if ltb hi a then hi else a
clamp_ℤ (negsuc a) lo hi = lo

-- The `int` with a bit pattern.
abbrev pub int_of_bits : ℕ → ℤ
int_of_bits n = if ltb n (2 ^ 31) then pos n else negsuc (2 ^ 32 - 1 - n)

pub clamp_ℤ_bounds : (z : ℤ) (lo hi : ℕ) → lo ≤ hi → (lo ≤ clamp_ℤ z lo hi) × (clamp_ℤ z lo hi ≤ hi)
unfolding clamp_ℤ
clamp_ℤ_bounds (pos a) lo hi h = ground arith
clamp_ℤ_bounds (negsuc a) lo hi h = omega arith

pub is_below-lt : (z : ℤ) (n : ℕ) → is_below z n ≡ true → to_ℕ z < n
is_below-lt (pos a) n h = ground arith
is_below-lt (negsuc a) n h = cc
