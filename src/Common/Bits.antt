-- ===== src/Common/Bits.antt =====
-- Bits of machine words at variables: the laws of `bit_and` and `bit_or` for the lowest digit, single
-- bits, and words that are put together from bytes.
use Prim.Native.Nat.{
  ℕ, zero, suc, ◌+◌, ◌*◌, ◌/◌, ◌%◌, ◌^◌, ◌≤◌, ◌<◌, min, max, bit_and, bit_or, digits,
  bit_and-bitwise, bit_or-bitwise,
}
use mathlib.Core.Path.{◌≡◌, refl, ap, sym, ◌∙◌}
use mathlib.Core.Bool.{Bool, true, false}
use native.Mathlib.Nat.{pow-suc}
use native.Mathlib.Omega.{arith}
use degoonification.Common.Tests.{◌==◌, if◌then◌else◌}

module _ (low : ℕ → ℕ) (join : ℕ → ℕ → ℕ) where
  -- The library's walk over the digits of `x`, on fuel.
  abbrev walk : ℕ → ℕ → ℕ → ℕ
  walk fuel x y = digits low join fuel x y

  walk-zero : (fuel y : ℕ) → walk fuel 0 y ≡ low y
  walk-zero zero y = refl
  walk-zero (suc fuel) y = refl

  -- Any two amounts of fuel that are enough give the same word.
  walk_same : (x y f g : ℕ) → x ≤ f → x ≤ g → walk f x y ≡ walk g x y
  walk_same zero y f g h k = walk-zero f y ∙ sym (walk-zero g y)
  walk_same (suc x) y zero g h k = absurd (omega arith)
  walk_same (suc x) y (suc f) zero h k = absurd (omega arith)
  walk_same (suc x) y (suc f) (suc g) h k =
      let rest = walk_same (suc x / 2) (y / 2) f g (omega arith) (omega arith) in
      ap (λ w. w * 2 + join (suc x % 2) (y % 2)) rest

-- The lowest digits of a word of `&` are those of its parts, and so for the rest.
pub bit_and_step : (v w : ℕ) → bit_and v w ≡ min (v % 2) (w % 2) + 2 * bit_and (v / 2) (w / 2)
bit_and_step zero b = omega (arith, bit_and-bitwise zero b, bit_and-bitwise zero (b / 2))
bit_and_step (suc a) b =
    let rest =
      walk_same (λ y. zero) min (suc a / 2) (b / 2) (suc a / 2) a (omega arith) (omega arith) in
    omega (arith, rest, bit_and-bitwise (suc a / 2) (b / 2), bit_and-bitwise (suc a) b)

-- The same for `|`.
pub bit_or_step : (v w : ℕ) → bit_or v w ≡ max (v % 2) (w % 2) + 2 * bit_or (v / 2) (w / 2)
bit_or_step zero b = omega (arith, bit_or-bitwise zero b, bit_or-bitwise zero (b / 2))
bit_or_step (suc a) b =
    let rest =
      walk_same (λ y. y) max (suc a / 2) (b / 2) (suc a / 2) a (omega arith) (omega arith) in
    omega (arith, rest, bit_or-bitwise (suc a / 2) (b / 2), bit_or-bitwise (suc a) b)

or_walk : (fuel a : ℕ) → a ≤ fuel → walk (λ y. y) max fuel a 0 ≡ a
or_walk zero zero enough = refl
or_walk zero (suc a) enough = absurd (omega arith)
or_walk (suc fuel) zero enough = refl
or_walk (suc fuel) (suc a) enough = omega (arith, or_walk fuel (suc a / 2) (omega arith))

pub bit_or-zero : (a : ℕ) → bit_or a 0 ≡ a
bit_or-zero a = bit_or-bitwise a 0 ∙ or_walk a a (omega arith)

and_walk : (fuel a : ℕ) → a ≤ fuel → walk (λ y. zero) min fuel a 0 ≡ 0
and_walk zero zero enough = refl
and_walk zero (suc a) enough = absurd (omega arith)
and_walk (suc fuel) zero enough = refl
and_walk (suc fuel) (suc a) enough = omega (arith, and_walk fuel (suc a / 2) (omega arith))

pub bit_and-zero : (a : ℕ) → bit_and a 0 ≡ 0
bit_and-zero a = bit_and-bitwise a 0 ∙ and_walk a a (omega arith)

half-pow : (k : ℕ) → 2 ^ suc k / 2 ≡ 2 ^ k
half-pow k = omega (arith, pow-suc 2 k)

-- `(hi << k) | lo`: the two parts do not overlap.
pub bit_or-low : (k hi lo : ℕ) → lo < 2 ^ k → bit_or (hi * 2 ^ k) lo ≡ hi * 2 ^ k + lo
bit_or-low zero hi lo h =
    let lo_zero : lo ≡ 0 = omega arith in rw lo_zero (omega (arith, bit_or-zero (hi * 2 ^ 0)))
bit_or-low (suc k) hi lo h =
    let half : hi * 2 ^ suc k / 2 ≡ hi * 2 ^ k =
      omega (arith, pow-suc 2 k, ap (λ (t : ℕ). hi * t) (pow-suc 2 k)) in
    let ih = bit_or-low k hi (lo / 2) (omega (arith, pow-suc 2 k)) in
    let high : bit_or (hi * 2 ^ suc k / 2) (lo / 2) ≡ hi * 2 ^ k + lo / 2 = rw half ih in
    omega (
      arith,
      bit_or_step (hi * 2 ^ suc k) lo,
      high,
      pow-suc 2 k,
      ap (λ (t : ℕ). hi * t) (pow-suc 2 k),
    )

-- The binary digit of `w` at position `k`.
pub digit : ℕ → ℕ → ℕ
digit w zero = w % 2
digit w (suc k) = digit (w / 2) k

digit-bit_or : (k a b : ℕ) → digit (bit_or a b) k ≡ max (digit a k) (digit b k)
unfolding digit
digit-bit_or zero a b = omega (arith, bit_or_step a b)
digit-bit_or (suc k) a b =
    let half : bit_or a b / 2 ≡ bit_or (a / 2) (b / 2) = omega (arith, bit_or_step a b) in
    rw half (digit-bit_or k (a / 2) (b / 2))

pub digit-zero : (k : ℕ) → digit 0 k ≡ 0
unfolding digit
digit-zero zero = refl
digit-zero (suc k) = digit-zero k

digit-pow : (j k : ℕ) → digit (2 ^ j) k ≡ (if j == k then 1 else 0)
unfolding digit
digit-pow zero zero = refl
digit-pow zero (suc k) = ground (arith, digit-zero k)
digit-pow (suc j) zero = ground (arith, pow-suc 2 j)
digit-pow (suc j) (suc k) = rw (half-pow j) (digit-pow j k ∙ ground arith)

-- `w |= 1 << j` sets the digit at `j` and no other.
pub digit-set :
    (w j k : ℕ) → digit (bit_or w (2 ^ j)) k ≡ (if j == k then max (digit w k) 1 else digit w k)
digit-set w j k = rw (digit-bit_or k w (2 ^ j), digit-pow j k) (ground arith)

-- `w & (1 << k)` is zero exactly where the digit is.
pub bit_and-digit : (w k : ℕ) → bit_and w (2 ^ k) ≡ digit w k * 2 ^ k
unfolding digit
bit_and-digit w zero = omega (arith, bit_and_step w 1, bit_and-zero (w / 2))
bit_and-digit w (suc k) =
    let half : bit_and (w / 2) (2 ^ suc k / 2) ≡ digit (w / 2) k * 2 ^ k =
      rw (half-pow k) (bit_and-digit (w / 2) k) in
    omega (
      arith,
      bit_and_step w (2 ^ suc k),
      half,
      pow-suc 2 k,
      ap (λ (t : ℕ). digit (w / 2) k * t) (pow-suc 2 k),
    )

-- A test that holds of every number below a bound, by evaluation.
unfoldable pub holds_below : (ℕ → Bool) → ℕ → Bool
holds_below test zero = true
holds_below test (suc bound) =
    let rest = holds_below test bound in if test bound then rest else false

pub holds_below-at :
    (test : ℕ → Bool) (bound i : ℕ) → i < bound → holds_below test bound ≡ true → test i ≡ true
unfolding holds_below
holds_below-at test zero i below h = absurd (omega arith)
holds_below-at test (suc bound) i below h = ground (arith, holds_below-at test bound i)

pub digit-lt : (w k : ℕ) → digit w k < 2
unfolding digit
digit-lt w zero = omega arith
digit-lt w (suc k) = digit-lt (w / 2) k
