-- ===== src/Float.antt =====
-- `float` as the code uses it: constants, arithmetic and comparisons. The type is a parameter; no law
-- of arithmetic is assumed, and the laws of the order are named where a theorem needs them.
use degoonification.Common.Int.{ℤ}
use degoonification.Common.{ℕ, ◌≡◌, Bool, true, false, if◌then◌else◌}

pub record Float (F : Type 0) : Type 0 where
  pub zero : F
  pub one : F
  pub half : F
  -- The float that is written with these digits, so many of them behind the point.
  pub decimal : ℕ → ℕ → F
  -- Conversions from and to integers.
  pub of_nat : ℕ → F
  pub of_int : ℤ → F
  pub to_uint : F → ℕ
  pub to_int : F → ℤ
  pub round : F → F
  pub abs : F → F
  pub add : F → F → F
  pub sub : F → F → F
  pub mul : F → F → F
  pub div : F → F → F
  pub lt : F → F → Bool
  pub le : F → F → Bool

module _ {F : Type 0} ⦃f : Float F⦄ where
  -- `std::max(a, b)` and `std::min(a, b)`
  abbrev pub fmax : F → F → F
  fmax a b = if f.lt a b then b else a

  abbrev pub fmin : F → F → F
  fmin a b = if f.lt b a then b else a

  -- `std::clamp(v, lo, hi)`
  abbrev pub clamp : F → F → F → F
  clamp v lo hi = if f.lt v lo then lo else if f.lt hi v then hi else v

-- `<` on floats is a strict order, also in the presence of NaN, which is in no relation.
pub record IsStrict (F : Type 0) ⦃f : Float F⦄ : Type 0 where
  pub irrefl : (a : F) → f.lt a a ≡ false
  pub asym : (a b : F) → f.lt a b ≡ true → f.lt b a ≡ false
  pub trans : (a b c : F) → f.lt a b ≡ true → f.lt b c ≡ true → f.lt a c ≡ true
