-- ===== src/Ipc/Numbers.antt =====
-- Decimal numbers: how a stream writes an integer, and `std::stoul`, `std::stoull` and `std::stoi`, where
-- `none` is an exception.
use degoonification.Common.{
  ℕ, zero, suc, ◌+◌, ◌-◌, ◌*◌, ◌/◌, ◌%◌, ◌^◌, ◌<◌, ◌≡◌, ◌≢◌, refl, ap, ◌∙◌, lt→ltb, le→leb, Bool,
  true, false, ◌&&◌, ◌==◌, ltb, leb, if◌then◌else◌, Option, none, some, [], ◌∷◌, All, Bytes,
  is_space, arith, Bool-cases, inl, inr,
}
use degoonification.Common.Int.{ℤ, pos, negsuc, minus}

-- The decimal digits of a number before a text, at most so many.
unfoldable pub digits : ℕ → ℕ → Bytes → Bytes
digits zero n acc = acc
digits (suc fuel) n acc =
    let all = digits fuel (n / 10) ((48 + n % 10) ∷ acc) in
    if n / 10 == 0 then (48 + n % 10) ∷ acc else all

-- A number of 64 bits has at most 20 digits.
unfoldable pub to_string : ℕ → Bytes
unfolding digits
to_string n = digits 20 n []

unfoldable pub drop_spaces : Bytes → Bytes
drop_spaces [] = []
drop_spaces (c ∷ s) = let rest = drop_spaces s in if is_space c then rest else c ∷ s

abbrev pub is_digit : ℕ → Bool
is_digit c = leb 48 c && leb c 57

-- The number that the leading digits spell, behind `n`.
unfoldable pub scan : ℕ → Bytes → ℕ
scan n [] = n
scan n (c ∷ s) = let rest = scan (n * 10 + (c - 48)) s in if is_digit c then rest else n

abbrev unsigned : Bytes → Option ℕ
unsigned [] = none
unsigned (c ∷ s) = if is_digit c then some (scan 0 (c ∷ s)) else none

abbrev with_sign : Bool → Option ℕ → Option (Bool × ℕ)
with_sign negative none = none
with_sign negative (some n) = some (negative, n)

abbrev signed : Bytes → Option (Bool × ℕ)
signed [] = none
signed (c ∷ s) =
    if c == b'-'
    then with_sign true (unsigned s)
    else if c == b'+'
    then with_sign false (unsigned s)
    else with_sign false (unsigned (c ∷ s))

abbrev in_64_bits : Option (Bool × ℕ) → Option ℕ
in_64_bits none = none
in_64_bits (some (negative, n)) =
    if leb (2 ^ 64) n then none else some (if negative then (2 ^ 64 - n) % 2 ^ 64 else n)

abbrev in_int : Option (Bool × ℕ) → Option ℤ
in_int none = none
in_int (some (true, n)) = if leb n (2 ^ 31) then some (minus n) else none
in_int (some (false, n)) = if ltb n (2 ^ 31) then some (pos n) else none

-- `std::stoul` and `std::stoull`, of 64 bits both.
unfoldable pub stoull : Bytes → Option ℕ
unfolding drop_spaces scan
stoull s = in_64_bits (signed (drop_spaces s))

unfoldable pub stoi : Bytes → Option ℤ
unfolding drop_spaces scan
stoi s = in_int (signed (drop_spaces s))

-- A text that starts with a digit.
abbrev pub IsNumeral : Bytes → Type 0
IsNumeral [] = ⊥
IsNumeral (c ∷ s) = is_digit c ≡ true

pub digit_of : (n : ℕ) → is_digit (48 + n % 10) ≡ true
digit_of n = ground arith

scan-digit : (m n : ℕ) (acc : Bytes) → scan m ((48 + n % 10) ∷ acc) ≡ scan (m * 10 + n % 10) acc
unfolding scan
scan-digit m n acc = rw (digit_of n) (rw same refl)
  where
    same : 48 + n % 10 - 48 ≡ n % 10
    same = omega arith

pub scan-digits :
    (fuel n : ℕ) (acc : Bytes) → n < 10 ^ fuel → 0 < fuel → scan 0 (digits fuel n acc) ≡ scan n acc
unfolding digits
scan-digits zero n acc h k = absurd (omega arith)
scan-digits (suc fuel) n acc h k = elim (Bool-cases (n / 10 == 0)) [
  | inl e ↦
      let small : 0 * 10 + n % 10 ≡ n = ground (arith, e) in
      rw e (scan-digit 0 n acc ∙ ap (λ m. scan m acc) small)
  | inr e ↦
      let parts : n / 10 * 10 + n % 10 ≡ n = omega arith in
      rw e (
        scan-digits fuel (n / 10) ((48 + n % 10) ∷ acc) (fits fuel n h) (more fuel n h e)
        ∙ scan-digit (n / 10) n acc
        ∙ ap (λ m. scan m acc) parts)
]
  where
    fits : (fuel n : ℕ) → n < 10 ^ suc fuel → n / 10 < 10 ^ fuel
    fits fuel n h = omega arith

    more : (fuel n : ℕ) → n < 10 ^ suc fuel → (n / 10 == 0) ≡ false → 0 < fuel
    more zero n h e = ground arith
    more (suc fuel) n h e = omega arith

pub digits-IsNumeral : (fuel n : ℕ) (acc : Bytes) → IsNumeral acc → IsNumeral (digits fuel n acc)
unfolding digits
digits-IsNumeral zero n acc h = h
digits-IsNumeral (suc fuel) n acc h = elim (Bool-cases (n / 10 == 0)) [
  | inl e ↦ rw e (digit_of n)
  | inr e ↦ rw e (digits-IsNumeral fuel (n / 10) ((48 + n % 10) ∷ acc) (digit_of n))
]

to_string-IsNumeral : (n : ℕ) → IsNumeral (to_string n)
unfolding to_string digits
to_string-IsNumeral n = elim (Bool-cases (n / 10 == 0)) [
  | inl e ↦ rw e (digit_of n)
  | inr e ↦ rw e (digits-IsNumeral 19 (n / 10) ((48 + n % 10) ∷ []) (digit_of n))
]

signed-numeral : (s : Bytes) → IsNumeral s → signed (drop_spaces s) ≡ some (false, scan 0 s)
unfolding drop_spaces
signed-numeral [] h = absurd h
signed-numeral (c ∷ s) h = rw no_space (rw no_minus (rw no_plus (rw h refl)))
  where
    no_space : is_space c ≡ false
    no_space = ground (arith, h)

    no_minus : (c == b'-') ≡ false
    no_minus = ground (arith, h)

    no_plus : (c == b'+') ≡ false
    no_plus = ground (arith, h)

scan-to_string : (n : ℕ) → n < 2 ^ 64 → scan 0 (to_string n) ≡ n
unfolding to_string scan
scan-to_string n h = scan-digits 20 n [] (omega arith) (omega arith)

pub stoull-to_string : (n : ℕ) → n < 2 ^ 64 → stoull (to_string n) ≡ some n
unfolding stoull
stoull-to_string n h =
    rw (signed-numeral (to_string n) (to_string-IsNumeral n))
      (rw (scan-to_string n h) (ground arith))

pub stoi-to_string : (n : ℕ) → n < 2 ^ 31 → stoi (to_string n) ≡ some (pos n)
unfolding stoi
stoi-to_string n h =
    rw (signed-numeral (to_string n) (to_string-IsNumeral n))
      (rw (scan-to_string n (omega arith)) (rw (lt→ltb n (2 ^ 31) h) refl))

-- How a stream writes an `int`.
unfoldable pub int_to_string : ℤ → Bytes
unfolding to_string
int_to_string (pos n) = to_string n
int_to_string (negsuc n) = b'-' ∷ to_string (suc n)

abbrev pub IsInt : ℤ → Type 0
IsInt (pos n) = n < 2 ^ 31
IsInt (negsuc n) = n < 2 ^ 31

unsigned-numeral : (s : Bytes) → IsNumeral s → unsigned s ≡ some (scan 0 s)
unsigned-numeral [] h = absurd h
unsigned-numeral (c ∷ s) h = rw h refl

pub stoi-int_to_string : (z : ℤ) → IsInt z → stoi (int_to_string z) ≡ some z
unfolding stoi int_to_string drop_spaces
stoi-int_to_string (pos n) h = stoi-to_string n h
stoi-int_to_string (negsuc n) h =
    rw (unsigned-numeral (to_string (suc n)) (to_string-IsNumeral (suc n)))
      (rw (scan-to_string (suc n) (omega arith)) (rw (le→leb (suc n) (2 ^ 31) (omega arith)) refl))

-- A text of one line.
abbrev pub IsLine : Bytes → Type 0
IsLine s = All (λ c. c ≢ b'\n') s

pub digits-IsLine : (fuel n : ℕ) (acc : Bytes) → IsLine acc → IsLine (digits fuel n acc)
unfolding digits
digits-IsLine zero n acc h = h
digits-IsLine (suc fuel) n acc h = elim (Bool-cases (n / 10 == 0)) [
  | inl e ↦ rw e (omega arith, h)
  | inr e ↦ rw e (digits-IsLine fuel (n / 10) ((48 + n % 10) ∷ acc) (omega arith, h))
]

pub to_string-IsLine : (n : ℕ) → IsLine (to_string n)
unfolding to_string
to_string-IsLine n = digits-IsLine 20 n [] tt

pub int_to_string-IsLine : (z : ℤ) → IsLine (int_to_string z)
unfolding int_to_string
int_to_string-IsLine (pos n) = to_string-IsLine n
int_to_string-IsLine (negsuc n) = (omega arith, to_string-IsLine (suc n))
