-- ===== src/Capture/Ppm.antt =====
-- A PPM file, as it is written, and the frame that is read from it.
use degoonification.Common.{
  ℕ, zero, suc, ◌+◌, ◌-◌, ◌/◌, ◌%◌, ◌^◌, ◌≤◌, ◌<◌, ◌≡◌, refl, ap, ◌∙◌, false, ◌&&◌, ◌||◌, ◌==◌, leb,
  [], ◌∷◌, ◌++◌, Bytes, length, arith, Bool-cases, inl, inr, lt→ltb,
}
use degoonification.Ipc.Numbers.{
  digits, drop_spaces, is_digit, scan, scan-digits, digits-IsNumeral, IsNumeral, digit_of,
}
use degoonification.Ipc.Requests.{HasNoNul}
use degoonification.Capture.Header.{
  positive_bits, skip_blanks, number_end, unsigned, strtol, parse_extents,
}

-- The header that is written for `w` times `h` pixels, before a text.
abbrev pub head : ℕ → ℕ → Bytes → Bytes
head w h t =
    b'P' ∷ b'6' ∷ b'\n' ∷ digits 20 w (b' ' ∷ digits 20 h (b'\n' ∷ b'2' ∷ b'5' ∷ b'5' ∷ b'\n' ∷ t))

pub digits-append : (fuel n : ℕ) (acc t : Bytes) → digits fuel n (acc ++ t) ≡ digits fuel n acc ++ t
unfolding digits
digits-append zero n acc t = refl
digits-append (suc fuel) n acc t = elim (Bool-cases (n / 10 == 0)) [
  | inl e ↦ rw e refl
  | inr e ↦ rw e (digits-append fuel (n / 10) ((48 + n % 10) ∷ acc) t)
]

pub digits-length : (fuel n : ℕ) (acc : Bytes) → length (digits fuel n acc) ≤ fuel + length acc
unfolding digits
digits-length zero n acc = omega arith
digits-length (suc fuel) n acc = elim (Bool-cases (n / 10 == 0)) [
  | inl e ↦ rw e (omega arith)
  | inr e ↦ rw e (omega (arith, digits-length fuel (n / 10) ((48 + n % 10) ∷ acc)))
]

pub digits-longer : (fuel n : ℕ) (acc : Bytes) → length acc ≤ length (digits fuel n acc)
unfolding digits
digits-longer zero n acc = omega arith
digits-longer (suc fuel) n acc = elim (Bool-cases (n / 10 == 0)) [
  | inl e ↦ rw e (omega arith)
  | inr e ↦ rw e (omega (arith, digits-longer fuel (n / 10) ((48 + n % 10) ∷ acc)))
]

pub digits-HasNoNul : (fuel n : ℕ) (acc : Bytes) → HasNoNul acc → HasNoNul (digits fuel n acc)
unfolding digits
digits-HasNoNul zero n acc h = h
digits-HasNoNul (suc fuel) n acc h = elim (Bool-cases (n / 10 == 0)) [
  | inl e ↦ rw e (omega arith, h)
  | inr e ↦ rw e (digits-HasNoNul fuel (n / 10) ((48 + n % 10) ∷ acc) (omega arith, h))
]

digits-number_end : (fuel n : ℕ) (acc : Bytes) → number_end (digits fuel n acc) ≡ number_end acc
unfolding digits number_end
digits-number_end zero n acc = refl
digits-number_end (suc fuel) n acc = elim (Bool-cases (n / 10 == 0)) [
  | inl e ↦ rw e (rw (digit_of n) refl)
  | inr e ↦ rw e (digits-number_end fuel (n / 10) ((48 + n % 10) ∷ acc) ∙ one)
]
  where
    one : number_end ((48 + n % 10) ∷ acc) ≡ number_end acc
    one = rw (digit_of n) refl

digits-suc-IsNumeral : (fuel n : ℕ) (acc : Bytes) → IsNumeral (digits (suc fuel) n acc)
unfolding digits
digits-suc-IsNumeral fuel n acc = elim (Bool-cases (n / 10 == 0)) [
  | inl e ↦ rw e (digit_of n)
  | inr e ↦ rw e (digits-IsNumeral fuel (n / 10) ((48 + n % 10) ∷ acc) (digit_of n))
]

skip_blanks-numeral : (s : Bytes) → IsNumeral s → skip_blanks s ≡ s
unfolding skip_blanks
skip_blanks-numeral [] h = refl
skip_blanks-numeral (c ∷ s) h = rw no_blank refl
  where
    no_blank : (c == b' ' || c == 9 || c == b'\n' || c == 13) ≡ false
    no_blank = ground (arith, h)

strtol-numeral : (s : Bytes) → IsNumeral s → strtol s ≡ (positive_bits (scan 0 s), number_end s)
unfolding strtol drop_spaces unsigned
strtol-numeral [] h = absurd h
strtol-numeral (c ∷ s) h = rw no_space (rw no_minus (rw no_plus (rw h refl)))
  where
    no_space : (c == 32 || (leb 9 c && leb c 13)) ≡ false
    no_space = ground (arith, h)

    no_minus : (c == b'-') ≡ false
    no_minus = ground (arith, h)

    no_plus : (c == b'+') ≡ false
    no_plus = ground (arith, h)

positive_bits-small : (n : ℕ) → n < 2 ^ 31 → positive_bits n ≡ n
positive_bits-small n h = rw (lt→ltb n (2 ^ 63) (omega arith)) (omega arith)

-- A number before a character that is no digit.
strtol-digits :
    (n c : ℕ) (t : Bytes)
    → n < 2 ^ 31
    → is_digit c ≡ false
    → strtol (skip_blanks (digits 20 n (c ∷ t))) ≡ (n, c ∷ t)
unfolding scan number_end
strtol-digits n c t h e =
    ap strtol (skip_blanks-numeral (digits 20 n (c ∷ t)) (digits-suc-IsNumeral 19 n (c ∷ t)))
    ∙ strtol-numeral (digits 20 n (c ∷ t)) (digits-suc-IsNumeral 19 n (c ∷ t))
    ∙ rw (scan-digits 20 n (c ∷ t) (omega arith) (omega arith))
        (rw (digits-number_end 20 n (c ∷ t)) (rw e (rw (positive_bits-small n h) refl)))

blank_first : (s : Bytes) → strtol (skip_blanks (b'\n' ∷ s)) ≡ strtol (skip_blanks s)
unfolding skip_blanks
blank_first s = refl

space_first : (s : Bytes) → strtol (skip_blanks (b' ' ∷ s)) ≡ strtol (skip_blanks s)
unfolding skip_blanks
space_first s = refl

pub parse_extents-head :
    (len w h : ℕ) (t : Bytes)
    → w < 2 ^ 31
    → h < 2 ^ 31
    → parse_extents len
        (b'\n' ∷ digits 20 w (b' ' ∷ digits 20 h (b'\n' ∷ b'2' ∷ b'5' ∷ b'5' ∷ b'\n' ∷ t)))
      ≡ record { w = w; h = h; header_len = len - length t }
unfolding parse_extents
parse_extents-head len w h t hw hh =
    let after_h = b'\n' ∷ b'2' ∷ b'5' ∷ b'5' ∷ b'\n' ∷ t in
    let after_w = b' ' ∷ digits 20 h after_h in
    let first : strtol (skip_blanks (b'\n' ∷ digits 20 w after_w)) ≡ (w, after_w) =
      blank_first (digits 20 w after_w) ∙ strtol-digits w (b' ') (digits 20 h after_h) hw refl in
    let second : strtol (skip_blanks after_w) ≡ (h, after_h) =
      space_first (digits 20 h after_h)
      ∙ strtol-digits h (b'\n') (b'2' ∷ b'5' ∷ b'5' ∷ b'\n' ∷ t) hh refl in
    rw first (rw second refl)
