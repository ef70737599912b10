-- ===== src/Capture/Header.antt =====
-- The header of a PPM file, as `ScreencopyCapture::capture_frame` reads it.
use degoonification.Common.{
  ℕ, ◌+◌, ◌-◌, ◌%◌, ◌^◌, ◌&&◌, ◌||◌, ◌==◌, ltb, if◌then◌else◌, Option, none, some, [], ◌∷◌, Bytes,
  length, take,
}
use degoonification.Ipc.Numbers.{drop_spaces, is_digit, scan}
use degoonification.Ipc.Server.{cut_nul}

-- The width and the height as bit patterns of `int`, and where the pixels start.
pub record PpmHeader : Type 0 where
  pub w : ℕ
  pub h : ℕ
  pub header_len : ℕ

-- The loop over ' ', '\t', '\n' and '\r'.
unfoldable pub skip_blanks : Bytes → Bytes
skip_blanks [] = []
skip_blanks (c ∷ s) =
    let rest = skip_blanks s in if c == b' ' || c == 9 || c == b'\n' || c == 13 then rest else c ∷ s

unfoldable pub number_end : Bytes → Bytes
number_end [] = []
number_end (c ∷ s) = let rest = number_end s in if is_digit c then rest else c ∷ s

-- The low 32 bits of a number that `strtol` gives, which stops at the bounds of 64 bits.
abbrev pub positive_bits : ℕ → ℕ
positive_bits n = (if ltb n (2 ^ 63) then n else 2 ^ 63 - 1) % 2 ^ 32

abbrev pub negative_bits : ℕ → ℕ
negative_bits n = (2 ^ 64 - (if ltb n (2 ^ 63) then n else 2 ^ 63)) % 2 ^ 32

unfoldable pub unsigned : (ℕ → ℕ) → Bytes → Bytes → ℕ × Bytes
unfolding scan number_end
unsigned bits s [] = (0, s)
unsigned bits s (c ∷ t) = if is_digit c then (bits (scan 0 (c ∷ t)), number_end (c ∷ t)) else (0, s)

abbrev pub signed : Bytes → Bytes → ℕ × Bytes
signed s [] = (0, s)
signed s (c ∷ t) =
    if c == b'-'
    then unsigned negative_bits s t
    else if c == b'+'
    then unsigned positive_bits s t
    else unsigned positive_bits s (c ∷ t)

-- `strtol(ptr, &ptr, 10)` as an `int`, and the text behind the number; without a number it is 0 and the
-- whole text.
unfoldable pub strtol : Bytes → ℕ × Bytes
unfolding drop_spaces unsigned
strtol s = signed s (drop_spaces s)

abbrev pub skip_one : Bytes → Bytes
skip_one [] = []
skip_one (c ∷ s) = if c == b' ' || c == b'\n' || c == 13 then s else c ∷ s

-- The text behind "P6" in a header of so many characters.
unfoldable pub parse_extents : ℕ → Bytes → PpmHeader
unfolding skip_blanks strtol
parse_extents len text =
    let (w, s1) = strtol (skip_blanks text) in
    let (h, s2) = strtol (skip_blanks s1) in
    let (maxval, s3) = strtol (skip_blanks s2) in
    record { w = w; h = h; header_len = len - length (skip_one s3) }

unfoldable pub of_header : Bytes → Option PpmHeader
unfolding parse_extents
of_header (c0 ∷ c1 ∷ text) =
    if c0 == b'P' && c1 == b'6' then some (parse_extents (2 + length text) text) else none
of_header _ = none

-- `none` where the file is too short, or is no PPM file.
unfoldable pub parse_header : Bytes → Option PpmHeader
unfolding cut_nul of_header
parse_header file =
    let header = take 127 file in if ltb (length header) 4 then none else of_header (cut_nul header)
