-- ===== src/Capture/Frames.antt =====
-- A frame that is captured from a PPM file.
use degoonification.Common.{
  ℕ, zero, suc, ◌+◌, ◌-◌, ◌*◌, ◌%◌, ◌^◌, ◌≤◌, ◌<◌, ◌≡◌, refl, ap, sym, ◌∙◌, Bool, true, false, ltb,
  if◌then◌else◌, none, some, [], ◌∷◌, ◌++◌, Bytes, length, length-append, take, drop, arith, ge→ltb,
  lt→ltb,
}
use mathlib.Core.Path.{subst}
use degoonification.Video.{PixelFormat, VideoFrame}
use degoonification.Ipc.Numbers.{digits}
use degoonification.Ipc.Server.{cut_nul}
use degoonification.Ipc.Requests.{HasNoNul, cut_nul-append}
use degoonification.Daemon.Safety.{IsCaptured}
use degoonification.Capture.Header.{PpmHeader, of_header, parse_header}
use degoonification.Capture.Ppm.{
  head, digits-append, digits-length, digits-longer, digits-HasNoNul, parse_extents-head,
}
use degoonification.Capture.{
  ScreencopyCapture, size_of, filled, read_pixels, read_file, capture_frame,
}

abbrev maxval : Bytes → Bytes
maxval t = b'\n' ∷ b'2' ∷ b'5' ∷ b'5' ∷ b'\n' ∷ t

head-append : (w h : ℕ) (t : Bytes) → head w h [] ++ t ≡ head w h t
head-append w h t =
    ap (λ s. b'P' ∷ b'6' ∷ b'\n' ∷ s)
      (sym (digits-append 20 w (b' ' ∷ digits 20 h (maxval [])) t)
        ∙ ap (λ s. digits 20 w (b' ' ∷ s)) (sym (digits-append 20 h (maxval []) t)))

head-length : (w h : ℕ) → (4 ≤ length (head w h [])) × (length (head w h []) ≤ 127)
head-length w h =
    let inner = digits 20 h (maxval []) in
    (
      omega (arith, digits-longer 20 w (b' ' ∷ inner), digits-longer 20 h (maxval [])),
      omega (arith, digits-length 20 w (b' ' ∷ inner), digits-length 20 h (maxval [])),
    )

head-HasNoNul : (w h : ℕ) → HasNoNul (head w h [])
head-HasNoNul w h = (
  omega arith,
  (
    omega arith,
    (
      omega arith,
      digits-HasNoNul 20 w (b' ' ∷ digits 20 h (maxval []))
          (omega arith, digits-HasNoNul 20 h (maxval []) (omega arith)),
    ),
  ),
)

take-prefix :
    (n : ℕ) (pre t : Bytes) → length pre ≤ n → take n (pre ++ t) ≡ pre ++ take (n - length pre) t
take-prefix n [] t h = ap (λ k. take k t) (sym same)
  where
    same : n - 0 ≡ n
    same = omega arith
take-prefix zero (c ∷ pre) t h = absurd (omega arith)
take-prefix (suc n) (c ∷ pre) t h =
    ap (λ l. c ∷ l) (take-prefix n pre t (omega arith) ∙ ap (λ k. pre ++ take k t) same)
  where
    same : n - length pre ≡ suc n - suc (length pre)
    same = omega arith

drop-prefix : (pre t : Bytes) → drop (length pre) (pre ++ t) ≡ t
drop-prefix [] t = refl
drop-prefix (c ∷ pre) t = drop-prefix pre t

of_header-head :
    (w h : ℕ) (t : Bytes)
    → w < 2 ^ 31
    → h < 2 ^ 31
    → of_header (head w h t) ≡ some (record { w = w; h = h; header_len = length (head w h []) })
unfolding of_header
of_header-head w h t hw hh = ap some (
    parse_extents-head (2 + length text) w h t hw hh
    ∙ ap (λ n. record { w = w; h = h; header_len = n }) len)
  where
    text : Bytes
    text = b'\n' ∷ digits 20 w (b' ' ∷ digits 20 h (maxval t))

    len : 2 + length text - length t ≡ length (head w h [])
    len = omega (arith, ap length (head-append w h t), length-append (head w h []) t)

parse_header-head :
    (w h : ℕ) (px : Bytes)
    → w < 2 ^ 31
    → h < 2 ^ 31
    → parse_header (head w h px) ≡ some (record { w = w; h = h; header_len = length (head w h []) })
unfolding parse_header
parse_header-head w h px hw hh =
    let pre = head w h [] in
    let (low, high) = head-length w h in
    let rest = take (127 - length pre) px in
    let cut : take 127 (head w h px) ≡ pre ++ rest =
      ap (take 127) (sym (head-append w h px)) ∙ take-prefix 127 pre px high in
    let long : ltb (length (pre ++ rest)) 4 ≡ false =
      ge→ltb (length (pre ++ rest)) 4 (omega (arith, low, length-append pre rest)) in
    let text : cut_nul (pre ++ rest) ≡ head w h (cut_nul rest) =
      cut_nul-append pre rest (head-HasNoNul w h) ∙ head-append w h (cut_nul rest) in
    ap (λ s. if ltb (length s) 4 then none else of_header (cut_nul s)) cut
    ∙ ap (λ b. if b then none else of_header (cut_nul (pre ++ rest))) long
    ∙ ap of_header text
    ∙ of_header-head w h (cut_nul rest) hw hh

take_all : (n : ℕ) (l : Bytes) → n ≡ length l → take n l ≡ l
take_all zero [] e = refl
take_all zero (c ∷ l) e = absurd (omega (arith, e))
take_all (suc n) [] e = refl
take_all (suc n) (c ∷ l) e = ap (λ t. c ∷ t) (take_all n l (omega (arith, e)))

size_of-whole :
    (header : PpmHeader) (pixels : Bytes)
    → header.w < 2 ^ 31
    → header.h < 2 ^ 31
    → length pixels ≡ header.w * header.h * 3
    → length pixels < 2 ^ 64
    → size_of header ≡ length pixels
size_of-whole header pixels hw hh size small =
    rw (lt→ltb header.w (2 ^ 31) hw) (rw (lt→ltb header.h (2 ^ 31) hh) (omega (arith, size, small)))

-- What a whole file leaves.
abbrev whole :
    PpmHeader → Bytes → VideoFrame → ScreencopyCapture → Bool × VideoFrame × ScreencopyCapture
whole header pixels out_frame c =
    let buffer = pixels ++ drop (size_of header) c.buffer in
    (
      true,
      filled header buffer out_frame,
      record c { buffer = buffer; last_width = header.w; last_height = header.h },
    )

read_pixels-whole :
    (header : PpmHeader) (pixels : Bytes) (out_frame : VideoFrame) (c : ScreencopyCapture)
    → size_of header ≡ length pixels
    → read_pixels header pixels out_frame c ≡ whole header pixels out_frame c
unfolding read_pixels
read_pixels-whole header pixels out_frame c e =
    rw (ge→ltb (length pixels) (size_of header) (omega (arith, e))) (
      ap
        (λ l.
          let buffer = l ++ drop (size_of header) c.buffer in
          (
            true,
            filled header buffer out_frame,
            record c { buffer = buffer; last_width = header.w; last_height = header.h },
          ))
        (take_all (size_of header) pixels e))

whole-IsCaptured :
    (header : PpmHeader) (pixels : Bytes) (out_frame : VideoFrame) (c : ScreencopyCapture)
    → 0 < header.w
    → 0 < header.h
    → header.w * 3 < 2 ^ 31
    → length pixels ≡ header.w * header.h * 3
    → size_of header ≡ length pixels
    → IsCaptured (whole header pixels out_frame c).1
whole-IsCaptured header pixels out_frame c wide high row size e =
    let same : header.w * 3 % 2 ^ 32 ≡ header.w * 3 = omega (arith, row) in
    record {
      data_bytes = pixels ++ drop (size_of header) c.buffer;
      bytes_are = refl;
      narrow = row;
      wide = wide;
      high = high;
      row_fits = omega (arith, same);
      all_rows = rw e (rw same (rw size (grind arith)));
      data_fits = omega (arith, e, length-append pixels (drop (size_of header) c.buffer));
    }

-- A file with the header `P6`, a line with the width and the height in decimal, and `255` on a
-- line, without comments, followed by three bytes a pixel, is captured: the frame has the extents
-- and the pixels of the file, in rows of three bytes a pixel without a gap, and is a captured frame
-- in the sense of the daemon's safety. The extents are positive, a row has less than 2 ^ 31 bytes,
-- and the height and the size fit into their types.
pub capture_frame-head :
    (w h : ℕ) (pixels : Bytes) (out_frame : VideoFrame) (c : ScreencopyCapture)
    → 0 < w
    → 0 < h
    → w * 3 < 2 ^ 31
    → h < 2 ^ 31
    → length pixels ≡ w * h * 3
    → length pixels < 2 ^ 64
    → let r = capture_frame (some (head w h pixels)) out_frame c in
      (r.0 ≡ true)
      × (r.1.width ≡ w)
      × (r.1.height ≡ h)
      × (r.1.format ≡ PixelFormat.rgb)
      × (r.1.stride ≡ w * 3)
      × (r.1.data_size ≡ length pixels)
      × ((rest : Bytes) × (r.1.bytes ≡ some (pixels ++ rest)))
      × IsCaptured r.1
unfolding capture_frame
capture_frame-head w h pixels out_frame c wide high row hh size small =
    let hw : w < 2 ^ 31 = omega (arith, row) in
    let header : PpmHeader = record { w = w; h = h; header_len = length (head w h []) } in
    let e : size_of header ≡ length pixels = size_of-whole header pixels hw hh size small in
    let body : drop (length (head w h [])) (head w h pixels) ≡ pixels =
      ap (drop (length (head w h []))) (sym (head-append w h pixels))
      ∙ drop-prefix (head w h []) pixels in
    let result : capture_frame (some (head w h pixels)) out_frame c
        ≡ whole header pixels out_frame c =
      ap (λ o. read_file (head w h pixels) o out_frame c) (parse_header-head w h pixels hw hh)
      ∙ ap (λ b. read_pixels header b out_frame c) body
      ∙ read_pixels-whole header pixels out_frame c e in
    (
      ap (λ r. r.0) result,
      ap (λ r. r.1.width) result,
      ap (λ r. r.1.height) result,
      ap (λ r. r.1.format) result,
      ap (λ r. r.1.stride) result ∙ omega (arith, row),
      ap (λ r. r.1.data_size) result ∙ e,
      (drop (size_of header) c.buffer, ap (λ r. r.1.bytes) result),
      subst (λ r. IsCaptured r.1) (sym result)
          (whole-IsCaptured header pixels out_frame c wide high row size e),
    )
