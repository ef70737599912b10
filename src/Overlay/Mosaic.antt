-- ===== src/Overlay/Mosaic.antt =====
-- The mosaic: the loops over blocks end, read the frame and write the buffer within bounds, and paint
-- the whole rectangle.
use degoonification.Common.{
  ℕ, zero, suc, ◌+◌, ◌-◌, ◌*◌, ◌/◌, ◌%◌, ◌^◌, ◌≤◌, ◌<◌, ◌≡◌, bit_or, ◌||◌, ltb, List, Bytes, length,
  arith, Bool-cases, inl, inr, ltb→lt, ltb→ge, ge→ltb,
}
use degoonification.Common.Bits.{bit_or_step}
use degoonification.Common.Reads.{read, Returns, Returns-bind, Anything, read-Returns}
use degoonification.Video.{VideoFrame, is_rgb24, bytes_per_pixel, row_bytes, IsMapped, pixel_within}
use degoonification.Overlay.Pixels.{
  minimum, frosted, sample, Rect, mosaic_block, mosaic_columns, mosaic_rows,
}
use degoonification.Overlay.Painting.{inside, inside-none, inside-no_row, Paints, Paints-none}
use degoonification.Overlay.Filling.{Paints-bind, fill_rows-Paints}

-- The colour hides what is below: its alpha is 255.
abbrev pub IsOpaque : ℕ → Type 0
IsOpaque color = 4278190080 ≤ color

bit_or-le : (bound a b : ℕ) → a ≤ bound → a ≤ bit_or a b
bit_or-le zero a b h = omega arith
bit_or-le (suc bound) zero b h = omega arith
bit_or-le (suc bound) (suc a) b h =
    omega (arith, bit_or_step (suc a) b, bit_or-le bound (suc a / 2) (b / 2) (omega arith))

frosted-IsOpaque : (r g b : ℕ) → IsOpaque (frosted r g b)
frosted-IsOpaque r g b =
    let red = bit_or 4278190080 ((r * 3 + 15) / 4 * 2 ^ 16) in
    let green = bit_or red ((g * 3 + 23) / 4 * 2 ^ 8) in
    omega (
      arith,
      bit_or-le 4278190080 4278190080 ((r * 3 + 15) / 4 * 2 ^ 16) (omega arith),
      bit_or-le red red ((g * 3 + 23) / 4 * 2 ^ 8) (omega arith),
      bit_or-le green green ((b * 3 + 42) / 4) (omega arith),
    )

minimum-lt : (a size : ℕ) → 0 < size → minimum a (size - 1) < size
minimum-lt a size h = ground arith

-- A frame that the mosaic can look at.
pub record IsSeen (frame : VideoFrame) (d : Bytes) : Type 0 where
  pub mapped : IsMapped frame (row_bytes frame) d
  pub some_width : 0 < frame.width
  pub some_height : 0 < frame.height

module _ (frame : VideoFrame) (d : Bytes) (seen : IsSeen frame d) where
  sample-Returns :
      (x y : ℕ) → x < frame.width → y < frame.height → Returns IsOpaque (sample frame d x y)
  unfolding sample
  sample-Returns x y hx hy =
      let i = y * row_bytes frame % 2 ^ 32 + x * bytes_per_pixel frame.format % 2 ^ 32 in
      let within = pixel_within frame (row_bytes frame) d x y seen.mapped hx hy in
      let low : x * bytes_per_pixel frame.format % 2 ^ 32 ≤ x * bytes_per_pixel frame.format =
        omega arith in
      Returns-bind Anything IsOpaque (read d i) _ (read-Returns d i (omega (arith, within, low)))
        (λ p0 _.
          Returns-bind Anything IsOpaque (read d (i + 1)) _
            (read-Returns d (i + 1) (omega (arith, within, low)))
            (λ p1 _.
              Returns-bind Anything IsOpaque (read d (i + 2)) _
                (read-Returns d (i + 2) (omega (arith, within, low)))
                (λ p2 _. elim (Bool-cases (is_rgb24 frame.format)) [
                  | inl e ↦ rw e (frosted-IsOpaque p0 p1 p2)
                  | inr e ↦ rw e (frosted-IsOpaque p2 p1 p0)
                ])))

-- A rectangle is its first column or row of blocks, and the rest.
block_then_columns :
    (x y bs x2 y2 x' y' : ℕ)
    → x < x2
    → (inside x y (x + minimum bs (x2 - x)) y2 x' y' || inside (x + bs) y x2 y2 x' y')
      ≡ inside x y x2 y2 x' y'
block_then_columns x y bs x2 y2 x' y' h = ground arith

block_then_rows :
    (x y bs x2 y2 x' y' : ℕ)
    → y < y2
    → (inside x y x2 (y + minimum bs (y2 - y)) x' y' || inside x (y + bs) x2 y2 x' y')
      ≡ inside x y x2 y2 x' y'
block_then_rows x y bs x2 y2 x' y' h = ground arith

pub minimum-le : (a b : ℕ) → (minimum a b ≤ a) × (minimum a b ≤ b)
minimum-le a b = (ground arith, ground arith)

module _ (frame : VideoFrame) (d : Bytes) (seen : IsSeen frame d) (w h bs : ℕ) (rect : Rect)
    (w_h : w * h < 2 ^ 32) (block : 0 < bs) (w_room : w + bs < 2 ^ 32) (h_room : h + bs < 2 ^ 32)
    (right_in : rect.bx2 ≤ w) (bottom_in : rect.by2 ≤ h) where
  mosaic_block-Paints :
      (x y : ℕ) (buffer : List ℕ)
      → length buffer ≡ w * h
      → x < rect.bx2
      → y < rect.by2
      → Returns
          (Paints w h IsOpaque
            (inside x y (x + minimum bs (rect.bx2 - x)) (y + minimum bs (rect.by2 - y)))
            buffer)
          (mosaic_block frame d w bs rect y x buffer)
  unfolding mosaic_block
  mosaic_block-Paints x y buffer size hx hy =
      let cur_bw = minimum bs (rect.bx2 - x) in
      let cur_bh = minimum bs (rect.by2 - y) in
      let sx = minimum (x + cur_bw / 2) (frame.width - 1) in
      let sy = minimum (y + cur_bh / 2) (frame.height - 1) in
      Returns-bind IsOpaque (Paints w h IsOpaque (inside x y (x + cur_bw) (y + cur_bh)) buffer)
        (sample frame d sx sy) _
        (sample-Returns frame d seen sx sy (minimum-lt (x + cur_bw / 2) frame.width seen.some_width)
          (minimum-lt (y + cur_bh / 2) frame.height seen.some_height))
        (λ color opaque.
          fill_rows-Paints w h IsOpaque w_h color cur_bw cur_bh x y buffer size
            (omega (arith, (minimum-le bs (rect.bx2 - x)).1))
            (omega (arith, (minimum-le bs (rect.by2 - y)).1)) opaque)

  -- The columns from `x` on are painted, as high as a block.
  mosaic_columns-Paints :
      (fuel y x : ℕ) (buffer : List ℕ)
      → length buffer ≡ w * h
      → rect.bx2 ≤ x + fuel
      → y < rect.by2
      → Returns
          (Paints w h IsOpaque (inside x y rect.bx2 (y + minimum bs (rect.by2 - y))) buffer)
          (mosaic_columns frame d w bs rect fuel y x buffer)
  unfolding mosaic_columns
  mosaic_columns-Paints zero y x buffer size hx hy = rw (ge→ltb x rect.bx2 (omega arith)) (
      Paints-none w h IsOpaque _ buffer
        (λ x' y' k m. inside-none x y rect.bx2 (y + minimum bs (rect.by2 - y)) x' y' (omega arith)))
  mosaic_columns-Paints (suc fuel) y x buffer size hx hy =
      let y2 = y + minimum bs (rect.by2 - y) in
      elim (Bool-cases (ltb x rect.bx2)) [
        | inr e ↦ rw e (
            Paints-none w h IsOpaque (inside x y rect.bx2 y2) buffer
              (λ x' y' k m. inside-none x y rect.bx2 y2 x' y' (ltb→ge x rect.bx2 e)))
        | inl e ↦
            let before : x < rect.bx2 = ltb→lt x rect.bx2 e in
            let next : (x + bs) % 2 ^ 32 ≡ x + bs = omega arith in
            rw e (
              rw next (
                Paints-bind w h IsOpaque w_h (inside x y (x + minimum bs (rect.bx2 - x)) y2)
                  (inside (x + bs) y rect.bx2 y2) (inside x y rect.bx2 y2) buffer
                  (mosaic_block frame d w bs rect y x buffer)
                  (mosaic_columns frame d w bs rect fuel y (x + bs)) size
                  (λ x' y' k m. block_then_columns x y bs rect.bx2 y2 x' y' before)
                  (mosaic_block-Paints x y buffer size before hy)
                  (λ b size'. mosaic_columns-Paints fuel y (x + bs) b size' (omega arith) hy)))
      ]

  pub mosaic_rows-Paints :
      (fuel y : ℕ) (buffer : List ℕ)
      → length buffer ≡ w * h
      → rect.by2 ≤ y + fuel
      → Returns
          (Paints w h IsOpaque (inside rect.bx1 y rect.bx2 rect.by2) buffer)
          (mosaic_rows frame d w bs rect fuel y buffer)
  unfolding mosaic_rows
  mosaic_rows-Paints zero y buffer size hy = rw (ge→ltb y rect.by2 (omega arith)) (
      Paints-none w h IsOpaque _ buffer
        (λ x' y' k m. inside-no_row rect.bx1 y rect.bx2 rect.by2 x' y' (omega arith)))
  mosaic_rows-Paints (suc fuel) y buffer size hy = elim (Bool-cases (ltb y rect.by2)) [
    | inr e ↦ rw e (
        Paints-none w h IsOpaque (inside rect.bx1 y rect.bx2 rect.by2) buffer
          (λ x' y' k m. inside-no_row rect.bx1 y rect.bx2 rect.by2 x' y' (ltb→ge y rect.by2 e)))
    | inl e ↦
        let before : y < rect.by2 = ltb→lt y rect.by2 e in
        let next : (y + bs) % 2 ^ 32 ≡ y + bs = omega arith in
        rw e (
          rw next (
            Paints-bind w h IsOpaque w_h
              (inside rect.bx1 y rect.bx2 (y + minimum bs (rect.by2 - y)))
              (inside rect.bx1 (y + bs) rect.bx2 rect.by2) (inside rect.bx1 y rect.bx2 rect.by2)
              buffer (mosaic_columns frame d w bs rect (rect.bx2 - rect.bx1) y rect.bx1 buffer)
              (mosaic_rows frame d w bs rect fuel (y + bs)) size
              (λ x' y' k m. block_then_rows rect.bx1 y bs rect.bx2 rect.by2 x' y' before)
              (mosaic_columns-Paints (rect.bx2 - rect.bx1) y rect.bx1 buffer size (omega arith)
                before)
              (λ b size'. mosaic_rows-Paints fuel (y + bs) b size' (omega arith))))
  ]
