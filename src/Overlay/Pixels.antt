-- ===== src/Overlay/Pixels.antt =====
-- The pixels of a box: the loops of `WaylandOverlay::render_boxes` of
-- platform/linux/overlay/wayland_overlay.cpp. A buffer is a list of its 32-bit pixels.
use degoonification.Common.{
  ℕ, zero, suc, ◌+◌, ◌-◌, ◌*◌, ◌/◌, ◌%◌, ◌^◌, bit_or, Bool, true, false, ◌&&◌, ltb, if◌then◌else◌,
  Option, none, some, List, [], ◌∷◌, Bytes,
}
use degoonification.Common.Int.{ℤ, to_ℕ}
use degoonification.Common.Reads.{Reads, fault, got, ◌>>=◌, read, write}
use degoonification.Float.{Float}
use degoonification.Boxes.{BoundingBox, right, bottom}
use degoonification.Video.{VideoFrame, is_rgb24, bytes_per_pixel, row_bytes}

-- `OverlayConfig`
pub record OverlayConfig : Type 0 where
  pub frosted_color_argb : ℕ
  pub enable_clickthrough : Bool
  pub enable_frosted_mosaic : Bool
  pub mosaic_block_size : ℤ

-- `std::min(a, b)` and `std::max(a, b)`
abbrev pub minimum : ℕ → ℕ → ℕ
minimum a b = if ltb b a then b else a

abbrev pub maximum : ℕ → ℕ → ℕ
maximum a b = if ltb a b then b else a

-- `row[x]` and the pixels right of it get a colour, so many of them.
unfoldable pub fill_row : ℕ → ℕ → ℕ → ℕ → ℕ → List ℕ → Reads (List ℕ)
fill_row w color zero y x buffer = got buffer
fill_row w color (suc left) y x buffer =
    write buffer (y * w % 2 ^ 32 + x) color >>= fill_row w color left y (x + 1)

-- So many rows, from `y` down, each from `x` on, so many pixels wide.
unfoldable pub fill_rows : ℕ → ℕ → ℕ → ℕ → ℕ → ℕ → List ℕ → Reads (List ℕ)
unfolding fill_row
fill_rows w color wide zero x y buffer = got buffer
fill_rows w color wide (suc left) x y buffer =
    fill_row w color wide y x buffer >>= fill_rows w color wide left x (y + 1)

-- 75% of a scene's colour and 25% of a dark tint.
abbrev pub frosted : ℕ → ℕ → ℕ → ℕ
frosted r g b =
    bit_or (bit_or (bit_or 4278190080 ((r * 3 + 15) / 4 * 2 ^ 16)) ((g * 3 + 23) / 4 * 2 ^ 8))
      ((b * 3 + 42) / 4)

-- The colour of the frame at a point.
unfoldable pub sample : VideoFrame → Bytes → ℕ → ℕ → Reads ℕ
sample frame d x y = do
  p0 ← read d (y * row_bytes frame % 2 ^ 32 + x * bytes_per_pixel frame.format % 2 ^ 32)
  p1 ← read d (y * row_bytes frame % 2 ^ 32 + x * bytes_per_pixel frame.format % 2 ^ 32 + 1)
  p2 ← read d (y * row_bytes frame % 2 ^ 32 + x * bytes_per_pixel frame.format % 2 ^ 32 + 2)
  got (if is_rgb24 frame.format then frosted p0 p1 p2 else frosted p2 p1 p0)

-- The rectangle of a box on the screen, its right and lower edge outside.
pub record Rect : Type 0 where
  pub bx1 : ℕ
  pub by1 : ℕ
  pub bx2 : ℕ
  pub by2 : ℕ

-- `static_cast<uint32_t>(v * size)`, at most the size.
abbrev pub corner : {F : Type 0} ⦃f : Float F⦄ → F → ℕ → ℕ
corner ⦃f = f⦄ v size = minimum (f.to_uint (f.mul v (f.of_nat size))) size

abbrev pub rect_of : {F : Type 0} ⦃f : Float F⦄ → ℕ → ℕ → BoundingBox F → Rect
rect_of w h box = record {
  bx1 = corner box.x w;
  by1 = corner box.y h;
  bx2 = corner (right box) w;
  by2 = corner (bottom box) h;
}

module _ (frame : VideoFrame) (d : Bytes) (w block_size : ℕ) (rect : Rect) where
  -- A block of the mosaic, at `x`, `y`.
  unfoldable pub mosaic_block : ℕ → ℕ → List ℕ → Reads (List ℕ)
  unfolding sample fill_rows
  mosaic_block y x buffer =
      let cur_bh = minimum block_size (rect.by2 - y) in
      let cur_bw = minimum block_size (rect.bx2 - x) in
      let sample_x = minimum (x + cur_bw / 2) (frame.width - 1) in
      let sample_y = minimum (y + cur_bh / 2) (frame.height - 1) in
      sample frame d sample_x sample_y >>= λ color. fill_rows w color cur_bw cur_bh x y buffer

  -- The blocks of a row of them, from `x` on, at most so many.
  unfoldable pub mosaic_columns : ℕ → ℕ → ℕ → List ℕ → Reads (List ℕ)
  unfolding mosaic_block
  mosaic_columns zero y x buffer = if ltb x rect.bx2 then fault else got buffer
  mosaic_columns (suc fuel) y x buffer =
      if ltb x rect.bx2
      then (mosaic_block y x buffer >>= mosaic_columns fuel y ((x + block_size) % 2 ^ 32))
      else got buffer

  -- The rows of blocks, from `y` on, at most so many.
  unfoldable pub mosaic_rows : ℕ → ℕ → List ℕ → Reads (List ℕ)
  unfolding mosaic_columns
  mosaic_rows zero y buffer = if ltb y rect.by2 then fault else got buffer
  mosaic_rows (suc fuel) y buffer =
      if ltb y rect.by2
      then (mosaic_columns (rect.bx2 - rect.bx1) y rect.bx1 buffer
          >>= mosaic_rows fuel ((y + block_size) % 2 ^ 32))
      else got buffer

-- `source_frame` and its data, where the mosaic has a frame to look at.
abbrev pub with_pixels : Option Bytes → Bool → VideoFrame → Option (VideoFrame × Bytes)
with_pixels none full frame = none
with_pixels (some d) false frame = none
with_pixels (some d) true frame = some (frame, d)

abbrev pub source_of : OverlayConfig → Option VideoFrame → Option (VideoFrame × Bytes)
source_of config none = none
source_of config (some frame) =
    with_pixels frame.bytes
      (config.enable_frosted_mosaic && (ltb 0 frame.width && ltb 0 frame.height)) frame

-- A rectangle is filled by the mosaic, or by the fallback colour.
unfoldable pub draw_rect :
    OverlayConfig → Option (VideoFrame × Bytes) → ℕ → Rect → List ℕ → Reads (List ℕ)
unfolding mosaic_rows fill_rows
draw_rect config none w rect buffer =
    fill_rows w config.frosted_color_argb (rect.bx2 - rect.bx1) (rect.by2 - rect.by1) rect.bx1
      rect.by1 buffer
draw_rect config (some (frame, d)) w rect buffer =
    mosaic_rows frame d w (maximum 8 (to_ℕ config.mosaic_block_size)) rect (rect.by2 - rect.by1)
      rect.by1 buffer

unfoldable pub draw_rects :
    OverlayConfig → Option (VideoFrame × Bytes) → ℕ → List Rect → List ℕ → Reads (List ℕ)
unfolding draw_rect
draw_rects config source w [] buffer = got buffer
draw_rects config source w (rect ∷ rects) buffer =
    draw_rect config source w rect buffer >>= draw_rects config source w rects
