-- ===== src/Anchors/Pixels.antt =====
-- The pixels around a shield: `get_pixel_rgb`, `sample_anchors` and `eval_anchors` of
-- platform/linux/inference/visual_anchor_tracker.hpp. Frames are narrower and lower than 2 ^ 31 pixels;
-- the offset in a row is an `int` product, whose overflow is a fault.
use degoonification.Common.{
  ℕ, zero, suc, ◌+◌, ◌-◌, ◌*◌, ◌%◌, ◌^◌, Bool, true, false, ◌&&◌, ◌||◌, ◌==◌, leb, ltb,
  if◌then◌else◌, Option, none, some, List, [], ◌∷◌, ◌++◌, Bytes, is_empty,
}
use degoonification.Common.Int.{ℤ, pos, minus, sub_ℕ, ◌+ℤ◌, scale_ℤ, is_below, to_ℕ, clamp_ℤ}
use degoonification.Common.Reads.{Reads, fault, got, ◌>>=◌, read}
use degoonification.Float.{Float}
use degoonification.Boxes.{BoundingBox, expanded}
use degoonification.Video.{VideoFrame, bytes_per_pixel, is_rgb24}

pub record AnchorPixel : Type 0 where
  pub x : ℤ
  pub y : ℤ
  pub r : ℕ
  pub g : ℕ
  pub b : ℕ

-- The three bytes at `px`, `py` in the order red, green, blue.
unfoldable pub get_pixel_rgb : VideoFrame → Bytes → ℕ → ℕ → Reads (ℕ × ℕ × ℕ)
get_pixel_rgb frame d px py =
    if ltb (px * bytes_per_pixel frame.format) (2 ^ 31)
    then (do
      p0 ← read d (py * frame.stride % 2 ^ 32 + px * bytes_per_pixel frame.format)
      p1 ← read d (py * frame.stride % 2 ^ 32 + px * bytes_per_pixel frame.format + 1)
      p2 ← read d (py * frame.stride % 2 ^ 32 + px * bytes_per_pixel frame.format + 2)
      got (if is_rgb24 frame.format then (p0, p1, p2) else (p2, p1, p0)))
    else fault

-- `add_pt`
unfoldable pub add_pt : VideoFrame → Bytes → ℤ → ℤ → List AnchorPixel → Reads (List AnchorPixel)
unfolding get_pixel_rgb
add_pt frame d px py pts =
    if is_below px frame.width && is_below py frame.height
    then (get_pixel_rgb frame d (to_ℕ px) (to_ℕ py) >>= λ c.
        got (pts ++ record { x = px; y = py; r = c.0; g = c.1; b = c.2 } ∷ []))
    else got pts

-- A loop of `add_pt` over points.
unfoldable pub add_pts :
    VideoFrame → Bytes → List (ℤ × ℤ) → List AnchorPixel → Reads (List AnchorPixel)
unfolding add_pt
add_pts frame d [] pts = got pts
add_pts frame d ((px, py) ∷ rest) pts = add_pt frame d px py pts >>= add_pts frame d rest

-- `s1 + i * (s2 - s1) / (n_samples + 1)`
unfoldable pub between : ℕ → ℕ → ℕ → ℤ
between i s1 s2 = pos s1 +ℤ scale_ℤ i 7 (sub_ℕ s2 s1)

-- The points above and below a rectangle, `left` pairs of them from `i` on.
unfoldable pub along_rows : ℕ → ℕ → ℕ → ℕ → ℕ → ℕ → List (ℤ × ℤ)
unfolding between ◌+ℤ◌
along_rows zero i sx1 sy1 sx2 sy2 = []
along_rows (suc left) i sx1 sy1 sx2 sy2 =
    (between i sx1 sx2, pos sy1 +ℤ minus 14)
    ∷ (between i sx1 sx2, pos sy2 +ℤ pos 14)
    ∷ along_rows left (i + 1) sx1 sy1 sx2 sy2

-- The points left and right of it.
unfoldable pub along_columns : ℕ → ℕ → ℕ → ℕ → ℕ → ℕ → List (ℤ × ℤ)
unfolding between ◌+ℤ◌
along_columns zero i sx1 sy1 sx2 sy2 = []
along_columns (suc left) i sx1 sy1 sx2 sy2 =
    (pos sx1 +ℤ minus 14, between i sy1 sy2)
    ∷ (pos sx2 +ℤ pos 14, between i sy1 sy2)
    ∷ along_columns left (i + 1) sx1 sy1 sx2 sy2

-- `std::abs(a - b)` of two bytes
abbrev distance : ℕ → ℕ → ℕ
distance a b = a - b + (b - a)

module _ {F : Type 0} ⦃f : Float F⦄ where
  -- `std::clamp(static_cast<int>(v * size), 0, size - 1)`
  abbrev pub pixel_of : F → ℕ → ℕ
  pixel_of v size = clamp_ℤ (f.to_int (f.mul v (f.of_nat size))) 0 (size - 1)

  -- The points around a box.
  unfoldable pub points_around : VideoFrame → BoundingBox F → List (ℤ × ℤ)
  unfolding along_rows along_columns
  points_around frame exp =
      let sx1 = pixel_of exp.x frame.width in
      let sy1 = pixel_of exp.y frame.height in
      let sx2 = pixel_of (f.add exp.x exp.width) frame.width in
      let sy2 = pixel_of (f.add exp.y exp.height) frame.height in
      along_rows 6 1 sx1 sy1 sx2 sy2 ++ along_columns 6 1 sx1 sy1 sx2 sy2

  -- `!frame.data || frame.width == 0 || frame.height == 0` gives no anchors.
  abbrev pub anchors_of :
      Option Bytes → Bool → F → VideoFrame → BoundingBox F → Reads (List AnchorPixel)
  anchors_of none empty padding_ratio frame box = got []
  anchors_of (some d) true padding_ratio frame box = got []
  anchors_of (some d) false padding_ratio frame box =
      add_pts frame d (points_around frame (expanded padding_ratio box)) []

  unfoldable pub sample_anchors : F → VideoFrame → BoundingBox F → Reads (List AnchorPixel)
  unfolding points_around add_pts
  sample_anchors padding_ratio frame box =
      anchors_of frame.bytes (frame.width == 0 || frame.height == 0) padding_ratio frame box

  -- A round of the loop: the sum of the errors and the number of valid anchors after it.
  unfoldable pub compare_anchor : VideoFrame → Bytes → ℤ → AnchorPixel → F × ℕ → Reads (F × ℕ)
  unfolding get_pixel_rgb
  compare_anchor frame d dy_offset pt sum =
      if is_below (pt.y +ℤ dy_offset) frame.height && is_below pt.x frame.width
      then (get_pixel_rgb frame d (to_ℕ pt.x) (to_ℕ (pt.y +ℤ dy_offset)) >>= λ c. got (
        f.add sum.0 (
            f.div (f.of_nat (distance c.0 pt.r + distance c.1 pt.g + distance c.2 pt.b))
              (f.decimal 3 0)),
        sum.1 + 1,
      ))
      else got sum

  unfoldable pub compare_anchors : VideoFrame → Bytes → ℤ → List AnchorPixel → F × ℕ → Reads (F × ℕ)
  unfolding compare_anchor
  compare_anchors frame d dy_offset [] sum = got sum
  compare_anchors frame d dy_offset (pt ∷ pts) sum =
      compare_anchor frame d dy_offset pt sum >>= compare_anchors frame d dy_offset pts

  -- `eval_anchors` on a frame with data.
  unfoldable pub eval_anchors : VideoFrame → Bytes → List AnchorPixel → ℤ → Reads F
  unfolding compare_anchors
  eval_anchors frame d anchors dy_offset =
      if is_empty anchors
      then got (f.decimal 999 0)
      else (compare_anchors frame d dy_offset anchors (f.zero, 0) >>= λ sum.
          got (if leb 4 sum.1 then f.div sum.0 (f.of_nat sum.1) else f.decimal 999 0))
