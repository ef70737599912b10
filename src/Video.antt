-- ===== src/Video.antt =====
-- `VideoFrame` of platform/linux/capture/video_frame.hpp, and when its fields describe its buffer.
use degoonification.Common.{
  ℕ, ◌+◌, ◌*◌, ◌%◌, ◌^◌, ◌≤◌, ◌<◌, Bool, true, false, ltb, if◌then◌else◌, Option, Bytes, length,
  arith,
}

pub data PixelFormat : Type 0 where
  rgba bgra rgbx bgrx rgb unknown : PixelFormat

-- `bytes` is what `data` points to; -1 for a file descriptor is `none`.
pub record VideoFrame : Type 0 where
  pub width : ℕ
  pub height : ℕ
  pub stride : ℕ
  pub format : PixelFormat
  pub timestamp_us : ℕ
  pub dmabuf_fd : Option ℕ
  pub bytes : Option Bytes
  pub data_size : ℕ

abbrev pub is_rgb24 : PixelFormat → Bool
is_rgb24 PixelFormat.rgb = true
is_rgb24 PixelFormat.rgba = false
is_rgb24 PixelFormat.bgra = false
is_rgb24 PixelFormat.rgbx = false
is_rgb24 PixelFormat.bgrx = false
is_rgb24 PixelFormat.unknown = false

abbrev pub bytes_per_pixel : PixelFormat → ℕ
bytes_per_pixel format = if is_rgb24 format then 3 else 4

-- `frame.stride > 0 ? frame.stride : frame.width * bpp`, in 32 bits.
abbrev pub row_bytes : VideoFrame → ℕ
row_bytes frame =
    if ltb 0 frame.stride then frame.stride else frame.width * bytes_per_pixel frame.format % 2 ^ 32

-- The buffer has all rows of the frame, and a row has all its pixels.
pub record IsMapped (frame : VideoFrame) (row : ℕ) (d : Bytes) : Type 0 where
  pub row_fits : frame.width * bytes_per_pixel frame.format ≤ row
  pub all_rows : frame.height * row ≤ length d

pub row_of : (y h row : ℕ) → y < h → y * row + row ≤ h * row
row_of y h row k = grind arith

pub mod_le : (n : ℕ) → n % 2 ^ 32 ≤ n
mod_le n = omega arith

-- The three bytes of a pixel are in the buffer; a row's offset is computed in 32 bits.
pub pixel_within :
    (frame : VideoFrame) (row : ℕ) (d : Bytes) (x y : ℕ)
    → IsMapped frame row d
    → x < frame.width
    → y < frame.height
    → y * row % 2 ^ 32 + x * bytes_per_pixel frame.format + 3 ≤ length d
pixel_within frame row d x y m hx hy =
    inside frame.width frame.height row (bytes_per_pixel frame.format) hx hy (three frame.format)
      m.row_fits m.all_rows
  where
    three : (format : PixelFormat) → 3 ≤ bytes_per_pixel format
    three PixelFormat.rgb = omega arith
    three PixelFormat.rgba = omega arith
    three PixelFormat.bgra = omega arith
    three PixelFormat.rgbx = omega arith
    three PixelFormat.bgrx = omega arith
    three PixelFormat.unknown = omega arith

    inside :
        (w h row bpp : ℕ)
        → x < w
        → y < h
        → 3 ≤ bpp
        → w * bpp ≤ row
        → h * row ≤ length d
        → y * row % 2 ^ 32 + x * bpp + 3 ≤ length d
    inside w h row bpp hx hy t f a =
        omega (arith, row_of y h row hy, row_of x w bpp hx, mod_le (y * row))
