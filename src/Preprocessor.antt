-- ===== src/Preprocessor.antt =====
-- `ImagePreprocessor` of platform/linux/inference/image_preprocessor.cpp: a frame is scaled into a
-- square of planar floats, with a gray border.
pub mod Planes
use degoonification.Common.{
  ℕ, zero, suc, ◌+◌, ◌-◌, ◌*◌, ◌/◌, ◌%◌, ◌^◌, Bool, true, false, ◌||◌, ◌==◌, ltb, if◌then◌else◌,
  Option, none, some, List, Bytes, replicate,
}
use degoonification.Common.Int.{clamp_ℤ}
use degoonification.Common.Reads.{Reads, fault, got, ◌>>=◌, read, write}
use degoonification.Float.{Float, fmin}
use degoonification.Video.{PixelFormat, VideoFrame, bytes_per_pixel, row_bytes}

pub record LetterboxInfo (F : Type 0) : Type 0 where
  pub scale : F
  pub pad_x : ℕ
  pub pad_y : ℕ
  pub scaled_w : ℕ
  pub scaled_h : ℕ
  pub orig_w : ℕ
  pub orig_h : ℕ

-- `BGRA` and `BGRx`: the first byte of a pixel is blue.
abbrev pub is_bgra : PixelFormat → Bool
is_bgra PixelFormat.bgra = true
is_bgra PixelFormat.bgrx = true
is_bgra PixelFormat.rgb = false
is_bgra PixelFormat.rgba = false
is_bgra PixelFormat.rgbx = false
is_bgra PixelFormat.unknown = false

-- `std::min(n, limit - 1)`
abbrev pub at_most_last : ℕ → ℕ → ℕ
at_most_last n limit = if ltb (limit - 1) n then limit - 1 else n

module _ {F : Type 0} ⦃f : Float F⦄ where
  -- `info` as it is constructed, with the size of the frame.
  abbrev pub unscaled : VideoFrame → LetterboxInfo F
  unscaled frame = record {
    scale = f.one;
    pad_x = 0;
    pad_y = 0;
    scaled_w = 640;
    scaled_h = 640;
    orig_w = frame.width;
    orig_h = frame.height;
  }

  -- The scaled size of the frame and its place in the target.
  unfoldable pub letterbox : VideoFrame → ℕ → ℕ → LetterboxInfo F
  letterbox frame target_width target_height =
      let scale =
        fmin (f.div (f.of_nat target_width) (f.of_nat frame.width))
          (f.div (f.of_nat target_height) (f.of_nat frame.height)) in
      let scaled_w =
        clamp_ℤ (f.to_int (f.round (f.mul (f.of_nat frame.width) scale))) 1 target_width in
      let scaled_h =
        clamp_ℤ (f.to_int (f.round (f.mul (f.of_nat frame.height) scale))) 1 target_height in
      record {
        scale = scale;
        pad_x = (target_width - scaled_w) / 2;
        pad_y = (target_height - scaled_h) / 2;
        scaled_w = scaled_w;
        scaled_h = scaled_h;
        orig_w = frame.width;
        orig_h = frame.height;
      }

  -- `px[k] * norm_factor`
  abbrev pub normalized : ℕ → F
  normalized b = f.mul (f.of_nat b) (f.div f.one (f.decimal 255 0))

  -- `std::min(static_cast<uint32_t>(n * inv_scale), limit - 1)`
  abbrev pub source_index : F → ℕ → ℕ → ℕ
  source_index inv_scale n limit = at_most_last (f.to_uint (f.mul (f.of_nat n) inv_scale)) limit

  module _ (format : PixelFormat) (d : Bytes) (channel_size : ℕ) where
    -- The pixel at offset `i` of the frame's bytes goes to place `idx` of the three planes.
    unfoldable pub copy_pixel : ℕ → ℕ → List F → Reads (List F)
    copy_pixel i idx out = do
      p0 ← read d i
      p1 ← read d (i + 1)
      p2 ← read d (i + 2)
      red ← write out idx (normalized (if is_bgra format then p2 else p0))
      green ← write red (channel_size + idx) (normalized p1)
      write green (channel_size + channel_size + idx)
          (normalized (if is_bgra format then p0 else p2))

  module _ (frame : VideoFrame) (d : Bytes) (target_width target_height : ℕ)
      (info : LetterboxInfo F) where
    abbrev channel_size : ℕ
    channel_size = target_width * target_height

    -- The inner loop, `left` rounds of it from `x` on.
    unfoldable pub copy_row : ℕ → ℕ → ℕ → ℕ → List F → Reads (List F)
    copy_row zero x row row_offset out = got out
    copy_row (suc left) x row row_offset out =
        copy_pixel frame.format d channel_size
          (row
            + source_index (f.div f.one info.scale) x frame.width
              * bytes_per_pixel frame.format
              % 2 ^ 32)
          (row_offset + (info.pad_x + x)) out
        >>= copy_row left (x + 1) row row_offset

    -- The outer loop, `left` rounds of it from `y` on. The row's offset is an `int` product, whose
    -- overflow is a fault.
    unfoldable pub copy_rows : ℕ → ℕ → List F → Reads (List F)
    copy_rows zero y out = got out
    copy_rows (suc left) y out =
        (if ltb ((info.pad_y + y) * target_width) (2 ^ 31)
          then copy_row info.scaled_w 0
              (source_index (f.div f.one info.scale) y frame.height * row_bytes frame % 2 ^ 32)
              ((info.pad_y + y) * target_width) out
          else fault)
        >>= copy_rows left (y + 1)

  -- 114/255, in all three planes.
  abbrev pub gray : ℕ → ℕ → List F
  gray target_width target_height = replicate (3 * (target_width * target_height)) (f.decimal 447 3)

  abbrev pub preprocess_bytes :
      Option Bytes → Bool → VideoFrame → ℕ → ℕ → Reads (LetterboxInfo F × List F)
  preprocess_bytes none empty frame tw th = got (unscaled frame, gray tw th)
  preprocess_bytes (some d) true frame tw th = got (unscaled frame, gray tw th)
  preprocess_bytes (some d) false frame tw th =
      let info = letterbox frame tw th in
      copy_rows frame d tw th info info.scaled_h 0 (gray tw th) >>= λ out. got (info, out)

  -- `preprocess`: the returned info and `out_planar_rgb`.
  unfoldable pub preprocess : VideoFrame → ℕ → ℕ → Reads (LetterboxInfo F × List F)
  unfolding letterbox copy_rows
  preprocess frame target_width target_height =
      preprocess_bytes frame.bytes (frame.width == 0 || frame.height == 0) frame target_width
        target_height
