-- ===== src/Capture.antt =====
-- `ScreencopyCapture` of platform/linux/capture/screencopy_capture.cpp. The file that `grim` has written is
-- an argument, `none` where it could not be run or opened. An `int` is its bit pattern.
pub mod Header
pub mod Ppm
pub mod Frames
use degoonification.Common.{
  ℕ, ◌+◌, ◌-◌, ◌*◌, ◌%◌, ◌^◌, Bool, true, false, ltb, if◌then◌else◌, Option, none, some, ◌++◌,
  Bytes, length, take, drop, replicate,
}
use degoonification.Video.{PixelFormat, VideoFrame}
use degoonification.Capture.Header.{PpmHeader, parse_header}

pub record ScreencopyCapture : Type 0 where
  pub buffer : Bytes
  pub last_width : ℕ
  pub last_height : ℕ

-- `static_cast<size_t>(n)` of an `int`
abbrev pub to_size : ℕ → ℕ
to_size n = if ltb n (2 ^ 31) then n else n + (2 ^ 64 - 2 ^ 32)

abbrev pub size_of : PpmHeader → ℕ
size_of header = to_size header.w * to_size header.h * 3 % 2 ^ 64

-- The buffer with at least so many bytes.
abbrev grown : ℕ → Bytes → Bytes
grown size buffer = buffer ++ replicate (size - length buffer) 0

-- The frame whose pixels are in the buffer.
abbrev pub filled : PpmHeader → Bytes → VideoFrame → VideoFrame
filled header buffer out_frame = record out_frame {
  width = header.w;
  height = header.h;
  stride = header.w * 3 % 2 ^ 32;
  format = PixelFormat.rgb;
  bytes = some buffer;
  data_size = size_of header;
  dmabuf_fd = none;
}

-- The pixels behind the header are read, as many as there are.
unfoldable pub read_pixels :
    PpmHeader → Bytes → VideoFrame → ScreencopyCapture → Bool × VideoFrame × ScreencopyCapture
read_pixels header body out_frame c =
    let size = size_of header in
    let whole = take size body ++ drop size c.buffer in
    let part = body ++ drop (length body) (grown size c.buffer) in
    if ltb (length body) size then (false, out_frame, record c { buffer = part }) else (
      true,
      filled header whole out_frame,
      record c { buffer = whole; last_width = header.w; last_height = header.h },
    )

abbrev pub read_file :
    Bytes
    → Option PpmHeader
    → VideoFrame
    → ScreencopyCapture
    → Bool × VideoFrame × ScreencopyCapture
read_file file none out_frame c = (false, out_frame, c)
read_file file (some header) out_frame c =
    read_pixels header (drop header.header_len file) out_frame c

unfoldable pub capture_frame :
    Option Bytes → VideoFrame → ScreencopyCapture → Bool × VideoFrame × ScreencopyCapture
unfolding read_pixels parse_header
capture_frame none out_frame c = (false, out_frame, c)
capture_frame (some file) out_frame c = read_file file (parse_header file) out_frame c
