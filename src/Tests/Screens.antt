-- ===== src/Tests/Screens.antt =====
-- Screens: examples for the theorems on frames, the overlay and the daemon, with whole numbers in place
-- of `float`.
use degoonification.Common.{
  ◌++◌, ◌*◌, length, ◌≡◌, Bool, true, Bytes, ℕ, refl, false, none, some, [], ◌∷◌, replicate, arith,
}
use degoonification.Common.Int.{pos}
use degoonification.Common.Reads.{Returns}
use degoonification.Boxes.{BoundingBox}
use degoonification.Video.{PixelFormat, VideoFrame, IsMapped}
use degoonification.Preprocessor.{preprocess}
use degoonification.Preprocessor.Planes.{IsPreprocessed, preprocess-Returns}
use degoonification.Anchors.{AnchorTracker, new_anchor_tracker, process_frame}
use degoonification.Anchors.Screen.{
  IsShown, process_frame-Returns, IsCovered, process_frame-IsCovered,
}
use degoonification.Overlay.Pixels.{OverlayConfig}
use degoonification.Overlay.{Impl, render_impl}
use degoonification.Overlay.Rendering.{IsRendered, render_impl-IsRendered}
use degoonification.Daemon.Safety.{IsCaptured}
use degoonification.Capture.{ScreencopyCapture, capture_frame}
use degoonification.Capture.Ppm.{head}
use degoonification.Capture.Frames.{capture_frame-head}
use degoonification.Tests.Numbers.{whole_float}

abbrev pixels_4 : Bytes
pixels_4 = replicate 12 7

abbrev pub frame_4 : VideoFrame
frame_4 = record {
  width = 2;
  height = 2;
  stride = 6;
  format = PixelFormat.rgb;
  timestamp_us = 0;
  dmabuf_fd = none;
  bytes = some pixels_4;
  data_size = 12;
}

frame_4-IsMapped : IsMapped frame_4 6 pixels_4
frame_4-IsMapped = record { row_fits = omega arith; all_rows = omega arith }

preprocess_example : Returns (IsPreprocessed {F = ℕ} 4 4) (preprocess frame_4 4 4)
preprocess_example =
    preprocess-Returns ℕ frame_4 pixels_4 4 4 refl frame_4-IsMapped (omega arith) (omega arith)
      (omega arith) (omega arith) (omega arith)

abbrev box_1 : BoundingBox ℕ
box_1 = record {
  x = 0;
  y = 0;
  width = 1;
  height = 1;
  confidence = 1;
  class_id = 3;
  timestamp_ms = 0;
}

abbrev anchors : AnchorTracker ℕ
anchors = new_anchor_tracker (record {
  persistence_window_ms = 1200;
  dynamic_decay_ms = 280;
  padding_ratio = 1;
  merge_iou_threshold = 0;
  anchor_error_threshold = 22;
  ema_alpha = 70;
})

process_frame-Returns_example :
    Returns (IsShown anchors.config 50) (process_frame frame_4 (box_1 ∷ []) 50 anchors)
process_frame-Returns_example =
    process_frame-Returns frame_4 50 anchors (frame_4-IsMapped, omega arith) (box_1 ∷ [])

process_frame-IsCovered_example : Returns IsCovered (process_frame frame_4 (box_1 ∷ []) 50 anchors)
process_frame-IsCovered_example =
    process_frame-IsCovered frame_4 50 anchors (frame_4-IsMapped, omega arith) box_1 []
      (omega arith) (omega arith)

abbrev pub mosaic : OverlayConfig
mosaic = record {
  frosted_color_argb = 4279179050;
  enable_clickthrough = true;
  enable_frosted_mosaic = true;
  mosaic_block_size = pos 18;
}

abbrev surface_8 : Impl ℕ
surface_8 = record {
  compositor = true;
  shm = true;
  layer_shell = true;
  surface = true;
  width = 4;
  height = 2;
  configured = true;
  buffer_0 = record { pixels = replicate 8 0; busy = false };
  buffer_1 = record { pixels = replicate 8 0; busy = false };
  current_buffer = 0;
  last_rendered_boxes = [];
}

render_example :
    Returns
      (IsRendered mosaic (box_1 ∷ []) (some frame_4) surface_8)
      (render_impl mosaic (box_1 ∷ []) (some frame_4) surface_8)
render_example =
    render_impl-IsRendered mosaic (box_1 ∷ []) (some frame_4) surface_8
      record { size_0 = refl; size_1 = refl }
      record { pixels = omega arith; columns = omega arith; rows = omega arith }
      record { mapped = frame_4-IsMapped; some_width = omega arith; some_height = omega arith }

pub frame_4-IsCaptured : IsCaptured frame_4
frame_4-IsCaptured = record {
  data_bytes = pixels_4;
  bytes_are = refl;
  narrow = omega arith;
  wide = omega arith;
  high = omega arith;
  row_fits = omega arith;
  all_rows = omega arith;
  data_fits = omega arith;
}

abbrev capture_2 : Bool × VideoFrame × ScreencopyCapture
capture_2 =
    capture_frame (some (head 2 2 pixels_4)) frame_4
      (record { buffer = 1 ∷ []; last_width = 0; last_height = 0 })

capture_example :
    (capture_2.0 ≡ true)
    × (capture_2.1.width ≡ 2)
    × (capture_2.1.height ≡ 2)
    × (capture_2.1.format ≡ PixelFormat.rgb)
    × (capture_2.1.stride ≡ 2 * 3)
    × (capture_2.1.data_size ≡ length pixels_4)
    × ((rest : Bytes) × (capture_2.1.bytes ≡ some (pixels_4 ++ rest)))
    × IsCaptured capture_2.1
capture_example =
    capture_frame-head 2 2 pixels_4 frame_4
      (record { buffer = 1 ∷ []; last_width = 0; last_height = 0 }) (omega arith) (omega arith)
      (omega arith) (omega arith) refl (omega arith)
