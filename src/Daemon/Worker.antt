-- ===== src/Daemon/Worker.antt =====
-- The AI thread of platform/linux/main.cpp. A round is cut where the main thread can see or change what
-- it shares: before the tracker, and before the boxes are published.
use degoonification.Common.{
  ℕ, ◌+◌, ◌%◌, ◌^◌, true, not, ◌&&◌, ltb, if◌then◌else◌, Option, none, some, List, [], ◌++◌, Bytes,
  is_empty, take, drop, length,
}
use degoonification.Common.Reads.{Reads, fault, got, ◌>>=◌}
use degoonification.Float.{Float}
use degoonification.Boxes.{BoundingBox}
use degoonification.Video.{VideoFrame}
use degoonification.Preprocessor.{preprocess}
use degoonification.Detector.{DetectorConfig, Output, detect}
use degoonification.Anchors.{AnchorTracker, process_frame}
use degoonification.Daemon.{Stage, Daemon}

-- The model, `none` where the runtime throws or gives no tensor, and `std::sort`.
pub record Model (F : Type 0) : Type 0 where
  pub run : List F → Option (Output F)
  pub sort : List (BoundingBox F) → List (BoundingBox F)

module _ {F : Type 0} ⦃f : Float F⦄ where
  abbrev pub detector_config : DetectorConfig F
  detector_config = record {
    confidence_threshold = f.decimal 18 2;
    nms_iou_threshold = f.decimal 45 2;
    input_width = 640;
    input_height = 640;
  }

  unfoldable pub detect_in : Model F → VideoFrame → ℕ → Daemon F → Reads (Daemon F)
  unfolding preprocess detect
  detect_in model frame now d = preprocess frame 640 640 >>= λ p. got (record d {
    stage = Stage.detected frame (detect detector_config model.sort true (model.run p.1) p.0) now;
  })

  -- A captured frame is detected in; without one, the round is over.
  abbrev pub with_capture : Model F → Option VideoFrame → ℕ → Daemon F → Reads (Daemon F)
  with_capture model none now d = got d
  with_capture model (some frame) now d = detect_in model frame now d

  -- The branch of a paused daemon, and of one without a model.
  abbrev pub clear_boxes : Daemon F → Daemon F
  clear_boxes d = record d {
    latest_rendered_boxes = [];
    raw_frame_seq = (d.raw_frame_seq + 1) % 2 ^ 64;
  }

  unfoldable pub begin_round : Model F → Option VideoFrame → ℕ → Daemon F → Reads (Daemon F)
  unfolding detect_in
  begin_round model captured now d =
      if not d.visual_blur_paused && d.model_loaded
      then with_capture model captured now d
      else got (clear_boxes d)

  -- The merging of boxes always ends, so that there are boxes.
  abbrev pub tracked_of :
      VideoFrame → Option (List (BoundingBox F)) × AnchorTracker F → Daemon F → Reads (Daemon F)
  tracked_of frame (none, t) d = fault
  tracked_of frame (some boxes, t) d =
      got (record d { tracker = t; stage = Stage.tracked frame boxes })

  unfoldable pub track_stage : Stage F → Daemon F → Reads (Daemon F)
  unfolding process_frame
  track_stage Stage.idle d = got d
  track_stage (Stage.tracked frame boxes) d = got d
  track_stage (Stage.detected frame boxes now) d =
      process_frame frame boxes now d.tracker >>= λ r. tracked_of frame r d

  unfoldable pub track : Daemon F → Reads (Daemon F)
  unfolding track_stage
  track d = track_stage d.stage d

  -- `memcpy` into the shared buffer, which grows where it is too small. `shared_frame.data` points into the
  -- buffer, so that the frame's bytes are the buffer's; both change here only, under the lock. What a copy
  -- of the frame sees that is read without the lock is `seen_frame` of Daemon/Loop.
  abbrev pub copy_frame : VideoFrame → Option Bytes → Daemon F → Reads (Daemon F)
  copy_frame frame none d = got d
  copy_frame frame (some data') d =
      let buf = take frame.data_size data' ++ drop frame.data_size d.shared_frame_buf in
      let copied = record d {
        shared_frame_buf = buf;
        shared_frame = record frame { bytes = some buf };
      } in
      if not (ltb 0 frame.data_size)
      then got d
      else if ltb (length data') frame.data_size
      then fault
      else got copied

  abbrev pub publish_stage : Stage F → Daemon F → Reads (Daemon F)
  publish_stage Stage.idle d = got d
  publish_stage (Stage.detected frame boxes now) d = got d
  publish_stage (Stage.tracked frame boxes) d =
      let shown = record d { latest_rendered_boxes = boxes; stage = Stage.idle } in
      (if is_empty boxes then got shown else copy_frame frame frame.bytes shown) >>= λ d'.
      got (record d' {
        raw_frame_seq = (d'.raw_frame_seq + 1) % 2 ^ 64;
        total_frames_analyzed = (d'.total_frames_analyzed + 1) % 2 ^ 64;
      })

  unfoldable pub publish : Daemon F → Reads (Daemon F)
  publish d = publish_stage d.stage d

  -- Once a second, the frames per second.
  set_fps : Option ℕ → Daemon F → Daemon F
  set_fps none d = d
  set_fps (some fps) d = record d { current_fps = fps }

  -- A whole round.
  run_round : Model F → Option VideoFrame → ℕ → Option ℕ → Daemon F → Reads (Daemon F)
  unfolding begin_round track publish set_fps
  run_round model captured now fps d = do
    begun ← begin_round model captured now d
    followed ← track begun
    published ← publish followed
    got (set_fps fps published)
