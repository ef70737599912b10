-- ===== src/Daemon/Rounds.antt =====
-- No step of the AI thread accesses memory out of bounds, where the frames are captured ones.
use degoonification.Common.{
  ℕ, zero, suc, ◌≤◌, ◌≡◌, refl, ap, sym, Bool, true, false, not, ◌&&◌, ltb, if◌then◌else◌, Option,
  none, some, List, [], ◌∷◌, ◌++◌, Bytes, is_empty, length, take, drop, arith, ge→ltb,
  length-append,
}
use mathlib.Core.Path.{subst}
use degoonification.Common.Reads.{Reads, got, Returns, Returns-bind}
use degoonification.Float.{Float}
use degoonification.Boxes.{BoundingBox}
use degoonification.Video.{VideoFrame}
use degoonification.Preprocessor.{preprocess}
use degoonification.Preprocessor.Planes.{IsPreprocessed, preprocess-Returns}
use degoonification.Anchors.{AnchorTracker, process_frame}
use degoonification.Anchors.Reading.{IsReadable}
use degoonification.Anchors.Screen.{IsShown, process_frame-Returns}
use degoonification.Overlay.Pixels.{OverlayConfig, with_pixels}
use degoonification.Overlay.Mosaic.{IsSeen}
use degoonification.Overlay.Screen.{HasRoom, IsVisible}
use degoonification.Daemon.{Stage, Daemon}
use degoonification.Daemon.Worker.{
  Model, begin_round, with_capture, detect_in, tracked_of, track_stage, track, copy_frame,
  publish_stage, publish,
}
use degoonification.Daemon.Safety.{IsCaptured, row_bytes-stride, IsStaged, IsSafe}

IsReadable-captured : (frame : VideoFrame) → IsCaptured frame → IsReadable frame frame.bytes
IsReadable-captured frame c =
    subst (IsReadable frame) (sym c.bytes_are) (
      record { row_fits = c.row_fits; all_rows = omega (arith, c.all_rows, c.data_fits) },
      c.narrow,
    )

pub Returns-if :
    {A : Type 0} (P : A → Type 0) (b : Bool) (m n : Reads A)
    → Returns P m
    → Returns P n
    → Returns P (if b then m else n)
Returns-if P true m n h k = h
Returns-if P false m n h k = k

-- A frame, if there is one, was captured.
abbrev pub IsTaken : Option VideoFrame → Type 0
IsTaken none = Unit {0}
IsTaken (some frame) = IsCaptured frame

length-take_full : (n : ℕ) (l : Bytes) → n ≤ length l → length (take n l) ≡ n
length-take_full zero l h = refl
length-take_full (suc n) [] h = absurd (omega arith)
length-take_full (suc n) (a ∷ l) h = ap suc (length-take_full n l (omega arith))

IsVisible-of_seen :
    (full : Bool) (frame : VideoFrame) (b : Bytes)
    → IsSeen frame b
    → IsVisible (with_pixels (some b) full frame)
IsVisible-of_seen true frame b s = s
IsVisible-of_seen false frame b s = tt

-- The copy of a captured frame holds all its rows.
copied-IsSeen :
    (frame : VideoFrame) (rest : Bytes) (c : IsCaptured frame)
    → let buf = take frame.data_size c.data_bytes ++ rest in
      IsSeen (record frame { bytes = some buf }) buf
copied-IsSeen frame rest c =
    let whole = length-take_full frame.data_size c.data_bytes c.data_fits in
    let both = length-append (take frame.data_size c.data_bytes) rest in
    record {
      mapped = record {
        row_fits = omega (arith, c.row_fits, row_bytes-stride frame c);
        all_rows = rw (row_bytes-stride frame c) (omega (arith, c.all_rows, whole, both));
      };
      some_width = c.wide;
      some_height = c.high;
    }

module _ {F : Type 0} ⦃f : Float F⦄ (config : OverlayConfig) (w h : ℕ)
    (room : HasRoom config w h) where
  abbrev pub Safe : Daemon F → Type 0
  Safe d = IsSafe config w h d

  with_capture-Safe :
      (model : Model F) (captured : Option VideoFrame) (now : ℕ) (d : Daemon F)
      → IsTaken captured
      → Safe d
      → Returns Safe (with_capture model captured now d)
  unfolding detect_in
  with_capture-Safe model none now d c safe = safe
  with_capture-Safe model (some frame) now d c safe =
      Returns-bind (IsPreprocessed 640 640) Safe (preprocess frame 640 640) _
        (preprocess-Returns F frame c.data_bytes 640 640 c.bytes_are
          record {
            row_fits = omega (arith, c.row_fits, row_bytes-stride frame c);
            all_rows = rw (row_bytes-stride frame c) (omega (arith, c.all_rows, c.data_fits));
          }
          c.wide c.high (omega arith) (omega arith) (omega arith))
        (λ p _. record {
          same_config = safe.same_config;
          fitting = safe.fitting;
          visible = safe.visible;
          staged = c;
        })

  pub begin_round-Safe :
      (model : Model F) (captured : Option VideoFrame) (now : ℕ) (d : Daemon F)
      → IsTaken captured
      → Safe d
      → Returns Safe (begin_round model captured now d)
  unfolding begin_round
  begin_round-Safe model captured now d c safe =
      Returns-if Safe (not d.visual_blur_paused && d.model_loaded)
        (with_capture model captured now d) _ (with_capture-Safe model captured now d c safe)
        record {
          same_config = safe.same_config;
          fitting = safe.fitting;
          visible = safe.visible;
          staged = safe.staged;
        }

  tracked_of-Safe :
      (frame : VideoFrame) (boxes : List (BoundingBox F))
      (r : Option (List (BoundingBox F)) × AnchorTracker F) (d : Daemon F)
      → r.0 ≡ some boxes
      → IsCaptured frame
      → Safe d
      → Returns Safe (tracked_of frame r d)
  tracked_of-Safe frame boxes (none, t) d e c safe = cc
  tracked_of-Safe frame boxes (some out, t) d e c safe = record {
    same_config = safe.same_config;
    fitting = safe.fitting;
    visible = safe.visible;
    staged = c;
  }

  track_stage-Safe :
      (stage : Stage F) (d : Daemon F)
      → IsStaged stage
      → Safe d
      → Returns Safe (track_stage stage d)
  unfolding track_stage
  track_stage-Safe Stage.idle d c safe = safe
  track_stage-Safe (Stage.tracked frame boxes) d c safe = safe
  track_stage-Safe (Stage.detected frame boxes now) d c safe =
      Returns-bind (IsShown d.tracker.config now) Safe (process_frame frame boxes now d.tracker) _
        (process_frame-Returns frame now d.tracker (IsReadable-captured frame c) boxes)
        (λ r s. tracked_of-Safe frame s.out r d s.shown c safe)

  pub track-Safe : (d : Daemon F) → Safe d → Returns Safe (track d)
  unfolding track
  track-Safe d safe = track_stage-Safe d.stage d safe.staged safe

  copy_frame-Safe :
      (frame : VideoFrame) (c : IsCaptured frame) (d : Daemon F)
      → Safe d
      → Returns Safe (copy_frame frame (some c.data_bytes) d)
  copy_frame-Safe frame c d safe = Returns-if Safe (not (ltb 0 frame.data_size)) (got d) _ safe (
      rw (ge→ltb (length c.data_bytes) frame.data_size c.data_fits) record {
        same_config = safe.same_config;
        fitting = safe.fitting;
        visible =
            IsVisible-of_seen _ _ _
              (copied-IsSeen frame (drop frame.data_size d.shared_frame_buf) c);
        staged = safe.staged;
      })

  publish_stage-Safe :
      (stage : Stage F) (d : Daemon F)
      → IsStaged stage
      → Safe d
      → Returns Safe (publish_stage stage d)
  publish_stage-Safe Stage.idle d c safe = safe
  publish_stage-Safe (Stage.detected frame boxes now) d c safe = safe
  publish_stage-Safe (Stage.tracked frame boxes) d c safe =
      let shown : Daemon F = record d { latest_rendered_boxes = boxes; stage = Stage.idle } in
      let shown_safe : Safe shown = record {
        same_config = safe.same_config;
        fitting = safe.fitting;
        visible = safe.visible;
        staged = tt;
      } in
      Returns-bind Safe Safe
        (if is_empty boxes then got shown else copy_frame frame frame.bytes shown) _
        (Returns-if Safe (is_empty boxes) (got shown) (copy_frame frame frame.bytes shown)
          shown_safe
          (subst (λ b. Returns Safe (copy_frame frame b shown)) (sym c.bytes_are)
            (copy_frame-Safe frame c shown shown_safe)))
        (λ d' s. record {
          same_config = s.same_config;
          fitting = s.fitting;
          visible = s.visible;
          staged = s.staged;
        })

  pub publish-Safe : (d : Daemon F) → Safe d → Returns Safe (publish d)
  unfolding publish
  publish-Safe d safe = publish_stage-Safe d.stage d safe.staged safe
