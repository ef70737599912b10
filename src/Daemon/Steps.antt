-- ===== src/Daemon/Steps.antt =====
-- The interleavings of the daemon's two threads: the rounds of the AI thread, cut into its steps, the
-- commands, the events and the rounds of the main loop, in any order.
use degoonification.Common.{
  ℕ, ◌≡◌, refl, true, not, ◌&&◌, ltb, if◌then◌else◌, Option, none, some, List, Bytes, is_empty,
  length,
}
use degoonification.Common.Reads.{Reads, fault, got, Gives, Gives-bind, Gives-if}
use degoonification.Float.{Float}
use degoonification.Boxes.{BoundingBox}
use degoonification.Video.{VideoFrame}
use degoonification.Preprocessor.{preprocess}
use degoonification.Anchors.{AnchorTracker, process_frame}
use degoonification.Overlay.{Event}
use degoonification.Ipc.{FloatText}
use degoonification.Daemon.{Stage, Daemon, Clock}
use degoonification.Daemon.Commands.{handle_command}
use degoonification.Daemon.Worker.{
  Model, begin_round, with_capture, detect_in, clear_boxes, tracked_of, track_stage, track,
  copy_frame, publish_stage, publish,
}
use degoonification.Daemon.Loop.{dispatch, present}

module _ {F : Type 0} ⦃f : Float F⦄ (text : FloatText F) (model : Model F) where
  pub data Step : Daemon F → Daemon F → Type 0 where
    begins :
        (d d' : Daemon F) (captured : Option VideoFrame) (now : ℕ)
        → begin_round model captured now d ≡ got d'
        → Step d d'
    tracks : (d d' : Daemon F) → track d ≡ got d' → Step d d'
    publishes : (d d' : Daemon F) → publish d ≡ got d' → Step d d'
    handles :
        (d d' : Daemon F) (clock : Clock) (request : Bytes × Bytes) (reply : Bytes)
        → handle_command text clock request d ≡ got (reply, d')
        → Step d d'
    dispatches : (d : Daemon F) (events : List Event) → Step d (dispatch events d)
    presents :
        (d d' : Daemon F) (meanwhile : Option Bytes) → present meanwhile d ≡ got d' → Step d d'

  -- Steps one after another.
  pub data Run : Daemon F → Daemon F → Type 0 where
    done : (d : Daemon F) → Run d d
    then : (d e d' : Daemon F) → Step d e → Run e d' → Run d d'

  -- Steps after each of which the daemon is paused.
  pub data PausedRun : Daemon F → Daemon F → Type 0 where
    done : (d : Daemon F) → PausedRun d d
    then :
        (d e d' : Daemon F)
        → Step d e
        → e.visual_blur_paused ≡ true
        → PausedRun e d'
        → PausedRun d d'

pub Gives-anything : {A : Type 0} (m : Reads A) → Gives (λ a. Unit {0}) m
Gives-anything fault = tt
Gives-anything (got a) = tt

module _ {F : Type 0} ⦃f : Float F⦄ where
  -- The screen, the overlay and the pause stay.
  pub record IsSame (d d' : Daemon F) : Type 0 where
    pub same_screen : d'.screen ≡ d.screen
    pub same_overlay : d'.overlay ≡ d.overlay
    pub same_pause : d'.visual_blur_paused ≡ d.visual_blur_paused

  same : (d : Daemon F) → IsSame d d
  same d = record { same_screen = refl; same_overlay = refl; same_pause = refl }

  with_capture-IsSame :
      (model : Model F) (captured : Option VideoFrame) (now : ℕ) (d : Daemon F)
      → Gives (IsSame d) (with_capture model captured now d)
  unfolding detect_in
  with_capture-IsSame model none now d = same d
  with_capture-IsSame model (some frame) now d =
      Gives-bind (λ p. Unit {0}) (IsSame d) (preprocess frame 640 640) _
        (Gives-anything (preprocess frame 640 640))
        (λ p _. record { same_screen = refl; same_overlay = refl; same_pause = refl })

  pub begin_round-IsSame :
      (model : Model F) (captured : Option VideoFrame) (now : ℕ) (d : Daemon F)
      → Gives (IsSame d) (begin_round model captured now d)
  unfolding begin_round
  begin_round-IsSame model captured now d =
      Gives-if (IsSame d) (not d.visual_blur_paused && d.model_loaded)
        (with_capture model captured now d) (got (clear_boxes d))
        (with_capture-IsSame model captured now d)
        record { same_screen = refl; same_overlay = refl; same_pause = refl }

  tracked_of-IsSame :
      (frame : VideoFrame) (r : Option (List (BoundingBox F)) × AnchorTracker F) (d : Daemon F)
      → Gives (IsSame d) (tracked_of frame r d)
  tracked_of-IsSame frame (none, t) d = tt
  tracked_of-IsSame frame (some boxes, t) d = record {
    same_screen = refl;
    same_overlay = refl;
    same_pause = refl;
  }

  track_stage-IsSame : (stage : Stage F) (d : Daemon F) → Gives (IsSame d) (track_stage stage d)
  unfolding track_stage
  track_stage-IsSame Stage.idle d = same d
  track_stage-IsSame (Stage.tracked frame boxes) d = same d
  track_stage-IsSame (Stage.detected frame boxes now) d =
      Gives-bind (λ r. Unit {0}) (IsSame d) (process_frame frame boxes now d.tracker) _
        (Gives-anything (process_frame frame boxes now d.tracker))
        (λ r _. tracked_of-IsSame frame r d)

  pub track-IsSame : (d : Daemon F) → Gives (IsSame d) (track d)
  unfolding track
  track-IsSame d = track_stage-IsSame d.stage d

  copy_frame-IsSame :
      (frame : VideoFrame) (bytes : Option Bytes) (d : Daemon F)
      → Gives (IsSame d) (copy_frame frame bytes d)
  copy_frame-IsSame frame none d = same d
  copy_frame-IsSame frame (some b) d =
      Gives-if (IsSame d) (not (ltb 0 frame.data_size)) (got d) _ (same d) (
        Gives-if (IsSame d) (ltb (length b) frame.data_size) fault _ tt
          record { same_screen = refl; same_overlay = refl; same_pause = refl })

  publish_stage-IsSame : (stage : Stage F) (d : Daemon F) → Gives (IsSame d) (publish_stage stage d)
  publish_stage-IsSame Stage.idle d = same d
  publish_stage-IsSame (Stage.detected frame boxes now) d = same d
  publish_stage-IsSame (Stage.tracked frame boxes) d =
      let shown : Daemon F = record d { latest_rendered_boxes = boxes; stage = Stage.idle } in
      let kept : IsSame d shown = record {
        same_screen = refl;
        same_overlay = refl;
        same_pause = refl;
      } in
      Gives-bind (IsSame shown) (IsSame d)
        (if is_empty boxes then got shown else copy_frame frame frame.bytes shown) _
        (Gives-if (IsSame shown) (is_empty boxes) (got shown) (copy_frame frame frame.bytes shown)
          (same shown) (copy_frame-IsSame frame frame.bytes shown))
        (λ d' s. record {
          same_screen = s.same_screen;
          same_overlay = s.same_overlay;
          same_pause = s.same_pause;
        })

  pub publish-IsSame : (d : Daemon F) → Gives (IsSame d) (publish d)
  unfolding publish
  publish-IsSame d = publish_stage-IsSame d.stage d
