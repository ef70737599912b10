-- ===== src/Daemon.antt =====
-- The daemon of platform/linux/main.cpp: the variables that its main loop and its AI thread share, and
-- the calls of the overlay. A duration is a whole number of seconds, and a streak does not start in the
-- future.
pub mod Commands
pub mod Worker
pub mod Loop
pub mod Screen
pub mod Steps
pub mod Paused
pub mod Hidden
pub mod Safety
pub mod Rounds
pub mod Main
pub mod Runs
use degoonification.Common.{
  ℕ, ◌-◌, ◌/◌, ◌%◌, Bool, true, false, if◌then◌else◌, Option, none, some, List, [], Bytes, codes,
}
use degoonification.Common.Int.{pos}
use degoonification.Common.Reads.{Reads, got, ◌>>=◌}
use degoonification.Float.{Float}
use degoonification.Boxes.{BoundingBox}
use degoonification.Video.{PixelFormat, VideoFrame}
use degoonification.Anchors.{AnchorTrackerConfig, AnchorTracker, new_anchor_tracker}
use degoonification.Overlay.{WaylandOverlay, render_boxes}
use degoonification.Dns.Server.{DnsStats}
use degoonification.Ipc.{DaemonStatus}

-- How far the AI thread is with a frame: it has detections, or boxes to show.
pub data Stage (F : Type 0) : Type 0 where
  idle : Stage F
  detected : VideoFrame → List (BoundingBox F) → ℕ → Stage F
  tracked : VideoFrame → List (BoundingBox F) → Stage F

-- `screen` is what the overlay committed last, if it did.
pub record Daemon (F : Type 0) : Type 0 where
  pub running : Bool
  pub visual_blur_paused : Bool
  pub model_loaded : Bool
  pub padding_ratio : F
  pub tracker : AnchorTracker F
  pub overlay : WaylandOverlay F
  pub stage : Stage F
  pub latest_rendered_boxes : List (BoundingBox F)
  pub shared_frame : VideoFrame
  pub shared_frame_buf : Bytes
  pub raw_frame_seq : ℕ
  pub last_processed_seq : ℕ
  pub total_frames_analyzed : ℕ
  pub current_fps : ℕ
  pub active_box_count : ℕ
  pub last_event : Bytes
  pub start_time : ℕ
  pub streak_start : ℕ
  pub screen : Option (List ℕ)

-- A fresh `VideoFrame`.
abbrev no_frame : VideoFrame
no_frame = record {
  width = 0;
  height = 0;
  stride = 0;
  format = PixelFormat.bgra;
  timestamp_us = 0;
  dmabuf_fd = none;
  bytes = none;
  data_size = 0;
}

-- What the clocks and the DNS server give.
pub record Clock : Type 0 where
  pub steady_s : ℕ
  pub system_s : ℕ
  pub dns : DnsStats

abbrev pub latest : Option (List ℕ) → Option (List ℕ) → Option (List ℕ)
latest none screen = screen
latest (some pixels) screen = some pixels

module _ {F : Type 0} ⦃f : Float F⦄ where
  -- The tracker's configuration; the fields that `main` does not name have their defaults.
  abbrev pub tracker_config : F → AnchorTrackerConfig F
  tracker_config padding_ratio = record {
    persistence_window_ms = 1200;
    dynamic_decay_ms = 280;
    padding_ratio = padding_ratio;
    merge_iou_threshold = f.decimal 15 2;
    anchor_error_threshold = f.decimal 22 0;
    ema_alpha = f.decimal 70 2;
  }

  -- The variables before the loops start, with the overlay after its `init`.
  abbrev pub new_daemon : WaylandOverlay F → Bool → Clock → Daemon F
  new_daemon overlay model_loaded clock = record {
    running = true;
    visual_blur_paused = false;
    model_loaded = model_loaded;
    padding_ratio = f.decimal 35 2;
    tracker = new_anchor_tracker (tracker_config (f.decimal 35 2));
    overlay = overlay;
    stage = Stage.idle;
    latest_rendered_boxes = [];
    shared_frame = no_frame;
    shared_frame_buf = [];
    raw_frame_seq = 0;
    last_processed_seq = 0;
    total_frames_analyzed = 0;
    current_fps = 15;
    active_box_count = 0;
    last_event = codes "Defense active and monitoring screen";
    start_time = clock.steady_s;
    streak_start = clock.system_s;
    screen = none;
  }

  -- `overlay.render_boxes(boxes, source_frame)`
  unfoldable pub show : List (BoundingBox F) → Option VideoFrame → Daemon F → Reads (Daemon F)
  unfolding render_boxes
  show boxes source_frame d = render_boxes boxes source_frame d.overlay >>= λ r.
      got (record d { overlay = r.1; screen = latest r.0 d.screen })

  -- The values that STATUS prints.
  abbrev pub status_values : Clock → Daemon F → DaemonStatus F
  status_values clock d =
      let streak = clock.system_s - d.streak_start in
      record {
        running = true;
        visual_blur_paused = d.visual_blur_paused;
        active_boxes = d.active_box_count;
        fps = d.current_fps;
        padding_ratio = d.padding_ratio;
        uptime_seconds = clock.steady_s - d.start_time;
        total_frames = d.total_frames_analyzed;
        dns_total = clock.dns.total_queries;
        dns_blocked = clock.dns.blocked_queries;
        dns_forwarded = clock.dns.forwarded_queries;
        streak_days = pos (streak / 3600 / 24);
        streak_hours = pos (streak / 3600 % 24);
        streak_minutes = pos (streak / 60 % 60);
        active_model = if d.model_loaded then codes "YOLOv8n-NSFW" else codes "Passthrough";
        current_milestone = codes "Dopamine Reset";
        milestone_progress = f.decimal 45 2;
        last_event = d.last_event;
      }
