-- ===== src/Tests/Commands.antt =====
-- Commands: examples for the theorems on the control socket and on the daemon.
use degoonification.Common.{
  ℕ, length, ◌≡◌, refl, true, false, none, some, [], ◌∷◌, ◌++◌, Bytes, codes, replicate, List,
  arith,
}
use degoonification.Common.Int.{pos}
use degoonification.Common.Reads.{got}
use degoonification.Overlay.{Event, Interface, Display, new_overlay, init}
use degoonification.Anchors.{reset}
use degoonification.Ipc.{DaemonStatus, FloatText}
use degoonification.Ipc.Numbers.{to_string, stoull, stoull-to_string, to_string-IsLine}
use degoonification.Ipc.Server.{parse_request}
use degoonification.Ipc.Client.{message, set_field, parse_status}
use degoonification.Ipc.Requests.{parse_request-message}
use degoonification.Ipc.Status.{
  field, status_text, IsReportable, reported, parse_status-status_text,
}
use degoonification.Ipc.Forgery.{parse_status-two_lines}
use degoonification.Daemon.{Daemon, Clock, new_daemon}
use degoonification.Daemon.Commands.{ok, pause}
use degoonification.Daemon.Worker.{Model, begin_round, clear_boxes}
use degoonification.Daemon.Loop.{dispatch}
use degoonification.Daemon.Screen.{IsBlank}
use degoonification.Daemon.Steps.{Step, Run, PausedRun}
use degoonification.Daemon.Hidden.{IsReady, pause_hides}
use degoonification.Tests.Numbers.{whole_float}
use degoonification.Daemon.Runs.{Input, run}
use degoonification.Tests.Screens.{mosaic, frame_4}
use degoonification.Dashboard.{progress_bar}
use degoonification.Dashboard.Keys.{progress_bar-length, run-quits}
use degoonification.Dashboard

-- Floats are written and read as whole numbers.
abbrev whole_text : FloatText ℕ
whole_text = record { stof = stoull; show = to_string; to_text = to_string }

abbrev clock : Clock
clock = record {
  steady_s = 100;
  system_s = 1000;
  dns = record { total_queries = 5; blocked_queries = 2; forwarded_queries = 3 };
}

-- The daemon's values, with an event.
abbrev values : Bytes → DaemonStatus ℕ
values event = record {
  running = true;
  visual_blur_paused = true;
  active_boxes = 3;
  fps = 15;
  padding_ratio = 35;
  uptime_seconds = 86400;
  total_frames = 77;
  dns_total = 5;
  dns_blocked = 2;
  dns_forwarded = 3;
  streak_days = pos 4;
  streak_hours = pos 5;
  streak_minutes = pos 6;
  active_model = codes "YOLOv8n-NSFW";
  current_milestone = codes "Dopamine Reset";
  milestone_progress = 0;
  last_event = event;
}

values-IsReportable : IsReportable whole_text (values (codes "Relapse logged: x")) 0
unfolding stoull
values-IsReportable = record {
  boxes_fit = omega arith;
  fps_fits = omega arith;
  uptime_fits = omega arith;
  frames_fit = omega arith;
  total_fits = omega arith;
  blocked_fits = omega arith;
  forwarded_fits = omega arith;
  days_fit = omega arith;
  hours_fit = omega arith;
  minutes_fit = omega arith;
  padding_back = stoull-to_string 35 (omega arith);
  padding_line = to_string-IsLine 35;
  progress_back = refl;
  model_line = omega arith;
  event_line = omega arith;
}

parse_status_example :
    parse_status whole_text (status_text whole_text (values (codes "Relapse logged: x")))
    ≡ some (reported whole_text (values (codes "Relapse logged: x")) 0)
parse_status_example =
    parse_status-status_text whole_text (values (codes "Relapse logged: x")) 0 values-IsReportable

-- RELAPSE with the reason "x", a newline and "paused=0" hides that the daemon is paused.
forgery_example :
    parse_status whole_text (
      status_text whole_text
        (values (codes "Relapse logged: x" ++ b'\n' ∷ field (codes "paused") (codes "0"))))
    ≡ set_field whole_text
        (codes "paused")
        (codes "0")
        (reported whole_text (values (codes "Relapse logged: x")) 0)
forgery_example =
    parse_status-two_lines whole_text (values []) 0 (codes "Relapse logged: x") (codes "paused")
      (codes "0") values-IsReportable
      ((refl, (refl, (refl, (refl, (refl, (refl, tt)))))), omega arith)

parse_request_example :
    parse_request (message (codes "RELAPSE" ++ b' ' ∷ codes "late night"))
    ≡ (codes "RELAPSE", codes "late night")
unfolding message
parse_request_example =
    parse_request-message (codes "RELAPSE") (codes "late night")
      (refl, (refl, (refl, (refl, (refl, (refl, (refl, tt))))))) (omega arith) refl (omega arith)

-- A display whose surface gets 4 times 2 pixels, and both buffers.
abbrev display : Display
display = record {
  connected = true;
  globals = Interface.compositor ∷ Interface.shm ∷ Interface.other ∷ Interface.layer_shell ∷ [];
  has_surface = true;
  has_layer_surface = true;
  events = Event.configure 4 2 ∷ [];
  maps_0 = true;
  maps_1 = true;
}

abbrev model : Model ℕ
model = record { run = λ planes. none; sort = λ boxes. boxes }

abbrev started : Daemon ℕ
started = new_daemon (init display (new_overlay mosaic)).1 true clock

-- A buffer is released, PAUSE is handled, and the AI thread clears the boxes.
abbrev before_pause : Daemon ℕ
before_pause = dispatch (Event.release 0 ∷ []) started

abbrev after_pause : Daemon ℕ
after_pause = record before_pause {
  visual_blur_paused = true;
  tracker = reset before_pause.tracker;
  last_event = codes "Visual blur temporarily paused via CLI";
}

pause-before : pause before_pause ≡ got (ok, after_pause)
unfolding pause dispatch init reset
pause-before = refl

begin-after : begin_round model none 0 after_pause ≡ got (clear_boxes after_pause)
unfolding begin_round dispatch
begin-after = refl

before-IsReady : IsReady before_pause
unfolding dispatch init
before-IsReady = record {
  impl = record {
    compositor = true;
    shm = true;
    layer_shell = true;
    surface = true;
    width = 4;
    height = 2;
    configured = true;
    buffer_0 = record { pixels = replicate 8 0; busy = false };
    buffer_1 = record { pixels = replicate 8 0; busy = false };
    current_buffer = 0;
    last_rendered_boxes = [];
  };
  is_there = refl;
  has_surface = refl;
  is_configured = refl;
}

pause_hides_example : IsBlank (clear_boxes after_pause).screen
pause_hides_example =
    pause_hides whole_text model (init display (new_overlay mosaic)).1 true clock before_pause
      after_pause (clear_boxes after_pause) ok
      (Run.then started before_pause before_pause (Step.dispatches started (Event.release 0 ∷ []))
        (Run.done before_pause))
      before-IsReady pause-before
      (PausedRun.then after_pause (clear_boxes after_pause) (clear_boxes after_pause)
        (Step.begins after_pause (clear_boxes after_pause) none 0 begin-after) refl
        (PausedRun.done (clear_boxes after_pause)))

-- A frame goes from its capture to the screen, while the daemon is paused and resumed.
abbrev inputs : List Input
inputs =
    Input.begins (some frame_4) 5
    ∷ Input.command clock (codes "PAUSE", [])
    ∷ Input.follows
    ∷ Input.publishes
    ∷ Input.command clock (codes "RESUME", [])
    ∷ Input.events (Event.configure 4 2 ∷ [])
    ∷ Input.presents none
    ∷ []

progress_bar_example : length (progress_bar {F = ℕ} 2) ≡ 24
progress_bar_example = progress_bar-length {F = ℕ} 2

-- P pauses, Q ends the loop, and the R after it is not read.
keys_example :
    ((Dashboard.run (
        (some (values []), some b'p') ∷ []
        ++ (some (values []), some b'Q') ∷ (none, some b'r') ∷ [])).0
      ≡ true)
    × (Dashboard.run (
          (some (values []), some b'p') ∷ []
          ++ (some (values []), some b'Q') ∷ (none, some b'r') ∷ [])
        ≡ Dashboard.run ((some (values []), some b'p') ∷ [] ++ (some (values []), some b'Q') ∷ []))
keys_example =
    run-quits ((some (values []), some b'p') ∷ []) ((none, some b'r') ∷ []) (some (values [])) b'Q'
      refl
