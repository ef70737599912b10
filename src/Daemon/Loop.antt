-- ===== src/Daemon/Loop.antt =====
-- The main loop of platform/linux/main.cpp.
use degoonification.Common.{
  ℕ, ◌%◌, ◌^◌, not, ◌==◌, ltb, if◌then◌else◌, Option, none, some, List, [], ◌++◌, Bytes, codes,
  length, drop,
}
use degoonification.Common.Reads.{Reads, fault, got, ◌>>=◌}
use degoonification.Float.{Float}
use degoonification.Video.{VideoFrame}
use degoonification.Overlay.{Event, dispatch_events}
use degoonification.Ipc.{FloatText}
use degoonification.Ipc.Numbers.{to_string}
use degoonification.Ipc.Server.{IpcServer, process_pending}
use degoonification.Daemon.{Daemon, Clock, show}
use degoonification.Daemon.Commands.{handle_command}

unfoldable pub shield_event : ℕ → Bytes
unfolding to_string
shield_event n = codes "BLUR SHIELD ACTIVE: " ++ to_string n ++ codes " explicit region(s) blocked"

-- `current_frame.data` points into `shared_frame_buf`, and `render_boxes` reads it without the lock: `none`
-- where the AI thread does not publish meanwhile, and else the data that it copies into the buffer.
-- A buffer that it has to resize is gone.
abbrev pub rewritten : Bytes → VideoFrame → Option Bytes → Reads VideoFrame
rewritten data' frame none = got frame
rewritten data' frame (some buf) =
    if ltb (length buf) (length data')
    then fault
    else got (record frame { bytes = some (data' ++ drop (length data') buf) })

abbrev pub seen_frame : Option Bytes → VideoFrame → Reads VideoFrame
seen_frame none frame = got frame
seen_frame (some data') frame = rewritten data' frame frame.bytes

module _ {F : Type 0} ⦃f : Float F⦄ where
  -- 1. A command of the control socket, with the reply that is written.
  unfoldable pub serve :
      FloatText F → IpcServer → Clock → Option Bytes → Daemon F → Reads (Option Bytes × Daemon F)
  unfolding process_pending handle_command
  serve text server clock received d = process_pending (handle_command text clock) server received d

  -- 2. The events of the display.
  unfoldable pub dispatch : List Event → Daemon F → Daemon F
  unfolding dispatch_events
  dispatch events d = record d { overlay = dispatch_events events d.overlay }

  -- A new frame is shown, with the number of its boxes in 32 bits.
  unfoldable pub show_latest : Option Bytes → Daemon F → Reads (Daemon F)
  unfolding show shield_event
  show_latest meanwhile d =
      let n = length d.latest_rendered_boxes % 2 ^ 32 in
      let counted = record d { active_box_count = n } in
      if ltb 0 n
      then (seen_frame meanwhile d.shared_frame >>= λ frame.
          show d.latest_rendered_boxes (some frame) counted >>= λ d'.
          got (record d' { last_event = shield_event n }))
      else show d.latest_rendered_boxes none counted

  unfoldable pub clear_screen : Daemon F → Reads (Daemon F)
  unfolding show
  clear_screen d = show [] none d >>= λ d'. got (record d' { active_box_count = 0 })

  -- 3. The boxes are rendered whenever a new frame is there.
  unfoldable pub present : Option Bytes → Daemon F → Reads (Daemon F)
  unfolding show_latest clear_screen
  present meanwhile d =
      let taken = record d { last_processed_seq = d.raw_frame_seq } in
      if d.raw_frame_seq == d.last_processed_seq
      then got d
      else if not d.visual_blur_paused
      then show_latest meanwhile taken
      else clear_screen taken

  -- A round of the loop, with the reply to a request.
  unfoldable pub main_round :
      FloatText F
      → IpcServer
      → Clock
      → Option Bytes
      → List Event
      → Option Bytes
      → Daemon F
      → Reads (Option Bytes × Daemon F)
  unfolding serve dispatch present
  main_round text server clock received events meanwhile d =
      serve text server clock received d >>= λ r.
      present meanwhile (dispatch events r.1) >>= λ d'. got (r.0, d')

  -- After the loop: the screen is cleared.
  unfoldable pub shut_down : Daemon F → Reads (Daemon F)
  unfolding show
  shut_down d = show [] none d
