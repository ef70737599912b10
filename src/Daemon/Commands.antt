-- ===== src/Daemon/Commands.antt =====
-- The commands of the control socket, as `main` of platform/linux/main.cpp handles them.
use degoonification.Common.{
  true, false, if◌then◌else◌, Option, none, some, [], ◌++◌, Bytes, codes, bytes_eq,
}
use degoonification.Common.Reads.{Reads, got, ◌>>=◌}
use degoonification.Float.{Float}
use degoonification.Anchors.{reset, set_config}
use degoonification.Ipc.{FloatText}
use degoonification.Ipc.Numbers.{int_to_string}
use degoonification.Ipc.Status.{status_text}
use degoonification.Daemon.{Daemon, Clock, tracker_config, show, status_values}

abbrev pub ok : Bytes
ok = codes "OK\n"

module _ {F : Type 0} ⦃f : Float F⦄ where
  -- PAUSE: the tracker is reset, and the overlay cleared.
  unfoldable pub pause : Daemon F → Reads (Bytes × Daemon F)
  unfolding show reset
  pause d =
      show [] none (record d { visual_blur_paused = true; tracker = reset d.tracker }) >>= λ d'.
      got (ok, record d' { last_event = codes "Visual blur temporarily paused via CLI" })

  unfoldable pub resume : Daemon F → Daemon F
  resume d = record d {
    visual_blur_paused = false;
    last_event = codes "Visual blur resumed via CLI";
  }

  -- SET_PADDING; an exception of `std::stof` changes nothing.
  unfoldable pub padded : Option F → Daemon F → Daemon F
  unfolding set_config int_to_string
  padded none d = d
  padded (some p) d = record d {
    padding_ratio = p;
    tracker = set_config (tracker_config p) d.tracker;
    last_event =
        codes "Padding ratio adjusted to +"
        ++ int_to_string (f.to_int (f.mul p (f.decimal 100 0)))
        ++ codes "%";
  }

  unfoldable pub relapse : Clock → Bytes → Daemon F → Daemon F
  relapse clock args d = record d {
    streak_start = clock.system_s;
    last_event = codes "Relapse logged: " ++ args;
  }

  unfoldable pub stop : Daemon F → Daemon F
  stop d = record d { running = false; last_event = codes "Daemon stop requested via CLI" }

module _ {F : Type 0} ⦃f : Float F⦄ (text : FloatText F) where
  unfoldable pub set_padding : Bytes → Daemon F → Daemon F
  unfolding padded
  set_padding args d = padded (text.stof args) d

  unfoldable pub handle_command : Clock → Bytes × Bytes → Daemon F → Reads (Bytes × Daemon F)
  unfolding bytes_eq status_text pause resume set_padding relapse stop
  handle_command clock (cmd, args) d =
      if bytes_eq cmd (codes "STATUS")
      then got (status_text text (status_values clock d), d)
      else if bytes_eq cmd (codes "PAUSE")
      then pause d
      else if bytes_eq cmd (codes "RESUME")
      then got (ok, resume d)
      else if bytes_eq cmd (codes "SET_PADDING")
      then got (ok, set_padding args d)
      else if bytes_eq cmd (codes "RELAPSE")
      then got (ok, relapse clock args d)
      else if bytes_eq cmd (codes "STOP")
      then got (ok, stop d)
      else got (codes "UNKNOWN_COMMAND\n", d)
