-- ===== src/Daemon/Runs.antt =====
-- Runs of the daemon: its steps as a function on inputs, and that no run accesses memory out of bounds.
use degoonification.Common.{ℕ, ◌≡◌, Option, none, List, [], ◌∷◌, All, Bytes}
use degoonification.Common.Reads.{Reads, got, ◌>>=◌}
use degoonification.Float.{Float}
use degoonification.Video.{VideoFrame}
use degoonification.Overlay.{Event}
use degoonification.Ipc.{FloatText}
use degoonification.Daemon.{Daemon, Clock}
use degoonification.Daemon.Commands.{handle_command}
use degoonification.Daemon.Worker.{Model, begin_round, track, publish}
use degoonification.Daemon.Loop.{dispatch, present}
use degoonification.Daemon.Main.{IsSteady}
use degoonification.Daemon.Rounds.{IsTaken}

-- What drives a step.
pub data Input : Type 0 where
  begins : Option VideoFrame → ℕ → Input
  follows : Input
  publishes : Input
  command : Clock → Bytes × Bytes → Input
  events : List Event → Input
  presents : Option Bytes → Input

-- The captured frames have all their rows, the events keep the surface's size, and the AI thread publishes
-- nothing while the overlay reads the shared frame.
abbrev pub IsProper : ℕ → ℕ → Input → Type 0
IsProper w h (Input.begins captured now) = IsTaken captured
IsProper w h Input.follows = Unit {0}
IsProper w h Input.publishes = Unit {0}
IsProper w h (Input.command clock request) = Unit {0}
IsProper w h (Input.events es) = All (IsSteady w h) es
IsProper w h (Input.presents meanwhile) = meanwhile ≡ none

module _ {F : Type 0} ⦃f : Float F⦄ (text : FloatText F) (model : Model F) where
  unfoldable pub perform : Input → Daemon F → Reads (Daemon F)
  unfolding begin_round track publish handle_command dispatch present
  perform (Input.begins captured now) d = begin_round model captured now d
  perform Input.follows d = track d
  perform Input.publishes d = publish d
  perform (Input.command clock request) d = handle_command text clock request d >>= λ r. got r.1
  perform (Input.events es) d = got (dispatch es d)
  perform (Input.presents meanwhile) d = present meanwhile d

  unfoldable pub run : List Input → Daemon F → Reads (Daemon F)
  unfolding perform
  run [] d = got d
  run (input ∷ inputs) d = perform input d >>= run inputs
