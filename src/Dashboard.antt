-- ===== src/Dashboard.antt =====
-- `TuiDashboard` of platform/linux/cli/tui_dashboard.cpp: the times that it prints, the progress bar, and
-- the loop over the keys. What poll and read give is an argument; the text of the screen is left out.
pub mod Keys
use degoonification.Common.{
  ℕ, ◌-◌, ◌/◌, ◌%◌, Bool, true, false, ◌||◌, ◌==◌, ltb, if◌then◌else◌, Option, none, some, List, [],
  ◌∷◌, ◌++◌, Bytes, codes, replicate,
}
use degoonification.Common.Int.{clamp_ℤ}
use degoonification.Float.{Float, fmin, fmax}
use degoonification.Ipc.{DaemonStatus}
use degoonification.Ipc.Numbers.{to_string}

-- A span of time: the days where there are some, the hours where these or the days are there.
unfoldable pub time_text : ℕ → ℕ → ℕ → ℕ → Bytes
unfolding to_string
time_text d h m s =
    (if ltb 0 d then to_string d ++ codes "d " else [])
    ++ (if ltb 0 h || ltb 0 d then to_string h ++ codes "h " else [])
    ++ to_string m
    ++ codes "m "
    ++ to_string s
    ++ codes "s"

-- `format_time`
unfoldable pub format_time : ℕ → Bytes
unfolding time_text
format_time seconds =
    time_text (seconds / 86400) (seconds % 86400 / 3600) (seconds % 3600 / 60) (seconds % 60)

-- A cell of the progress bar.
pub data Cell : Type 0 where
  full empty : Cell

-- What the dashboard asks the daemon for.
pub data Request (F : Type 0) : Type 0 where
  pause resume log_relapse : Request F
  set_padding : F → Request F

-- The keys that end the loop: q, Q and ESC.
abbrev pub is_quit : ℕ → Bool
is_quit c = c == b'q' || c == b'Q' || c == 27

module _ {F : Type 0} ⦃f : Float F⦄ where
  unfoldable pub progress_bar : F → List Cell
  unfolding clamp_ℤ
  progress_bar milestone_progress =
      let filled = clamp_ℤ (f.to_int (f.mul milestone_progress (f.decimal 24 0))) 0 24 in
      replicate filled Cell.full ++ replicate (24 - filled) Cell.empty

  -- The padding behind `+` and `-`.
  abbrev pub wider : F → F
  wider p = fmin (f.decimal 35 2) (f.add p (f.decimal 5 2))

  abbrev pub narrower : F → F
  narrower p = fmax (f.decimal 5 2) (f.sub p (f.decimal 5 2))

  -- A request that needs the daemon's status.
  abbrev pub with_status :
      Option (DaemonStatus F) → (DaemonStatus F → Request F) → Option (Request F)
  with_status none g = none
  with_status (some s) g = some (g s)

  -- A key: whether the loop goes on, and the request.
  unfoldable pub handle_key : Option (DaemonStatus F) → ℕ → Bool × Option (Request F)
  handle_key status c =
      if c == b'q' || c == b'Q' || c == 27
      then (false, none)
      else if c == b'p' || c == b'P'
      then (
        true,
        with_status status (λ s. if s.visual_blur_paused then Request.resume else Request.pause),
      )
      else if c == b'+' || c == b'='
      then (true, with_status status (λ s. Request.set_padding (wider s.padding_ratio)))
      else if c == b'-' || c == b'_'
      then (true, with_status status (λ s. Request.set_padding (narrower s.padding_ratio)))
      else if c == b'r' || c == b'R'
      then (true, some Request.log_relapse)
      else (true, none)

  abbrev cons_request : Option (Request F) → List (Request F) → List (Request F)
  cons_request none rest = rest
  cons_request (some r) rest = r ∷ rest

  -- A round has the status and the key, where one is read.
  abbrev key_in : Option (DaemonStatus F) → Option ℕ → Bool × Option (Request F)
  unfolding handle_key
  key_in status none = (true, none)
  key_in status (some c) = handle_key status c

  -- The requests of the loop over rounds, and whether it has ended.
  unfoldable pub run : List (Option (DaemonStatus F) × Option ℕ) → Bool × List (Request F)
  unfolding key_in
  run [] = (false, [])
  run ((status, key) ∷ rounds) =
      let rest = run rounds in
      let r = key_in status key in
      if r.0 then (rest.0, cons_request r.1 rest.1) else (true, cons_request r.1 [])
