-- ===== src/Ipc.antt =====
-- The control socket: platform/linux/ipc and platform/linux/cli/ipc_client.cpp. Texts are lists of bytes.
-- What the socket calls give is an argument.
pub mod Numbers
pub mod Server
pub mod Client
pub mod Requests
pub mod Status
pub mod Forgery
use degoonification.Common.{
  ℕ, Bool, Option, none, some, Bytes, codes, ◌++◌, is_empty, if◌then◌else◌,
}
use degoonification.Common.Int.{ℤ}
use degoonification.Ipc.Numbers.{to_string}

-- `std::stof`, and how a stream writes a float. `none` is an exception.
pub record FloatText (F : Type 0) : Type 0 where
  pub stof : Bytes → Option F
  pub show : F → Bytes
  pub to_text : F → Bytes

pub record DaemonStatus (F : Type 0) : Type 0 where
  pub running : Bool
  pub visual_blur_paused : Bool
  pub active_boxes : ℕ
  pub fps : ℕ
  pub padding_ratio : F
  pub uptime_seconds : ℕ
  pub total_frames : ℕ
  pub dns_total : ℕ
  pub dns_blocked : ℕ
  pub dns_forwarded : ℕ
  pub streak_days : ℤ
  pub streak_hours : ℤ
  pub streak_minutes : ℤ
  pub active_model : Bytes
  pub current_milestone : Bytes
  pub milestone_progress : F
  pub last_event : Bytes

abbrev socket_in : Option Bytes → ℕ → Bytes
socket_in none uid = codes "/tmp/degoon_" ++ to_string uid ++ codes ".sock"
socket_in (some dir) uid =
    if is_empty dir
    then codes "/tmp/degoon_" ++ to_string uid ++ codes ".sock"
    else dir ++ codes "/degoon.sock"

-- From `XDG_RUNTIME_DIR`, where it is set, and the user's number.
unfoldable pub get_socket_path : Option Bytes → ℕ → Bytes
get_socket_path xdg_runtime uid = socket_in xdg_runtime uid
