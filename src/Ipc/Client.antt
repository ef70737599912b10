-- ===== src/Ipc/Client.antt =====
-- `IpcClient` of platform/linux/cli/ipc_client.cpp. A daemon, in the way that the socket calls show it, is
-- what it does with a message.
use degoonification.Common.{
  ℕ, ◌%◌, ◌^◌, Bool, true, false, ◌||◌, ◌==◌, if◌then◌else◌, Option, none, some, List, [], ◌∷◌,
  ◌++◌, Bytes, codes, bytes_eq, lines_of, starts_with,
}
use degoonification.Common.Int.{pos}
use degoonification.Float.{Float}
use degoonification.Ipc.{DaemonStatus, FloatText}
use degoonification.Ipc.Numbers.{stoull, stoi}
use degoonification.Ipc.Server.{cut_nul, ends_line}

-- What a connection to the socket gives for a message: nothing, since socket, connect or write fails, or
-- the chunks that are read until the end.
abbrev pub Connection : Type 0
Connection = Bytes → Option (List Bytes)

unfoldable pub message : Bytes → Bytes
unfolding ends_line
message command = if ends_line command then command else command ++ b'\n' ∷ []

-- The response: every chunk up to its first NUL.
unfoldable pub response_of : List Bytes → Bytes
unfolding cut_nul
response_of [] = []
response_of (chunk ∷ chunks) = cut_nul chunk ++ response_of chunks

abbrev pub response : Option (List Bytes) → Option Bytes
response none = none
response (some chunks) = some (response_of chunks)

unfoldable pub send_command : Connection → Bytes → Option Bytes
unfolding message response_of
send_command connection command = response (connection (message command))

-- `r->find("OK") != std::string::npos`
unfoldable pub has_ok : Bytes → Bool
unfolding starts_with
has_ok [] = false
has_ok (c ∷ s) = starts_with (codes "OK") (c ∷ s) || has_ok s

unfoldable pub is_ok : Option Bytes → Bool
unfolding has_ok
is_ok none = false
is_ok (some r) = has_ok r

unfoldable pub pause : Connection → Bool
unfolding send_command is_ok
pause connection = is_ok (send_command connection (codes "PAUSE"))

unfoldable pub resume : Connection → Bool
unfolding send_command is_ok
resume connection = is_ok (send_command connection (codes "RESUME"))

unfoldable pub stop_daemon : Connection → Bool
unfolding send_command is_ok
stop_daemon connection = is_ok (send_command connection (codes "STOP"))

unfoldable pub log_relapse : Connection → Bytes → Bool
unfolding send_command is_ok
log_relapse connection reason = is_ok (send_command connection (codes "RELAPSE " ++ reason))

-- `std::to_string` of a float is `to_text`.
unfoldable pub set_padding : {F : Type 0} → FloatText F → Connection → F → Bool
unfolding send_command is_ok
set_padding text connection ratio =
    is_ok (send_command connection (codes "SET_PADDING " ++ text.to_text ratio))

-- The text before the first `=` and the text behind it, where there is one.
abbrev cons_key : ℕ → Option (Bytes × Bytes) → Option (Bytes × Bytes)
cons_key c none = none
cons_key c (some (k, v)) = some (c ∷ k, v)

unfoldable pub split_field : Bytes → Option (Bytes × Bytes)
split_field [] = none
split_field (c ∷ s) =
    let rest = split_field s in if c == b'=' then some ([], s) else cons_key c rest

abbrev pub assign : {A B : Type 0} → Option A → (A → B) → Option B
assign none f = none
assign (some a) f = some (f a)

module _ {F : Type 0} ⦃f : Float F⦄ where
  -- A fresh `DaemonStatus`, running.
  abbrev pub fresh_status : DaemonStatus F
  fresh_status = record {
    running = true;
    visual_blur_paused = false;
    active_boxes = 0;
    fps = 15;
    padding_ratio = f.decimal 15 2;
    uptime_seconds = 0;
    total_frames = 0;
    dns_total = 0;
    dns_blocked = 0;
    dns_forwarded = 0;
    streak_days = pos 0;
    streak_hours = pos 0;
    streak_minutes = pos 0;
    active_model = codes "yolov8n-nsfw";
    current_milestone = codes "First Step";
    milestone_progress = f.zero;
    last_event = codes "Daemon initialized";
  }

module _ {F : Type 0} (text : FloatText F) where
  -- The chain of tests on a line's key. A number of 64 bits is cut to the field's 32.
  unfoldable pub set_field : Bytes → Bytes → DaemonStatus F → Option (DaemonStatus F)
  unfolding bytes_eq stoull stoi
  set_field k v s =
      if bytes_eq k (codes "paused")
      then some
          (record s { visual_blur_paused = bytes_eq v (codes "1") || bytes_eq v (codes "true") })
      else if bytes_eq k (codes "active_boxes")
      then assign (stoull v) (λ n. record s { active_boxes = n % 2 ^ 32 })
      else if bytes_eq k (codes "fps")
      then assign (stoull v) (λ n. record s { fps = n % 2 ^ 32 })
      else if bytes_eq k (codes "padding_ratio")
      then assign (text.stof v) (λ p. record s { padding_ratio = p })
      else if bytes_eq k (codes "uptime")
      then assign (stoull v) (λ n. record s { uptime_seconds = n })
      else if bytes_eq k (codes "total_frames")
      then assign (stoull v) (λ n. record s { total_frames = n })
      else if bytes_eq k (codes "dns_total")
      then assign (stoull v) (λ n. record s { dns_total = n })
      else if bytes_eq k (codes "dns_blocked")
      then assign (stoull v) (λ n. record s { dns_blocked = n })
      else if bytes_eq k (codes "dns_forwarded")
      then assign (stoull v) (λ n. record s { dns_forwarded = n })
      else if bytes_eq k (codes "streak_days")
      then assign (stoi v) (λ n. record s { streak_days = n })
      else if bytes_eq k (codes "streak_hours")
      then assign (stoi v) (λ n. record s { streak_hours = n })
      else if bytes_eq k (codes "streak_minutes")
      then assign (stoi v) (λ n. record s { streak_minutes = n })
      else if bytes_eq k (codes "model")
      then some (record s { active_model = v })
      else if bytes_eq k (codes "milestone")
      then some (record s { current_milestone = v })
      else if bytes_eq k (codes "progress")
      then assign (text.stof v) (λ p. record s { milestone_progress = p })
      else if bytes_eq k (codes "last_event")
      then some (record s { last_event = v })
      else some s

  abbrev pub parse_split : Option (Bytes × Bytes) → DaemonStatus F → Option (DaemonStatus F)
  parse_split none s = some s
  parse_split (some (k, v)) s = set_field k v s

  -- A line; one without `=` is skipped.
  unfoldable pub parse_line : Bytes → DaemonStatus F → Option (DaemonStatus F)
  unfolding split_field set_field
  parse_line line s = parse_split (split_field line) s

  unfoldable pub then_line : Bytes → Option (DaemonStatus F) → Option (DaemonStatus F)
  unfolding parse_line
  then_line line none = none
  then_line line (some s) = parse_line line s

  -- The lines in their order, after a status; `none` is an exception.
  unfoldable pub parse_lines : List Bytes → Option (DaemonStatus F) → Option (DaemonStatus F)
  unfolding then_line
  parse_lines [] s = s
  parse_lines (line ∷ lines) s = parse_lines lines (then_line line s)

  unfoldable pub parse_status : ⦃f : Float F⦄ → Bytes → Option (DaemonStatus F)
  unfolding lines_of parse_lines
  parse_status raw = parse_lines (lines_of [] raw) (some fresh_status)

  -- `get_status`: nothing from the socket, an exception, or a status.
  pub data Status : Type 0 where
    offline : Status
    thrown : Status
    online : DaemonStatus F → Status

  abbrev pub status_of : Option (DaemonStatus F) → Status
  status_of none = thrown
  status_of (some s) = online s

  unfoldable pub status_from : ⦃f : Float F⦄ → Option Bytes → Status
  unfolding parse_status
  status_from none = offline
  status_from (some resp) = status_of (parse_status resp)

  unfoldable pub get_status : ⦃f : Float F⦄ → Connection → Status
  unfolding send_command status_from
  get_status connection = status_from (send_command connection (codes "STATUS"))
