-- ===== src/Ipc/Server.antt =====
-- `IpcServer` of platform/linux/ipc/ipc_server.cpp. What poll, accept and the socket give is the
-- bytes that the client wrote, or `none`; a handler is a function on the
-- state that it captures, and may end in an access out of bounds.
use degoonification.Common.{
  ℕ, Bool, false, ◌&&◌, ◌||◌, ◌==◌, if◌then◌else◌, Option, none, some, [], ◌∷◌, ◌++◌, Bytes, codes,
  is_empty, take,
}
use degoonification.Common.Reads.{Reads, got, ◌>>=◌}
use degoonification.Ipc.{get_socket_path}

pub record IpcServer : Type 0 where
  pub socket_path : Bytes
  pub is_listening : Bool

unfoldable pub new_server : Bytes → Option Bytes → ℕ → IpcServer
unfolding get_socket_path
new_server socket_path xdg_runtime uid = record {
  socket_path = if is_empty socket_path then get_socket_path xdg_runtime uid else socket_path;
  is_listening = false;
}

-- Whether socket, bind and listen succeed.
unfoldable pub init : Bool → Bool → Bool → IpcServer → Bool × IpcServer
init has_socket is_bound listens s =
    let all = has_socket && is_bound && listens in (all, record s { is_listening = all })

unfoldable pub stop : IpcServer → IpcServer
stop s = if s.is_listening then record s { is_listening = false } else s

-- The buffer's text as a C string ends before the first NUL.
unfoldable pub cut_nul : Bytes → Bytes
cut_nul [] = []
cut_nul (c ∷ s) = let rest = cut_nul s in if c == 0 then [] else c ∷ rest

abbrev pub is_end : ℕ → Bool
is_end c = c == b'\n' || c == 13 || c == b' '

unfoldable pub trim_end : Bytes → Bytes
trim_end [] = []
trim_end (c ∷ s) = let rest = trim_end s in if is_empty rest && is_end c then [] else c ∷ rest

-- The text before the first space, and the text behind it.
unfoldable pub split_command : Bytes → Bytes × Bytes
split_command [] = ([], [])
split_command (c ∷ s) =
    let rest = split_command s in if c == b' ' then ([], s) else (c ∷ rest.0, rest.1)

-- At most 2047 of the bytes that the client wrote are read.
unfoldable pub parse_request : Bytes → Bytes × Bytes
unfolding cut_nul trim_end split_command
parse_request bytes = split_command (trim_end (cut_nul (take 2047 bytes)))

unfoldable pub ends_line : Bytes → Bool
ends_line [] = false
ends_line (c ∷ s) = if is_empty s then c == b'\n' else ends_line s

unfoldable pub end_line : Bytes → Bytes
unfolding ends_line
end_line resp =
    if is_empty resp then codes "OK\n" else if ends_line resp then resp else resp ++ b'\n' ∷ []

-- With the reply that is written, if there is a request.
unfoldable pub answer :
    {S : Type 0}
    → (Bytes × Bytes → S → Reads (Bytes × S))
    → Option Bytes
    → S
    → Reads (Option Bytes × S)
unfolding parse_request end_line
answer handler none st = got (none, st)
answer handler (some bytes) st =
    if is_empty bytes
    then got (none, st)
    else (handler (parse_request bytes) st >>= λ r. got (some (end_line r.0), r.1))

unfoldable pub process_pending :
    {S : Type 0}
    → (Bytes × Bytes → S → Reads (Bytes × S))
    → IpcServer
    → Option Bytes
    → S
    → Reads (Option Bytes × S)
unfolding answer
process_pending handler s received st =
    if s.is_listening then answer handler received st else got (none, st)
