-- ===== src/Ipc/Requests.antt =====
-- What the server makes of the client's messages, and the client of the server's replies.
use degoonification.Common.{
  ℕ, ◌≡◌, ◌≢◌, refl, ap, Bool, false, ◌==◌, if◌then◌else◌, [], ◌∷◌, ◌++◌, All, Bytes, is_empty,
  take_short, length, ◌≤◌, arith,
}
use degoonification.Ipc.Server.{cut_nul, ends_line, is_end, trim_end, split_command, parse_request}
use degoonification.Ipc.Client.{message}

-- A text without a NUL, and one that does not end in a blank.
abbrev pub HasNoNul : Bytes → Type 0
HasNoNul s = All (λ c. c ≢ 0) s

abbrev pub ends_blank : Bytes → Bool
ends_blank [] = false
ends_blank (c ∷ s) = if is_empty s then is_end c else ends_blank s

is_zero : (c : ℕ) → c ≢ 0 → (c == 0) ≡ false
is_zero c h = ground (arith, h)

pub cut_nul-append : (s t : Bytes) → HasNoNul s → cut_nul (s ++ t) ≡ s ++ cut_nul t
unfolding cut_nul
cut_nul-append [] t h = refl
cut_nul-append (c ∷ s) t (h, hs) = rw (is_zero c h) (ap (λ l. c ∷ l) (cut_nul-append s t hs))

is_empty-append : (s : Bytes) (c : ℕ) (t : Bytes) → is_empty (s ++ c ∷ t) ≡ false
is_empty-append [] c t = refl
is_empty-append (d ∷ s) c t = refl

-- Only the newline that the client adds is trimmed.
trim_end-newline : (s : Bytes) → ends_blank s ≡ false → trim_end (s ++ b'\n' ∷ []) ≡ s
unfolding trim_end
trim_end-newline [] h = refl
trim_end-newline (c ∷ []) h = rw h refl
trim_end-newline (c ∷ d ∷ s) h = rw (trim_end-newline (d ∷ s) h) refl

abbrev pub HasNoSpace : Bytes → Type 0
HasNoSpace s = All (λ c. (c == b' ') ≡ false) s

split_command-space :
    (cmd args : Bytes) → HasNoSpace cmd → split_command (cmd ++ b' ' ∷ args) ≡ (cmd, args)
unfolding split_command
split_command-space [] args h = refl
split_command-space (c ∷ cmd) args (h, hs) =
    rw h (ap (λ r. (c ∷ r.0, r.1)) (split_command-space cmd args hs))

not_line : (s : Bytes) → ends_blank s ≡ false → ends_line s ≡ false
unfolding ends_line
not_line [] h = refl
not_line (c ∷ []) h = ground (arith, h)
not_line (c ∷ d ∷ s) h = not_line (d ∷ s) h

-- The client's message for a command without NULs that does not end in a blank is the command for the
-- server.
sent : (s : Bytes) → HasNoNul s → ends_blank s ≡ false → trim_end (cut_nul (message s)) ≡ s
unfolding message cut_nul
sent s h k = rw (not_line s k) (rw (cut_nul-append s (b'\n' ∷ []) h) (trim_end-newline s k))

-- The server splits the message that the client sends for a command word, a space and arguments
-- into the word and the arguments, if the word has no space, the whole has no NUL and does not end
-- in a space, a newline or a carriage return, and the message has at most 2047 bytes.
pub parse_request-message :
    (cmd args : Bytes)
    → HasNoSpace cmd
    → HasNoNul (cmd ++ b' ' ∷ args)
    → ends_blank (cmd ++ b' ' ∷ args) ≡ false
    → length (message (cmd ++ b' ' ∷ args)) ≤ 2047
    → parse_request (message (cmd ++ b' ' ∷ args)) ≡ (cmd, args)
unfolding parse_request
parse_request-message cmd args h k e small =
    rw (take_short 2047 (message (cmd ++ b' ' ∷ args)) small, sent (cmd ++ b' ' ∷ args) k e)
      (split_command-space cmd args h)
