-- ===== src/Ipc/Status.antt =====
-- The daemon's answer to STATUS, as the client reads it.
use degoonification.Common.{
  ℕ, ◌%◌, ◌^◌, ◌<◌, ◌≡◌, ◌≢◌, refl, ap, sym, ◌∙◌, Bool, true, false, ◌||◌, ◌==◌, if◌then◌else◌,
  Option, none, some, List, [], ◌∷◌, ◌++◌, All, Bytes, codes, lines_of, arith, bytes_eq, append-nil,
  append_assoc, any,
}
use degoonification.Float.{Float}
use degoonification.Ipc.{DaemonStatus, FloatText}
use degoonification.Ipc.Numbers.{
  to_string, int_to_string, IsInt, IsLine, stoull-to_string, stoi-int_to_string, to_string-IsLine,
  int_to_string-IsLine,
}
use degoonification.Ipc.Client.{
  split_field, set_field, parse_line, parse_lines, then_line, fresh_status, parse_status,
}

abbrev pub field : Bytes → Bytes → Bytes
field k v = k ++ b'=' ∷ v

-- A text of lines `key=value`.
abbrev pub text_of : List (Bytes × Bytes) → Bytes
text_of [] = []
text_of ((k, v) ∷ fields) = field k v ++ b'\n' ∷ text_of fields

-- A key has no `=`, and the line is one.
abbrev pub IsField : Bytes × Bytes → Type 0
IsField (k, v) = All (λ c. (c == b'=') ≡ false) k × IsLine (field k v)

lines_of-line :
    (pre line rest : Bytes)
    → IsLine line
    → lines_of pre (line ++ b'\n' ∷ rest) ≡ (pre ++ line) ∷ lines_of [] rest
unfolding lines_of
lines_of-line pre [] rest h = ap (λ l. l ∷ lines_of [] rest) (sym (append-nil pre))
lines_of-line pre (c ∷ line) rest (h, hs) = rw (not_newline c h) (
    lines_of-line (pre ++ c ∷ []) line rest hs
    ∙ ap (λ l. l ∷ lines_of [] rest) (append_assoc pre (c ∷ []) line))
  where
    not_newline : (c : ℕ) → c ≢ b'\n' → (c == b'\n') ≡ false
    not_newline c h = ground (arith, h)

split_field-key :
    (k v : Bytes) → All (λ c. (c == b'=') ≡ false) k → split_field (field k v) ≡ some (k, v)
unfolding split_field
split_field-key [] v h = refl
split_field-key (c ∷ k) v (h, hs) = rw h (rw (split_field-key k v hs) refl)

module _ {F : Type 0} (text : FloatText F) where
  abbrev pub then_set : Bytes → Bytes → Option (DaemonStatus F) → Option (DaemonStatus F)
  then_set k v none = none
  then_set k v (some s) = set_field text k v s

  abbrev pub set_fields : List (Bytes × Bytes) → Option (DaemonStatus F) → Option (DaemonStatus F)
  set_fields [] s = s
  set_fields ((k, v) ∷ fields) s = set_fields fields (then_set k v s)

  then_line-field :
      (k v : Bytes) (s : Option (DaemonStatus F))
      → All (λ c. (c == b'=') ≡ false) k
      → then_line text (field k v) s ≡ then_set k v s
  unfolding parse_line then_line
  then_line-field k v none h = refl
  then_line-field k v (some s) h = rw (split_field-key k v h) refl

  -- A text of fields sets the fields.
  pub parse_lines-fields :
      (fields : List (Bytes × Bytes)) (rest : Bytes) (s : Option (DaemonStatus F))
      → All IsField fields
      → parse_lines text (lines_of [] (text_of fields ++ rest)) s
        ≡ parse_lines text (lines_of [] rest) (set_fields fields s)
  unfolding parse_lines
  parse_lines-fields [] rest s h = refl
  parse_lines-fields ((k, v) ∷ fields) rest s ((h, line), hs) =
      rw (append_assoc (field k v) (b'\n' ∷ text_of fields) rest) (
        rw (lines_of-line [] (field k v) (text_of fields ++ rest) line) (
          ap (λ t. parse_lines text (lines_of [] (text_of fields ++ rest)) t)
            (then_line-field k v s h)
          ∙ parse_lines-fields fields rest (then_set k v s) hs))

-- What the daemon writes for STATUS, from the values of a status.
module _ {F : Type 0} (text : FloatText F) where
  abbrev pub status_fields : DaemonStatus F → List (Bytes × Bytes)
  status_fields r =
      (codes "paused", if r.visual_blur_paused then codes "1" else codes "0")
      ∷ (codes "active_boxes", to_string r.active_boxes)
      ∷ (codes "fps", to_string r.fps)
      ∷ (codes "padding_ratio", text.show r.padding_ratio)
      ∷ (codes "uptime", to_string r.uptime_seconds)
      ∷ (codes "total_frames", to_string r.total_frames)
      ∷ (codes "dns_total", to_string r.dns_total)
      ∷ (codes "dns_blocked", to_string r.dns_blocked)
      ∷ (codes "dns_forwarded", to_string r.dns_forwarded)
      ∷ (codes "streak_days", int_to_string r.streak_days)
      ∷ (codes "streak_hours", int_to_string r.streak_hours)
      ∷ (codes "streak_minutes", int_to_string r.streak_minutes)
      ∷ (codes "model", r.active_model)
      ∷ (codes "milestone", codes "Dopamine Reset")
      ∷ (codes "progress", codes "0.45")
      ∷ (codes "last_event", r.last_event)
      ∷ []

  unfoldable pub status_text : DaemonStatus F → Bytes
  status_text r = text_of (status_fields r)

  -- The values of a status are in the range of their types, and their texts are lines that are read
  -- back.
  pub record IsReportable (r : DaemonStatus F) (progress : F) : Type 0 where
    pub boxes_fit : r.active_boxes < 2 ^ 32
    pub fps_fits : r.fps < 2 ^ 32
    pub uptime_fits : r.uptime_seconds < 2 ^ 64
    pub frames_fit : r.total_frames < 2 ^ 64
    pub total_fits : r.dns_total < 2 ^ 64
    pub blocked_fits : r.dns_blocked < 2 ^ 64
    pub forwarded_fits : r.dns_forwarded < 2 ^ 64
    pub days_fit : IsInt r.streak_days
    pub hours_fit : IsInt r.streak_hours
    pub minutes_fit : IsInt r.streak_minutes
    pub padding_back : text.stof (text.show r.padding_ratio) ≡ some r.padding_ratio
    pub padding_line : IsLine (text.show r.padding_ratio)
    pub progress_back : text.stof (codes "0.45") ≡ some progress
    pub model_line : IsLine r.active_model
    pub event_line : IsLine r.last_event

  abbrev pub reported : DaemonStatus F → F → DaemonStatus F
  reported r progress = record r {
    running = true;
    current_milestone = codes "Dopamine Reset";
    milestone_progress = progress;
  }

  small : (n : ℕ) → n < 2 ^ 32 → n % 2 ^ 32 ≡ n
  small n h = omega arith

  paused_back :
      (b : Bool)
      → (bytes_eq (if b then codes "1" else codes "0") (codes "1")
          || bytes_eq (if b then codes "1" else codes "0") (codes "true"))
        ≡ b
  unfolding bytes_eq
  paused_back true = refl
  paused_back false = refl

  pub set_fields-status :
      ⦃f : Float F⦄ (r : DaemonStatus F) (progress : F)
      → IsReportable r progress
      → set_fields text (status_fields r) (some fresh_status) ≡ some (reported r progress)
  unfolding set_field bytes_eq
  set_fields-status r progress h = rw (paused_back r.visual_blur_paused) (
      rw (stoull-to_string r.active_boxes (omega (arith, h.boxes_fit))) (
        rw (stoull-to_string r.fps (omega (arith, h.fps_fits))) (
          rw h.padding_back (
            rw (stoull-to_string r.uptime_seconds h.uptime_fits) (
              rw (stoull-to_string r.total_frames h.frames_fit) (
                rw (stoull-to_string r.dns_total h.total_fits) (
                  rw (stoull-to_string r.dns_blocked h.blocked_fits) (
                    rw (stoull-to_string r.dns_forwarded h.forwarded_fits) (
                      rw (stoi-int_to_string r.streak_days h.days_fit) (
                        rw (stoi-int_to_string r.streak_hours h.hours_fit) (
                          rw (stoi-int_to_string r.streak_minutes h.minutes_fit) (
                            rw h.progress_back (
                              rw (small r.active_boxes h.boxes_fit)
                                (rw (small r.fps h.fps_fits) refl))))))))))))))

  key : (s : Bytes) → Bool
  key s = any (λ c. c == b'=' || c == b'\n') s

  line_of : (k v : Bytes) → key k ≡ false → IsLine v → IsField (k, v)
  unfolding key
  line_of [] v h line = (tt, (omega arith, line))
  line_of (c ∷ k) v h line =
      let (rest, whole) = line_of k v (ground (arith, h)) line in
      ((ground (arith, h), rest), (ground (arith, h), whole))

  paused-IsLine : (b : Bool) → IsLine (if b then codes "1" else codes "0")
  paused-IsLine true = (omega arith, tt)
  paused-IsLine false = (omega arith, tt)

  pub status_fields-IsField :
      (r : DaemonStatus F) (progress : F) → IsReportable r progress → All IsField (status_fields r)
  unfolding key
  status_fields-IsField r progress h = (
    line_of (codes "paused") (if r.visual_blur_paused then codes "1" else codes "0") refl
        (paused-IsLine r.visual_blur_paused),
    (
      line_of (codes "active_boxes") (to_string r.active_boxes) refl
          (to_string-IsLine r.active_boxes),
      (
        line_of (codes "fps") (to_string r.fps) refl (to_string-IsLine r.fps),
        (
          line_of (codes "padding_ratio") (text.show r.padding_ratio) refl h.padding_line,
          (
            line_of (codes "uptime") (to_string r.uptime_seconds) refl
                (to_string-IsLine r.uptime_seconds),
            (
              line_of (codes "total_frames") (to_string r.total_frames) refl
                  (to_string-IsLine r.total_frames),
              (
                line_of (codes "dns_total") (to_string r.dns_total) refl
                    (to_string-IsLine r.dns_total),
                (
                  line_of (codes "dns_blocked") (to_string r.dns_blocked) refl
                      (to_string-IsLine r.dns_blocked),
                  (
                    line_of (codes "dns_forwarded") (to_string r.dns_forwarded) refl
                        (to_string-IsLine r.dns_forwarded),
                    (
                      line_of (codes "streak_days") (int_to_string r.streak_days) refl
                          (int_to_string-IsLine r.streak_days),
                      (
                        line_of (codes "streak_hours") (int_to_string r.streak_hours) refl
                            (int_to_string-IsLine r.streak_hours),
                        (
                          line_of (codes "streak_minutes") (int_to_string r.streak_minutes) refl
                              (int_to_string-IsLine r.streak_minutes),
                          (
                            line_of (codes "model") r.active_model refl h.model_line,
                            (
                              line_of (codes "milestone") (codes "Dopamine Reset") refl
                                  (omega arith),
                              (
                                line_of (codes "progress") (codes "0.45") refl (omega arith),
                                (line_of (codes "last_event") r.last_event refl h.event_line, tt),
                              ),
                            ),
                          ),
                        ),
                      ),
                    ),
                  ),
                ),
              ),
            ),
          ),
        ),
      ),
    ),
  )

  -- The client reads from the daemon's answer to STATUS exactly the values that the daemon wrote, with
  -- the milestone and the progress that the daemon always gives: if the numbers are in the range of
  -- their types, the padding and 0.45 are read back from their texts, and the padding's text, the model
  -- and the last event are one line each.
  pub parse_status-status_text :
      ⦃f : Float F⦄ (r : DaemonStatus F) (progress : F)
      → IsReportable r progress
      → parse_status text (status_text r) ≡ some (reported r progress)
  unfolding parse_status status_text lines_of parse_lines
  parse_status-status_text r progress h =
      ap (λ t. parse_lines text (lines_of [] t) (some fresh_status))
        (sym (append-nil (text_of (status_fields r))))
      ∙ parse_lines-fields text (status_fields r) [] (some fresh_status)
          (status_fields-IsField r progress h)
      ∙ set_fields-status r progress h
