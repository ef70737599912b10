-- ===== src/Ipc/Forgery.antt =====
-- A last event of two lines: `last_event` of platform/linux/main.cpp holds what a client logs.
use degoonification.Common.{
  take, ◌≡◌, ap, sym, ◌∙◌, some, List, [], ◌∷◌, ◌++◌, Bytes, codes, lines_of, append-nil,
  append_assoc,
}
use degoonification.Float.{Float}
use degoonification.Ipc.{DaemonStatus, FloatText}
use degoonification.Ipc.Client.{set_field, parse_lines, fresh_status, parse_status}
use degoonification.Ipc.Status.{
  field, text_of, IsField, parse_lines-fields, status_fields, status_text, IsReportable, reported,
  status_fields-IsField, set_fields-status,
}

-- A value of two lines is a field and a line of its own behind it.
text_of-two_lines :
    (fields : List (Bytes × Bytes)) (name e l : Bytes)
    → text_of (fields ++ (name, e ++ b'\n' ∷ l) ∷ [])
      ≡ text_of (fields ++ (name, e) ∷ []) ++ (l ++ b'\n' ∷ [])
text_of-two_lines [] name e l =
    ap (λ t. t ++ b'\n' ∷ []) (sym (append_assoc name (b'=' ∷ e) (b'\n' ∷ l)))
    ∙ append_assoc (field name e) (b'\n' ∷ l) (b'\n' ∷ [])
    ∙ sym (append_assoc (field name e) (b'\n' ∷ []) (l ++ b'\n' ∷ []))
text_of-two_lines ((k, v) ∷ fields) name e l =
    ap (λ t. field k v ++ b'\n' ∷ t) (text_of-two_lines fields name e l)
    ∙ sym (append_assoc (field k v) (b'\n' ∷ text_of (fields ++ (name, e) ∷ [])) (l ++ b'\n' ∷ []))

module _ {F : Type 0} (text : FloatText F) where
  -- A newline in the last event forges a field: what follows it, a key, `=` and a value on one line, is
  -- taken by the client for a field of the daemon's status, and overwrites the value that the daemon
  -- wrote.
  pub parse_status-two_lines :
      ⦃f : Float F⦄ (r : DaemonStatus F) (progress : F) (e k v : Bytes)
      → IsReportable text (record r { last_event = e }) progress
      → IsField (k, v)
      → parse_status text (status_text text (record r { last_event = e ++ b'\n' ∷ field k v }))
        ≡ set_field text k v (reported text (record r { last_event = e }) progress)
  unfolding parse_status status_text lines_of parse_lines
  parse_status-two_lines r progress e k v h line =
      let honest = record r { last_event = e } in
      ap (λ t. parse_lines text (lines_of [] t) (some fresh_status)) (two_lines honest)
      ∙ parse_lines-fields text (status_fields text honest) (text_of ((k, v) ∷ []))
          (some fresh_status) (status_fields-IsField text honest progress h)
      ∙ ap (λ s. parse_lines text (lines_of [] (text_of ((k, v) ∷ []))) s)
          (set_fields-status text honest progress h)
      ∙ ap (λ t. parse_lines text (lines_of [] t) (some (reported text honest progress)))
          (sym (append-nil (text_of ((k, v) ∷ []))))
      ∙ parse_lines-fields text ((k, v) ∷ []) [] (some (reported text honest progress)) (line, tt)
    where
      two_lines :
          (honest : DaemonStatus F)
          → text_of (status_fields text (record honest { last_event = e ++ b'\n' ∷ field k v }))
            ≡ text_of (status_fields text (record honest { last_event = e }))
              ++ text_of ((k, v) ∷ [])
      two_lines honest = text_of-two_lines (before honest) (codes "last_event") e (field k v)
        where
          before : DaemonStatus F → List (Bytes × Bytes)
          before r = take 15 (status_fields text r)
