-- ===== src/Daemon/Main.antt =====
-- No step of the main thread accesses memory out of bounds, where the events keep the surface's size.
use degoonification.Common.{
  ℕ, zero, suc, ◌%◌, ◌^◌, ◌≡◌, refl, ap, sym, ◌∙◌, true, not, ◌&&◌, ◌==◌, ltb, Option, none, some,
  List, [], ◌∷◌, All, Bytes, codes, length, bytes_eq, inl, inr, Bool-cases,
}
use mathlib.Core.Path.{subst}
use degoonification.Common.Reads.{Returns, Returns-bind, Returns-weaken}
use degoonification.Float.{Float}
use degoonification.Boxes.{BoundingBox}
use degoonification.Video.{VideoFrame}
use degoonification.Anchors.{reset}
use degoonification.Overlay.Pixels.{OverlayConfig, source_of}
use degoonification.Overlay.Screen.{HasRoom, IsVisible}
use degoonification.Overlay.{
  Impl, WaylandOverlay, Event, layer_surface_configure, layer_surface_closed, buffer_release,
  handle_events, handle_event, dispatch_with, dispatch_events,
}
use degoonification.Ipc.{FloatText}
use degoonification.Daemon.{Daemon, Clock, show}
use degoonification.Daemon.Commands.{
  pause, resume, padded, set_padding, relapse, stop, handle_command,
}
use degoonification.Daemon.Loop.{dispatch, show_latest, clear_screen, present}
use degoonification.Daemon.Safety.{
  IsStaged, IsSizedTo, IsFitting, IsSafe, IsRest, show-IsRest, IsSafe-of_rest,
}
use degoonification.Daemon.Rounds.{Returns-if}

-- An event that does not change the surface's size.
abbrev pub IsSteady : ℕ → ℕ → Event → Type 0
IsSteady w h (Event.configure w' h') = (ltb 0 w' && ltb 0 h') ≡ true → (w' ≡ w) × (h' ≡ h)
IsSteady w h Event.closed = Unit {0}
IsSteady w h (Event.release n) = Unit {0}

module _ {F : Type 0} (w h : ℕ) where
  handle_event-IsSizedTo :
      (e : Event) (i : Impl F) → IsSteady w h e → IsSizedTo w h i → IsSizedTo w h (handle_event e i)
  unfolding handle_event layer_surface_configure layer_surface_closed buffer_release
  handle_event-IsSizedTo (Event.configure w' h') i k s = elim (Bool-cases (ltb 0 w' && ltb 0 h')) [
    | inr e ↦ rw e record {
      width_is = s.width_is;
      height_is = s.height_is;
      size_0 = s.size_0;
      size_1 = s.size_1;
    }
    | inl e ↦
        rw e
          record { width_is = (k e).0; height_is = (k e).1; size_0 = s.size_0; size_1 = s.size_1 }
  ]
  handle_event-IsSizedTo Event.closed i k s = record {
    width_is = s.width_is;
    height_is = s.height_is;
    size_0 = s.size_0;
    size_1 = s.size_1;
  }
  handle_event-IsSizedTo (Event.release zero) i k s = record {
    width_is = s.width_is;
    height_is = s.height_is;
    size_0 = s.size_0;
    size_1 = s.size_1;
  }
  handle_event-IsSizedTo (Event.release (suc n)) i k s = record {
    width_is = s.width_is;
    height_is = s.height_is;
    size_0 = s.size_0;
    size_1 = s.size_1;
  }

  handle_events-IsSizedTo :
      (es : List Event) (i : Impl F)
      → All (IsSteady w h) es
      → IsSizedTo w h i
      → IsSizedTo w h (handle_events es i)
  unfolding handle_events
  handle_events-IsSizedTo [] i k s = s
  handle_events-IsSizedTo (e ∷ es) i (k, ks) s =
      handle_events-IsSizedTo es (handle_event e i) ks (handle_event-IsSizedTo e i k s)

module _ {F : Type 0} ⦃f : Float F⦄ (config : OverlayConfig) (w h : ℕ)
    (room : HasRoom config w h) where
  abbrev pub P : Daemon F → Type 0
  P d = IsSafe config w h d

  -- Only fields that safety does not look at are changed.
  other_fields :
      (d d' : Daemon F)
      → d'.overlay ≡ d.overlay
      → d'.shared_frame ≡ d.shared_frame
      → d'.stage ≡ d.stage
      → P d
      → P d'
  other_fields d d' o v g safe = record {
    same_config = ap (λ x. x.config) o ∙ safe.same_config;
    fitting = subst (λ x. IsFitting w h x.impl) (sym o) safe.fitting;
    visible = subst (λ x. IsVisible (source_of config (some x))) (sym v) safe.visible;
    staged = subst IsStaged (sym g) safe.staged;
  }

  dispatch_with-IsFitting :
      (o : Option (Impl F)) (es : List Event) (v : WaylandOverlay F)
      → v.impl ≡ o
      → All (IsSteady w h) es
      → IsFitting w h o
      → IsFitting w h (dispatch_with o es v).impl × ((dispatch_with o es v).config ≡ v.config)
  unfolding dispatch_with
  dispatch_with-IsFitting none es v e k s = (subst (IsFitting w h) (sym e) s, refl)
  dispatch_with-IsFitting (some i) es v e k s = (handle_events-IsSizedTo w h es i k s, refl)

  pub dispatch-IsSafe :
      (es : List Event) (d : Daemon F) → All (IsSteady w h) es → P d → P (dispatch es d)
  unfolding dispatch dispatch_events
  dispatch-IsSafe es d k safe =
      let (fits, same) = dispatch_with-IsFitting d.overlay.impl es d.overlay refl k safe.fitting in
      record {
        same_config = same ∙ safe.same_config;
        fitting = fits;
        visible = safe.visible;
        staged = safe.staged;
      }

  -- A call of the overlay, and what is done to other fields after it.
  show-IsSafe :
      (boxes : List (BoundingBox F)) (source_frame : Option VideoFrame) (d : Daemon F)
      → IsVisible (source_of config source_frame)
      → P d
      → Returns P (show boxes source_frame d)
  show-IsSafe boxes source_frame d seen safe =
      Returns-weaken (IsRest config w h d) P (show boxes source_frame d)
        (show-IsRest config w h room boxes source_frame d safe.same_config safe.fitting seen)
        (λ d' r. IsSafe-of_rest config w h room d d' safe r)

  show_latest-IsSafe : (d : Daemon F) → P d → Returns P (show_latest none d)
  unfolding show_latest
  show_latest-IsSafe d safe =
      let n = length d.latest_rendered_boxes % 2 ^ 32 in
      let counted : Daemon F = record d { active_box_count = n } in
      let safe_counted = other_fields d counted refl refl refl safe in
      Returns-if P (ltb 0 n) _ _
        (Returns-bind P P (show d.latest_rendered_boxes (some d.shared_frame) counted) _
          (show-IsSafe d.latest_rendered_boxes (some d.shared_frame) counted safe.visible
            safe_counted)
          (λ d' s. other_fields d' _ refl refl refl s))
        (show-IsSafe d.latest_rendered_boxes none counted tt safe_counted)

  clear_screen-IsSafe : (d : Daemon F) → P d → Returns P (clear_screen d)
  unfolding clear_screen
  clear_screen-IsSafe d safe =
      Returns-bind P P (show [] none d) _ (show-IsSafe [] none d tt safe)
        (λ d' s. other_fields d' _ refl refl refl s)

  pub present-IsSafe : (d : Daemon F) → P d → Returns P (present none d)
  unfolding present
  present-IsSafe d safe =
      let taken : Daemon F = record d { last_processed_seq = d.raw_frame_seq } in
      let safe_taken = other_fields d taken refl refl refl safe in
      Returns-if P (d.raw_frame_seq == d.last_processed_seq) _ _ safe (
        Returns-if P (not d.visual_blur_paused) _ _ (show_latest-IsSafe taken safe_taken)
          (clear_screen-IsSafe taken safe_taken))

  pause-IsSafe : (d : Daemon F) → P d → Returns (λ r. P r.1) (pause d)
  unfolding pause
  pause-IsSafe d safe =
      let d1 : Daemon F = record d { visual_blur_paused = true; tracker = reset d.tracker } in
      Returns-bind P (λ r. P r.1) (show [] none d1) _
        (show-IsSafe [] none d1 tt (other_fields d d1 refl refl refl safe))
        (λ d' s. other_fields d' _ refl refl refl s)

  padded-IsSafe : (p : Option F) (d : Daemon F) → P d → P (padded p d)
  unfolding padded
  padded-IsSafe none d safe = safe
  padded-IsSafe (some p) d safe = other_fields d (padded (some p) d) refl refl refl safe

  pub handle_command-IsSafe :
      (text : FloatText F) (clock : Clock) (request : Bytes × Bytes) (d : Daemon F)
      → P d
      → Returns (λ r. P r.1) (handle_command text clock request d)
  unfolding handle_command resume set_padding relapse stop
  handle_command-IsSafe text clock (cmd, args) d safe =
      Returns-if Q (bytes_eq cmd (codes "STATUS")) _ _ safe (
        Returns-if Q (bytes_eq cmd (codes "PAUSE")) _ _ (pause-IsSafe d safe) (
          Returns-if Q (bytes_eq cmd (codes "RESUME")) _ _
            (other_fields d (resume d) refl refl refl safe)
            (Returns-if Q (bytes_eq cmd (codes "SET_PADDING")) _ _
              (padded-IsSafe (text.stof args) d safe)
              (Returns-if Q (bytes_eq cmd (codes "RELAPSE")) _ _
                (other_fields d (relapse clock args d) refl refl refl safe)
                (Returns-if Q (bytes_eq cmd (codes "STOP")) _ _
                  (other_fields d (stop d) refl refl refl safe) safe)))))
    where
      Q : Bytes × Daemon F → Type 0
      Q r = P r.1
