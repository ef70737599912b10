-- ===== src/Daemon/Paused.antt =====
-- A paused daemon shows no box, however the steps of its threads interleave.
use degoonification.Common.{
  true-false, ℕ, ◌%◌, ◌^◌, ◌≡◌, refl, ap, sym, ◌∙◌, ◌⊎◌, Bool, true, false, not, ◌==◌, ltb,
  if◌then◌else◌, Option, none, some, List, [], Bytes, codes, length, bytes_eq, inl, inr,
}
use mathlib.Core.Path.{subst}
use degoonification.Common.Reads.{Gives, Gives-bind, Gives-if, Gives-weaken, Gives-of}
use degoonification.Float.{Float}
use degoonification.Overlay.{Impl, Event, dispatch_with, dispatch_events}
use degoonification.Anchors.{reset}
use degoonification.Ipc.{FloatText}
use degoonification.Daemon.{Daemon, Clock, show}
use degoonification.Daemon.Commands.{
  pause, resume, padded, set_padding, relapse, stop, handle_command,
}
use degoonification.Daemon.Worker.{Model, begin_round, track, publish}
use degoonification.Daemon.Loop.{dispatch, seen_frame, show_latest, clear_screen, present}
use degoonification.Daemon.Screen.{IsBlank, IsTidy, handle_events-last, IsShown, show-IsShown}
use degoonification.Daemon.Steps.{
  Step, Run, PausedRun, Gives-anything, IsSame, begin_round-IsSame, track-IsSame, publish-IsSame,
}

module _ {F : Type 0} ⦃f : Float F⦄ where
  abbrev Tidy : Daemon F → Type 0
  Tidy d = IsTidy d.screen d.overlay.impl

  -- What a step does to the screen: a tidy one stays tidy, and a daemon that is paused before and
  -- after it shows what it showed, or nothing.
  pub record IsKept (d d' : Daemon F) : Type 0 where
    pub tidy : Tidy d → Tidy d'
    pub quiet :
        d.visual_blur_paused ≡ true
        → d'.visual_blur_paused ≡ true
        → (d'.screen ≡ d.screen) ⊎ IsBlank d'.screen

  IsKept-of_same : (d d' : Daemon F) → IsSame d d' → IsKept d d'
  IsKept-of_same d d' s = record {
    tidy = λ t. rw s.same_screen (rw s.same_overlay t);
    quiet = λ p q. inl s.same_screen;
  }

  same-IsKept : (d d' : Daemon F) → d'.screen ≡ d.screen → d'.overlay ≡ d.overlay → IsKept d d'
  same-IsKept d d' e g = record { tidy = λ t. rw e (rw g t); quiet = λ p q. inl e }

  -- A call of `show` without boxes.
  shown_empty : (d d' : Daemon F) → IsShown d.overlay.impl [] d d' → IsKept d d'
  shown_empty d d' s = record { tidy = s.tidy; quiet = λ p q. s.quiet refl }

  module _ (text : FloatText F) (clock : Clock) where
    abbrev CommandKept : Daemon F → Bytes × Daemon F → Type 0
    CommandKept d r = IsKept d r.1

    pause-IsKept : (d : Daemon F) → Gives (CommandKept d) (pause d)
    unfolding pause
    pause-IsKept d =
        let d1 : Daemon F = record d { visual_blur_paused = true; tracker = reset d.tracker } in
        Gives-bind (IsShown d.overlay.impl [] d1) (CommandKept d) (show [] none d1) _
          (show-IsShown [] none d1) (λ d' s. record { tidy = s.tidy; quiet = λ p q. s.quiet refl })

    padded-IsKept : (p : Option F) (d : Daemon F) → IsKept d (padded p d)
    unfolding padded
    padded-IsKept none d = same-IsKept d d refl refl
    padded-IsKept (some p) d = same-IsKept d (padded (some p) d) refl refl

    handle_command-IsKept :
        (request : Bytes × Bytes) (d : Daemon F)
        → Gives (CommandKept d) (handle_command text clock request d)
    unfolding handle_command resume set_padding relapse stop
    handle_command-IsKept (cmd, args) d =
        Gives-if (CommandKept d) (bytes_eq cmd (codes "STATUS")) _ _ (same-IsKept d d refl refl) (
          Gives-if (CommandKept d) (bytes_eq cmd (codes "PAUSE")) _ _ (pause-IsKept d) (
            Gives-if (CommandKept d) (bytes_eq cmd (codes "RESUME")) _ _ resumed (
              Gives-if (CommandKept d) (bytes_eq cmd (codes "SET_PADDING")) _ _
                (padded-IsKept (text.stof args) d)
                (Gives-if (CommandKept d) (bytes_eq cmd (codes "RELAPSE")) _ _
                  (same-IsKept d (relapse clock args d) refl refl)
                  (Gives-if (CommandKept d) (bytes_eq cmd (codes "STOP")) _ _
                    (same-IsKept d (stop d) refl refl) (same-IsKept d d refl refl))))))
      where
        resumed : IsKept d (resume d)
        resumed = same-IsKept d (resume d) refl refl

  clear_screen-IsKept :
      (d d0 : Daemon F)
      → IsKept d d0
      → d0.screen ≡ d.screen
      → d0.overlay ≡ d.overlay
      → Gives (IsKept d) (clear_screen d0)
  unfolding clear_screen
  clear_screen-IsKept d d0 k e g =
      Gives-bind (IsShown d0.overlay.impl [] d0) (IsKept d) (show [] none d0) _
        (show-IsShown [] none d0)
        (λ d' s. record { tidy = λ t. s.tidy (k.tidy t); quiet = λ p q. moved (s.quiet refl) })
    where
      moved : {s : Option (List ℕ)} → (s ≡ d0.screen) ⊎ IsBlank s → (s ≡ d.screen) ⊎ IsBlank s
      moved (inl h) = inl (h ∙ e)
      moved (inr h) = inr h

  -- Boxes are shown by a daemon that is not paused.
  abbrev Shown : Daemon F → Daemon F → Type 0
  Shown d d' = (Tidy d → Tidy d') × (d'.visual_blur_paused ≡ d.visual_blur_paused)

  show_latest-Shown :
      (meanwhile : Option Bytes) (d : Daemon F) → Gives (Shown d) (show_latest meanwhile d)
  unfolding show_latest
  show_latest-Shown meanwhile d =
      let n = length d.latest_rendered_boxes % 2 ^ 32 in
      let counted : Daemon F = record d { active_box_count = n } in
      Gives-if (Shown d) (ltb 0 n) _ _
        (Gives-bind (λ frame. Unit {0}) (Shown d) (seen_frame meanwhile d.shared_frame) _
          (Gives-anything (seen_frame meanwhile d.shared_frame))
          (λ frame _.
            Gives-bind (IsShown d.overlay.impl d.latest_rendered_boxes counted) (Shown d)
              (show d.latest_rendered_boxes (some frame) counted) _
              (show-IsShown d.latest_rendered_boxes (some frame) counted)
              (λ d' s. (s.tidy, ap (λ e. e.visual_blur_paused) s.same_rest))))
        (Gives-weaken (IsShown d.overlay.impl d.latest_rendered_boxes counted) (Shown d)
          (show d.latest_rendered_boxes none counted)
          (show-IsShown d.latest_rendered_boxes none counted)
          (λ d' s. (s.tidy, ap (λ e. e.visual_blur_paused) s.same_rest)))

  present-IsKept :
      (meanwhile : Option Bytes) (d : Daemon F) → Gives (IsKept d) (present meanwhile d)
  unfolding present
  present-IsKept meanwhile d =
      let taken : Daemon F = record d { last_processed_seq = d.raw_frame_seq } in
      Gives-if (IsKept d) (d.raw_frame_seq == d.last_processed_seq) _ _ (same-IsKept d d refl refl)
        (shown taken d.visual_blur_paused refl refl)
    where
      shown :
          (taken : Daemon F) (p : Bool)
          → d.visual_blur_paused ≡ p
          → taken ≡ record d { last_processed_seq = d.raw_frame_seq }
          → Gives (IsKept d) (if not p then show_latest meanwhile taken else clear_screen taken)
      shown taken true e t =
          clear_screen-IsKept d taken
            (same-IsKept d taken (ap (λ x. x.screen) t) (ap (λ x. x.overlay) t))
            (ap (λ x. x.screen) t) (ap (λ x. x.overlay) t)
      shown taken false e t =
          Gives-weaken (Shown taken) (IsKept d) (show_latest meanwhile taken)
            (show_latest-Shown meanwhile taken)
            (λ d' s. record {
              tidy = λ k. s.0 (rw t k);
              quiet = λ p q. absurd (true-false (sym p ∙ e));
            })

  dispatch_with-IsKept :
      (o : Option (Impl F)) (events : List Event) (d : Daemon F)
      → d.overlay.impl ≡ o
      → IsKept d (record d { overlay = dispatch_with o events d.overlay })
  unfolding dispatch_with
  dispatch_with-IsKept none events d e = same-IsKept d d refl refl
  dispatch_with-IsKept (some i) events d e = record {
    tidy = λ t k. subst (IsTidy d.screen) e t (sym (handle_events-last events i) ∙ k);
    quiet = λ p q. inl refl;
  }

  dispatch-IsKept : (events : List Event) (d : Daemon F) → IsKept d (dispatch events d)
  unfolding dispatch dispatch_events
  dispatch-IsKept events d = dispatch_with-IsKept d.overlay.impl events d refl

  module _ (text : FloatText F) (model : Model F) where
    -- Every step of the daemon keeps a tidy screen tidy, and adds no box to the screen of a daemon that
    -- is and stays paused.
    pub Step-IsKept : (d d' : Daemon F) → Step text model d d' → IsKept d d'
    Step-IsKept d d' (Step.begins _ _ captured now e) = IsKept-of_same d d' (
        Gives-of (IsSame d) (begin_round model captured now d) d' e
          (begin_round-IsSame model captured now d))
    Step-IsKept d d' (Step.tracks _ _ e) =
        IsKept-of_same d d' (Gives-of (IsSame d) (track d) d' e (track-IsSame d))
    Step-IsKept d d' (Step.publishes _ _ e) =
        IsKept-of_same d d' (Gives-of (IsSame d) (publish d) d' e (publish-IsSame d))
    Step-IsKept d d' (Step.handles _ _ clock request reply e) =
        Gives-of (λ r. IsKept d r.1) (handle_command text clock request d) (reply, d') e
          (handle_command-IsKept text clock request d)
    Step-IsKept d _ (Step.dispatches _ events) = dispatch-IsKept events d
    Step-IsKept d d' (Step.presents _ _ meanwhile e) =
        Gives-of (IsKept d) (present meanwhile d) d' e (present-IsKept meanwhile d)

    pub Run-Tidy : (d d' : Daemon F) → Run text model d d' → Tidy d → Tidy d'
    Run-Tidy d _ (Run.done _) t = t
    Run-Tidy d d' (Run.then _ e _ s r) t = Run-Tidy e d' r ((Step-IsKept d e s).tidy t)

    pub PausedRun-IsBlank :
        (d d' : Daemon F)
        → PausedRun text model d d'
        → d.visual_blur_paused ≡ true
        → IsBlank d.screen
        → IsBlank d'.screen
    PausedRun-IsBlank d _ (PausedRun.done _) p b = b
    PausedRun-IsBlank d d' (PausedRun.then _ e _ s q r) p b =
        PausedRun-IsBlank e d' r q (blank ((Step-IsKept d e s).quiet p q))
      where
        blank : (e.screen ≡ d.screen) ⊎ IsBlank e.screen → IsBlank e.screen
        blank (inl h) = subst IsBlank (sym h) b
        blank (inr h) = h
