-- ===== src/Daemon/Hidden.antt =====
-- PAUSE clears the screen, and it stays clear.
use degoonification.Common.{
  ℕ, ◌≡◌, refl, ap, sym, ◌∙◌, ◌⊎◌, Bool, true, false, not, ◌&&◌, ◌||◌, if◌then◌else◌, Option, none,
  some, List, [], ◌∷◌, Bytes, is_empty, replicate, length, inl, inr,
}
use degoonification.Common.Reads.{Reads, fault, got, ◌>>=◌, Gives, Gives-bind, Gives-of}
use degoonification.Float.{Float}
use degoonification.Boxes.{BoundingBox}
use degoonification.Overlay.Pixels.{OverlayConfig, draw_rects}
use degoonification.Overlay.{
  Impl, WaylandOverlay, boxes_differ, next_buffer, with_next, is_idle, render_impl, render_with,
  render_boxes,
}
use degoonification.Anchors.{reset}
use degoonification.Ipc.{FloatText}
use degoonification.Daemon.{Daemon, Clock, show, new_daemon, latest}
use degoonification.Daemon.Commands.{pause}
use degoonification.Daemon.Worker.{Model}
use degoonification.Daemon.Screen.{
  committed_to, with_impl, IsClear, IsBlank, IsTidy, replicate-IsBlank,
}
use degoonification.Daemon.Steps.{Run, PausedRun}
use degoonification.Daemon.Paused.{Run-Tidy, PausedRun-IsBlank}

module _ {F : Type 0} where
  of_some : (Impl F → Bool) → Impl F → Option (Impl F) → Bool
  of_some g i none = g i
  of_some g i (some j) = g j

  empty_of : (l : List (BoundingBox F)) → is_empty l ≡ true → l ≡ []
  empty_of [] e = refl
  empty_of (b ∷ l) e = cc

  some_there : {i j : Impl F} (g : Impl F → Bool) → some i ≡ some j → g i ≡ g j
  unfolding of_some
  some_there {i} {j} g e = ap (of_some g i) e

  IsTidy-none : (o : Option (Impl F)) → IsTidy none o
  IsTidy-none none = tt
  IsTidy-none (some i) = λ e. tt

-- The overlay has a surface, and it is configured.
pub record IsReady {F : Type 0} (d : Daemon F) : Type 0 where
  pub impl : Impl F
  pub is_there : d.overlay.impl ≡ some impl
  pub has_surface : impl.surface ≡ true
  pub is_configured : impl.configured ≡ true

module _ {F : Type 0} ⦃f : Float F⦄ where
  idle_empty :
      (l : List (BoundingBox F))
      → ((is_empty {A = BoundingBox F} [] && is_empty l) || (not (boxes_differ [] l) && true))
        ≡ is_empty l
  unfolding boxes_differ
  idle_empty [] = refl
  idle_empty (b ∷ l) = refl

  -- Nothing is committed since nothing is remembered, or clear pixels are.
  abbrev Cleared : Impl F → Option (List ℕ) × Impl F → Type 0
  Cleared i r =
      ((r.0 ≡ none) × (i.last_rendered_boxes ≡ []))
      ⊎ ((pixels : List ℕ) × (r.0 ≡ some pixels) × IsClear pixels)

  render_impl-Cleared :
      (config : OverlayConfig) (i : Impl F)
      → i.surface ≡ true
      → i.configured ≡ true
      → Gives (Cleared i) (render_impl config [] none i)
  unfolding render_impl draw_rects
  render_impl-Cleared config i s c = cleared (is_idle none [] i) (idle s c)
    where
      idle :
          i.surface ≡ true
          → i.configured ≡ true
          → is_idle none [] i ≡ is_empty i.last_rendered_boxes
      idle s c =
          ap
            (λ b.
              not (b && i.configured)
              || (is_empty {A = BoundingBox F} [] && is_empty i.last_rendered_boxes)
              || (not (boxes_differ [] i.last_rendered_boxes) && true))
            s
          ∙ ap
              (λ b.
                not (true && b)
                || (is_empty {A = BoundingBox F} [] && is_empty i.last_rendered_boxes)
                || (not (boxes_differ [] i.last_rendered_boxes) && true))
              c
          ∙ idle_empty i.last_rendered_boxes

      cleared :
          (b : Bool)
          → b ≡ is_empty i.last_rendered_boxes
          → Gives (Cleared i) (
              if b
              then got (none, i)
              else (got (replicate (length (next_buffer i).pixels) 0) >>= λ pixels.
                  got (some pixels, record (with_next pixels i) { last_rendered_boxes = [] })))
      cleared true e = inl (refl, empty_of i.last_rendered_boxes (sym e))
      cleared false e = inr (replicate (length (next_buffer i).pixels) 0, refl, replicate-IsBlank _)

  -- What a ready overlay and a tidy screen become when nothing is to be shown.
  abbrev Off : Daemon F → Type 0
  Off d' = IsBlank d'.screen × (d'.visual_blur_paused ≡ true)

  abbrev committed_by : Daemon F → WaylandOverlay F → Option (List ℕ) × Impl F → Daemon F
  committed_by d o r = record d {
    overlay = record o { impl = some r.1 };
    screen = latest r.0 d.screen;
  }

  Off-of :
      (d : Daemon F) (o : WaylandOverlay F) (i : Impl F) (r : Option (List ℕ) × Impl F)
      → d.visual_blur_paused ≡ true
      → IsTidy d.screen (some i)
      → Cleared i r
      → Off (committed_by d o r)
  Off-of d o i (out, i') p t (inl (none_out, last)) = (rw none_out (t last), p)
  Off-of d o i (out, i') p t (inr (pixels, committed, clear)) = (rw committed clear, p)

  show_with-Off :
      (d : Daemon F) (o : Option (Impl F)) (i : Impl F)
      → o ≡ some i
      → i.surface ≡ true
      → i.configured ≡ true
      → d.visual_blur_paused ≡ true
      → IsTidy d.screen o
      → Gives Off (render_with o [] none d.overlay >>= λ r. committed_to d r)
  unfolding render_with
  show_with-Off d none i e s c p t = cc
  show_with-Off d (some j) i e s c p t = go (render_impl d.overlay.config [] none j) (
      render_impl-Cleared d.overlay.config j (there (λ k. k.surface) ∙ s)
        (there (λ k. k.configured) ∙ c))
    where
      there : (g : Impl F → Bool) → g j ≡ g i
      there g = some_there g e

      go :
          (m : Reads (Option (List ℕ) × Impl F))
          → Gives (Cleared j) m
          → Gives Off (m >>= (λ r. with_impl d.overlay r) >>= λ r. committed_to d r)
      go fault h = tt
      go (got r) h = Off-of d d.overlay j r p t h

  pause-Off :
      (d : Daemon F) → IsReady d → IsTidy d.screen d.overlay.impl → Gives (λ r. Off r.1) (pause d)
  unfolding pause show render_boxes
  pause-Off d r t =
      let d1 : Daemon F = record d { visual_blur_paused = true; tracker = reset d.tracker } in
      Gives-bind Off (λ r. Off r.1) (show [] none d1) _
        (show_with-Off d1 d.overlay.impl r.impl r.is_there r.has_surface r.is_configured refl t)
        (λ d' h. h)

  module _ (text : FloatText F) (model : Model F) where
    -- A paused daemon shows no box: from the start of the daemon, after any interleaving of the steps of
    -- its threads, a PAUSE that is handled while the overlay is ready leaves a screen without any
    -- visible pixel, and so do all steps after it for as long as the daemon is paused. (The AI thread
    -- may be anywhere in its round when PAUSE comes.)
    pub pause_hides :
        (overlay : WaylandOverlay F) (model_loaded : Bool) (clock : Clock) (d d1 d2 : Daemon F)
        (reply : Bytes)
        → Run text model (new_daemon overlay model_loaded clock) d
        → IsReady d
        → pause d ≡ got (reply, d1)
        → PausedRun text model d1 d2
        → IsBlank d2.screen
    pause_hides overlay model_loaded clock d d1 d2 reply run ready e paused =
        let tidy =
          Run-Tidy text model (new_daemon overlay model_loaded clock) d run
            (IsTidy-none overlay.impl) in
        let (blank, p) = Gives-of (λ r. Off r.1) (pause d) (reply, d1) e (pause-Off d ready tidy) in
        PausedRun-IsBlank text model d1 d2 paused p blank
