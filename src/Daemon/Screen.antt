-- ===== src/Daemon/Screen.antt =====
-- What the daemon's steps do to the screen.
use degoonification.Common.{
  ℕ, zero, suc, ◌≡◌, refl, ap, sym, ◌∙◌, ◌⊎◌, ◌&&◌, ltb, Option, none, some, List, [], ◌∷◌, All,
  replicate, length, inl, inr, Bool-cases,
}
use mathlib.Core.List.{cons-ne-nil}
use mathlib.Core.Path.{subst}
use degoonification.Common.Reads.{Reads, fault, got, ◌>>=◌, Gives, Gives-bind}
use degoonification.Float.{Float}
use degoonification.Boxes.{BoundingBox}
use degoonification.Video.{VideoFrame}
use degoonification.Overlay.Pixels.{OverlayConfig, draw_rects}
use degoonification.Overlay.{
  Impl, WaylandOverlay, Event, layer_surface_configure, layer_surface_closed, buffer_release,
  handle_event, handle_events, next_buffer, with_next, paint, is_idle, render_impl, render_with,
  render_boxes,
}
use degoonification.Daemon.{Daemon, latest, show}

-- All pixels are transparent.
abbrev pub IsClear : List ℕ → Type 0
IsClear pixels = All (λ (p : ℕ). p ≡ 0) pixels

-- Nothing is shown: nothing was committed, or all pixels are transparent.
abbrev pub IsBlank : Option (List ℕ) → Type 0
IsBlank none = Unit {0}
IsBlank (some pixels) = IsClear pixels

pub replicate-IsBlank : (n : ℕ) → IsClear (replicate n 0)
replicate-IsBlank zero = tt
replicate-IsBlank (suc n) = (refl, replicate-IsBlank n)

module _ {F : Type 0} where
  -- The screen shows nothing if the overlay remembers no boxes.
  abbrev pub IsTidy : Option (List ℕ) → Option (Impl F) → Type 0
  IsTidy screen none = IsBlank screen
  IsTidy screen (some i) = (i.last_rendered_boxes ≡ []) → IsBlank screen

  handle_event-last :
      (e : Event) (i : Impl F) → (handle_event e i).last_rendered_boxes ≡ i.last_rendered_boxes
  unfolding handle_event layer_surface_configure layer_surface_closed buffer_release
  handle_event-last (Event.configure w h) i = elim (Bool-cases (ltb 0 w && ltb 0 h)) [
    | inl e ↦ rw e refl
    | inr e ↦ rw e refl
  ]
  handle_event-last Event.closed i = refl
  handle_event-last (Event.release zero) i = refl
  handle_event-last (Event.release (suc n)) i = refl

  pub handle_events-last :
      (es : List Event) (i : Impl F)
      → (handle_events es i).last_rendered_boxes ≡ i.last_rendered_boxes
  unfolding handle_events
  handle_events-last [] i = refl
  handle_events-last (e ∷ es) i = handle_events-last es (handle_event e i) ∙ handle_event-last e i

module _ {F : Type 0} ⦃f : Float F⦄ where
  -- The result of a call of the overlay: what is committed, and what is remembered.
  abbrev Committed : List (BoundingBox F) → Impl F → Option (List ℕ) × Impl F → Type 0
  Committed boxes i r =
      (r ≡ (none, i))
      ⊎ ((pixels : List ℕ) × (r.0 ≡ some pixels)
          × (r.1.last_rendered_boxes ≡ boxes)
          × ((boxes ≡ []) → IsClear pixels))

  paint-blank :
      (config : OverlayConfig) (source_frame : Option VideoFrame) (boxes : List (BoundingBox F))
      (i : Impl F)
      → Gives (λ pixels. (boxes ≡ []) → IsClear pixels) (paint config source_frame boxes i)
  unfolding draw_rects
  paint-blank config source_frame [] i = λ e. replicate-IsBlank (length (next_buffer i).pixels)
  paint-blank config source_frame (b ∷ boxes) i = anything (paint config source_frame (b ∷ boxes) i)
    where
      anything : (m : Reads (List ℕ)) → Gives (λ pixels. (b ∷ boxes ≡ []) → IsClear pixels) m
      anything fault = tt
      anything (got pixels) = λ e. absurd (cons-ne-nil b boxes e)

  remembered :
      (pixels : List ℕ) (boxes : List (BoundingBox F)) (i : Impl F)
      → (record (with_next pixels i) { last_rendered_boxes = boxes }).last_rendered_boxes ≡ boxes
  remembered pixels boxes i = refl

  render_impl-Committed :
      (config : OverlayConfig) (boxes : List (BoundingBox F)) (source_frame : Option VideoFrame)
      (i : Impl F)
      → Gives (Committed boxes i) (render_impl config boxes source_frame i)
  unfolding render_impl
  render_impl-Committed config boxes source_frame i =
      elim (Bool-cases (is_idle source_frame boxes i)) [
        | inl e ↦ rw e (inl refl)
        | inr e ↦ rw e (
            Gives-bind (λ pixels. (boxes ≡ []) → IsClear pixels) (Committed boxes i)
              (paint config source_frame boxes i) _ (paint-blank config source_frame boxes i)
              (λ pixels blank. inr (pixels, refl, refl, blank)))
      ]

  -- What a call of `show` leaves: the rest of the daemon, and the screen and the overlay.
  pub record IsShown (o : Option (Impl F)) (boxes : List (BoundingBox F)) (d d' : Daemon F)
      : Type 0 where
    pub same_rest : d' ≡ record d { overlay = d'.overlay; screen = d'.screen }
    pub tidy : IsTidy d.screen o → IsTidy d'.screen d'.overlay.impl
    pub quiet : (boxes ≡ []) → (d'.screen ≡ d.screen) ⊎ IsBlank d'.screen

  abbrev pub committed_to : Daemon F → Option (List ℕ) × WaylandOverlay F → Reads (Daemon F)
  committed_to d r = got (record d { overlay = r.1; screen = latest r.0 d.screen })

  abbrev pub with_impl :
      WaylandOverlay F → Option (List ℕ) × Impl F → Reads (Option (List ℕ) × WaylandOverlay F)
  with_impl o r = got (r.0, record o { impl = some r.1 })

  after_render :
      (boxes : List (BoundingBox F)) (d : Daemon F) (i : Impl F)
      (m : Reads (Option (List ℕ) × Impl F))
      → Gives (Committed boxes i) m
      → Gives
          (IsShown (some i) boxes d)
          (m >>= (λ r. with_impl d.overlay r) >>= λ r. committed_to d r)
  after_render boxes d i fault h = tt
  after_render boxes d i (got (out, i')) (inl same) = record {
    same_rest = refl;
    tidy = λ t. rw (ap (λ r. r.0) same) (rw (ap (λ r. r.1) same) t);
    quiet = λ k. rw (ap (λ r. r.0) same) (inl refl);
  }
  after_render boxes d i (got (out, i')) (inr (pixels, committed, last, blank)) = record {
    same_rest = refl;
    tidy = λ t. rw committed (λ k. blank (sym last ∙ k));
    quiet = λ k. rw committed (inr (blank k));
  }

  show_with :
      (o : Option (Impl F)) (boxes : List (BoundingBox F)) (source_frame : Option VideoFrame)
      (d : Daemon F)
      → d.overlay.impl ≡ o
      → Gives
          (IsShown o boxes d)
          (render_with o boxes source_frame d.overlay >>= λ r. committed_to d r)
  unfolding render_with
  show_with none boxes source_frame d e = record {
    same_rest = refl;
    tidy = λ t. subst (IsTidy d.screen) (sym e) t;
    quiet = λ k. inl refl;
  }
  show_with (some i) boxes source_frame d e =
      after_render boxes d i (render_impl d.overlay.config boxes source_frame i)
        (render_impl-Committed d.overlay.config boxes source_frame i)

  pub show-IsShown :
      (boxes : List (BoundingBox F)) (source_frame : Option VideoFrame) (d : Daemon F)
      → Gives (IsShown d.overlay.impl boxes d) (show boxes source_frame d)
  unfolding show render_boxes
  show-IsShown boxes source_frame d = show_with d.overlay.impl boxes source_frame d refl
