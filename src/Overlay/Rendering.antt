-- ===== src/Overlay/Rendering.antt =====
-- Calls of `WaylandOverlay::render_boxes`: what is committed, and when a call returns before it draws.
use degoonification.Common.{
  ℕ, zero, suc, ◌-◌, ◌*◌, ◌/◌, ◌%◌, ◌^◌, ◌<◌, ◌≡◌, refl, ◌∙◌, ◌⊎◌, true, false, ◌&&◌, ◌==◌, ltb,
  if◌then◌else◌, Option, none, some, List, map, replicate, length, length-replicate, arith,
  Bool-cases, inl, inr,
}
use degoonification.Common.Reads.{Returns, Returns-bind}
use degoonification.Float.{Float}
use degoonification.Boxes.{BoundingBox}
use degoonification.Video.{VideoFrame}
use degoonification.Overlay.Pixels.{OverlayConfig, rect_of, source_of}
use degoonification.Overlay.Screen.{IsVisible, HasRoom, Shows, IsSized, paint-Shows}
use degoonification.Overlay.{
  Impl, Event, allocate_shm_buffer, allocate_buffers, layer_surface_configure, layer_surface_closed,
  buffer_release, handle_event, with_next, paint, is_idle, render_impl,
}

module _ {F : Type 0} ⦃f : Float F⦄ where
  -- The buffer that was last committed.
  abbrev current_pixels : Impl F → List ℕ
  current_pixels i = if i.current_buffer == 0 then i.buffer_0.pixels else i.buffer_1.pixels

  -- What a call that is not idle leaves.
  pub record IsDrawn (config : OverlayConfig) (boxes : List (BoundingBox F))
      (source_frame : Option VideoFrame) (i : Impl F) (r : Option (List ℕ) × Impl F) : Type 0 where
    pub pixels : List ℕ
    pub committed : r.0 ≡ some pixels
    pub shows :
        Shows config
          (source_of config source_frame)
          i.width
          i.height
          (map (rect_of i.width i.height) boxes)
          pixels
    pub remembered : r.1.last_rendered_boxes ≡ boxes
    pub sized : IsSized r.1
    pub same_width : r.1.width ≡ i.width
    pub same_height : r.1.height ≡ i.height
    pub drawn_in : current_pixels r.1 ≡ pixels

  drawn :
      (config : OverlayConfig) (boxes : List (BoundingBox F)) (source_frame : Option VideoFrame)
      (i : Impl F) (pixels : List ℕ)
      → IsSized i
      → Shows config
          (source_of config source_frame)
          i.width
          i.height
          (map (rect_of i.width i.height) boxes)
          pixels
      → IsDrawn config boxes source_frame i
          (some pixels, record (with_next pixels i) { last_rendered_boxes = boxes })
  drawn config boxes source_frame i pixels s shows = elim (Bool-cases (1 - i.current_buffer == 0)) [
    | inl e ↦ rw e record {
      pixels = pixels;
      committed = refl;
      shows = shows;
      remembered = refl;
      sized = record { size_0 = shows.size; size_1 = s.size_1 };
      same_width = refl;
      same_height = refl;
      drawn_in = refl;
    }
    | inr e ↦ rw e record {
      pixels = pixels;
      committed = refl;
      shows = shows;
      remembered = refl;
      sized = record { size_0 = s.size_0; size_1 = shows.size };
      same_width = refl;
      same_height = refl;
      drawn_in = refl;
    }
  ]

  abbrev pub IsRendered :
      OverlayConfig
      → List (BoundingBox F)
      → Option VideoFrame
      → Impl F
      → Option (List ℕ) × Impl F
      → Type 0
  IsRendered config boxes source_frame i r =
      ((is_idle source_frame boxes i ≡ true) × (r ≡ (none, i)))
      ⊎ ((is_idle source_frame boxes i ≡ false) × IsDrawn config boxes source_frame i r)

  -- A call whose buffers have the size of the surface, and whose frame has its pixels, makes no access
  -- out of bounds. It does nothing if the surface is not ready or shows the boxes. If not, it commits
  -- pixels that are shaded in the boxes and transparent elsewhere.
  pub render_impl-IsRendered :
      (config : OverlayConfig) (boxes : List (BoundingBox F)) (source_frame : Option VideoFrame)
      (i : Impl F)
      → IsSized i
      → HasRoom config i.width i.height
      → IsVisible (source_of config source_frame)
      → Returns (IsRendered config boxes source_frame i) (render_impl config boxes source_frame i)
  unfolding render_impl
  render_impl-IsRendered config boxes source_frame i s room seen =
      elim (Bool-cases (is_idle source_frame boxes i)) [
        | inl e ↦ rw e (inl (e, refl))
        | inr e ↦ rw e (
            Returns-bind
              (Shows config (source_of config source_frame) i.width i.height
                (map (rect_of i.width i.height) boxes))
              (IsRendered config boxes source_frame i) (paint config source_frame boxes i) _
              (paint-Shows config source_frame boxes i s room seen)
              (λ pixels shows. inr (e, drawn config boxes source_frame i pixels s shows)))
      ]

  -- Buffers that are mapped have the size of the surface, if it is not wider than 2 ^ 30 pixels.
  pub allocate_buffers-IsSized :
      (i : Impl F) → i.width < 2 ^ 30 → IsSized (allocate_buffers true true i)
  unfolding allocate_buffers allocate_shm_buffer
  allocate_buffers-IsSized i h =
      let size : length (replicate (i.width * 4 % 2 ^ 32 * i.height / 4) 0) ≡ i.width * i.height =
        length-replicate _ 0 ∙ quarter i.width i.height h in
      record { size_0 = size; size_1 = size }
    where
      quarter : (w h : ℕ) → w < 2 ^ 30 → w * 4 % 2 ^ 32 * h / 4 ≡ w * h
      quarter w h k = let whole : w * 4 % 2 ^ 32 ≡ w * 4 = omega arith in rw whole (grind arith)

  -- An event keeps the buffers' size, unless it changes the surface's size.
  abbrev KeepsSize : Impl F → Event → Type 0
  KeepsSize i (Event.configure w h) = ((ltb 0 w && ltb 0 h) ≡ true → (w ≡ i.width) × (h ≡ i.height))
  KeepsSize i Event.closed = Unit {0}
  KeepsSize i (Event.release n) = Unit {0}

  pub handle_event-IsSized :
      (e : Event) (i : Impl F) → KeepsSize i e → IsSized i → IsSized (handle_event e i)
  unfolding handle_event layer_surface_configure layer_surface_closed buffer_release
  handle_event-IsSized (Event.configure w h) i k s = elim (Bool-cases (ltb 0 w && ltb 0 h)) [
    | inr e ↦ rw e record { size_0 = s.size_0; size_1 = s.size_1 }
    | inl e ↦
        let (ew, eh) = k e in rw e (rw ew (rw eh record { size_0 = s.size_0; size_1 = s.size_1 }))
  ]
  handle_event-IsSized Event.closed i k s = record { size_0 = s.size_0; size_1 = s.size_1 }
  handle_event-IsSized (Event.release zero) i k s = record { size_0 = s.size_0; size_1 = s.size_1 }
  handle_event-IsSized (Event.release (suc n)) i k s = record {
    size_0 = s.size_0;
    size_1 = s.size_1;
  }
