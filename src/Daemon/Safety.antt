-- ===== src/Daemon/Safety.antt =====
-- No step of the daemon accesses memory out of bounds.
use degoonification.Common.{
  ℕ, ◌*◌, ◌^◌, ◌≤◌, ◌<◌, ◌≡◌, refl, ap, sym, ◌∙◌, Option, none, some, List, Bytes, length, arith,
  inl, inr, lt→ltb,
}
use mathlib.Core.Path.{subst}
use degoonification.Common.Reads.{◌>>=◌, Returns, Returns-bind, Returns-weaken}
use degoonification.Float.{Float}
use degoonification.Boxes.{BoundingBox}
use degoonification.Video.{VideoFrame, PixelFormat, bytes_per_pixel, row_bytes}
use degoonification.Overlay.Pixels.{OverlayConfig, source_of}
use degoonification.Overlay.Screen.{HasRoom, IsSized, IsVisible}
use degoonification.Overlay.{Impl, render_impl, render_with, render_boxes}
use degoonification.Overlay.Rendering.{IsDrawn, IsRendered, render_impl-IsRendered}
use degoonification.Daemon.{Stage, Daemon, show}
use degoonification.Daemon.Screen.{committed_to, with_impl}

-- A captured frame: it has pixels, and its data holds all its rows, whose offsets are an `int`.
pub record IsCaptured (frame : VideoFrame) : Type 0 where
  pub data_bytes : Bytes
  pub bytes_are : frame.bytes ≡ some data_bytes
  pub wide : 0 < frame.width
  pub high : 0 < frame.height
  pub narrow : frame.width * bytes_per_pixel frame.format < 2 ^ 31
  pub row_fits : frame.width * bytes_per_pixel frame.format ≤ frame.stride
  pub all_rows : frame.height * frame.stride ≤ frame.data_size
  pub data_fits : frame.data_size ≤ length data_bytes

some_bytes : (format : PixelFormat) → 3 ≤ bytes_per_pixel format
some_bytes PixelFormat.rgb = omega arith
some_bytes PixelFormat.rgba = omega arith
some_bytes PixelFormat.bgra = omega arith
some_bytes PixelFormat.rgbx = omega arith
some_bytes PixelFormat.bgrx = omega arith
some_bytes PixelFormat.unknown = omega arith

positive_row : (w b s : ℕ) → 0 < w → 3 ≤ b → w * b ≤ s → 0 < s
positive_row w b s h k m = grind arith

pub row_bytes-stride : (frame : VideoFrame) → IsCaptured frame → row_bytes frame ≡ frame.stride
row_bytes-stride frame c =
    rw
      (lt→ltb 0 frame.stride (
        positive_row frame.width (bytes_per_pixel frame.format) frame.stride c.wide
          (some_bytes frame.format) c.row_fits))
      refl

-- What a stage holds was captured.
abbrev pub IsStaged : {F : Type 0} → Stage F → Type 0
IsStaged Stage.idle = Unit {0}
IsStaged (Stage.detected frame boxes now) = IsCaptured frame
IsStaged (Stage.tracked frame boxes) = IsCaptured frame

-- The surface and its buffers have one size.
pub record IsSizedTo {F : Type 0} (w h : ℕ) (i : Impl F) : Type 0 where
  pub width_is : i.width ≡ w
  pub height_is : i.height ≡ h
  pub size_0 : length i.buffer_0.pixels ≡ w * h
  pub size_1 : length i.buffer_1.pixels ≡ w * h

abbrev pub IsFitting : {F : Type 0} → ℕ → ℕ → Option (Impl F) → Type 0
IsFitting w h none = Unit {0}
IsFitting w h (some i) = IsSizedTo w h i

module _ {F : Type 0} ⦃f : Float F⦄ (config : OverlayConfig) (w h : ℕ) where
  pub record IsSafe (d : Daemon F) : Type 0 where
    pub same_config : d.overlay.config ≡ config
    pub fitting : IsFitting w h d.overlay.impl
    pub visible : IsVisible (source_of config (some d.shared_frame))
    pub staged : IsStaged d.stage

  -- The overlay after a call.
  pub record IsRest (d d' : Daemon F) : Type 0 where
    pub same_config : d'.overlay.config ≡ config
    pub fitting : IsFitting w h d'.overlay.impl
    pub same_frame : d'.shared_frame ≡ d.shared_frame
    pub same_stage : d'.stage ≡ d.stage

  module _ (room : HasRoom config w h) where
    render_impl-IsSizedTo :
        (boxes : List (BoundingBox F)) (source_frame : Option VideoFrame) (i : Impl F)
        → IsSizedTo w h i
        → IsVisible (source_of config source_frame)
        → Returns (λ r. IsSizedTo w h r.1) (render_impl config boxes source_frame i)
    render_impl-IsSizedTo boxes source_frame i s seen =
        Returns-weaken (IsRendered config boxes source_frame i) (λ r. IsSizedTo w h r.1)
          (render_impl config boxes source_frame i)
          (render_impl-IsRendered config boxes source_frame i sized room_i seen)
          (λ r. elim [
            | inl idle ↦ subst (λ r. IsSizedTo w h r.1) (sym idle.1) s
            | inr drawn ↦ after r drawn.1
          ])
      where
        same_area : i.width * i.height ≡ w * h
        same_area = rw s.width_is (rw s.height_is refl)

        sized : IsSized i
        sized = record { size_0 = s.size_0 ∙ sym same_area; size_1 = s.size_1 ∙ sym same_area }

        room_i : HasRoom config i.width i.height
        room_i =
            subst (λ n. HasRoom config n i.height) (sym s.width_is)
              (subst (λ n. HasRoom config w n) (sym s.height_is) room)

        after :
            (r : Option (List ℕ) × Impl F)
            → IsDrawn config boxes source_frame i r
            → IsSizedTo w h r.1
        after r drawn = record {
          width_is = drawn.same_width ∙ s.width_is;
          height_is = drawn.same_height ∙ s.height_is;
          size_0 = drawn.sized.size_0 ∙ new_area;
          size_1 = drawn.sized.size_1 ∙ new_area;
        }
          where
            new_area : r.1.width * r.1.height ≡ w * h
            new_area =
                ap (λ n. n * r.1.height) (drawn.same_width ∙ s.width_is)
                ∙ ap (λ n. w * n) (drawn.same_height ∙ s.height_is)

    show_with-IsRest :
        (o : Option (Impl F)) (boxes : List (BoundingBox F)) (source_frame : Option VideoFrame)
        (d : Daemon F)
        → d.overlay.impl ≡ o
        → d.overlay.config ≡ config
        → IsFitting w h o
        → IsVisible (source_of config source_frame)
        → Returns (IsRest d) (render_with o boxes source_frame d.overlay >>= λ r. committed_to d r)
    unfolding render_with
    show_with-IsRest none boxes source_frame d e c s seen = record {
      same_config = c;
      fitting = subst (IsFitting w h) (sym e) s;
      same_frame = refl;
      same_stage = refl;
    }
    show_with-IsRest (some i) boxes source_frame d e c s seen =
        Returns-bind (λ r. IsFitting w h r.1.impl × (r.1.config ≡ config)) (IsRest d)
          (render_impl d.overlay.config boxes source_frame i >>= λ r. with_impl d.overlay r)
          (λ r. committed_to d r)
          (Returns-bind (λ r. IsSizedTo w h r.1)
            (λ r. IsFitting w h r.1.impl × (r.1.config ≡ config))
            (render_impl d.overlay.config boxes source_frame i) (λ r. with_impl d.overlay r)
            (subst (λ k. Returns (λ r. IsSizedTo w h r.1) (render_impl k boxes source_frame i))
              (sym c) (render_impl-IsSizedTo boxes source_frame i s seen))
            (λ r sized. (sized, c)))
          (λ r k. record { same_config = k.1; fitting = k.0; same_frame = refl; same_stage = refl })

    pub show-IsRest :
        (boxes : List (BoundingBox F)) (source_frame : Option VideoFrame) (d : Daemon F)
        → d.overlay.config ≡ config
        → IsFitting w h d.overlay.impl
        → IsVisible (source_of config source_frame)
        → Returns (IsRest d) (show boxes source_frame d)
    unfolding show render_boxes
    show-IsRest boxes source_frame d c s seen =
        show_with-IsRest d.overlay.impl boxes source_frame d refl c s seen

    -- What is left of safety after a call of the overlay.
    pub IsSafe-of_rest : (d d' : Daemon F) → IsSafe d → IsRest d d' → IsSafe d'
    IsSafe-of_rest d d' safe r = record {
      same_config = r.same_config;
      fitting = r.fitting;
      visible = subst (λ v. IsVisible (source_of config (some v))) (sym r.same_frame) safe.visible;
      staged = subst IsStaged (sym r.same_stage) safe.staged;
    }
