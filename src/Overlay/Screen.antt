-- ===== src/Overlay/Screen.antt =====
-- What `WaylandOverlay::render_boxes` commits to the screen.
use degoonification.Common.{
  ℕ, zero, suc, All, ◌+◌, ◌-◌, ◌*◌, ◌^◌, ◌≤◌, ◌<◌, ◌≡◌, refl, ◌∙◌, Bool, true, false, ◌==◌, Option,
  none, some, List, [], ◌∷◌, any, map, replicate, length, length-replicate, get_elem?, Bytes, arith,
  Bool-cases, inl, inr,
}
use degoonification.Common.Int.{to_ℕ}
use degoonification.Common.Reads.{Returns, Returns-weaken}
use degoonification.Float.{Float}
use degoonification.Boxes.{BoundingBox}
use degoonification.Video.{VideoFrame, row_of}
use degoonification.Overlay.Pixels.{
  OverlayConfig, maximum, Rect, rect_of, source_of, fill_rows, draw_rect, draw_rects,
}
use degoonification.Overlay.Painting.{inside, Paints, Paints-same, Paints-none}
use degoonification.Overlay.Filling.{Paints-bind, fill_rows-Paints}
use degoonification.Overlay.Mosaic.{IsOpaque, IsSeen, mosaic_rows-Paints, minimum-le}
use degoonification.Overlay.{Impl, next_buffer, paint}

-- How a box looks: the fallback colour, or an opaque mosaic.
abbrev pub IsShade : OverlayConfig → Option (VideoFrame × Bytes) → ℕ → Type 0
IsShade config none color = color ≡ config.frosted_color_argb
IsShade config (some s) color = IsOpaque color

-- The frame that the mosaic looks at has its pixels.
abbrev pub IsVisible : Option (VideoFrame × Bytes) → Type 0
IsVisible none = Unit {0}
IsVisible (some (frame, d)) = IsSeen frame d

-- A point lies in one of the rectangles.
abbrev pub covered : List Rect → ℕ → ℕ → Bool
covered rects x y = any (λ r. inside r.bx1 r.by1 r.bx2 r.by2 x y) rects

abbrev pub block_size : OverlayConfig → ℕ
block_size config = maximum 8 (to_ℕ config.mosaic_block_size)

block_size-positive : (n : ℕ) → 0 < maximum 8 n
block_size-positive n = ground arith

-- The screen's extents leave room for a block in 32 bits.
pub record HasRoom (config : OverlayConfig) (w h : ℕ) : Type 0 where
  pub pixels : w * h < 2 ^ 32
  pub columns : w + block_size config < 2 ^ 32
  pub rows : h + block_size config < 2 ^ 32

pub record IsOnScreen (w h : ℕ) (r : Rect) : Type 0 where
  pub x1 : r.bx1 ≤ w
  pub y1 : r.by1 ≤ h
  pub x2 : r.bx2 ≤ w
  pub y2 : r.by2 ≤ h

inside-extents :
    (x1 y1 x2 y2 x y : ℕ)
    → inside x1 y1 (x1 + (x2 - x1)) (y1 + (y2 - y1)) x y ≡ inside x1 y1 x2 y2 x y
inside-extents x1 y1 x2 y2 x y = ground arith

module _ (config : OverlayConfig) (w h : ℕ) (room : HasRoom config w h) where
  draw_rect-Paints :
      (source : Option (VideoFrame × Bytes)) (r : Rect) (buffer : List ℕ)
      → IsVisible source
      → IsOnScreen w h r
      → length buffer ≡ w * h
      → Returns
          (Paints w h (IsShade config source) (inside r.bx1 r.by1 r.bx2 r.by2) buffer)
          (draw_rect config source w r buffer)
  unfolding draw_rect
  draw_rect-Paints none r buffer seen on size =
      let color = config.frosted_color_argb in
      let P = IsShade config none in
      Returns-weaken
        (Paints w h P (inside r.bx1 r.by1 (r.bx1 + (r.bx2 - r.bx1)) (r.by1 + (r.by2 - r.by1)))
          buffer)
        _ (fill_rows w color (r.bx2 - r.bx1) (r.by2 - r.by1) r.bx1 r.by1 buffer)
        (fill_rows-Paints w h P room.pixels color (r.bx2 - r.bx1) (r.by2 - r.by1) r.bx1 r.by1 buffer
          size (omega (arith, on.x1, on.x2)) (omega (arith, on.y1, on.y2)) refl)
        (λ after p.
          Paints-same w h P _ _ buffer after
            (λ x y hx hy. inside-extents r.bx1 r.by1 r.bx2 r.by2 x y) p)
  draw_rect-Paints (some (frame, d)) r buffer seen on size =
      mosaic_rows-Paints frame d seen w h (block_size config) r room.pixels
        (block_size-positive (to_ℕ config.mosaic_block_size)) room.columns room.rows on.x2 on.y2
        (r.by2 - r.by1) r.by1 buffer size (omega arith)

  pub draw_rects-Paints :
      (source : Option (VideoFrame × Bytes)) (rects : List Rect) (buffer : List ℕ)
      → IsVisible source
      → All (IsOnScreen w h) rects
      → length buffer ≡ w * h
      → Returns
          (Paints w h (IsShade config source) (covered rects) buffer)
          (draw_rects config source w rects buffer)
  unfolding draw_rects
  draw_rects-Paints source [] buffer seen on size =
      Paints-none w h (IsShade config source) (covered []) buffer (λ x y hx hy. refl)
  draw_rects-Paints source (r ∷ rects) buffer seen (on, ons) size =
      Paints-bind w h (IsShade config source) room.pixels (inside r.bx1 r.by1 r.bx2 r.by2)
        (covered rects) (covered (r ∷ rects)) buffer (draw_rect config source w r buffer)
        (draw_rects config source w rects) size (λ x y hx hy. refl)
        (draw_rect-Paints source r buffer seen on size)
        (λ b size'. draw_rects-Paints source rects b seen ons size')

-- The pixels show rectangles: each pixel in one is shaded, all others are transparent.
pub record Shows (config : OverlayConfig) (source : Option (VideoFrame × Bytes)) (w h : ℕ)
    (rects : List Rect) (pixels : List ℕ) : Type 0 where
  pub size : length pixels ≡ w * h
  pub shaded :
      (x y : ℕ)
      → x < w
      → y < h
      → covered rects x y ≡ true
      → (p : ℕ) × (get_elem? pixels (y * w + x) ≡ some p) × IsShade config source p
  pub transparent :
      (x y : ℕ) → x < w → y < h → covered rects x y ≡ false → get_elem? pixels (y * w + x) ≡ some 0

get_elem?-replicate : (n i a : ℕ) → i < n → get_elem? (replicate n a) i ≡ some a
get_elem?-replicate zero i a h = absurd (omega arith)
get_elem?-replicate (suc n) zero a h = refl
get_elem?-replicate (suc n) (suc i) a h = get_elem?-replicate n i a (omega arith)

module _ {F : Type 0} ⦃f : Float F⦄ where
  rects-IsOnScreen :
      (w h : ℕ) (boxes : List (BoundingBox F)) → All (IsOnScreen w h) (map (rect_of w h) boxes)
  rects-IsOnScreen w h [] = tt
  rects-IsOnScreen w h (box ∷ boxes) = (
    record {
      x1 = (minimum-le _ w).1;
      y1 = (minimum-le _ h).1;
      x2 = (minimum-le _ w).1;
      y2 = (minimum-le _ h).1;
    },
    rects-IsOnScreen w h boxes,
  )

  -- Both buffers have the size of the surface.
  pub record IsSized (i : Impl F) : Type 0 where
    pub size_0 : length i.buffer_0.pixels ≡ i.width * i.height
    pub size_1 : length i.buffer_1.pixels ≡ i.width * i.height

  next_buffer-size : (i : Impl F) → IsSized i → length (next_buffer i).pixels ≡ i.width * i.height
  next_buffer-size i s = elim (Bool-cases (1 - i.current_buffer == 0)) [
    | inl e ↦ rw e s.size_0
    | inr e ↦ rw e s.size_1
  ]

  pub paint-Shows :
      (config : OverlayConfig) (source_frame : Option VideoFrame) (boxes : List (BoundingBox F))
      (i : Impl F)
      → IsSized i
      → HasRoom config i.width i.height
      → IsVisible (source_of config source_frame)
      → Returns
          (Shows config
            (source_of config source_frame)
            i.width
            i.height
            (map (rect_of i.width i.height) boxes))
          (paint config source_frame boxes i)
  paint-Shows config source_frame boxes i s room seen =
      let w = i.width in
      let h = i.height in
      let n = length (next_buffer i).pixels in
      let rects = map (rect_of w h) boxes in
      let source = source_of config source_frame in
      Returns-weaken (Paints w h (IsShade config source) (covered rects) (replicate n 0)) _
        (draw_rects config source w rects (replicate n 0))
        (draw_rects-Paints config w h room source rects (replicate n 0) seen
          (rects-IsOnScreen w h boxes) (length-replicate n 0 ∙ next_buffer-size i s))
        (λ pixels p. record {
          size = p.same_size ∙ length-replicate n 0 ∙ next_buffer-size i s;
          shaded = p.painted;
          transparent = λ x y hx hy k.
              p.left_alone x y hx hy k
              ∙ get_elem?-replicate n (y * w + x) 0
                  (omega (arith, row_of y h w hy, next_buffer-size i s));
        })
