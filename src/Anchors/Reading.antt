-- ===== src/Anchors/Reading.antt =====
-- Every pixel that the anchors read is in the frame's bytes.
use degoonification.Common.{
  ℕ, ◌+◌, ◌%◌, ◌*◌, ◌^◌, ◌<◌, ◌≡◌, refl, Bool, true, false, ◌&&◌, ◌||◌, ◌==◌, Option, none, some,
  List, [], ◌∷◌, Bytes, is_empty, arith, Bool-cases, inl, inr, lt→ltb,
}
use degoonification.Common.Int.{ℤ, ◌+ℤ◌, is_below, to_ℕ, is_below-lt}
use degoonification.Common.Reads.{read, Returns, Returns-bind, Anything, read-Returns}
use degoonification.Float.{Float}
use degoonification.Boxes.{BoundingBox, expanded}
use degoonification.Video.{VideoFrame, bytes_per_pixel, IsMapped, pixel_within, row_of}
use degoonification.Anchors.Pixels.{
  AnchorPixel, get_pixel_rgb, add_pt, add_pts, points_around, anchors_of, sample_anchors,
  compare_anchor, compare_anchors, eval_anchors,
}

-- The bytes of a frame, where it has some, are those of all its rows, and a row's pixels have offsets that
-- are an `int`.
abbrev pub IsReadable : VideoFrame → Option Bytes → Type 0
IsReadable frame none = Unit {0}
IsReadable frame (some d) =
    IsMapped frame frame.stride d × (frame.width * bytes_per_pixel frame.format < 2 ^ 31)

both : (a b : Bool) → (a && b) ≡ true → (a ≡ true) × (b ≡ true)
both true b h = (refl, h)
both false b h = cc

module _ (frame : VideoFrame) (d : Bytes) (mapped : IsMapped frame frame.stride d)
    (narrow : frame.width * bytes_per_pixel frame.format < 2 ^ 31) where
  get_pixel_rgb-Returns :
      (px py : ℕ)
      → px < frame.width
      → py < frame.height
      → Returns Anything (get_pixel_rgb frame d px py)
  unfolding get_pixel_rgb
  get_pixel_rgb-Returns px py h k =
      let i = py * frame.stride % 2 ^ 32 + px * bytes_per_pixel frame.format in
      let inside = pixel_within frame frame.stride d px py mapped h k in
      let small : px * bytes_per_pixel frame.format < 2 ^ 31 =
        omega (arith, row_of px frame.width (bytes_per_pixel frame.format) h, narrow) in
      rw (lt→ltb (px * bytes_per_pixel frame.format) (2 ^ 31) small) (
        Returns-bind Anything Anything (read d i) _ (read-Returns d i (omega arith)) (λ p0 _.
          Returns-bind Anything Anything (read d (i + 1)) _ (read-Returns d (i + 1) (omega arith))
            (λ p1 _.
              Returns-bind Anything Anything (read d (i + 2)) _
                (read-Returns d (i + 2) (omega arith)) (λ p2 _. tt))))

  add_pt-Returns :
      (px py : ℤ) (pts : List AnchorPixel) → Returns Anything (add_pt frame d px py pts)
  unfolding add_pt
  add_pt-Returns px py pts =
      elim (Bool-cases (is_below px frame.width && is_below py frame.height)) [
        | inr e ↦ rw e tt
        | inl e ↦
            let (h, k) = both (is_below px frame.width) (is_below py frame.height) e in
            rw e (
              Returns-bind Anything Anything (get_pixel_rgb frame d (to_ℕ px) (to_ℕ py)) _
                (get_pixel_rgb-Returns (to_ℕ px) (to_ℕ py) (is_below-lt px frame.width h)
                  (is_below-lt py frame.height k))
                (λ c _. tt))
      ]

  add_pts-Returns :
      (points : List (ℤ × ℤ)) (pts : List AnchorPixel)
      → Returns Anything (add_pts frame d points pts)
  unfolding add_pts
  add_pts-Returns [] pts = tt
  add_pts-Returns ((px, py) ∷ rest) pts =
      Returns-bind Anything Anything (add_pt frame d px py pts) (add_pts frame d rest)
        (add_pt-Returns px py pts) (λ after _. add_pts-Returns rest after)

  module _ (F : Type 0) ⦃f : Float F⦄ where
    compare_anchor-Returns :
        (dy : ℤ) (pt : AnchorPixel) (sum : F × ℕ)
        → Returns Anything (compare_anchor frame d dy pt sum)
    unfolding compare_anchor
    compare_anchor-Returns dy pt sum =
        elim (Bool-cases (is_below (pt.y +ℤ dy) frame.height && is_below pt.x frame.width)) [
          | inr e ↦ rw e tt
          | inl e ↦
              let (h, k) =
                both (is_below (pt.y +ℤ dy) frame.height) (is_below pt.x frame.width) e in
              rw e (
                Returns-bind Anything Anything
                  (get_pixel_rgb frame d (to_ℕ pt.x) (to_ℕ (pt.y +ℤ dy))) _
                  (get_pixel_rgb-Returns (to_ℕ pt.x) (to_ℕ (pt.y +ℤ dy))
                    (is_below-lt pt.x frame.width k) (is_below-lt (pt.y +ℤ dy) frame.height h))
                  (λ c _. tt))
        ]

    compare_anchors-Returns :
        (dy : ℤ) (pts : List AnchorPixel) (sum : F × ℕ)
        → Returns Anything (compare_anchors frame d dy pts sum)
    unfolding compare_anchors
    compare_anchors-Returns dy [] sum = tt
    compare_anchors-Returns dy (pt ∷ pts) sum =
        Returns-bind Anything Anything (compare_anchor frame d dy pt sum)
          (compare_anchors frame d dy pts) (compare_anchor-Returns dy pt sum)
          (λ after _. compare_anchors-Returns dy pts after)

    pub eval_anchors-Returns :
        (pts : List AnchorPixel) (dy : ℤ) → Returns (Anything {A = F}) (eval_anchors frame d pts dy)
    unfolding eval_anchors
    eval_anchors-Returns pts dy = elim (Bool-cases (is_empty pts)) [
      | inl e ↦ rw e tt
      | inr e ↦ rw e (
          Returns-bind Anything Anything (compare_anchors frame d dy pts (f.zero, 0)) _
            (compare_anchors-Returns dy pts (f.zero, 0)) (λ sum _. tt))
    ]

module _ {F : Type 0} ⦃f : Float F⦄ (frame : VideoFrame) (ratio : F) (box : BoundingBox F) where
  anchors_of-Returns :
      (bytes : Option Bytes) (empty : Bool)
      → IsReadable frame bytes
      → Returns Anything (anchors_of bytes empty ratio frame box)
  anchors_of-Returns none empty h = tt
  anchors_of-Returns (some d) true h = tt
  anchors_of-Returns (some d) false h =
      add_pts-Returns frame d h.0 h.1 (points_around frame (expanded ratio box)) []

  pub sample_anchors-Returns :
      IsReadable frame frame.bytes → Returns Anything (sample_anchors ratio frame box)
  unfolding sample_anchors
  sample_anchors-Returns h =
      anchors_of-Returns frame.bytes (frame.width == 0 || frame.height == 0) h
