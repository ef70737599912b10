-- ===== src/Preprocessor/Planes.antt =====
-- The planes: every access is in bounds, and the picture lies within the target.
use degoonification.Common.{
  ℕ, zero, suc, ◌+◌, ◌*◌, ◌%◌, ◌^◌, ◌≤◌, ◌<◌, ◌≡◌, ◌∙◌, sym, false, ◌||◌, ◌==◌, some, List, Bytes,
  length, length-replicate, arith, lt→ltb,
}
use degoonification.Common.Int.{clamp_ℤ_bounds}
use degoonification.Common.Reads.{
  got, read, write, Returns, Returns-bind, Returns-weaken, Anything, read-Returns, write-Returns,
}
use mathlib.Core.Path.{subst}
use degoonification.Float.{Float}
use degoonification.Video.{
  PixelFormat, VideoFrame, bytes_per_pixel, row_bytes, IsMapped, pixel_within, row_of, mod_le,
}
use degoonification.Preprocessor.{
  LetterboxInfo, at_most_last, letterbox, source_index, copy_pixel, copy_row, copy_rows, gray,
  preprocess_bytes, preprocess,
}

at_most_last-lt : (n limit : ℕ) → 0 < limit → at_most_last n limit < limit
at_most_last-lt n limit h = ground arith

module _ {F : Type 0} ⦃f : Float F⦄ where
  -- The picture stands within the target.
  pub record IsPlaced (info : LetterboxInfo F) (target_width target_height : ℕ) : Type 0 where
    pub across : info.pad_x + info.scaled_w ≤ target_width
    pub down : info.pad_y + info.scaled_h ≤ target_height
    pub wide : 1 ≤ info.scaled_w
    pub high : 1 ≤ info.scaled_h

  letterbox-IsPlaced :
      (frame : VideoFrame) (tw th : ℕ) → 1 ≤ tw → 1 ≤ th → IsPlaced (letterbox frame tw th) tw th
  unfolding letterbox
  letterbox-IsPlaced frame tw th h k =
      let w = clamp_ℤ_bounds _ 1 tw h in
      let v = clamp_ℤ_bounds _ 1 th k in
      record { across = omega arith; down = omega arith; wide = w.0; high = v.0 }

  copy_pixel-Returns :
      (format : PixelFormat) (d : Bytes) (size i idx : ℕ) (out : List F)
      → i + 3 ≤ length d
      → idx < size
      → length out ≡ 3 * size
      → Returns (λ after. length after ≡ 3 * size) (copy_pixel format d size i idx out)
  unfolding copy_pixel
  copy_pixel-Returns format d size i idx out h k e =
      Returns-bind Anything _ (read d i) _ (read-Returns d i (omega arith)) (λ p0 _.
        Returns-bind Anything _ (read d (i + 1)) _ (read-Returns d (i + 1) (omega arith)) (λ p1 _.
          Returns-bind Anything _ (read d (i + 2)) _ (read-Returns d (i + 2) (omega arith)) (λ p2 _.
            Returns-bind _ _ (write out idx _) _ (write-Returns out idx _ (omega arith)) (λ red er.
              Returns-bind _ _ (write red (size + idx) _) _
                (write-Returns red (size + idx) _ (omega arith))
                (λ green eg.
                  Returns-weaken _ _ (write green (size + size + idx) _)
                    (write-Returns green (size + size + idx) _ (omega arith))
                    (λ blue eb. eb ∙ eg ∙ er ∙ e))))))

  module _ (frame : VideoFrame) (d : Bytes) (tw th : ℕ) (info : LetterboxInfo F)
      (mapped : IsMapped frame (row_bytes frame) d) (some_width : 0 < frame.width)
      (some_height : 0 < frame.height) (placed : IsPlaced info tw th)
      (small : tw * th < 2 ^ 31) where
    -- The planes have their size.
    abbrev Sized : List F → Type 0
    Sized out = length out ≡ 3 * (tw * th)

    copy_row-Returns :
        (left x y sy : ℕ) (out : List F)
        → x + left ≤ info.scaled_w
        → y < info.scaled_h
        → sy < frame.height
        → Sized out
        → Returns Sized (
            copy_row frame d tw th info left x
              (sy * row_bytes frame % 2 ^ 32)
              ((info.pad_y + y) * tw)
              out)
    unfolding copy_row
    copy_row-Returns zero x y sy out h k m e = e
    copy_row-Returns (suc left) x y sy out h k m e =
        let sx = source_index (f.div f.one info.scale) x frame.width in
        let row = sy * row_bytes frame % 2 ^ 32 in
        let offset = (info.pad_y + y) * tw in
        let place = sx * bytes_per_pixel frame.format % 2 ^ 32 in
        let source : row + place + 3 ≤ length d = omega (
          arith,
          pixel_within frame (row_bytes frame) d sx sy mapped
              (at_most_last-lt _ frame.width some_width) m,
          mod_le (sx * bytes_per_pixel frame.format),
        ) in
        let target : offset + (info.pad_x + x) < tw * th =
          omega
            (arith, row_of (info.pad_y + y) th tw (omega (arith, placed.down)), placed.across) in
        Returns-bind Sized Sized
          (copy_pixel frame.format d (tw * th) (row + place) (offset + (info.pad_x + x)) out)
          (copy_row frame d tw th info left (x + 1) row offset)
          (copy_pixel-Returns frame.format d (tw * th) (row + place) (offset + (info.pad_x + x)) out
            source target e)
          (λ after e'. copy_row-Returns left (x + 1) y sy after (omega arith) k m e')

    copy_rows-Returns :
        (left y : ℕ) (out : List F)
        → y + left ≤ info.scaled_h
        → Sized out
        → Returns Sized (copy_rows frame d tw th info left y out)
    unfolding copy_rows
    copy_rows-Returns zero y out h e = e
    copy_rows-Returns (suc left) y out h e =
        let sy = source_index (f.div f.one info.scale) y frame.height in
        let fits : (info.pad_y + y) * tw < 2 ^ 31 =
          omega (arith, row_of (info.pad_y + y) th tw (omega (arith, placed.down)), small) in
        rw (lt→ltb ((info.pad_y + y) * tw) (2 ^ 31) fits) (
          Returns-bind Sized Sized
            (copy_row frame d tw th info info.scaled_w 0 (sy * row_bytes frame % 2 ^ 32)
              ((info.pad_y + y) * tw) out)
            (copy_rows frame d tw th info left (y + 1))
            (copy_row-Returns info.scaled_w 0 y sy out (omega arith) (omega arith)
              (at_most_last-lt _ frame.height some_height) e)
            (λ after e'. copy_rows-Returns left (y + 1) after (omega arith) e'))

  -- What `preprocess` gives: planes of the right size, and the picture within the target.
  abbrev pub IsPreprocessed : ℕ → ℕ → LetterboxInfo F × List F → Type 0
  IsPreprocessed tw th (info, out) = (length out ≡ 3 * (tw * th)) × IsPlaced info tw th

-- A frame with pixels, whose buffer has all its rows, is scaled into a target of at least one pixel
-- and less than 2 ^ 31 pixels without an access out of bounds or an overflow of a row's offset,
-- whatever the arithmetic of floats gives: the planes have three times the target's size, and the
-- picture has at least one pixel and lies within the target.
pub preprocess-Returns :
    (F : Type 0) ⦃f : Float F⦄ (frame : VideoFrame) (d : Bytes) (tw th : ℕ)
    → frame.bytes ≡ some d
    → IsMapped frame (row_bytes frame) d
    → 0 < frame.width
    → 0 < frame.height
    → 1 ≤ tw
    → 1 ≤ th
    → tw * th < 2 ^ 31
    → Returns (IsPreprocessed {F = F} tw th) (preprocess frame tw th)
unfolding preprocess
preprocess-Returns F ⦃f⦄ frame d tw th b mapped w h ht hv small =
    let info : LetterboxInfo F = letterbox frame tw th in
    let placed : IsPlaced info tw th = letterbox-IsPlaced frame tw th ht hv in
    let not_empty : (frame.width == 0 || frame.height == 0) ≡ false = ground (arith, w, h) in
    subst
      (λ o.
        Returns (IsPreprocessed {F = F} tw th)
          (preprocess_bytes o (frame.width == 0 || frame.height == 0) frame tw th))
      (sym b)
      (subst
        (λ empty.
          Returns (IsPreprocessed {F = F} tw th) (preprocess_bytes (some d) empty frame tw th))
        (sym not_empty)
        (Returns-bind (λ out. length out ≡ 3 * (tw * th)) (IsPreprocessed tw th)
          (copy_rows frame d tw th info info.scaled_h 0 (gray tw th)) (λ out. got (info, out))
          (copy_rows-Returns frame d tw th info mapped w h placed small info.scaled_h 0 (gray tw th)
            (omega arith) (length-replicate (3 * (tw * th)) (f.decimal 447 3)))
          (λ out e. (e, placed))))
