-- ===== src/Overlay/Filling.antt =====
-- What the loops of `WaylandOverlay::render_boxes` paint.
use degoonification.Common.{
  ℕ, zero, suc, ◌+◌, ◌*◌, ◌%◌, ◌^◌, ◌≤◌, ◌<◌, ◌≡◌, ◌∙◌, Bool, ◌||◌, List, length, arith,
}
use degoonification.Common.Reads.{Reads, ◌>>=◌, write, Returns, Returns-bind, Returns-weaken}
use degoonification.Overlay.Pixels.{fill_row, fill_rows}
use degoonification.Overlay.Painting.{
  inside, inside-none, inside-no_row, Paints, Paints-same, Paints-none, Paints-then, write-Paints,
}

module _ (w h : ℕ) (P : ℕ → Type 0) (w_h : w * h < 2 ^ 32) where
  -- A step paints one part of a region, and what follows the other part.
  pub Paints-bind :
      (r r' whole : ℕ → ℕ → Bool) (buffer : List ℕ) (m : Reads (List ℕ))
      (k : List ℕ → Reads (List ℕ))
      → length buffer ≡ w * h
      → ((x y : ℕ) → x < w → y < h → (r x y || r' x y) ≡ whole x y)
      → Returns (Paints w h P r buffer) m
      → ((b : List ℕ) → length b ≡ w * h → Returns (Paints w h P r' b) (k b))
      → Returns (Paints w h P whole buffer) (m >>= k)
  Paints-bind r r' whole buffer m k size parts first next =
      Returns-bind (Paints w h P r buffer) (Paints w h P whole buffer) m k first (λ b p.
        Returns-weaken (Paints w h P r' b) (Paints w h P whole buffer) (k b)
          (next b (p.same_size ∙ size))
          (λ c q.
            Paints-same w h P (λ x y. r x y || r' x y) whole buffer c parts
              (Paints-then w h P r r' buffer b c p q)))

  pub fill_row-Paints :
      (color left x y : ℕ) (buffer : List ℕ)
      → length buffer ≡ w * h
      → x + left ≤ w
      → y < h
      → P color
      → Returns
          (Paints w h P (inside x y (x + left) (y + 1)) buffer)
          (fill_row w color left y x buffer)
  unfolding fill_row
  fill_row-Paints color zero x y buffer size hx hy good =
      Paints-none w h P (inside x y (x + 0) (y + 1)) buffer
        (λ x' y' k m. inside-none x y (x + 0) (y + 1) x' y' (omega arith))
  fill_row-Paints color (suc left) x y buffer size hx hy good =
      Paints-bind (inside x y (x + 1) (y + 1)) (inside (x + 1) y (x + 1 + left) (y + 1))
        (inside x y (x + suc left) (y + 1)) buffer (write buffer (y * w % 2 ^ 32 + x) color)
        (fill_row w color left y (x + 1)) size (λ x' y' k m. ground arith)
        (write-Paints w h P w_h buffer x y color size (omega arith) hy good)
        (λ b size'. fill_row-Paints color left (x + 1) y b size' (omega arith) hy good)

  pub fill_rows-Paints :
      (color wide left x y : ℕ) (buffer : List ℕ)
      → length buffer ≡ w * h
      → x + wide ≤ w
      → y + left ≤ h
      → P color
      → Returns
          (Paints w h P (inside x y (x + wide) (y + left)) buffer)
          (fill_rows w color wide left x y buffer)
  unfolding fill_rows
  fill_rows-Paints color wide zero x y buffer size hx hy good =
      Paints-none w h P (inside x y (x + wide) (y + 0)) buffer
        (λ x' y' k m. inside-no_row x y (x + wide) (y + 0) x' y' (omega arith))
  fill_rows-Paints color wide (suc left) x y buffer size hx hy good =
      Paints-bind (inside x y (x + wide) (y + 1)) (inside x (y + 1) (x + wide) (y + 1 + left))
        (inside x y (x + wide) (y + suc left)) buffer (fill_row w color wide y x buffer)
        (fill_rows w color wide left x (y + 1)) size (λ x' y' k m. ground arith)
        (fill_row-Paints color wide x y buffer size hx (omega arith) good)
        (λ b size'. fill_rows-Paints color wide left x (y + 1) b size' hx (omega arith) good)
