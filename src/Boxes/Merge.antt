-- ===== src/Boxes/Merge.antt =====
-- `merge_overlapping_boxes` of core/engine_shared/src/temporal_smoothing.cpp, which
-- platform/linux/inference/visual_anchor_tracker.hpp repeats. The passes are stated for any test and
-- any union of two items.
pub mod Passes
pub mod Loop
use degoonification.Common.{
  ℕ, zero, suc, Bool, true, false, ◌||◌, leb, if◌then◌else◌, Option, none, some, List, [], ◌∷◌,
  length,
}
use degoonification.Float.{Float}
use degoonification.Boxes.{BoundingBox, overlaps, united}

module _ {A : Type 0} (hit : A → A → Bool) (join : A → A → A) where
  -- The inner loop, over the items behind `current` with their `consumed` flags: `current`, the
  -- flags, and `merged_any` after it.
  unfoldable pub absorb : A → List (A × Bool) → A × List (A × Bool) × Bool
  absorb current [] = (current, [], false)
  absorb current ((b, true) ∷ rest) = let r = absorb current rest in (r.0, (b, true) ∷ r.1, r.2)
  absorb current ((b, false) ∷ rest) = elim (hit current b) [
    | true ↦ let r = absorb (join current b) rest in (r.0, (b, true) ∷ r.1, true)
    | false ↦ let r = absorb current rest in (r.0, (b, false) ∷ r.1, r.2)
  ]

  -- The outer loop, with `boxes.size() - i` rounds left: `next_stage` and `merged_any`.
  unfoldable pub pass : ℕ → List (A × Bool) → List A × Bool
  pass zero l = ([], false)
  pass (suc n) [] = ([], false)
  pass (suc n) ((b, true) ∷ rest) = pass n rest
  pass (suc n) ((b, false) ∷ rest) =
      let r = absorb b rest in let out = pass n r.1 in (r.0 ∷ out.0, r.2 || out.1)

  abbrev pub unconsumed : List A → List (A × Bool)
  unconsumed [] = []
  unconsumed (b ∷ rest) = (b, false) ∷ unconsumed rest

  -- `while (merged_any)`, with fuel.
  unfoldable pub merge_loop : ℕ → List A → Option (List A)
  merge_loop zero boxes = none
  merge_loop (suc fuel) boxes =
      let r = pass (length boxes) (unconsumed boxes) in
      elim r.1 [ true ↦ merge_loop fuel r.0 | false ↦ some r.0 ]

  -- `boxes.size() <= 1` returns at once.
  unfoldable pub merge : List A → Option (List A)
  merge boxes = if leb (length boxes) 1 then some boxes else merge_loop (suc (length boxes)) boxes

module _ {F : Type 0} ⦃f : Float F⦄ where
  unfoldable pub merge_overlapping_boxes : F → List (BoundingBox F) → Option (List (BoundingBox F))
  merge_overlapping_boxes threshold = merge (overlaps threshold) united
