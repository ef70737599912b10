-- ===== src/Boxes/Bounds.antt =====
-- Bounds of the boxes that `expanded` and `united` build, from the order of floats alone.
use degoonification.Common.{◌≡◌, true, false, leb, arith, Bool-cases, inl, inr}
use degoonification.Float.{Float, fmax, fmin, IsStrict}
use degoonification.Boxes.{BoundingBox, expanded, united}

module _ {F : Type 0} ⦃f : Float F⦄ (laws : IsStrict F) where
  open f use {zero, one, lt}

  fmax_left : (a b : F) → lt (fmax a b) a ≡ false
  fmax_left a b = elim (Bool-cases (lt a b)) [
    | inl e ↦ rw e (laws.asym a b e)
    | inr e ↦ rw e (laws.irrefl a)
  ]

  fmin_left : (a b : F) → lt a (fmin a b) ≡ false
  fmin_left a b = elim (Bool-cases (lt b a)) [
    | inl e ↦ rw e (laws.asym b a e)
    | inr e ↦ rw e (laws.irrefl a)
  ]

  fmax_right : (a b : F) → lt (fmax a b) b ≡ false
  fmax_right a b = elim (Bool-cases (lt a b)) [ inl e ↦ rw e (laws.irrefl b) | inr e ↦ rw e e ]

  fmin_right : (a b : F) → lt b (fmin a b) ≡ false
  fmin_right a b = elim (Bool-cases (lt b a)) [ inl e ↦ rw e (laws.irrefl b) | inr e ↦ rw e e ]

  -- An expanded box starts at 0 or right of it, and has no negative extent, if `<` is a strict
  -- order.
  pub expanded_bounds :
      (ratio : F) (b : BoundingBox F)
      → (lt (expanded ratio b).x zero ≡ false)
        × (lt (expanded ratio b).y zero ≡ false)
        × (lt (expanded ratio b).width zero ≡ false)
        × (lt (expanded ratio b).height zero ≡ false)
  unfolding expanded
  expanded_bounds ratio b = (fmax_left zero _, fmax_left zero _, fmax_left zero _, fmax_left zero _)

  -- A united box starts no further right or down than either box, keeps the higher confidence and
  -- the later time, and has no negative extent, if `<` is a strict order.
  pub united_bounds :
      (a b : BoundingBox F)
      → (lt a.x (united a b).x ≡ false)
        × (lt b.x (united a b).x ≡ false)
        × (lt a.y (united a b).y ≡ false)
        × (lt b.y (united a b).y ≡ false)
        × (lt (united a b).width zero ≡ false)
        × (lt (united a b).height zero ≡ false)
        × (lt (united a b).confidence a.confidence ≡ false)
        × (lt (united a b).confidence b.confidence ≡ false)
        × (leb a.timestamp_ms (united a b).timestamp_ms ≡ true)
        × (leb b.timestamp_ms (united a b).timestamp_ms ≡ true)
  unfolding united
  united_bounds a b = (
    fmin_left _ _,
    fmin_right _ _,
    fmin_left _ _,
    fmin_right _ _,
    fmax_left zero _,
    fmax_left zero _,
    fmax_left _ _,
    fmax_right _ _,
    ground arith,
    ground arith,
  )
