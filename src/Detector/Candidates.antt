-- ===== src/Detector/Candidates.antt =====
-- Which boxes `OnnxDetector::detect` gives.
use degoonification.Common.{
  ℕ, zero, suc, ◌+◌, ◌≡◌, refl, Bool, true, false, ◌&&◌, some, List, All, Bool-cases, inl, inr,
}
use degoonification.Float.{Float, IsStrict, clamp}
use degoonification.Boxes.{BoundingBox, overlaps}
use degoonification.Detector.Suppression.{Apart, CoveredBy, non_maximum_suppression_lem}
use degoonification.Preprocessor.{LetterboxInfo}
use degoonification.Detector.{
  DetectorConfig, Output, is_explicit_class, best_class, decode, is_accepted, is_large,
  candidates_from, detect,
}

both_true : (a b : Bool) → (a && b) ≡ true → (a ≡ true) × (b ≡ true)
both_true true b h = (refl, h)
both_true false b h = cc

module _ {F : Type 0} ⦃f : Float F⦄ where
  -- The detections, for any order that the sort gives: no detection overlaps a later one by more
  -- than the threshold, and each candidate is a detection or is overlapped by one.
  pub detect_lem :
      (config : DetectorConfig F) (sort : List (BoundingBox F) → List (BoundingBox F))
      (out : Output F) (letterbox : LetterboxInfo F)
      → Apart (overlaps config.nms_iou_threshold) (detect config sort true (some out) letterbox)
        × All
            (CoveredBy
              (overlaps config.nms_iou_threshold)
              (detect config sort true (some out) letterbox))
            (sort (candidates_from config letterbox out out.cols 0))
  unfolding detect
  detect_lem config sort out letterbox =
      non_maximum_suppression_lem (overlaps config.nms_iou_threshold)
        (sort (candidates_from config letterbox out out.cols 0))

  -- A box of an explicit class, with enough confidence, that starts within the frame and is not
  -- tiny.
  pub record IsCandidate (config : DetectorConfig F) (b : BoundingBox F) : Type 0 where
    pub confident : f.le config.confidence_threshold b.confidence ≡ true
    pub explicit_class : is_explicit_class b.class_id ≡ true
    pub wide : f.lt (f.decimal 5 3) b.width ≡ true
    pub high : f.lt (f.decimal 5 3) b.height ≡ true
    pub right_of_0 : f.lt b.x f.zero ≡ false
    pub left_of_1 : f.lt f.one b.x ≡ false
    pub below_0 : f.lt b.y f.zero ≡ false
    pub above_1 : f.lt f.one b.y ≡ false

  clamp_bounds :
      (v lo hi : F)
      → IsStrict F
      → f.lt hi lo ≡ false
      → (f.lt (clamp v lo hi) lo ≡ false) × (f.lt hi (clamp v lo hi) ≡ false)
  clamp_bounds v lo hi laws h = elim (Bool-cases (f.lt v lo)) [
    | inl e ↦ rw e (laws.irrefl lo, h)
    | inr e ↦ elim (Bool-cases (f.lt hi v)) [
      | inl g ↦ rw e (rw g (h, laws.irrefl hi))
      | inr g ↦ rw e (rw g (e, g))
    ]
  ]

  accepted-IsCandidate :
      (config : DetectorConfig F) (letterbox : LetterboxInfo F) (out : Output F) (col : ℕ)
      (best : F × ℕ)
      → IsStrict F
      → f.lt f.one f.zero ≡ false
      → is_accepted config best ≡ true
      → is_large (decode config letterbox out col best) ≡ true
      → IsCandidate config (decode config letterbox out col best)
  unfolding decode is_accepted is_large
  accepted-IsCandidate config letterbox out col best laws h g k =
      let (confident, explicit) =
        both_true (f.le config.confidence_threshold best.0) (is_explicit_class best.1) g in
      let (wide, high) = both_true _ _ k in
      let across = clamp_bounds _ f.zero f.one laws h in
      let down = clamp_bounds _ f.zero f.one laws h in
      record {
        confident = confident;
        explicit_class = explicit;
        wide = wide;
        high = high;
        right_of_0 = across.0;
        left_of_1 = across.1;
        below_0 = down.0;
        above_1 = down.1;
      }

  -- Every candidate is of an explicit class, has at least the confidence that is asked for, is
  -- wider and higher than 0.005, and neither coordinate of its start is below 0 or above 1,
  -- whatever the model gives, if `<` is a strict order and 1 is not below 0. (A coordinate that is
  -- not a number is neither below 0 nor above 1.)
  pub candidates_from-IsCandidate :
      (config : DetectorConfig F) (letterbox : LetterboxInfo F) (out : Output F) (left col : ℕ)
      → IsStrict F
      → f.lt f.one f.zero ≡ false
      → All (IsCandidate config) (candidates_from config letterbox out left col)
  unfolding candidates_from
  candidates_from-IsCandidate config letterbox out zero col laws h = tt
  candidates_from-IsCandidate config letterbox out (suc left) col laws h =
      let rest = candidates_from-IsCandidate config letterbox out left (col + 1) laws h in
      let best = best_class out col in
      let b = decode config letterbox out col best in
      elim (Bool-cases (is_accepted config best && is_large b)) [
        | inr e ↦ rw e rest
        | inl e ↦ rw e (
            let (g, k) = both_true (is_accepted config best) (is_large b) e in
            (accepted-IsCandidate config letterbox out col best laws h g k, rest))
      ]
