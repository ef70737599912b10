-- ===== src/Detector.antt =====
-- What `OnnxDetector::detect` does with the output of the model
-- (platform/linux/inference/onnx_detector.cpp). The runtime's answer and `std::sort` are arguments.
pub mod Suppression
pub mod Candidates
use degoonification.Common.{
  ℕ, zero, suc, ◌+◌, ◌-◌, ◌*◌, ◌%◌, ◌^◌, Bool, true, false, ◌&&◌, ◌||◌, ltb, ◌==◌, if◌then◌else◌,
  Option, none, some, List, [], ◌∷◌,
}
use degoonification.Float.{Float, clamp}
use degoonification.Preprocessor.{LetterboxInfo}
use degoonification.Common.Int.{int_of_bits}
use degoonification.Boxes.{BoundingBox, overlaps}
use degoonification.Detector.Suppression.{non_maximum_suppression}

-- `input_width` and `input_height` are bit patterns of `int`.
pub record DetectorConfig (F : Type 0) : Type 0 where
  pub confidence_threshold : F
  pub nms_iou_threshold : F
  pub input_width : ℕ
  pub input_height : ℕ

-- The first output tensor: its second and third dimension, and its data.
pub record Output (F : Type 0) : Type 0 where
  pub rows : ℕ
  pub cols : ℕ
  pub out_data : ℕ → F

unfoldable pub is_explicit_class : ℕ → Bool
is_explicit_class class_id =
    class_id == 0
    || class_id == 2
    || class_id == 3
    || class_id == 4
    || class_id == 6
    || class_id == 13
    || class_id == 14
    || class_id == 15
    || class_id == 16
    || class_id == 17

module _ {F : Type 0} ⦃f : Float F⦄ where
  open f use {add, sub, mul, div, lt, le, half, of_int}

  -- `scaled_w > 0 ? scaled_w : input_width`
  abbrev pub scaled : ℕ → ℕ → F
  scaled size input = if ltb 0 size then f.of_nat size else of_int (int_of_bits input)

  -- The loop over the classes, `left` of them from `c` on: `max_score` and `best_class`.
  unfoldable pub best_of : Output F → ℕ → ℕ → ℕ → F × ℕ → F × ℕ
  best_of out col zero c best = best
  best_of out col (suc left) c best =
      let score = out.out_data ((4 + c) * out.cols + col) in
      best_of out col left (c + 1) (if lt best.0 score then (score, c % 2 ^ 32) else best)

  -- `max_score` starts at 0 and `best_class` at -1; there are `rows - 4` classes.
  unfoldable pub best_class : Output F → ℕ → F × ℕ
  unfolding best_of
  best_class out col = best_of out col (out.rows - 4) 0 (f.zero, 2 ^ 32 - 1)

  -- The box of a column, in coordinates of the frame.
  unfoldable pub decode : DetectorConfig F → LetterboxInfo F → Output F → ℕ → F × ℕ → BoundingBox F
  decode config letterbox out col best =
      let scaled_w = scaled letterbox.scaled_w config.input_width in
      let scaled_h = scaled letterbox.scaled_h config.input_height in
      let norm_cx =
        div (sub (out.out_data (0 * out.cols + col)) (f.of_nat letterbox.pad_x)) scaled_w in
      let norm_cy =
        div (sub (out.out_data (1 * out.cols + col)) (f.of_nat letterbox.pad_y)) scaled_h in
      let norm_w = div (out.out_data (2 * out.cols + col)) scaled_w in
      let norm_h = div (out.out_data (3 * out.cols + col)) scaled_h in
      let x = clamp (sub norm_cx (mul norm_w half)) f.zero f.one in
      let y = clamp (sub norm_cy (mul norm_h half)) f.zero f.one in
      record {
        x = x;
        y = y;
        width = clamp norm_w f.zero (sub f.one x);
        height = clamp norm_h f.zero (sub f.one y);
        confidence = best.0;
        class_id = best.1;
        timestamp_ms = 0;
      }

  -- The guards on a column.
  unfoldable pub is_accepted : DetectorConfig F → F × ℕ → Bool
  is_accepted config best = le config.confidence_threshold best.0 && is_explicit_class best.1

  unfoldable pub is_large : BoundingBox F → Bool
  is_large b = lt (f.decimal 5 3) b.width && lt (f.decimal 5 3) b.height

  -- The loop over the columns, `left` of them from `col` on.
  unfoldable pub candidates_from :
      DetectorConfig F → LetterboxInfo F → Output F → ℕ → ℕ → List (BoundingBox F)
  unfolding best_class decode is_accepted is_large
  candidates_from config letterbox out zero col = []
  candidates_from config letterbox out (suc left) col =
      let rest = candidates_from config letterbox out left (col + 1) in
      let best = best_class out col in
      let b = decode config letterbox out col best in
      if is_accepted config best && is_large b then b ∷ rest else rest

  -- `detect`; the output is `none` where the runtime throws, or gives no tensor or not enough
  -- dimensions.
  unfoldable pub detect :
      DetectorConfig F
      → (List (BoundingBox F) → List (BoundingBox F))
      → Bool
      → Option (Output F)
      → LetterboxInfo F
      → List (BoundingBox F)
  unfolding candidates_from non_maximum_suppression
  detect config sort false output letterbox = []
  detect config sort true none letterbox = []
  detect config sort true (some out) letterbox =
      non_maximum_suppression (overlaps config.nms_iou_threshold)
        (sort (candidates_from config letterbox out out.cols 0))
