-- ===== src/Boxes.antt =====
-- `BoundingBox` of core/engine_shared/include/engine_shared/bounding_box.hpp.
pub mod Bounds
pub mod Merge
use degoonification.Common.{ℕ, Bool, ltb, if◌then◌else◌}
use degoonification.Float.{Float, fmax, fmin}

-- `class_id` is the bit pattern of the `int32_t`.
pub record BoundingBox (F : Type 0) : Type 0 where
  pub x : F
  pub y : F
  pub width : F
  pub height : F
  pub confidence : F
  pub class_id : ℕ
  pub timestamp_ms : ℕ

module _ {F : Type 0} ⦃f : Float F⦄ where
  open f use {zero, one, half, add, sub, mul, div, lt, le}

  abbrev pub right : BoundingBox F → F
  right b = add b.x b.width

  abbrev pub bottom : BoundingBox F → F
  bottom b = add b.y b.height

  abbrev pub area : BoundingBox F → F
  area b = mul b.width b.height

  unfoldable pub expanded : F → BoundingBox F → BoundingBox F
  expanded ratio b =
      let dw = mul b.width ratio in
      let dh = mul b.height ratio in
      let nx1 = fmax zero (sub b.x (mul dw half)) in
      let ny1 = fmax zero (sub b.y (mul dh half)) in
      let nx2 = fmin one (add (add b.x b.width) (mul dw half)) in
      let ny2 = fmin one (add (add b.y b.height) (mul dh half)) in
      record b {
        x = nx1;
        y = ny1;
        width = fmax zero (sub nx2 nx1);
        height = fmax zero (sub ny2 ny1);
      }

  unfoldable pub iou : BoundingBox F → BoundingBox F → F
  iou b other =
      let ix1 = fmax b.x other.x in
      let iy1 = fmax b.y other.y in
      let ix2 = fmin (right b) (right other) in
      let iy2 = fmin (bottom b) (bottom other) in
      let intersection = mul (fmax zero (sub ix2 ix1)) (fmax zero (sub iy2 iy1)) in
      let union_area = sub (add (area b) (area other)) intersection in
      if le union_area zero then zero else div intersection union_area

  -- `iou(other) > threshold`
  unfoldable pub overlaps : F → BoundingBox F → BoundingBox F → Bool
  overlaps threshold b other = lt threshold (iou b other)

  unfoldable pub united : BoundingBox F → BoundingBox F → BoundingBox F
  united b other =
      let nx1 = fmin b.x other.x in
      let ny1 = fmin b.y other.y in
      let nx2 = fmax (right b) (right other) in
      let ny2 = fmax (bottom b) (bottom other) in
      record {
        x = nx1;
        y = ny1;
        width = fmax zero (sub nx2 nx1);
        height = fmax zero (sub ny2 ny1);
        confidence = fmax b.confidence other.confidence;
        class_id = if le other.confidence b.confidence then b.class_id else other.class_id;
        timestamp_ms =
            if ltb b.timestamp_ms other.timestamp_ms then other.timestamp_ms else b.timestamp_ms;
      }
