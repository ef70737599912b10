-- ===== src/Tests/Frames.antt =====
-- Frames: examples for the theorems on boxes and on the tracker, with whole numbers in place of
-- `float`.
use degoonification.Common.{
  refl, length, take, drop, ◌++◌, ℕ, ◌+◌, ◌≤◌, ◌≡◌, true, some, List, [], ◌∷◌, All, arith,
}
use degoonification.CApi.{dg_tracker_process}
use degoonification.CApi.Calls.{least, dg_tracker_process_lem}
use degoonification.Preprocessor.{LetterboxInfo}
use degoonification.Detector.{DetectorConfig, Output, detect, candidates_from}
use degoonification.Detector.Suppression.{Apart, CoveredBy}
use degoonification.Detector.Candidates.{IsCandidate, detect_lem, candidates_from-IsCandidate}
use degoonification.Tests.Numbers.{whole_float, whole-IsStrict}
use degoonification.Boxes.{BoundingBox, overlaps, united}
use degoonification.Boxes.Merge.{merge_overlapping_boxes}
use degoonification.Boxes.Merge.Loop.{Merged, merge_overlapping_boxes_lem}
use degoonification.Tracker.{Tracker, active_count, process_frame}
use degoonification.Tracker.Frames.{IsTimely}
use degoonification.Tracker.Screen.{
  IsDrawn, screens, no_flicker, process_frame-IsTimely, process_frame-expiry,
}

abbrev near : BoundingBox ℕ
near = record {
  x = 10;
  y = 10;
  width = 20;
  height = 20;
  confidence = 1;
  class_id = 0;
  timestamp_ms = 5;
}

abbrev far : BoundingBox ℕ
far = record {
  x = 60;
  y = 60;
  width = 9;
  height = 9;
  confidence = 2;
  class_id = 1;
  timestamp_ms = 5;
}

abbrev tracker : Tracker ℕ
tracker = record {
  config = record { persistence_window_ms = 800; padding_ratio = 1; merge_iou_threshold = 0 };
  tracked_boxes = far ∷ [];
}

merge_example :
    (out : List (BoundingBox ℕ)) × (merge_overlapping_boxes 0 (near ∷ far ∷ near ∷ []) ≡ some out)
    × Merged (overlaps 0) united (near ∷ far ∷ near ∷ []) out
merge_example = merge_overlapping_boxes_lem 0 (near ∷ far ∷ near ∷ [])

no_flicker_example :
    All IsDrawn (screens ((near ∷ [], 7) ∷ ([], 400) ∷ (far ∷ [], 806) ∷ []) tracker)
no_flicker_example =
    no_flicker 7 near [] (([], 400) ∷ (far ∷ [], 806) ∷ []) tracker
      (omega arith, omega arith, (omega arith, omega arith, tt))

process_frame-IsTimely_example :
    All (IsTimely 800 7) (process_frame (near ∷ []) 7 tracker).1.tracked_boxes
    × (active_count (process_frame (near ∷ []) 7 tracker).1 ≤ active_count tracker + 1)
process_frame-IsTimely_example = process_frame-IsTimely (near ∷ []) 7 tracker

process_frame-expiry_example :
    process_frame [] 807 (process_frame (near ∷ []) 7 tracker).1
    ≡ (some [], record tracker { tracked_boxes = [] })
process_frame-expiry_example = process_frame-expiry (near ∷ []) 7 807 tracker (omega arith)

process_example :
    (results : List (BoundingBox ℕ)) × ((process_frame (take 1 (near ∷ far ∷ [])) 7 tracker).0
      ≡ some results)
    × (dg_tracker_process (some tracker) (some (near ∷ far ∷ [])) 1 7 (some (far ∷ far ∷ [])) 2
        ≡ some (
          least (length results) 2,
          some (process_frame (take 1 (near ∷ far ∷ [])) 7 tracker).1,
          some (
              take (least (length results) 2) results
              ++ drop (least (length results) 2) (far ∷ far ∷ [])),
        ))
process_example =
    dg_tracker_process_lem tracker (near ∷ far ∷ []) 1 7 (far ∷ far ∷ []) 2 (omega arith)
      (omega arith) (omega arith) (omega arith) (omega arith)

abbrev detector : DetectorConfig ℕ
detector = record {
  confidence_threshold = 25;
  nms_iou_threshold = 0;
  input_width = 640;
  input_height = 640;
}

abbrev letterbox : LetterboxInfo ℕ
letterbox = record {
  scale = 1;
  pad_x = 0;
  pad_y = 0;
  scaled_w = 1;
  scaled_h = 1;
  orig_w = 1;
  orig_h = 1;
}

-- Two columns and one class.
abbrev output : Output ℕ
output = record { rows = 5; cols = 2; out_data = λ i. 90 }

detect_example :
    Apart (overlaps 0) (detect detector (λ l. l) true (some output) letterbox)
    × All
        (CoveredBy (overlaps 0) (detect detector (λ l. l) true (some output) letterbox))
        (candidates_from detector letterbox output 2 0)
detect_example = detect_lem detector (λ l. l) output letterbox

candidates_example : All (IsCandidate detector) (candidates_from detector letterbox output 2 0)
candidates_example = candidates_from-IsCandidate detector letterbox output 2 0 whole-IsStrict refl
