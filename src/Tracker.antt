-- ===== src/Tracker.antt =====
-- `TemporalSmoothingTracker` of core/engine_shared/src/temporal_smoothing.cpp and
-- temporal_smoothing.hpp. Every method holds the mutex, so a method is one step.
pub mod Window
pub mod Frames
pub mod Screen
use degoonification.Common.{
  ℕ, ◌-◌, Bool, ◌||◌, ltb, leb, if◌then◌else◌, Option, List, [], ◌∷◌, length, map,
}
use degoonification.Float.{Float}
use degoonification.Boxes.{BoundingBox, expanded, overlaps, united}
use degoonification.Boxes.Merge.{merge_overlapping_boxes}

pub record TrackerConfig (F : Type 0) : Type 0 where
  pub persistence_window_ms : ℕ
  pub padding_ratio : F
  pub merge_iou_threshold : F

pub record Tracker (F : Type 0) : Type 0 where
  pub config : TrackerConfig F
  pub tracked_boxes : List (BoundingBox F)

-- The constructor.
abbrev pub new_tracker : {F : Type 0} → TrackerConfig F → Tracker F
new_tracker config = record { config = config; tracked_boxes = [] }

module _ {F : Type 0} where
  -- The test of `remove_if`.
  unfoldable pub is_stale : ℕ → ℕ → BoundingBox F → Bool
  is_stale window now b = ltb now b.timestamp_ms || leb window (now - b.timestamp_ms)

  -- 1. Stale boxes are erased.
  unfoldable pub purge : ℕ → ℕ → List (BoundingBox F) → List (BoundingBox F)
  unfolding is_stale
  purge window now [] = []
  purge window now (b ∷ rest) =
      let kept = purge window now rest in if is_stale window now b then kept else b ∷ kept

  abbrev pub stamp : ℕ → BoundingBox F → BoundingBox F
  stamp now b = record b { timestamp_ms = now }

  pub active_count : Tracker F → ℕ
  active_count t = length t.tracked_boxes

  pub reset : Tracker F → Tracker F
  reset t = record t { tracked_boxes = [] }

  pub set_config : TrackerConfig F → Tracker F → Tracker F
  set_config config t = record t { config = config }

module _ {F : Type 0} ⦃f : Float F⦄ where
  -- A detection is united with the first box that it overlaps, or tracked as a new box.
  unfoldable pub ingest_one : F → ℕ → BoundingBox F → List (BoundingBox F) → List (BoundingBox F)
  ingest_one threshold now det [] = det ∷ []
  ingest_one threshold now det (existing ∷ rest) =
      let later = existing ∷ ingest_one threshold now det rest in
      if overlaps threshold existing det then stamp now (united existing det) ∷ rest else later

  -- 2. The detections of a frame.
  unfoldable pub ingest : F → ℕ → List (BoundingBox F) → List (BoundingBox F) → List (BoundingBox F)
  unfolding ingest_one
  ingest threshold now [] tracked = tracked
  ingest threshold now (det ∷ dets) tracked =
      ingest threshold now dets (ingest_one threshold now (stamp now det) tracked)

  -- The boxes that are tracked after a frame.
  unfoldable pub track : List (BoundingBox F) → ℕ → Tracker F → Tracker F
  unfolding purge ingest
  track raw_detections now t = record t {
    tracked_boxes =
        ingest t.config.merge_iou_threshold now raw_detections
          (purge t.config.persistence_window_ms now t.tracked_boxes);
  }

  -- 3. and 4. The boxes that are drawn.
  unfoldable pub render : Tracker F → Option (List (BoundingBox F))
  render t =
      merge_overlapping_boxes t.config.merge_iou_threshold
        (map (expanded t.config.padding_ratio) t.tracked_boxes)

  unfoldable pub process_frame :
      List (BoundingBox F) → ℕ → Tracker F → Option (List (BoundingBox F)) × Tracker F
  unfolding track render
  process_frame raw_detections now t =
      let tracked = track raw_detections now t in (render tracked, tracked)
