-- ===== src/Tracker/Screen.antt =====
-- The screen: what a sequence of frames shows, on `process_frame` of
-- core/engine_shared/src/temporal_smoothing.cpp.
use degoonification.Common.{
  length-map, ℕ, ◌+◌, ◌≤◌, ◌<◌, ◌≡◌, refl, ◌∙◌, true, false, inl, inr, Option, some, List, [], ◌∷◌,
  length, map, is_empty, All, arith,
}
use degoonification.Float.{Float}
use degoonification.Boxes.{BoundingBox, expanded, overlaps, united}
use degoonification.Boxes.Merge.{merge, merge_overlapping_boxes}
use degoonification.Boxes.Merge.Loop.{Merged, merge_overlapping_boxes_lem}
use degoonification.Tracker.{
  Tracker, is_stale, purge, stamp, active_count, ingest_one, ingest, track, render, process_frame,
}
use degoonification.Tracker.Window.{purge-IsFresh, purge-stale, stale_of_late}
use degoonification.Tracker.Frames.{
  Exists, IsSeen, IsTimely, purge-Exists, purge-shorter, ingest_one-Exists, ingest-Exists,
  ingest-All, ingest-length,
}

All-map : {A : Type 0} {P Q : A → Type 0} (l : List A) → ((a : A) → P a → Q a) → All P l → All Q l
All-map [] g h = tt
All-map (a ∷ l) g (h, hs) = (g a h, All-map l g hs)

module _ {F : Type 0} ⦃f : Float F⦄ where
  -- A list of boxes is drawn, and it is not empty.
  abbrev pub IsDrawn : Option (List (BoundingBox F)) → Type 0
  IsDrawn o = (out : List (BoundingBox F)) × (o ≡ some out) × (0 < length out)

  -- What a sequence of frames, with their times, shows.
  abbrev pub screens :
      List (List (BoundingBox F) × ℕ) → Tracker F → List (Option (List (BoundingBox F)))
  screens [] t = []
  screens ((ds, now) ∷ frames) t = let r = process_frame ds now t in r.0 ∷ screens frames r.1

  -- Frames whose times do not go back, and are less than a window after a time.
  abbrev pub IsWithin : ℕ → ℕ → ℕ → List (List (BoundingBox F) × ℕ) → Type 0
  IsWithin window from last [] = Unit {0}
  IsWithin window from last ((ds, now) ∷ frames) =
      (last ≤ now) × (now < from + window) × IsWithin window from now frames

  -- A frame draws a list of boxes, whatever it is given: the merging ends. No drawn box overlaps a
  -- later one by more than the threshold, they are no more than the boxes that are then tracked, and
  -- none is drawn only if none is tracked.
  pub process_frame_lem :
      (ds : List (BoundingBox F)) (now : ℕ) (t : Tracker F)
      → (out : List (BoundingBox F)) × ((process_frame ds now t).0 ≡ some out)
        × Merged
            (overlaps t.config.merge_iou_threshold)
            united
            (map (expanded t.config.padding_ratio) (track ds now t).tracked_boxes)
            out
  unfolding process_frame render track
  process_frame_lem ds now t =
      merge_overlapping_boxes_lem t.config.merge_iou_threshold
        (map (expanded t.config.padding_ratio) (track ds now t).tracked_boxes)

  draws :
      (from now : ℕ) (ds : List (BoundingBox F)) (t : Tracker F)
      → Exists (IsSeen from now) (track ds now t).tracked_boxes
      → IsDrawn (process_frame ds now t).0
  draws from now ds t e =
      let (out, shown, (apart, few, full)) = process_frame_lem ds now t in
      (out, shown, not_empty out (full ∙ some_drawn (track ds now t).tracked_boxes e))
    where
      some_drawn :
          (bs : List (BoundingBox F))
          → Exists (IsSeen from now) bs
          → is_empty (map (expanded t.config.padding_ratio) bs) ≡ false
      some_drawn [] h = absurd h
      some_drawn (b ∷ bs) h = refl

      not_empty : (out : List (BoundingBox F)) → is_empty out ≡ false → 0 < length out
      not_empty [] h = cc
      not_empty (b ∷ out) h = omega arith

  track-Exists :
      (from last now : ℕ) (ds : List (BoundingBox F)) (t : Tracker F)
      → from ≤ last
      → last ≤ now
      → now < from + t.config.persistence_window_ms
      → Exists (IsSeen from last) t.tracked_boxes
      → Exists (IsSeen from now) (track ds now t).tracked_boxes
  unfolding track
  track-Exists from last now ds t h k m e =
      ingest-Exists t.config.merge_iou_threshold from now ds
        (purge t.config.persistence_window_ms now t.tracked_boxes) (omega arith)
        (purge-Exists t.config.persistence_window_ms from last now t.tracked_boxes k m e)

  detected :
      (now : ℕ) (d : BoundingBox F) (ds : List (BoundingBox F)) (t : Tracker F)
      → Exists (IsSeen now now) (track (d ∷ ds) now t).tracked_boxes
  unfolding track ingest
  detected now d ds t =
      let kept = purge t.config.persistence_window_ms now t.tracked_boxes in
      ingest-Exists t.config.merge_iou_threshold now now ds
        (ingest_one t.config.merge_iou_threshold now (stamp now d) kept) (omega arith)
        (ingest_one-Exists t.config.merge_iou_threshold now now (stamp now d) kept (omega arith)
          refl)

  still-IsDrawn :
      (from last : ℕ) (frames : List (List (BoundingBox F) × ℕ)) (t : Tracker F)
      → from ≤ last
      → IsWithin t.config.persistence_window_ms from last frames
      → Exists (IsSeen from last) t.tracked_boxes
      → All IsDrawn (screens frames t)
  unfolding process_frame track
  still-IsDrawn from last [] t h w e = tt
  still-IsDrawn from last ((ds, now) ∷ frames) t h (k, m, w) e =
      let seen = track-Exists from last now ds t h k m e in
      (
        draws from now ds t seen,
        still-IsDrawn from now frames (track ds now t) (omega arith) w seen,
      )

  -- The screen does not flicker: the frame that has a detection, and every later frame less than a
  -- window after it, draw at least one box, whatever those frames detect or miss. The times of the
  -- frames must not go back.
  pub no_flicker :
      (now : ℕ) (d : BoundingBox F) (ds : List (BoundingBox F))
      (frames : List (List (BoundingBox F) × ℕ)) (t : Tracker F)
      → IsWithin t.config.persistence_window_ms now now frames
      → All IsDrawn (screens ((d ∷ ds, now) ∷ frames) t)
  unfolding process_frame track
  no_flicker now d ds frames t w = (
    draws now now (d ∷ ds) t (detected now d ds t),
    still-IsDrawn now now frames (track (d ∷ ds) now t) (omega arith) w (detected now d ds t),
  )

  -- After a frame, each tracked box was seen in it or less than a window before it, and there are at
  -- most as many as before and detections together.
  pub process_frame-IsTimely :
      (ds : List (BoundingBox F)) (now : ℕ) (t : Tracker F)
      → All (IsTimely t.config.persistence_window_ms now) (process_frame ds now t).1.tracked_boxes
        × (active_count (process_frame ds now t).1 ≤ active_count t + length ds)
  unfolding process_frame track active_count
  process_frame-IsTimely ds now t =
      let kept = purge t.config.persistence_window_ms now t.tracked_boxes in
      (
        ingest-All t.config.merge_iou_threshold t.config.persistence_window_ms now ds kept (
            All-map kept (λ b h. inr h)
              (purge-IsFresh t.config.persistence_window_ms now t.tracked_boxes)),
        omega (
          arith,
          ingest-length t.config.merge_iou_threshold now ds kept,
          purge-shorter t.config.persistence_window_ms now t.tracked_boxes,
        ),
      )

  late_IsStale :
      (window s now : ℕ) (bs : List (BoundingBox F))
      → s + window ≤ now
      → All (IsTimely window s) bs
      → All (λ b. is_stale window now b ≡ true) bs
  late_IsStale window s now bs h = All-map bs (λ b. elim [
    | inl e ↦ stale_of_late window now b (omega arith)
    | inr k ↦ stale_of_late window now b (omega (arith, k.not_later))
  ])

  cleared :
      (now : ℕ) (t : Tracker F)
      → purge t.config.persistence_window_ms now t.tracked_boxes ≡ []
      → process_frame [] now t ≡ (some [], record t { tracked_boxes = [] })
  unfolding process_frame track render ingest merge_overlapping_boxes merge
  cleared now t e = rw e refl

  -- A frame without detections, a window or more after the last frame, draws nothing and leaves no
  -- tracked box.
  pub process_frame-expiry :
      (ds : List (BoundingBox F)) (s now : ℕ) (t : Tracker F)
      → s + t.config.persistence_window_ms ≤ now
      → process_frame [] now (process_frame ds s t).1 ≡ (some [], record t { tracked_boxes = [] })
  unfolding process_frame
  process_frame-expiry ds s now t h = cleared now (track ds s t) (
      purge-stale t.config.persistence_window_ms now (track ds s t).tracked_boxes (
        late_IsStale t.config.persistence_window_ms s now (track ds s t).tracked_boxes h
          (process_frame-IsTimely ds s t).0))

  -- There are no more drawn boxes than tracked boxes and detections.
  pub process_frame-length :
      (ds : List (BoundingBox F)) (now : ℕ) (t : Tracker F)
      → (out : List (BoundingBox F)) × ((process_frame ds now t).0 ≡ some out)
        × (length out ≤ length t.tracked_boxes + length ds)
  unfolding process_frame active_count
  process_frame-length ds now t =
      let (out, shown, (apart, few, full)) = process_frame_lem ds now t in
      (
        out,
        shown,
        omega (
          arith,
          few,
          (process_frame-IsTimely ds now t).1,
          length-map (expanded t.config.padding_ratio) (track ds now t).tracked_boxes,
        ),
      )
