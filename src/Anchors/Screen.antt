-- ===== src/Anchors/Screen.antt =====
-- What `VisualAnchorTracker::process_frame` draws and keeps.
use degoonification.Common.{
  ℕ, ◌+◌, ◌≤◌, ◌<◌, ◌≡◌, refl, ◌∙◌, false, ◌||◌, ◌==◌, Option, some, List, [], ◌∷◌, map, All,
  is_empty, arith, Bool-cases, inl, inr,
}
use degoonification.Common.Reads.{Reads, Returns, Returns-bind, Anything}
use degoonification.Float.{Float}
use degoonification.Boxes.{BoundingBox, expanded, overlaps, united}
use degoonification.Boxes.Merge.Loop.{Merged, merge_overlapping_boxes_lem}
use degoonification.Video.{VideoFrame}
use degoonification.Anchors.Reading.{IsReadable}
use degoonification.Anchors.Shields.{
  check_all-Returns, SeenNow, ingest_one-Returns, ingest-Returns, ingest-SeenNow,
}
use degoonification.Anchors.{
  TrackedShield, AnchorTrackerConfig, AnchorTracker, max_age, is_stale, purge, check_all,
  ingest_one, ingest, render, process_frame,
}

module _ {F : Type 0} where
  -- A shield that was seen not later than now, and more recently than its maximal age.
  pub record IsFresh (config : AnchorTrackerConfig F) (now : ℕ) (s : TrackedShield F) : Type 0 where
    pub not_later : s.last_seen_ms ≤ now
    pub recent : now < s.last_seen_ms + max_age config s

  IsFresh-of_not_stale :
      (config : AnchorTrackerConfig F) (now : ℕ) (s : TrackedShield F)
      → is_stale config now s ≡ false
      → IsFresh config now s
  unfolding is_stale
  IsFresh-of_not_stale config now s h = ground arith

  purge-IsFresh :
      (config : AnchorTrackerConfig F) (now : ℕ) (shields : List (TrackedShield F))
      → All (IsFresh config now) (purge config now shields)
  unfolding purge
  purge-IsFresh config now [] = tt
  purge-IsFresh config now (s ∷ rest) = elim (Bool-cases (is_stale config now s)) [
    | inl e ↦ rw e (purge-IsFresh config now rest)
    | inr e ↦ rw e (IsFresh-of_not_stale config now s e, purge-IsFresh config now rest)
  ]

  -- A shield that was seen now is kept, if shields may have an age.
  kept_now :
      (config : AnchorTrackerConfig F) (now : ℕ) (s : TrackedShield F)
      → 0 < config.persistence_window_ms
      → 0 < config.dynamic_decay_ms
      → s.last_seen_ms ≡ now
      → is_stale config now s ≡ false
  unfolding is_stale
  kept_now config now s h k e = ground arith

  purge-kept :
      (config : AnchorTrackerConfig F) (now : ℕ) (shields : List (TrackedShield F))
      → 0 < config.persistence_window_ms
      → 0 < config.dynamic_decay_ms
      → SeenNow now shields
      → is_empty (purge config now shields) ≡ false
  unfolding purge
  purge-kept config now [] h k e = absurd e
  purge-kept config now (s ∷ rest) h k (inl e) = rw (kept_now config now s h k e) refl
  purge-kept config now (s ∷ rest) h k (inr e) = elim (Bool-cases (is_stale config now s)) [
    | inl g ↦ rw g (purge-kept config now rest h k e)
    | inr g ↦ rw g refl
  ]

is_empty-map : {A B : Type 0} (g : A → B) (l : List A) → is_empty (map g l) ≡ is_empty l
is_empty-map g [] = refl
is_empty-map g (a ∷ l) = refl

module _ {F : Type 0} ⦃f : Float F⦄ where
  -- What a frame leaves: drawn boxes that are merged from the shields, fresh shields, the
  -- configuration.
  pub record IsShown (config : AnchorTrackerConfig F) (now : ℕ)
      (r : Option (List (BoundingBox F)) × AnchorTracker F) : Type 0 where
    pub out : List (BoundingBox F)
    pub shown : r.0 ≡ some out
    pub merged :
        Merged
          (overlaps config.merge_iou_threshold)
          united
          (map (λ s. expanded config.padding_ratio s.box) r.1.shields)
          out
    pub fresh : All (IsFresh config now) r.1.shields
    pub same_config : r.1.config ≡ config

  IsShown-of :
      (now : ℕ) (t : AnchorTracker F) (shields : List (TrackedShield F))
      → IsShown t.config now (
        render t.config (purge t.config now shields),
        record t { shields = purge t.config now shields },
      )
  IsShown-of now t shields =
      let kept = purge t.config now shields in
      let (out, shown, merged) =
        merge_overlapping_boxes_lem t.config.merge_iou_threshold
          (map (λ s. expanded t.config.padding_ratio s.box) kept) in
      record {
        out = out;
        shown = shown;
        merged = merged;
        fresh = purge-IsFresh t.config now shields;
        same_config = refl;
      }

  -- A list of boxes is drawn, and it is not empty.
  abbrev pub IsCovered : Option (List (BoundingBox F)) × AnchorTracker F → Type 0
  IsCovered r = (out : List (BoundingBox F)) × (r.0 ≡ some out) × (is_empty out ≡ false)

  module _ (frame : VideoFrame) (now : ℕ) (t : AnchorTracker F)
      (h : IsReadable frame frame.bytes) where
    abbrev checked : Reads (List (TrackedShield F))
    checked =
        check_all frame.bytes (frame.width == 0 || frame.height == 0) t.config frame now t.shields

    checked-Returns : Returns Anything checked
    checked-Returns =
        check_all-Returns frame frame.bytes (frame.width == 0 || frame.height == 0) t.config now
          t.shields h

    -- A frame whose bytes, where it has some, are those of all its rows, with rows whose pixels
    -- take less than 2 ^ 31 bytes, makes no access out of bounds and no overflow of a pixel's
    -- offset. It draws a list of boxes, merged from the shields that are left, all of which are
    -- fresh; the configuration stays.
    pub process_frame-Returns :
        (dets : List (BoundingBox F))
        → Returns (IsShown t.config now) (process_frame frame dets now t)
    unfolding process_frame
    process_frame-Returns dets =
        Returns-bind Anything (IsShown t.config now) checked _ checked-Returns (λ c _.
          Returns-bind Anything (IsShown t.config now) (ingest t.config frame now dets c) _
            (ingest-Returns t.config frame now h dets c) (λ shields _. IsShown-of now t shields))

    -- A frame with a detection draws at least one box, if its bytes, where it has some, are those
    -- of all its rows, with rows whose pixels take less than 2 ^ 31 bytes, and shields may have an
    -- age.
    pub process_frame-IsCovered :
        (det : BoundingBox F) (dets : List (BoundingBox F))
        → 0 < t.config.persistence_window_ms
        → 0 < t.config.dynamic_decay_ms
        → Returns IsCovered (process_frame frame (det ∷ dets) now t)
    unfolding process_frame ingest
    process_frame-IsCovered det dets k m =
        Returns-bind Anything IsCovered checked _ checked-Returns (λ c _.
          Returns-bind (SeenNow now) IsCovered (ingest t.config frame now (det ∷ dets) c) _
            (Returns-bind (SeenNow now) (SeenNow now) (ingest_one t.config frame now det c) _
              (ingest_one-Returns t.config frame now h det c)
              (λ after e. ingest-SeenNow t.config frame now h dets after e))
            (λ shields e.
              let s = IsShown-of now t shields in
              let (apart, few, full) = s.merged in
              (
                s.out,
                s.shown,
                full
                    ∙ is_empty-map (λ s. expanded t.config.padding_ratio s.box)
                        (purge t.config now shields)
                    ∙ purge-kept t.config now shields k m e,
              )))
