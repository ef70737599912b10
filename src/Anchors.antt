-- ===== src/Anchors.antt =====
-- `VisualAnchorTracker` of platform/linux/inference/visual_anchor_tracker.hpp. Every method holds the
-- mutex, so a method is one step. An access out of the frame's bytes is `fault`.
pub mod Pixels
pub mod Reading
pub mod Shields
pub mod Screen
use degoonification.Common.{
  ℕ, zero, ◌-◌, Bool, true, false, not, ◌&&◌, ◌||◌, ◌==◌, ltb, leb, if◌then◌else◌, Option, none,
  some, List, [], ◌∷◌, map, length, Bytes, is_empty,
}
use degoonification.Common.Int.{ℤ, pos, negsuc, minus, ◌+ℤ◌}
use degoonification.Common.Reads.{Reads, got, ◌>>=◌}
use degoonification.Float.{Float, clamp}
use degoonification.Boxes.{BoundingBox, expanded, overlaps}
use degoonification.Boxes.Merge.{merge_overlapping_boxes}
use degoonification.Video.{VideoFrame}
use degoonification.Anchors.Pixels.{AnchorPixel, sample_anchors, eval_anchors}

pub record TrackedShield (F : Type 0) : Type 0 where
  pub box : BoundingBox F
  pub last_seen_ms : ℕ
  pub created_ms : ℕ
  pub is_static : Bool
  pub anchors : List AnchorPixel

pub record AnchorTrackerConfig (F : Type 0) : Type 0 where
  pub persistence_window_ms : ℕ
  pub dynamic_decay_ms : ℕ
  pub padding_ratio : F
  pub merge_iou_threshold : F
  pub anchor_error_threshold : F
  pub ema_alpha : F

pub record AnchorTracker (F : Type 0) : Type 0 where
  pub config : AnchorTrackerConfig F
  pub shields : List (TrackedShield F)

abbrev pub new_anchor_tracker : {F : Type 0} → AnchorTrackerConfig F → AnchorTracker F
new_anchor_tracker config = record { config = config; shields = [] }

module _ {F : Type 0} where
  unfoldable pub set_config : AnchorTrackerConfig F → AnchorTracker F → AnchorTracker F
  set_config config t = record t { config = config }

  unfoldable pub reset : AnchorTracker F → AnchorTracker F
  reset t = record t { shields = [] }

  active_count : AnchorTracker F → ℕ
  active_count t = length t.shields

  -- The age at which a shield is stale.
  abbrev pub max_age : AnchorTrackerConfig F → TrackedShield F → ℕ
  max_age config s = if s.is_static then config.persistence_window_ms else config.dynamic_decay_ms

  unfoldable pub is_stale : AnchorTrackerConfig F → ℕ → TrackedShield F → Bool
  is_stale config now s = ltb now s.last_seen_ms || leb (max_age config s) (now - s.last_seen_ms)

  -- 3. Stale shields are erased.
  unfoldable pub purge : AnchorTrackerConfig F → ℕ → List (TrackedShield F) → List (TrackedShield F)
  unfolding is_stale
  purge config now [] = []
  purge config now (s ∷ rest) =
      let kept = purge config now rest in if is_stale config now s then kept else s ∷ kept

-- `test_offsets`
abbrev pub test_offsets : List ℤ
test_offsets =
    minus 80
    ∷ minus 60
    ∷ minus 40
    ∷ minus 20
    ∷ minus 10
    ∷ pos 10
    ∷ pos 20
    ∷ pos 40
    ∷ pos 60
    ∷ pos 80
    ∷ []

abbrev is_zero : ℤ → Bool
is_zero (pos n) = n == 0
is_zero (negsuc n) = false

abbrev move_anchor : ℤ → AnchorPixel → AnchorPixel
move_anchor dy a = record a { y = a.y +ℤ dy }

module _ {F : Type 0} ⦃f : Float F⦄ where
  open f use {add, sub, mul, div, lt}

  -- The loop over the offsets: the best offset and its error after it.
  unfoldable pub best_offset :
      VideoFrame → Bytes → List AnchorPixel → List ℤ → ℤ × F → Reads (ℤ × F)
  best_offset frame d anchors [] best = got best
  best_offset frame d anchors (dy ∷ rest) best = eval_anchors frame d anchors dy >>= λ err.
      best_offset frame d anchors rest (if lt err best.1 then (dy, err) else best)

  -- A scroll is accepted.
  abbrev is_scroll : F → ℤ × F → Bool
  is_scroll static_err best =
      lt best.1 (f.decimal 8 0)
      && not (is_zero best.0)
      && lt (f.decimal 8 0) (sub static_err best.1)

  abbrev scrolled : VideoFrame → ℕ → ℤ → TrackedShield F → TrackedShield F
  scrolled frame now dy s = record s {
    box = record s.box {
      y =
          clamp (add s.box.y (div (f.of_int dy) (f.of_nat frame.height))) f.zero
            (sub f.one s.box.height);
    };
    anchors = map (move_anchor dy) s.anchors;
    is_static = true;
    last_seen_ms = now;
  }

  -- Behind the test of the static position.
  unfoldable pub follow_scroll :
      VideoFrame → Bytes → ℕ → F → TrackedShield F → Reads (TrackedShield F)
  unfolding best_offset
  follow_scroll frame d now static_err s =
      best_offset frame d s.anchors test_offsets (pos 0, static_err) >>= λ best. got (
        if is_scroll static_err best
        then scrolled frame now best.0 s
        else record s { is_static = false })

  -- A round of the loop over the shields.
  unfoldable pub check_shield :
      AnchorTrackerConfig F → VideoFrame → Bytes → ℕ → TrackedShield F → Reads (TrackedShield F)
  unfolding follow_scroll
  check_shield config frame d now s =
      if is_empty s.anchors
      then got (record s { is_static = false })
      else (eval_anchors frame d s.anchors (pos 0) >>= λ static_err.
          if lt static_err config.anchor_error_threshold
          then got (record s { is_static = true; last_seen_ms = now })
          else follow_scroll frame d now static_err s)

  unfoldable pub check_shields :
      AnchorTrackerConfig F
      → VideoFrame
      → Bytes
      → ℕ
      → List (TrackedShield F)
      → Reads (List (TrackedShield F))
  unfolding check_shield
  check_shields config frame d now [] = got []
  check_shields config frame d now (s ∷ rest) = check_shield config frame d now s >>= λ s'.
      check_shields config frame d now rest >>= λ rest'. got (s' ∷ rest')

  -- 1. `frame.data && frame.width > 0 && frame.height > 0`
  abbrev pub check_all :
      Option Bytes
      → Bool
      → AnchorTrackerConfig F
      → VideoFrame
      → ℕ
      → List (TrackedShield F)
      → Reads (List (TrackedShield F))
  check_all none empty config frame now shields = got shields
  check_all (some d) true config frame now shields = got shields
  check_all (some d) false config frame now shields = check_shields config frame d now shields

  -- `frame.data && frame.width > 0` asks for new anchors.
  abbrev pub renewed_of :
      Option Bytes
      → Bool
      → F
      → VideoFrame
      → BoundingBox F
      → List AnchorPixel
      → Reads (List AnchorPixel)
  renewed_of none wide padding_ratio frame box anchors = got anchors
  renewed_of (some d) false padding_ratio frame box anchors = got anchors
  renewed_of (some d) true padding_ratio frame box anchors = sample_anchors padding_ratio frame box

  unfoldable pub renew_anchors :
      F → VideoFrame → BoundingBox F → List AnchorPixel → Reads (List AnchorPixel)
  renew_anchors padding_ratio frame box anchors =
      renewed_of frame.bytes (ltb 0 frame.width) padding_ratio frame box anchors

  -- The moving average of a shield's box.
  abbrev smoothed : F → BoundingBox F → BoundingBox F → BoundingBox F
  smoothed a det box =
      let mix = λ (new old : F). add (mul a new) (mul (sub f.one a) old) in
      record box {
        x = mix det.x box.x;
        y = mix det.y box.y;
        width = mix det.width box.width;
        height = mix det.height box.height;
      }

  -- A detection moves the first shield that it overlaps, or gets a new shield.
  unfoldable pub ingest_one :
      AnchorTrackerConfig F
      → VideoFrame
      → ℕ
      → BoundingBox F
      → List (TrackedShield F)
      → Reads (List (TrackedShield F))
  unfolding renew_anchors
  ingest_one config frame now det [] =
      renew_anchors config.padding_ratio frame det [] >>= λ anchors. got (
        record {
          box = det;
          last_seen_ms = now;
          created_ms = now;
          is_static = false;
          anchors = anchors;
        }
        ∷ [])
  ingest_one config frame now det (shield ∷ rest) =
      let later = ingest_one config frame now det rest >>= λ rest'. got (shield ∷ rest') in
      let box = smoothed config.ema_alpha det shield.box in
      if overlaps config.merge_iou_threshold shield.box det
      then (renew_anchors config.padding_ratio frame box shield.anchors >>= λ anchors.
          got (record shield { box = box; last_seen_ms = now; anchors = anchors } ∷ rest))
      else later

  -- 2. The detections of a frame.
  unfoldable pub ingest :
      AnchorTrackerConfig F
      → VideoFrame
      → ℕ
      → List (BoundingBox F)
      → List (TrackedShield F)
      → Reads (List (TrackedShield F))
  unfolding ingest_one
  ingest config frame now [] shields = got shields
  ingest config frame now (det ∷ dets) shields =
      ingest_one config frame now det shields >>= ingest config frame now dets

  -- 4. The boxes that are drawn.
  abbrev pub render : AnchorTrackerConfig F → List (TrackedShield F) → Option (List (BoundingBox F))
  render config shields =
      merge_overlapping_boxes config.merge_iou_threshold
        (map (λ s. expanded config.padding_ratio s.box) shields)

  unfoldable pub process_frame :
      VideoFrame
      → List (BoundingBox F)
      → ℕ
      → AnchorTracker F
      → Reads (Option (List (BoundingBox F)) × AnchorTracker F)
  unfolding check_shields ingest purge
  process_frame frame raw_detections now t = do
    checked ←
        check_all frame.bytes (frame.width == 0 || frame.height == 0) t.config frame now t.shields
    shields ← ingest t.config frame now raw_detections checked
    got (
      render t.config (purge t.config now shields),
      record t { shields = purge t.config now shields },
    )
