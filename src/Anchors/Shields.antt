-- ===== src/Anchors/Shields.antt =====
-- The shields: a frame always gives a list of boxes, keeps no stale shield, and loses no detection.
use degoonification.Common.{
  ℕ, ◌≡◌, refl, Bool, true, false, ◌⊎◌, ltb, if◌then◌else◌, Option, none, some, List, [], ◌∷◌,
  Bytes, is_empty, Bool-cases, inl, inr,
}
use degoonification.Common.Int.{ℤ, pos}
use degoonification.Common.Reads.{Returns, Returns-bind, Anything}
use degoonification.Float.{Float}
use degoonification.Boxes.{BoundingBox, overlaps}
use degoonification.Video.{VideoFrame}
use degoonification.Anchors.Pixels.{AnchorPixel, eval_anchors}
use degoonification.Anchors.Reading.{IsReadable, eval_anchors-Returns, sample_anchors-Returns}
use degoonification.Anchors.{
  TrackedShield, AnchorTrackerConfig, test_offsets, best_offset, follow_scroll, check_shield,
  check_shields, check_all, renewed_of, renew_anchors, ingest_one, ingest,
}

module _ {F : Type 0} where
  -- A shield that was seen in this frame is among the shields.
  abbrev pub SeenNow : ℕ → List (TrackedShield F) → Type 0
  SeenNow now [] = ⊥
  SeenNow now (s ∷ rest) = (s.last_seen_ms ≡ now) ⊎ SeenNow now rest

module _ {F : Type 0} ⦃f : Float F⦄ where
  module _ (frame : VideoFrame) (d : Bytes) (mapped : IsReadable frame (some d)) where
    best_offset-Returns :
        (pts : List AnchorPixel) (offsets : List ℤ) (best : ℤ × F)
        → Returns Anything (best_offset frame d pts offsets best)
    unfolding best_offset
    best_offset-Returns pts [] best = tt
    best_offset-Returns pts (dy ∷ rest) best =
        Returns-bind Anything Anything (eval_anchors frame d pts dy) _
          (eval_anchors-Returns frame d mapped.0 mapped.1 F pts dy)
          (λ err _. best_offset-Returns pts rest (if f.lt err best.1 then (dy, err) else best))

    follow_scroll-Returns :
        (now : ℕ) (err : F) (s : TrackedShield F)
        → Returns Anything (follow_scroll frame d now err s)
    unfolding follow_scroll
    follow_scroll-Returns now err s =
        Returns-bind Anything Anything (best_offset frame d s.anchors test_offsets (pos 0, err)) _
          (best_offset-Returns s.anchors test_offsets (pos 0, err)) (λ best _. tt)

    check_shield-Returns :
        (config : AnchorTrackerConfig F) (now : ℕ) (s : TrackedShield F)
        → Returns Anything (check_shield config frame d now s)
    unfolding check_shield
    check_shield-Returns config now s = elim (Bool-cases (is_empty s.anchors)) [
      | inl e ↦ rw e tt
      | inr e ↦ rw e (
          Returns-bind Anything Anything (eval_anchors frame d s.anchors (pos 0)) _
            (eval_anchors-Returns frame d mapped.0 mapped.1 F s.anchors (pos 0))
            (λ err _. elim (Bool-cases (f.lt err config.anchor_error_threshold)) [
              | inl g ↦ rw g tt
              | inr g ↦ rw g (follow_scroll-Returns now err s)
            ]))
    ]

    check_shields-Returns :
        (config : AnchorTrackerConfig F) (now : ℕ) (shields : List (TrackedShield F))
        → Returns Anything (check_shields config frame d now shields)
    unfolding check_shields
    check_shields-Returns config now [] = tt
    check_shields-Returns config now (s ∷ rest) =
        Returns-bind Anything Anything (check_shield config frame d now s) _
          (check_shield-Returns config now s)
          (λ s' _.
            Returns-bind Anything Anything (check_shields config frame d now rest) _
              (check_shields-Returns config now rest) (λ rest' _. tt))

  pub check_all-Returns :
      (frame : VideoFrame) (bytes : Option Bytes) (empty : Bool) (config : AnchorTrackerConfig F)
      (now : ℕ) (shields : List (TrackedShield F))
      → IsReadable frame bytes
      → Returns Anything (check_all bytes empty config frame now shields)
  check_all-Returns frame none empty config now shields h = tt
  check_all-Returns frame (some d) true config now shields h = tt
  check_all-Returns frame (some d) false config now shields h =
      check_shields-Returns frame d h config now shields

  module _ (config : AnchorTrackerConfig F) (frame : VideoFrame) (now : ℕ)
      (readable : IsReadable frame frame.bytes) where
    renewed_of-Returns :
        (bytes : Option Bytes) (wide : Bool) (box : BoundingBox F) (pts : List AnchorPixel)
        → Returns Anything (renewed_of bytes wide config.padding_ratio frame box pts)
    renewed_of-Returns none wide box pts = tt
    renewed_of-Returns (some d) false box pts = tt
    renewed_of-Returns (some d) true box pts =
        sample_anchors-Returns frame config.padding_ratio box readable

    renew_anchors-Returns :
        (box : BoundingBox F) (pts : List AnchorPixel)
        → Returns Anything (renew_anchors config.padding_ratio frame box pts)
    unfolding renew_anchors
    renew_anchors-Returns box pts = renewed_of-Returns frame.bytes (ltb 0 frame.width) box pts

    pub ingest_one-Returns :
        (det : BoundingBox F) (shields : List (TrackedShield F))
        → Returns (SeenNow now) (ingest_one config frame now det shields)
    unfolding ingest_one
    ingest_one-Returns det [] =
        Returns-bind Anything (SeenNow now) (renew_anchors config.padding_ratio frame det []) _
          (renew_anchors-Returns det []) (λ pts _. inl refl)
    ingest_one-Returns det (s ∷ rest) =
        elim (Bool-cases (overlaps config.merge_iou_threshold s.box det)) [
          | inl e ↦ rw e (
              Returns-bind Anything (SeenNow now)
                (renew_anchors config.padding_ratio frame _ s.anchors) _
                (renew_anchors-Returns _ s.anchors) (λ pts _. inl refl))
          | inr e ↦ rw e (
              Returns-bind (SeenNow now) (SeenNow now) (ingest_one config frame now det rest) _
                (ingest_one-Returns det rest) (λ rest' h. inr h))
        ]

    pub ingest-Returns :
        (dets : List (BoundingBox F)) (shields : List (TrackedShield F))
        → Returns Anything (ingest config frame now dets shields)
    unfolding ingest
    ingest-Returns [] shields = tt
    ingest-Returns (det ∷ dets) shields =
        Returns-bind (SeenNow now) Anything (ingest_one config frame now det shields) _
          (ingest_one-Returns det shields) (λ after _. ingest-Returns dets after)

    pub ingest-SeenNow :
        (dets : List (BoundingBox F)) (shields : List (TrackedShield F))
        → SeenNow now shields
        → Returns (SeenNow now) (ingest config frame now dets shields)
    unfolding ingest
    ingest-SeenNow [] shields h = h
    ingest-SeenNow (det ∷ dets) shields h =
        Returns-bind (SeenNow now) (SeenNow now) (ingest_one config frame now det shields) _
          (ingest_one-Returns det shields) (λ after k. ingest-SeenNow dets after k)
