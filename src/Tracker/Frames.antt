-- ===== src/Tracker/Frames.antt =====
-- Frames: what the tracker keeps and shows from one frame to the next.
use degoonification.Common.{
  ℕ, suc, ◌+◌, ◌≤◌, ◌<◌, ◌≡◌, refl, ◌⊎◌, inl, inr, List, [], ◌∷◌, length, All, arith, Bool-cases,
}
use degoonification.Float.{Float}
use degoonification.Boxes.{BoundingBox, overlaps}
use degoonification.Tracker.{is_stale, purge, stamp, ingest_one, ingest}
use degoonification.Tracker.Window.{IsFresh, is_stale-fresh}

-- Some item of a list.
abbrev pub Exists : {A : Type 0} → (A → Type 0) → List A → Type 0
Exists P [] = ⊥
Exists P (a ∷ l) = P a ⊎ Exists P l

module _ {F : Type 0} where
  -- A box that was last seen between two times.
  pub record IsSeen (from to : ℕ) (b : BoundingBox F) : Type 0 where
    pub since : from ≤ b.timestamp_ms
    pub until : b.timestamp_ms ≤ to

  -- A time of the frame before, or of this one.
  abbrev pub IsTimely : ℕ → ℕ → BoundingBox F → Type 0
  IsTimely window now b = (b.timestamp_ms ≡ now) ⊎ IsFresh window now b

  pub purge-Exists :
      (window from to now : ℕ) (bs : List (BoundingBox F))
      → to ≤ now
      → now < from + window
      → Exists (IsSeen from to) bs
      → Exists (IsSeen from now) (purge window now bs)
  unfolding purge
  purge-Exists window from to now [] h k e = e
  purge-Exists window from to now (b ∷ bs) h k (inl s) =
      rw (is_stale-fresh window now b fresh)
        (inl (record { since = s.since; until = omega (arith, s.until) }))
    where
      fresh : IsFresh window now b
      fresh = record { not_later = omega (arith, s.until); recent = omega (arith, s.since) }
  purge-Exists window from to now (b ∷ bs) h k (inr e) = elim (Bool-cases (is_stale window now b)) [
    | inl g ↦ rw g (purge-Exists window from to now bs h k e)
    | inr g ↦ rw g (inr (purge-Exists window from to now bs h k e))
  ]

  pub purge-shorter :
      (window now : ℕ) (bs : List (BoundingBox F)) → length (purge window now bs) ≤ length bs
  unfolding purge
  purge-shorter window now [] = omega arith
  purge-shorter window now (b ∷ bs) = elim (Bool-cases (is_stale window now b)) [
    | inl e ↦ rw e (omega (arith, purge-shorter window now bs))
    | inr e ↦ rw e (omega (arith, purge-shorter window now bs))
  ]

module _ {F : Type 0} ⦃f : Float F⦄ where
  pub ingest_one-Exists :
      (threshold : F) (from now : ℕ) (d : BoundingBox F) (bs : List (BoundingBox F))
      → from ≤ now
      → d.timestamp_ms ≡ now
      → Exists (IsSeen from now) (ingest_one threshold now d bs)
  unfolding ingest_one
  ingest_one-Exists threshold from now d [] h e =
      inl (record { since = omega arith; until = omega arith })
  ingest_one-Exists threshold from now d (b ∷ bs) h e = elim (Bool-cases (overlaps threshold b d)) [
    | inl g ↦ rw g (inl (record { since = h; until = omega arith }))
    | inr g ↦ rw g (inr (ingest_one-Exists threshold from now d bs h e))
  ]

  pub ingest-Exists :
      (threshold : F) (from now : ℕ) (ds bs : List (BoundingBox F))
      → from ≤ now
      → Exists (IsSeen from now) bs
      → Exists (IsSeen from now) (ingest threshold now ds bs)
  unfolding ingest
  ingest-Exists threshold from now [] bs h e = e
  ingest-Exists threshold from now (d ∷ ds) bs h e =
      ingest-Exists threshold from now ds (ingest_one threshold now (stamp now d) bs) h
        (ingest_one-Exists threshold from now (stamp now d) bs h refl)

  ingest_one-All :
      (threshold : F) (window now : ℕ) (d : BoundingBox F) (bs : List (BoundingBox F))
      → d.timestamp_ms ≡ now
      → All (IsTimely window now) bs
      → All (IsTimely window now) (ingest_one threshold now d bs)
  unfolding ingest_one
  ingest_one-All threshold window now d [] e h = (inl e, tt)
  ingest_one-All threshold window now d (b ∷ bs) e (h, hs) =
      elim (Bool-cases (overlaps threshold b d)) [
        | inl g ↦ rw g (inl refl, hs)
        | inr g ↦ rw g (h, ingest_one-All threshold window now d bs e hs)
      ]

  pub ingest-All :
      (threshold : F) (window now : ℕ) (ds bs : List (BoundingBox F))
      → All (IsTimely window now) bs
      → All (IsTimely window now) (ingest threshold now ds bs)
  unfolding ingest
  ingest-All threshold window now [] bs h = h
  ingest-All threshold window now (d ∷ ds) bs h =
      ingest-All threshold window now ds (ingest_one threshold now (stamp now d) bs)
        (ingest_one-All threshold window now (stamp now d) bs refl h)

  ingest_one-length :
      (threshold : F) (now : ℕ) (d : BoundingBox F) (bs : List (BoundingBox F))
      → length (ingest_one threshold now d bs) ≤ suc (length bs)
  unfolding ingest_one
  ingest_one-length threshold now d [] = omega arith
  ingest_one-length threshold now d (b ∷ bs) = elim (Bool-cases (overlaps threshold b d)) [
    | inl g ↦ rw g (omega arith)
    | inr g ↦ rw g (omega (arith, ingest_one-length threshold now d bs))
  ]

  pub ingest-length :
      (threshold : F) (now : ℕ) (ds bs : List (BoundingBox F))
      → length (ingest threshold now ds bs) ≤ length bs + length ds
  unfolding ingest
  ingest-length threshold now [] bs = omega arith
  ingest-length threshold now (d ∷ ds) bs = omega (
    arith,
    ingest-length threshold now ds (ingest_one threshold now (stamp now d) bs),
    ingest_one-length threshold now (stamp now d) bs,
  )
