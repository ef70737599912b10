-- ===== src/Tracker/Window.antt =====
-- The time window: which boxes a frame keeps.
use degoonification.Common.{
  ℕ, ◌+◌, ◌≤◌, ◌<◌, ◌≡◌, refl, ap, true, false, List, [], ◌∷◌, All, arith, Bool-cases, inl, inr,
}
use degoonification.Boxes.{BoundingBox}
use degoonification.Tracker.{is_stale, purge}

-- A box that was seen not later than now, and less than a window ago.
pub record IsFresh {F : Type 0} (window now : ℕ) (b : BoundingBox F) : Type 0 where
  pub not_later : b.timestamp_ms ≤ now
  pub recent : now < b.timestamp_ms + window

-- A box that was seen now.
abbrev pub IsNow : {F : Type 0} → ℕ → BoundingBox F → Type 0
IsNow now b = b.timestamp_ms ≡ now

module _ {F : Type 0} where
  pub is_stale-fresh :
      (window now : ℕ) (b : BoundingBox F) → IsFresh window now b → is_stale window now b ≡ false
  unfolding is_stale
  is_stale-fresh window now b h = ground (arith, h.not_later, h.recent)

  IsFresh-of_not_stale :
      (window now : ℕ) (b : BoundingBox F) → is_stale window now b ≡ false → IsFresh window now b
  unfolding is_stale
  IsFresh-of_not_stale window now b h = ground arith

  -- What is left after the purge is fresh.
  pub purge-IsFresh :
      (window now : ℕ) (bs : List (BoundingBox F)) → All (IsFresh window now) (purge window now bs)
  unfolding purge
  purge-IsFresh window now [] = tt
  purge-IsFresh window now (b ∷ bs) = elim (Bool-cases (is_stale window now b)) [
    | inl e ↦ rw e (purge-IsFresh window now bs)
    | inr e ↦ rw e (IsFresh-of_not_stale window now b e, purge-IsFresh window now bs)
  ]

  -- Fresh boxes are all left, as they are.
  pub purge-fresh :
      (window now : ℕ) (bs : List (BoundingBox F))
      → All (IsFresh window now) bs
      → purge window now bs ≡ bs
  unfolding purge
  purge-fresh window now [] h = refl
  purge-fresh window now (b ∷ bs) (h, hs) =
      rw (is_stale-fresh window now b h) (ap (λ l. b ∷ l) (purge-fresh window now bs hs))

  -- Boxes none of which is fresh are all erased.
  pub purge-stale :
      (window now : ℕ) (bs : List (BoundingBox F))
      → All (λ b. is_stale window now b ≡ true) bs
      → purge window now bs ≡ []
  unfolding purge
  purge-stale window now [] h = refl
  purge-stale window now (b ∷ bs) (h, hs) = rw h (purge-stale window now bs hs)

  -- Boxes that were last seen a window ago or earlier are stale.
  pub stale_of_late :
      (window now : ℕ) (b : BoundingBox F)
      → b.timestamp_ms + window ≤ now
      → is_stale window now b ≡ true
  unfolding is_stale
  stale_of_late window now b h = ground arith
