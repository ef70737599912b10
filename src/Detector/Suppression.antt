-- ===== src/Detector/Suppression.antt =====
-- Non-maximum suppression: which candidates are left, for any test between two of them. The loops
-- are those of `OnnxDetector::detect` in platform/linux/inference/onnx_detector.cpp.
use degoonification.Common.{
  ℕ, zero, suc, ◌≤◌, ◌≡◌, refl, ap, ◌⊎◌, inl, inr, Bool, true, false, List, [], ◌∷◌, length, All,
  arith, Bool-cases,
}
use mathlib.Core.Path.{subst}

module _ {A : Type 0} (hit : A → A → Bool) where
  -- The inner loop: the candidates that the kept one hits are marked.
  unfoldable pub suppress : A → List (A × Bool) → List (A × Bool)
  suppress kept [] = []
  suppress kept ((b, true) ∷ rest) = (b, true) ∷ suppress kept rest
  suppress kept ((b, false) ∷ rest) = (b, hit kept b) ∷ suppress kept rest

  -- The outer loop, with `candidates.size() - i` rounds left.
  unfoldable pub keep : ℕ → List (A × Bool) → List A
  unfolding suppress
  keep zero l = []
  keep (suc n) [] = []
  keep (suc n) ((b, true) ∷ rest) = keep n rest
  keep (suc n) ((b, false) ∷ rest) = b ∷ keep n (suppress b rest)

  abbrev pub unmarked : List A → List (A × Bool)
  unmarked [] = []
  unmarked (b ∷ rest) = (b, false) ∷ unmarked rest

  unfoldable pub non_maximum_suppression : List A → List A
  unfolding keep
  non_maximum_suppression candidates = keep (length candidates) (unmarked candidates)

  -- The candidates that are not marked.
  abbrev free : List (A × Bool) → List A
  free [] = []
  free ((b, true) ∷ rest) = free rest
  free ((b, false) ∷ rest) = b ∷ free rest

  -- No item hits a later one.
  abbrev pub Apart : List A → Type 0
  Apart [] = Unit {0}
  Apart (b ∷ rest) = All (λ c. hit b c ≡ false) rest × Apart rest

  -- An item is in a list, or is hit by an item of it.
  abbrev pub CoveredBy : List A → A → Type 0
  CoveredBy [] c = ⊥
  CoveredBy (b ∷ rest) c = ((b ≡ c) ⊎ (hit b c ≡ true)) ⊎ CoveredBy rest c

  suppress-length : (b : A) (l : List (A × Bool)) → length (suppress b l) ≡ length l
  unfolding suppress
  suppress-length b [] = refl
  suppress-length b ((c, true) ∷ l) = ap suc (suppress-length b l)
  suppress-length b ((c, false) ∷ l) = ap suc (suppress-length b l)

  suppress-missed : (b : A) (l : List (A × Bool)) → All (λ c. hit b c ≡ false) (free (suppress b l))
  unfolding suppress
  suppress-missed b [] = tt
  suppress-missed b ((c, true) ∷ l) = suppress-missed b l
  suppress-missed b ((c, false) ∷ l) = elim (Bool-cases (hit b c)) [
    | inl e ↦ rw e (suppress-missed b l)
    | inr e ↦ rw e (e, suppress-missed b l)
  ]

  suppress-All :
      (P : A → Type 0) (b : A) (l : List (A × Bool)) → All P (free l) → All P (free (suppress b l))
  unfolding suppress
  suppress-All P b [] h = tt
  suppress-All P b ((c, true) ∷ l) h = suppress-All P b l h
  suppress-All P b ((c, false) ∷ l) (h, hs) = elim (Bool-cases (hit b c)) [
    | inl e ↦ rw e (suppress-All P b l hs)
    | inr e ↦ rw e (h, suppress-All P b l hs)
  ]

  keep-All : (P : A → Type 0) (n : ℕ) (l : List (A × Bool)) → All P (free l) → All P (keep n l)
  unfolding keep
  keep-All P zero l h = tt
  keep-All P (suc n) [] h = tt
  keep-All P (suc n) ((b, true) ∷ l) h = keep-All P n l h
  keep-All P (suc n) ((b, false) ∷ l) (h, hs) =
      (h, keep-All P n (suppress b l) (suppress-All P b l hs))

  keep-Apart : (n : ℕ) (l : List (A × Bool)) → Apart (keep n l)
  unfolding keep
  keep-Apart zero l = tt
  keep-Apart (suc n) [] = tt
  keep-Apart (suc n) ((b, true) ∷ l) = keep-Apart n l
  keep-Apart (suc n) ((b, false) ∷ l) = (
    keep-All (λ c. hit b c ≡ false) n (suppress b l) (suppress-missed b l),
    keep-Apart n (suppress b l),
  )

  -- What is covered after a round was covered by the kept item or is covered by later ones.
  cover_more :
      (b : A) (kept : List A) (l : List (A × Bool))
      → All (CoveredBy kept) (free (suppress b l))
      → All (CoveredBy (b ∷ kept)) (free l)
  unfolding suppress
  cover_more b kept [] = λ h. tt
  cover_more b kept ((c, true) ∷ l) = cover_more b kept l
  cover_more b kept ((c, false) ∷ l) = elim (Bool-cases (hit b c)) [
    | inl e ↦ rw e (λ h. (inl (inr refl), cover_more b kept l h))
    | inr e ↦ rw e (λ (h, hs). (inr h, cover_more b kept l hs))
  ]

  keep-CoveredBy :
      (n : ℕ) (l : List (A × Bool)) → length l ≤ n → All (CoveredBy (keep n l)) (free l)
  unfolding keep
  keep-CoveredBy zero [] h = tt
  keep-CoveredBy zero (x ∷ l) h = absurd (omega arith)
  keep-CoveredBy (suc n) [] h = tt
  keep-CoveredBy (suc n) ((b, true) ∷ l) h = keep-CoveredBy n l (omega arith)
  keep-CoveredBy (suc n) ((b, false) ∷ l) h = (
    inl (inl refl),
    cover_more b (keep n (suppress b l)) l
        (keep-CoveredBy n (suppress b l) (omega (arith, suppress-length b l))),
  )

  unmarked-free : (l : List A) → free (unmarked l) ≡ l
  unmarked-free [] = refl
  unmarked-free (b ∷ l) = ap (λ r. b ∷ r) (unmarked-free l)

  unmarked-length : (l : List A) → length (unmarked l) ≡ length l
  unmarked-length [] = refl
  unmarked-length (b ∷ l) = ap suc (unmarked-length l)

  -- No item that is kept hits a later one, and each candidate is kept or hit by an item that is kept.
  pub non_maximum_suppression_lem :
      (l : List A)
      → Apart (non_maximum_suppression l) × All (CoveredBy (non_maximum_suppression l)) l
  unfolding non_maximum_suppression
  non_maximum_suppression_lem l = (
    keep-Apart (length l) (unmarked l),
    subst (λ m. All (CoveredBy (keep (length l) (unmarked l))) m) (unmarked-free l)
        (keep-CoveredBy (length l) (unmarked l) (omega (arith, unmarked-length l))),
  )
