-- ===== src/Boxes/Merge/Loop.antt =====
-- The merging loop: it ends, and what it gives.
use degoonification.Common.{
  ℕ, zero, suc, ◌+◌, ◌≤◌, ◌<◌, ◌≡◌, refl, ap, sym, ◌∙◌, Bool, true, false, leb, if◌then◌else◌, some,
  List, [], ◌∷◌, length, is_empty, arith, Bool-cases, inl, inr,
}
use mathlib.Core.Path.{subst}
use degoonification.Float.{Float}
use degoonification.Boxes.{BoundingBox, overlaps, united}
use degoonification.Boxes.Merge.{pass, unconsumed, merge_loop, merge, merge_overlapping_boxes}
use degoonification.Boxes.Merge.Passes.{live, live-unconsumed, Separated, Passed, pass_lem}

module _ {A : Type 0} (hit : A → A → Bool) (join : A → A → A) where
  -- The list that the loop ends with.
  abbrev Reduced : List A → List A → Type 0
  Reduced boxes out =
      Separated hit join out × (length out ≤ length boxes) × ((0 < length boxes → 0 < length out))

  length-unconsumed : (l : List A) → length (unconsumed hit join l) ≡ length l
  length-unconsumed [] = refl
  length-unconsumed (b ∷ l) = ap suc (length-unconsumed l)

  abbrev one_pass : List A → List A × Bool
  one_pass boxes = pass hit join (length boxes) (unconsumed hit join boxes)

  merge_loop_again :
      (fuel : ℕ) (boxes : List A)
      → (one_pass boxes).1 ≡ true
      → merge_loop hit join (suc fuel) boxes ≡ merge_loop hit join fuel (one_pass boxes).0
  unfolding merge_loop
  merge_loop_again fuel boxes e = rw (e, merge_loop)

  merge_loop_done :
      (fuel : ℕ) (boxes : List A)
      → (one_pass boxes).1 ≡ false
      → merge_loop hit join (suc fuel) boxes ≡ some (one_pass boxes).0
  unfolding merge_loop
  merge_loop_done fuel boxes e = rw (e, merge_loop)

  merge_loop_lem :
      (fuel : ℕ) (boxes : List A)
      → length boxes < fuel
      → (out : List A) × (merge_loop hit join fuel boxes ≡ some out) × Reduced boxes out
  merge_loop_lem zero boxes h = absurd (omega arith)
  merge_loop_lem (suc fuel) boxes h =
      let r = pass hit join (length boxes) (unconsumed hit join boxes) in
      let (fewer, same, full) : Passed hit join (unconsumed hit join boxes) r =
        pass_lem hit join (length boxes) (unconsumed hit join boxes)
          (omega (arith, length-unconsumed boxes)) in
      let size : length (live (unconsumed hit join boxes)) ≡ length boxes =
        ap length (live-unconsumed hit join boxes) in
      elim (Bool-cases r.1) [
        | inl e ↦
            let shorter =
              subst
                (λ m. length r.0 + (if m then 1 else 0) ≤ length (live (unconsumed hit join boxes)))
                e fewer in
            let (out, eo, (sep, le, pos)) = merge_loop_lem fuel r.0 (omega arith) in
            (
              out,
              merge_loop_again fuel boxes e ∙ eo,
              (sep, omega arith, (λ k. pos (full (omega arith)))),
            )
        | inr e ↦
            let shorter =
              subst
                (λ m. length r.0 + (if m then 1 else 0) ≤ length (live (unconsumed hit join boxes)))
                e fewer in
            let (p, sep) = same e in
            (
              r.0,
              merge_loop_done fuel boxes e,
              (subst (Separated hit join) (sym p) sep, omega arith, (λ k. full (omega arith))),
            )
      ]

  -- What the merging gives: no item hits a later one, there are no more than before, and none only if
  -- there were none.
  abbrev pub Merged : List A → List A → Type 0
  Merged boxes out =
      Separated hit join out × (length out ≤ length boxes) × (is_empty out ≡ is_empty boxes)

  Merged-of_Reduced : (boxes out : List A) → Reduced boxes out → Merged boxes out
  Merged-of_Reduced [] [] (sep, few, full) = (sep, few, refl)
  Merged-of_Reduced [] (o ∷ out) (sep, few, full) = absurd (omega arith)
  Merged-of_Reduced (b ∷ boxes) [] (sep, few, full) =
      let h = full (omega arith) in absurd (omega arith)
  Merged-of_Reduced (b ∷ boxes) (o ∷ out) (sep, few, full) = (sep, few, refl)

  -- The merging ends, whatever the test and the union are: the fuel is enough. What it returns has no
  -- item that hits a later one, is no longer than the input, and is empty only if the input is.
  pub merge_lem :
      (boxes : List A) → (out : List A) × (merge hit join boxes ≡ some out) × Merged boxes out
  unfolding merge
  merge_lem [] = ([], refl, (tt, omega arith, refl))
  merge_lem (b ∷ []) = (b ∷ [], refl, ((tt, tt), omega arith, refl))
  merge_lem (b ∷ c ∷ l) =
      let (out, e, r) = merge_loop_lem (suc (length (b ∷ c ∷ l))) (b ∷ c ∷ l) (omega arith) in
      rw (long l) (out, e, Merged-of_Reduced (b ∷ c ∷ l) out r)
    where
      long : (l : List A) → leb (suc (suc (length l))) 1 ≡ false
      long l = ground arith

module _ {F : Type 0} ⦃f : Float F⦄ where
  -- The merging of boxes ends for any arithmetic of floats and any threshold. No box that it returns
  -- overlaps a later one by more than the threshold; they are no more than the given boxes, and none
  -- only if none is given.
  pub merge_overlapping_boxes_lem :
      (threshold : F) (boxes : List (BoundingBox F))
      → (out : List (BoundingBox F)) × (merge_overlapping_boxes threshold boxes ≡ some out)
        × Merged (overlaps threshold) united boxes out
  unfolding merge_overlapping_boxes
  merge_overlapping_boxes_lem threshold boxes = merge_lem (overlaps threshold) united boxes
