-- ===== src/CApi/Calls.antt =====
-- Calls of the C interface with arrays that are large enough.
use degoonification.Common.{
  ℕ, zero, suc, ◌+◌, ◌%◌, ◌^◌, ◌≤◌, ◌<◌, ◌≡◌, refl, ap, sym, ◌∙◌, false, ltb, leb, if◌then◌else◌,
  some, List, [], ◌∷◌, ◌++◌, length, set, get_elem?, take, drop, arith, lt→ltb,
}
use degoonification.Float.{Float}
use degoonification.Boxes.{BoundingBox}
use degoonification.Tracker.{Tracker, process_frame}
use degoonification.Tracker.Screen.{process_frame-length}
use degoonification.CApi.{
  is_positive, copy_in, inputs_of, store, copy_out, out_count, rounds_of, process_boxes,
  dg_tracker_process,
}

module _ {A : Type 0} where
  elem-drop :
      (l : List A) (i : ℕ)
      → i < length l
      → (a : A) × (get_elem? l i ≡ some a) × (drop i l ≡ a ∷ drop (suc i) l)
  elem-drop [] i h = absurd (omega arith)
  elem-drop (a ∷ l) zero h = (a, refl, refl)
  elem-drop (a ∷ l) (suc i) h = elem-drop l i (omega arith)

  length-set : (l : List A) (i : ℕ) (a : A) → length (set l i a) ≡ length l
  length-set [] i a = refl
  length-set (b ∷ l) zero a = refl
  length-set (b ∷ l) (suc i) a = ap suc (length-set l i a)

  take-set :
      (l : List A) (i : ℕ) (a : A) (rest : List A)
      → i < length l
      → take (suc i) (set l i a) ++ rest ≡ take i l ++ a ∷ rest
  take-set [] i a rest h = absurd (omega arith)
  take-set (b ∷ l) zero a rest h = refl
  take-set (b ∷ l) (suc i) a rest h = ap (λ t. b ∷ t) (take-set l i a rest (omega arith))

  drop-set : (l : List A) (i n : ℕ) (a : A) → i < n → drop n (set l i a) ≡ drop n l
  drop-set l i zero a h = absurd (omega arith)
  drop-set [] i (suc n) a h = refl
  drop-set (b ∷ l) zero (suc n) a h = refl
  drop-set (b ∷ l) (suc i) (suc n) a h = drop-set l i n a (omega arith)

  take-drop : (i : ℕ) (l : List A) → take i l ++ drop i l ≡ l
  take-drop zero l = refl
  take-drop (suc i) [] = refl
  take-drop (suc i) (a ∷ l) = ap (λ t. a ∷ t) (take-drop i l)

module _ {F : Type 0} where
  copy_in-take :
      (count i : ℕ) (l : List (BoundingBox F))
      → i + count ≤ length l
      → copy_in count i l ≡ some (take count (drop i l))
  unfolding copy_in
  copy_in-take zero i l h = refl
  copy_in-take (suc count) i l h =
      let (a, e, d) = elem-drop l i (omega arith) in
      let next : i + 1 ≡ suc i = omega arith in
      rw (e, d) (rw next (rw (copy_in-take count (suc i) l (omega arith)) refl))

  copy_out_step :
      (count i : ℕ) (results out_boxes : List (BoundingBox F)) (a : BoundingBox F)
      → get_elem? results i ≡ some a
      → i < length out_boxes
      → copy_out (suc count) i results out_boxes
        ≡ copy_out count (suc i) results (set out_boxes i a)
  unfolding copy_out store
  copy_out_step count i results out_boxes a e h =
      let next : i + 1 ≡ suc i = omega arith in
      rw e (
        rw (lt→ltb i (length out_boxes) h)
          (ap (λ j. copy_out count j results (set out_boxes i a)) next))

  copy_out-take :
      (count i : ℕ) (results out_boxes : List (BoundingBox F))
      → i + count ≤ length results
      → i + count ≤ length out_boxes
      → copy_out count i results out_boxes
        ≡ some (take i out_boxes ++ (take count (drop i results) ++ drop (i + count) out_boxes))
  unfolding copy_out
  copy_out-take zero i results out_boxes h k =
      let same : i + 0 ≡ i = omega arith in rw same (ap some (sym (take-drop i out_boxes)))
  copy_out-take (suc count) i results out_boxes h k =
      let (a, e, d) = elem-drop results i (omega arith) in
      let next : suc i + count ≡ i + suc count = omega arith in
      copy_out_step count i results out_boxes a e (omega arith)
      ∙ copy_out-take count (suc i) results (set out_boxes i a) (omega arith)
          (omega (arith, length-set out_boxes i a))
      ∙ ap some (
          take-set out_boxes i a _ (omega arith)
          ∙ rw d (
              ap (λ rest. take i out_boxes ++ a ∷ (take count (drop (suc i) results) ++ rest))
                (drop-set out_boxes i (suc i + count) a (omega arith)
                  ∙ ap (λ n. drop n out_boxes) next)))

inputs_of-take :
    {F : Type 0} (in_boxes : List (BoundingBox F)) (in_count : ℕ)
    → in_count < 2 ^ 31
    → in_count ≤ length in_boxes
    → inputs_of (some in_boxes) in_count ≡ some (take in_count in_boxes)
unfolding inputs_of is_positive
inputs_of-take in_boxes zero h k = refl
inputs_of-take in_boxes (suc in_count) h k =
    rw (lt→ltb 0 (suc in_count) (omega arith))
      (rw (lt→ltb (suc in_count) (2 ^ 31) h) (copy_in-take (suc in_count) 0 in_boxes (omega arith)))

-- The smaller of two numbers.
abbrev pub least : ℕ → ℕ → ℕ
least size most = if ltb most size then most else size

out_count-least :
    (size most : ℕ) → size < 2 ^ 31 → most < 2 ^ 31 → out_count size most ≡ least size most
unfolding out_count
out_count-least size most h k =
    let same : size % 2 ^ 32 ≡ size = omega arith in rw same (rw (ge→leb_false size h) refl)
  where
    ge→leb_false : (n : ℕ) → n < 2 ^ 31 → leb (2 ^ 31) n ≡ false
    ge→leb_false n below = ground arith

rounds_of-small : (n : ℕ) → n < 2 ^ 31 → rounds_of n ≡ n
unfolding rounds_of is_positive
rounds_of-small n h = ground arith

least_bounds : (size most : ℕ) → (least size most ≤ size) × (least size most ≤ most)
least_bounds size most = (ground arith, ground arith)

module _ {F : Type 0} ⦃f : Float F⦄ where
  -- A call of dg_tracker_process with arrays that are as long as their counts say, fewer than 2 ^
  -- 31 boxes in all and a positive limit below 2 ^ 31 makes no access out of bounds. It is a frame
  -- of the tracker on the given boxes, returns the number of the results or the limit, whichever is
  -- smaller, and writes so many results to the front of the caller's array, and nothing behind
  -- them.
  pub dg_tracker_process_lem :
      (t : Tracker F) (in_boxes : List (BoundingBox F)) (in_count now : ℕ)
      (out_boxes : List (BoundingBox F)) (most : ℕ)
      → in_count ≤ length in_boxes
      → length t.tracked_boxes + in_count < 2 ^ 31
      → 0 < most
      → most < 2 ^ 31
      → most ≤ length out_boxes
      → (results : List (BoundingBox F)) × ((process_frame (take in_count in_boxes) now t).0
          ≡ some results)
        × (dg_tracker_process (some t) (some in_boxes) in_count now (some out_boxes) most
            ≡ some (
              least (length results) most,
              some (process_frame (take in_count in_boxes) now t).1,
              some (
                  take (least (length results) most) results
                  ++ drop (least (length results) most) out_boxes),
            ))
  unfolding dg_tracker_process process_boxes is_positive
  dg_tracker_process_lem t in_boxes in_count now out_boxes most h room pos k fits =
      let (results, shown, few) = process_frame-length (take in_count in_boxes) now t in
      let size = least_bounds (length results) most in
      let small : length results < 2 ^ 31 = omega (arith, few, length-take_le in_count in_boxes) in
      let n = least (length results) most in
      (
        results,
        shown,
        rw (lt→ltb 0 most pos) (
            rw (lt→ltb most (2 ^ 31) k) (
              rw (inputs_of-take in_boxes in_count (omega arith) h) (
                rw shown (
                  rw (out_count-least (length results) most small k) (
                    rw (rounds_of-small n (omega (arith, size.0))) (
                      rw
                        (copy_out-take n 0 results out_boxes (omega (arith, size.0))
                          (omega (arith, size.1)))
                        (ap
                          (λ j. some (
                            n,
                            some (process_frame (take in_count in_boxes) now t).1,
                            some (take n results ++ drop j out_boxes),
                          ))
                          (zero_add n)))))))),
      )
    where
      length-take_le : (n : ℕ) (l : List (BoundingBox F)) → length (take n l) ≤ n
      length-take_le zero l = omega arith
      length-take_le (suc n) [] = omega arith
      length-take_le (suc n) (a ∷ l) = omega (arith, length-take_le n l)

      zero_add : (n : ℕ) → 0 + n ≡ n
      zero_add n = omega arith
