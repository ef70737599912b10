-- ===== src/Overlay/Painting.antt =====
-- Painting a region of a buffer: what the loops over pixels do, told by the screen's coordinates.
use degoonification.Common.{
  true-false, ℕ, zero, suc, ◌+◌, ◌*◌, ◌%◌, ◌^◌, ◌≤◌, ◌<◌, ◌≡◌, refl, sym, ◌∙◌, Bool, true, false,
  ◌&&◌, ◌||◌, ◌==◌, ltb, leb, if◌then◌else◌, some, List, [], ◌∷◌, length, get_elem?, set,
  length-set, arith, Bool-cases, inl, inr, lt→ltb, ltb→lt, ltb→ge, ==_iff,
}
use degoonification.Common.Reads.{write, Returns}
use degoonification.Video.{row_of}

-- `x`, `y` lies in the columns from `x1` to before `x2` and the rows from `y1` to before `y2`.
abbrev pub inside : ℕ → ℕ → ℕ → ℕ → ℕ → ℕ → Bool
inside x1 y1 x2 y2 x y = (leb x1 x && ltb x x2) && (leb y1 y && ltb y y2)

pub inside-none : (x1 y1 x2 y2 x y : ℕ) → x2 ≤ x1 → inside x1 y1 x2 y2 x y ≡ false
inside-none x1 y1 x2 y2 x y h = ground arith

pub inside-no_row : (x1 y1 x2 y2 x y : ℕ) → y2 ≤ y1 → inside x1 y1 x2 y2 x y ≡ false
inside-no_row x1 y1 x2 y2 x y h = ground arith

-- A rectangle is two parts of it.
pub inside-columns :
    (x1 m x2 y1 y2 x y : ℕ)
    → x1 ≤ m
    → m ≤ x2
    → (inside x1 y1 m y2 x y || inside m y1 x2 y2 x y) ≡ inside x1 y1 x2 y2 x y
inside-columns x1 m x2 y1 y2 x y h k = ground arith

pub inside-rows :
    (x1 x2 y1 m y2 x y : ℕ)
    → y1 ≤ m
    → m ≤ y2
    → (inside x1 y1 x2 m x y || inside x1 m x2 y2 x y) ≡ inside x1 y1 x2 y2 x y
inside-rows x1 x2 y1 m y2 x y h k = ground arith

get_elem?-set :
    (l : List ℕ) (i j c : ℕ)
    → i < length l
    → get_elem? (set l i c) j ≡ (if i == j then some c else get_elem? l j)
get_elem?-set [] i j c h = absurd (omega arith)
get_elem?-set (a ∷ l) zero zero c h = refl
get_elem?-set (a ∷ l) zero (suc j) c h = rw zero_suc refl
  where
    zero_suc : (0 == suc j) ≡ false
    zero_suc = ground arith
get_elem?-set (a ∷ l) (suc i) zero c h = rw suc_zero refl
  where
    suc_zero : (suc i == 0) ≡ false
    suc_zero = ground arith
get_elem?-set (a ∷ l) (suc i) (suc j) c h = rw suc_suc (get_elem?-set l i j c (omega arith))
  where
    suc_suc : (suc i == suc j) ≡ (i == j)
    suc_suc = ground arith

-- Two points of a screen have one index only if they are one point.
index-injective-y : (w x y x' y' : ℕ) → x < w → x' < w → y * w + x ≡ y' * w + x' → y ≡ y'
index-injective-y w x y x' y' h h' e = elim (Bool-cases (ltb y y')) [
  | inl l ↦ absurd (omega (arith, row_of y y' w (ltb→lt y y' l)))
  | inr l ↦ elim (Bool-cases (ltb y' y)) [
    | inl m ↦ absurd (omega (arith, row_of y' y w (ltb→lt y' y m)))
    | inr m ↦ omega (arith, ltb→ge y y' l, ltb→ge y' y m)
  ]
]

index-== :
    (w x y x' y' : ℕ)
    → x < w
    → x' < w
    → (y * w + x == y' * w + x') ≡ inside x y (x + 1) (y + 1) x' y'
index-== w x y x' y' h h' = elim (Bool-cases (y == y')) [
  | inl e ↦ let same : y ≡ y' = (==_iff y y').0 e in rw same (ground arith)
  | inr e ↦ elim (Bool-cases (y * w + x == y' * w + x')) [
    | inl g ↦ absurd (different (index-injective-y w x y x' y' h h' ((==_iff _ _).0 g)) e)
    | inr g ↦ g ∙ sym (outside e)
  ]
]
  where
    different : y ≡ y' → (y == y') ≡ false → ⊥
    different s e = ground (arith, s, e)

    outside : (y == y') ≡ false → inside x y (x + 1) (y + 1) x' y' ≡ false
    outside e = ground (arith, e)

-- A screen of `w` times `h` pixels.
module _ (w h : ℕ) (P : ℕ → Type 0) where
  -- In a region all pixels get a property, and outside of it they stay.
  pub record Paints (region : ℕ → ℕ → Bool) (old new : List ℕ) : Type 0 where
    pub same_size : length new ≡ length old
    pub painted :
        (x y : ℕ)
        → x < w
        → y < h
        → region x y ≡ true
        → (p : ℕ) × (get_elem? new (y * w + x) ≡ some p) × P p
    pub left_alone :
        (x y : ℕ)
        → x < w
        → y < h
        → region x y ≡ false
        → get_elem? new (y * w + x) ≡ get_elem? old (y * w + x)

  pub Paints-same :
      (r r' : ℕ → ℕ → Bool) (old new : List ℕ)
      → ((x y : ℕ) → x < w → y < h → r x y ≡ r' x y)
      → Paints r old new
      → Paints r' old new
  Paints-same r r' old new e p = record {
    same_size = p.same_size;
    painted = λ x y hx hy k. p.painted x y hx hy (e x y hx hy ∙ k);
    left_alone = λ x y hx hy k. p.left_alone x y hx hy (e x y hx hy ∙ k);
  }

  pub Paints-none :
      (r : ℕ → ℕ → Bool) (old : List ℕ)
      → ((x y : ℕ) → x < w → y < h → r x y ≡ false)
      → Paints r old old
  Paints-none r old e = record {
    same_size = refl;
    painted = λ x y hx hy k. absurd (true-false (sym k ∙ e x y hx hy));
    left_alone = λ x y hx hy k. refl;
  }

  -- One region after another.
  pub Paints-then :
      (r r' : ℕ → ℕ → Bool) (a b c : List ℕ)
      → Paints r a b
      → Paints r' b c
      → Paints (λ x y. r x y || r' x y) a c
  Paints-then r r' a b c p q = record {
    same_size = q.same_size ∙ p.same_size;
    painted = λ x y hx hy k. elim (Bool-cases (r' x y)) [
      | inl e ↦ q.painted x y hx hy e
      | inr e ↦
          let (px, at, good) = p.painted x y hx hy (first (r x y) (r' x y) k e) in
          (px, q.left_alone x y hx hy e ∙ at, good)
    ];
    left_alone = λ x y hx hy k.
        q.left_alone x y hx hy (neither (r x y) (r' x y) k).1
        ∙ p.left_alone x y hx hy (neither (r x y) (r' x y) k).0;
  }
    where
      first : (u v : Bool) → (u || v) ≡ true → v ≡ false → u ≡ true
      first true v h e = refl
      first false v h e = cc

      neither : (u v : Bool) → (u || v) ≡ false → (u ≡ false) × (v ≡ false)
      neither true v h = cc
      neither false v h = (refl, h)

  module _ (w_h : w * h < 2 ^ 32) where
    pub write-Paints :
        (buffer : List ℕ) (x y color : ℕ)
        → length buffer ≡ w * h
        → x < w
        → y < h
        → P color
        → Returns
            (Paints (inside x y (x + 1) (y + 1)) buffer)
            (write buffer (y * w % 2 ^ 32 + x) color)
    unfolding write
    write-Paints buffer x y color size hx hy good =
        let in_row = row_of y h w hy in
        let plain : y * w % 2 ^ 32 + x ≡ y * w + x = omega arith in
        let bound : y * w + x < length buffer = omega arith in
        rw plain (
          rw (lt→ltb (y * w + x) (length buffer) bound) record {
            same_size = length-set buffer (y * w + x) color;
            painted = λ x' y' hx' hy' k. (
              color,
              rw (get_elem?-set buffer (y * w + x) (y' * w + x') color bound)
                  (rw (index-== w x y x' y' hx hx') (rw k refl)),
              good,
            );
            left_alone = λ x' y' hx' hy' k.
                rw (get_elem?-set buffer (y * w + x) (y' * w + x') color bound)
                  (rw (index-== w x y x' y' hx hx') (rw k refl));
          })
