-- ===== src/Boxes/Merge/Passes.antt =====
-- The merging loop, pass by pass.
use degoonification.Common.{
  ℕ, zero, suc, ◌+◌, ◌≤◌, ◌<◌, ◌≡◌, refl, ap, ◌∙◌, Bool, true, false, ◌||◌, if◌then◌else◌, List, [],
  ◌∷◌, length, All, arith, Bool-cases, inl, inr,
}
use mathlib.Core.Path.{ap₂, subst}
use degoonification.Boxes.Merge.{absorb, pass, unconsumed}

module _ {A : Type 0} where
  -- The items that are not consumed.
  abbrev pub live : List (A × Bool) → List A
  live [] = []
  live ((b, true) ∷ rest) = live rest
  live ((b, false) ∷ rest) = b ∷ live rest

  pub live-unconsumed :
      (hit : A → A → Bool) (join : A → A → A) (l : List A) → live (unconsumed hit join l) ≡ l
  live-unconsumed hit join [] = refl
  live-unconsumed hit join (b ∷ l) = ap (λ r. b ∷ r) (live-unconsumed hit join l)

module _ {A : Type 0} (hit : A → A → Bool) (join : A → A → A) where
  -- No item hits a later one.
  abbrev pub Separated : List A → Type 0
  Separated [] = Unit {0}
  Separated (b ∷ rest) = All (λ c. hit b c ≡ false) rest × Separated rest

  -- What the inner loop does: it keeps the length, and either changes nothing and hits nothing, or
  -- consumes an item.
  abbrev Absorbed : A → List (A × Bool) → A × List (A × Bool) × Bool → Type 0
  Absorbed c l r =
      (length r.1 ≡ length l)
      × ((r.2 ≡ false → (r.0 ≡ c) × (r.1 ≡ l) × All (λ b. hit c b ≡ false) (live l)))
      × (length (live r.1) + (if r.2 then 1 else 0) ≤ length (live l))

  absorb_hit :
      (c b : A) (rest : List (A × Bool))
      → hit c b ≡ true
      → absorb hit join c ((b, false) ∷ rest)
        ≡ (let r = absorb hit join (join c b) rest in (r.0, (b, true) ∷ r.1, true))
  unfolding absorb
  absorb_hit c b rest e = rw (e, absorb)

  absorb_miss :
      (c b : A) (rest : List (A × Bool))
      → hit c b ≡ false
      → absorb hit join c ((b, false) ∷ rest)
        ≡ (let r = absorb hit join c rest in (r.0, (b, false) ∷ r.1, r.2))
  unfolding absorb
  absorb_miss c b rest e = rw (e, absorb)

  absorb_lem : (c : A) (l : List (A × Bool)) → Absorbed c l (absorb hit join c l)
  absorb_lem c [] = unfold absorb in (refl, λ e. (refl, refl, tt), omega arith)
  absorb_lem c ((b, true) ∷ rest) = consumed c b rest (absorb_lem c rest)
    where
      consumed :
          (c b : A) (rest : List (A × Bool))
          → Absorbed c rest (absorb hit join c rest)
          → Absorbed c ((b, true) ∷ rest) (absorb hit join c ((b, true) ∷ rest))
      consumed c b rest (size, same, fewer) =
          unfold absorb in
          (ap suc size, (λ e. let (h, k, a) = same e in (h, ap (λ r. (b, true) ∷ r) k, a)), fewer)
  absorb_lem c ((b, false) ∷ rest) = elim (Bool-cases (hit c b)) [
    | inl e ↦
        let (size, same, fewer) = absorb_lem (join c b) rest in
        rw (absorb_hit c b rest e)
          (ap suc size, (λ h. cc), omega (arith, room (absorb hit join (join c b) rest).2 fewer))
    | inr e ↦
        let (size, same, fewer) = absorb_lem c rest in
        rw (absorb_miss c b rest e) (
          ap suc size,
          (λ h. let (p, q, a) = same h in (p, ap (λ r. (b, false) ∷ r) q, (e, a))),
          omega (arith, fewer),
        )
  ]
    where
      room : (m : Bool) {x y : ℕ} → x + (if m then 1 else 0) ≤ y → x ≤ y
      room true h = omega arith
      room false h = omega arith

  -- What a pass does: it is shorter by the items that it merged, and a pass that merges nothing
  -- leaves the items as they were, no two of which hit each other.
  abbrev pub Passed : List (A × Bool) → List A × Bool → Type 0
  Passed l r =
      (length r.0 + (if r.1 then 1 else 0) ≤ length (live l))
      × ((r.1 ≡ false → (r.0 ≡ live l) × Separated (live l)))
      × ((0 < length (live l) → 0 < length r.0))

  or_bound :
      (a b : Bool) (x y z : ℕ)
      → x + (if b then 1 else 0) ≤ y
      → y + (if a then 1 else 0) ≤ z
      → suc x + (if a || b then 1 else 0) ≤ suc z
  or_bound true true x y z h k = omega arith
  or_bound true false x y z h k = omega arith
  or_bound false true x y z h k = omega arith
  or_bound false false x y z h k = omega arith

  or_none : (a b : Bool) → (a || b) ≡ false → (a ≡ false) × (b ≡ false)
  or_none false b h = (refl, h)
  or_none true b h = cc

  kept_pass :
      (b : A) (rest : List (A × Bool)) (r : A × List (A × Bool) × Bool) (out : List A × Bool)
      → Absorbed b rest r
      → Passed r.1 out
      → Passed ((b, false) ∷ rest) (r.0 ∷ out.0, r.2 || out.1)
  kept_pass b rest r out (size, same, fewer) (fewer', same', some') = (
    or_bound r.2 out.1 _ _ _ fewer' fewer,
    (λ h.
        let (none_here, none_there) = or_none r.2 out.1 h in
        let (p, q, a) = same none_here in
        let (p', sep) = same' none_there in
        (
          ap₂ (λ (x : A) (xs : List A). x ∷ xs) p (p' ∙ ap live q),
          (a, subst (λ l. Separated (live l)) q sep),
        )),
    (λ h. omega arith),
  )

  pub pass_lem : (n : ℕ) (l : List (A × Bool)) → length l ≤ n → Passed l (pass hit join n l)
  pass_lem zero [] h = unfold pass in (omega arith, (λ e. (refl, tt)), (λ k. k))
  pass_lem zero (b ∷ l) h = absurd (omega arith)
  pass_lem (suc n) [] h = unfold pass in (omega arith, (λ e. (refl, tt)), (λ k. k))
  pass_lem (suc n) ((b, true) ∷ rest) h = skip (pass_lem n rest (omega arith))
    where
      skip :
          Passed rest (pass hit join n rest)
          → Passed ((b, true) ∷ rest) (pass hit join (suc n) ((b, true) ∷ rest))
      skip p = unfold pass in p
  pass_lem (suc n) ((b, false) ∷ rest) h =
      let a = absorb_lem b rest in
      take_in (pass_lem n (absorb hit join b rest).1 (omega (arith, a.0)))
    where
      take_in :
          Passed (absorb hit join b rest).1 (pass hit join n (absorb hit join b rest).1)
          → Passed ((b, false) ∷ rest) (pass hit join (suc n) ((b, false) ∷ rest))
      take_in p =
          unfold pass in
          kept_pass b rest (absorb hit join b rest) (pass hit join n (absorb hit join b rest).1)
            (absorb_lem b rest) p
