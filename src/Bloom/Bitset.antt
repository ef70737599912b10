-- ===== src/Bloom/Bitset.antt =====
-- The words of a filter as a set of positions.
use degoonification.Common.{
  ℕ, zero, suc, ◌+◌, ◌*◌, ◌/◌, ◌%◌, ◌^◌, ◌<◌, ◌≡◌, refl, ap, ◌∙◌, bit_and, bit_or, Bool, true,
  false, not, ◌==◌, ◌||◌, ◌&&◌, some, List, [], ◌∷◌, get_elem?, get_or, get_or-set, set, length,
  length-set, arith, Bool-cases, inl, inr,
}
use Prim.Native.Nat.{max}
use native.Mathlib.Nat.{one-le-pow}
use degoonification.Common.Bits.{digit, digit-set, digit-lt, bit_and-digit}
use degoonification.Bloom.{set_bit, test_bit, set_bits, test_bits}

-- Whether the bit at a position is set; no bit is set outside of the words.
unfoldable pub member : ℕ → List ℕ → Bool
member c bits = digit (get_or bits (c / 64) 0) (c % 64) == 1

get_elem?-get_or : (xs : List ℕ) (i : ℕ) → i < length xs → get_elem? xs i ≡ some (get_or xs i 0)
get_elem?-get_or [] i h = elim h [ ]
get_elem?-get_or (x ∷ xs) zero h = refl
get_elem?-get_or (x ∷ xs) (suc i) h = get_elem?-get_or xs i (omega arith)

bit_test : (w k : ℕ) → not (bit_and w (2 ^ k) == 0) ≡ (digit w k == 1)
bit_test w k = rw (bit_and-digit w k) (go (digit w k) (digit-lt w k))
  where
    go : (b : ℕ) → b < 2 → not (b * 2 ^ k == 0) ≡ (b == 1)
    go zero h = ground arith
    go (suc zero) h = ground (arith, one-le-pow k 2 (omega arith))
    go (suc (suc b)) h = absurd (omega arith)

pub test_bit-member :
    (c : ℕ) (bits : List ℕ) → c / 64 < length bits → test_bit c bits ≡ some (member c bits)
unfolding test_bit member
test_bit-member c bits h =
    rw (get_elem?-get_or bits (c / 64) h, test_bit) (ap some (bit_test _ (c % 64)))

max_one : (x : ℕ) → x < 2 → (max x 1 == 1) ≡ true
max_one x h = ground arith

abbrev changed_by : ℕ → List ℕ → List ℕ
changed_by c bits = set bits (c / 64) (bit_or (get_or bits (c / 64) 0) (2 ^ (c % 64)))

member-changed_by :
    (c d : ℕ) (bits : List ℕ)
    → c / 64 < length bits
    → member d (changed_by c bits) ≡ (c == d || member d bits)
unfolding member
member-changed_by c d bits h =
    let w = get_or bits (c / 64) 0 in
    rw (get_or-set bits (c / 64) (d / 64) (bit_or w (2 ^ (c % 64))) 0 h)
      (elim (Bool-cases (c / 64 == d / 64)) [
        | inl e ↦
            let same : c / 64 ≡ d / 64 = ground arith in
            rw e (
              rw (digit-set w (c % 64) (d % 64)) (elim (Bool-cases (c % 64 == d % 64)) [
                | inl k ↦
                    let here : (c == d) ≡ true = ground arith in
                    rw (k, here) (max_one (digit w (d % 64)) (digit-lt w (d % 64)))
                | inr k ↦ let apart : (c == d) ≡ false = ground arith in rw (k, apart, same)
              ]))
        | inr e ↦ let apart : (c == d) ≡ false = ground arith in rw (e, apart)
      ])

pub set_bit-member :
    (c : ℕ) (bits : List ℕ)
    → c / 64 < length bits
    → (new : List ℕ) × (set_bit c bits ≡ some new)
      × (length new ≡ length bits)
      × ((d : ℕ) → member d new ≡ (c == d || member d bits))
unfolding set_bit
set_bit-member c bits h = (
  changed_by c bits,
  rw (get_elem?-get_or bits (c / 64) h, set_bit),
  length-set bits (c / 64) (bit_or (get_or bits (c / 64) 0) (2 ^ (c % 64))),
  λ d. member-changed_by c d bits h,
)

-- Whether a position is among those of the rounds from `i` on.
pub hits : ℕ → ℕ → (ℕ → ℕ) → ℕ → Bool
hits zero i at d = false
hits (suc rounds) i at d = at i == d || hits rounds (i + 1) at d

unfoldable pub all_members : ℕ → ℕ → (ℕ → ℕ) → List ℕ → Bool
all_members zero i at bits = true
all_members (suc rounds) i at bits = member (at i) bits && all_members rounds (i + 1) at bits

module _ (at : ℕ → ℕ) (n : ℕ) (inside : (i : ℕ) → at i / 64 < n) where
  pub test_bits-all_members :
      (rounds i : ℕ) (bits : List ℕ)
      → length bits ≡ n
      → test_bits rounds i at bits ≡ some (all_members rounds i at bits)
  unfolding test_bits all_members
  test_bits-all_members zero i bits h = refl
  test_bits-all_members (suc rounds) i bits h =
      rw (test_bit-member (at i) bits (omega (arith, inside i)), test_bits)
        (elim (Bool-cases (member (at i) bits)) [
          | inl e ↦ rw e (test_bits-all_members rounds (i + 1) bits h)
          | inr e ↦ rw e
        ])

  -- The loop of `add` sets the positions of its rounds and no other.
  pub set_bits-member :
      (rounds i : ℕ) (bits : List ℕ)
      → length bits ≡ n
      → (new : List ℕ) × (set_bits rounds i at bits ≡ some new)
        × (length new ≡ n)
        × ((d : ℕ) → member d new ≡ (hits rounds i at d || member d bits))
  unfolding set_bits hits
  set_bits-member zero i bits h = (bits, refl, h, λ d. refl)
  set_bits-member (suc rounds) i bits h =
      let (one, e, size, m) = set_bit-member (at i) bits (omega (arith, inside i)) in
      let (new, e', size', m') = set_bits-member rounds (i + 1) one (size ∙ h) in
      (new, rw (e, set_bits) e', size', λ d. ground (arith, m d, m' d))

  pub hits-all_members :
      (rounds i : ℕ) (bits : List ℕ)
      → ((d : ℕ) → hits rounds i at d ≡ true → member d bits ≡ true)
      → all_members rounds i at bits ≡ true
  unfolding hits all_members
  hits-all_members zero i bits h = refl
  hits-all_members (suc rounds) i bits h =
      let rest = hits-all_members rounds (i + 1) bits (λ d e. h d (ground arith)) in
      ground (arith, h (at i), rest)

  -- More members never make a test fail.
  pub all_members_mono :
      (rounds i : ℕ) (old new : List ℕ)
      → ((d : ℕ) → member d old ≡ true → member d new ≡ true)
      → all_members rounds i at old ≡ true
      → all_members rounds i at new ≡ true
  unfolding all_members
  all_members_mono zero i old new h e = refl
  all_members_mono (suc rounds) i old new h e =
      ground (arith, h (at i), all_members_mono rounds (i + 1) old new h)
