-- ===== src/Bloom/Members.antt =====
-- The filter as a set of keys: no added key is ever missed, no word outside of the filter is
-- touched, and a cleared filter holds nothing.
use degoonification.Common.{
  ℕ, zero, suc, ◌+◌, ◌*◌, ◌/◌, ◌%◌, ◌^◌, ◌<◌, ◌≡◌, refl, ap, sym, ◌∙◌, Bool, true, false, ◌==◌,
  ◌||◌, Option, none, some, List, [], ◌∷◌, Bytes, All, get_or, is_empty, length, arith,
}
use native.Mathlib.Nat.{mod-lt}
use degoonification.Common.Bits.{digit-zero}
use degoonification.Bloom.{
  BloomFilter, IsWellFormed, position, positions, add, contains, clear, zeros,
}
use degoonification.Bloom.Bitset.{
  member, hits, all_members, test_bits-all_members, set_bits-member, hits-all_members,
  all_members_mono,
}

position_inside :
    (f : BloomFilter) (key : Bytes)
    → IsWellFormed f
    → (i : ℕ) → positions f key i / 64 < length f.bits
unfolding positions position
position_inside f key w i = omega (arith, mod-lt _ w.some_bits, w.sized)

abbrev holds : BloomFilter → Bytes → Bool
holds f key = all_members f.num_hashes 0 (positions f key) f.bits

not_empty : (f : BloomFilter) → IsWellFormed f → (f.num_bits == 0 || is_empty f.bits) ≡ false
not_empty f w = go f.bits w.sized
  where
    go :
        (bits : List ℕ) → f.num_bits ≡ 64 * length bits → (f.num_bits == 0 || is_empty bits) ≡ false
    go [] e = absurd (omega (arith, w.some_bits))
    go (x ∷ xs) e = ground (arith, w.some_bits)

-- A lookup in a well-formed filter stays within its words.
pub contains_within :
    (f : BloomFilter) (key : Bytes) → IsWellFormed f → contains f key ≡ some (holds f key)
unfolding contains
contains_within f key w = rw (not_empty f w) (
    test_bits-all_members (positions f key) (length f.bits) (position_inside f key w) f.num_hashes 0
      f.bits refl)

pub contains_total :
    (f : BloomFilter) (key : Bytes) → IsWellFormed f → (hit : Bool) × (contains f key ≡ some hit)
contains_total f key w = (holds f key, contains_within f key w)

-- What an addition leaves behind: the sizes, the added key, and all the keys from before.
pub record Added (key : Bytes) (f g : BloomFilter) : Type 0 where
  pub num_bits : g.num_bits ≡ f.num_bits
  pub num_hashes : g.num_hashes ≡ f.num_hashes
  pub count : g.element_count ≡ (f.element_count + 1) % 2 ^ 64
  pub formed : IsWellFormed g
  pub present : contains g key ≡ some true
  pub kept : (j : Bytes) → contains f j ≡ some true → contains g j ≡ some true

some-true : (b : Bool) → some b ≡ some true → b ≡ true
some-true true e = refl
some-true false e = cc

module _ (f : BloomFilter) (w : IsWellFormed f) (count : ℕ) (bits : List ℕ)
    (size : length bits ≡ length f.bits) where
  abbrev changed : BloomFilter
  changed = record f { element_count = count; bits = bits }

  changed-IsWellFormed : IsWellFormed changed
  changed-IsWellFormed = record {
    sized = omega (arith, w.sized);
    some_bits = w.some_bits;
    some_hashes = w.some_hashes;
  }

  -- A key whose positions are all set is found.
  present_if_hit :
      (key : Bytes)
      → ((d : ℕ) → hits f.num_hashes 0 (positions f key) d ≡ true → member d bits ≡ true)
      → contains changed key ≡ some true
  unfolding positions
  present_if_hit key h =
      contains_within changed key changed-IsWellFormed
      ∙ ap some (
          hits-all_members (positions f key) (length f.bits) (position_inside f key w) f.num_hashes
            0 bits h)

  -- A key that was found stays found when no bit is lost.
  kept_if_more :
      (key : Bytes)
      → ((d : ℕ) → member d f.bits ≡ true → member d bits ≡ true)
      → contains f key ≡ some true
      → contains changed key ≡ some true
  unfolding positions
  kept_if_more key h e =
      contains_within changed key changed-IsWellFormed
      ∙ ap some (
          all_members_mono (positions f key) (length f.bits) (position_inside f key w) f.num_hashes
            0 f.bits bits h (some-true _ (sym (contains_within f key w) ∙ e)))

pub add_lem :
    (key : Bytes) (f : BloomFilter)
    → IsWellFormed f
    → (g : BloomFilter) × (add key f ≡ some g) × Added key f g
unfolding add
add_lem key f w =
    let (bits, e, size, m) =
      set_bits-member (positions f key) (length f.bits) (position_inside f key w) f.num_hashes 0
        f.bits refl in
    let count = (f.element_count + 1) % 2 ^ 64 in
    let nonzero : (f.num_bits == 0) ≡ false = ground (arith, w.some_bits) in
    (
      changed f w count bits size,
      rw (nonzero, e),
      record {
        num_bits = refl;
        num_hashes = refl;
        count = refl;
        formed = changed-IsWellFormed f w count bits size;
        present = present_if_hit f w count bits size key (λ d h. ground (arith, m d));
        kept = λ j. kept_if_more f w count bits size j (λ d h. ground (arith, m d));
      },
    )

pub add_all : List Bytes → BloomFilter → Option BloomFilter
add_all [] f = some f
add_all (key ∷ keys) f = elim (add key f) [ none ↦ none | some g ↦ add_all keys g ]

-- What additions leave: every key that was added, or was found before, is found.
add_all_lem :
    (keys : List Bytes) (f : BloomFilter)
    → IsWellFormed f
    → (g : BloomFilter) × (add_all keys f ≡ some g)
      × IsWellFormed g
      × All (λ key. contains g key ≡ some true) keys
      × ((j : Bytes) → contains f j ≡ some true → contains g j ≡ some true)
unfolding add_all
add_all_lem [] f w = (f, refl, w, tt, λ j h. h)
add_all_lem (key ∷ keys) f w =
    let (one, e, a) = add_lem key f w in
    let (g, e', w', found, kept) = add_all_lem keys one a.formed in
    (g, rw (e, add_all) e', w', (kept key a.present, found), λ j h. kept j (a.kept j h))

-- Any keys can be added to a well-formed filter without an access out of bounds; the filter stays
-- well formed, and every key that was added is found.
pub no_false_negatives :
    (keys : List Bytes) (f : BloomFilter)
    → IsWellFormed f
    → (g : BloomFilter) × (add_all keys f ≡ some g)
      × IsWellFormed g
      × All (λ key. contains g key ≡ some true) keys
no_false_negatives keys f w =
    let (g, e, w', found, kept) = add_all_lem keys f w in (g, e, w', found)

-- A key that a well-formed filter finds is still found after any additions.
pub add_all-kept :
    (keys : List Bytes) (f : BloomFilter) (j : Bytes)
    → IsWellFormed f
    → contains f j ≡ some true
    → (g : BloomFilter) × (add_all keys f ≡ some g) × (contains g j ≡ some true)
add_all-kept keys f j w h = let (g, e, w', found, kept) = add_all_lem keys f w in (g, e, kept j h)

length-zeros : (bits : List ℕ) → length (zeros bits) ≡ length bits
length-zeros [] = refl
length-zeros (b ∷ bits) = ap suc (length-zeros bits)

get_or-zeros : (bits : List ℕ) (i : ℕ) → get_or (zeros bits) i 0 ≡ 0
get_or-zeros [] i = refl
get_or-zeros (b ∷ bits) zero = refl
get_or-zeros (b ∷ bits) (suc i) = get_or-zeros bits i

pub member-zeros : (d : ℕ) (bits : List ℕ) → member d (zeros bits) ≡ false
unfolding member
member-zeros d bits = rw (get_or-zeros bits (d / 64), digit-zero (d % 64))

-- A well-formed filter whose bits are all clear holds no key.
pub all_members-zeros :
    (rounds i : ℕ) (at : ℕ → ℕ) (bits : List ℕ)
    → 0 < rounds
    → all_members rounds i at (zeros bits) ≡ false
unfolding all_members
all_members-zeros zero i at bits h = absurd (omega arith)
all_members-zeros (suc rounds) i at bits h = rw (member-zeros (at i) bits)

-- A well-formed filter is well formed after `clear`, and holds no key.
pub clear_lem :
    (f : BloomFilter) (key : Bytes)
    → IsWellFormed f
    → IsWellFormed (clear f) × (contains (clear f) key ≡ some false)
unfolding clear
clear_lem f key w =
    let formed : IsWellFormed (record f { bits = zeros f.bits; element_count = 0 }) = record {
      sized = omega (arith, w.sized, length-zeros f.bits);
      some_bits = w.some_bits;
      some_hashes = w.some_hashes;
    } in
    (
      formed,
      contains_within (record f { bits = zeros f.bits; element_count = 0 }) key formed
          ∙ ap some (all_members-zeros f.num_hashes 0 _ f.bits w.some_hashes),
    )
