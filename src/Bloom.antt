-- ===== src/Bloom.antt =====
-- `BloomFilter` of core/engine_shared/src/bloom_filter.cpp and bloom_filter.hpp. An access to a word
-- outside of `bits_`, which in C++ is undefined, is the result `none`.
pub mod Bitset
pub mod Members
pub mod Hash
pub mod Doubles
pub mod File
use degoonification.Common.{
  ◌≡◌, ◌<◌, ℕ, zero, suc, ◌+◌, ◌*◌, ◌/◌, ◌%◌, ◌^◌, bit_and, bit_or, bit_xor, Bool, true, false, not,
  ◌==◌, ◌||◌, if◌then◌else◌, Option, none, some, List, [], ◌∷◌, Bytes, to_lower, get_elem?, set,
  length, is_empty,
}

pub record BloomFilter : Type 0 where
  pub num_bits : ℕ
  pub num_hashes : ℕ
  pub element_count : ℕ
  pub bits : List ℕ

-- One round of each hash, on `uint64_t`.
unfoldable pub fnv1a_step : ℕ → ℕ → ℕ
fnv1a_step hash c = bit_xor hash (to_lower c) * 1099511628211 % 2 ^ 64

unfoldable pub murmur_step : ℕ → ℕ → ℕ
murmur_step h c =
    let product = bit_xor h (to_lower c) * 0xc6a4a7935bd1e995 % 2 ^ 64 in
    bit_xor product (product / 2 ^ 47)

abbrev pub loop_bytes : (ℕ → ℕ → ℕ) → ℕ → Bytes → ℕ
loop_bytes step h [] = h
loop_bytes step h (c ∷ cs) = loop_bytes step (step h c) cs

unfoldable pub hash_fnv1a_64 : Bytes → ℕ
unfolding fnv1a_step
hash_fnv1a_64 s = loop_bytes fnv1a_step 14695981039346656037 s

unfoldable pub hash_murmur_mix_64 : Bytes → ℕ
unfolding murmur_step
hash_murmur_mix_64 s = loop_bytes murmur_step 0x517cc1b727220a95 s

-- `combined` in round `i`.
unfoldable pub position : ℕ → ℕ → ℕ → ℕ → ℕ
position num_bits h1 h2 i = (h1 + i * h2) % 2 ^ 64 % num_bits

-- `bits_[c / 64] |= 1ULL << (c % 64)`
pub set_bit : ℕ → List ℕ → Option (List ℕ)
set_bit c bits = elim (get_elem? bits (c / 64)) [
  | none ↦ none
  | some w ↦ some (set bits (c / 64) (bit_or w (2 ^ (c % 64))))
]

-- `bits_[c / 64] & (1ULL << (c % 64))`, as a test.
unfoldable pub test_bit : ℕ → List ℕ → Option Bool
test_bit c bits = elim (get_elem? bits (c / 64)) [
  | none ↦ none
  | some w ↦ some (not (bit_and w (2 ^ (c % 64)) == 0))
]

-- The loop of `add`, from round `i` on, with the rounds that are left.
pub set_bits : ℕ → ℕ → (ℕ → ℕ) → List ℕ → Option (List ℕ)
set_bits zero i at bits = some bits
set_bits (suc rounds) i at bits = elim (set_bit (at i) bits) [
  | none ↦ none
  | some changed ↦ set_bits rounds (i + 1) at changed
]

-- The loop of `contains`.
unfoldable pub test_bits : ℕ → ℕ → (ℕ → ℕ) → List ℕ → Option Bool
test_bits zero i at bits = some true
test_bits (suc rounds) i at bits = elim (test_bit (at i) bits) [
  | none ↦ none
  | some hit ↦ elim hit [ true ↦ test_bits rounds (i + 1) at bits | false ↦ some false ]
]

-- The positions of a key.
unfoldable pub positions : BloomFilter → Bytes → ℕ → ℕ
positions f key = position f.num_bits (hash_fnv1a_64 key) (hash_murmur_mix_64 key)

abbrev pub with_bits : BloomFilter → Option (List ℕ) → Option BloomFilter
with_bits f none = none
with_bits f (some bits) =
    some (record f { element_count = (f.element_count + 1) % 2 ^ 64; bits = bits })

pub add : Bytes → BloomFilter → Option BloomFilter
add key f =
    if f.num_bits == 0
    then some f
    else with_bits f (set_bits f.num_hashes 0 (positions f key) f.bits)

unfoldable pub contains : BloomFilter → Bytes → Option Bool
contains f key =
    if f.num_bits == 0 || is_empty f.bits
    then some false
    else test_bits f.num_hashes 0 (positions f key) f.bits

abbrev pub zeros : List ℕ → List ℕ
zeros [] = []
zeros (w ∷ ws) = 0 ∷ zeros ws

pub clear : BloomFilter → BloomFilter
clear f = record f { bits = zeros f.bits; element_count = 0 }

-- Every bit of the filter has its word.
pub record IsWellFormed (f : BloomFilter) : Type 0 where
  pub sized : f.num_bits ≡ 64 * length f.bits
  pub some_bits : 0 < f.num_bits
  pub some_hashes : 0 < f.num_hashes
