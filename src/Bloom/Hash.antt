-- ===== src/Bloom/Hash.antt =====
-- The hashes see no difference between capital and small letters, and stay within 64 bits.
use degoonification.Common.{
  ℕ, ◌*◌, ◌%◌, ◌^◌, ◌/◌, ◌≡◌, refl, ap, ◌∙◌, [], ◌∷◌, map, Bytes, to_lower, to_lower_idem, bit_xor,
}
use degoonification.Bloom.{
  BloomFilter, fnv1a_step, murmur_step, loop_bytes, hash_fnv1a_64, hash_murmur_mix_64, positions,
  position, contains, add,
}

fnv1a-lower :
    (h : ℕ) (s : Bytes) → loop_bytes fnv1a_step h (map to_lower s) ≡ loop_bytes fnv1a_step h s
unfolding fnv1a_step
fnv1a-lower h [] = refl
fnv1a-lower h (c ∷ s) =
    ap (λ x. loop_bytes fnv1a_step (bit_xor h x * 1099511628211 % 2 ^ 64) (map to_lower s))
      (to_lower_idem c)
    ∙ fnv1a-lower (fnv1a_step h c) s

abbrev mixed : ℕ → ℕ
mixed x = let product = x * 0xc6a4a7935bd1e995 % 2 ^ 64 in bit_xor product (product / 2 ^ 47)

murmur-lower :
    (h : ℕ) (s : Bytes) → loop_bytes murmur_step h (map to_lower s) ≡ loop_bytes murmur_step h s
unfolding murmur_step
murmur-lower h [] = refl
murmur-lower h (c ∷ s) =
    ap (λ x. loop_bytes murmur_step (mixed (bit_xor h x)) (map to_lower s)) (to_lower_idem c)
    ∙ murmur-lower (murmur_step h c) s

positions-lower : (f : BloomFilter) (key : Bytes) → positions f (map to_lower key) ≡ positions f key
unfolding positions hash_fnv1a_64 hash_murmur_mix_64
positions-lower f key =
    ap (λ a. position f.num_bits a (loop_bytes murmur_step 0x517cc1b727220a95 (map to_lower key)))
      (fnv1a-lower 14695981039346656037 key)
    ∙ ap (position f.num_bits (loop_bytes fnv1a_step 14695981039346656037 key))
        (murmur-lower 0x517cc1b727220a95 key)

-- Keys that differ only in the case of letters are added and found alike.
pub case_blind :
    (f : BloomFilter) (key : Bytes)
    → (contains f (map to_lower key) ≡ contains f key) × (add (map to_lower key) f ≡ add key f)
unfolding contains add
case_blind f key = (rw (positions-lower f key), rw (positions-lower f key))
