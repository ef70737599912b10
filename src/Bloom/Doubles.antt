-- ===== src/Bloom/Doubles.antt =====
-- The constructor of `BloomFilter`, over the arithmetic of `double`.
use degoonification.Common.{
  ℕ, zero, suc, ◌+◌, ◌*◌, ◌/◌, ◌%◌, ◌^◌, ◌<◌, ◌≤◌, ◌≡◌, refl, ap, sym, ◌∙◌, Bool, false, ◌==◌, ◌||◌,
  ltb, if◌then◌else◌, replicate, length-replicate, arith, Bytes, some, ◌∷◌,
}
use degoonification.Bloom.Bitset.{all_members}
use degoonification.Bloom.Members.{contains_within, all_members-zeros}
use degoonification.Bloom.{BloomFilter, IsWellFormed, contains, zeros, positions}

-- What the constructor does with a `double`: constants, comparison, arithmetic, `std::log`,
-- `std::ceil` and `std::round`, and conversions from and to `size_t`.
pub record Double (D : Type 0) : Type 0 where
  pub zero : D
  pub one : D
  pub thousandth : D
  pub ln2 : D
  pub lt : D → D → Bool
  pub le : D → D → Bool
  pub neg : D → D
  pub log : D → D
  pub ceil : D → D
  pub round : D → D
  pub mul : D → D → D
  pub div : D → D → D
  pub of_size : ℕ → D
  pub to_size : D → ℕ

module _ {D : Type 0} (d : Double D) where
  open d use {lt, le, neg, log, ceil, round, mul, div, of_size, to_size}

  -- `false_positive_rate <= 0.0 || false_positive_rate >= 1.0`
  abbrev checked_rate : D → D
  checked_rate p = if le p d.zero || le d.one p then d.thousandth else p

  abbrev checked_count : ℕ → ℕ
  checked_count n = if n == 0 then 1 else n

  -- `num_bits_` before it is rounded up to whole words.
  unfoldable pub wanted_bits : ℕ → D → ℕ
  wanted_bits n p =
      let m = to_size (
        ceil
          (div (mul (neg (of_size (checked_count n))) (log (checked_rate p))) (mul d.ln2 d.ln2))) in
      if ltb m 64 then 64 else m

  -- `std::max(1.0, x)`
  abbrev at_least_one : D → D
  at_least_one x = if lt d.one x then x else d.one

  unfoldable pub wanted_hashes : ℕ → D → ℕ
  wanted_hashes n p = to_size (
      at_least_one
        (round (mul (div (of_size (wanted_bits n p)) (of_size (checked_count n))) d.ln2)))

  pub construct : ℕ → D → BloomFilter
  construct n p =
      let words = (wanted_bits n p + 63) % 2 ^ 64 / 64 in
      record {
        num_bits = words * 64 % 2 ^ 64;
        num_hashes = wanted_hashes n p;
        element_count = 0;
        bits = replicate words 0;
      }

  -- The numbers of bits and hashes that the arithmetic of `double` gives are in the range of `size_t`, with
  -- room for the rounding up to words, and there is a hash.
  pub record IsInRange (n : ℕ) (p : D) : Type 0 where
    pub bits_fit : wanted_bits n p + 63 < 2 ^ 64
    pub some_hashes : 1 ≤ wanted_hashes n p

  wanted_bits-ge : (n : ℕ) (p : D) → 64 ≤ wanted_bits n p
  unfolding wanted_bits
  wanted_bits-ge n p = ground arith

  -- The constructed filter is well formed, with at least 64 bits, if its sizes are in range.
  pub construct-IsWellFormed :
      (n : ℕ) (p : D)
      → IsInRange n p
      → IsWellFormed (construct n p) × (64 ≤ (construct n p).num_bits)
  unfolding construct wanted_hashes
  construct-IsWellFormed n p range =
      let words = (wanted_bits n p + 63) % 2 ^ 64 / 64 in
      (
        record {
          sized = omega (arith, length-replicate {A = ℕ} words 0, range.bits_fit);
          some_bits = omega (arith, wanted_bits-ge n p, range.bits_fit);
          some_hashes = range.some_hashes;
        },
        omega (arith, wanted_bits-ge n p, range.bits_fit),
      )

zeros-replicate : (n : ℕ) → zeros (replicate n 0) ≡ replicate n 0
zeros-replicate zero = refl
zeros-replicate (suc n) = ap (λ ws. 0 ∷ ws) (zeros-replicate n)

bits_zero :
    {D : Type 0} (d : Double D) (n : ℕ) (p : D)
    → (construct d n p).bits ≡ zeros (construct d n p).bits
unfolding construct
bits_zero d n p = sym (zeros-replicate ((wanted_bits d n p + 63) % 2 ^ 64 / 64))

-- A constructed filter holds no key.
pub contains-construct :
    {D : Type 0} (d : Double D) (n : ℕ) (p : D) (key : Bytes)
    → IsInRange d n p
    → contains (construct d n p) key ≡ some false
contains-construct d n p key range =
    let f = construct d n p in
    contains_within f key (construct-IsWellFormed d n p range).0
    ∙ ap (λ bits. some (all_members f.num_hashes 0 (positions f key) bits)) (bits_zero d n p)
    ∙ ap some (
        all_members-zeros f.num_hashes 0 (positions f key) f.bits
          (construct-IsWellFormed d n p range).0.some_hashes)
