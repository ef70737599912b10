-- ===== src/Bloom/File.antt =====
-- `save_to_file` and `load_from_file` of core/engine_shared/src/bloom_filter.cpp, over the bytes of
-- the file on a little-endian machine. Failures of the file system are arguments; an allocation that
-- fails is not modelled.
use degoonification.Common.{
  ℕ, zero, suc, ◌+◌, ◌*◌, ◌/◌, ◌%◌, ◌^◌, ◌<◌, ◌≡◌, refl, ap, Bool, true, false, ◌==◌, if◌then◌else◌,
  Option, none, some, List, [], ◌∷◌, ◌++◌, Bytes, length, All, arith,
}
use native.Mathlib.Nat.{pow-suc}
use degoonification.Bloom.{BloomFilter}

infixl 5 ◌>>=◌
abbrev ◌>>=◌ : {A B : Type 0} → Option A → (A → Option B) → Option B
none >>= f = none
some a >>= f = f a

-- The bytes of an unsigned integer in memory, and `in.read` of as many bytes into one.
pub le : ℕ → ℕ → Bytes
le zero x = []
le (suc n) x = x % 256 ∷ le n (x / 256)

pub read_le : ℕ → Bytes → Option (ℕ × Bytes)
read_le zero s = some (0, s)
read_le (suc n) [] = none
read_le (suc n) (c ∷ cs) = read_le n cs >>= λ r. some (c + 256 * r.0, r.1)

pub words : List ℕ → Bytes
words [] = []
words (w ∷ ws) = le 8 w ++ words ws

pub read_words : ℕ → Bytes → Option (List ℕ)
read_words zero s = some []
read_words (suc n) s = read_le 8 s >>= λ r. read_words n r.1 >>= λ ws. some (r.0 ∷ ws)

-- Magic "DGBF".
pub read_magic : Bytes → Option Bytes
read_magic (a ∷ b ∷ c ∷ d ∷ s) =
    if a == 68
    then (if b == 71 then (if c == 66 then (if d == 70 then some s else none) else none) else none)
    else none
read_magic _ = none

-- The bytes that `save_to_file` writes.
pub save : BloomFilter → Bytes
save f =
    68
    ∷ 71
    ∷ 66
    ∷ 70
    ∷ (le 4 1
        ++ (le 8 f.num_bits
            ++ (le 8 f.num_hashes
                ++ (le 8 f.element_count ++ (le 8 (length f.bits) ++ words f.bits)))))

-- Everything behind the version.
pub read_fields : Bytes → Option BloomFilter
read_fields s = read_le 8 s >>= λ n_bits. read_le 8 n_bits.1 >>= λ n_hashes.
    read_le 8 n_hashes.1 >>= λ n_elem. read_le 8 n_elem.1 >>= λ n_words.
    read_words n_words.0 n_words.1 >>= λ loaded_bits. some (record {
      num_bits = n_bits.0;
      num_hashes = n_hashes.0;
      element_count = n_elem.0;
      bits = loaded_bits;
    })

pub read_filter : Bytes → Option BloomFilter
read_filter text = read_magic text >>= λ s.
    read_le 4 s >>= λ version. if version.0 == 1 then read_fields version.1 else none

abbrev commit : Option BloomFilter → BloomFilter → Bool × BloomFilter
commit none f = (false, f)
commit (some g) f = (true, g)

-- The result of the call and the filter after it; `none` is a file that cannot be opened.
pub load_from_file : Option Bytes → BloomFilter → Bool × BloomFilter
load_from_file none f = (false, f)
load_from_file (some text) f = commit (read_filter text) f

read_le-le : (n x : ℕ) (rest : Bytes) → x < 256 ^ n → read_le n (le n x ++ rest) ≡ some (x, rest)
unfolding read_le le
read_le-le zero x rest h = let e : 0 ≡ x = omega arith in ap (λ v. some (v, rest)) e
read_le-le (suc n) x rest h =
    let e : x % 256 + 256 * (x / 256) ≡ x = omega arith in
    rw (read_le-le n (x / 256) rest (omega (arith, pow-suc 256 n))) (ap (λ v. some (v, rest)) e)

read_words-words :
    (ws : List ℕ) → All (λ w. w < 2 ^ 64) ws → read_words (length ws) (words ws) ≡ some ws
unfolding read_words words
read_words-words [] h = refl
read_words-words (w ∷ ws) (h, hs) = rw (read_le-le 8 w (words ws) h) (rw (read_words-words ws hs))

-- The fields of a filter fit their types.
pub record IsStored (f : BloomFilter) : Type 0 where
  pub bits_fit : f.num_bits < 2 ^ 64
  pub hashes_fit : f.num_hashes < 2 ^ 64
  pub count_fits : f.element_count < 2 ^ 64
  pub length_fits : length f.bits < 2 ^ 64
  pub words_fit : All (λ w. w < 2 ^ 64) f.bits

read_fields-save :
    (f : BloomFilter)
    → IsStored f
    → read_fields (
        le 8 f.num_bits
        ++ (le 8 f.num_hashes ++ (le 8 f.element_count ++ (le 8 (length f.bits) ++ words f.bits))))
      ≡ some f
unfolding read_fields
read_fields-save f w = rw (read_le-le 8 f.num_bits _ w.bits_fit) (
    rw (read_le-le 8 f.num_hashes _ w.hashes_fit) (
      rw (read_le-le 8 f.element_count _ w.count_fits) (
        rw (read_le-le 8 (length f.bits) _ w.length_fits)
          (rw (read_words-words f.bits w.words_fit)))))

-- A saved filter whose fields fit into 64 bits is loaded as it was, whatever the filter held that
-- loads it.
pub load-save : (f g : BloomFilter) → IsStored f → load_from_file (some (save f)) g ≡ (true, f)
unfolding load_from_file read_filter read_magic save
load-save f g w = rw (read_le-le 4 1 _ (omega arith)) (rw (read_fields-save f w))
