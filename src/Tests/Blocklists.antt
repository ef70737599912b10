-- ===== src/Tests/Blocklists.antt =====
-- Blocklists and filters: examples for the theorems on `DomainRadixTree` and `BloomFilter`.
use degoonification.Bloom.File.{IsStored}
use degoonification.Common.{
  ℕ, ◌*◌, ◌/◌, ◌%◌, ◌^◌, ◌≡◌, refl, true, false, not, ◌&&◌, ◌||◌, ltb, leb, ◌==◌, some, [], ◌∷◌,
  map, length, any, All, arith, is_empty, Bytes, dot, to_lower, is_space, List, starts_with,
}
use degoonification.Domain.{split_domain_labels}
use degoonification.Domain.Split.{IsLabel, IsLabelByte, join_labels, split-join_labels}
use degoonification.Radix.{empty, insert, matches, add_rule}
use degoonification.Radix.Refinement.{covers, insert_all, matches_iff_covered}
use degoonification.Radix.Size.{IsWellFormed, empty-IsWellFormed, insert-IsWellFormed, size-insert}
use degoonification.Radix.Names.{insert_blocks_subdomains}
use degoonification.Radix.Load.{load_from_file, is_blank_or_end}
use degoonification.Radix.Entries.{
  Entry, IsEntry, IsDomain, IsDomainByte, text_of, domains_of, load_from_file-entries,
}
use degoonification.Bloom.{
  BloomFilter, IsWellFormed as IsFilter, contains, add, positions, test_bits, test_bit, position,
  hash_fnv1a_64, hash_murmur_mix_64, fnv1a_step, murmur_step,
}
use degoonification.Bloom.Members.{add_all, no_false_negatives}
use degoonification.Bloom.Hash.{case_blind}
use degoonification.Bloom.Doubles.{Double, IsInRange, wanted_bits, wanted_hashes}
use degoonification.Bloom.File.{save, load_from_file as load_filter, load-save}

-- The labels "bad", "com" and "ads", and the name "bad.com".
abbrev pub bad : Bytes
bad = 98 ∷ 97 ∷ 100 ∷ []

abbrev pub tld : Bytes
tld = 99 ∷ 111 ∷ 109 ∷ []

abbrev pub ads : Bytes
ads = 97 ∷ 100 ∷ 115 ∷ []

abbrev pub bad_com : Bytes
bad_com = 98 ∷ 97 ∷ 100 ∷ 46 ∷ 99 ∷ 111 ∷ 109 ∷ []

-- BAD.com
abbrev capital : Bytes
capital = 66 ∷ 65 ∷ 68 ∷ 46 ∷ 99 ∷ 111 ∷ 109 ∷ []

plain : {c : ℕ} → (c == dot) ≡ false → is_space c ≡ false → to_lower c ≡ c → IsLabelByte c
plain h k m = record { no_dot = h; no_space = k; low = m }

bad-IsLabel : IsLabel bad
bad-IsLabel = (refl, (plain refl refl refl, (plain refl refl refl, (plain refl refl refl, tt))))

tld-IsLabel : IsLabel tld
tld-IsLabel = (refl, (plain refl refl refl, (plain refl refl refl, (plain refl refl refl, tt))))

ads-IsLabel : IsLabel ads
ads-IsLabel = (refl, (plain refl refl refl, (plain refl refl refl, (plain refl refl refl, tt))))

matches_iff_covered_example :
    matches (insert_all (bad_com ∷ tld ∷ []) empty) capital
    ≡ any (λ d. covers d capital) (bad_com ∷ tld ∷ [])
matches_iff_covered_example = matches_iff_covered (bad_com ∷ tld ∷ []) capital

size-insert_example :
    (insert bad_com empty).total_rules
    ≡ add_rule (not (is_empty (split_domain_labels bad_com)) && not (matches empty bad_com)) 0
size-insert_example = size-insert bad_com empty refl

insert-IsWellFormed_example : IsWellFormed (insert bad_com empty)
insert-IsWellFormed_example = insert-IsWellFormed bad_com empty (omega arith) empty-IsWellFormed

-- aDs.BAD.com is below bad.com.
insert_blocks_subdomains_example :
    matches (insert (join_labels (bad ∷ tld ∷ [])) empty) (97 ∷ 68 ∷ 115 ∷ dot ∷ capital) ≡ true
unfolding join_labels
insert_blocks_subdomains_example =
    insert_blocks_subdomains empty (ads ∷ []) bad (tld ∷ []) (97 ∷ 68 ∷ 115 ∷ dot ∷ capital) refl
      (ads-IsLabel, tt) (bad-IsLabel, (tld-IsLabel, tt)) refl

split-join_labels_example : split_domain_labels (join_labels (bad ∷ tld ∷ [])) ≡ bad ∷ tld ∷ []
split-join_labels_example = split-join_labels (bad ∷ tld ∷ []) (bad-IsLabel, (tld-IsLabel, tt))

-- A comment, 0.0.0.0 bad.com, and com alone on its line.
abbrev pub hosts : List Entry
hosts = Entry.comment tld ∷ Entry.null_host bad_com ∷ Entry.domain tld ∷ []

domain_byte : {c : ℕ} → (c == b'#') ≡ false → is_blank_or_end c ≡ false → IsDomainByte c
domain_byte h k = record { no_hash = h; no_blank = k }

tld-IsDomain : IsDomain tld
tld-IsDomain = (refl, (domain_byte refl refl, (domain_byte refl refl, (domain_byte refl refl, tt))))

bad_com-IsDomain : IsDomain bad_com
bad_com-IsDomain = (
  refl,
  (
    domain_byte refl refl,
    (domain_byte refl refl, (domain_byte refl refl, (domain_byte refl refl, tld-IsDomain.1))),
  ),
)

pub hosts-IsEntry : All IsEntry hosts
unfolding starts_with
hosts-IsEntry = ((refl, (refl, (refl, tt))), (bad_com-IsDomain, ((tld-IsDomain, refl, refl), tt)))

load_from_file-entries_example :
    (matches (load_from_file (some (text_of hosts)) empty).1 capital
      ≡ (any (λ d. covers d capital) (domains_of hosts) || matches empty capital))
    × ((load_from_file (some (text_of hosts)) empty).0 ≡ length (domains_of hosts) % 2 ^ 64)
load_from_file-entries_example = load_from_file-entries hosts capital empty hosts-IsEntry refl

-- Two words of bits and three hashes.
abbrev small : BloomFilter
small = record { num_bits = 128; num_hashes = 3; element_count = 0; bits = 0 ∷ 0 ∷ [] }

small-IsFilter : IsFilter small
small-IsFilter = record { sized = refl; some_bits = omega arith; some_hashes = omega arith }

-- Every bit is set.
abbrev full : BloomFilter
full = record { num_bits = 64; num_hashes = 1; element_count = 9; bits = 18446744073709551615 ∷ [] }

full-IsFilter : IsFilter full
full-IsFilter = record { sized = refl; some_bits = omega arith; some_hashes = omega arith }

full-contains : contains full tld ≡ some true
unfolding contains positions test_bits test_bit position hash_fnv1a_64 hash_murmur_mix_64 fnv1a_step
    murmur_step
full-contains = refl

no_false_negatives_example :
    (g : BloomFilter) × (add_all (bad_com ∷ tld ∷ []) small ≡ some g)
    × IsFilter g
    × All (λ key. contains g key ≡ some true) (bad_com ∷ tld ∷ [])
no_false_negatives_example = no_false_negatives (bad_com ∷ tld ∷ []) small small-IsFilter

case_blind_example :
    (contains full (map to_lower capital) ≡ contains full capital)
    × (add (map to_lower capital) full ≡ add capital full)
case_blind_example = case_blind full capital

full-IsStored : IsStored full
full-IsStored = record {
  bits_fit = omega arith;
  hashes_fit = omega arith;
  count_fits = omega arith;
  length_fits = omega arith;
  words_fit = (omega arith, tt);
}

load-save_example : load_filter (some (save full)) small ≡ (true, full)
load-save_example = load-save full small full-IsStored

-- Whole numbers in place of `double`.
abbrev pub wholes : Double ℕ
wholes = record {
  zero = 0;
  one = 1;
  thousandth = 0;
  ln2 = 1;
  lt = ltb;
  le = leb;
  neg = λ x. x;
  log = λ x. x;
  ceil = λ x. x;
  round = λ x. x;
  mul = λ x y. x * y;
  div = λ x y. x / y;
  of_size = λ x. x;
  to_size = λ x. x;
}

pub wholes-IsInRange : IsInRange wholes 100 2
unfolding wanted_bits wanted_hashes
wholes-IsInRange = record { bits_fit = omega arith; some_hashes = omega arith }
