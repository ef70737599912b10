-- ===== src/CApi/Handles.antt =====
-- Handles of the C interface: filters, trees and trackers that are created and used through it.
use degoonification.Common.{
  ℕ, ◌%◌, ◌^◌, ◌<◌, ◌≡◌, refl, ◌∙◌, Bool, true, false, ◌||◌, if◌then◌else◌, some, length, any,
  arith, Bool-cases, inl, inr, Bytes,
}
use degoonification.Float.{Float}
use degoonification.Bloom.{BloomFilter, IsWellFormed}
use degoonification.Bloom.Members.{add_lem}
use degoonification.Radix.{empty}
use degoonification.Radix.Refinement.{covers, matches-empty}
use degoonification.Radix.Load.{rules_of_text, load_from_file_lem}
use degoonification.CApi.{
  dg_tracker_create, dg_bloom_add, dg_bloom_contains, dg_radix_matches, dg_radix_load_file,
}

-- A blocklist that is loaded through the interface into a new tree matches exactly the names that a
-- rule of it covers, and the result is the number of lines that hold a rule.
pub dg_radix_load_file-matches :
    (text q : Bytes)
    → (dg_radix_matches (dg_radix_load_file (some empty) (some (some text))).1 (some q)
        ≡ any (λ d. covers d q) (rules_of_text text))
      × ((dg_radix_load_file (some empty) (some (some text))).0
          ≡ length (rules_of_text text) % 2 ^ 64)
unfolding dg_radix_load_file dg_radix_matches
dg_radix_load_file-matches text q =
    let r = load_from_file_lem text q empty refl in
    (r.0 ∙ rw (matches-empty q) (or_false (any (λ d. covers d q) (rules_of_text text))), r.1)
  where
    or_false : (b : Bool) → (b || false) ≡ b
    or_false true = refl
    or_false false = refl

-- A key that is added to a well-formed filter through the interface is found through it, in the
-- filter as it then is; the filter stays well formed.
pub dg_bloom_add-contains :
    (bf : BloomFilter) (key : Bytes)
    → IsWellFormed bf
    → (g : BloomFilter) × (dg_bloom_add (some bf) (some key) ≡ some (some g))
      × IsWellFormed g
      × (dg_bloom_contains (some g) (some key) ≡ some true)
unfolding dg_bloom_add dg_bloom_contains
dg_bloom_add-contains bf key w =
    let (g, e, a) = add_lem key bf w in (g, rw e refl, a.formed, a.present)

module _ {F : Type 0} ⦃f : Float F⦄ where
  -- A tracker that is created through the interface has a window of at least 1 ms, and a padding and
  -- a threshold that are not 0 or less, if the defaults are not.
  pub dg_tracker_create-positive :
      (window : ℕ) (padding threshold : F)
      → f.le (f.decimal 15 2) f.zero ≡ false
      → f.le (f.decimal 25 2) f.zero ≡ false
      → (0 < (dg_tracker_create window padding threshold).config.persistence_window_ms)
        × (f.le (dg_tracker_create window padding threshold).config.padding_ratio f.zero ≡ false)
        × (f.le (dg_tracker_create window padding threshold).config.merge_iou_threshold f.zero
            ≡ false)
  unfolding dg_tracker_create
  dg_tracker_create-positive window padding threshold h k =
      (ground arith, default padding (f.decimal 15 2) h, default threshold (f.decimal 25 2) k)
    where
      default :
          (x d : F) → f.le d f.zero ≡ false → f.le (if f.le x f.zero then d else x) f.zero ≡ false
      default x d e = elim (Bool-cases (f.le x f.zero)) [ inl g ↦ rw g e | inr g ↦ rw g g ]
