-- ===== src/CApi.antt =====
-- The C interface of core/engine_shared/src/c_api.cpp: handles that may be null, arrays with their
-- counts, and defaults. A null pointer is `none`. An access outside of an array makes the call `none`.
pub mod Calls
pub mod Handles
use degoonification.Common.{
  ℕ, zero, suc, ◌+◌, ◌%◌, ◌^◌, Bool, false, ◌&&◌, ltb, leb, ◌==◌, if◌then◌else◌, Option, none, some,
  List, [], ◌∷◌, length, set, get_elem?, Bytes,
}
use degoonification.Float.{Float}
use degoonification.Boxes.{BoundingBox}
use degoonification.Tracker.{Tracker, new_tracker, process_frame, reset, active_count}
use degoonification.Bloom.{BloomFilter, contains, add}
use degoonification.Bloom.File.{save, load_from_file as load_filter}
use degoonification.Radix.{RadixTree, insert, matches}
use degoonification.Radix.Load.{load_from_file}

-- `n > 0` on the bit pattern of an `int32_t`.
unfoldable pub is_positive : ℕ → Bool
is_positive n = ltb 0 n && ltb n (2 ^ 31)

infixl 5 ◌>>=◌
-- `std::min(static_cast<int32_t>(size), max_out_count)`, where `max_out_count` is positive.
unfoldable pub out_count : ℕ → ℕ → ℕ
out_count size max_out_count =
    let n = size % 2 ^ 32 in
    if leb (2 ^ 31) n then n else if ltb max_out_count n then max_out_count else n

-- Rounds of the loop `i < count`.
unfoldable pub rounds_of : ℕ → ℕ
unfolding is_positive
rounds_of count = if is_positive count then count else 0

abbrev pub ◌>>=◌ : {A B : Type 0} → Option A → (A → Option B) → Option B
none >>= f = none
some a >>= f = f a

module _ {F : Type 0} where
  -- The loop that copies the input boxes, `count` of them from `i` on.
  unfoldable pub copy_in : ℕ → ℕ → List (BoundingBox F) → Option (List (BoundingBox F))
  copy_in zero i in_boxes = some []
  copy_in (suc count) i in_boxes = do
    box ← get_elem? in_boxes i
    rest ← copy_in count (i + 1) in_boxes
    some (box ∷ rest)

  -- `if (in_boxes && in_count > 0)`
  unfoldable pub inputs_of : Option (List (BoundingBox F)) → ℕ → Option (List (BoundingBox F))
  unfolding copy_in is_positive
  inputs_of none in_count = some []
  inputs_of (some in_boxes) in_count =
      if is_positive in_count then copy_in in_count 0 in_boxes else some []

  -- A write into an array.
  unfoldable pub store : ℕ → BoundingBox F → List (BoundingBox F) → Option (List (BoundingBox F))
  store i box out_boxes = if ltb i (length out_boxes) then some (set out_boxes i box) else none

  -- The loop that copies the results, `count` of them from `i` on, into `out_boxes`.
  unfoldable pub copy_out :
      ℕ → ℕ → List (BoundingBox F) → List (BoundingBox F) → Option (List (BoundingBox F))
  unfolding store
  copy_out zero i results out_boxes = some out_boxes
  copy_out (suc count) i results out_boxes = do
    box ← get_elem? results i
    written ← store i box out_boxes
    copy_out count (i + 1) results written

-- What a call leaves: its result, the tracker, and the array of the caller.
abbrev pub Processed : Type 0 → Type 0
Processed F = ℕ × Option (Tracker F) × Option (List (BoundingBox F))

module _ {F : Type 0} ⦃f : Float F⦄ where
  unfoldable pub dg_tracker_create : ℕ → F → F → Tracker F
  dg_tracker_create persistence_window_ms padding_ratio merge_iou_threshold = new_tracker (record {
    persistence_window_ms = if persistence_window_ms == 0 then 300 else persistence_window_ms;
    padding_ratio = if f.le padding_ratio f.zero then f.decimal 15 2 else padding_ratio;
    merge_iou_threshold =
        if f.le merge_iou_threshold f.zero then f.decimal 25 2 else merge_iou_threshold;
  })

  -- With the guards passed.
  unfoldable pub process_boxes :
      Tracker F → List (BoundingBox F) → ℕ → ℕ → List (BoundingBox F) → Option (Processed F)
  unfolding copy_out out_count rounds_of
  process_boxes tracker inputs timestamp_ms max_out_count out_boxes = do
    results ← (process_frame inputs timestamp_ms tracker).0
    written ← copy_out (rounds_of (out_count (length results) max_out_count)) 0 results out_boxes
    some (
      out_count (length results) max_out_count,
      some (process_frame inputs timestamp_ms tracker).1,
      some written,
    )

  unfoldable pub dg_tracker_process :
      Option (Tracker F)
      → Option (List (BoundingBox F))
      → ℕ
      → ℕ
      → Option (List (BoundingBox F))
      → ℕ
      → Option (Processed F)
  unfolding process_boxes inputs_of is_positive
  dg_tracker_process none in_boxes in_count timestamp_ms out_boxes max_out_count =
      some (0, none, out_boxes)
  dg_tracker_process (some tracker) in_boxes in_count timestamp_ms none max_out_count =
      some (0, some tracker, none)
  dg_tracker_process (some tracker) in_boxes in_count timestamp_ms (some out_boxes) max_out_count =
      if is_positive max_out_count
      then (do
        inputs ← inputs_of in_boxes in_count
        process_boxes tracker inputs timestamp_ms max_out_count out_boxes)
      else some (0, some tracker, some out_boxes)

  dg_tracker_reset : Option (Tracker F) → Option (Tracker F)
  dg_tracker_reset none = none
  dg_tracker_reset (some tracker) = some (reset tracker)

  dg_tracker_active_count : Option (Tracker F) → ℕ
  dg_tracker_active_count none = 0
  dg_tracker_active_count (some tracker) = active_count tracker

unfoldable pub dg_bloom_add : Option BloomFilter → Option Bytes → Option (Option BloomFilter)
dg_bloom_add none key = some none
dg_bloom_add (some bf) none = some (some bf)
dg_bloom_add (some bf) (some key) = add key bf >>= λ g. some (some g)

unfoldable pub dg_bloom_contains : Option BloomFilter → Option Bytes → Option Bool
dg_bloom_contains none key = some false
dg_bloom_contains (some bf) none = some false
dg_bloom_contains (some bf) (some key) = contains bf key

-- The bytes that are written, if any.
unfoldable pub dg_bloom_save : Option BloomFilter → Bool → Option Bytes
dg_bloom_save none has_path = none
dg_bloom_save (some bf) has_path = if has_path then some (save bf) else none

-- The path is null, or stands for what the file holds.
unfoldable pub dg_bloom_load :
    Option BloomFilter → Option (Option Bytes) → Bool × Option BloomFilter
dg_bloom_load none file = (false, none)
dg_bloom_load (some bf) none = (false, some bf)
dg_bloom_load (some bf) (some text) = let r = load_filter text bf in (r.0, some r.1)

unfoldable pub dg_radix_insert : Option RadixTree → Option Bytes → Option RadixTree
dg_radix_insert none domain = none
dg_radix_insert (some tree) none = some tree
dg_radix_insert (some tree) (some domain) = some (insert domain tree)

unfoldable pub dg_radix_matches : Option RadixTree → Option Bytes → Bool
dg_radix_matches none domain = false
dg_radix_matches (some tree) none = false
dg_radix_matches (some tree) (some domain) = matches tree domain

unfoldable pub dg_radix_load_file : Option RadixTree → Option (Option Bytes) → ℕ × Option RadixTree
dg_radix_load_file none file = (0, none)
dg_radix_load_file (some tree) none = (0, some tree)
dg_radix_load_file (some tree) (some text) = let r = load_from_file text tree in (r.0, some r.1)

dg_radix_size : Option RadixTree → ℕ
dg_radix_size none = 0
dg_radix_size (some tree) = tree.total_rules
