-- ===== src/Radix/Load.antt =====
-- `DomainRadixTree::load_from_file`: blocklists with one domain a line, with comments, and in the
-- format of hosts files. The text of the file is an argument, `none` when it cannot be opened.
use degoonification.Common.{
  ℕ, ◌+◌, ◌%◌, ◌^◌, ◌<◌, ◌≡◌, refl, Bool, false, ◌||◌, ◌==◌, Option, none, some, Option-cases, inl,
  inr, List, [], ◌∷◌, if◌then◌else◌, Bytes, codes, arith, any, length, is_empty, lines_of,
  starts_with,
}
use degoonification.Radix.{is_terminal, RadixTree, insert, matches}
use degoonification.Radix.Refinement.{covers, insert_all, matches-insert_all}

abbrev pub hash : ℕ
hash = 35

-- " \t" and " \t\r\n"
abbrev pub is_blank : ℕ → Bool
is_blank c = c == 32 || c == 9

abbrev pub is_blank_or_end : ℕ → Bool
is_blank_or_end c = is_blank c || (c == 13 || c == 10)

-- `line.erase(line.find('#'))`
unfoldable pub strip_comment : Bytes → Bytes
strip_comment [] = []
strip_comment (c ∷ cs) = let rest = strip_comment cs in if c == hash then [] else c ∷ rest

-- The text from `find_first_not_of` on; empty for `npos`.
unfoldable pub skip : (ℕ → Bool) → Bytes → Bytes
skip p [] = []
skip p (c ∷ cs) = let rest = skip p cs in if p c then rest else c ∷ cs

-- The text from `find_first_of(" \t")` on; empty for `npos`.
unfoldable pub from_blank : Bytes → Bytes
from_blank [] = []
from_blank (c ∷ cs) = let rest = from_blank cs in if is_blank c then c ∷ cs else rest

-- After `sv = sv.substr(space_pos)`: the blanks are dropped, unless there is nothing else.
unfoldable pub after_address : Bytes → Bytes
unfolding skip
after_address s = let rest = skip is_blank s in if is_empty rest then s else rest

-- The part of a line behind an address of a hosts file, where there is one.
unfoldable pub drop_address : Bytes → Bytes
unfolding from_blank starts_with after_address
drop_address sv =
    if starts_with (codes "0.0.0.0") sv || starts_with (codes "127.0.0.1") sv
    then (let tail = from_blank sv in if is_empty tail then sv else after_address tail)
    else sv

-- What a line hands to `insert`, if it hands over anything.
unfoldable pub rule_of_line : Bytes → Option Bytes
unfolding strip_comment skip drop_address
rule_of_line line =
    let text = skip is_blank_or_end (strip_comment line) in
    if is_empty text
    then none
    else (let sv = drop_address text in if is_empty sv then none else some sv)

-- One round of the loop, over the tree and `count`.
pub load_line : Option Bytes → ℕ × RadixTree → ℕ × RadixTree
load_line none s = s
load_line (some rule) (count, t) = ((count + 1) % 2 ^ 64, insert rule t)

pub load_lines : List Bytes → ℕ × RadixTree → ℕ × RadixTree
unfolding load_line
load_lines [] s = s
load_lines (line ∷ rest) s = load_lines rest (load_line (rule_of_line line) s)

-- The result is the returned count and the tree after the call.
pub load_from_file : Option Bytes → RadixTree → ℕ × RadixTree
unfolding load_lines lines_of
load_from_file none t = (0, t)
load_from_file (some text) t = load_lines (lines_of [] text) (0, t)

abbrev pub cons_some : Option Bytes → List Bytes → List Bytes
cons_some none rest = rest
cons_some (some rule) rest = rule ∷ rest

unfoldable pub rules_of_lines : List Bytes → List Bytes
rules_of_lines [] = []
rules_of_lines (line ∷ rest) = cons_some (rule_of_line line) (rules_of_lines rest)

-- The rules that a text holds, in order.
unfoldable pub rules_of_text : Bytes → List Bytes
unfolding rules_of_lines
rules_of_text text = rules_of_lines (lines_of [] text)

load_lines-insert_all :
    (ls : List Bytes) (count : ℕ) (t : RadixTree)
    → (load_lines ls (count, t)).1 ≡ insert_all (rules_of_lines ls) t
unfolding load_lines rules_of_lines insert_all
load_lines-insert_all [] count t = refl
load_lines-insert_all (line ∷ rest) count t = elim (Option-cases (rule_of_line line)) [
  | inl e ↦ rw (e, load_lines) (load_lines-insert_all rest count t)
  | inr (rule, e) ↦
      rw (e, load_lines) (load_lines-insert_all rest ((count + 1) % 2 ^ 64) (insert rule t))
]

load_lines-count :
    (ls : List Bytes) (count : ℕ) (t : RadixTree)
    → count < 2 ^ 64
    → (load_lines ls (count, t)).0 ≡ (count + length (rules_of_lines ls)) % 2 ^ 64
unfolding load_lines rules_of_lines
load_lines-count [] count t h = omega arith
load_lines-count (line ∷ rest) count t h = elim (Option-cases (rule_of_line line)) [
  | inl e ↦ rw (e, load_lines) (load_lines-count rest count t h)
  | inr (rule, e) ↦
      rw (e, load_lines)
        (omega (arith, load_lines-count rest ((count + 1) % 2 ^ 64) (insert rule t)))
]

-- After a load into a tree whose root is no rule, exactly the names that a rule of the file covers
-- are matched besides those that were matched before, and the result is the number of lines that
-- hold a rule, modulo 2 ^ 64.
pub load_from_file_lem :
    (text q : Bytes) (t : RadixTree)
    → is_terminal t.root ≡ false
    → (matches (load_from_file (some text) t).1 q
        ≡ (any (λ d. covers d q) (rules_of_text text) || matches t q))
      × ((load_from_file (some text) t).0 ≡ length (rules_of_text text) % 2 ^ 64)
unfolding load_from_file rules_of_text
load_from_file_lem text q t h = (
  rw (load_lines-insert_all (lines_of [] text) 0 t)
      (matches-insert_all (rules_of_lines (lines_of [] text)) q t h),
  omega (arith, load_lines-count (lines_of [] text) 0 t (omega arith)),
)

load_text :
    rules_of_text (codes "# list\n0.0.0.0 bad.com\n\nworse.org # x\n127.0.0.1\t ads.net")
    ≡ codes "bad.com" ∷ codes "worse.org " ∷ codes "ads.net" ∷ []
unfolding rules_of_text rule_of_line lines_of
load_text = refl
