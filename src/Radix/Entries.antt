-- ===== src/Radix/Entries.antt =====
-- Blocklists as they are written: what `load_from_file` reads from the lines of a list.
use degoonification.Common.{
  ℕ, ◌%◌, ◌^◌, ◌≡◌, refl, ap, ◌∙◌, false, ◌||◌, ◌==◌, Option, none, some, List, [], ◌∷◌, ◌++◌,
  Bytes, codes, arith, any, All, All-append, length, is_empty, lines_of, starts_with, append-nil,
  append_assoc,
}
use mathlib.Core.Path.{subst, sym}
use degoonification.Radix.{is_terminal, RadixTree, matches}
use degoonification.Radix.Refinement.{covers}
use degoonification.Radix.Load.{
  is_blank, is_blank_or_end, strip_comment, skip, from_blank, after_address, drop_address,
  rule_of_line, cons_some, rules_of_lines, rules_of_text, load_from_file, load_from_file_lem,
}

-- A line of a blocklist: an empty one, a comment, a domain, and a domain behind an address.
pub data Entry : Type 0 where
  blank : Entry
  comment domain null_host local_host : Bytes → Entry

abbrev pub line_of : Entry → Bytes
line_of Entry.blank = []
line_of (Entry.comment text) = b'#' ∷ text
line_of (Entry.domain name) = name
line_of (Entry.null_host name) = codes "0.0.0.0 " ++ name
line_of (Entry.local_host name) = codes "127.0.0.1 " ++ name

abbrev pub domain_of : Entry → Option Bytes
domain_of Entry.blank = none
domain_of (Entry.comment text) = none
domain_of (Entry.domain name) = some name
domain_of (Entry.null_host name) = some name
domain_of (Entry.local_host name) = some name

-- The file with these lines, and the domains in it.
abbrev pub text_of : List Entry → Bytes
text_of [] = []
text_of (e ∷ es) = line_of e ++ b'\n' ∷ text_of es

abbrev pub domains_of : List Entry → List Bytes
domains_of [] = []
domains_of (e ∷ es) = cons_some (domain_of e) (domains_of es)

-- A byte of a domain is no `#` and no blank.
pub record IsDomainByte (c : ℕ) : Type 0 where
  pub no_hash : (c == b'#') ≡ false
  pub no_blank : is_blank_or_end c ≡ false

abbrev pub IsDomain : Bytes → Type 0
IsDomain name = (is_empty name ≡ false) × All IsDomainByte name

abbrev pub IsOneLine : Bytes → Type 0
IsOneLine s = All (λ c. (c == b'\n') ≡ false) s

-- A comment is one line, and a domain alone on its line does not begin with one of the addresses.
abbrev pub IsEntry : Entry → Type 0
IsEntry Entry.blank = Unit {0}
IsEntry (Entry.comment text) = IsOneLine text
IsEntry (Entry.domain name) =
    IsDomain name
    × (starts_with (codes "0.0.0.0") name ≡ false)
    × (starts_with (codes "127.0.0.1") name ≡ false)
IsEntry (Entry.null_host name) = IsDomain name
IsEntry (Entry.local_host name) = IsDomain name

strip_comment-name : (name : Bytes) → All IsDomainByte name → strip_comment name ≡ name
unfolding strip_comment
strip_comment-name [] h = refl
strip_comment-name (c ∷ name) (h, hs) = rw h.no_hash (ap (λ s. c ∷ s) (strip_comment-name name hs))

not_blank : (c : ℕ) → is_blank_or_end c ≡ false → is_blank c ≡ false
not_blank c h = ground (arith, h)

skip-name : (name : Bytes) → IsDomain name → skip is_blank name ≡ name
unfolding skip
skip-name [] h = refl
skip-name (c ∷ name) h = rw (not_blank c h.1.0.no_blank) refl

skip_ends-name : (name : Bytes) → IsDomain name → skip is_blank_or_end name ≡ name
unfolding skip
skip_ends-name [] h = refl
skip_ends-name (c ∷ name) h = rw h.1.0.no_blank refl

after_address-name : (name : Bytes) → IsDomain name → after_address (b' ' ∷ name) ≡ name
unfolding after_address skip
after_address-name name h = rw (skip-name name h) (rw h.0 refl)

rule_of_line-line_of : (e : Entry) → IsEntry e → rule_of_line (line_of e) ≡ domain_of e
unfolding rule_of_line strip_comment skip drop_address from_blank starts_with
rule_of_line-line_of Entry.blank h = refl
rule_of_line-line_of (Entry.comment text) h = refl
rule_of_line-line_of (Entry.domain name) (h, null, local') =
    rw (strip_comment-name name h.1)
      (rw (skip_ends-name name h) (rw h.0 (rw (null, local') (rw h.0 refl))))
rule_of_line-line_of (Entry.null_host name) h =
    rw (strip_comment-name name h.1) (rw (after_address-name name h) (rw h.0 refl))
rule_of_line-line_of (Entry.local_host name) h =
    rw (strip_comment-name name h.1) (rw (after_address-name name h) (rw h.0 refl))

lines_of-line :
    (before s rest : Bytes)
    → IsOneLine s
    → lines_of before (s ++ b'\n' ∷ rest) ≡ (before ++ s) ∷ lines_of [] rest
unfolding lines_of
lines_of-line before [] rest h = ap (λ l. l ∷ lines_of [] rest) (sym (append-nil before))
lines_of-line before (c ∷ s) rest (h, hs) = rw h (
    lines_of-line (before ++ c ∷ []) s rest hs
    ∙ ap (λ l. l ∷ lines_of [] rest) (append_assoc before (c ∷ []) s))

name-IsOneLine : (name : Bytes) → All IsDomainByte name → IsOneLine name
name-IsOneLine [] h = tt
name-IsOneLine (c ∷ name) (h, hs) = (one c h.no_blank, name-IsOneLine name hs)
  where
    one : (c : ℕ) → is_blank_or_end c ≡ false → (c == b'\n') ≡ false
    one c h = ground (arith, h)

line_of-IsOneLine : (e : Entry) → IsEntry e → IsOneLine (line_of e)
line_of-IsOneLine Entry.blank h = tt
line_of-IsOneLine (Entry.comment text) h = (refl, h)
line_of-IsOneLine (Entry.domain name) h = name-IsOneLine name h.0.1
line_of-IsOneLine (Entry.null_host name) h =
    All-append _ (codes "0.0.0.0 ") name
      (refl, (refl, (refl, (refl, (refl, (refl, (refl, (refl, tt)))))))) (name-IsOneLine name h.1)
line_of-IsOneLine (Entry.local_host name) h =
    All-append _ (codes "127.0.0.1 ") name
      (refl, (refl, (refl, (refl, (refl, (refl, (refl, (refl, (refl, (refl, tt))))))))))
      (name-IsOneLine name h.1)

-- The loader finds the domains of the lines.
pub rules_of_text-text_of :
    (es : List Entry) → All IsEntry es → rules_of_text (text_of es) ≡ domains_of es
unfolding rules_of_text rules_of_lines
rules_of_text-text_of [] h = unfold lines_of in refl
rules_of_text-text_of (e ∷ es) (h, hs) =
    ap rules_of_lines (lines_of-line [] (line_of e) (text_of es) (line_of-IsOneLine e h))
    ∙ ap (λ o. cons_some o (rules_of_lines (lines_of [] (text_of es)))) (rule_of_line-line_of e h)
    ∙ ap (cons_some (domain_of e)) (rules_of_text-text_of es hs)

-- After a load of a file that is written from empty lines, comments, domains, and domains behind
-- the addresses 0.0.0.0 and 127.0.0.1, exactly the names that one of the domains covers are matched
-- besides those that were matched before, and the result is the number of the domains, modulo 2 ^
-- 64. No domain has a `#` or a blank, one that stands alone does not begin with one of the
-- addresses, a comment is one line, and the tree's root is no rule.
pub load_from_file-entries :
    (es : List Entry) (q : Bytes) (t : RadixTree)
    → All IsEntry es
    → is_terminal t.root ≡ false
    → (matches (load_from_file (some (text_of es)) t).1 q
        ≡ (any (λ d. covers d q) (domains_of es) || matches t q))
      × ((load_from_file (some (text_of es)) t).0 ≡ length (domains_of es) % 2 ^ 64)
load_from_file-entries es q t w h =
    subst
      (λ rules.
        (matches (load_from_file (some (text_of es)) t).1 q
          ≡ (any (λ d. covers d q) rules || matches t q))
        × ((load_from_file (some (text_of es)) t).0 ≡ length rules % 2 ^ 64))
      (rules_of_text-text_of es w) (load_from_file_lem (text_of es) q t h)
