-- ===== src/Radix/Names.antt =====
-- Names as a user writes them: letter case, a trailing dot, subdomains.
use degoonification.Common.{
  ◌≡◌, refl, ap, sym, ◌∙◌, true, false, List, [], ◌∷◌, ◌++◌, map, reverse, Bytes, to_lower, dot,
  bytes_eq_refl, arith, All, All-append,
}
use mathlib.Core.List.{reverse-append}
use degoonification.Domain.Split.{split-lower, split-dot, IsLabel, join_labels, split-join_labels}
use degoonification.Radix.{is_terminal, RadixTree, insert, matches, matches_labels}
use degoonification.Radix.Nodes.{is_prefix}
use degoonification.Radix.Refinement.{covers, covers_labels, matches-insert}

-- Names are matched alike in capital and in small letters.
pub matches-lower : (t : RadixTree) (q : Bytes) → matches t (map to_lower q) ≡ matches t q
unfolding matches
matches-lower t q = ap (λ ls. matches_labels ls t) (split-lower q)

-- A dot behind a name makes no difference.
pub matches-dot : (t : RadixTree) (q : Bytes) → matches t (q ++ dot ∷ []) ≡ matches t q
unfolding matches
matches-dot t q = ap (λ ls. matches_labels ls t) (split-dot q)

is_prefix-append : (ls ms : List Bytes) → is_prefix ls (ls ++ ms) ≡ true
unfolding is_prefix
is_prefix-append [] ms = refl
is_prefix-append (l ∷ ls) ms = rw (bytes_eq_refl l) (is_prefix-append ls ms)

covers_labels-suffix :
    (l : Bytes) (ls ps : List Bytes) → covers_labels (l ∷ ls) (ps ++ l ∷ ls) ≡ true
unfolding covers_labels
covers_labels-suffix l ls ps =
    rw (reverse-append ps (l ∷ ls)) (is_prefix-append (reverse (l ∷ ls)) (reverse ps))

-- A domain covers itself and every name below it.
pub covers_subdomains :
    (ps : List Bytes) (l : Bytes) (ls : List Bytes)
    → All IsLabel ps
    → All IsLabel (l ∷ ls)
    → covers (join_labels (l ∷ ls)) (join_labels (ps ++ l ∷ ls)) ≡ true
unfolding covers
covers_subdomains ps l ls hp hl =
    rw
      (
        split-join_labels (l ∷ ls) hl,
        split-join_labels (ps ++ l ∷ ls) (All-append IsLabel ps (l ∷ ls) hp hl),
      )
      (covers_labels-suffix l ls ps)

-- Once a domain that is written from lowered labels without whitespace is inserted into a tree
-- whose root is no rule, it and every name of further such labels in front of it are matched, in
-- capital and in small letters.
pub insert_blocks_subdomains :
    (t : RadixTree) (ps : List Bytes) (l : Bytes) (ls : List Bytes) (q : Bytes)
    → is_terminal t.root ≡ false
    → All IsLabel ps
    → All IsLabel (l ∷ ls)
    → map to_lower q ≡ join_labels (ps ++ l ∷ ls)
    → matches (insert (join_labels (l ∷ ls)) t) q ≡ true
insert_blocks_subdomains t ps l ls q h hp hl e =
    let after = insert (join_labels (l ∷ ls)) t in
    let below : matches after (join_labels (ps ++ l ∷ ls)) ≡ true = ground (
      arith,
      matches-insert (join_labels (l ∷ ls)) (join_labels (ps ++ l ∷ ls)) t h,
      covers_subdomains ps l ls hp hl,
    ) in
    sym (matches-lower after q) ∙ ap (matches after) e ∙ below
