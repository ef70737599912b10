-- ===== src/Radix/Refinement.antt =====
-- The tree as a set of rules: a name is matched exactly when an inserted rule covers it.
use degoonification.Common.{
  ◌≡◌, refl, Bool, true, false, ◌||◌, List, [], ◌∷◌, ◌++◌, reverse, Bytes, arith, any,
}
use mathlib.Core.List.{reverse-append}
use degoonification.Domain.{split_domain_labels}
use degoonification.Radix.{
  Node, node, is_terminal, find, insert_at, matches_at, RadixTree, empty, insert_labels, insert,
  matches_labels, matches,
}
use degoonification.Radix.Nodes.{is_prefix, enter, enter-insert_at}

-- The labels of a rule, last label first, are where those of the name start.
unfoldable pub covers_labels : List Bytes → List Bytes → Bool
covers_labels [] q = false
covers_labels (l ∷ ls) q = is_prefix (reverse (l ∷ ls)) (reverse q)

-- The name is the rule's domain or a subdomain of it.
unfoldable pub covers : Bytes → Bytes → Bool
unfolding covers_labels
covers rule q = covers_labels (split_domain_labels rule) (split_domain_labels q)

pub reverse-cons :
    (l : Bytes) (ls : List Bytes) → (k : Bytes) × (ks : List Bytes) × (reverse (l ∷ ls) ≡ k ∷ ks)
reverse-cons l ls = go (reverse ls) (reverse-append (l ∷ []) ls)
  where
    go :
        (r : List Bytes)
        → reverse (l ∷ ls) ≡ r ++ l ∷ []
        → (k : Bytes) × (ks : List Bytes) × (reverse (l ∷ ls) ≡ k ∷ ks)
    go [] e = (l, [], e)
    go (k ∷ ks) e = (k, ks ++ l ∷ [], e)

pub enter-open : (q : List Bytes) (n : Node) → is_terminal n ≡ false → enter q n ≡ matches_at q n
unfolding enter
enter-open q (node true c) h = cc
enter-open q (node false c) h = refl

insert_at-open :
    (k : Bytes) (ks : List Bytes) (n : Node)
    → is_terminal n ≡ false
    → is_terminal (insert_at (k ∷ ks) n).0 ≡ false
unfolding insert_at
insert_at-open k ks (node true c) h = h
insert_at-open k ks (node false c) h = refl

-- The root never becomes terminal.
pub insert-open :
    (d : Bytes) (t : RadixTree) → is_terminal t.root ≡ false → is_terminal (insert d t).root ≡ false
unfolding insert insert_labels
insert-open d t h = go (split_domain_labels d)
  where
    go : (ls : List Bytes) → is_terminal (insert_labels ls t).root ≡ false
    go [] = h
    go (l ∷ ls) = let (k, ks, e) = reverse-cons l ls in rw e (insert_at-open k ks t.root h)

matches_labels-insert_labels :
    (ls q : List Bytes) (t : RadixTree)
    → is_terminal t.root ≡ false
    → matches_labels q (insert_labels ls t) ≡ (covers_labels ls q || matches_labels q t)
unfolding matches_labels insert_labels covers_labels
matches_labels-insert_labels [] q t h = refl
matches_labels-insert_labels (l ∷ ls) [] t h =
    let (k, ks, e) = reverse-cons l ls in rw e (unfold is_prefix in refl)
matches_labels-insert_labels (l ∷ ls) (m ∷ ms) t h =
    let (k, ks, e) = reverse-cons l ls in
    rw e (
      ground (
        arith,
        enter-insert_at (k ∷ ks) (reverse (m ∷ ms)) t.root,
        enter-open (reverse (m ∷ ms)) t.root h,
        enter-open (reverse (m ∷ ms)) (insert_at (k ∷ ks) t.root).0 (insert_at-open k ks t.root h),
      ))

-- After an insertion into a tree whose root is no rule, exactly what the new rule covers is matched
-- besides what was matched before.
pub matches-insert :
    (d q : Bytes) (t : RadixTree)
    → is_terminal t.root ≡ false
    → matches (insert d t) q ≡ (covers d q || matches t q)
unfolding matches insert covers
matches-insert d q t h =
    matches_labels-insert_labels (split_domain_labels d) (split_domain_labels q) t h

unfoldable pub insert_all : List Bytes → RadixTree → RadixTree
insert_all [] t = t
insert_all (d ∷ ds) t = insert_all ds (insert d t)

pub insert_all-open :
    (ds : List Bytes) (t : RadixTree)
    → is_terminal t.root ≡ false
    → is_terminal (insert_all ds t).root ≡ false
unfolding insert_all
insert_all-open [] t h = h
insert_all-open (d ∷ ds) t h = insert_all-open ds (insert d t) (insert-open d t h)

pub matches-insert_all :
    (ds : List Bytes) (q : Bytes) (t : RadixTree)
    → is_terminal t.root ≡ false
    → matches (insert_all ds t) q ≡ (any (λ d. covers d q) ds || matches t q)
unfolding insert_all
matches-insert_all [] q t h = refl
matches-insert_all (d ∷ ds) q t h =
    ground (arith, matches-insert_all ds q (insert d t) (insert-open d t h), matches-insert d q t h)

matches_labels-empty : (q : List Bytes) → matches_labels q empty ≡ false
unfolding matches_labels matches_at find
matches_labels-empty [] = refl
matches_labels-empty (l ∷ ls) = let (k, ks, e) = reverse-cons l ls in rw e

pub matches-empty : (q : Bytes) → matches empty q ≡ false
unfolding matches
matches-empty q = matches_labels-empty (split_domain_labels q)

-- The tree that is built from any list of rules matches a name exactly when one of the rules covers
-- it, in whatever order and however often the rules are inserted.
pub matches_iff_covered :
    (ds : List Bytes) (q : Bytes) → matches (insert_all ds empty) q ≡ any (λ d. covers d q) ds
matches_iff_covered ds q = ground (arith, matches-insert_all ds q empty refl, matches-empty q)
