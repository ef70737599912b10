-- ===== src/Radix/Size.antt =====
-- What `size()` counts, and the shape that insertions keep: below a terminal node there is nothing.
use degoonification.Common.{
  ℕ, ◌+◌, ◌≤◌, ◌<◌, ◌^◌, ◌≡◌, refl, ap, Bool, true, false, not, ◌&&◌, List, [], ◌∷◌, reverse,
  if◌then◌else◌, Bytes, arith, is_empty,
}
use degoonification.Domain.{split_domain_labels}
use degoonification.Radix.{
  Node, node, Children, no_children, child, is_terminal, find, put, or_new, insert_at, matches_at,
  RadixTree, empty, add_rule, insert_labels, insert, matches_labels, matches,
}
use degoonification.Radix.Nodes.{enter, enter-or_new_none, matches_at-cons}
use degoonification.Radix.Refinement.{enter-open, insert-open}

insert_at-added : (ls : List Bytes) (n : Node) → (insert_at ls n).1 ≡ not (enter ls n)
unfolding insert_at enter
insert_at-added [] (node true c) = refl
insert_at-added [] (node false c) = unfold matches_at in refl
insert_at-added (l ∷ ls) (node true c) = refl
insert_at-added (l ∷ ls) (node false c) = ground (
  arith,
  insert_at-added ls (or_new (find l c)),
  matches_at-cons l ls (node false c),
  enter-or_new_none ls,
)

insert_labels-total :
    (ls : List Bytes) (t : RadixTree)
    → is_terminal t.root ≡ false
    → (insert_labels ls t).total_rules
      ≡ add_rule (not (is_empty ls) && not (matches_labels ls t)) t.total_rules
unfolding insert_labels matches_labels
insert_labels-total [] t h = refl
insert_labels-total (l ∷ ls) t h =
    ap (λ b. add_rule b t.total_rules)
      (ground
        (arith, insert_at-added (reverse (l ∷ ls)) t.root, enter-open (reverse (l ∷ ls)) t.root h))

-- In a tree whose root is no rule, `size()` grows by one exactly when the name has labels and was
-- not matched before.
pub size-insert :
    (d : Bytes) (t : RadixTree)
    → is_terminal t.root ≡ false
    → (insert d t).total_rules
      ≡ add_rule (not (is_empty (split_domain_labels d)) && not (matches t d)) t.total_rules
unfolding insert matches
size-insert d t h = insert_labels-total (split_domain_labels d) t h

-- The rules that a node holds: its terminal nodes.
mutual
  pub rules : Node → ℕ
  rules (node t c) = (if t then 1 else 0) + rules_in c

  pub rules_in : Children → ℕ
  rules_in no_children = 0
  rules_in (child k n rest) = rules n + rules_in rest

-- Below a terminal node there is nothing.
mutual
  pub is_pruned : Node → Bool
  is_pruned (node true no_children) = true
  is_pruned (node true (child k n rest)) = false
  is_pruned (node false c) = are_pruned c

  pub are_pruned : Children → Bool
  are_pruned no_children = true
  are_pruned (child k n rest) = is_pruned n && are_pruned rest

rules_in-put :
    (k : Bytes) (n : Node) (c : Children)
    → rules_in (put k n c) + rules (or_new (find k c)) ≡ rules_in c + rules n
unfolding rules find put
rules_in-put k n no_children = omega arith
rules_in-put k n (child j m rest) = ground (arith, rules_in-put k n rest)

rules-insert_at :
    (ls : List Bytes) (n : Node)
    → rules (insert_at ls n).0 ≤ rules n + (if (insert_at ls n).1 then 1 else 0)
unfolding rules insert_at
rules-insert_at [] (node true c) = omega arith
rules-insert_at [] (node false c) = omega arith
rules-insert_at (l ∷ ls) (node true c) = omega arith
rules-insert_at (l ∷ ls) (node false c) = omega (
  arith,
  rules-insert_at ls (or_new (find l c)),
  rules_in-put l (insert_at ls (or_new (find l c))).0 c,
)

find-pruned :
    (k : Bytes) (c : Children) → are_pruned c ≡ true → is_pruned (or_new (find k c)) ≡ true
unfolding is_pruned find
find-pruned k no_children h = refl
find-pruned k (child j m rest) h = ground (arith, find-pruned k rest)

put-pruned :
    (k : Bytes) (n : Node) (c : Children)
    → is_pruned n ≡ true
    → are_pruned c ≡ true
    → are_pruned (put k n c) ≡ true
unfolding is_pruned put
put-pruned k n no_children p h = ground arith
put-pruned k n (child j m rest) p h = ground (arith, put-pruned k n rest p)

insert_at-pruned :
    (ls : List Bytes) (n : Node) → is_pruned n ≡ true → is_pruned (insert_at ls n).0 ≡ true
unfolding insert_at is_pruned
insert_at-pruned [] (node true c) h = h
insert_at-pruned [] (node false c) h = refl
insert_at-pruned (l ∷ ls) (node true c) h = h
insert_at-pruned (l ∷ ls) (node false c) h =
    put-pruned l (insert_at ls (or_new (find l c))).0 c
      (insert_at-pruned ls (or_new (find l c)) (find-pruned l c h)) h

-- The invariant of a tree.
pub record IsWellFormed (t : RadixTree) : Type 0 where
  pub root_open : is_terminal t.root ≡ false
  pub pruned : is_pruned t.root ≡ true
  pub counted : rules t.root ≤ t.total_rules

pub empty-IsWellFormed : IsWellFormed empty
unfolding is_pruned rules
empty-IsWellFormed = record { root_open = refl; pruned = refl; counted = omega arith }

insert_labels-IsWellFormed :
    (ls : List Bytes) (t : RadixTree)
    → t.total_rules + 1 < 2 ^ 64
    → IsWellFormed t
    → (is_pruned (insert_labels ls t).root ≡ true)
      × (rules (insert_labels ls t).root ≤ (insert_labels ls t).total_rules)
unfolding insert_labels
insert_labels-IsWellFormed [] t h w = (w.pruned, w.counted)
insert_labels-IsWellFormed (l ∷ ls) t h w = (
  insert_at-pruned (reverse (l ∷ ls)) t.root w.pruned,
  ground (arith, rules-insert_at (reverse (l ∷ ls)) t.root, w.counted),
)

-- Insertion keeps the invariant that the root is no rule, that no rule has anything below it, and
-- that there are no more rules than were counted, while the counter has room.
pub insert-IsWellFormed :
    (d : Bytes) (t : RadixTree)
    → t.total_rules + 1 < 2 ^ 64
    → IsWellFormed t
    → IsWellFormed (insert d t)
unfolding insert
insert-IsWellFormed d t h w =
    let (p, c) = insert_labels-IsWellFormed (split_domain_labels d) t h w in
    record { root_open = insert-open d t w.root_open; pruned = p; counted = c }
