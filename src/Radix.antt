-- ===== src/Radix.antt =====
-- `DomainRadixTree` of core/engine_shared/src/radix_tree.cpp and radix_tree.hpp. The labels of a rule
-- lead from the root to a terminal node, the last label first.
pub mod Nodes
pub mod Refinement
pub mod Size
pub mod Names
pub mod Load
pub mod Entries
use degoonification.Common.{
  ℕ, ◌+◌, ◌%◌, ◌^◌, Bool, true, false, Option, none, some, List, [], ◌∷◌, if◌then◌else◌, Bytes,
  bytes_eq, reverse,
}
use degoonification.Domain.{split_domain_labels}

-- `struct Node`; the unordered map of children is an association list with at most one entry a key.
mutual
  pub data Node : Type 0 where
    node : Bool → Children → Node

  pub data Children : Type 0 where
    no_children : Children
    child : Bytes → Node → Children → Children

abbrev pub is_terminal : Node → Bool
is_terminal (node t c) = t

abbrev pub children : Node → Children
children (node t c) = c

-- `std::make_unique<Node>()`
abbrev pub new_node : Node
new_node = node false no_children

-- `children.find(label)`
pub find : Bytes → Children → Option Node
find k no_children = none
find k (child j n rest) = if bytes_eq j k then some n else find k rest

-- `children[label] = n`
pub put : Bytes → Node → Children → Children
put k n no_children = child k n no_children
put k n (child j m rest) = if bytes_eq j k then child j n rest else child j m (put k n rest)

abbrev pub or_new : Option Node → Node
or_new none = new_node
or_new (some n) = n

-- The walk of `insert` from `current` along the labels that are left, and its end: the node after
-- the call, and whether a rule was added.
pub insert_at : List Bytes → Node → Node × Bool
insert_at [] (node true c) = (node true c, false)
insert_at [] (node false c) = (node true no_children, true)
insert_at (l ∷ ls) (node true c) = (node true c, false)
insert_at (l ∷ ls) (node false c) =
    let (n, added) = insert_at ls (or_new (find l c)) in (node false (put l n c), added)

-- The walk of `matches` from `current` along the labels that are left.
pub matches_at : List Bytes → Node → Bool
matches_at [] n = is_terminal n
matches_at (l ∷ ls) n = elim (find l (children n)) [
  | none ↦ false
  | some m ↦ elim (is_terminal m) [ true ↦ true | false ↦ matches_at ls m ]
]

pub record RadixTree : Type 0 where
  pub root : Node
  pub total_rules : ℕ

-- The constructor.
abbrev pub empty : RadixTree
empty = record { root = new_node; total_rules = 0 }

-- `++total_rules_` on a `size_t`.
abbrev pub add_rule : Bool → ℕ → ℕ
add_rule added n = if added then (n + 1) % 2 ^ 64 else n

pub insert_labels : List Bytes → RadixTree → RadixTree
insert_labels [] t = t
insert_labels (l ∷ ls) t =
    let (root, added) = insert_at (reverse (l ∷ ls)) t.root in
    record { root = root; total_rules = add_rule added t.total_rules }

pub insert : Bytes → RadixTree → RadixTree
unfolding insert_labels insert_at
insert domain t = insert_labels (split_domain_labels domain) t

pub matches_labels : List Bytes → RadixTree → Bool
matches_labels [] t = false
matches_labels (l ∷ ls) t = matches_at (reverse (l ∷ ls)) t.root

pub matches : RadixTree → Bytes → Bool
unfolding matches_labels matches_at
matches t domain = matches_labels (split_domain_labels domain) t

clear : RadixTree → RadixTree
clear t = empty
