-- ===== src/Radix/Nodes.antt =====
-- Lookup in the children of a node, and matching after an insertion below a node.
use degoonification.Common.{
  ◌≡◌, refl, Bool, true, false, ◌&&◌, ◌||◌, none, some, List, [], ◌∷◌, if◌then◌else◌, Bytes,
  bytes_eq, bytes_eq_iff, arith,
}
use degoonification.Radix.{
  Node, node, Children, no_children, child, children, new_node, find, put, or_new, insert_at,
  matches_at,
}

pub find-put :
    (k j : Bytes) (n : Node) (c : Children)
    → find j (put k n c) ≡ (if bytes_eq k j then some n else find j c)
unfolding find put
find-put k j n no_children = refl
find-put k j n (child i m rest) =
    ground (arith, bytes_eq_iff i k, bytes_eq_iff i j, bytes_eq_iff k j, find-put k j n rest)

-- Whether one label list is where another one starts.
unfoldable pub is_prefix : List Bytes → List Bytes → Bool
is_prefix [] q = true
is_prefix (l ∷ ls) [] = false
is_prefix (l ∷ ls) (k ∷ ks) = bytes_eq l k && is_prefix ls ks

-- What `matches` answers when it has stepped to a node.
unfoldable pub enter : List Bytes → Node → Bool
enter q (node true c) = true
enter q (node false c) = matches_at q (node false c)

pub enter-or_new_none : (q : List Bytes) → enter q new_node ≡ false
unfolding enter matches_at find
enter-or_new_none [] = refl
enter-or_new_none (k ∷ ks) = refl

pub matches_at-cons :
    (k : Bytes) (ks : List Bytes) (n : Node)
    → matches_at (k ∷ ks) n ≡ elim (find k (children n)) [ none ↦ false | some m ↦ enter ks m ]
unfolding matches_at enter
matches_at-cons k ks n = ground arith

pub enter-insert_at :
    (ls q : List Bytes) (n : Node) → enter q (insert_at ls n).0 ≡ (is_prefix ls q || enter q n)
unfolding enter insert_at is_prefix
enter-insert_at [] q (node true c) = refl
enter-insert_at [] q (node false c) = refl
enter-insert_at (l ∷ ls) q (node true c) = ground arith
enter-insert_at (l ∷ ls) [] (node false c) = unfold matches_at in refl
enter-insert_at (l ∷ ls) (k ∷ ks) (node false c) = ground (
  arith,
  matches_at-cons k ks (node false (put l (insert_at ls (or_new (find l c))).0 c)),
  matches_at-cons k ks (node false c),
  find-put l k (insert_at ls (or_new (find l c))).0 c,
  bytes_eq_iff l k,
  enter-insert_at ls ks (or_new (find l c)),
  enter-or_new_none ks,
)
