-- ===== src/Domain.antt =====
-- `split_domain_labels` of core/engine_shared/src/radix_tree.cpp: a domain name is trimmed, cut at
-- its dots and lowercased; empty labels are dropped.
pub mod Split
use degoonification.Common.{
  ◌||◌, ◌==◌, if◌then◌else◌, Bytes, to_lower, is_space, dot, is_empty, List, [], ◌∷◌, ◌++◌, ◌&&◌,
}

-- Removes the trailing dots and whitespace.
unfoldable pub trim_back : Bytes → Bytes
trim_back [] = []
trim_back (c ∷ cs) =
    let rest = trim_back cs in if is_empty rest && (c == dot || is_space c) then [] else c ∷ rest

-- Removes the leading whitespace.
unfoldable pub trim_front : Bytes → Bytes
trim_front [] = []
trim_front (c ∷ cs) = let rest = trim_front cs in if is_space c then rest else c ∷ cs

-- `if (i > start) labels.push_back(label)`
abbrev pub flush : Bytes → List Bytes → List Bytes
flush [] rest = rest
flush (c ∷ label) rest = (c ∷ label) ∷ rest

-- The scan over the trimmed name; `label` holds the lowered bytes since the last dot.
unfoldable pub scan_labels : Bytes → Bytes → List Bytes
scan_labels label [] = flush label []
scan_labels label (c ∷ cs) =
    let cut = flush label (scan_labels [] cs) in
    let more = scan_labels (label ++ to_lower c ∷ []) cs in if c == dot then cut else more

unfoldable pub split_domain_labels : Bytes → List Bytes
unfolding trim_back trim_front scan_labels
split_domain_labels domain = scan_labels [] (trim_front (trim_back domain))
