-- ===== src/Domain/Split.antt =====
-- Laws of `split_domain_labels`: the case of letters and a trailing dot do not matter, and a name
-- that is made of labels is cut into them.
use degoonification.Common.{
  ◌≡◌, refl, ap, ◌∙◌, false, ◌&&◌, ◌||◌, ◌==◌, ℕ, List, [], ◌∷◌, ◌++◌, map, arith, Bytes, to_lower,
  to_lower_idem, is_space, dot, is_empty, All, Bool-cases, inl, inr, sym,
}
use mathlib.Core.List.{append-nil, append_assoc}
use degoonification.Domain.{trim_back, trim_front, flush, scan_labels, split_domain_labels}

to_lower_class : (c : ℕ) → ((to_lower c == dot) ≡ (c == dot)) × (is_space (to_lower c) ≡ is_space c)
to_lower_class c = ground arith

is_empty-map : (s : Bytes) → is_empty (map to_lower s) ≡ is_empty s
is_empty-map [] = refl
is_empty-map (c ∷ s) = refl

trim_back-lower : (s : Bytes) → trim_back (map to_lower s) ≡ map to_lower (trim_back s)
unfolding trim_back
trim_back-lower [] = refl
trim_back-lower (c ∷ s) = rw (trim_back-lower s) (
    rw (is_empty-map (trim_back s), (to_lower_class c).0, (to_lower_class c).1)
      (elim (Bool-cases (is_empty (trim_back s) && (c == dot || is_space c))) [
        | inl e ↦ rw e
        | inr e ↦ rw e
      ]))

trim_front-lower : (s : Bytes) → trim_front (map to_lower s) ≡ map to_lower (trim_front s)
unfolding trim_front
trim_front-lower [] = refl
trim_front-lower (c ∷ s) = elim (Bool-cases (is_space c)) [
  | inl e ↦ rw ((to_lower_class c).1, e) (trim_front-lower s)
  | inr e ↦ rw ((to_lower_class c).1, e)
]

scan_labels-lower : (label s : Bytes) → scan_labels label (map to_lower s) ≡ scan_labels label s
unfolding scan_labels
scan_labels-lower label [] = refl
scan_labels-lower label (c ∷ s) = rw (
  (to_lower_class c).0,
  to_lower_idem c,
  scan_labels-lower [] s,
  scan_labels-lower (label ++ to_lower c ∷ []) s,
)

-- Two names that differ only in the case of letters have the same labels.
pub split-lower : (s : Bytes) → split_domain_labels (map to_lower s) ≡ split_domain_labels s
unfolding split_domain_labels
split-lower s =
    rw (trim_back-lower s, trim_front-lower (trim_back s))
      (scan_labels-lower [] (trim_front (trim_back s)))

is_empty-append : (x y : Bytes) → is_empty y ≡ false → is_empty (x ++ y) ≡ false
is_empty-append [] y e = e
is_empty-append (d ∷ x) y e = refl

trim_back-append :
    (a s : Bytes) → is_empty (trim_back s) ≡ false → trim_back (a ++ s) ≡ a ++ trim_back s
unfolding trim_back
trim_back-append [] s h = refl
trim_back-append (c ∷ a) s h =
    rw (trim_back-append a s h) (ground (arith, is_empty-append a (trim_back s)))

trim_back-dot : (s : Bytes) → trim_back (s ++ dot ∷ []) ≡ trim_back s
unfolding trim_back
trim_back-dot [] = refl
trim_back-dot (c ∷ s) = rw (trim_back-dot s)

-- A trailing dot changes nothing.
pub split-dot : (s : Bytes) → split_domain_labels (s ++ dot ∷ []) ≡ split_domain_labels s
unfolding split_domain_labels
split-dot s = rw (trim_back-dot s)

-- A byte that a label may hold: not a dot, not whitespace, not a capital.
pub record IsLabelByte (c : ℕ) : Type 0 where
  pub no_dot : (c == dot) ≡ false
  pub no_space : is_space c ≡ false
  pub low : to_lower c ≡ c

abbrev pub IsLabel : Bytes → Type 0
IsLabel l = (is_empty l ≡ false) × All IsLabelByte l

-- Labels with dots between them.
unfoldable pub join_labels : List Bytes → Bytes
join_labels [] = []
join_labels (l ∷ []) = l
join_labels (l ∷ m ∷ ls) = l ++ dot ∷ join_labels (m ∷ ls)

trim_back-label : (l : Bytes) → All IsLabelByte l → trim_back l ≡ l
unfolding trim_back
trim_back-label [] h = refl
trim_back-label (c ∷ l) (h, hs) = rw (trim_back-label l hs) (ground (arith, h.no_dot, h.no_space))

trim_back-dotted :
    (s : Bytes) → trim_back s ≡ s → is_empty s ≡ false → trim_back (dot ∷ s) ≡ dot ∷ s
unfolding trim_back
trim_back-dotted s kept full = rw kept (rw full)

join_labels-trim_back :
    (l : Bytes) (ls : List Bytes)
    → All IsLabel (l ∷ ls)
    → (trim_back (join_labels (l ∷ ls)) ≡ join_labels (l ∷ ls))
      × (is_empty (join_labels (l ∷ ls)) ≡ false)
unfolding join_labels
join_labels-trim_back l [] h = (trim_back-label l h.0.1, h.0.0)
join_labels-trim_back l (m ∷ ls) h =
    let (kept, full) = join_labels-trim_back m ls h.1 in
    let tail = join_labels (m ∷ ls) in
    let dotted = trim_back-dotted tail kept full in
    (
      rw (trim_back-append l (dot ∷ tail) (rw dotted)) (rw dotted),
      is_empty-append l (dot ∷ tail) refl,
    )

scan_labels-label :
    (label l s : Bytes)
    → All IsLabelByte l
    → scan_labels label (l ++ s) ≡ scan_labels (label ++ l) s
unfolding scan_labels
scan_labels-label label [] s h = rw append-nil
scan_labels-label label (c ∷ l) s h =
    rw (h.0.no_dot, h.0.low)
      (scan_labels-label (label ++ c ∷ []) l s h.1
        ∙ ap (λ x. scan_labels x s) (append_assoc label (c ∷ []) l))

flush-full : (l : Bytes) (r : List Bytes) → is_empty l ≡ false → flush l r ≡ l ∷ r
flush-full [] r h = cc
flush-full (c ∷ l) r h = refl

scan_labels-dot : (label s : Bytes) → scan_labels label (dot ∷ s) ≡ flush label (scan_labels [] s)
unfolding scan_labels
scan_labels-dot label s = refl

scan_labels-join_labels :
    (l : Bytes) (ls : List Bytes)
    → All IsLabel (l ∷ ls)
    → scan_labels [] (join_labels (l ∷ ls)) ≡ l ∷ ls
unfolding join_labels
scan_labels-join_labels l [] h =
    ap (scan_labels []) (sym (append-nil l))
    ∙ scan_labels-label [] l [] h.0.1
    ∙ unfold scan_labels in flush-full l [] h.0.0
scan_labels-join_labels l (m ∷ ls) h =
    scan_labels-label [] l (dot ∷ join_labels (m ∷ ls)) h.0.1
    ∙ rw (scan_labels-dot, flush-full l _ h.0.0, scan_labels-join_labels m ls h.1)

trim_front-label : (l s : Bytes) → IsLabel l → trim_front (l ++ s) ≡ l ++ s
unfolding trim_front
trim_front-label [] s h = cc h.0
trim_front-label (c ∷ l) s h = rw h.1.0.no_space

join_labels-trim_front :
    (l : Bytes) (ls : List Bytes)
    → IsLabel l
    → trim_front (join_labels (l ∷ ls)) ≡ join_labels (l ∷ ls)
unfolding join_labels
join_labels-trim_front l [] h =
    ap trim_front (sym (append-nil l)) ∙ trim_front-label l [] h ∙ append-nil l
join_labels-trim_front l (m ∷ ls) h = trim_front-label l (dot ∷ join_labels (m ∷ ls)) h

-- A name that is written from labels, each not empty and of lowered bytes without a dot or
-- whitespace, is cut into those labels.
pub split-join_labels :
    (ls : List Bytes) → All IsLabel ls → split_domain_labels (join_labels ls) ≡ ls
unfolding split_domain_labels
split-join_labels [] h = unfold join_labels trim_back trim_front scan_labels in refl
split-join_labels (l ∷ ls) h =
    rw ((join_labels-trim_back l ls h).0, join_labels-trim_front l ls h.0)
      (scan_labels-join_labels l ls h)
