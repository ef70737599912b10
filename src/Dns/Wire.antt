-- ===== src/Dns/Wire.antt =====
-- Names on the wire: labels behind their lengths (RFC 1035), and what the parser makes of them.
use degoonification.Common.{
  ℕ, suc, ◌+◌, ◌*◌, ◌≤◌, ◌<◌, ◌≡◌, refl, ap, sym, ◌∙◌, true, false, not, ◌==◌, ltb, leb, some, List,
  [], ◌∷◌, ◌++◌, Bytes, to_lower, dot, is_empty, length, length-append, arith, All,
}
use native.Mathlib.Nat.{add-zero}
use degoonification.Common.Bits.{bit_or-low, holds_below, holds_below-at}
use mathlib.Core.List.{append_assoc}
use degoonification.Domain.Split.{join_labels}
use degoonification.Common.Reads.{got, read, read-append}
use degoonification.Dns.Packet.{word, is_pointer, read_label, push_label, read_name}

pub word-eq : (hi lo : ℕ) → lo < 256 → word hi lo ≡ hi * 256 + lo
unfolding word
word-eq hi lo h = bit_or-low 8 hi lo h

pointer_table : holds_below (λ n. not (is_pointer n)) 192 ≡ true
unfolding holds_below is_pointer
pointer_table = refl

pub is_pointer-label : (n : ℕ) → n < 192 → is_pointer n ≡ false
is_pointer-label n h =
    ground (arith, holds_below-at (λ n. not (is_pointer n)) 192 n h pointer_table)

-- A byte of a label in a lowered name.
pub record IsNameByte (c : ℕ) : Type 0 where
  pub no_dot : (c == dot) ≡ false
  pub low : to_lower c ≡ c

pub record IsWireLabel (l : Bytes) : Type 0 where
  pub full : 0 < length l
  pub short : length l ≤ 63
  pub bytes : All IsNameByte l

unfoldable pub encode_labels : List Bytes → Bytes
encode_labels [] = []
encode_labels (l ∷ ls) = length l ∷ l ++ encode_labels ls

read_label-at :
    (d pre l rest : Bytes) (i : ℕ)
    → d ≡ pre ++ (l ++ rest)
    → i ≡ length pre
    → All IsNameByte l
    → read_label d i (length l) ≡ got l
unfolding read_label
read_label-at d pre [] rest i e h k = refl
read_label-at d pre (c ∷ l) rest i e h k =
    let here : read d i ≡ got c = rw (e, h) (read-append pre c (l ++ rest)) in
    let tail =
      read_label-at d (pre ++ c ∷ []) l rest (i + 1)
        (e ∙ sym (append_assoc pre (c ∷ []) (l ++ rest)))
        (omega (arith, length-append pre (c ∷ []))) k.1 in
    rw (here, tail, k.0.low)

-- One label is read, and the reader stands behind it.
read_name-label :
    (hops : ℕ) (pre l rest qname : Bytes)
    → IsWireLabel l
    → let d = pre ++ (length l ∷ l ++ rest) in
      let next = length pre + 1 + length l in
      read_name (suc hops) d (length pre) (length pre) false qname
      ≡ read_name hops d next next false (push_label qname l)
unfolding read_name
read_name-label hops pre l rest qname w =
    let d = pre ++ (length l ∷ l ++ rest) in
    let size : length d ≡ length pre + (suc (length l + length rest)) =
      omega (arith, length-append pre (length l ∷ l ++ rest), length-append l rest) in
    let label =
      read_label-at d (pre ++ length l ∷ []) l rest (length pre + 1)
        (sym (append_assoc pre (length l ∷ []) (l ++ rest)))
        (omega (arith, length-append pre (length l ∷ []))) w.bytes in
    let inside : leb (length d) (length pre) ≡ false = ground arith in
    let nonzero : (length l == 0) ≡ false = ground (arith, w.full) in
    let fits : ltb (length d) (length pre + 1 + length l) ≡ false = ground arith in
    rw (
      inside,
      read-append pre (length l) (l ++ rest),
      nonzero,
      is_pointer-label (length l) (omega (arith, w.short)),
      fits,
      label,
    )

-- `hops` more than one for each label.
abbrev pub plus_labels : List Bytes → ℕ → ℕ
plus_labels [] hops = hops
plus_labels (l ∷ ls) hops = suc (plus_labels ls hops)

pub plus_labels-eq : (ls : List Bytes) (hops : ℕ) → plus_labels ls hops ≡ length ls + hops
plus_labels-eq [] hops = omega arith
plus_labels-eq (l ∷ ls) hops = omega (arith, plus_labels-eq ls hops)

unfoldable pub push_all : Bytes → List Bytes → Bytes
push_all qname [] = qname
push_all qname (l ∷ ls) = push_all (push_label qname l) ls

push_all-full :
    (ls : List Bytes) (q : Bytes) (m : Bytes)
    → is_empty q ≡ false
    → push_all q (m ∷ ls) ≡ q ++ dot ∷ join_labels (m ∷ ls)
unfolding push_all join_labels
push_all-full [] q m h = rw h
push_all-full (n ∷ ls) q m h =
    ap (λ x. push_all (push_label x n) ls) (unfold push_all in push_all-one q m h)
    ∙ push_all-full ls (q ++ dot ∷ m) n (is_empty-dot q m)
    ∙ append_assoc q (dot ∷ m) (dot ∷ join_labels (n ∷ ls))
  where
    push_all-one : (q m : Bytes) → is_empty q ≡ false → push_label q m ≡ q ++ dot ∷ m
    push_all-one q m h = rw h

    is_empty-dot : (q m : Bytes) → is_empty (q ++ dot ∷ m) ≡ false
    is_empty-dot [] m = refl
    is_empty-dot (c ∷ q) m = refl

-- The parser's name is the labels with dots between them.
pub push_all-join_labels : (ls : List Bytes) → All IsWireLabel ls → push_all [] ls ≡ join_labels ls
unfolding push_all join_labels
push_all-join_labels [] h = refl
push_all-join_labels (l ∷ []) h = refl
push_all-join_labels ((c ∷ l) ∷ m ∷ ls) h = push_all-full ls (c ∷ l) m refl
push_all-join_labels ([] ∷ m ∷ ls) h = absurd (omega (arith, h.0.full))

-- All the labels are read, and the reader stands behind them.
pub read_name-labels :
    (ls : List Bytes) (hops : ℕ) (d pre rest qname : Bytes) (i : ℕ)
    → d ≡ pre ++ (encode_labels ls ++ rest)
    → i ≡ length pre
    → All IsWireLabel ls
    → let next = i + length (encode_labels ls) in
      read_name (plus_labels ls hops) d i i false qname
      ≡ read_name hops d next next false (push_all qname ls)
unfolding encode_labels push_all
read_name-labels [] hops d pre rest qname i e h k = rw add-zero
read_name-labels (l ∷ ls) hops d pre rest qname i e h k =
    let tail = encode_labels ls ++ rest in
    let e' : d ≡ pre ++ (length l ∷ l ++ tail) =
      e ∙ ap (λ x. pre ++ length l ∷ x) (append_assoc l (encode_labels ls) rest) in
    let step : read_name (suc (plus_labels ls hops)) d i i false qname
        ≡ read_name (plus_labels ls hops) d (i + 1 + length l) (i + 1 + length l) false
            (push_label qname l) =
      rw (e', h) (read_name-label (plus_labels ls hops) pre l tail qname k.0) in
    let ih =
      read_name-labels ls hops d (pre ++ length l ∷ l) rest (push_label qname l) (i + 1 + length l)
        (e' ∙ sym (append_assoc pre (length l ∷ l) tail))
        (omega (arith, length-append pre (length l ∷ l))) k.1 in
    let last : i + 1 + length l + length (encode_labels ls)
        ≡ i + suc (length (l ++ encode_labels ls)) =
      omega (arith, length-append l (encode_labels ls)) in
    step ∙ rw last at ih

pub read_name-end :
    (hops : ℕ) (d pre rest qname : Bytes) (i : ℕ)
    → d ≡ pre ++ 0 ∷ rest
    → i ≡ length pre
    → read_name (suc hops) d i i false qname ≡ got (some (qname, i + 1))
unfolding read_name
read_name-end hops d pre rest qname i e h =
    let inside : leb (length d) i ≡ false =
      rw (e, h) (ground (arith, length-append pre (0 ∷ rest))) in
    let here : read d i ≡ got 0 = rw (e, h) (read-append pre 0 rest) in rw (inside, here)
