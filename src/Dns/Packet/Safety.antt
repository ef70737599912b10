-- ===== src/Dns/Packet/Safety.antt =====
-- The parser never reads past the end of a datagram, whatever bytes it holds.
use degoonification.Common.{
  ℕ, zero, suc, ◌+◌, ◌≤◌, ◌<◌, ◌≡◌, refl, Bool, true, false, ◌==◌, ltb, leb, if◌then◌else◌, bit_and,
  List, [], ◌∷◌, ◌++◌, Bytes, length, arith, ltb→ge, Bool-cases, Option-cases, inl, inr, to_lower,
}
use degoonification.Common.Reads.{Reads, fault, got, is_got, read_within}
use degoonification.Dns.Packet.{
  DnsQuestion, DnsPacket, word, is_pointer, read_label, push_label, read_name, read_word,
  parse_questions, parse,
}

read_label_within :
    (d : Bytes) (i n : ℕ) → i + n ≤ length d → (l : Bytes) × (read_label d i n ≡ got l)
unfolding read_label
read_label_within d i zero h = ([], refl)
read_label_within d i (suc n) h =
    let (c, e) = read_within d i (omega arith) in
    let (rest, e') = read_label_within d (i + 1) n (omega arith) in (to_lower c ∷ rest, rw (e, e'))

read_name_within :
    (hops : ℕ) (d : Bytes) (curr offset : ℕ) (jumped : Bool) (qname : Bytes)
    → is_got (read_name hops d curr offset jumped qname) ≡ true
unfolding read_name
read_name_within zero d curr offset jumped qname = refl
read_name_within (suc hops) d curr offset jumped qname = elim (Bool-cases (leb (length d) curr)) [
  | inl e ↦ rw e
  | inr e ↦
      let (n, en) = read_within d curr (ground arith) in
      rw (e, en)
        (elim (Bool-cases (n == 0)) [
          | inl z ↦ rw z
          | inr z ↦ rw z (elim (Bool-cases (is_pointer n)) [
            | inl p ↦ rw p (elim (Bool-cases (leb (length d) (curr + 1))) [
              | inl f ↦ rw f
              | inr f ↦
                  let (low, el) = read_within d (curr + 1) (ground arith) in
                  rw (f, el)
                    (read_name_within hops d (word (bit_and n 0x3F) low)
                      (if jumped then offset else curr + 2) true qname)
            ])
            | inr p ↦ rw p (elim (Bool-cases (ltb (length d) (curr + 1 + n))) [
              | inl f ↦ rw f
              | inr f ↦
                  let (label, el) = read_label_within d (curr + 1) n (ground arith) in
                  rw (f, el)
                    (read_name_within hops d (curr + 1 + n)
                      (if jumped then offset else curr + 1 + n) jumped (push_label qname label))
            ])
          ])
        ])
]

pub read_word_within : (d : Bytes) (i : ℕ) → i + 1 < length d → (w : ℕ) × (read_word d i ≡ got w)
unfolding read_word
read_word_within d i h =
    let (hi, eh) = read_within d i (omega arith) in
    let (lo, el) = read_within d (i + 1) h in (word hi lo, rw (eh, el))

got_cases : {A : Type 0} (r : Reads A) → is_got r ≡ true → (a : A) × (r ≡ got a)
got_cases fault h = cc
got_cases (got a) h = (a, refl)

parse_questions_within :
    (left : ℕ) (d : Bytes) (offset : ℕ) (qs : List DnsQuestion)
    → is_got (parse_questions left d offset qs) ≡ true
unfolding parse_questions
parse_questions_within zero d offset qs = refl
parse_questions_within (suc left) d offset qs =
    let (name, en) =
      got_cases (read_name 64 d offset offset false [])
        (read_name_within 64 d offset offset false []) in
    elim (Option-cases name) [
      | inl e ↦ rw (en, e)
      | inr ((qname, next), e) ↦
          rw (en, e)
            (elim (Bool-cases (ltb (length d) (next + 4))) [
              | inl f ↦ rw f
              | inr f ↦
                  let (qtype, et) =
                    read_word_within d next (omega (arith, ltb→ge (length d) (next + 4) f)) in
                  let (qclass, ec) =
                    read_word_within d (next + 2) (omega (arith, ltb→ge (length d) (next + 4) f)) in
                  rw (f, et, ec)
                    (parse_questions_within left d (next + 4)
                      (qs ++ record { qname = qname; qtype = qtype; qclass = qclass } ∷ []))
            ])
    ]

-- Whatever the bytes of a datagram are, the parser ends without a read outside of them.
pub parse_within :
    (d : Bytes) (out_packet : DnsPacket) → (r : Bool × DnsPacket) × (parse d out_packet ≡ got r)
unfolding parse
parse_within d out_packet = elim (Bool-cases (ltb (length d) 12)) [
  | inl short ↦ ((false, out_packet), rw short)
  | inr long ↦
      let (id, ei) = read_word_within d 0 (ground arith) in
      let (flags, ef) = read_word_within d 2 (ground arith) in
      let (qdcount, eq) = read_word_within d 4 (ground arith) in
      let (r, er) =
        got_cases (parse_questions qdcount d 12 []) (parse_questions_within qdcount d 12 []) in
      ((r.0, record { id = id; flags = flags; questions = r.1 }), rw (long, ei, ef, eq, er))
]
