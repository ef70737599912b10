-- ===== src/Dns/Query.antt =====
-- Messages with one question: what the parser makes of them, and of the sinkhole's own answer.
use degoonification.Common.{
  ℕ, ◌-◌, suc, ◌+◌, ◌≤◌, ◌<◌, ◌≡◌, refl, ap, sym, ◌∙◌, true, false, ltb, ge→ltb, some, List, [],
  ◌∷◌, ◌++◌, Bytes, length, length-append, arith, All,
}
use mathlib.Core.List.{append_assoc}
use degoonification.Domain.Split.{join_labels}
use degoonification.Common.Reads.{got, read, read-append}
use degoonification.Dns.Packet.{
  DnsQuestion, DnsPacket, word, read_name, read_word, parse_questions, parse,
}
use degoonification.Dns.Response.{high_byte, low_byte}
use degoonification.Dns.Wire.{
  word-eq, IsWireLabel, encode_labels, plus_labels, plus_labels-eq, push_all, push_all-join_labels,
  read_name-labels, read_name-end,
}

pub read_word-at :
    (d pre rest : Bytes) (hi lo i : ℕ)
    → d ≡ pre ++ hi ∷ lo ∷ rest
    → i ≡ length pre
    → read_word d i ≡ got (word hi lo)
unfolding read_word
read_word-at d pre rest hi lo i e h =
    let first : read d i ≡ got hi = rw (e, h) (read-append pre hi (lo ∷ rest)) in
    let size : i + 1 ≡ length (pre ++ hi ∷ []) = omega (arith, length-append pre (hi ∷ [])) in
    let second : read d (i + 1) ≡ got lo =
      rw (e ∙ sym (append_assoc pre (hi ∷ []) (lo ∷ rest)), size)
        (read-append (pre ++ hi ∷ []) lo rest) in
    rw (first, second)

-- A name of at most 63 labels is read whole.
pub read_name-whole :
    (ls : List Bytes) (d pre rest : Bytes) (i : ℕ)
    → d ≡ pre ++ (encode_labels ls ++ 0 ∷ rest)
    → i ≡ length pre
    → All IsWireLabel ls
    → length ls ≤ 63
    → read_name 64 d i i false [] ≡ got (some (join_labels ls, i + length (encode_labels ls) + 1))
read_name-whole ls d pre rest i e h k short =
    let hops : 64 ≡ plus_labels ls (suc (63 - length ls)) =
      omega (arith, plus_labels-eq ls (suc (63 - length ls))) in
    ap (λ n. read_name n d i i false []) hops
    ∙ read_name-labels ls (suc (63 - length ls)) d pre (0 ∷ rest) [] i e h k
    ∙ read_name-end (63 - length ls) d (pre ++ encode_labels ls) rest (push_all [] ls)
        (i + length (encode_labels ls)) (e ∙ sym (append_assoc pre (encode_labels ls) (0 ∷ rest)))
        (omega (arith, length-append pre (encode_labels ls)))
    ∙ ap (λ q. got (some (q, i + length (encode_labels ls) + 1))) (push_all-join_labels ls k)

-- A message with one question; `body` stands behind the header.
abbrev pub message : (id flags ancount nscount arcount : ℕ) → Bytes → Bytes
message id flags ancount nscount arcount body =
    high_byte id
    ∷ low_byte id
    ∷ high_byte flags
    ∷ low_byte flags
    ∷ 0
    ∷ 1
    ∷ high_byte ancount
    ∷ low_byte ancount
    ∷ high_byte nscount
    ∷ low_byte nscount
    ∷ high_byte arcount
    ∷ low_byte arcount
    ∷ body

-- The question of a message, and the bytes behind it.
abbrev pub question : List Bytes → (qtype qclass : ℕ) → Bytes → Bytes
question ls qtype qclass rest =
    encode_labels ls
    ++ 0 ∷ high_byte qtype ∷ low_byte qtype ∷ high_byte qclass ∷ low_byte qclass ∷ rest

word-bytes : (x : ℕ) → x < 65536 → word (high_byte x) (low_byte x) ≡ x
word-bytes x h = omega (arith, word-eq (high_byte x) (low_byte x) (omega arith))

-- The fields of a message's header, as the parser reads them.
module _ (id flags ancount nscount arcount : ℕ) (body : Bytes) where
  pub long-message : ltb (length (message id flags ancount nscount arcount body)) 12 ≡ false
  long-message = ge→ltb (length (message id flags ancount nscount arcount body)) 12 (omega arith)

  pub id-message : id < 65536 → read_word (message id flags ancount nscount arcount body) 0 ≡ got id
  unfolding read_word read
  id-message h = ap got (word-bytes id h)

  pub flags-message :
      flags < 65536 → read_word (message id flags ancount nscount arcount body) 2 ≡ got flags
  unfolding read_word read
  flags-message h = ap got (word-bytes flags h)

  pub count-message : read_word (message id flags ancount nscount arcount body) 4 ≡ got 1
  unfolding read_word read word
  count-message = refl

pub record IsQuery (id flags : ℕ) (ls : List Bytes) (qtype qclass : ℕ) : Type 0 where
  pub id_fits : id < 65536
  pub flags_fit : flags < 65536
  pub labels : All IsWireLabel ls
  pub few : length ls ≤ 63
  pub qtype_fits : qtype < 65536
  pub qclass_fits : qclass < 65536

module _ (id flags ancount nscount arcount : ℕ) (ls : List Bytes) (qtype qclass : ℕ)
    (rest : Bytes) where
  abbrev whole : Bytes
  whole = message id flags ancount nscount arcount (question ls qtype qclass rest)

  abbrev asked : DnsQuestion
  asked = record { qname = join_labels ls; qtype = qtype; qclass = qclass }

  questions-message :
      IsQuery id flags ls qtype qclass → parse_questions 1 whole 12 [] ≡ got (true, asked ∷ [])
  unfolding parse_questions
  questions-message w =
      let pre = message id flags ancount nscount arcount [] in
      let next = 12 + length (encode_labels ls) + 1 in
      let name =
        read_name-whole ls whole pre
          (high_byte qtype ∷ low_byte qtype ∷ high_byte qclass ∷ low_byte qclass ∷ rest) 12 refl
          refl w.labels w.few in
      let size : length whole ≡ 12 + (length (encode_labels ls) + (5 + length rest)) = omega (
        arith,
        length-append (encode_labels ls)
            (0 ∷ high_byte qtype ∷ low_byte qtype ∷ high_byte qclass ∷ low_byte qclass ∷ rest),
      ) in
      let fits : ltb (length whole) (next + 4) ≡ false =
        ge→ltb (length whole) (next + 4) (omega arith) in
      let types : read_word whole next ≡ got (word (high_byte qtype) (low_byte qtype)) =
        read_word-at whole (pre ++ (encode_labels ls ++ 0 ∷ []))
          (high_byte qclass ∷ low_byte qclass ∷ rest) (high_byte qtype) (low_byte qtype) next
          (ap (λ x. pre ++ x)
            (sym (
              append_assoc (encode_labels ls) (0 ∷ [])
                (high_byte qtype ∷ low_byte qtype ∷ high_byte qclass ∷ low_byte qclass ∷ rest))))
          (omega (arith, length-append (encode_labels ls) (0 ∷ []))) in
      let classes : read_word whole (next + 2) ≡ got (word (high_byte qclass) (low_byte qclass)) =
        read_word-at whole (pre ++ (encode_labels ls ++ 0 ∷ high_byte qtype ∷ low_byte qtype ∷ []))
          rest (high_byte qclass) (low_byte qclass) (next + 2)
          (ap (λ x. pre ++ x)
            (sym (
              append_assoc (encode_labels ls) (0 ∷ high_byte qtype ∷ low_byte qtype ∷ [])
                (high_byte qclass ∷ low_byte qclass ∷ rest))))
          (omega (
            arith,
            length-append (encode_labels ls) (0 ∷ high_byte qtype ∷ low_byte qtype ∷ []),
          )) in
      rw
        (name, fits, types, classes, word-bytes qtype w.qtype_fits, word-bytes qclass w.qclass_fits)

  -- A message with one question of at most 63 labels, each of 1 to 63 lowered bytes without a dot,
  -- is parsed to that question, whatever stands behind it.
  pub parse-message :
      (out_packet : DnsPacket)
      → IsQuery id flags ls qtype qclass
      → parse whole out_packet
        ≡ got (true, record { id = id; flags = flags; questions = asked ∷ [] })
  unfolding parse
  parse-message out_packet w =
      let body = question ls qtype qclass rest in
      rw (long-message id flags ancount nscount arcount body) (
        rw (id-message id flags ancount nscount arcount body w.id_fits) (
          rw (flags-message id flags ancount nscount arcount body w.flags_fit)
            (rw (count-message id flags ancount nscount arcount body) (rw (questions-message w)))))
