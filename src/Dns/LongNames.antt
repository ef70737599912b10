-- ===== src/Dns/LongNames.antt =====
-- Names of 64 labels and more: the parser stops after 64 labels, takes the bytes behind them for the
-- type and class, and reports success.
use degoonification.Common.{
  ℕ, ◌+◌, ◌≤◌, ◌<◌, ◌≡◌, refl, ap, ◌∙◌, true, false, ge→ltb, some, List, [], ◌∷◌, ◌++◌, Bytes,
  length, length-append, arith, All,
}
use degoonification.Domain.Split.{join_labels}
use degoonification.Common.Reads.{got}
use degoonification.Dns.Packet.{DnsPacket, parse, parse_questions, read_name}
use degoonification.Dns.Packet.Safety.{read_word_within}
use degoonification.Dns.Wire.{
  IsWireLabel, encode_labels, plus_labels, plus_labels-eq, push_all-join_labels, read_name-labels,
}
use degoonification.Dns.Query.{message, long-message, id-message, flags-message, count-message}

-- After 64 labels the reader stops, whatever follows.
pub read_name-cut :
    (ls : List Bytes) (d pre rest : Bytes) (i : ℕ)
    → d ≡ pre ++ (encode_labels ls ++ rest)
    → i ≡ length pre
    → All IsWireLabel ls
    → length ls ≡ 64
    → read_name 64 d i i false [] ≡ got (some (join_labels ls, i + length (encode_labels ls)))
read_name-cut ls d pre rest i e h k long =
    let hops : 64 ≡ plus_labels ls 0 = omega (arith, plus_labels-eq ls 0) in
    let next = i + length (encode_labels ls) in
    ap (λ n. read_name n d i i false []) hops
    ∙ read_name-labels ls 0 d pre rest [] i e h k
    ∙ (unfold read_name in ap (λ q. got (some (q, next))) (push_all-join_labels ls k))

module _ (id flags ancount nscount arcount : ℕ) (ls : List Bytes) (rest : Bytes) where
  abbrev long_query : Bytes
  long_query = message id flags ancount nscount arcount (encode_labels ls ++ rest)

  cut_questions :
      All IsWireLabel ls
      → length ls ≡ 64
      → 4 ≤ length rest
      → (qtype : ℕ) × (qclass : ℕ) × (parse_questions 1 long_query 12 []
          ≡ got (true, record { qname = join_labels ls; qtype = qtype; qclass = qclass } ∷ []))
  unfolding parse_questions
  cut_questions h long room =
      let next = 12 + length (encode_labels ls) in
      let name =
        read_name-cut ls long_query (message id flags ancount nscount arcount []) rest 12 refl refl
          h long in
      let size : length long_query ≡ next + length rest =
        omega (arith, length-append (encode_labels ls) rest) in
      let fits = ge→ltb (length long_query) (next + 4) (omega arith) in
      let (qtype, et) = read_word_within long_query next (omega arith) in
      let (qclass, ec) = read_word_within long_query (next + 2) (omega arith) in
      (qtype, qclass, rw (name, fits, et, ec))

  -- A query with QDCOUNT 1 whose name begins with 64 labels, each of 1 to 63 lowered bytes without
  -- a dot, and has four bytes or more behind them, is parsed to the name of these labels alone:
  -- whatever labels follow are no part of the name that is looked up. The id and the flags fit into
  -- 16 bits.
  pub long_name_cut :
      (out_packet : DnsPacket)
      → id < 65536
      → flags < 65536
      → All IsWireLabel ls
      → length ls ≡ 64
      → 4 ≤ length rest
      → (qtype : ℕ) × (qclass : ℕ) × (parse long_query out_packet
          ≡ got (
            true,
            record {
              id = id;
              flags = flags;
              questions = record { qname = join_labels ls; qtype = qtype; qclass = qclass } ∷ [];
            },
          ))
  unfolding parse
  long_name_cut out_packet hi hf h long room =
      let (qtype, qclass, e) = cut_questions h long room in
      let body = encode_labels ls ++ rest in
      (
        qtype,
        qclass,
        rw (long-message id flags ancount nscount arcount body) (
            rw (id-message id flags ancount nscount arcount body hi) (
              rw (flags-message id flags ancount nscount arcount body hf)
                (rw (count-message id flags ancount nscount arcount body) (rw e)))),
      )
