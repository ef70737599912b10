-- ===== src/Dns/Answer.antt =====
-- The sinkhole's answer, read back by the parser.
use degoonification.Common.{
  ℕ, ◌/◌, ◌%◌, ◌==◌, if◌then◌else◌, replicate, Bool-cases, inl, inr, ◌<◌, ◌≡◌, refl, ap, sym, ◌∙◌,
  true, List, [], ◌∷◌, ◌++◌, Bytes, dot, length, arith, All,
}
use mathlib.Core.List.{append-nil, append_assoc}
use degoonification.Domain.Split.{join_labels}
use degoonification.Common.Reads.{got}
use degoonification.Dns.Packet.{DnsQuestion, DnsPacket, parse}
use degoonification.Dns.Response.{
  encode_name, emit, header, tail_of, answer, response_to, build_sinkhole_response,
}
use degoonification.Dns.Wire.{IsNameByte, IsWireLabel, encode_labels}
use degoonification.Dns.Query.{IsQuery, message, question, parse-message}

encode_name-label :
    (label l s : Bytes) → All IsNameByte l → encode_name label (l ++ s) ≡ encode_name (label ++ l) s
unfolding encode_name
encode_name-label label [] s h = rw append-nil
encode_name-label label (c ∷ l) s h = rw h.0.no_dot (
    encode_name-label (label ++ c ∷ []) l s h.1
    ∙ ap (λ x. encode_name x s) (append_assoc label (c ∷ []) l))

encode_name-dot : (label s : Bytes) → encode_name label (dot ∷ s) ≡ emit label ++ encode_name [] s
unfolding encode_name
encode_name-dot label s = refl

encode_name-last : (l : Bytes) → 0 < length l → encode_name l [] ≡ emit l
unfolding encode_name
encode_name-last [] h = absurd (omega arith)
encode_name-last (c ∷ l) h = refl

emit-label : (l : Bytes) → IsWireLabel l → emit l ≡ length l ∷ l
emit-label l w =
    let fits : length l % 256 ≡ length l = omega (arith, w.short) in ap (λ n. n ∷ l) fits

-- The name of a question is written as its labels.
pub encode_name-join_labels :
    (ls : List Bytes) → All IsWireLabel ls → encode_name [] (join_labels ls) ≡ encode_labels ls
unfolding join_labels encode_labels
encode_name-join_labels [] h = unfold encode_name in refl
encode_name-join_labels (l ∷ []) h =
    ap (encode_name []) (sym (append-nil l))
    ∙ encode_name-label [] l [] h.0.bytes
    ∙ encode_name-last l h.0.full
    ∙ emit-label l h.0
    ∙ ap (λ x. length l ∷ x) (sym (append-nil l))
encode_name-join_labels (l ∷ m ∷ ls) h =
    encode_name-label [] l (dot ∷ join_labels (m ∷ ls)) h.0.bytes
    ∙ encode_name-dot l (join_labels (m ∷ ls))
    ∙ ap (λ x. x ++ encode_name [] (join_labels (m ∷ ls))) (emit-label l h.0)
    ∙ ap (λ x. (length l ∷ l) ++ x) (encode_name-join_labels (m ∷ ls) h.1)

abbrev named : List Bytes → ℕ → ℕ → DnsQuestion
named ls qtype qclass = record { qname = join_labels ls; qtype = qtype; qclass = qclass }

-- The answer to a question is a message with that question.
pub response-message :
    (id : ℕ) (ls : List Bytes) (qtype qclass : ℕ)
    → All IsWireLabel ls
    → response_to id (named ls qtype qclass)
      ≡ message id 0x8180 1 0 0 (question ls qtype qclass (0xC0 ∷ 0x0C ∷ answer qtype))
response-message id ls qtype qclass h =
    ap (λ name. header id ++ (name ++ tail_of (named ls qtype qclass)))
      (encode_name-join_labels ls h)

abbrev bytes_16 : ℕ → Bytes
bytes_16 n = n / 256 % 256 ∷ n % 256 ∷ []

-- A resource record as RFC 1035 lays it out: a name, type, class, TTL in 32 bits, and the data behind its
-- length.
abbrev pub resource_record : Bytes → ℕ → ℕ → ℕ → Bytes → Bytes
resource_record name type class ttl rdata =
    name
    ++ bytes_16 type
    ++ bytes_16 class
    ++ bytes_16 (ttl / 65536)
    ++ bytes_16 ttl
    ++ bytes_16 (length rdata)
    ++ rdata

-- The address :: for a question for AAAA, and 0.0.0.0 for any other, for 300 s; the name points to the
-- question's, at offset 12.
abbrev pub sink_record : ℕ → Bytes
sink_record qtype =
    if qtype == 28
    then resource_record (0xC0 ∷ 12 ∷ []) 28 1 300 (replicate 16 0)
    else resource_record (0xC0 ∷ 12 ∷ []) 1 1 300 (replicate 4 0)

answer-sink_record : (qtype : ℕ) → 0xC0 ∷ 0x0C ∷ answer qtype ≡ sink_record qtype
answer-sink_record qtype = elim (Bool-cases (qtype == 28)) [ inl e ↦ rw e refl | inr e ↦ rw e refl ]

-- The answer to a packet whose first question has at most 63 labels, each of 1 to 63 lowered bytes
-- without a dot, is a message with the packet's id, the flags 0x8180, the first question, and one
-- resource record for 300 s: the address :: for a question for AAAA, and 0.0.0.0 for any other. The
-- parser reads from it the id, the flags and the question. The id, the question's type and its
-- class fit into 16 bits.
pub parse-build_sinkhole_response :
    (id flags : ℕ) (ls : List Bytes) (qtype qclass : ℕ) (qs : List DnsQuestion)
    (out_packet : DnsPacket)
    → IsQuery id flags ls qtype qclass
    → let response =
        build_sinkhole_response
          (record { id = id; flags = flags; questions = named ls qtype qclass ∷ qs }) in
      (response ≡ message id 0x8180 1 0 0 (question ls qtype qclass (sink_record qtype)))
      × (parse response out_packet
          ≡ got (true, record { id = id; flags = 0x8180; questions = named ls qtype qclass ∷ [] }))
unfolding build_sinkhole_response
parse-build_sinkhole_response id flags ls qtype qclass qs out_packet w =
    let written = response-message id ls qtype qclass w.labels in
    (
      written
          ∙ ap (λ r. message id 0x8180 1 0 0 (question ls qtype qclass r))
              (answer-sink_record qtype),
      ap (λ r. parse r out_packet) written
          ∙ parse-message id 0x8180 1 0 0 ls qtype qclass (0xC0 ∷ 0x0C ∷ answer qtype) out_packet
              (record {
                id_fits = w.id_fits;
                flags_fit = omega arith;
                labels = w.labels;
                few = w.few;
                qtype_fits = w.qtype_fits;
                qclass_fits = w.qclass_fits;
              }),
    )
