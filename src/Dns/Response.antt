-- ===== src/Dns/Response.antt =====
-- `DnsPacket::build_sinkhole_response` of platform/linux/network/dns_packet.cpp.
use degoonification.Common.{
  ℕ, ◌/◌, ◌%◌, ◌==◌, if◌then◌else◌, List, [], ◌∷◌, ◌++◌, Bytes, dot, is_empty, length, replicate,
}
use degoonification.Dns.Packet.{DnsQuestion, DnsPacket}

-- `static_cast<uint8_t>(x >> 8)`, `static_cast<uint8_t>(x & 0xFF)`
abbrev pub high_byte : ℕ → ℕ
high_byte x = x / 256 % 256

abbrev pub low_byte : ℕ → ℕ
low_byte x = x % 256

-- A label behind its length, which is cut to a byte.
abbrev pub emit : Bytes → Bytes
emit label = (length label % 256) ∷ label

-- The loop that writes the name; `label` holds the bytes since the last dot.
unfoldable pub encode_name : Bytes → Bytes → Bytes
encode_name label [] = if is_empty label then [] else emit label
encode_name label (c ∷ cs) =
    let next = emit label ++ encode_name [] cs in
    let more = encode_name (label ++ c ∷ []) cs in if c == dot then next else more

-- Type, class, TTL of 300 s, and the address :: or 0.0.0.0.
abbrev pub answer : ℕ → Bytes
answer qtype =
    if qtype == 28
    then 0x00 ∷ 0x1C ∷ 0x00 ∷ 0x01 ∷ 0x00 ∷ 0x00 ∷ 0x01 ∷ 0x2C ∷ 0x00 ∷ 0x10 ∷ replicate 16 0x00
    else 0x00 ∷ 0x01 ∷ 0x00 ∷ 0x01 ∷ 0x00 ∷ 0x00 ∷ 0x01 ∷ 0x2C ∷ 0x00 ∷ 0x04 ∷ replicate 4 0x00

-- The twelve bytes of the header.
abbrev pub header : ℕ → Bytes
header id =
    high_byte id
    ∷ low_byte id
    ∷ 0x81
    ∷ 0x80
    ∷ 0x00
    ∷ 0x01
    ∷ 0x00
    ∷ 0x01
    ∷ 0x00
    ∷ 0x00
    ∷ 0x00
    ∷ 0x00
    ∷ []

-- What stands behind the name: its end, type and class, and the answer.
abbrev pub tail_of : DnsQuestion → Bytes
tail_of q =
    0x00
    ∷ high_byte q.qtype
    ∷ low_byte q.qtype
    ∷ high_byte q.qclass
    ∷ low_byte q.qclass
    ∷ 0xC0
    ∷ 0x0C
    ∷ answer q.qtype

abbrev pub response_to : ℕ → DnsQuestion → Bytes
response_to id q = header id ++ (encode_name [] q.qname ++ tail_of q)

abbrev pub first_response : ℕ → List DnsQuestion → Bytes
first_response id [] = []
first_response id (q ∷ qs) = response_to id q

unfoldable pub build_sinkhole_response : DnsPacket → Bytes
build_sinkhole_response p = first_response p.id p.questions
