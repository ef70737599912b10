-- ===== src/Dns/Packet.antt =====
-- `DnsPacket` of platform/linux/network/dns_packet.cpp and dns_packet.hpp: the parser of queries.
pub mod Safety
use degoonification.Common.{
  ℕ, zero, suc, ◌+◌, ◌*◌, Bool, true, false, ◌==◌, ltb, leb, if◌then◌else◌, bit_and, bit_or, Option,
  none, some, List, [], ◌∷◌, ◌++◌, Bytes, to_lower, dot, is_empty, length,
}
use degoonification.Common.Reads.{Reads, got, ◌>>=◌, read}

pub record DnsQuestion : Type 0 where
  pub qname : Bytes
  pub qtype : ℕ
  pub qclass : ℕ

pub record DnsPacket : Type 0 where
  pub id : ℕ
  pub flags : ℕ
  pub questions : List DnsQuestion

-- `(hi << 8) | lo`
unfoldable pub word : ℕ → ℕ → ℕ
word hi lo = bit_or (hi * 256) lo

-- `(label_len & 0xC0) == 0xC0`
unfoldable pub is_pointer : ℕ → Bool
is_pointer label_len = bit_and label_len 0xC0 == 0xC0

-- The bytes of a label, lowercased.
unfoldable pub read_label : Bytes → ℕ → ℕ → Reads Bytes
read_label d i zero = got []
read_label d i (suc n) = do c ← read d i; rest ← read_label d (i + 1) n; got (to_lower c ∷ rest)

-- `if (!qname.empty()) qname.push_back('.')`, and the label's bytes.
abbrev pub push_label : Bytes → Bytes → Bytes
push_label qname label = if is_empty qname then label else qname ++ dot ∷ label

-- What the loop leaves: the name and the offset behind it, or `none` for `return false`.
abbrev pub Name : Type 0
Name = Option (Bytes × ℕ)

-- The loop over the labels of a name. The first argument is `64 - hops`.
unfoldable pub read_name : ℕ → Bytes → ℕ → ℕ → Bool → Bytes → Reads Name
read_name zero d curr offset jumped qname = got (some (qname, offset))
read_name (suc hops) d curr offset jumped qname =
    if leb (length d) curr then got (some (qname, offset)) else do
      label_len ← read d curr
      if label_len == 0
          then got (some (qname, if jumped then offset else curr + 1))
          else if is_pointer label_len
          then (if leb (length d) (curr + 1) then got none else do
            low ← read d (curr + 1)
            read_name hops d (word (bit_and label_len 0x3F) low)
                (if jumped then offset else curr + 2) true qname)
          else if ltb (length d) (curr + 1 + label_len)
          then got none
          else do
            label ← read_label d (curr + 1) label_len
            read_name hops d (curr + 1 + label_len)
                (if jumped then offset else curr + 1 + label_len) jumped (push_label qname label)

-- A big-endian 16-bit field.
unfoldable pub read_word : Bytes → ℕ → Reads ℕ
unfolding word
read_word d i = do hi ← read d i; lo ← read d (i + 1); got (word hi lo)

-- The loop over the questions, `qdcount - q` of them left: its result, and `out_packet.questions`.
unfoldable pub parse_questions : ℕ → Bytes → ℕ → List DnsQuestion → Reads (Bool × List DnsQuestion)
parse_questions zero d offset qs = got (true, qs)
parse_questions (suc left) d offset qs = do
  name ← read_name 64 d offset offset false []
  elim name [
    | none ↦ got (false, qs)
    | some (qname, next) ↦ if ltb (length d) (next + 4) then got (false, qs) else do
      qtype ← read_word d next
      qclass ← read_word d (next + 2)
      parse_questions left d (next + 4)
          (qs ++ record { qname = qname; qtype = qtype; qclass = qclass } ∷ [])
  ]

-- `DnsPacket::parse`: the result of the call and `out_packet` after it.
unfoldable pub parse : Bytes → DnsPacket → Reads (Bool × DnsPacket)
parse d out_packet = if ltb (length d) 12 then got (false, out_packet) else do
  id ← read_word d 0
  flags ← read_word d 2
  qdcount ← read_word d 4
  r ← parse_questions qdcount d 12 []
  got (r.0, record { id = id; flags = flags; questions = r.1 })
