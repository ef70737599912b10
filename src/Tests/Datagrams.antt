-- ===== src/Tests/Datagrams.antt =====
-- Datagrams: examples for the theorems on the DNS parser, its answers and the server.
use degoonification.Common.{
  ℕ, zero, suc, ◌==◌, dot, to_lower, ◌+◌, ◌≡◌, refl, Bool, true, false, none, some, List, [], ◌∷◌,
  ◌++◌, replicate, any, All, arith, Bytes, if◌then◌else◌,
}
use degoonification.Domain.Split.{join_labels}
use degoonification.Radix.Refinement.{covers}
use degoonification.Radix.Entries.{text_of, domains_of}
use degoonification.Bloom.{IsWellFormed}
use degoonification.Bloom.Doubles.{construct, construct-IsWellFormed}
use degoonification.Common.Reads.{got}
use degoonification.Dns.Packet.{DnsPacket, parse}
use degoonification.Dns.Packet.Safety.{parse_within}
use degoonification.Dns.Response.{build_sinkhole_response}
use degoonification.Dns.Wire.{IsWireLabel, IsNameByte, encode_labels}
use degoonification.Dns.Query.{IsQuery, message, question, parse-message}
use degoonification.Dns.Answer.{sink_record, parse-build_sinkhole_response}
use degoonification.Dns.LongNames.{long_name_cut}
use degoonification.Dns.Server.{DnsServer, Sent, new_server, handle_datagram, run_loop, no_packet}
use degoonification.Dns.Server.Decision.{sinkholed, forwarded, started, sinkhole_iff_listed}
use degoonification.Dns.Server.Counts.{
  Outcome, handle_datagram_lem, received, IsCounted, run_loop-IsCounted,
}
use degoonification.Dns.Server.Life.{IsLive, IsDone, call_stop, run_call, run_call-IsLive}
use degoonification.Tests.Blocklists.{bad, tld, hosts, hosts-IsEntry, wholes, wholes-IsInRange}

byte : (c : ℕ) → (c == dot) ≡ false → to_lower c ≡ c → IsNameByte c
byte c h k = record { no_dot = h; low = k }

bad-IsWireLabel : IsWireLabel bad
bad-IsWireLabel = record {
  full = omega arith;
  short = omega arith;
  bytes = (byte 98 refl refl, (byte 97 refl refl, (byte 100 refl refl, tt)));
}

tld-IsWireLabel : IsWireLabel tld
tld-IsWireLabel = record {
  full = omega arith;
  short = omega arith;
  bytes = (byte 99 refl refl, (byte 111 refl refl, (byte 109 refl refl, tt)));
}

-- A question for the A record of bad.com, with recursion desired.
ask : IsQuery 7 256 (bad ∷ tld ∷ []) 1 1
ask = record {
  id_fits = omega arith;
  flags_fit = omega arith;
  labels = (bad-IsWireLabel, (tld-IsWireLabel, tt));
  few = omega arith;
  qtype_fits = omega arith;
  qclass_fits = omega arith;
}

abbrev query : Bytes
query = message 7 256 0 0 0 (question (bad ∷ tld ∷ []) 1 1 [])

-- A server that has its socket and runs.
abbrev running : DnsServer
running = record (new_server (construct wholes 100 2)) {
  is_running = true;
  worker_thread = true;
  server_fd = some 3;
  upstream_fd = some 4;
}

running-IsWellFormed : IsWellFormed running.bloom_filter
running-IsWellFormed = (construct-IsWellFormed wholes 100 2 wholes-IsInRange).0

running-IsCounted : IsCounted running
running-IsCounted = omega arith

sinkhole_iff_listed_example :
    handle_datagram
      (started wholes 100 2 wholes-IsInRange (text_of hosts) (some 3) true (some 4))
      query
      none
    ≡ got (
        if any (λ rule. covers rule (join_labels (bad ∷ tld ∷ []))) (domains_of hosts)
        then sinkholed
            (started wholes 100 2 wholes-IsInRange (text_of hosts) (some 3) true (some 4))
            7
            256
            0
            0
            0
            (bad ∷ tld ∷ [])
            1
            1
            []
            none
        else forwarded
            (started wholes 100 2 wholes-IsInRange (text_of hosts) (some 3) true (some 4))
            7
            256
            0
            0
            0
            (bad ∷ tld ∷ [])
            1
            1
            []
            none)
unfolding encode_labels
sinkhole_iff_listed_example =
    sinkhole_iff_listed wholes 100 2 wholes-IsInRange hosts (some 3) true (some 4) 7 256 0 0 0
      (bad ∷ tld ∷ []) 1 1 [] none hosts-IsEntry ask (omega arith)

parse_within_example : (r : Bool × DnsPacket) × (parse (7 ∷ 0 ∷ 192 ∷ []) no_packet ≡ got r)
parse_within_example = parse_within (7 ∷ 0 ∷ 192 ∷ []) no_packet

parse-message_example :
    parse query no_packet
    ≡ got (
      true,
      record {
        id = 7;
        flags = 256;
        questions = record { qname = join_labels (bad ∷ tld ∷ []); qtype = 1; qclass = 1 } ∷ [];
      },
    )
parse-message_example = parse-message 7 256 0 0 0 (bad ∷ tld ∷ []) 1 1 [] no_packet ask

-- The answer to the question for bad.com.
abbrev response : Bytes
response = build_sinkhole_response (record {
  id = 7;
  flags = 256;
  questions = record { qname = join_labels (bad ∷ tld ∷ []); qtype = 1; qclass = 1 } ∷ [];
})

parse-build_sinkhole_response_example :
    (response ≡ message 7 0x8180 1 0 0 (question (bad ∷ tld ∷ []) 1 1 (sink_record 1)))
    × (parse response no_packet
        ≡ got (
          true,
          record {
            id = 7;
            flags = 0x8180;
            questions = record { qname = join_labels (bad ∷ tld ∷ []); qtype = 1; qclass = 1 } ∷ [];
          },
        ))
parse-build_sinkhole_response_example =
    parse-build_sinkhole_response 7 256 (bad ∷ tld ∷ []) 1 1 [] no_packet ask

-- 64 labels of one letter.
abbrev many : List Bytes
many = replicate 64 (97 ∷ [])

many-IsWireLabel : All IsWireLabel many
many-IsWireLabel = repeated 64
  where
    one : IsWireLabel (97 ∷ [])
    one = record { full = omega arith; short = omega arith; bytes = (byte 97 refl refl, tt) }

    repeated : (n : ℕ) → All IsWireLabel (replicate n (97 ∷ []))
    repeated zero = tt
    repeated (suc n) = (one, repeated n)

long_name_cut_example :
    (qtype : ℕ) × (qclass : ℕ) × (parse
        (message 7 256 0 0 0 (encode_labels many ++ question (bad ∷ tld ∷ []) 1 1 []))
        no_packet
      ≡ got (
        true,
        record {
          id = 7;
          flags = 256;
          questions = record { qname = join_labels many; qtype = qtype; qclass = qclass } ∷ [];
        },
      ))
unfolding encode_labels
long_name_cut_example =
    long_name_cut 7 256 0 0 0 many (question (bad ∷ tld ∷ []) 1 1 []) no_packet (omega arith)
      (omega arith) many-IsWireLabel refl (omega arith)

handle_datagram_example : Outcome running (1 ∷ []) none (handle_datagram running (1 ∷ []) none)
handle_datagram_example = handle_datagram_lem running (1 ∷ []) none running-IsWellFormed

run_loop-IsCounted_example :
    (t : DnsServer) × (out : List Sent) × (run_loop ((query, none) ∷ ([], none) ∷ []) running
      ≡ got (t, out))
    × IsCounted t
    × (t.total_queries ≡ running.total_queries + received ((query, none) ∷ ([], none) ∷ []))
run_loop-IsCounted_example =
    run_loop-IsCounted ((query, none) ∷ ([], none) ∷ []) running running-IsWellFormed (omega arith)
      running-IsCounted

running-IsLive : IsLive running
running-IsLive = record { thread = refl; socket = λ h e. cc }

run_call-IsLive_example :
    IsLive (run_call call_stop running) × IsDone call_stop running (run_call call_stop running)
run_call-IsLive_example = run_call-IsLive call_stop running tt running-IsLive
