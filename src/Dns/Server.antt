-- ===== src/Dns/Server.antt =====
-- `DnsServer` of platform/linux/network/dns_server.cpp and dns_server.hpp: its life, and what the
-- worker does with a datagram. What the operating system answers is an argument.
pub mod Decision
pub mod Counts
pub mod Life
use degoonification.Common.{
  ℕ, ◌+◌, ◌%◌, ◌^◌, Bool, true, false, if◌then◌else◌, Option, none, some, List, [], ◌∷◌, ◌++◌,
  Bytes, is_empty, take,
}
use degoonification.Radix.{RadixTree, empty, matches}
use degoonification.Radix.Load.{load_from_file}
use degoonification.Bloom.{BloomFilter, contains}
use degoonification.Common.Reads.{Reads, fault, got, ◌>>=◌}
use degoonification.Dns.Packet.{DnsQuestion, DnsPacket, parse}
use degoonification.Dns.Response.{build_sinkhole_response}

-- A file descriptor; `none` stands for -1.
abbrev pub Fd : Type 0
Fd = Option ℕ

pub record DnsServer : Type 0 where
  pub is_running : Bool
  pub server_fd : Fd
  pub upstream_fd : Fd
  pub worker_thread : Bool
  pub radix_tree : RadixTree
  pub bloom_filter : BloomFilter
  pub total_queries : ℕ
  pub blocked_queries : ℕ
  pub forwarded_queries : ℕ

pub record DnsStats : Type 0 where
  pub total_queries : ℕ
  pub blocked_queries : ℕ
  pub forwarded_queries : ℕ

abbrev pub stats : DnsServer → DnsStats
stats s = record {
  total_queries = s.total_queries;
  blocked_queries = s.blocked_queries;
  forwarded_queries = s.forwarded_queries;
}

-- The constructor, given the filter that it constructs.
abbrev pub new_server : BloomFilter → DnsServer
new_server bloom = record {
  is_running = false;
  server_fd = none;
  upstream_fd = none;
  worker_thread = false;
  radix_tree = empty;
  bloom_filter = bloom;
  total_queries = 0;
  blocked_queries = 0;
  forwarded_queries = 0;
}

-- What `init` gets: the blocklist's text, the listening socket, whether it could be bound, and the
-- upstream socket.
pub record Setup : Type 0 where
  pub blocklist : Option Bytes
  pub listening : Fd
  pub bound : Bool
  pub upstream : Fd

pub init_sockets : Fd → Bool → Fd → DnsServer → Bool × DnsServer
init_sockets none bound upstream s = (false, record s { server_fd = none })
init_sockets (some fd) false upstream s = (false, record s { server_fd = none })
init_sockets (some fd) true upstream s =
    (true, record s { server_fd = some fd; upstream_fd = upstream })

pub init : Setup → DnsServer → Bool × DnsServer
unfolding init_sockets
init e s =
    init_sockets e.listening e.bound e.upstream
      (record s { radix_tree = (load_from_file e.blocklist s.radix_tree).1 })

pub start_with : Fd → Bool → DnsServer → Bool × DnsServer
start_with none running s = (false, s)
start_with (some fd) true s = (false, s)
start_with (some fd) false s = (true, record s { is_running = true; worker_thread = true })

pub start : DnsServer → Bool × DnsServer
unfolding start_with
start s = start_with s.server_fd s.is_running s

pub stop : DnsServer → DnsServer
stop s =
    if s.is_running
    then record s {
      is_running = false;
      worker_thread = false;
      server_fd = none;
      upstream_fd = none;
    }
    else s

-- What the worker sends, and where to.
pub data Sent : Type 0 where
  to_client : Bytes → Sent
  to_upstream : Bytes → Sent

-- `radix_tree_.matches(qname) || bloom_filter_.contains(qname)`
abbrev of_lookup : Option Bool → Reads Bool
of_lookup none = fault
of_lookup (some b) = got b

pub is_blocked : DnsServer → Bytes → Reads Bool
is_blocked s qname =
    if matches s.radix_tree qname then got true else of_lookup (contains s.bloom_filter qname)

abbrev pub next : ℕ → ℕ
next n = (n + 1) % 2 ^ 64

-- The answer of the upstream server, `none` when none comes in 300 ms, goes to the client,
-- as far as it fits into the buffer.
abbrev pub relay : Option Bytes → List Sent
relay none = []
relay (some []) = []
relay (some (b ∷ bytes)) = to_client (take 2048 (b ∷ bytes)) ∷ []

abbrev pub forward : Fd → Bytes → Option Bytes → List Sent
forward none query reply = []
forward (some fd) query reply = to_upstream query ∷ relay reply

pub decide_query :
    DnsServer → Bytes → Option Bytes → DnsPacket → Bool → Reads (DnsServer × List Sent)
decide_query s query reply packet true = got (
  record s { blocked_queries = next s.blocked_queries },
  to_client (build_sinkhole_response packet) ∷ [],
)
decide_query s query reply packet false =
    got
      (record s { forwarded_queries = next s.forwarded_queries }, forward s.upstream_fd query reply)

pub handle_questions :
    DnsServer → Bytes → Option Bytes → DnsPacket → List DnsQuestion → Reads (DnsServer × List Sent)
unfolding is_blocked decide_query
handle_questions s query reply packet [] = got (s, [])
handle_questions s query reply packet (q ∷ qs) =
    is_blocked s q.qname >>= λ blocked. decide_query s query reply packet blocked

-- A packet that the parser refused or that has no question is dropped.
pub handle_parsed :
    DnsServer → Bytes → Option Bytes → Bool × DnsPacket → Reads (DnsServer × List Sent)
unfolding handle_questions
handle_parsed s query reply r =
    if r.0 then handle_questions s query reply r.1 r.1.questions else got (s, [])

abbrev pub no_packet : DnsPacket
no_packet = record { id = 0; flags = 0; questions = [] }

-- A round of the worker's loop behind `recvfrom`, with the bytes in the buffer and the upstream's answer.
pub handle_received : DnsServer → Bytes → Option Bytes → Reads (DnsServer × List Sent)
unfolding handle_parsed
handle_received s query reply =
    if is_empty query
    then got (s, [])
    else (parse query no_packet >>= λ r.
        handle_parsed (record s { total_queries = next s.total_queries }) query reply r)

-- One round, with a datagram: the buffer takes its first 2048 bytes.
pub handle_datagram : DnsServer → Bytes → Option Bytes → Reads (DnsServer × List Sent)
unfolding handle_received
handle_datagram s query reply = handle_received s (take 2048 query) reply

-- The loop over a sequence of datagrams.
pub run_loop : List (Bytes × Option Bytes) → DnsServer → Reads (DnsServer × List Sent)
run_loop [] s = got (s, [])
run_loop ((query, reply) ∷ rest) s =
    handle_datagram s query reply >>= λ r. run_loop rest r.0 >>= λ t. got (t.0, r.1 ++ t.1)
