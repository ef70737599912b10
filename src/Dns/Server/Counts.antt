-- ===== src/Dns/Server/Counts.antt =====
-- The statistics, over any sequence of datagrams whatever bytes they hold: each datagram is dropped,
-- sinkholed or forwarded, and what is sent follows from that.
use degoonification.Common.{
  ℕ, ◌+◌, ◌^◌, ◌≤◌, ◌<◌, ◌≡◌, refl, ap, inl, inr, Bool, true, false, if◌then◌else◌, Option, List,
  [], ◌∷◌, ◌++◌, Bytes, arith, Bool-cases, length, is_empty, take, none, some, ◌∙◌,
}
use degoonification.Radix.{matches}
use degoonification.Bloom.{IsWellFormed}
use degoonification.Bloom.Members.{contains_total}
use degoonification.Common.Reads.{Reads, got}
use degoonification.Dns.Packet.{DnsQuestion, DnsPacket, parse}
use degoonification.Dns.Packet.Safety.{parse_within}
use degoonification.Dns.Response.{build_sinkhole_response}
use degoonification.Dns.Server.{
  DnsServer, Sent, to_client, to_upstream, is_blocked, decide_query, handle_questions,
  handle_parsed, handle_received, handle_datagram, Fd, run_loop, no_packet, next, forward,
}

-- What becomes of a datagram: a sinkholed one has a packet.
pub data Fate : Type 0 where
  dropped forwarded : Fate
  sinkholed : DnsPacket → Fate

abbrev pub add_if : Bool → ℕ → ℕ
add_if true n = next n
add_if false n = n

abbrev pub is_sinkholed : Fate → Bool
is_sinkholed (sinkholed packet) = true
is_sinkholed dropped = false
is_sinkholed forwarded = false

abbrev pub is_forwarded : Fate → Bool
is_forwarded forwarded = true
is_forwarded dropped = false
is_forwarded (sinkholed packet) = false

-- With an upstream socket, the query goes upstream as it came, and an answer that is not empty goes to
-- the client.
abbrev pub relayed : Fd → Bytes → Option Bytes → List Sent
relayed none query reply = []
relayed (some fd) query none = to_upstream query ∷ []
relayed (some fd) query (some bytes) =
    to_upstream query ∷ (if is_empty bytes then [] else to_client (take 2048 bytes) ∷ [])

pub forward-relayed :
    (fd : Fd) (query : Bytes) (reply : Option Bytes)
    → forward fd query reply ≡ relayed fd query reply
forward-relayed none query reply = refl
forward-relayed (some fd) query none = refl
forward-relayed (some fd) query (some []) = refl
forward-relayed (some fd) query (some (b ∷ bytes)) = refl

-- What a server sends for a fate.
abbrev pub replies : DnsServer → Bytes → Option Bytes → Fate → List Sent
replies s query reply dropped = []
replies s query reply (sinkholed packet) = to_client (build_sinkhole_response packet) ∷ []
replies s query reply forwarded = relayed s.upstream_fd query reply

-- The parser reads a packet, and its first question is blocked or not.
pub record Asks (s : DnsServer) (query : Bytes) (packet : DnsPacket) (hit : Bool) : Type 0 where
  pub first : DnsQuestion
  pub others : List DnsQuestion
  pub parsed : parse query no_packet ≡ got (true, packet)
  pub questions_are : packet.questions ≡ first ∷ others
  pub looked_up : is_blocked s first.qname ≡ got hit

-- Why a datagram has its fate.
abbrev pub Because : DnsServer → Bytes → Fate → Type 0
Because s query dropped = Unit {0}
Because s query (sinkholed packet) = Asks s query packet true
Because s query forwarded = (packet : DnsPacket) × Asks s query packet false

-- The server after a datagram: only the counters have moved, and by what its fate says; what was sent
-- is what its fate says, and the lookup of the name decided it.
pub record Handled (s t : DnsServer) (out : List Sent) (query : Bytes) (reply : Option Bytes)
    (fate : Fate) : Type 0 where
  pub same : t ≡ record s {
    total_queries = t.total_queries;
    blocked_queries = t.blocked_queries;
    forwarded_queries = t.forwarded_queries;
  }
  pub total : t.total_queries ≡ (if is_empty query then s.total_queries else next s.total_queries)
  pub blocked : t.blocked_queries ≡ add_if (is_sinkholed fate) s.blocked_queries
  pub forward_count : t.forwarded_queries ≡ add_if (is_forwarded fate) s.forwarded_queries
  pub sent : out ≡ replies s query reply fate
  pub because : Because s query fate
  pub empty_dropped : is_empty query ≡ true → fate ≡ dropped

abbrev pub Outcome : DnsServer → Bytes → Option Bytes → Reads (DnsServer × List Sent) → Type 0
Outcome s query reply r =
    (t : DnsServer) × (out : List Sent) × (fate : Fate) × (r ≡ got (t, out))
    × Handled s t out query reply fate

module _ (s : DnsServer) (w : IsWellFormed s.bloom_filter) (b : ℕ) (bytes : Bytes)
    (reply : Option Bytes) where
  abbrev given : Bytes
  given = b ∷ bytes

  abbrev counted : DnsServer
  counted = record s { total_queries = next s.total_queries }

  drop_lem : Outcome s given reply (got (counted, []))
  drop_lem = (
    counted,
    [],
    dropped,
    refl,
    record {
      same = refl;
      total = refl;
      blocked = refl;
      forward_count = refl;
      sent = refl;
      because = tt;
      empty_dropped = λ h. refl;
    },
  )

  decide_lem :
      (packet : DnsPacket) (hit : Bool)
      → Asks s given packet hit
      → Outcome s given reply (decide_query counted given reply packet hit)
  unfolding decide_query
  decide_lem packet true asks = (
    record counted { blocked_queries = next s.blocked_queries },
    to_client (build_sinkhole_response packet) ∷ [],
    sinkholed packet,
    refl,
    record {
      same = refl;
      total = refl;
      blocked = refl;
      forward_count = refl;
      sent = refl;
      because = asks;
      empty_dropped = λ h. cc;
    },
  )
  decide_lem packet false asks = (
    record counted { forwarded_queries = next s.forwarded_queries },
    forward s.upstream_fd given reply,
    forwarded,
    refl,
    record {
      same = refl;
      total = refl;
      blocked = refl;
      forward_count = refl;
      sent = forward-relayed s.upstream_fd given reply;
      because = (packet, asks);
      empty_dropped = λ h. cc;
    },
  )

  is_blocked_within : (name : Bytes) → (hit : Bool) × (is_blocked s name ≡ got hit)
  unfolding is_blocked
  is_blocked_within name = elim (Bool-cases (matches s.radix_tree name)) [
    | inl e ↦ (true, rw e)
    | inr e ↦ let (hit, e') = contains_total s.bloom_filter name w in (hit, rw (e, e'))
  ]

  same_lookup : (name : Bytes) → is_blocked counted name ≡ is_blocked s name
  unfolding is_blocked
  same_lookup name = refl

  handle_questions_lem :
      (packet : DnsPacket) (qs : List DnsQuestion)
      → parse given no_packet ≡ got (true, packet)
      → packet.questions ≡ qs
      → Outcome s given reply (handle_questions counted given reply packet qs)
  unfolding handle_questions
  handle_questions_lem packet [] e k = drop_lem
  handle_questions_lem packet (q ∷ qs) e k =
      let (hit, g) = is_blocked_within q.qname in
      rw (same_lookup q.qname ∙ g) (
        decide_lem packet hit
          (record { first = q; others = qs; parsed = e; questions_are = k; looked_up = g }))

  handle_parsed_lem :
      (r : Bool × DnsPacket)
      → parse given no_packet ≡ got r
      → Outcome s given reply (handle_parsed counted given reply r)
  unfolding handle_parsed
  handle_parsed_lem (true, packet) e = handle_questions_lem packet packet.questions e refl
  handle_parsed_lem (false, packet) e = drop_lem

handle_received_lem :
    (s : DnsServer) (query : Bytes) (reply : Option Bytes)
    → IsWellFormed s.bloom_filter
    → Outcome s query reply (handle_received s query reply)
unfolding handle_received
handle_received_lem s [] reply w = (
  s,
  [],
  dropped,
  refl,
  record {
    same = refl;
    total = refl;
    blocked = refl;
    forward_count = refl;
    sent = refl;
    because = tt;
    empty_dropped = λ h. refl;
  },
)
handle_received_lem s (b ∷ bytes) reply w =
    let (r, e) = parse_within (b ∷ bytes) no_packet in
    rw e (handle_parsed_lem s w b bytes reply r e)

-- Whatever bytes a datagram holds, a server with a well-formed filter handles the first 2048 of
-- them without an access out of bounds. The datagram is sinkholed only if the name of its first
-- question is blocked, and then the client gets the packet's sinkhole response and nothing goes
-- upstream; it is forwarded only if that name is not blocked, and then the bytes go upstream, where
-- there is a socket, and an answer that is not empty to the client; or it is dropped, and nothing
-- is sent. Besides the counters, the server stays as it was.
pub handle_datagram_lem :
    (s : DnsServer) (query : Bytes) (reply : Option Bytes)
    → IsWellFormed s.bloom_filter
    → Outcome s (take 2048 query) reply (handle_datagram s query reply)
unfolding handle_datagram
handle_datagram_lem s query reply w = handle_received_lem s (take 2048 query) reply w

abbrev pub one_if_full : Bytes → ℕ
one_if_full [] = 0
one_if_full (b ∷ bytes) = 1

same_count : (query : Bytes) → one_if_full (take 2048 query) ≡ one_if_full query
same_count [] = refl
same_count (b ∷ bytes) = refl

-- The datagrams that are not empty.
abbrev pub received : List (Bytes × Option Bytes) → ℕ
received [] = 0
received ((query, reply) ∷ rest) = one_if_full query + received rest

pub received-le : (ds : List (Bytes × Option Bytes)) → received ds ≤ length ds
received-le [] = omega arith
received-le (([], reply) ∷ rest) = omega (arith, received-le rest)
received-le ((b ∷ bytes, reply) ∷ rest) = omega (arith, received-le rest)

-- The counters make sense: no query is both blocked and forwarded.
abbrev pub IsCounted : DnsServer → Type 0
IsCounted s = s.blocked_queries + s.forwarded_queries ≤ s.total_queries

step-IsCounted :
    (s t : DnsServer) (out : List Sent) (query : Bytes) (reply : Option Bytes) (fate : Fate)
    → Handled s t out query reply fate
    → s.total_queries + 1 < 2 ^ 64
    → IsCounted s
    → IsCounted t × (t.total_queries ≡ s.total_queries + one_if_full query)
step-IsCounted s t out [] reply dropped h room c =
    ground (arith, h.total, h.blocked, h.forward_count)
step-IsCounted s t out (b ∷ bytes) reply dropped h room c =
    ground (arith, h.total, h.blocked, h.forward_count)
step-IsCounted s t out [] reply (sinkholed packet) h room c = cc (h.empty_dropped refl)
step-IsCounted s t out (b ∷ bytes) reply (sinkholed packet) h room c =
    ground (arith, h.total, h.blocked, h.forward_count)
step-IsCounted s t out [] reply forwarded h room c = cc (h.empty_dropped refl)
step-IsCounted s t out (b ∷ bytes) reply forwarded h room c =
    ground (arith, h.total, h.blocked, h.forward_count)

at_most_one : (query : Bytes) → one_if_full query ≤ 1
at_most_one [] = omega arith
at_most_one (b ∷ bytes) = omega arith

-- Over any sequence of datagrams a server with a well-formed filter and counters in order keeps
-- running, counts each datagram that is not empty once, and never counts more blocked and forwarded
-- queries than it received, as long as the count stays below 2 ^ 64.
pub run_loop-IsCounted :
    (ds : List (Bytes × Option Bytes)) (s : DnsServer)
    → IsWellFormed s.bloom_filter
    → s.total_queries + length ds < 2 ^ 64
    → IsCounted s
    → (t : DnsServer) × (out : List Sent) × (run_loop ds s ≡ got (t, out))
      × IsCounted t
      × (t.total_queries ≡ s.total_queries + received ds)
unfolding run_loop
run_loop-IsCounted [] s w room c = (s, [], refl, c, omega arith)
run_loop-IsCounted ((query, reply) ∷ rest) s w room c =
    let (t, out, fate, e, h) = handle_datagram_lem s query reply w in
    let (ct, et) = step-IsCounted s t out (take 2048 query) reply fate h (omega arith) c in
    let seen = same_count query in
    let kept : t.bloom_filter ≡ s.bloom_filter = ap (λ (x : DnsServer). x.bloom_filter) h.same in
    let (t', out', e', c', et') =
      run_loop-IsCounted rest t (rw kept w) (omega (arith, at_most_one query, seen)) ct in
    (t', out ++ out', rw (e, e'), c', omega (arith, et, et', seen))
