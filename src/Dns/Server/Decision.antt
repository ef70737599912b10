-- ===== src/Dns/Server/Decision.antt =====
-- Which queries are answered by the sinkhole and which are forwarded.
use degoonification.Common.{
  ℕ, ◌≡◌, refl, ap, ◌∙◌, Bool, true, false, ◌||◌, if◌then◌else◌, Option, none, some, List, [], ◌∷◌,
  Bytes, any, All, length, take_short, ◌≤◌,
}
use degoonification.Domain.Split.{join_labels}
use degoonification.Radix.{empty, matches}
use degoonification.Radix.Refinement.{covers, matches-empty}
use degoonification.Radix.Load.{load_from_file, load_from_file_lem, rules_of_text}
use degoonification.Bloom.{contains}
use degoonification.Bloom.Doubles.{Double, IsInRange, construct, contains-construct}
use degoonification.Common.Reads.{got}
use degoonification.Dns.Packet.{DnsPacket}
use degoonification.Dns.Response.{build_sinkhole_response}
use degoonification.Dns.Query.{IsQuery, message, question, parse-message}
use degoonification.Dns.Server.{
  DnsServer, Sent, to_client, Fd, new_server, init, init_sockets, handle_parsed, handle_received,
  handle_datagram, no_packet, next,
}
use degoonification.Dns.Server.Counts.{relayed, forward-relayed}
use degoonification.Radix.Entries.{Entry, IsEntry, text_of, domains_of, rules_of_text-text_of}

module _ (s : DnsServer) (id flags ancount nscount arcount : ℕ) (ls : List Bytes) (qtype qclass : ℕ)
    (rest : Bytes) (reply : Option Bytes) where
  abbrev asked : DnsPacket
  asked = record {
    id = id;
    flags = flags;
    questions = record { qname = join_labels ls; qtype = qtype; qclass = qclass } ∷ [];
  }

  abbrev query : Bytes
  query = message id flags ancount nscount arcount (question ls qtype qclass rest)

  -- The client gets the sinkhole's answer, and nothing leaves the machine.
  abbrev pub sinkholed : DnsServer × List Sent
  sinkholed = (
    record s { total_queries = next s.total_queries; blocked_queries = next s.blocked_queries },
    to_client (build_sinkhole_response asked) ∷ [],
  )

  -- The query goes upstream as it came, and the reply to the client.
  abbrev pub forwarded : DnsServer × List Sent
  forwarded = (
    record s { total_queries = next s.total_queries; forwarded_queries = next s.forwarded_queries },
    relayed s.upstream_fd query reply,
  )

  -- A query with one question of at most 63 labels is sinkholed if the tree matches its name or the
  -- filter holds it, and forwarded otherwise; the filter's lookup must stay in bounds.
  pub handle_query :
      (hit : Bool)
      → IsQuery id flags ls qtype qclass
      → contains s.bloom_filter (join_labels ls) ≡ some hit
      → length query ≤ 2048
      → handle_datagram s query reply
        ≡ got (if matches s.radix_tree (join_labels ls) || hit then sinkholed else forwarded)
  unfolding handle_datagram handle_received
  handle_query hit w e small =
      ap (λ q. handle_received s q reply) (take_short 2048 query small)
      ∙ rw (parse-message id flags ancount nscount arcount ls qtype qclass rest no_packet w)
          (decide (matches s.radix_tree (join_labels ls)) refl hit e)
    where
      decide :
          (m : Bool)
          → matches s.radix_tree (join_labels ls) ≡ m
          → (hit : Bool) → contains s.bloom_filter (join_labels ls) ≡ some hit
          → handle_parsed
              (record s { total_queries = next s.total_queries })
              query
              reply
              (true, asked)
            ≡ got (if matches s.radix_tree (join_labels ls) || hit then sinkholed else forwarded)
      decide true p hit e = rw p
      decide false p true e = rw (p, e)
      decide false p false e =
          rw (p, e) (ap (λ out. got (forwarded.0, out)) (forward-relayed s.upstream_fd query reply))

init-tables :
    (listening : Fd) (bound : Bool) (upstream : Fd) (s : DnsServer)
    → ((init_sockets listening bound upstream s).1.radix_tree ≡ s.radix_tree)
      × ((init_sockets listening bound upstream s).1.bloom_filter ≡ s.bloom_filter)
unfolding init_sockets
init-tables none bound upstream s = (refl, refl)
init-tables (some fd) false upstream s = (refl, refl)
init-tables (some fd) true upstream s = (refl, refl)

or_false : (b : Bool) → (b || false) ≡ b
or_false true = refl
or_false false = refl

module _ {D : Type 0} (d : Double D) (size : ℕ) (rate : D) (range : IsInRange d size rate) where
  -- The server that `main` runs: constructed, and initialised with a blocklist.
  abbrev pub started : Bytes → Fd → Bool → Fd → DnsServer
  started text listening bound upstream =
      (init
        (record {
          blocklist = some text;
          listening = listening;
          bound = bound;
          upstream = upstream;
        })
        (new_server (construct d size rate))).1

  started-matches :
      (text : Bytes) (listening : Fd) (bound : Bool) (upstream : Fd) (name : Bytes)
      → matches (started text listening bound upstream).radix_tree name
        ≡ any (λ rule. covers rule name) (rules_of_text text)
  unfolding init
  started-matches text listening bound upstream name =
      let s = new_server (construct d size rate) in
      let tree = (load_from_file (some text) empty).1 in
      ap (λ t. matches t name)
        (init-tables listening bound upstream (record s { radix_tree = tree })).0
      ∙ (load_from_file_lem text name empty refl).0
      ∙ rw (matches-empty name) (or_false _)

  started-contains :
      (text : Bytes) (listening : Fd) (bound : Bool) (upstream : Fd) (name : Bytes)
      → contains (started text listening bound upstream).bloom_filter name ≡ some false
  unfolding init
  started-contains text listening bound upstream name =
      let s = new_server (construct d size rate) in
      let tree = (load_from_file (some text) empty).1 in
      ap (λ f. contains f name)
        (init-tables listening bound upstream (record s { radix_tree = tree })).1
      ∙ contains-construct d size rate name range

  -- From the text of the blocklist to the wire: a constructed server that was initialised with a
  -- blocklist of empty lines, comments, domains and domains behind the addresses 0.0.0.0 and
  -- 127.0.0.1 answers a query with one question by the sinkhole exactly when a domain of the
  -- blocklist covers the name that is asked for; otherwise the query goes upstream as it came,
  -- where there is a socket, and an answer that is not empty to the client. It does not matter
  -- whether the sockets could be opened. A domain has no `#` and no blank, and one that stands
  -- alone does not begin with one of the addresses. The name has at most 63 labels, each of 1 to 63
  -- lowered bytes without a dot, the query at most 2048 bytes, and the sizes of the filter are in
  -- the range of `size_t`.
  pub sinkhole_iff_listed :
      (es : List Entry) (listening : Fd) (bound : Bool) (upstream : Fd)
      (id flags ancount nscount arcount : ℕ) (ls : List Bytes) (qtype qclass : ℕ) (rest : Bytes)
      (reply : Option Bytes)
      → All IsEntry es
      → IsQuery id flags ls qtype qclass
      → length (message id flags ancount nscount arcount (question ls qtype qclass rest)) ≤ 2048
      → let s = started (text_of es) listening bound upstream in
        let listed = any (λ rule. covers rule (join_labels ls)) (domains_of es) in
        handle_datagram s
          (message id flags ancount nscount arcount (question ls qtype qclass rest))
          reply
        ≡ got (
            if listed
            then sinkholed s id flags ancount nscount arcount ls qtype qclass rest reply
            else forwarded s id flags ancount nscount arcount ls qtype qclass rest reply)
  sinkhole_iff_listed es listening bound upstream id flags ancount nscount arcount ls qtype qclass
        rest reply written w small =
      let s = started (text_of es) listening bound upstream in
      let name = join_labels ls in
      handle_query s id flags ancount nscount arcount ls qtype qclass rest reply false w
        (started-contains (text_of es) listening bound upstream name) small
      ∙ ap
          (λ b. got (
            if b
            then sinkholed s id flags ancount nscount arcount ls qtype qclass rest reply
            else forwarded s id flags ancount nscount arcount ls qtype qclass rest reply))
          (or_false _
            ∙ started-matches (text_of es) listening bound upstream name
            ∙ ap (any (λ rule. covers rule name)) (rules_of_text-text_of es written))
