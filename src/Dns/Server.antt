-- ===== src/Dns/Server.antt =====
-- internal/dnsserver/server.go: ServeDNS, the pipeline of a query. Writing the reply and the query
-- log are left out; a call is one step, with the clock's readings and what the upstreams answer as
-- arguments.
pub mod Forwarded
pub mod Asked
pub mod Privacy
mod Tests
use kydns_server.Prelude.{
  ℕ, zero, suc, ◌+◌, ◌-◌, ◌*◌, ◌/◌, ◌%◌, ◌^◌, ◌≤◌, ◌<◌, ◌≡◌, ◌≢◌, ◌↔◌, ◌⊎◌, inl, inr, refl, sym, ap,
  ◌∙◌, subst, String, Bool, true, false, ◌||◌, ◌&&◌, not, Option, none, some, List, [], ◌∷◌, ◌++◌,
  map, ◌==◌, nat_eq, string_eq, same_text, leb, ltb, if◌then◌else◌, length, is_empty, Map, lookup,
  insert, delete, size, lookup-insert, lookup-delete, arith, Bool-cases, Option-cases,
}
use kydns_server.Text.{
  Bytes, bytes_eq, bytes, to_lower, trim_space, trim_last, has_prefix, has_suffix, contains_byte,
  split, join, trim_suffix,
}
use kydns_server.Net.{Addr, invalid, v4, v6, unmap}
use kydns_server.Policy.Normalize.{Names}
use kydns_server.Policy.Snapshot.{Decision}
use kydns_server.Policy.Holder.{Holder as PolicyHolder, decide_counted}
use kydns_server.Zone.Holder.{Holder as ZoneHolder}
use kydns_server.Zone.Snapshot.{Snapshot}
use kydns_server.Zone.Matcher.{match_view}
use kydns_server.Dns.Acl.{Acl, allow}
use kydns_server.Dns.Metrics.{Metrics, file_reply}
use kydns_server.Dns.Message.{
  Rr, soa, Question, Msg, new_msg, opcode_query, class_inet, type_opt, type_soa, rcode_name_error,
  rcode_server_failure, rcode_format_error, rcode_not_implemented, rcode_refused,
}
use kydns_server.Dns.Authoritative.{DnsLib, Authoritative, answer, declined, answered, panicked}
use kydns_server.Dns.Forwarder.{Forwarder, Outside, resolve}

pub record Server : Type 0 where
  pub acl : Acl
  pub holder : ZoneHolder
  pub auth : Authoritative
  pub policy : Option PolicyHolder
  pub forwarder : Option Forwarder
  pub metrics : Metrics

-- What IsEdns0 finds in a request.
pub record Edns : Type 0 where
  pub udp_size : ℕ
  pub dnssec_ok : Bool

pub record Request : Type 0 where
  pub opcode : ℕ
  pub questions : List Question
  pub edns : Option Edns

-- The code that is not the program's, and what a call of ServeDNS reads from outside: the
-- transport, the milliseconds that it takes, the clock and the answers of the upstreams.
pub record World : Type 0 where
  pub lib : DnsLib
  pub names : Names
  pub truncate : ℕ → Msg → Msg
  pub out : Outside
  pub udp : Bool
  pub ms : ℕ
  pub seconds : ℕ

pub record Reply : Type 0 where
  pub msg : Msg
  pub source : Bytes
  pub view : Bytes
  pub policy : Bytes

-- The server afterwards, the reply, which a panic leaves out, and the question with which Resolve was
-- called, if it was.
pub record Served : Type 0 where
  pub server : Server
  pub reply : Option Reply
  pub forwarded : Option Question

-- WithZone("")
abbrev pub without_zone : Addr → Addr
without_zone invalid = invalid
without_zone (v4 n) = v4 n
without_zone (v6 n _) = v6 n ""

-- sourceAddr, from the host that `net.SplitHostPort` gives
unfoldable pub source_addr : (Bytes → Option Addr) → Option Bytes → Addr
source_addr parse_addr none = invalid
source_addr parse_addr (some host) = elim (parse_addr host) [
  | none ↦ invalid
  | some a ↦ without_zone (unmap a)
]

abbrev pub min_msg_size : ℕ
min_msg_size = 512

unfoldable pub client_udp_size : Request → ℕ
client_udp_size r = elim r.edns [ none ↦ min_msg_size | some e ↦ e.udp_size ]

-- `edns != nil && edns.Do()`
abbrev pub wants_dnssec : Request → Bool
wants_dnssec r = elim r.edns [ none ↦ false | some e ↦ e.dnssec_ok ]

-- stripOPT
unfoldable pub strip_opt : List Rr → List Rr
strip_opt [] = []
strip_opt (rr ∷ rrs) = let rest = strip_opt rrs in if rr.rrtype == type_opt then rest else rr ∷ rest

unfoldable pub block_soa : DnsLib → Bytes → ℕ → Rr
block_soa lib qname ttl = record {
  name = lib.fqdn qname;
  rrtype = type_soa;
  ttl = ttl;
  rdata = soa (record {
    ns = lib.fqdn qname;
    mbox = lib.fqdn qname;
    serial = 1;
    refresh = 3600;
    retry = 600;
    expire = 604800;
    minttl = ttl;
  });
}

-- reply: the datagram ceiling and the counters
unfoldable pub send : World → Request → Server → Reply → Option Question → Served
send w r s reply forwarded =
    let m = if w.udp then w.truncate (client_udp_size r) reply.msg else reply.msg in
    record {
      server = record s { metrics = file_reply s.metrics reply.source m.rcode w.ms w.seconds };
      reply = some (record reply { msg = m });
      forwarded = forwarded;
    }

unfoldable pub fail : World → Request → Server → ℕ → Bytes → Option Question → Served
fail w r s rcode source forwarded =
    send w r s
      (record { msg = record new_msg { rcode = rcode }; source = source; view = []; policy = [] })
      forwarded

-- The end of ServeDNS: Resolve, and the response on its way back.
unfoldable pub serve_forward :
    World → Request → Server → Bytes → Bytes → Question → Forwarder → Served
serve_forward w r s view policy q f =
    let (f', got) = resolve w.out f q (wants_dnssec r) in
    let s' = record s { forwarder = some f' } in
    elim got [
      | none ↦ fail w r s' rcode_server_failure (bytes "forward") (some q)
      | some m ↦
          send w r s'
            (record {
              msg = record m {
                authoritative = false;
                recursion_available = true;
                extra = elim r.edns [ none ↦ strip_opt m.extra | some _ ↦ m.extra ];
              };
              source = bytes "forward";
              view = view;
              policy = policy;
            })
            (some q)
    ]

unfoldable pub serve_unblocked : World → Request → Server → Bytes → Bytes → Question → Served
serve_unblocked w r s view policy q = elim s.forwarder [
  | none ↦ fail w r s rcode_server_failure (bytes "forward") none
  | some f ↦ serve_forward w r s view policy q f
]

unfoldable pub serve_blocked : World → Request → Server → Bytes → Question → Decision → Served
serve_blocked w r s view q d =
    send w r s
      (record {
        msg = record new_msg {
          rcode = rcode_name_error;
          recursion_available = true;
          ns = block_soa w.lib q.qname d.ttl ∷ [];
        };
        source = bytes "blocked";
        view = view;
        policy = d.policy;
      })
      none

-- A name that is not ours: the only place where filtering applies.
unfoldable pub serve_declined : World → Request → Server → Bytes → Question → Served
serve_declined w r s view q = elim s.policy [
  | none ↦ serve_unblocked w r s view [] q
  | some h ↦
      let (h', d) = decide_counted w.names h q.qname in
      let s' = record s { policy = some h' } in
      if d.blocked then serve_blocked w r s' view q d else serve_unblocked w r s' view d.policy q
]

abbrev pub view_of : Option Snapshot → Addr → Bytes
view_of none src = []
view_of (some snap) src = match_view snap.matcher src

unfoldable pub serve_allowed : World → Request → Server → Addr → Question → Served
serve_allowed w r s src q =
    let view = view_of s.holder.cur src in
    elim (answer w.lib s.auth s.holder.cur view q) [
      | declined ↦ serve_declined w r s view q
      | panicked ↦ record { server = s; reply = none; forwarded = none }
      | answered m ↦
          send w r s
            (record {
              msg = record m { authoritative = true };
              source = bytes "authoritative";
              view = view;
              policy = bytes "local";
            })
            none
    ]

unfoldable pub serve_question : World → Request → Server → Addr → Question → Served
serve_question w r s src q =
    if not (q.qclass == class_inet)
    then fail w r s rcode_refused (bytes "class") none
    else let (acl, allowed) = allow s.acl src w.out.now in
      let s' = record s { acl = acl } in
      if allowed then serve_allowed w r s' src q else fail w r s' rcode_refused (bytes "acl") none

unfoldable pub serve_dns : World → Request → Server → Addr → Served
serve_dns w r s src =
    if not (r.opcode == opcode_query)
    then fail w r s rcode_not_implemented (bytes "opcode") none
    else elim r.questions [
      | [] ↦ fail w r s rcode_format_error (bytes "question") none
      | q ∷ more ↦ elim more [
        | [] ↦ serve_question w r s src q
        | _ ∷ _ ↦ fail w r s rcode_format_error (bytes "question") none
      ]
    ]
