-- ===== src/Dns/Authoritative.antt =====
-- internal/dnsserver/auth.go: authoritative answers from the snapshot of the zone. The fields are
-- atomics, which Answer reads once. The header fields of a message that SetRcode copies from the
-- request are left out.
pub mod Arpa
pub mod Replies
pub mod Chase
use kydns_server.Prelude.{
  ℕ, zero, suc, ◌+◌, ◌-◌, ◌*◌, ◌/◌, ◌%◌, ◌^◌, ◌≤◌, ◌<◌, ◌≡◌, ◌≢◌, ◌↔◌, ◌⊎◌, inl, inr, refl, sym, ap,
  ◌∙◌, subst, String, Bool, true, false, ◌||◌, ◌&&◌, not, Option, none, some, List, [], ◌∷◌, ◌++◌,
  map, ◌==◌, nat_eq, string_eq, same_text, leb, ltb, if◌then◌else◌, length, is_empty, Map, lookup,
  insert, delete, size, lookup-insert, lookup-delete, arith, Bool-cases, Option-cases,
}
use kydns_server.Text.{
  Bytes, bytes_eq, bytes, to_lower, trim_space, trim_last, has_prefix, has_suffix, contains_byte,
  split, join, trim_suffix,
}
use kydns_server.Net.{Addr, Prefix, masked, contains}
use kydns_server.Zone.Index.{Rr as ZoneRr}
use kydns_server.Zone.Snapshot.{Snapshot, lookup_records, lookup_ptr}
use kydns_server.Dns.Message.{
  Rr, Soa, soa, target, ip, Question, Msg, new_msg, rcode_name_error, type_a, type_ns, type_cname,
  type_soa, type_ptr, type_aaaa, type_any,
}
use kydns_server.Dns.Authoritative.Arpa.{addr_from_arpa}

-- Code that is not the program's: `dns.Fqdn`, `netip.ParseAddr`, `net.ParseIP`.
pub record DnsLib : Type 0 where
  pub fqdn : Bytes → Bytes
  pub parse_addr : Bytes → Option Addr
  pub parse_ip : Bytes → Option Addr

pub record Authoritative : Type 0 where
  pub zone : Bytes
  pub ttl : ℕ
  pub reverse_zones : List Prefix

abbrev pub cname_chase_depth : ℕ
cname_chase_depth = 8

unfoldable pub set_zone : DnsLib → Bytes → Authoritative → Authoritative
set_zone lib zone a = record a { zone = to_lower (lib.fqdn zone) }

unfoldable pub set_ttl : ℕ → Authoritative → Authoritative
set_ttl ttl a = record a { ttl = ttl % 2 ^ 32 }

unfoldable pub set_reverse_zones : List Prefix → Authoritative → Authoritative
set_reverse_zones z a = record a { reverse_zones = map masked z }

unfoldable pub new_authoritative : DnsLib → Bytes → ℕ → List Prefix → Authoritative
unfolding set_zone set_ttl set_reverse_zones
new_authoritative lib zone ttl reverse =
    set_reverse_zones reverse
      (set_ttl ttl (set_zone lib zone (record { zone = []; ttl = 0; reverse_zones = [] })))

unfoldable pub in_reverse : List Prefix → Addr → Bool
in_reverse [] addr = false
in_reverse (p ∷ ps) addr = contains p addr || in_reverse ps addr

unfoldable pub owns_reverse : DnsLib → List Prefix → Bytes → Bool
owns_reverse lib zones n =
    if has_suffix n (bytes ".in-addr.arpa.") || has_suffix n (bytes ".ip6.arpa.")
    then elim (addr_from_arpa lib.parse_addr n) [ none ↦ false | some addr ↦ in_reverse zones addr ]
    else false

unfoldable pub owns : DnsLib → Authoritative → Bytes → Bool
owns lib a qname =
    let n = to_lower (lib.fqdn qname) in
    if not (a.zone == []) && (n == a.zone || has_suffix n (b'.' ∷ a.zone))
    then true
    else owns_reverse lib a.reverse_zones n

unfoldable pub apex_soa : Authoritative → ℕ → Rr
apex_soa a serial = record {
  name = a.zone;
  rrtype = type_soa;
  ttl = a.ttl;
  rdata = soa (record {
    ns = bytes "ns." ++ a.zone;
    mbox = bytes "hostmaster." ++ a.zone;
    serial = serial;
    refresh = 3600;
    retry = 600;
    expire = 604800;
    minttl = a.ttl;
  });
}

-- toRR; none is nil
unfoldable pub to_rr : DnsLib → ZoneRr → ℕ → ℕ → Option Rr
to_rr lib rr qtype ttl =
    if rr.rrtype == bytes "A"
    then if qtype == type_a || qtype == type_any
      then some (record {
        name = rr.name;
        rrtype = type_a;
        ttl = ttl;
        rdata = ip (lib.parse_ip rr.value);
      })
      else none
    else if rr.rrtype == bytes "AAAA"
    then if qtype == type_aaaa || qtype == type_any
      then some (record {
        name = rr.name;
        rrtype = type_aaaa;
        ttl = ttl;
        rdata = ip (lib.parse_ip rr.value);
      })
      else none
    else none

-- The loop of Answer over the records.
unfoldable pub convert : DnsLib → ℕ → ℕ → List ZoneRr → List Rr
convert lib qtype ttl [] = []
convert lib qtype ttl (rr ∷ rrs) =
    let rest = convert lib qtype ttl rrs in
    elim (to_rr lib rr qtype ttl) [ none ↦ rest | some r ↦ r ∷ rest ]

abbrev pub cname_rr : DnsLib → Bytes → Bytes → ℕ → Rr
cname_rr lib name value ttl = record {
  name = name;
  rrtype = type_cname;
  ttl = ttl;
  rdata = target (lib.fqdn value);
}

abbrev pub is_cname : ZoneRr → Bool
is_cname rr = rr.rrtype == bytes "CNAME"

-- The loop of chase over the records of the target: a CNAME is followed by `follow`, and ends the
-- loop.
unfoldable pub chase_records :
    DnsLib → ℕ → ℕ → (Bytes → Option (List Rr)) → List ZoneRr → Option (List Rr)
chase_records lib qtype ttl follow [] = some []
chase_records lib qtype ttl follow (rr ∷ rrs) =
    let rest = chase_records lib qtype ttl follow rrs in
    if is_cname rr then follow rr.value else elim rest [
      | none ↦ none
      | some out ↦ elim (to_rr lib rr qtype ttl) [ none ↦ some out | some r ↦ some (r ∷ out) ]
    ]

-- chase, with the rounds that are left of cnameChaseDepth; `none` is the panic on a nil index.
unfoldable pub chase :
    DnsLib → Authoritative → Snapshot → Bytes → ℕ → ℕ → Bytes → Bytes → Option (List Rr)
chase lib a snap view qtype zero name value = some (cname_rr lib name value a.ttl ∷ [])
chase lib a snap view qtype (suc left) name value =
    let follow = chase lib a snap view qtype left (lib.fqdn value) in
    if qtype == type_cname || not (owns lib a value)
    then some (cname_rr lib name value a.ttl ∷ [])
    else elim (lookup_records snap view (lib.fqdn value)) [
      | none ↦ none
      | some rrs ↦ elim (chase_records lib qtype a.ttl follow rrs) [
        | none ↦ none
        | some out ↦ some (cname_rr lib name value a.ttl ∷ out)
      ]
    ]

-- A name with no record, and a name with none of the type.
abbrev pub name_error : Authoritative → Snapshot → Msg
name_error a snap = record new_msg {
  rcode = rcode_name_error;
  authoritative = true;
  ns = apex_soa a snap.generation ∷ [];
}

abbrev pub no_data : Authoritative → Snapshot → Msg
no_data a snap = record new_msg { authoritative = true; ns = apex_soa a snap.generation ∷ [] }

abbrev pub with_answer : List Rr → Msg
with_answer rrs = record new_msg { authoritative = true; answer = rrs }

unfoldable pub answer_apex : Authoritative → Snapshot → ℕ → Msg
answer_apex a snap qtype =
    if qtype == type_soa
    then with_answer (apex_soa a snap.generation ∷ [])
    else if qtype == type_ns
    then with_answer (
        record {
          name = a.zone;
          rrtype = type_ns;
          ttl = a.ttl;
          rdata = target (bytes "ns." ++ a.zone);
        }
        ∷ [])
    else no_data a snap

unfoldable pub answer_ptr : DnsLib → Authoritative → Snapshot → Bytes → Bytes → Option Msg
answer_ptr lib a snap view name = elim (lookup_ptr snap view name) [
  | none ↦ none
  | some host ↦
      if host == []
      then some (name_error a snap)
      else some (
          with_answer (
            record { name = name; rrtype = type_ptr; ttl = a.ttl; rdata = target (lib.fqdn host) }
            ∷ []))
]

-- The records of a name that has some.
unfoldable pub answer_records :
    DnsLib → Authoritative → Snapshot → Bytes → Bytes → ℕ → ZoneRr → List ZoneRr → Option Msg
answer_records lib a snap view name qtype rr rrs =
    if is_cname rr
    then elim (chase lib a snap view qtype cname_chase_depth name rr.value) [
      | none ↦ none
      | some out ↦ some (with_answer out)
    ]
    else elim (convert lib qtype a.ttl (rr ∷ rrs)) [
      | [] ↦ some (no_data a snap)
      | r ∷ rest ↦ some (with_answer (r ∷ rest))
    ]

unfoldable pub answer_name : DnsLib → Authoritative → Snapshot → Bytes → Bytes → ℕ → Option Msg
answer_name lib a snap view name qtype = elim (lookup_records snap view name) [
  | none ↦ none
  | some [] ↦ some (name_error a snap)
  | some (rr ∷ rrs) ↦ answer_records lib a snap view name qtype rr rrs
]

-- Answer of an owned name; `none` is the panic.
unfoldable pub answer_owned : DnsLib → Authoritative → Snapshot → Bytes → Question → Option Msg
answer_owned lib a snap view q =
    let name = to_lower (lib.fqdn q.qname) in
    if name == a.zone
    then some (answer_apex a snap q.qtype)
    else if q.qtype == type_ptr
    then answer_ptr lib a snap view name
    else answer_name lib a snap view name q.qtype

-- What Answer does: nil, a message, or the panic on a nil index.
pub data Answered : Type 0 where
  declined : Answered
  answered : Msg → Answered
  panicked : Answered

unfoldable pub answer : DnsLib → Authoritative → Option Snapshot → Bytes → Question → Answered
answer lib a none view q = declined
answer lib a (some snap) view q =
    if owns lib a q.qname
    then elim (answer_owned lib a snap view q) [ none ↦ panicked | some m ↦ answered m ]
    else declined
