-- ===== src/Dns/Message.antt =====
-- The messages of github.com/miekg/dns, as far as internal/dnsserver reads and writes them.
use kydns_server.Prelude.{ℕ, Bool, false, Option, List, []}
use kydns_server.Text.{Bytes}
use kydns_server.Net.{Addr}

abbrev pub type_opt : ℕ
type_opt = 41

abbrev pub type_a : ℕ
type_a = 1

abbrev pub type_ns : ℕ
type_ns = 2

abbrev pub type_cname : ℕ
type_cname = 5

abbrev pub type_soa : ℕ
type_soa = 6

abbrev pub type_ptr : ℕ
type_ptr = 12

abbrev pub type_aaaa : ℕ
type_aaaa = 28

abbrev pub type_any : ℕ
type_any = 255

abbrev pub rcode_server_failure : ℕ
rcode_server_failure = 2

abbrev pub rcode_format_error : ℕ
rcode_format_error = 1

abbrev pub rcode_not_implemented : ℕ
rcode_not_implemented = 4

abbrev pub rcode_refused : ℕ
rcode_refused = 5

abbrev pub opcode_query : ℕ
opcode_query = 0

abbrev pub class_inet : ℕ
class_inet = 1

-- The numbers of record types, classes, opcodes and response codes.
abbrev pub rcode_name_error : ℕ
rcode_name_error = 3

pub record Soa : Type 0 where
  pub ns : Bytes
  pub mbox : Bytes
  pub serial : ℕ
  pub refresh : ℕ
  pub retry : ℕ
  pub expire : ℕ
  pub minttl : ℕ

-- What stands in a record: an SOA, the target of an NS, PTR or CNAME, an address that
-- `net.ParseIP` reads or nil, or anything else.
pub data Rdata : Type 0 where
  soa : Soa → Rdata
  target : Bytes → Rdata
  ip : Option Addr → Rdata
  other : Bytes → Rdata

-- A resource record: its header and its data.
pub record Rr : Type 0 where
  pub name : Bytes
  pub rrtype : ℕ
  pub ttl : ℕ
  pub rdata : Rdata

pub record Question : Type 0 where
  pub qname : Bytes
  pub qtype : ℕ
  pub qclass : ℕ

pub record Msg : Type 0 where
  pub rcode : ℕ
  pub authoritative : Bool
  pub recursion_available : Bool
  pub authenticated_data : Bool
  pub answer : List Rr
  pub ns : List Rr
  pub extra : List Rr

-- `new(dns.Msg)`
abbrev pub new_msg : Msg
new_msg = record {
  rcode = 0;
  authoritative = false;
  recursion_available = false;
  authenticated_data = false;
  answer = [];
  ns = [];
  extra = [];
}
