-- ===== src/Dhcp/Server.antt =====
-- internal/dhcpd/server.go: what the server does with a packet, and the table of leases of
-- internal/store/dhcplease.go. A packet is one step, with the clock's readings, the probe and the
-- answers of the database as arguments. A reply that cannot be built or written, and the log, are
-- left out. The notification of OnChange is a value of the result.
pub mod Packets
pub mod Answers
pub mod Probed
mod Tests
use kydns_server.Prelude.{
  ℕ, zero, suc, ◌+◌, ◌-◌, ◌*◌, ◌/◌, ◌%◌, ◌^◌, ◌≤◌, ◌<◌, ◌≡◌, ◌≢◌, ◌↔◌, ◌⊎◌, inl, inr, refl, sym, ap,
  ◌∙◌, subst, String, Bool, true, false, ◌||◌, ◌&&◌, not, Option, none, some, List, [], ◌∷◌, ◌++◌,
  map, ◌==◌, Eq, nat_eq, string_eq, same_text, leb, ltb, if◌then◌else◌, length, is_empty, Map,
  lookup, insert, delete, size, lookup-insert, lookup-delete, arith, Bool-cases, Option-cases,
}
use kydns_server.Text.{
  Bytes, bytes_eq, bytes, to_lower, trim_space, trim_last, has_prefix, has_suffix, contains_byte,
  split, join, trim_suffix,
}
use kydns_server.Net.{
  Addr, Prefix, addr_eq, invalid, v4, v6, unmap, is_valid, is_unspecified, contains,
}
use kydns_server.Dhcp.Alloc.{
  Allocator, Config, Lease, Request, allocate, offer_request, release, decline, quarantine_ip, load,
  leases,
}
use kydns_server.Dhcp.Reserve.{Parsers, normalize_mac}
use kydns_server.Dhcp.Hostname.{sanitize_hostname}

-- offerHold: sixty seconds
abbrev pub offer_hold : ℕ
offer_hold = 60 * 10 ^ 9

pub data MessageType : Type 0 where
  discover request decline_type release_type inform other_type : MessageType

-- A packet: the addresses are what `netip.AddrFromSlice` gives for its fields and options.
pub record Packet : Type 0 where
  pub xid : ℕ
  pub kind : MessageType
  pub chaddr : Bytes
  pub host_name : Bytes
  pub requested_ip : Option Addr
  pub client_ip : Option Addr
  pub server_id : Option Addr

-- A row of dhcp_leases; times are in seconds.
pub record Row : Type 0 where
  pub mac : String
  pub ip : Bytes
  pub hostname : String
  pub expires_at : ℕ
  pub last_seen : ℕ

pub record Server : Type 0 where
  pub addr : Addr
  pub cfg : Config
  pub dns : List Addr
  pub domain : Bytes
  pub alloc : Allocator
  pub rows : List Row
  pub ignored : List ℕ

-- What a call reads from outside. `text` is the string of some bytes; `show` and `parse` are
-- Addr.String and `netip.ParseAddr`; the last two tell whether a write to the database succeeds.
pub record World : Type 0 where
  pub macs : Parsers
  pub text : Bytes → String
  pub show : Addr → Bytes
  pub parse : Bytes → Option Addr
  pub in_use : Addr → Bool
  pub now : ℕ
  pub later : ℕ
  pub stores : Bool
  pub deletes : Bool

pub data ReplyType : Type 0 where
  offered acked nakked : ReplyType

-- The options of a reply that is not a NAK.
pub record Options : Type 0 where
  pub subnet_bits : ℕ
  pub lease_time : ℕ
  pub router : Option Addr
  pub dns : List Addr
  pub domain : Bytes

pub record Reply : Type 0 where
  pub kind : ReplyType
  pub server_id : Addr
  pub yours : Addr
  pub options : Option Options

pub record Handled : Type 0 where
  pub server : Server
  pub sent : Option Reply
  pub notified : Bool

-- ignoreXID, and the function that it returns
unfoldable pub ignore_xid : ℕ → Server → Server
ignore_xid xid s = record s { ignored = xid ∷ s.ignored }

unfoldable pub without_xid : ℕ → List ℕ → List ℕ
without_xid xid [] = []
without_xid xid (x ∷ xs) = let rest = without_xid xid xs in if x == xid then rest else x ∷ rest

unfoldable pub heed_xid : ℕ → Server → Server
unfolding without_xid
heed_xid xid s = record s { ignored = without_xid xid s.ignored }

unfoldable pub is_ignored : ℕ → List ℕ → Bool
is_ignored xid [] = false
is_ignored xid (x ∷ xs) = x == xid || is_ignored xid xs

-- PutDHCPLease: an upsert on either key
unfoldable pub clear_keys : Row → List Row → List Row
clear_keys l [] = []
clear_keys l (r ∷ rs) =
    let rest = clear_keys l rs in if r.ip == l.ip || r.mac == l.mac then rest else r ∷ rest

unfoldable pub put_row : Row → List Row → List Row
unfolding clear_keys
put_row l rs = l ∷ clear_keys l rs

-- DeleteDHCPLease
unfoldable pub delete_row : String → List Row → List Row
delete_row mac [] = []
delete_row mac (r ∷ rs) = let rest = delete_row mac rs in if r.mac == mac then rest else r ∷ rest

-- DeleteExpiredDHCPLeases
unfoldable pub unexpired_rows : ℕ → List Row → List Row
unexpired_rows now [] = []
unexpired_rows now (r ∷ rs) =
    let rest = unexpired_rows now rs in if leb r.expires_at now then rest else r ∷ rest

-- The loop of restore over the rows.
unfoldable pub parse_rows : (Bytes → Option Addr) → List Row → List Lease
parse_rows parse [] = []
parse_rows parse (r ∷ rs) =
    let rest = parse_rows parse rs in
    elim (parse r.ip) [
      | none ↦ rest
      | some ip ↦
          record { mac = r.mac; ip = ip; hostname = r.hostname; expires = r.expires_at * 10 ^ 9 }
          ∷ rest
    ]

unfoldable pub restore : World → Server → Server
unfolding parse_rows unexpired_rows
restore w s =
    let rows = unexpired_rows (w.now / 10 ^ 9) s.rows in
    record s { alloc = load (parse_rows w.parse rows) s.alloc; rows = rows }

-- The address of a field, if it names one.
unfoldable pub named : Option Addr → Option Addr
named none = none
named (some ip) = let a = unmap ip in if is_valid a && not (is_unspecified a) then some a else none

unfoldable pub asked_for : Packet → Addr
asked_for m = elim (named m.requested_ip) [
  | some a ↦ a
  | none ↦ elim (named m.client_ip) [ some a ↦ a | none ↦ invalid ]
]

abbrev pub requested_of : Packet → Addr
requested_of m = elim m.requested_ip [ none ↦ invalid | some ip ↦ unmap ip ]

-- toIPs
unfoldable pub valid_addrs : List Addr → List Addr
valid_addrs [] = []
valid_addrs (a ∷ as') = let rest = valid_addrs as' in if is_valid a then a ∷ rest else rest

unfoldable pub reply : Server → ReplyType → Addr → Reply
reply s kind yours = record {
  kind = kind;
  server_id = s.addr;
  yours = yours;
  options = some (record {
    subnet_bits = s.cfg.subnet.bits;
    lease_time = s.cfg.lease_time;
    router = if is_valid s.cfg.gateway then some s.cfg.gateway else none;
    dns = valid_addrs s.dns;
    domain = s.domain;
  });
}

unfoldable pub nak : Server → Reply
nak s = record { kind = nakked; server_id = s.addr; yours = invalid; options = none }

-- What follows when a new address answers the probe.
unfoldable pub offer_again : World → Server → String → Addr → Server × Option Lease
offer_again w s mac taken =
    let a = (release (quarantine_ip s.alloc taken w.later) mac taken).0 in
    let (a', got) = allocate a (offer_request mac invalid offer_hold w.later) in
    (record s { alloc = a' }, elim got [ none ↦ none | some (l, _) ↦ some l ])

-- allocate, for an OFFER
unfoldable pub offer_address : World → Server → String → Packet → Server × Option Lease
offer_address w s mac m =
    let (a, got) = allocate s.alloc (offer_request mac (requested_of m) offer_hold w.now) in
    elim got [
      | none ↦ (record s { alloc = a }, none)
      | some (l, fresh) ↦
          if fresh && w.in_use l.ip
          then offer_again w (record s { alloc = a }) mac l.ip
          else (record s { alloc = a }, some l)
    ]

abbrev pub ack_request : World → Server → String → Packet → Request
ack_request w s mac m = record {
  mac = mac;
  hostname = w.text (sanitize_hostname m.host_name);
  requested = requested_of m;
  ttl = s.cfg.lease_time;
  tentative = false;
  now = w.now;
}

unfoldable pub serve_offer : World → Server → String → Packet → Handled
serve_offer w s mac m =
    let (s', got) = offer_address w s mac m in
    elim got [
      | none ↦ record { server = s'; sent = none; notified = false }
      | some l ↦ record { server = s'; sent = some (reply s' offered l.ip); notified = false }
    ]

abbrev pub row_of : World → Lease → Row
row_of w l = record {
  mac = l.mac;
  ip = w.show l.ip;
  hostname = l.hostname;
  expires_at = l.expires / 10 ^ 9;
  last_seen = w.now / 10 ^ 9;
}

-- The lease that ack was given.
unfoldable pub grant : World → Server → Addr → Lease → Handled
grant w s asked l =
    if is_valid asked && not (l.ip == asked)
    then record { server = s; sent = some (nak s); notified = false }
    else record {
      server = record s { rows = if w.stores then put_row (row_of w l) s.rows else s.rows };
      sent = some (reply s acked l.ip);
      notified = true;
    }

unfoldable pub serve_ack : World → Server → String → Packet → Handled
serve_ack w s mac m =
    let asked = asked_for m in
    if is_valid asked && not (contains s.cfg.subnet asked)
    then record { server = s; sent = some (nak s); notified = false }
    else let (a, got) = allocate s.alloc (ack_request w s mac m) in
      elim got [
        | none ↦ record { server = record s { alloc = a }; sent = some (nak s); notified = false }
        | some (l, _) ↦ grant w (record s { alloc = a }) asked l
      ]

abbrev pub unchanged : Server → Handled
unchanged s = record { server = s; sent = none; notified = false }

-- The end of RELEASE and DECLINE.
abbrev pub dropped : World → Server → String → Allocator → Handled
dropped w s mac a = record {
  server = record s { alloc = a; rows = if w.deletes then delete_row mac s.rows else s.rows };
  sent = none;
  notified = true;
}

-- The packet names this server and an address to release.
unfoldable pub released_ip : Server → Packet → Option Addr
released_ip s m = elim m.client_ip [
  | none ↦ none
  | some ip ↦ elim m.server_id [
    | none ↦ none
    | some server ↦
        if is_unspecified ip || not (unmap server == s.addr) then none else some (unmap ip)
  ]
]

unfoldable pub serve_release : World → Server → String → Packet → Handled
serve_release w s mac m = elim (released_ip s m) [
  | none ↦ unchanged s
  | some ip ↦
      let (a, done) = release s.alloc mac ip in if done then dropped w s mac a else unchanged s
]

unfoldable pub serve_decline : World → Server → String → Packet → Handled
serve_decline w s mac m = elim m.requested_ip [
  | none ↦ unchanged s
  | some ip ↦
      let (a, done) = decline s.alloc mac (unmap ip) w.now in
      if done then dropped w s mac a else unchanged s
]

-- The switch of handle.
unfoldable pub serve_kind : World → Server → String → Packet → MessageType → Handled
serve_kind w s mac m discover = serve_offer w s mac m
serve_kind w s mac m request = serve_ack w s mac m
serve_kind w s mac m release_type = serve_release w s mac m
serve_kind w s mac m decline_type = serve_decline w s mac m
serve_kind w s mac m inform = record {
  server = s;
  sent = some (reply s acked invalid);
  notified = false;
}
serve_kind w s mac m other_type = unchanged s

unfoldable pub handle : World → Server → Packet → Handled
handle w s m =
    let mac = normalize_mac w.macs m.chaddr in
    if mac == [] || is_ignored m.xid s.ignored
    then unchanged s
    else serve_kind w s (w.text mac) m m.kind
