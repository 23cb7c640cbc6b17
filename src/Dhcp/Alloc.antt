-- ===== src/Dhcp/Alloc.antt =====
-- internal/dhcpd/alloc.go: which address a client gets. A method of `*Allocator` returns the new
-- allocator beside its result; the reading of the clock, `now`, is an argument. Times and durations
-- are nanoseconds. The mutex makes each method one step.
pub mod Commit
pub mod Invariant
pub mod Scan
pub mod Rules
pub mod Safety
pub mod Own
pub mod Names
pub mod Returns
pub mod History
use kydns_server.Prelude.{
  ℕ, zero, suc, ◌+◌, ◌-◌, ◌*◌, ◌^◌, String, Bool, true, false, ◌&&◌, ◌||◌, not, Option, none, some,
  List, [], ◌∷◌, ◌==◌, string_eq, same_text, ltb, leb, if◌then◌else◌, Map, lookup, insert, delete,
}
use kydns_server.Net.{Addr, Prefix, addr_eq, is_valid, is4, u32_of, next}

-- quarantineFor: ten minutes
abbrev pub quarantine_for : ℕ
quarantine_for = 10 * 60 * 10 ^ 9

pub record Lease : Type 0 where
  pub mac : String
  pub ip : Addr
  pub hostname : String
  pub expires : ℕ

pub record Config : Type 0 where
  pub subnet : Prefix
  pub start : Addr
  pub end : Addr
  pub host : Addr
  pub gateway : Addr
  pub lease_time : ℕ

pub record Allocator : Type 0 where
  pub cfg : Config
  pub by_mac : Map String Lease
  pub by_ip : Map Addr String
  pub reserved : Map String Addr
  pub reserved_ip : Map Addr String
  pub quarantine : Map Addr ℕ

-- NewAllocator
unfoldable pub new_allocator : Config → Allocator
new_allocator cfg = record {
  cfg = cfg;
  by_mac = [];
  by_ip = [];
  reserved = [];
  reserved_ip = [];
  quarantine = [];
}

-- the loop of Load
unfoldable pub load_leases : List Lease → Allocator → Allocator
load_leases [] a = a
load_leases (l ∷ ls) a =
    load_leases ls
      (record a { by_mac = insert l.mac l a.by_mac; by_ip = insert l.ip l.mac a.by_ip })

unfoldable pub load : List Lease → Allocator → Allocator
unfolding load_leases
load ls a = load_leases ls (record a { by_mac = []; by_ip = [] })

-- the loop of SetReservations, over the entries of the new map
unfoldable pub add_reservations : Map String Addr → Allocator → Allocator
add_reservations [] a = a
add_reservations ((mac, ip) ∷ r) a =
    add_reservations r
      (record a { reserved = insert mac ip a.reserved; reserved_ip = insert ip mac a.reserved_ip })

unfoldable pub set_reservations : Map String Addr → Allocator → Allocator
unfolding add_reservations
set_reservations r a = add_reservations r (record a { reserved = []; reserved_ip = [] })

unfoldable pub in_range : Allocator → Addr → Bool
in_range a ip =
    is4 ip
    && is4 a.cfg.start
    && is4 a.cfg.end
    && leb (u32_of a.cfg.start) (u32_of ip)
    && leb (u32_of ip) (u32_of a.cfg.end)

unfoldable pub protected : Allocator → Addr → Bool
protected a ip = ip == a.cfg.host || ip == a.cfg.gateway

unfoldable pub usable : Allocator → Addr → Bool
usable a ip = in_range a ip && not (protected a ip)

unfoldable pub held_by_another : Allocator → Addr → String → ℕ → Bool
held_by_another a ip mac now = elim (lookup ip a.by_ip) [
  | none ↦ false
  | some holder ↦
      if holder == mac
      then false
      else elim (lookup holder a.by_mac) [ none ↦ false | some l ↦ ltb now l.expires ]
]

-- a.quarantine[ip] is in the future
unfoldable pub quarantined : Allocator → Addr → ℕ → Bool
quarantined a ip now = elim (lookup ip a.quarantine) [ none ↦ false | some until ↦ ltb now until ]

-- a.reservedIP[ip] names another client
unfoldable pub reserved_to_another : Allocator → Addr → String → Bool
reserved_to_another a ip mac = elim (lookup ip a.reserved_ip) [
  | none ↦ false
  | some holder ↦ not (holder == mac)
]

unfoldable pub free : Allocator → Addr → String → ℕ → Bool
free a ip mac now =
    usable a ip
    && not (quarantined a ip now)
    && not (reserved_to_another a ip mac)
    && not (held_by_another a ip mac now)

-- the loop of nameTakenLocked over the values of byMAC
unfoldable pub claims_name : String → String → ℕ → Map String Lease → Bool
claims_name hostname mac now [] = false
claims_name hostname mac now ((_, l) ∷ m) =
    (not (l.mac == mac) && l.hostname == hostname && ltb now l.expires)
    || claims_name hostname mac now m

unfoldable pub name_taken : Allocator → String → String → ℕ → Bool
name_taken a hostname mac now = not (same_text hostname "") && claims_name hostname mac now a.by_mac

-- The arguments of `allocate`, with the clock's reading.
pub record Request : Type 0 where
  pub mac : String
  pub hostname : String
  pub requested : Addr
  pub ttl : ℕ
  pub tentative : Bool
  pub now : ℕ

-- The lease and `fresh`; `none` is a false `ok`.
abbrev pub Reply : Type 0
Reply = Option (Lease × Bool)

-- `held`: the client has a lease that it is still using.
unfoldable pub held : Allocator → Request → Bool
held a r = elim (lookup r.mac a.by_mac) [ none ↦ false | some prev ↦ ltb r.now prev.expires ]

-- The lease that `commit` writes: a tentative hold never weakens a live lease on the same address.
unfoldable pub committed_lease : Allocator → Request → Addr → Lease
committed_lease a r ip =
    let plain : Lease = record {
      mac = r.mac;
      ip = ip;
      hostname = r.hostname;
      expires = r.now + r.ttl;
    } in
    elim (lookup r.mac a.by_mac) [
      | none ↦ plain
      | some prev ↦
          if r.tentative && ltb r.now prev.expires && prev.ip == ip
          then record plain {
            hostname = prev.hostname;
            expires = if ltb (r.now + r.ttl) prev.expires then prev.expires else r.now + r.ttl;
          }
          else plain
    ]

-- `if holder, ok := a.byIP[ip]; ok && holder != mac { delete(a.byMAC, holder) }`
unfoldable pub evict_holder : Allocator → Request → Addr → Map String Lease
evict_holder a r ip = elim (lookup ip a.by_ip) [
  | none ↦ a.by_mac
  | some holder ↦ if holder == r.mac then a.by_mac else delete holder a.by_mac
]

-- `if hasPrev && prev.IP != ip { delete(a.byIP, prev.IP) }`
unfoldable pub drop_previous : Allocator → Request → Addr → Map Addr String
drop_previous a r ip = elim (lookup r.mac a.by_mac) [
  | none ↦ a.by_ip
  | some prev ↦ if prev.ip == ip then a.by_ip else delete prev.ip a.by_ip
]

unfoldable pub commit : Allocator → Request → Addr → Bool → Allocator × Reply
unfolding committed_lease evict_holder drop_previous
commit a r ip fresh =
    let l = committed_lease a r ip in
    (
      record a {
        by_mac = insert r.mac l (evict_holder a r ip);
        by_ip = insert ip r.mac (drop_previous a r ip);
      },
      some (l, fresh),
    )

abbrev pub previous_elsewhere : Allocator → Request → Addr → Bool
previous_elsewhere a r ip = elim (lookup r.mac a.by_mac) [
  | none ↦ false
  | some prev ↦ not (prev.ip == ip)
]

-- Rule 1, a reservation; `none` falls through to rule 2.
unfoldable pub reservation_rule : Allocator → Request → Option (Allocator × Reply)
reservation_rule a r = elim (lookup r.mac a.reserved) [
  | none ↦ none
  | some ip ↦
      if protected a ip
      then none
      else if not r.tentative
      then some (commit a r ip false)
      else if held_by_another a ip r.mac r.now
      then none
      else if held a r && previous_elsewhere a r ip
      then some
          (a, some (record { mac = r.mac; ip = ip; hostname = ""; expires = r.now + r.ttl }, false))
      else some (commit a r ip false)
]

-- `a.reservedIP[ip] == ""`, where a missing key reads as ""
unfoldable pub unreserved : Allocator → Addr → Bool
unreserved a ip = elim (lookup ip a.reserved_ip) [ none ↦ true | some holder ↦ same_text holder "" ]

-- Rule 2, a renewal, and the hold that keeps a client on its live lease.
unfoldable pub renewal_rule : Allocator → Request → Option (Allocator × Reply)
renewal_rule a r = elim (lookup r.mac a.by_mac) [
  | none ↦ none
  | some l ↦
      if usable a l.ip && unreserved a l.ip
      then some (commit a r l.ip (not (ltb r.now l.expires)))
      else if r.tentative && ltb r.now l.expires && not (protected a l.ip)
      then some (a, some (l, false))
      else none
]

-- Rule 4's loop: the lowest free address from `ip` on.
unfoldable pub scan : Allocator → String → ℕ → ℕ → Addr → Option Addr
scan a mac now zero ip = none
scan a mac now (suc fuel) ip =
    let rest = scan a mac now fuel (next ip) in
    if in_range a ip then if free a ip mac now then some ip else rest else none

-- One round for each address of the range, and one to leave it.
abbrev pub scan_fuel : Allocator → ℕ
scan_fuel a = u32_of a.cfg.end - u32_of a.cfg.start + 2

-- Rules 3 and 4.
unfoldable pub dynamic_rule : Allocator → Request → Allocator × Reply
dynamic_rule a r =
    if is_valid r.requested && free a r.requested r.mac r.now
    then commit a r r.requested true
    else elim (scan a r.mac r.now (scan_fuel a) a.cfg.start) [
      | none ↦ (a, none)
      | some ip ↦ commit a r ip true
    ]

-- The first claim of a hostname wins.
unfoldable pub with_name : Allocator → Request → Request
with_name a r = record r {
  hostname = if name_taken a r.hostname r.mac r.now then "" else r.hostname;
}

-- What follows where rule 1 falls through.
unfoldable pub later_rules : Allocator → Request → Allocator × Reply
later_rules a r = elim (renewal_rule a r) [ some out ↦ out | none ↦ dynamic_rule a r ]

unfoldable pub apply_rules : Allocator → Request → Allocator × Reply
apply_rules a r = elim (reservation_rule a r) [ some out ↦ out | none ↦ later_rules a r ]

unfoldable pub allocate : Allocator → Request → Allocator × Reply
allocate a r = apply_rules a (with_name a r)

-- Offer: a tentative hold, with no hostname.
abbrev pub offer_request : String → Addr → ℕ → ℕ → Request
offer_request mac requested hold now = record {
  mac = mac;
  hostname = "";
  requested = requested;
  ttl = hold;
  tentative = true;
  now = now;
}

unfoldable pub release : Allocator → String → Addr → Allocator × Bool
release a mac ip = elim (lookup mac a.by_mac) [
  | none ↦ (a, false)
  | some l ↦
      if l.ip == ip
      then (record a { by_ip = delete l.ip a.by_ip; by_mac = delete mac a.by_mac }, true)
      else (a, false)
]

abbrev holder_of : Allocator → Addr → String
holder_of a ip = elim (lookup ip a.by_ip) [ none ↦ "" | some mac ↦ mac ]

unfoldable pub decline : Allocator → String → Addr → ℕ → Allocator × Bool
decline a mac ip now = if same_text mac "" || not (holder_of a ip == mac) then (a, false) else (
  record a {
    by_mac = delete mac a.by_mac;
    by_ip = delete ip a.by_ip;
    quarantine =
        if in_range a ip then insert ip (now + quarantine_for) a.quarantine else a.quarantine;
  },
  true,
)

unfoldable pub quarantine_ip : Allocator → Addr → ℕ → Allocator
quarantine_ip a ip now = record a { quarantine = insert ip (now + quarantine_for) a.quarantine }

-- the loop of Leases
unfoldable pub unexpired : ℕ → Map String Lease → List Lease
unexpired now [] = []
unexpired now ((_, l) ∷ m) =
    let rest = unexpired now m in if ltb now l.expires then l ∷ rest else rest

unfoldable pub leases : Allocator → ℕ → List Lease
unfolding unexpired
leases a now = unexpired now a.by_mac
