-- ===== src/Dhcp/Reserve.antt =====
-- internal/dhcpd/reserve.go: from the services to the addresses that DHCP reserves.
pub mod OneToOne
pub mod Usable
mod Tests
use kydns_server.Prelude.{
  ℕ, ◌+◌, ◌-◌, ◌*◌, ◌/◌, ◌^◌, suc, Bool, true, false, ◌||◌, ◌&&◌, not, Option, none, some, List, [],
  ◌∷◌, ◌==◌, nat_eq, ltb, if◌then◌else◌, Map, insert, length,
}
use kydns_server.Text.{Bytes, bytes_eq, trim_space, to_lower}
use kydns_server.Net.{Addr, Prefix, invalid, v4, v6, addr_eq, masked, contains, unmap, is4, u32_of}

-- store.Address and store.Service, the fields that the reservations read.
pub record Address : Type 0 where
  pub address : Bytes

pub record Service : Type 0 where
  pub name : Bytes
  pub addresses : List Address
  pub mac : Bytes

-- The reasons, without their wording.
pub data Reason : Type 0 where
  network_or_broadcast : Addr → Reason
  no_address : Reason
  several_addresses : ℕ → Reason
  mac_claimed : ℕ → Reason
  address_claimed : ℕ → Addr → Reason

pub record ReservationProblem : Type 0 where
  pub service : Bytes
  pub mac : Bytes
  pub reason : Reason

-- `why` is none where the source has "".
pub record Claim : Type 0 where
  pub name : Bytes
  pub mac : Bytes
  pub addr : Addr
  pub why : Option Reason

-- The last address of an IPv4 subnet; the zero value for another.
unfoldable pub broadcast_of : Prefix → Addr
broadcast_of p = elim p.addr [
  | invalid ↦ invalid
  | v4 n ↦ v4 (n / 2 ^ (32 - p.bits) * 2 ^ (32 - p.bits) + (2 ^ (32 - p.bits) - 1))
  | v6 n z ↦ invalid
]

unfoldable pub member : Addr → List Addr → Bool
member a [] = false
member a (b ∷ bs) = b == a || member a bs

-- `seen[a] = true`, on the keys of the map
unfoldable pub add_seen : Addr → List Addr → List Addr
add_seen a seen = if member a seen then seen else a ∷ seen

-- The switch over the number of addresses seen.
unfoldable pub judge : Prefix → Bytes → Bytes → List Addr → Claim
judge subnet name mac [] = record { name = name; mac = mac; addr = invalid; why = some no_address }
judge subnet name mac (a ∷ []) = record {
  name = name;
  mac = mac;
  addr = a;
  why =
      if a == (masked subnet).addr || a == broadcast_of subnet
      then some (network_or_broadcast a)
      else none;
}
judge subnet name mac (a ∷ b ∷ seen) = record {
  name = name;
  mac = mac;
  addr = invalid;
  why = some (several_addresses (length (a ∷ b ∷ seen)));
}

-- `net.ParseMAC` followed by String, and `netip.ParseAddr`.
pub record Parsers : Type 0 where
  pub parse_mac : Bytes → Option Bytes
  pub parse_addr : Bytes → Option Addr

-- normalizeMAC, of server.go
unfoldable pub normalize_mac : Parsers → Bytes → Bytes
normalize_mac parsers s =
    let t = trim_space s in elim (parsers.parse_mac t) [ some mac ↦ mac | none ↦ to_lower t ]

module _ (parsers : Parsers) (subnet : Prefix) where
  -- The loop over the addresses of a service.
  unfoldable pub collect_seen : List Address → List Addr → List Addr
  collect_seen [] seen = seen
  collect_seen (a ∷ more) seen = elim (parsers.parse_addr a.address) [
    | none ↦ collect_seen more seen
    | some addr ↦
        collect_seen more
          (if contains subnet (unmap addr) then add_seen (unmap addr) seen else seen)
  ]

  -- The first loop: a claim for each service with a MAC.
  unfoldable pub claims_of : List Service → List Claim
  claims_of [] = []
  claims_of (svc ∷ svcs) =
      let rest = claims_of svcs in
      let mac = normalize_mac parsers svc.mac in
      if mac == [] then rest else judge subnet svc.name mac (collect_seen svc.addresses []) ∷ rest

-- byMAC[mac], a count over the claims
unfoldable pub by_mac : Bytes → List Claim → ℕ
by_mac mac [] = 0
by_mac mac (c ∷ cs) = let rest = by_mac mac cs in if c.mac == mac then suc rest else rest

-- The second loop, which marks the claims of a MAC that others claim too.
unfoldable pub mark_mac : List Claim → Claim → Claim
mark_mac all c =
    if ltb 1 (by_mac c.mac all) then record c { why = some (mac_claimed (by_mac c.mac all)) } else c

unfoldable pub mark_macs : List Claim → List Claim → List Claim
mark_macs all [] = []
mark_macs all (c ∷ cs) = mark_mac all c ∷ mark_macs all cs

abbrev pub standing : Claim → Bool
standing c = elim c.why [ none ↦ true | some _ ↦ false ]

-- byAddr[addr], a count over the claims still standing
unfoldable pub by_addr : Addr → List Claim → ℕ
by_addr a [] = 0
by_addr a (c ∷ cs) = let rest = by_addr a cs in if standing c && c.addr == a then suc rest else rest

-- One round of the last loop.
unfoldable pub mark_addr : List Claim → Claim → Claim
mark_addr all c =
    if standing c && ltb 1 (by_addr c.addr all)
    then record c { why = some (address_claimed (by_addr c.addr all) c.addr) }
    else c

abbrev pub Out : Type 0
Out = Map Bytes Addr × List ReservationProblem

unfoldable pub resolve : List Claim → List Claim → Map Bytes Addr → Out
resolve all [] out = (out, [])
resolve all (c ∷ cs) out =
    let d = mark_addr all c in
    elim d.why [
      | none ↦ resolve all cs (insert d.mac d.addr out)
      | some why ↦
          let (reserved, problems) = resolve all cs out in
          (reserved, record { service = d.name; mac = d.mac; reason = why } ∷ problems)
    ]

unfoldable pub reservations : Parsers → Prefix → List Service → Out
reservations parsers subnet svcs =
    let claims = claims_of parsers subnet svcs in
    let marked = mark_macs claims claims in resolve marked marked []
