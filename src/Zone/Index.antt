-- ===== src/Zone/Index.antt =====
-- internal/zone/snapshot.go: the records and reverse names of one view, from the leases, the services
-- and the manual records. The warnings are left out, with the maps that only they read.
pub mod Manual
pub mod Exclusive
use kydns_server.Prelude.{
  ℕ, zero, suc, ◌+◌, ◌*◌, ◌-◌, ◌/◌, ◌%◌, ◌^◌, Bool, true, false, ◌||◌, ◌&&◌, not, Option, none,
  some, List, [], ◌∷◌, ◌++◌, ◌==◌, nat_eq, ltb, if◌then◌else◌, Map, lookup, insert, length,
  is_empty, map,
}
use kydns_server.Text.{Bytes, bytes_eq, bytes, to_lower, trim_last, has_suffix}
use kydns_server.Net.{Addr, Prefix, invalid, v4, v6, contains, unmap, is4}
use kydns_server.Zone.Matcher.{View, Matcher, MatcherError, ok, err, new_matcher}
use kydns_server.Zone.Names.{qualify, in_zones, arpa_name}

-- RR
pub record Rr : Type 0 where
  pub name : Bytes
  pub rrtype : Bytes
  pub value : Bytes

pub record Index : Type 0 where
  pub forward : Map Bytes (List Rr)
  pub reverse : Map Bytes Bytes

pub record Lease : Type 0 where
  pub hostname : Bytes
  pub address : Bytes

-- store.Address, store.Service and store.Record, the fields that the zone reads.
pub record Address : Type 0 where
  pub address : Bytes
  pub view : Bytes

pub record Service : Type 0 where
  pub name : Bytes
  pub addresses : List Address
  pub aliases : List Bytes
  pub proxy_address : Bytes
  pub route_via_proxy : Bool

pub record Record : Type 0 where
  pub name : Bytes
  pub rrtype : Bytes
  pub value : Bytes
  pub view : Bytes

pub record Input : Type 0 where
  pub views : List View
  pub services : List Service
  pub records : List Record
  pub leases : List Lease
  pub zone : Bytes
  pub reverse_zones : List Prefix
  pub generation : ℕ

-- `netip.ParsePrefix` and `netip.ParseAddr`.
pub record Parsers : Type 0 where
  pub parse_prefix : Bytes → Option Prefix
  pub parse_addr : Bytes → Option Addr

pub data BuildError : Type 0 where
  bad_views : MatcherError → BuildError
  cname_conflict : Bytes → Bytes → BuildError

pub data Result (A : Type 0) : Type 0 where
  built : A → Result A
  failed : BuildError → Result A

module _ {A : Type 0} (tag_of : A → Bytes) where
  unfoldable pub tagged : Bytes → List A → List A
  tagged view [] = []
  tagged view (v ∷ vs) = let rest = tagged view vs in if tag_of v == view then v ∷ rest else rest

  -- The view-tagged entries when any exist, otherwise the untagged ones.
  unfoldable pub pick : Bytes → List A → List A
  unfolding tagged
  pick view all =
      if view == [] || is_empty (tagged view all) then tagged [] all else tagged view all

module _ (parse_addr : Bytes → Option Addr) where
  unfoldable pub addr_type : Bytes → Bytes
  addr_type s = elim (parse_addr s) [
    | none ↦ bytes "AAAA"
    | some a ↦ if is4 a then bytes "A" else bytes "AAAA"
  ]

  unfoldable pub address_rrs : Bytes → List Address → List Rr
  unfolding addr_type
  address_rrs n addrs =
      map (λ a. record { name = n; rrtype = addr_type a.address; value = a.address }) addrs

  -- `idx.Reverse[arpaName(addr)] = name`, where the text is an address of a reverse zone
  unfoldable pub write_reverse : List Prefix → Bytes → Bytes → Map Bytes Bytes → Map Bytes Bytes
  write_reverse zones name s m = elim (parse_addr s) [
    | none ↦ m
    | some addr ↦ if in_zones addr zones then insert (arpa_name addr) name m else m
  ]

  unfoldable pub write_lease : Bytes → List Prefix → Lease → Index → Index
  write_lease zone zones l idx =
      let name = qualify l.hostname zone in
      record {
        forward =
            insert name
              (record { name = name; rrtype = addr_type l.address; value = l.address } ∷ [])
              idx.forward;
        reverse = write_reverse zones name l.address idx.reverse;
      }

  unfoldable pub write_leases : Bytes → List Prefix → List Lease → Index → Index
  write_leases zone zones [] idx = idx
  write_leases zone zones (l ∷ ls) idx = write_leases zone zones ls (write_lease zone zones l idx)

  unfoldable pub write_names : List Address → List Bytes → Map Bytes (List Rr) → Map Bytes (List Rr)
  write_names answer [] m = m
  write_names answer (n ∷ ns) m = write_names answer ns (insert n (address_rrs n answer) m)

  unfoldable pub write_addresses :
      List Prefix → Bytes → List Address → Map Bytes Bytes → Map Bytes Bytes
  write_addresses zones primary [] m = m
  write_addresses zones primary (a ∷ more) m =
      write_addresses zones primary more (write_reverse zones primary a.address m)

  -- The proxy, when the service is routed.
  unfoldable pub answer_of : Service → List Address → List Address
  answer_of svc addrs =
      if svc.route_via_proxy && not (svc.proxy_address == [])
      then record { address = svc.proxy_address; view = [] } ∷ []
      else addrs

  unfoldable pub service_names : Bytes → Service → List Bytes
  service_names zone svc = qualify svc.name zone ∷ map (λ alias. qualify alias zone) svc.aliases

  unfoldable pub write_service : Bytes → Bytes → List Prefix → Service → Index → Index
  write_service view zone zones svc idx =
      let addrs = pick (λ (a : Address). a.view) view svc.addresses in
      if is_empty addrs then idx else record {
        forward = write_names (answer_of svc addrs) (service_names zone svc) idx.forward;
        reverse = write_addresses zones (qualify svc.name zone) addrs idx.reverse;
      }

  unfoldable pub write_services : Bytes → Bytes → List Prefix → List Service → Index → Index
  write_services view zone zones [] idx = idx
  write_services view zone zones (s ∷ ss) idx =
      write_services view zone zones ss (write_service view zone zones s idx)

unfoldable pub known : Bytes → List Bytes → Bool
known n [] = false
known n (m ∷ ms) = m == n || known n ms

-- m[k], where a missing key reads as nil
abbrev pub records_at : Bytes → Map Bytes (List Rr) → List Rr
records_at n m = elim (lookup n m) [ none ↦ [] | some rrs ↦ rrs ]

abbrev pub manual_rr : Record → Rr
manual_rr r = record { name = to_lower r.name; rrtype = r.rrtype; value = to_lower r.value }

abbrev pub is_ptr : Record → Bool
is_ptr r = r.rrtype == bytes "PTR"

-- One round of the loop over the manual records, with the names claimed so far.
unfoldable pub write_record : Record → List Bytes × Index → List Bytes × Index
write_record r (claimed, idx) =
    let name = to_lower r.name in
    if is_ptr r
    then (claimed, record idx { reverse = insert name (to_lower r.value) idx.reverse })
    else if not (known name claimed)
    then (name ∷ claimed, record idx { forward = insert name (manual_rr r ∷ []) idx.forward })
    else (
      claimed,
      record idx {
        forward = insert name (records_at name idx.forward ++ manual_rr r ∷ []) idx.forward;
      },
    )

unfoldable pub write_records : List Record → List Bytes × Index → Index
write_records [] (claimed, idx) = idx
write_records (r ∷ rs) state = write_records rs (write_record r state)

unfoldable pub has_cname : List Rr → Bool
has_cname [] = false
has_cname (rr ∷ rrs) = rr.rrtype == bytes "CNAME" || has_cname rrs

unfoldable pub has_addr : List Rr → Bool
has_addr [] = false
has_addr (rr ∷ rrs) = not (rr.rrtype == bytes "CNAME") || has_addr rrs

-- The last loop: a name where a CNAME stands beside another record.
unfoldable pub conflict : Map Bytes (List Rr) → Option Bytes
conflict [] = none
conflict ((name, rrs) ∷ m) =
    if has_cname rrs && (has_addr rrs || ltb 1 (length rrs)) then some name else conflict m

-- The leases and services of a view, before the manual records.
unfoldable pub discovered : Parsers → Input → Bytes → Bytes → Index
discovered parsers i view zone =
    write_services parsers.parse_addr view zone i.reverse_zones i.services (
      write_leases parsers.parse_addr zone i.reverse_zones i.leases
        (record { forward = []; reverse = [] }))

unfoldable pub build_index : Parsers → Input → Bytes → Bytes → Result Index
build_index parsers i view zone =
    let idx =
      write_records (pick (λ (r : Record). r.view) view i.records)
        ([], discovered parsers i view zone) in
    elim (conflict idx.forward) [ some name ↦ failed (cname_conflict view name) | none ↦ built idx ]
