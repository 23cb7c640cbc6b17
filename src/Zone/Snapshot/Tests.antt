-- ===== src/Zone/Snapshot/Tests.antt =====
-- The snapshot of internal/zone/snapshot.go at concrete inputs: a lease, a service of the same name
-- with an address for one view, and a manual record.
use kydns_server.Prelude.{
  ltb, List, true, length, ◌≡◌, refl, arith, false, none, some, [], ◌∷◌, ◌==◌, if◌then◌else◌,
  lookup, insert, delete,
}
use native.Mathlib.Decide.{ℕ_discrete}
use kydns_server.Text.{bytes_eq, Bytes-discrete, bytes, to_lower, trim_last, has_suffix, text_less}
use kydns_server.Net.{v4, Addr-discrete, Prefix-discrete}
use kydns_server.Zone.Matcher.{
  new_matcher, claim, collect_subnets, collect_views, entry_less, insert_entry, sort_entries,
  insert_text, sort_texts,
}
use kydns_server.Zone.Names.{qualify, in_zones, decimal, hex_digit, nibbles, arpa_name}
use kydns_server.Zone.Index.{
  Rr, Index, Input, Parsers, built, tagged, pick, addr_type, address_rrs, write_reverse,
  write_lease, write_leases, write_names, write_addresses, answer_of, service_names, write_service,
  write_services, known, records_at, write_record, write_records, has_cname, has_addr, conflict,
  discovered, build_index,
}
use kydns_server.Zone.Index.Exclusive.{IsExclusive, build_index-IsExclusive}
use kydns_server.Zone.Index.Manual.{manual_at}
use kydns_server.Zone.Snapshot.{
  Snapshot, build_views, build, index_of, lookup_records, lookup_ptr, has_name,
}
use kydns_server.Zone.Holder.Serials.{Shows, run-generation}
use kydns_server.Zone.Holder.{
  Holder, rebuild, reserve, publish, Step, starts, finishes, take_at, step, run, reserved_count,
}
use kydns_server.Zone.Snapshot.Answers.{IndexFor, serving_view, target_at, lookup_records-IndexFor}

abbrev parsers : Parsers
parsers = record {
  parse_prefix = λ s.
      if s == bytes "10.0.7.0/24" then some (record { addr = v4 0x0A000700; bits = 24 }) else none;
  parse_addr = λ s.
      if s == bytes "10.0.0.5"
      then some (v4 0x0A000005)
      else if s == bytes "10.0.7.5"
      then some (v4 0x0A000705)
      else none;
}

abbrev input : Input
input = record {
  views = record { name = bytes "vpn"; subnets = bytes "10.0.7.0/24" ∷ [] } ∷ [];
  services =
      record {
        name = bytes "nas";
        addresses =
            record { address = bytes "10.0.0.5"; view = [] }
            ∷ record { address = bytes "10.0.7.5"; view = bytes "vpn" }
            ∷ [];
        aliases = bytes "files" ∷ [];
        proxy_address = [];
        route_via_proxy = false;
      }
      ∷ [];
  records =
      record {
        name = bytes "Files.home.";
        rrtype = bytes "CNAME";
        value = bytes "nas.home.";
        view = [];
      }
      ∷ [];
  leases = record { hostname = bytes "nas"; address = bytes "10.0.0.9" } ∷ [];
  zone = bytes "home.";
  reverse_zones = record { addr = v4 0x0A000000; bits = 8 } ∷ [];
  generation = 3;
}

program : Unit {0}
unfolding new_matcher claim collect_subnets collect_views entry_less insert_entry sort_entries
    insert_text sort_texts text_less trim_last has_suffix qualify in_zones decimal hex_digit nibbles
    arpa_name tagged pick addr_type address_rrs write_reverse write_lease write_leases write_names
    write_addresses answer_of service_names write_service write_services known write_record
    write_records has_cname has_addr conflict discovered build_index build_views build index_of
    lookup_records lookup_ptr has_name manual_at lookup insert delete Bytes-discrete ℕ_discrete
    Addr-discrete Prefix-discrete
program = tt

abbrev nas : Rr
nas = record { name = bytes "nas.home."; rrtype = bytes "A"; value = bytes "10.0.0.5" }

abbrev files : Rr
files = record { name = bytes "files.home."; rrtype = bytes "CNAME"; value = bytes "nas.home." }

abbrev default_index : Index
default_index = record {
  forward = (bytes "files.home.", files ∷ []) ∷ (bytes "nas.home.", nas ∷ []) ∷ [];
  reverse = (bytes "5.0.0.10.in-addr.arpa.", bytes "nas.home.") ∷ [];
}

built_index : build_index parsers input [] (bytes "home.") ≡ built default_index
unfolding program
built_index = refl

build_index-IsExclusive_example : IsExclusive (files ∷ [])
unfolding program
build_index-IsExclusive_example =
    build_index-IsExclusive parsers input [] (bytes "home.") default_index (bytes "files.home.")
      (files ∷ []) built_index refl

abbrev vpn_nas : Rr
vpn_nas = record { name = bytes "nas.home."; rrtype = bytes "A"; value = bytes "10.0.7.5" }

abbrev vpn_index : Index
vpn_index = record {
  forward = (bytes "files.home.", files ∷ []) ∷ (bytes "nas.home.", vpn_nas ∷ []) ∷ [];
  reverse = (bytes "5.7.0.10.in-addr.arpa.", bytes "nas.home.") ∷ [];
}

abbrev snap : Snapshot
snap = record {
  generation = 3;
  matcher = record {
    entries =
        record { prefix = record { addr = v4 0x0A000700; bits = 24 }; view = bytes "vpn" } ∷ [];
    names = bytes "vpn" ∷ [];
  };
  views = (bytes "vpn", vpn_index) ∷ ([], default_index) ∷ [];
  zone = bytes "home.";
  reverse_zones = input.reverse_zones;
}

built-snap : build parsers input ≡ built snap
unfolding program
built-snap = refl

reverse_name :
    lookup_ptr snap (bytes "vpn") (bytes "5.7.0.10.IN-ADDR.ARPA.") ≡ some (bytes "nas.home.")
unfolding program
reverse_name = refl

no_such_name : has_name snap (bytes "vpn") (bytes "tv.home.") ≡ some false
unfolding program
no_such_name = refl

lookup_records-IndexFor_example :
    (idx : Index) × IndexFor parsers input
      (serving_view snap.matcher.names (bytes "vpn"))
      snap.zone
      idx
    × (lookup_records snap (bytes "vpn") (bytes "NAS.home.")
        ≡ some (records_at (to_lower (bytes "NAS.home.")) idx.forward))
    × (lookup_ptr snap (bytes "vpn") (bytes "NAS.home.")
        ≡ some (target_at (to_lower (bytes "NAS.home.")) idx.reverse))
    × (has_name snap (bytes "vpn") (bytes "NAS.home.")
        ≡ some (ltb 0 (length (records_at (to_lower (bytes "NAS.home.")) idx.forward))))
lookup_records-IndexFor_example =
    lookup_records-IndexFor parsers input snap (bytes "vpn") (bytes "NAS.home.") built-snap

-- A bare name that ends in the letters of the zone is taken for a qualified one.
wlan : qualify (bytes "wlan") (bytes "lan.") ≡ bytes "wlan."
unfolding program
wlan = refl

abbrev serving : Holder
serving = record { cur = some snap; gen = 3 }

-- Of two calls that overlap, the one that started first ends last, and its serial is shown.
abbrev overlapping : List Step
overlapping = starts (some input) ∷ starts none ∷ starts (some input) ∷ finishes 0 ∷ finishes 0 ∷ []

earlier_shown :
    (run parsers (record { holder = serving; waiting = [] }) overlapping).holder.cur
    ≡ some (record snap { generation = 4 })
unfolding program run step reserve publish take_at
earlier_shown = refl

after_both :
    build parsers (record input { generation = 6 }) ≡ built (record snap { generation = 6 })
unfolding program
after_both = refl

run-generation_example :
    let c = run parsers (record { holder = serving; waiting = [] }) overlapping in
    (c.holder.gen ≡ 5)
    × Shows (some snap) 3 c.holder
    × (rebuild parsers c.holder (some input)
        ≡ (record { cur = some (record snap { generation = 6 }); gen = 6 }, true))
unfolding reserved_count
run-generation_example =
    run-generation parsers serving overlapping input (record snap { generation = 6 }) (omega arith)
      after_both
