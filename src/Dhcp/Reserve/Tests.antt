-- ===== src/Dhcp/Reserve/Tests.antt =====
-- The reservations of internal/dhcpd/reserve.go at concrete inputs: two services of one subnet, the
-- second with an address outside of it as well; and a host name that a client sent.
use kydns_server.Prelude.{
  ◌≡◌, refl, none, some, List, [], ◌∷◌, ◌==◌, if◌then◌else◌, lookup, insert, delete,
}
use native.Mathlib.Decide.{ℕ_discrete}
use kydns_server.Text.{bytes_eq, Bytes-discrete, bytes, trim_space, trim_left, trim_right}
use kydns_server.Net.{Prefix, v4, Addr-discrete}
use kydns_server.Dhcp.Reserve.{
  Service, Parsers, normalize_mac, broadcast_of, member, add_seen, judge, collect_seen, claims_of,
  by_mac, mark_mac, mark_macs, by_addr, mark_addr, resolve, reservations,
}
use kydns_server.Dhcp.Reserve.OneToOne.{reservations_one_to_one}

abbrev parsers : Parsers
parsers = record {
  parse_mac = λ s. none;
  parse_addr = λ s.
      if s == bytes "10.0.0.5"
      then some (v4 0x0A000005)
      else if s == bytes "10.0.0.6"
      then some (v4 0x0A000006)
      else none;
}

abbrev subnet : Prefix
subnet = record { addr = v4 0x0A000000; bits = 24 }

abbrev services : List Service
services =
    record {
      name = bytes "nas";
      addresses = record { address = bytes "10.0.0.5" } ∷ [];
      mac = bytes "AA";
    }
    ∷ record {
      name = bytes "tv";
      addresses =
          record { address = bytes "192.168.0.1" } ∷ record { address = bytes "10.0.0.6" } ∷ [];
      mac = bytes " bb";
    }
    ∷ []

program : Unit {0}
unfolding normalize_mac broadcast_of member add_seen judge collect_seen claims_of by_mac mark_mac
    mark_macs by_addr mark_addr resolve reservations lookup insert delete Addr-discrete
    Bytes-discrete ℕ_discrete trim_space trim_left trim_right
program = tt

reserved_tv : lookup (bytes "bb") (reservations parsers subnet services).0 ≡ some (v4 0x0A000006)
unfolding program
reserved_tv = refl

no_problem : (reservations parsers subnet services).1 ≡ []
unfolding program
no_problem = refl

reservations_one_to_one_example : bytes "bb" ≡ bytes "bb"
reservations_one_to_one_example =
    reservations_one_to_one parsers subnet services (bytes "bb") (bytes "bb") (v4 0x0A000006)
      reserved_tv reserved_tv
