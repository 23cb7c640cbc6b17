-- ===== src/Registry/Writes/Tests.antt =====
-- Documents of internal/registry at concrete inputs: two services of the zone lan.
use kydns_server.Prelude.{◌≡◌, refl, true, false, some, [], ◌∷◌, nat_eq, string_eq}
use kydns_server.Text.{
  to_lower, to_upper, bytes_eq, bytes, trim_space, trim_last, has_suffix, contains_byte, split,
}
use native.Mathlib.Decide.{ℕ_discrete}
use kydns_server.Text.{Bytes-discrete, trim_left, trim_right, prepend}
use kydns_server.Policy.Normalize.{last_is}
use kydns_server.Registry.Validate.{
  normalize_fqdn, rune_allowed, runes_allowed, validate_label, validate_labels, validate_name,
}
use kydns_server.Registry.Writes.{
  View, Record, validate_view, check_subnets, validate_record, check_value, is_known, Parsers,
  Service, err, mac_duplicate, check_name, check_aliases, check_addresses, valid_mac, canonical_mac,
  check_proxy, validate_service, mac_taken, mac_clashes, check_views, check_services, check_records,
  check_all,
}
use kydns_server.Registry.Writes.Records.{AllViews, AllRecords}
use kydns_server.Registry.Writes.Unique.{AllServices, MacsDistinct, check_all-MacsDistinct}

program : Unit {0}
unfolding normalize_fqdn rune_allowed runes_allowed validate_label validate_labels validate_name
    check_name check_aliases check_addresses valid_mac canonical_mac check_proxy validate_service
    mac_taken mac_clashes check_views check_services check_records check_all validate_view
    check_subnets validate_record check_value is_known last_is to_lower to_upper trim_space
    trim_left trim_right trim_last contains_byte split prepend has_suffix Bytes-discrete ℕ_discrete
program = tt

-- Every text is an address, and a hardware address of six octets.
abbrev parsers : Parsers
parsers = record { is_address = λ s. true; parse_mac = λ s. some (s, 6); parse_cidr = λ s. some s }

abbrev nas : Service
nas = record {
  id = 0;
  name = bytes "nas";
  addresses = record { address = bytes "10.0.0.2"; view = [] } ∷ [];
  aliases = [];
  check_url = [];
  check_insecure = false;
  proxy_address = [];
  route_via_proxy = false;
  mac = bytes "aa";
}

abbrev tv : Service
tv = record nas { name = bytes "tv"; mac = [] }

abbrev office : View
office = record { name = bytes "office"; subnets = bytes "10.0.7.0/24" ∷ [] }

-- An alias that the view alone sees.
abbrev alias : Record
alias = record {
  name = bytes "files.lan.";
  rrtype = bytes "CNAME";
  value = bytes "nas.lan.";
  view = bytes "office";
}

check_all-MacsDistinct_example :
    AllViews parsers (office ∷ [])
    × AllServices parsers (bytes "office" ∷ []) (bytes "lan.") (nas ∷ tv ∷ [])
    × MacsDistinct (nas ∷ tv ∷ [])
    × AllRecords parsers (bytes "office" ∷ []) (bytes "lan.") (alias ∷ [])
unfolding program
check_all-MacsDistinct_example =
    check_all-MacsDistinct parsers (bytes "lan.") (office ∷ []) (nas ∷ tv ∷ []) (alias ∷ [])
      (office ∷ []) (nas ∷ tv ∷ []) (alias ∷ []) (refl, (refl, tt)) refl

-- Two reservations of one hardware address.
refused :
    check_all parsers (bytes "lan.") [] (nas ∷ record tv { mac = bytes " aa" } ∷ []) []
    ≡ err mac_duplicate
unfolding program
refused = refl
