-- ===== src/Settings/Tests.antt =====
-- The settings of internal/settings at concrete inputs.
use kydns_server.Prelude.{◌≡◌, ◌⊎◌, refl, true, false, none, some, [], ◌∷◌, ◌++◌, nat_eq, string_eq}
use kydns_server.Text.{
  bytes_eq, bytes, to_lower, trim_space, has_prefix, has_suffix, contains_byte, trim_suffix,
}
use native.Mathlib.Decide.{ℕ_discrete}
use kydns_server.Text.{
  Bytes-discrete, has_infix, after_last, trim_left, trim_right, trim_any, trim_any_left,
  trim_any_right,
}
use kydns_server.Net.{v4}
use kydns_server.Upstream.Parse.{host_and_port, host_port, parse_bare, parse, parse_all}
use kydns_server.Settings.Model.{Settings, no_settings}
use kydns_server.Settings.Validate.{
  Library, first_error, domain_label, domain_labels, label_runes, valid_domain_name, all_prefixes,
  validate_allow_query, validate_numbers, validate_dhcp, validate_stored,
}
use kydns_server.Settings.Validate.Sound.{IsSound, validate_stored-IsSound}
use kydns_server.Settings.Rename.{zone_suffix, rename_in_zone, move_name, rename_record}
use kydns_server.Settings.Service.{SetError, Service, write_row, set}
use kydns_server.Settings.Service.Accepted.{IsAccepted, set-IsAccepted}
use kydns_server.Settings.Service.Replica.{KeepsShared, set-KeepsShared}

-- Every text is the network 192.168.1.0/24, and every text an address.
abbrev lib : Library
lib = record {
  net = record {
    parse_url = λ s. none;
    split_host_port = λ s. none;
    parse_addr = λ s. some s;
    is_port = λ p. true;
    join_host_port = λ a p. a ++ b':' ∷ p;
  };
  parse_prefix = λ s. some (record { addr = v4 0xC0A80100; bits = 24 });
  show_prefix = λ p. bytes "192.168.1.0/24";
  parse_addr = λ s. none;
  is_domain_name = λ s. true;
  split_domain_name = λ s. s ∷ [];
  is_absolute = λ s. true;
}

abbrev wanted : Settings
wanted = record no_settings {
  private_domain = bytes "lan";
  upstreams = bytes "9.9.9.9" ∷ [];
  allow_query = bytes "192.168.1.7/24" ∷ [];
  ttl = 60;
  cache_min_ttl = 1;
  cache_max_ttl = 3600;
  negative_max_ttl = 300;
  cache_entries = 1000;
  discovery_interval = 30;
  health_interval = 30;
  health_timeout = 5;
  health_workers = 8;
}

program : Unit {0}
unfolding validate_stored first_error valid_domain_name domain_labels domain_label label_runes
    all_prefixes validate_allow_query validate_numbers validate_dhcp parse_all parse parse_bare
    host_port host_and_port has_infix has_prefix has_suffix after_last trim_space trim_left
    trim_right trim_any trim_any_left trim_any_right contains_byte Bytes-discrete ℕ_discrete
    zone_suffix rename_in_zone move_name trim_suffix to_lower
program = tt

validate_stored-IsSound_example : IsSound lib wanted
unfolding program
validate_stored-IsSound_example = validate_stored-IsSound lib wanted refl

-- A name of the old zone moves, and one that only ends alike does not.
moves :
    rename_in_zone (bytes "Nas.home") (zone_suffix (bytes "home")) (zone_suffix (bytes "lan"))
    ≡ some (bytes "nas.lan.")
unfolding program
moves = refl

stays :
    rename_in_zone (bytes "nas.myhome") (zone_suffix (bytes "home")) (zone_suffix (bytes "lan"))
    ≡ none
unfolding program
stays = refl

abbrev service : Service
service = record {
  row = some (record wanted { private_domain = bytes "home" });
  records =
      record {
        name = bytes "nas.home.";
        rrtype = bytes "A";
        value = bytes "192.168.1.9";
        view = [];
      }
      ∷ [];
  cur = some (record {
    raw = record wanted { private_domain = bytes "home" };
    allow_query = [];
    reverse_zones = [];
    upstreams = [];
  });
  applied = none;
}

-- The settings leave home. for lan., and the record follows.
follows :
    (write_row lib wanted service).records
    ≡ record { name = bytes "nas.lan."; rrtype = bytes "A"; value = bytes "192.168.1.9"; view = [] }
      ∷ []
unfolding program write_row rename_record
follows = refl

set-IsAccepted_example :
    ((e : SetError) × (set lib false true wanted [] service ≡ (service, some e)))
    ⊎ IsAccepted lib true wanted [] service (set lib false true wanted [] service)
set-IsAccepted_example = set-IsAccepted lib true wanted [] service

set-KeepsShared_example : KeepsShared service (set lib true true wanted [] service).0
set-KeepsShared_example = set-KeepsShared lib true wanted [] service
