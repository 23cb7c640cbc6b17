-- ===== src/Settings/Model.antt =====
-- internal/store/model.go: the row of the settings. A nil list and an empty one are the same; a number
-- is a natural number, so a negative one, which no rule accepts, is not represented.
use kydns_server.Prelude.{ℕ, Bool, false, List, [], Eq, nat_eq, string_eq}
use kydns_server.Text.{Bytes, bytes_eq}
use native.Mathlib.Decide.{ℕ_discrete}
use kydns_server.Text.{Bytes-discrete}

pub record Settings : Type 0 where
  pub private_domain : Bytes
  pub reverse_zones : List Bytes
  pub upstreams : List Bytes
  pub allow_query : List Bytes
  pub allow_tailscale : Bool
  pub ttl : ℕ
  pub cache_min_ttl : ℕ
  pub cache_max_ttl : ℕ
  pub negative_max_ttl : ℕ
  pub cache_entries : ℕ
  pub log_queries : Bool
  pub log_client_ip : Bool
  pub dhcp_lease_file : Bytes
  pub discovery_interval : ℕ
  pub health_interval : ℕ
  pub health_timeout : ℕ
  pub health_workers : ℕ
  pub dhcp_enabled : Bool
  pub dhcp_interface : Bytes
  pub dhcp_range_start : Bytes
  pub dhcp_range_end : Bytes
  pub dhcp_gateway : Bytes
  pub dhcp_lease_seconds : ℕ
  pub dhcp_secondary_dns : Bytes
  pub dhcp_allow_foreign : Bool

unfoldable pub Settings-discrete : Discrete Settings
Settings-discrete = hlevel (ℕ_discrete, Bytes-discrete)

instance abbrev pub settings_eq : Eq Settings
settings_eq = record { dec = Settings-discrete }

-- The zero value.
abbrev pub no_settings : Settings
no_settings = record {
  private_domain = [];
  reverse_zones = [];
  upstreams = [];
  allow_query = [];
  allow_tailscale = false;
  ttl = 0;
  cache_min_ttl = 0;
  cache_max_ttl = 0;
  negative_max_ttl = 0;
  cache_entries = 0;
  log_queries = false;
  log_client_ip = false;
  dhcp_lease_file = [];
  discovery_interval = 0;
  health_interval = 0;
  health_timeout = 0;
  health_workers = 0;
  dhcp_enabled = false;
  dhcp_interface = [];
  dhcp_range_start = [];
  dhcp_range_end = [];
  dhcp_gateway = [];
  dhcp_lease_seconds = 0;
  dhcp_secondary_dns = [];
  dhcp_allow_foreign = false;
}

-- The eight columns of PutDHCPSettings.
unfoldable pub with_dhcp_of : Settings → Settings → Settings
with_dhcp_of v row = record row {
  dhcp_enabled = v.dhcp_enabled;
  dhcp_interface = v.dhcp_interface;
  dhcp_range_start = v.dhcp_range_start;
  dhcp_range_end = v.dhcp_range_end;
  dhcp_gateway = v.dhcp_gateway;
  dhcp_lease_seconds = v.dhcp_lease_seconds;
  dhcp_secondary_dns = v.dhcp_secondary_dns;
  dhcp_allow_foreign = v.dhcp_allow_foreign;
}

-- withoutDHCP
unfoldable pub without_dhcp : Settings → Settings
without_dhcp v = record v {
  dhcp_enabled = false;
  dhcp_interface = [];
  dhcp_range_start = [];
  dhcp_range_end = [];
  dhcp_gateway = [];
  dhcp_lease_seconds = 0;
  dhcp_secondary_dns = [];
  dhcp_allow_foreign = false;
}
