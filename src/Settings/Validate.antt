-- ===== src/Settings/Validate.antt =====
-- internal/settings/validate.go. An error is the name of its field, and `none` is no error; the text
-- of an error is left out.
pub mod Sound
use kydns_server.Prelude.{
  ℕ, zero, suc, ◌+◌, ◌-◌, ◌*◌, ◌/◌, ◌%◌, ◌^◌, ◌≤◌, ◌<◌, ◌≡◌, ◌≢◌, ◌↔◌, ◌⊎◌, inl, inr, refl, sym, ap,
  ◌∙◌, subst, String, Bool, true, false, ◌||◌, ◌&&◌, not, Option, none, some, List, [], ◌∷◌, ◌++◌,
  map, ◌==◌, Eq, nat_eq, string_eq, same_text, leb, ltb, if◌then◌else◌, length, is_empty, Map,
  lookup, insert, delete, size, lookup-insert, lookup-delete, arith, Bool-cases, Option-cases,
}
use kydns_server.Text.{
  Bytes, bytes_eq, bytes, to_lower, trim_space, trim_last, has_prefix, has_suffix, contains_byte,
  split, join, trim_suffix,
}
use kydns_server.Net.{Addr, Prefix, v4, v6, is4, u32_of, masked, contains}
use kydns_server.Policy.Set.{member}
use kydns_server.Upstream.Parse.{Net, Result, ok, err, parse_all}
use kydns_server.Settings.Model.{Settings}

-- Code that is not the program's: that of upstreams, `netip.ParsePrefix` and Prefix.String,
-- `netip.ParseAddr`, `dns.IsDomainName`, `dns.SplitDomainName`, `filepath.IsAbs`.
pub record Library : Type 0 where
  pub net : Net
  pub parse_prefix : Bytes → Option Prefix
  pub show_prefix : Prefix → Bytes
  pub parse_addr : Bytes → Option Addr
  pub is_domain_name : Bytes → Bool
  pub split_domain_name : Bytes → List Bytes
  pub is_absolute : Bytes → Bool

-- The rules in their order: the field of the first that fails.
unfoldable pub first_error : List (Option Bytes) → Option Bytes
first_error [] = none
first_error (none ∷ es) = first_error es
first_error (some f ∷ es) = some f

abbrev pub bad_if : Bool → Bytes → Option Bytes
bad_if b field = if b then some field else none

abbrev pub dhcp_lease_min : ℕ
dhcp_lease_min = 300

abbrev pub dhcp_lease_max : ℕ
dhcp_lease_max = 604800

abbrev pub dhcp_max_pool_size : ℕ
dhcp_max_pool_size = 65536

-- The prefixes of privateRanges.
abbrev pub private_ranges : List Prefix
private_ranges =
    record { addr = v4 0x7F000000; bits = 8 }
    ∷ record { addr = v6 1 ""; bits = 128 }
    ∷ record { addr = v4 0x0A000000; bits = 8 }
    ∷ record { addr = v4 0xAC100000; bits = 12 }
    ∷ record { addr = v4 0xC0A80000; bits = 16 }
    ∷ record { addr = v4 0xA9FE0000; bits = 16 }
    ∷ record { addr = v6 (0xFE80 * 2 ^ 112) ""; bits = 10 }
    ∷ record { addr = v6 (0xFC00 * 2 ^ 112) ""; bits = 7 }
    ∷ record { addr = v4 0x64400000; bits = 10 }
    ∷ []

unfoldable pub covered_by : Prefix → List Prefix → Bool
covered_by p [] = false
covered_by p (r ∷ rs) = (leb r.bits p.bits && contains r p.addr) || covered_by p rs

unfoldable pub is_private_prefix : Prefix → Bool
is_private_prefix p = covered_by (masked p) private_ranges

abbrev pub label_rune : ℕ → Bool
label_rune c =
    c == b'-'
    || (leb b'a' c && leb c b'z')
    || (leb b'A' c && leb c b'Z')
    || (leb b'0' c && leb c b'9')

unfoldable pub label_runes : Bytes → Bool
label_runes [] = true
label_runes (c ∷ s) = label_rune c && label_runes s

unfoldable pub domain_label : Bytes → Bool
domain_label l =
    not (l == [])
    && not (has_prefix l (bytes "-"))
    && not (has_suffix l (bytes "-"))
    && label_runes l

unfoldable pub domain_labels : List Bytes → Bool
domain_labels [] = true
domain_labels (l ∷ ls) = domain_label l && domain_labels ls

module _ (lib : Library) where
  unfoldable pub valid_domain_name : Bytes → Bool
  valid_domain_name s = lib.is_domain_name s && domain_labels (lib.split_domain_name s)

  unfoldable pub public_prefixes : List Bytes → List Bytes
  public_prefixes [] = []
  public_prefixes (c ∷ cs) =
      let rest = public_prefixes cs in
      elim (lib.parse_prefix c) [
        | none ↦ rest
        | some p ↦ if is_private_prefix p then rest else lib.show_prefix (masked p) ∷ rest
      ]

  unfoldable pub canonical_prefixes : List Bytes → List Bytes
  canonical_prefixes [] = []
  canonical_prefixes (c ∷ cs) =
      let rest = canonical_prefixes cs in
      elim (lib.parse_prefix c) [ none ↦ c ∷ rest | some p ↦ lib.show_prefix (masked p) ∷ rest ]

  unfoldable pub canonicalize : Settings → Settings
  canonicalize v = record v {
    allow_query = canonical_prefixes v.allow_query;
    reverse_zones = canonical_prefixes v.reverse_zones;
  }

  -- Every text is a prefix.
  unfoldable pub all_prefixes : List Bytes → Bool
  all_prefixes [] = true
  all_prefixes (c ∷ cs) =
      let rest = all_prefixes cs in elim (lib.parse_prefix c) [ none ↦ false | some _ ↦ rest ]

  unfoldable pub validate_allow_query : List Bytes → Option Bytes
  validate_allow_query list =
      bad_if (is_empty list || not (all_prefixes list)) (bytes "allow_query")

  unfoldable pub unconfirmed : List Bytes → Bytes → List Bytes → Bool
  unconfirmed stored confirm [] = false
  unconfirmed stored confirm (c ∷ cs) =
      let rest = unconfirmed stored confirm cs in
      if c == confirm || member c stored then rest else true

  unfoldable pub confirm_public_prefixes : List Bytes → List Bytes → Bytes → Option Bytes
  confirm_public_prefixes list prev confirm =
      bad_if (unconfirmed (public_prefixes prev) confirm (public_prefixes list))
        (bytes "allow_query")

  -- parseIPv4; both its errors are of the same field
  unfoldable pub parse_ipv4 : Bytes → Option Addr
  parse_ipv4 s = elim (lib.parse_addr (trim_space s)) [
    | none ↦ none
    | some a ↦ if is4 a then some a else none
  ]

  abbrev pub is_ipv4 : Bytes → Bool
  is_ipv4 s = elim (parse_ipv4 s) [ none ↦ false | some _ ↦ true ]

  unfoldable pub validate_range : Bytes → Bytes → Option Bytes
  validate_range from to = elim (parse_ipv4 from) [
    | none ↦ some (bytes "dhcp_range_start")
    | some start ↦ elim (parse_ipv4 to) [
      | none ↦ some (bytes "dhcp_range_end")
      | some end ↦
          bad_if
            (ltb (u32_of end) (u32_of start)
              || ltb dhcp_max_pool_size (u32_of end - u32_of start + 1))
            (bytes "dhcp_range_end")
    ]
  ]

  -- The rules of a server that is on.
  abbrev pub dhcp_rules : Settings → List (Option Bytes)
  dhcp_rules v =
      bad_if (not (v.dhcp_lease_file == [])) (bytes "dhcp_enabled")
      ∷ bad_if (trim_space v.dhcp_interface == []) (bytes "dhcp_interface")
      ∷ validate_range v.dhcp_range_start v.dhcp_range_end
      ∷ bad_if (not (is_ipv4 v.dhcp_gateway)) (bytes "dhcp_gateway")
      ∷ bad_if (not (v.dhcp_secondary_dns == []) && not (is_ipv4 v.dhcp_secondary_dns))
          (bytes "dhcp_secondary_dns")
      ∷ bad_if (ltb v.dhcp_lease_seconds dhcp_lease_min || ltb dhcp_lease_max v.dhcp_lease_seconds)
          (bytes "dhcp_lease_seconds")
      ∷ []

  unfoldable pub validate_dhcp : Settings → Option Bytes
  validate_dhcp v = if not v.dhcp_enabled then none else first_error (dhcp_rules v)

  -- The rules of the numbers: at least one, and their order.
  unfoldable pub validate_numbers : Settings → Option Bytes
  validate_numbers v = first_error (
      bad_if (ltb v.ttl 1) (bytes "ttl")
      ∷ bad_if (ltb v.cache_min_ttl 1) (bytes "cache_min_ttl")
      ∷ bad_if (ltb v.cache_max_ttl 1) (bytes "cache_max_ttl")
      ∷ bad_if (ltb v.negative_max_ttl 1) (bytes "negative_max_ttl")
      ∷ bad_if (ltb v.cache_entries 1) (bytes "cache_entries")
      ∷ bad_if (ltb v.discovery_interval 1) (bytes "discovery_interval")
      ∷ bad_if (ltb v.health_interval 1) (bytes "health_interval")
      ∷ bad_if (ltb v.health_timeout 1) (bytes "health_timeout")
      ∷ bad_if (ltb v.health_workers 1) (bytes "health_workers")
      ∷ bad_if (ltb v.cache_max_ttl v.cache_min_ttl) (bytes "cache_min_ttl")
      ∷ bad_if (leb v.health_interval v.health_timeout) (bytes "health_timeout")
      ∷ [])

  abbrev pub bad_upstreams : List Bytes → Bool
  bad_upstreams ups = elim (parse_all lib.net ups) [ ok _ ↦ false | err _ ↦ true ]

  unfoldable pub validate_stored : Settings → Option Bytes
  validate_stored v = first_error (
      bad_if (trim_space v.private_domain == [] || not (valid_domain_name v.private_domain))
        (bytes "private_domain")
      ∷ bad_if (not (all_prefixes v.reverse_zones)) (bytes "reverse_zones")
      ∷ bad_if (is_empty v.upstreams || bad_upstreams v.upstreams) (bytes "upstreams")
      ∷ validate_allow_query v.allow_query
      ∷ validate_numbers v
      ∷ bad_if (not (v.dhcp_lease_file == []) && not (lib.is_absolute v.dhcp_lease_file))
          (bytes "dhcp_lease_file")
      ∷ validate_dhcp v
      ∷ [])

  unfoldable pub validate_write : Settings → Settings → Bytes → Option Bytes
  validate_write next prev confirm = first_error (
      validate_stored next ∷ confirm_public_prefixes next.allow_query prev.allow_query confirm ∷ [])
