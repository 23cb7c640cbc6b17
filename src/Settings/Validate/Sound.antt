-- ===== src/Settings/Validate/Sound.antt =====
-- What the rules of internal/settings/validate.go guarantee of settings that pass.
use kydns_server.Prelude.{
  ◌+◌, ◌-◌, ◌≤◌, ◌<◌, ◌≡◌, ◌≢◌, ◌⊎◌, inl, inr, refl, Bool, true, false, ◌||◌, Option, none, some,
  List, [], ◌∷◌, nat_eq, string_eq, ltb, is_empty, arith, Option-cases,
}
use kydns_server.Text.{Bytes, bytes_eq}
use kydns_server.Net.{Addr, u32_of}
use kydns_server.Policy.Set.{member}
use kydns_server.Upstream.Parse.{Spec, ok, parse_all}
use kydns_server.Upstream.Parse.Specs.{Result-cases}
use kydns_server.Settings.Model.{Settings}
use kydns_server.Settings.Validate.{
  Library, first_error, bad_if, dhcp_lease_min, dhcp_lease_max, dhcp_max_pool_size, parse_ipv4,
  dhcp_rules, validate_range, validate_dhcp, validate_numbers, validate_allow_query, all_prefixes,
  bad_upstreams, validate_stored, validate_write, public_prefixes, unconfirmed,
  confirm_public_prefixes,
}

-- The numbers are at least one, and in their order.
pub record IsBounded (v : Settings) : Type 0 where
  pub ttl : 1 ≤ v.ttl
  pub cache_min : 1 ≤ v.cache_min_ttl
  pub cache_max : v.cache_min_ttl ≤ v.cache_max_ttl
  pub negative : 1 ≤ v.negative_max_ttl
  pub entries : 1 ≤ v.cache_entries
  pub discovery : 1 ≤ v.discovery_interval
  pub timeout : 1 ≤ v.health_timeout
  pub interval : v.health_timeout < v.health_interval
  pub workers : 1 ≤ v.health_workers

-- The pool of the DHCP server: two IPv4 addresses in order, not too far apart, and a lease time
-- within its bounds.
pub record IsPool (lib : Library) (v : Settings) : Type 0 where
  pub start : Addr
  pub end : Addr
  pub starts : parse_ipv4 lib v.dhcp_range_start ≡ some start
  pub ends : parse_ipv4 lib v.dhcp_range_end ≡ some end
  pub ordered : u32_of start ≤ u32_of end
  pub small : u32_of end - u32_of start + 1 ≤ dhcp_max_pool_size
  pub least : dhcp_lease_min ≤ v.dhcp_lease_seconds
  pub most : v.dhcp_lease_seconds ≤ dhcp_lease_max
  pub alone : v.dhcp_lease_file ≡ []

pub record IsSound (lib : Library) (v : Settings) : Type 0 where
  pub upstreams : (specs : List Spec) × (parse_all lib.net v.upstreams ≡ ok specs)
  pub some_upstream : v.upstreams ≢ []
  pub some_client : v.allow_query ≢ []
  pub clients : all_prefixes lib v.allow_query ≡ true
  pub zones : all_prefixes lib v.reverse_zones ≡ true
  pub bounded : IsBounded v
  pub pool : v.dhcp_enabled ≡ true → IsPool lib v

abbrev AllNone : List (Option Bytes) → Type 0
AllNone [] = Unit {0}
AllNone (e ∷ es) = (e ≡ none) × AllNone es

first_error-AllNone : (es : List (Option Bytes)) → first_error es ≡ none → AllNone es
unfolding first_error
first_error-AllNone [] h = tt
first_error-AllNone (none ∷ es) h = (refl, first_error-AllNone es h)
first_error-AllNone (some f ∷ es) h = absurd (ground arith)

bad_if-none : (b : Bool) (field : Bytes) → bad_if b field ≡ none → b ≡ false
bad_if-none b field h = ground arith

validate_numbers-IsBounded :
    (lib : Library) (v : Settings) → validate_numbers lib v ≡ none → IsBounded v
unfolding validate_numbers
validate_numbers-IsBounded lib v h =
    let (a, (b, (c, (d, (e, (f, (g, (i, (j, (k, (l, _))))))))))) = first_error-AllNone _ h in
    record {
      ttl = ground (arith, a);
      cache_min = ground (arith, b);
      cache_max = ground (arith, k);
      negative = ground (arith, d);
      entries = ground (arith, e);
      discovery = ground (arith, f);
      timeout = ground (arith, i);
      interval = ground (arith, l);
      workers = ground (arith, j);
    }

is_empty-none : (xs : List Bytes) → is_empty xs ≡ false → xs ≢ []
is_empty-none xs h p = absurd (ground (arith, h, p))

module _ (lib : Library) (v : Settings) where
  range-ordered :
      validate_range lib v.dhcp_range_start v.dhcp_range_end ≡ none
      → (start : Addr) × (end : Addr) × (parse_ipv4 lib v.dhcp_range_start ≡ some start)
        × (parse_ipv4 lib v.dhcp_range_end ≡ some end)
        × (u32_of start ≤ u32_of end)
        × (u32_of end - u32_of start + 1 ≤ dhcp_max_pool_size)
  unfolding validate_range
  range-ordered h = elim (Option-cases (parse_ipv4 lib v.dhcp_range_start)) [
    | inl e ↦ absurd (ground arith)
    | inr (start, e) ↦ elim (Option-cases (parse_ipv4 lib v.dhcp_range_end)) [
      | inl e' ↦ absurd (ground arith)
      | inr (end, e') ↦
          let sized : (ltb (u32_of end) (u32_of start)
                || ltb dhcp_max_pool_size (u32_of end - u32_of start + 1))
              ≡ false =
            ground arith in
          (start, end, e, e', ground (arith, sized), ground (arith, sized))
    ]
  ]

  validate_dhcp-IsPool : validate_dhcp lib v ≡ none → v.dhcp_enabled ≡ true → IsPool lib v
  unfolding validate_dhcp
  validate_dhcp-IsPool h on =
      let checked : first_error (dhcp_rules lib v) ≡ none = ground arith in
      let (file, (interface, (range, (gateway, (secondary, (seconds, _)))))) =
        first_error-AllNone _ checked in
      let (start, end, starts, ends, ordered, small) = range-ordered range in
      record {
        start = start;
        end = end;
        starts = starts;
        ends = ends;
        ordered = ordered;
        small = small;
        least = ground (arith, seconds);
        most = ground (arith, seconds);
        alone = ground (arith, file);
      }

  good_upstreams :
      (is_empty v.upstreams || bad_upstreams lib v.upstreams) ≡ false
      → ((specs : List Spec) × (parse_all lib.net v.upstreams ≡ ok specs)) × (v.upstreams ≢ [])
  good_upstreams h = elim (Result-cases (parse_all lib.net v.upstreams)) [
    | inl (e, p) ↦ absurd (ground arith)
    | inr good ↦ (good, is_empty-none v.upstreams (ground arith))
  ]

-- Settings that pass the rules of the start are sound: every upstream and prefix parses, none of the
-- two lists that must not be empty is, the numbers are at least one and ordered, and the range of a
-- DHCP server that is on is in order, of at most 65536 addresses, with a lease time within its bounds
-- and no lease file beside it.
pub validate_stored-IsSound :
    (lib : Library) (v : Settings) → validate_stored lib v ≡ none → IsSound lib v
unfolding validate_stored validate_allow_query
validate_stored-IsSound lib v h =
    let (domain, (zones, (upstreams, (clients, (numbers, (file, (dhcp, _))))))) =
      first_error-AllNone _ h in
    let (specs, given) = good_upstreams lib v (bad_if-none _ _ upstreams) in
    let listed = bad_if-none _ _ clients in
    record {
      upstreams = specs;
      some_upstream = given;
      some_client = is_empty-none v.allow_query (ground (arith, listed));
      clients = ground (arith, listed);
      zones = ground (arith, bad_if-none _ _ zones);
      bounded = validate_numbers-IsBounded lib v numbers;
      pool = validate_dhcp-IsPool lib v dhcp;
    }

-- Every text of the first list is the confirmation, or in the other.
abbrev pub AllConfirmed : List Bytes → Bytes → List Bytes → Type 0
AllConfirmed stored confirm [] = Unit {0}
AllConfirmed stored confirm (c ∷ cs) =
    ((c ≡ confirm) ⊎ (member c stored ≡ true)) × AllConfirmed stored confirm cs

unconfirmed-AllConfirmed :
    (lib : Library) (stored : List Bytes) (confirm : Bytes) (cs : List Bytes)
    → unconfirmed lib stored confirm cs ≡ false
    → AllConfirmed stored confirm cs
unfolding unconfirmed
unconfirmed-AllConfirmed lib stored confirm [] h = tt
unconfirmed-AllConfirmed lib stored confirm (c ∷ cs) h =
    (ground arith, unconfirmed-AllConfirmed lib stored confirm cs (ground arith))

-- A write that passes is sound, and each prefix of it that reaches beyond the private ranges was
-- retyped, or is one of the settings before.
pub validate_write-AllConfirmed :
    (lib : Library) (next prev : Settings) (confirm : Bytes)
    → validate_write lib next prev confirm ≡ none
    → IsSound lib next
      × AllConfirmed
          (public_prefixes lib prev.allow_query)
          confirm
          (public_prefixes lib next.allow_query)
unfolding validate_write confirm_public_prefixes
validate_write-AllConfirmed lib next prev confirm h =
    let (stored, (confirmed, _)) = first_error-AllNone _ h in
    (
      validate_stored-IsSound lib next stored,
      unconfirmed-AllConfirmed lib _ confirm _ (bad_if-none _ _ confirmed),
    )
