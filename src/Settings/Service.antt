-- ===== src/Settings/Service.antt =====
-- internal/settings/settings.go: Build, the holder, and Set, with the row and the records that
-- internal/store/settings.go writes. The mutex makes Set one step. Whether the database takes the
-- write is an argument, and a write that fails changes nothing; reading the row back does not fail.
pub mod Accepted
pub mod Replica
use kydns_server.Prelude.{
  ℕ, zero, suc, ◌+◌, ◌-◌, ◌*◌, ◌/◌, ◌%◌, ◌^◌, ◌≤◌, ◌<◌, ◌≡◌, ◌≢◌, ◌↔◌, ◌⊎◌, inl, inr, refl, sym, ap,
  ◌∙◌, subst, String, Bool, true, false, ◌||◌, ◌&&◌, not, Option, none, some, List, [], ◌∷◌, ◌++◌,
  map, ◌==◌, Eq, nat_eq, string_eq, same_text, leb, ltb, if◌then◌else◌, length, is_empty, Map,
  lookup, insert, delete, size, lookup-insert, lookup-delete, arith, Bool-cases, Option-cases,
}
use kydns_server.Text.{
  Bytes, bytes_eq, bytes, to_lower, trim_space, trim_last, has_prefix, has_suffix, contains_byte,
  split, join, trim_suffix,
}
use kydns_server.Net.{Prefix, masked}
use kydns_server.Upstream.Parse.{Spec, Result, ok, err, parse_all}
use kydns_server.Zone.Index.{Record}
use kydns_server.Settings.Model.{Settings, settings_eq, no_settings, with_dhcp_of, without_dhcp}
use kydns_server.Settings.Validate.{Library, canonicalize, validate_write}
use kydns_server.Settings.Rename.{zone_suffix, rename_record}

-- TailscaleCGNAT
abbrev pub tailscale_cgnat : Bytes
tailscale_cgnat = bytes "100.64.0.0/10"

pub record Snapshot : Type 0 where
  pub raw : Settings
  pub allow_query : List Prefix
  pub reverse_zones : List Prefix
  pub upstreams : List Spec

pub data SetError : Type 0 where
  bad_field : Bytes → SetError
  read_only_replica : SetError
  not_written : SetError
  no_row : SetError

-- What Build gives: the field that does not parse, or the snapshot.
pub data Built : Type 0 where
  rejected : Bytes → Built
  built : Snapshot → Built

-- The row, the manual records, the running snapshot, and the last one that onApply was given.
pub record Service : Type 0 where
  pub row : Option Settings
  pub records : List Record
  pub cur : Option Snapshot
  pub applied : Option Snapshot

-- The loop over the texts of prefixes.
unfoldable pub parse_prefixes : (Bytes → Option Prefix) → List Bytes → Option (List Prefix)
parse_prefixes parse [] = some []
parse_prefixes parse (c ∷ cs) =
    let rest = parse_prefixes parse cs in
    elim (parse c) [
      | none ↦ none
      | some p ↦ elim rest [ none ↦ none | some ps ↦ some (masked p ∷ ps) ]
    ]

module _ (lib : Library) where
  -- Build; an upstream is its specification.
  unfoldable pub build_upstreams : Settings → List Prefix → List Prefix → Built
  build_upstreams v allow reverse = elim (parse_all lib.net v.upstreams) [
    | err _ ↦ rejected (bytes "upstreams")
    | ok specs ↦
        built (record { raw = v; allow_query = allow; reverse_zones = reverse; upstreams = specs })
  ]

  abbrev pub allowed_texts : Settings → List Bytes
  allowed_texts v =
      if v.allow_tailscale then v.allow_query ++ tailscale_cgnat ∷ [] else v.allow_query

  unfoldable pub build : Settings → Built
  build v = elim (parse_prefixes lib.parse_prefix (allowed_texts v)) [
    | none ↦ rejected (bytes "allow_query")
    | some allow ↦ elim (parse_prefixes lib.parse_prefix v.reverse_zones) [
      | none ↦ rejected (bytes "reverse_zones")
      | some reverse ↦ build_upstreams v allow reverse
    ]
  ]

  -- Holder.Rebuild; an error keeps the snapshot.
  unfoldable pub rebuild : Service → Service × Option SetError
  rebuild s = elim s.row [
    | none ↦ (s, some no_row)
    | some v ↦ elim (build v) [
      | rejected field ↦ (s, some (bad_field field))
      | built snap ↦ (record s { cur = some snap }, none)
    ]
  ]

  -- The running values, the baseline of the guardrail.
  abbrev pub running : Service → Settings
  running s = elim s.cur [ none ↦ no_settings | some snap ↦ snap.raw ]

  -- Rebuild, and onApply.
  unfoldable pub apply_rebuilt : Service → Service × Option SetError
  apply_rebuilt s =
      let (s', failed) = rebuild s in
      elim failed [ some e ↦ (s', some e) | none ↦ (record s' { applied = s'.cur }, none) ]

  -- setDHCPOnly, with the write of PutDHCPSettings
  unfoldable pub put_dhcp : Bool → Settings → Service → Service × Option SetError
  put_dhcp writes v s = elim s.row [
    | none ↦ (s, some no_row)
    | some row ↦
        if writes
        then apply_rebuilt (record s { row = some (with_dhcp_of v row) })
        else (s, some not_written)
  ]

  -- `reflect.DeepEqual` is equality here: a nil list and an empty one are the same.
  unfoldable pub set_dhcp_only : Bool → Settings → Bytes → Service → Service × Option SetError
  set_dhcp_only writes v confirm s =
      if not (without_dhcp (running s) == without_dhcp v)
      then (s, some read_only_replica)
      else elim (validate_write lib v (running s) confirm) [
        | some field ↦ (s, some (bad_field field))
        | none ↦ put_dhcp writes v s
      ]

  -- PutSettings and PutSettingsRenamingZone
  unfoldable pub write_row : Settings → Service → Service
  write_row v s =
      let from = zone_suffix (running s).private_domain in
      let to = zone_suffix v.private_domain in
      if not (from == []) && not (from == to)
      then record s {
        row = some v;
        records = map (rename_record (zone_suffix from) (zone_suffix to)) s.records;
      }
      else record s { row = some v }

  unfoldable pub publish : Snapshot → Service → Service
  publish snap s = record s { cur = some snap; applied = some snap }

  -- What follows the checks.
  unfoldable pub set_checked : Bool → Settings → Service → Service × Option SetError
  set_checked writes v s = elim (build v) [
    | rejected field ↦ (s, some (bad_field field))
    | built snap ↦ if writes then (publish snap (write_row v s), none) else (s, some not_written)
  ]

  unfoldable pub set : Bool → Bool → Settings → Bytes → Service → Service × Option SetError
  set replica writes v confirm s =
      if replica
      then set_dhcp_only writes v confirm s
      else elim (validate_write lib v (running s) confirm) [
        | some field ↦ (s, some (bad_field field))
        | none ↦ set_checked writes (canonicalize lib v) s
      ]

  -- CheckWrite
  unfoldable pub check_write : Settings → Bytes → Service → Option SetError
  check_write v confirm s = elim (validate_write lib v (running s) confirm) [
    | some field ↦ some (bad_field field)
    | none ↦ elim (build v) [ rejected field ↦ some (bad_field field) | built _ ↦ none ]
  ]
