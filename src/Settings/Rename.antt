-- ===== src/Settings/Rename.antt =====
-- internal/store/settings.go: names that move with the private zone.
pub mod Moves
use kydns_server.Prelude.{
  ◌||◌, Option, none, some, [], ◌∷◌, ◌++◌, ◌==◌, nat_eq, string_eq, if◌then◌else◌,
}
use kydns_server.Text.{Bytes, bytes_eq, bytes, to_lower, trim_space, has_suffix, trim_suffix}
use kydns_server.Text.{trim_any}
use kydns_server.Zone.Index.{Record}

-- ZoneSuffix
unfoldable pub zone_suffix : Bytes → Bytes
zone_suffix domain =
    let d = trim_any (to_lower (trim_space domain)) (bytes ".") in
    if d == [] then [] else d ++ b'.' ∷ []

-- The name with its last dot.
abbrev pub dotted : Bytes → Bytes
dotted n = if has_suffix n (bytes ".") then n else n ++ b'.' ∷ []

-- The switch of RenameInZone; `none` is a name that does not move.
unfoldable pub move_name : Bytes → Bytes → Bytes → Option Bytes
move_name n from to =
    if n == from
    then some to
    else if has_suffix n (b'.' ∷ from)
    then some (trim_suffix n from ++ to)
    else none

unfoldable pub rename_in_zone : Bytes → Bytes → Bytes → Option Bytes
rename_in_zone name from to =
    let n = to_lower (trim_space name) in
    if from == [] || to == [] || from == to
    then none
    else if n == []
    then none
    else move_name (dotted n) from to

abbrev pub or_same : Bytes → Option Bytes → Bytes
or_same name none = name
or_same name (some moved) = moved

-- One record of PutSettingsRenamingZone.
unfoldable pub rename_record : Bytes → Bytes → Record → Record
rename_record from to r = record r {
  name = or_same r.name (rename_in_zone r.name from to);
  value =
      if r.rrtype == bytes "CNAME" || r.rrtype == bytes "PTR"
      then or_same r.value (rename_in_zone r.value from to)
      else r.value;
}
