-- ===== src/Registry/Validate/Names/Tests.antt =====
-- The validation of internal/registry/validate.go at concrete inputs.
use kydns_server.Prelude.{◌≤◌, ◌≡◌, refl, false, some, ◌∷◌, ◌++◌, length}
use native.Mathlib.Decide.{ℕ_discrete}
use kydns_server.Text.{
  Bytes, bytes_eq, Bytes-discrete, bytes, trim_space, trim_left, trim_right, trim_last, has_suffix,
  contains_byte, split, prepend,
}
use kydns_server.Policy.Normalize.{AllLabels, last_is}
use kydns_server.Registry.Validate.{
  name_out_of_zone, name_is_apex, normalize_fqdn, rune_allowed, runes_allowed, validate_label,
  validate_labels, validate_name,
}
use kydns_server.Registry.Validate.Names.{validate_name-AllLabels}

program : Unit {0}
unfolding normalize_fqdn rune_allowed runes_allowed validate_label validate_labels validate_name
    Bytes-discrete ℕ_discrete trim_space trim_left trim_right trim_last has_suffix contains_byte
    split prepend last_is
program = tt

apex : validate_name (bytes "LAN") (bytes "lan.") ≡ some name_is_apex
unfolding program
apex = refl

outside : validate_name (bytes "nas.wlan") (bytes "lan.") ≡ some name_out_of_zone
unfolding program
outside = refl

validate_name-AllLabels_example :
    ((host : Bytes) × (normalize_fqdn (bytes "wlan.lan.")
        ≡ host ++ b'.' ∷ normalize_fqdn (bytes "lan.")))
    × (length (normalize_fqdn (bytes "wlan.lan.")) ≤ 255)
    × (contains_byte b'*' (normalize_fqdn (bytes "wlan.lan.")) ≡ false)
    × AllLabels (split b'.' (trim_last b'.' (normalize_fqdn (bytes "wlan.lan."))))
unfolding program
validate_name-AllLabels_example = validate_name-AllLabels (bytes "wlan.lan.") (bytes "lan.") refl
