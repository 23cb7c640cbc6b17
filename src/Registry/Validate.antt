-- ===== src/Registry/Validate.antt =====
-- internal/registry/validate.go: which names may be registered in the private zone. An error is its
-- code; `none` is nil.
pub mod Names
use kydns_server.Prelude.{
  ℕ, Bool, true, false, ◌||◌, ◌&&◌, not, Option, none, some, List, [], ◌∷◌, ◌++◌, ◌==◌, nat_eq, leb,
  ltb, if◌then◌else◌, length,
}
use kydns_server.Text.{
  Bytes, bytes_eq, to_lower, trim_space, trim_last, has_suffix, contains_byte, split,
}
use kydns_server.Policy.Normalize.{first_is, last_is}

pub data ValidationError : Type 0 where
  name_empty name_length wildcard_unsupported name_is_apex name_out_of_zone label_length
        label_hyphen label_charset :
      ValidationError

-- Normalize
unfoldable pub normalize_fqdn : Bytes → Bytes
normalize_fqdn name =
    let n = to_lower (trim_space name) in
    if n == [] then [] else if has_suffix n (b'.' ∷ []) then n else n ++ b'.' ∷ []

unfoldable pub rune_allowed : ℕ → Bool
rune_allowed r = (leb b'a' r && leb r b'z') || (leb b'0' r && leb r b'9') || r == b'-'

-- The loop over the runes; one that is not ASCII has no allowed byte.
unfoldable pub runes_allowed : Bytes → Bool
runes_allowed [] = true
runes_allowed (r ∷ s) = rune_allowed r && runes_allowed s

unfoldable pub validate_label : Bytes → Option ValidationError
validate_label s =
    if s == [] || ltb 63 (length s)
    then some label_length
    else if first_is b'-' s || last_is b'-' s
    then some label_hyphen
    else if runes_allowed s
    then none
    else some label_charset

-- The loop over the labels.
unfoldable pub validate_labels : List Bytes → Option ValidationError
validate_labels [] = none
validate_labels (l ∷ ls) = elim (validate_label l) [ some e ↦ some e | none ↦ validate_labels ls ]

unfoldable pub validate_name : Bytes → Bytes → Option ValidationError
validate_name name private_fqdn =
    let n = normalize_fqdn name in
    let zone = normalize_fqdn private_fqdn in
    if n == []
    then some name_empty
    else if ltb 255 (length n)
    then some name_length
    else if contains_byte b'*' n
    then some wildcard_unsupported
    else if n == zone
    then some name_is_apex
    else if not (has_suffix n (b'.' ∷ zone))
    then some name_out_of_zone
    else validate_labels (split b'.' (trim_last b'.' n))
