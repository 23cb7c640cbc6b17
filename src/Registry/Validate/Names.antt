-- ===== src/Registry/Validate/Names.antt =====
-- What `ValidateName` of internal/registry/validate.go accepts.
mod Tests
use kydns_server.Prelude.{
  ℕ, ◌≤◌, ◌<◌, ◌≡◌, ◌≢◌, ◌⊎◌, inl, inr, refl, sym, ap, ◌∙◌, Bool, true, false, ◌||◌, ◌&&◌, not,
  Option, none, some, List, [], ◌∷◌, ◌++◌, ◌==◌, nat_eq, leb, ltb, if◌then◌else◌, length, arith,
  Bool-cases, Option-cases,
}
use kydns_server.Text.{Bytes, bytes_eq, trim_last, has_suffix, contains_byte, split}
use kydns_server.Policy.Normalize.{OnlyLabelBytes, IsLabel, AllLabels, first_is, last_is}
use kydns_server.Registry.Validate.{
  ValidationError, normalize_fqdn, rune_allowed, runes_allowed, validate_label, validate_labels,
  validate_name,
}

pub has_suffix-append : (s t : Bytes) → has_suffix s t ≡ true → (p : Bytes) × (s ≡ p ++ t)
unfolding has_suffix
has_suffix-append [] t h = elim (bytes_eq.dec [] t) [
  | yes p ↦ ([], p)
  | no n ↦ absurd (ground arith)
]
has_suffix-append (c ∷ s) t h = elim (bytes_eq.dec (c ∷ s) t) [
  | yes p ↦ ([], p)
  | no n ↦ let (q, e) = has_suffix-append s t (ground arith) in (c ∷ q, ap (◌∷◌ c) e)
]

runes_allowed-OnlyLabelBytes : (s : Bytes) → runes_allowed s ≡ true → OnlyLabelBytes s
unfolding runes_allowed rune_allowed
runes_allowed-OnlyLabelBytes [] h = tt
runes_allowed-OnlyLabelBytes (r ∷ s) h =
    (ground arith, runes_allowed-OnlyLabelBytes s (ground arith))

validate_label-IsLabel : (s : Bytes) → validate_label s ≡ none → IsLabel s
unfolding validate_label
validate_label-IsLabel [] h = absurd (ground arith)
validate_label-IsLabel (r ∷ s) h = record {
  nonempty = omega arith;
  short = ground arith;
  plain = runes_allowed-OnlyLabelBytes (r ∷ s) (ground arith);
  starts = ground arith;
  ends = ground arith;
}

validate_labels-AllLabels : (ls : List Bytes) → validate_labels ls ≡ none → AllLabels ls
unfolding validate_labels
validate_labels-AllLabels [] h = tt
validate_labels-AllLabels (l ∷ ls) h = elim (Option-cases (validate_label l)) [
  | inl e ↦ (validate_label-IsLabel l e, validate_labels-AllLabels ls (ground arith))
  | inr (bad, e) ↦ absurd (ground arith)
]

-- A name that passes ends, once normalized, in a dot and the zone, is no longer than 255 bytes, has
-- no wildcard, and each of its labels is a host name label.
pub validate_name-AllLabels :
    (name zone : Bytes)
    → validate_name name zone ≡ none
    → ((host : Bytes) × (normalize_fqdn name ≡ host ++ b'.' ∷ normalize_fqdn zone))
      × (length (normalize_fqdn name) ≤ 255)
      × (contains_byte b'*' (normalize_fqdn name) ≡ false)
      × AllLabels (split b'.' (trim_last b'.' (normalize_fqdn name)))
unfolding validate_name
validate_name-AllLabels name zone h =
    let n = normalize_fqdn name in
    let checked : validate_labels (split b'.' (trim_last b'.' n)) ≡ none = ground arith in
    (
      has_suffix-append n (b'.' ∷ normalize_fqdn zone) (ground arith),
      ground arith,
      ground arith,
      validate_labels-AllLabels (split b'.' (trim_last b'.' n)) checked,
    )
