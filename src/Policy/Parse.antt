-- ===== src/Policy/Parse.antt =====
-- internal/policy/parse.go: the domains of a downloaded list. The body is given whole; an error of
-- its reader is left out.
pub mod Listed
use kydns_server.Prelude.{
  ℕ, zero, suc, ◌+◌, ◌-◌, ◌*◌, ◌/◌, ◌%◌, ◌^◌, ◌≤◌, ◌<◌, ◌≡◌, ◌≢◌, ◌↔◌, ◌⊎◌, inl, inr, refl, sym, ap,
  ◌∙◌, subst, String, Bool, true, false, ◌||◌, ◌&&◌, not, Option, none, some, List, [], ◌∷◌, ◌++◌,
  map, ◌==◌, Eq, nat_eq, string_eq, same_text, leb, ltb, if◌then◌else◌, length, is_empty, Map,
  lookup, insert, delete, size, lookup-insert, lookup-delete, arith, Bool-cases, Option-cases,
}
use kydns_server.Text.{
  Bytes, bytes_eq, bytes, to_lower, trim_space, trim_last, has_prefix, has_suffix, contains_byte,
  split, join, trim_suffix,
}
use kydns_server.Text.{fields, contains_any, trim_prefix}
use kydns_server.Policy.Normalize.{Names, normalize}
use kydns_server.Policy.Set.{member}
use kydns_server.Zone.Matcher.{sort_texts}

abbrev pub format_domains : Bytes
format_domains = bytes "domains"

abbrev pub format_hosts : Bytes
format_hosts = bytes "hosts"

abbrev pub format_adblock : Bytes
format_adblock = bytes "adblock"

abbrev pub max_entries : ℕ
max_entries = 2 ^ 21

abbrev pub max_line_bytes : ℕ
max_line_bytes = 4096

abbrev pub local_names : List Bytes
local_names =
    bytes "localhost"
    ∷ bytes "localhost.localdomain"
    ∷ bytes "local"
    ∷ bytes "broadcasthost"
    ∷ bytes "ip6-localhost"
    ∷ bytes "ip6-loopback"
    ∷ bytes "ip6-localnet"
    ∷ bytes "ip6-mcastprefix"
    ∷ bytes "ip6-allnodes"
    ∷ bytes "ip6-allrouters"
    ∷ bytes "ip6-allhosts"
    ∷ []

unfoldable pub valid_format : Bytes → Bool
valid_format f = f == format_domains || f == format_hosts || f == format_adblock

pub record ParseResult : Type 0 where
  pub domains : List Bytes
  pub skipped : ℕ

-- The names after the sink address of a hosts line.
unfoldable pub hosts_names : List Bytes → Option (List Bytes)
hosts_names [] = none
hosts_names (_ ∷ []) = none
hosts_names (_ ∷ name ∷ names) = some (name ∷ names)

unfoldable pub adblock_rule : Bytes → Option (List Bytes)
adblock_rule rule = if rule == [] || contains_byte b'^' rule then none else some (rule ∷ [])

-- lineDomains; `none` is a line that the format cannot represent.
unfoldable pub line_domains : Bytes → Bytes → Option (List Bytes)
unfolding hosts_names adblock_rule
line_domains line format =
    if format == format_domains
    then if contains_any line (bytes " /" ++ 9 ∷ []) then none else some (line ∷ [])
    else if format == format_hosts
    then hosts_names (fields line)
    else if format == format_adblock
    then if not (has_prefix line (bytes "||")) || contains_any line (bytes "$/*#@")
      then none
      else adblock_rule (trim_last b'^' (trim_prefix line (bytes "||")))
    else none

-- What the loop has seen, and the lines that gave nothing.
pub record Progress : Type 0 where
  pub seen : List Bytes
  pub skipped : ℕ

module _ (names : Names) (format : Bytes) (max : ℕ) where
  -- A name that counts.
  unfoldable pub accept : Bytes → Option Bytes
  accept name = elim (normalize names name) [
    | none ↦ none
    | some n ↦ if member n local_names then none else some n
  ]

  -- The loop over the names of a line, with how many have counted; `none` is the entry ceiling.
  unfoldable pub add_names : List Bytes → List Bytes → ℕ → Option (List Bytes × ℕ)
  add_names [] seen added = some (seen, added)
  add_names (name ∷ more) seen added = elim (accept name) [
    | none ↦ add_names more seen added
    | some n ↦
        if member n seen
        then add_names more seen (added + 1)
        else if ltb max (suc (length seen))
        then none
        else add_names more (n ∷ seen) (added + 1)
  ]

  unfoldable pub add_line : List Bytes → Progress → Option Progress
  add_line found p = elim (add_names found p.seen 0) [
    | none ↦ none
    | some (seen, added) ↦
        some (record { seen = seen; skipped = if added == 0 then p.skipped + 1 else p.skipped })
  ]

  abbrev pub skip : Progress → Progress
  skip p = record p { skipped = p.skipped + 1 }

  -- A line within the ceiling.
  unfoldable pub read_line : Bytes → Progress → Option Progress
  read_line raw p =
      let line = trim_space raw in
      if line == [] || has_prefix line (bytes "#") || has_prefix line (bytes "!")
      then some p
      else elim (line_domains line format) [
        | none ↦ some (skip p)
        | some [] ↦ some (skip p)
        | some (name ∷ more) ↦ add_line (name ∷ more) p
      ]

  -- The loop over the lines; one that does not fit the buffer is skipped.
  unfoldable pub read_lines : List Bytes → Progress → Option Progress
  read_lines [] p = some p
  read_lines (raw ∷ more) p =
      if leb max_line_bytes (length raw)
      then read_lines more (skip p)
      else elim (read_line raw p) [ none ↦ none | some q ↦ read_lines more q ]

  unfoldable pub parse_limit : Bytes → Option ParseResult
  parse_limit body =
      if not (valid_format format)
      then none
      else elim (read_lines (split 10 body) (record { seen = []; skipped = 0 })) [
        | none ↦ none
        | some p ↦ some (record { domains = sort_texts p.seen; skipped = p.skipped })
      ]

unfoldable pub parse : Names → Bytes → Bytes → Option ParseResult
parse names format body = parse_limit names format max_entries body
