-- ===== src/Dns/Authoritative/Arpa.antt =====
-- internal/dnsserver/auth.go: a reverse name parsed back into an address.
use kydns_server.Prelude.{
  ℕ, ◌-◌, ◌%◌, ◌&&◌, not, Option, none, some, List, [], ◌∷◌, ◌++◌, ◌==◌, nat_eq, string_eq,
  if◌then◌else◌, length,
}
use kydns_server.Text.{
  Bytes, bytes_eq, bytes, to_lower, trim_last, has_suffix, split, join, trim_suffix,
}
use kydns_server.Net.{Addr}

-- The loop that writes the groups of an IPv6 address, from the nibble at i down to the first.
unfoldable pub groups : ℕ → List Bytes → Bytes
groups i [] = []
groups i (nib ∷ nibs) =
    let rest = groups (i - 1) nibs in
    nib ++ (if i % 4 == 0 && not (i == 0) then b':' ∷ rest else rest)

unfoldable pub backwards : List Bytes → List Bytes → List Bytes
backwards [] out = out
backwards (s ∷ ss) out = backwards ss (s ∷ out)

-- The parts of an IPv4 name, and the nibbles of an IPv6 name, as the text of an address.
unfoldable pub v4_text : List Bytes → Option Bytes
v4_text parts = if length parts == 4 then some (join (b'.' ∷ []) (backwards parts [])) else none

unfoldable pub v6_text : List Bytes → Option Bytes
v6_text nibs = if length nibs == 32 then some (groups 31 (backwards nibs [])) else none

unfoldable pub address_text : Bytes → Option Bytes
address_text n =
    if has_suffix n (bytes ".in-addr.arpa")
    then v4_text (split b'.' (trim_suffix n (bytes ".in-addr.arpa")))
    else if has_suffix n (bytes ".ip6.arpa")
    then v6_text (split b'.' (trim_suffix n (bytes ".ip6.arpa")))
    else none

-- `netip.ParseAddr` is an argument.
unfoldable pub addr_from_arpa : (Bytes → Option Addr) → Bytes → Option Addr
addr_from_arpa parse_addr name = elim (address_text (trim_last b'.' (to_lower name))) [
  | none ↦ none
  | some s ↦ parse_addr s
]
