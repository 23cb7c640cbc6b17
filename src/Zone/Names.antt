-- ===== src/Zone/Names.antt =====
-- internal/zone/snapshot.go: qualified names, and the reverse names of addresses.
use kydns_server.Prelude.{
  ℕ, zero, suc, ◌+◌, ◌-◌, ◌/◌, ◌%◌, ◌^◌, Bool, false, ◌||◌, List, [], ◌∷◌, ◌++◌, nat_eq, ltb,
  if◌then◌else◌,
}
use kydns_server.Text.{Bytes, bytes_eq, bytes, to_lower, trim_last, has_suffix}
use kydns_server.Net.{Addr, Prefix, invalid, v4, v6, contains, unmap}

unfoldable pub qualify : Bytes → Bytes → Bytes
qualify name zone =
    let n = to_lower (trim_last b'.' name) in
    if has_suffix (n ++ b'.' ∷ []) zone then n ++ b'.' ∷ [] else n ++ b'.' ∷ zone

unfoldable pub in_zones : Addr → List Prefix → Bool
in_zones a [] = false
in_zones a (z ∷ zs) = contains z a || in_zones a zs

-- `%d.` of a byte
unfoldable pub decimal : ℕ → Bytes
decimal n =
    let ones = (b'0' + n % 10) ∷ b'.' ∷ [] in
    let tens = if ltb n 10 then ones else (b'0' + n / 10 % 10) ∷ ones in
    if ltb n 100 then tens else (b'0' + n / 100) ∷ tens

-- `%x.` of four bits
unfoldable pub hex_digit : ℕ → Bytes
hex_digit n = (if ltb n 10 then b'0' + n else b'a' + n - 10) ∷ b'.' ∷ []

-- From the lowest four bits up.
unfoldable pub nibbles : ℕ → ℕ → Bytes
unfolding hex_digit
nibbles zero n = bytes "ip6.arpa."
nibbles (suc k) n = hex_digit (n % 16) ++ nibbles k (n / 16)

-- arpaName, which the code calls on parsed addresses only
unfoldable pub arpa_name : Addr → Bytes
unfolding decimal nibbles
arpa_name a = elim (unmap a) [
  | v4 n ↦
      decimal (n % 256)
      ++ decimal (n / 2 ^ 8 % 256)
      ++ decimal (n / 2 ^ 16 % 256)
      ++ decimal (n / 2 ^ 24 % 256)
      ++ bytes "in-addr.arpa."
  | v6 n z ↦ nibbles 32 n
  | invalid ↦ nibbles 32 0
]
