-- ===== src/Dhcp/Hostname.antt =====
-- internal/dhcpd: sanitizeHostname of the server, on option 12 of a client's message.
use kydns_server.Prelude.{
  ℕ, ◌≡◌, ◌⊎◌, inl, inr, sym, subst, Bool, true, ◌||◌, ◌&&◌, not, [], ◌∷◌, ◌==◌, nat_eq, leb, ltb,
  if◌then◌else◌, length, arith, Bool-cases,
}
use kydns_server.Text.{Bytes, bytes_eq, to_lower, trim_space}
use kydns_server.Policy.Normalize.{first_is, last_is, OnlyLabelBytes, IsLabel}

-- h[:i] at the first dot
unfoldable pub first_part : Bytes → Bytes
first_part [] = []
first_part (c ∷ s) = let rest = first_part s in if c == b'.' then [] else c ∷ rest

unfoldable pub host_byte : ℕ → Bool
host_byte c = (leb b'a' c && leb c b'z') || (leb b'0' c && leb c b'9') || c == b'-'

unfoldable pub host_bytes : Bytes → Bool
host_bytes [] = true
host_bytes (c ∷ s) = host_byte c && host_bytes s

unfoldable pub check_host : Bytes → Bytes
check_host h =
    if h == [] || ltb 63 (length h)
    then []
    else if not (host_bytes h)
    then []
    else if first_is b'-' h || last_is b'-' h
    then []
    else h

unfoldable pub sanitize_hostname : Bytes → Bytes
sanitize_hostname h = check_host (first_part (to_lower (trim_space h)))

host_bytes-OnlyLabelBytes : (s : Bytes) → host_bytes s ≡ true → OnlyLabelBytes s
unfolding host_bytes host_byte
host_bytes-OnlyLabelBytes [] h = tt
host_bytes-OnlyLabelBytes (c ∷ s) h = (ground arith, host_bytes-OnlyLabelBytes s (ground arith))

-- A text that passes is kept as it is, and is a label; any other becomes the empty text.
check_host-IsLabel : (s : Bytes) → (check_host s ≡ []) ⊎ ((check_host s ≡ s) × IsLabel s)
unfolding check_host
check_host-IsLabel [] = inl (ground arith)
check_host-IsLabel (c ∷ s) = elim (Bool-cases (ltb 63 (length (c ∷ s)))) [
  | inl long ↦ inl (ground arith)
  | inr short ↦ elim (Bool-cases (host_bytes (c ∷ s))) [
    | inr strange ↦ inl (ground arith)
    | inl plain ↦ elim (Bool-cases (first_is b'-' (c ∷ s) || last_is b'-' (c ∷ s))) [
      | inl hyphen ↦ inl (ground arith)
      | inr bare ↦ inr (
        ground arith,
        record {
          nonempty = omega arith;
          short = ground arith;
          plain = host_bytes-OnlyLabelBytes (c ∷ s) plain;
          starts = ground arith;
          ends = ground arith;
        },
      )
    ]
  ]
]

-- Whatever a client sends as its name, what is published is empty or a host name label of the first
-- part of it, in lower case and without the white space around it.
pub sanitize_hostname-IsLabel :
    (h : Bytes)
    → (sanitize_hostname h ≡ [])
      ⊎ ((sanitize_hostname h ≡ first_part (to_lower (trim_space h)))
          × IsLabel (sanitize_hostname h))
unfolding sanitize_hostname
sanitize_hostname-IsLabel h = elim (check_host-IsLabel (first_part (to_lower (trim_space h)))) [
  | inl gone ↦ inl gone
  | inr (kept, label) ↦ inr (kept, subst IsLabel (sym kept) label)
]
