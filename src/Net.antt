-- ===== src/Net.antt =====
-- Go's `net/netip`, as far as the program uses it: addresses, prefixes, and their tests.
use kydns_server.Prelude.{
  ℕ, ◌+◌, ◌-◌, ◌*◌, ◌/◌, ◌^◌, String, Bool, true, false, ◌&&◌, Eq, nat_eq, ◌==◌, same_text, ltb,
  if◌then◌else◌, string_discrete,
}
use native.Mathlib.Decide.{ℕ_discrete}

-- `netip.Addr`. `invalid` is the zero value; a zone is only ever set on a v6 address.
pub data Addr : Type 0 where
  invalid : Addr
  v4 : ℕ → Addr
  v6 : ℕ → String → Addr

unfoldable pub Addr-discrete : Discrete Addr
Addr-discrete = hlevel (ℕ_discrete, string_discrete)

instance abbrev pub addr_eq : Eq Addr
addr_eq = record { dec = Addr-discrete }

abbrev pub is_valid : Addr → Bool
is_valid invalid = false
is_valid (v4 _) = true
is_valid (v6 _ _) = true

abbrev pub is4 : Addr → Bool
is4 (v4 _) = true
is4 invalid = false
is4 (v6 _ _) = false

-- The 32-bit value of a v4 address (0 for any other, which callers exclude by `is4`).
abbrev pub u32_of : Addr → ℕ
u32_of (v4 n) = n
u32_of invalid = 0
u32_of (v6 _ _) = 0

-- `Addr.Next`: the zero value after the last address of the family.
abbrev pub next : Addr → Addr
next invalid = invalid
next (v4 n) = if ltb (n + 1) (2 ^ 32) then v4 (n + 1) else invalid
next (v6 n z) = if ltb (n + 1) (2 ^ 128) then v6 (n + 1) z else invalid

-- `Addr.Unmap`: ::ffff:a.b.c.d becomes a.b.c.d.
abbrev pub unmap : Addr → Addr
unmap invalid = invalid
unmap (v4 n) = v4 n
unmap (v6 n z) = if n / 2 ^ 32 == 0xffff then v4 (n - 0xffff * 2 ^ 32) else v6 n z

abbrev pub is_unspecified : Addr → Bool
is_unspecified invalid = false
is_unspecified (v4 n) = n == 0
is_unspecified (v6 n z) = n == 0 && same_text z ""

-- A valid `netip.Prefix`: an address with no zone and a length of at most its family's width.
pub record Prefix : Type 0 where
  pub addr : Addr
  pub bits : ℕ

unfoldable pub Prefix-discrete : Discrete Prefix
Prefix-discrete = hlevel (ℕ_discrete, Addr-discrete)

instance abbrev pub prefix_eq : Eq Prefix
prefix_eq = record { dec = Prefix-discrete }

-- n with its low `k` bits cleared, and n shifted right by `k`.
abbrev high : ℕ → ℕ → ℕ
high n k = n / 2 ^ k

-- `Prefix.Masked`
abbrev pub masked : Prefix → Prefix
masked p = record { addr = mask p.addr p.bits; bits = p.bits }
  where
    mask : Addr → ℕ → Addr
    mask invalid b = invalid
    mask (v4 n) b = v4 (high n (32 - b) * 2 ^ (32 - b))
    mask (v6 n z) b = v6 (high n (128 - b) * 2 ^ (128 - b)) z

-- `Prefix.Contains`: the families agree, the tested address has no zone, and the top bits agree.
abbrev pub within : Addr → ℕ → Addr → Bool
within (v4 n) b (v4 m) = high n (32 - b) == high m (32 - b)
within (v6 n _) b (v6 m z) = same_text z "" && (high n (128 - b) == high m (128 - b))
within _ b _ = false

abbrev pub contains : Prefix → Addr → Bool
contains p a = within p.addr p.bits a
