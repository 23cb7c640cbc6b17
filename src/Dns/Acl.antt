-- ===== src/Dns/Acl.antt =====
-- internal/dnsserver/acl.go: the query allow-list and its refusal counters. The atomics make each
-- method one step; counters are 64-bit; `now` is in nanoseconds.
pub mod Masking
use kydns_server.Prelude.{
  ℕ, ◌+◌, ◌*◌, ◌%◌, ◌^◌, ◌/◌, Bool, true, false, List, [], ◌∷◌, ◌==◌, nat_eq, ltb, if◌then◌else◌,
  map, not,
}
use kydns_server.Net.{Addr, Prefix, v4, masked, contains, is_valid, unmap}

-- settings.TailscaleCGNAT, 100.64.0.0/10
abbrev pub cgnat_prefix : Prefix
cgnat_prefix = record { addr = v4 0x64400000; bits = 10 }

pub record Acl : Type 0 where
  pub allowed : List Prefix
  pub total : ℕ
  pub cgnat : ℕ
  pub last_cgnat : ℕ

unfoldable pub replace : Acl → List Prefix → Acl
replace a prefixes = record a { allowed = map masked prefixes }

unfoldable pub new_acl : List Prefix → Acl
unfolding replace
new_acl prefixes = replace (record { allowed = []; total = 0; cgnat = 0; last_cgnat = 0 }) prefixes

-- Allow's loop.
unfoldable pub any_contains : List Prefix → Addr → Bool
any_contains [] addr = false
any_contains (p ∷ ps) addr = if contains p addr then true else any_contains ps addr

abbrev count : ℕ → ℕ
count n = (n + 1) % 2 ^ 64

unfoldable pub refuse : Acl → Addr → ℕ → Acl
refuse a addr now =
    let counted = record a { total = count a.total } in
    if contains cgnat_prefix addr
    then record counted { cgnat = count a.cgnat; last_cgnat = now / 10 ^ 9 }
    else counted

unfoldable pub allow : Acl → Addr → ℕ → Acl × Bool
allow a addr now =
    if not (is_valid addr)
    then (record a { total = count a.total }, false)
    else if any_contains a.allowed (unmap addr)
    then (a, true)
    else (refuse a (unmap addr) now, false)

-- RecentCGNATRefusal: now - last < within, in nanoseconds
unfoldable pub recent_cgnat_refusal : Acl → ℕ → ℕ → Bool
recent_cgnat_refusal a within now =
    if a.last_cgnat == 0 then false else ltb now (within + a.last_cgnat * 10 ^ 9)
